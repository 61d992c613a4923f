-- ===== src/Mobile/Tests.antt =====
-- The mobile node on small inputs.
use popura.Base.{
  Option, ℕ, zero, suc, min, true, false, ◌≡◌, refl, ◌↔◌, List, [], ◌∷◌, ◌++◌, none, some, length,
  if◌then◌else◌,
}
use popura.Base.Panic.{value, panic, nil_dereference, raised}
use popura.Base.Text.{Bytes, bytes, same}
use popura.Keys.Hex.{decode_string}
use popura.Yggdrasil.Config.{NodeConfig, MulticastInterface, CoreOption, peer, allowed_public_key}
use popura.Mobile.{World, Yggdrasil, start_json, start_autoconfigure}
use popura.Mobile.Start.{Starts, start_json_iff, start_json_error_iff}

abbrev some_config : NodeConfig
some_config = record {
  private_key = bytes "0aFF";
  node_info = [];
  node_info_privacy = false;
  listen = [];
  peers = bytes "tls://a" ∷ [];
  interface_peers = (bytes "eth0", bytes "tls://b" ∷ []) ∷ [];
  allowed_public_keys = bytes "01" ∷ [];
  admin_listen = [];
  multicast_interfaces =
      record { regex = bytes ".*"; beacon = true; listen = true; port = 0; priority = 0 } ∷ [];
  if_name = bytes "auto";
  if_mtu = 65535;
}

-- An adapter that gives back what it was written, in its order, with the MTU that was set.
abbrev Adapter : Type 0
Adapter = List Bytes × ℕ

unfoldable fill_buffer : ℕ → Bytes → Bytes
fill_buffer zero p = []
fill_buffer (suc n) [] = 0 ∷ fill_buffer n []
fill_buffer (suc n) (b ∷ p) = b ∷ fill_buffer n p

abbrev read_packet : Adapter → ℕ → Adapter × Bytes × ℕ
read_packet ([], mtu) n = (([], mtu), fill_buffer n [], 0)
read_packet (p ∷ ps, mtu) n = ((ps, mtu), fill_buffer n p, min n (length p))

-- Its core is what `core.New` was given; the empty text unmarshals as null does.
abbrev phone : World (Bytes × List CoreOption) (List MulticastInterface) Adapter
phone = record {
  generated = record some_config { private_key = bytes "zz" };
  unmarshal = λ text config.
      if same text (bytes "null")
      then (none, true)
      else if same text (bytes "{}")
      then (some config, true)
      else if same text (bytes "{…}")
      then (some some_config, true)
      else (some config, false);
  marshal = λ config. some config.if_name;
  new_core = λ sk options. some (sk, options);
  compiles = λ regex. true;
  new_multicast = λ core interfaces. (some interfaces, true);
  stop_multicast = λ m. value (m, true);
  stop_core = λ core. value none;
  new_rwc = λ core. ([], 65535);
  max_mtu = λ s. 1280;
  set_mtu = λ s mtu. (s.0, mtu);
  write = λ s p. (s.0 ++ (p ∷ []), s.1);
  read = read_packet;
  address_text = λ core. value [];
  subnet_text = λ core. value [];
  public_key = λ core. value [];
  coords_text = λ core. value [];
  peers = λ core. value [];
  dht_json = λ core. value none;
  mtu = λ core. value 1280;
  ip_text = λ key. key;
  marshal_peers = λ peers. some [];
}

abbrev fresh : Yggdrasil (Bytes × List CoreOption) (List MulticastInterface) Adapter
fresh = record { core = none; iprwc = none; config = none; multicast = none }

abbrev started : Yggdrasil (Bytes × List CoreOption) (List MulticastInterface) Adapter
started = record {
  core = some (
    10 ∷ 255 ∷ [],
    peer (bytes "tls://a") []
        ∷ peer (bytes "tls://b") (bytes "eth0")
        ∷ allowed_public_key (1 ∷ [])
        ∷ [],
  );
  iprwc = some ([], 1280);
  config = some some_config;
  multicast = some some_config.multicast_interfaces;
}

start_json_iff_example :
    (start_json phone (bytes "{…}") fresh ≡ value (started, true))
    ↔ Starts phone (bytes "{…}") fresh started
start_json_iff_example = start_json_iff phone (bytes "{…}") fresh started

-- The node starts, so neither side is empty.
starts : start_json phone (bytes "{…}") fresh ≡ value (started, true)
unfolding start_json same decode_string
starts = refl

-- The text null leaves no configuration to read.
null_panics : start_json phone (bytes "null") fresh ≡ panic nil_dereference
unfolding start_json same decode_string
null_panics = refl

bad_key_panics : start_autoconfigure phone fresh ≡ panic raised
unfolding start_autoconfigure same decode_string
bad_key_panics = refl

start_json_error_iff_example :
    (start_json phone (bytes "[") fresh
      ≡ value (record fresh { config = some phone.generated }, false))
    ↔ ((config : Option NodeConfig) × (phone.unmarshal (bytes "[") phone.generated
          ≡ (config, false))
        × (record fresh { config = some phone.generated } ≡ record fresh { config = config }))
start_json_error_iff_example =
    start_json_error_iff phone (bytes "[") fresh (record fresh { config = some phone.generated })

-- The text is refused.
refuses :
    start_json phone (bytes "[") fresh
    ≡ value (record fresh { config = some phone.generated }, false)
unfolding start_json same
refuses = refl
