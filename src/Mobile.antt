-- ===== src/Mobile.antt =====
-- contrib/mobile: the node for phones. mobile.go, and the loggers of the three platforms.
pub mod Options
pub mod Start
mod Tests
use popura.Base.{
  ℕ, ◌+◌, Bool, true, false, ◌&&◌, List, [], ◌∷◌, ◌++◌, map, Option, none, some, ltb, leb,
  if◌then◌else◌, length, take,
}
use popura.Base.Panic.{
  Exec, value, panic, slice_out_of_bounds, nil_dereference, raised, ◌>>=◌, ◌>>◌,
}
use popura.Base.Text.{Bytes, bytes}
use popura.Keys.Hex.{decode_string, encode_to_string}
use popura.Yggdrasil.Config.{
  NodeConfig, MulticastInterface, CoreOption, decoded, allowed_options, peer_options,
  interface_options,
}

-- `core.PeerInfo`: the key, and the rest of it as it is marshalled.
pub record PeerInfo : Type 0 where
  pub key : Bytes
  pub info : Bytes

-- The packages core, multicast and ipv6rwc, with their types C, M and S, and json, address, regexp and
-- version. A method may be called on nil. `unmarshal` leaves nil in the pointer for the text null,
-- and gives false for an error; `read` gives the buffer of the size asked for after the read, and the
-- count that it returns.
pub record World (C M S : Type 0) : Type 0 where
  pub generated : NodeConfig
  pub unmarshal : Bytes → NodeConfig → Option NodeConfig × Bool
  pub marshal : NodeConfig → Option Bytes
  pub new_core : Bytes → List CoreOption → Option C
  pub compiles : Bytes → Bool
  pub new_multicast : C → List MulticastInterface → Option M × Bool
  pub stop_multicast : Option M → Exec (Option M × Bool)
  pub stop_core : Option C → Exec (Option C)
  pub new_rwc : C → S
  pub max_mtu : S → ℕ
  pub set_mtu : S → ℕ → S
  pub write : S → Bytes → S
  pub read : S → ℕ → S × Bytes × ℕ
  pub address_text : Option C → Exec Bytes
  pub subnet_text : Option C → Exec Bytes
  pub public_key : Option C → Exec Bytes
  pub coords_text : Option C → Exec Bytes
  pub peers : Option C → Exec (List PeerInfo)
  pub dht_json : Option C → Exec (Option Bytes)
  pub mtu : Option C → Exec ℕ
  pub ip_text : Bytes → Bytes
  pub marshal_peers : List (PeerInfo × Bytes) → Option Bytes

-- `Yggdrasil`, without its logger.
pub record Yggdrasil (C M S : Type 0) : Type 0 where
  pub core : Option C
  pub iprwc : Option S
  pub config : Option NodeConfig
  pub multicast : Option M

-- What a logger calls: `log.Println`, the function `Log` of Objective-C with the bytes at its pointer,
-- or `fmt.Print`.
pub data Call : Type 0 where
  println log_c print : Bytes → Call

-- `MobileLogger.Write` of the three platforms: what it calls, and the number that it returns.
unfoldable pub write_android : Bytes → Call × ℕ
write_android p = (println p, length p)

unfoldable pub write_ios : Bytes → Call × ℕ
write_ios p = let p' = p ++ (0 ∷ []) in (log_c p', length p')

unfoldable pub write_other : Bytes → Call × ℕ
write_other p = (print p, length p)

-- `if err != nil { panic(err) }`
abbrev pub must : {A : Type 0} → Option A → Exec A
must none = panic raised
must (some a) = value a

-- `var buf [65535]byte`
abbrev pub buffer_size : ℕ
buffer_size = 65535

-- The options of `core.New`.
unfoldable pub core_options : NodeConfig → Exec (List CoreOption)
unfolding allowed_options interface_options
core_options config = do
  allowed ← allowed_options config.allowed_public_keys
  value (peer_options [] config.peers ++ (interface_options config.interface_peers ++ allowed))

module _ {C M S : Type 0} (w : World C M S) where
  -- `regexp.MustCompile` of each interface.
  unfoldable pub compile_all : List MulticastInterface → Exec (Unit {0})
  compile_all [] = value tt
  compile_all (intf ∷ rest) = if w.compiles intf.regex then compile_all rest else panic raised

  -- The multicast module: none without interfaces, and what `multicast.New` gave where that failed.
  unfoldable pub setup_multicast : Option M → C → List MulticastInterface → Exec (Option M)
  unfolding compile_all
  setup_multicast old core [] = value old
  setup_multicast old core (intf ∷ rest) = do
    compile_all (intf ∷ rest)
    let (multicast, ok) = w.new_multicast core (intf ∷ rest)
    value multicast

  -- The adapter with its MTU, the one of the configuration or the largest that the adapter takes.
  unfoldable pub setup_rwc : C → ℕ → S
  setup_rwc core if_mtu =
      let iprwc = w.new_rwc core in
      let mtu = if ltb (w.max_mtu iprwc) if_mtu then w.max_mtu iprwc else if_mtu in
      w.set_mtu iprwc mtu

  -- `StartJSON` behind the configuration.
  unfoldable pub start_config : Yggdrasil C M S → NodeConfig → Exec (Yggdrasil C M S)
  unfolding decoded core_options setup_multicast setup_rwc
  start_config m config = do
    sk ← decoded (decode_string config.private_key)
    options ← core_options config
    core ← must (w.new_core sk options)
    multicast ← setup_multicast m.multicast core config.multicast_interfaces
    value (record {
      core = some core;
      iprwc = some (setup_rwc core config.if_mtu);
      config = some config;
      multicast = multicast;
    })

  -- What follows `json.Unmarshal`, by the pointer that it leaves and whether there is no error.
  unfoldable pub start_unmarshalled :
      Yggdrasil C M S → Option NodeConfig × Bool → Exec (Yggdrasil C M S × Bool)
  unfolding start_config
  start_unmarshalled m (config, false) = value (record m { config = config }, false)
  start_unmarshalled m (none, true) = panic nil_dereference
  start_unmarshalled m (some config, true) = start_config m config >>= λ m'. value (m', true)

  -- `StartJSON`: the new state, and whether there is no error.
  unfoldable pub start_json : Bytes → Yggdrasil C M S → Exec (Yggdrasil C M S × Bool)
  unfolding start_unmarshalled
  start_json configjson m = start_unmarshalled m (w.unmarshal configjson w.generated)

  -- `StartAutoconfigure`
  unfoldable pub start_autoconfigure : Yggdrasil C M S → Exec (Yggdrasil C M S × Bool)
  unfolding start_json
  start_autoconfigure m = start_json (bytes "{}") m

  abbrev written : Yggdrasil C M S → Option S → Bytes → Yggdrasil C M S
  written m none p = m
  written m (some iprwc) p = record m { iprwc = some (w.write iprwc p) }

  -- `Send`, which returns no error.
  unfoldable pub send : Bytes → Yggdrasil C M S → Yggdrasil C M S
  send p m = written m m.iprwc p

  abbrev received : Yggdrasil C M S → Option S → Exec (Yggdrasil C M S × Bytes)
  received m none = value (m, [])
  received m (some iprwc) =
      let (iprwc', buf, n) = w.read iprwc buffer_size in
      if leb n buffer_size
      then value (record m { iprwc = some iprwc' }, take n buf)
      else panic slice_out_of_bounds

  -- `Recv`, which returns no error.
  unfoldable pub recv : Yggdrasil C M S → Exec (Yggdrasil C M S × Bytes)
  recv m = received m m.iprwc

  abbrev stop_rest : Yggdrasil C M S → Bool → Exec (Yggdrasil C M S × Bool)
  stop_rest m false = value (m, false)
  stop_rest m true = w.stop_core m.core >>= λ core. value (record m { core = core }, true)

  -- `Stop`: the new state, and whether there is no error.
  unfoldable pub stop : Yggdrasil C M S → Exec (Yggdrasil C M S × Bool)
  stop m = do
    (multicast, ok) ← w.stop_multicast m.multicast
    stop_rest (record m { multicast = multicast }) ok

  abbrev or_nil : Option Bytes → Bytes
  or_nil none = []
  or_nil (some json) = json

  -- `GenerateConfigJSON`; nil is the empty text.
  unfoldable pub generate_config_json : Bytes
  generate_config_json = or_nil (w.marshal (record w.generated { if_name = bytes "none" }))

  abbrev or_braces : Option Bytes → Bytes
  or_braces none = bytes "{}"
  or_braces (some json) = json

  unfoldable pub get_address_string : Yggdrasil C M S → Exec Bytes
  get_address_string m = w.address_text m.core

  unfoldable pub get_subnet_string : Yggdrasil C M S → Exec Bytes
  get_subnet_string m = w.subnet_text m.core

  unfoldable pub get_public_key_string : Yggdrasil C M S → Exec Bytes
  get_public_key_string m = w.public_key m.core >>= λ key. value (encode_to_string key)

  unfoldable pub get_coords_string : Yggdrasil C M S → Exec Bytes
  get_coords_string m = w.coords_text m.core

  -- The loop of `GetPeersJSON`.
  abbrev with_ip : PeerInfo → PeerInfo × Bytes
  with_ip v = (v, w.ip_text v.key)

  unfoldable pub get_peers_json : Yggdrasil C M S → Exec Bytes
  get_peers_json m =
      w.peers m.core >>= λ peers. value (or_braces (w.marshal_peers (map with_ip peers)))

  unfoldable pub get_dht_json : Yggdrasil C M S → Exec Bytes
  get_dht_json m = w.dht_json m.core >>= λ json. value (or_braces json)

  unfoldable pub get_mtu : Yggdrasil C M S → Exec ℕ
  get_mtu m = w.mtu m.core
