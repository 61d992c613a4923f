-- ===== src/Yggdrasil/Config.antt =====
-- cmd/yggdrasil/main.go: the flags, the node's configuration, and what stands outside.
use popura.Base.{ℕ, Bool, true, false, List, [], ◌∷◌, ◌++◌, Option, none, some}
use popura.Base.Panic.{Exec, value, panic, raised, ◌>>=◌}
use popura.Base.Text.{Bytes}
use popura.Bom.{to_utf8}
use popura.Config.{PopuraConfig, generate_config}
use popura.Module.{Module}
use popura.Keys.Hex.{decode_string}
use popura.Yggdrasil.Args.{YggArgs}

-- `popuraConfig`, with the fields that `run` sets.
unfoldable pub popura_config : YggArgs → PopuraConfig
unfolding generate_config
popura_config args = record {
  autopeering = record generate_config.autopeering { enable = args.autopeer };
  meshname = record generate_config.meshname {
    enable = args.meshnameenable;
    listen = args.meshnamelisten;
  };
}

-- An entry of `MulticastInterfaces`.
pub record MulticastInterface : Type 0 where
  pub regex : Bytes
  pub beacon : Bool
  pub listen : Bool
  pub port : ℕ
  pub priority : ℕ

-- The fields of `config.NodeConfig` that are read; the map of interfaces in the order of its
-- `range`, the node information as text.
pub record NodeConfig : Type 0 where
  pub private_key : Bytes
  pub node_info : Bytes
  pub node_info_privacy : Bool
  pub listen : List Bytes
  pub peers : List Bytes
  pub interface_peers : List (Bytes × List Bytes)
  pub allowed_public_keys : List Bytes
  pub admin_listen : Bytes
  pub multicast_interfaces : List MulticastInterface
  pub if_name : Bytes
  pub if_mtu : ℕ

-- `core.SetupOption`; a peer without an interface has the empty one.
pub data CoreOption : Type 0 where
  node_info listen_address allowed_public_key : Bytes → CoreOption
  node_info_privacy : Bool → CoreOption
  peer : Bytes → Bytes → CoreOption

-- What a `New` returns: an error, nil without an error, or a part.
pub data Made : Type 0 where
  failed absent present : Made

-- What reaches the process: os.Interrupt, SIGTERM, the stop of the Windows service, or a signal that
-- has no effect on it.
pub data Signal : Type 0 where
  interrupt terminate service_stops ignored : Signal

-- `signals` is what reaches the process while the node waits, in order. `core_key`, `core_address` and `core_subnet` are what the new core says of itself, the last two as
-- text. `meshname_waits` and `autopeering_waits` are what happens to a module while the node waits.
-- `overlay` stands for the four calls, of hjson, json twice and mapstructure, that put a file on top
-- of the generated configuration; `none` is the error of one of them. The modules are those of
-- `Module`.
pub record World : Type 1 where
  pub generated : NodeConfig
  pub stdin : Option Bytes
  pub read_file : Bytes → Option Bytes
  pub decode_utf16 : Bytes → Option Bytes
  pub overlay : NodeConfig → Bytes → Option NodeConfig
  pub marshal : Bool → NodeConfig → Option Bytes
  pub version_lines : List Bytes
  pub help : List Bytes
  pub address_text : Bytes → Bytes
  pub subnet_text : Bytes → Bytes
  pub compiles : Bytes → Bool
  pub new_core : Bytes → List CoreOption → Bool
  pub core_key : Bytes
  pub core_address : Bytes
  pub core_subnet : Bytes
  pub new_admin : Bytes → Made
  pub new_multicast : List MulticastInterface → Made
  pub new_tun : Bytes → ℕ → Made
  pub has_syslog : Bool
  pub opens_log : Bytes → Bool
  pub meshname : Module
  pub autopeering : Module
  pub meshname_waits : meshname.State → meshname.State
  pub autopeering_waits : autopeering.State → autopeering.State
  pub signals : List Signal

-- `if err != nil { panic(err) }`
abbrev pub must {ℓ} : {A : Type ℓ} → Option A → Exec A
must none = panic raised
must (some a) = value a

-- `os.ReadFile(useconffile)` or `io.ReadAll(os.Stdin)`.
abbrev pub source : World → Bytes → Option Bytes
source w [] = w.stdin
source w useconffile = w.read_file useconffile

-- `readConfig`
unfoldable pub read_config : World → Bytes → Exec NodeConfig
read_config w useconffile = do
  raw ← must (source w useconffile)
  conf ← to_utf8 w.decode_utf16 raw
  must (w.overlay w.generated conf)

-- `hex.DecodeString` where an error panics.
unfoldable pub decoded : Bytes × Bool → Exec Bytes
decoded (bs, true) = value bs
decoded (bs, false) = panic raised

-- The loop over `cfg.AllowedPublicKeys`.
unfoldable pub allowed_options : List Bytes → Exec (List CoreOption)
unfolding decoded
allowed_options [] = value []
allowed_options (allowed ∷ keys) = do
  k ← decoded (decode_string allowed)
  options ← allowed_options keys
  value (allowed_public_key k ∷ options)

-- The peers of an interface, and the loop over `cfg.InterfacePeers`.
abbrev pub peer_options : Bytes → List Bytes → List CoreOption
peer_options intf [] = []
peer_options intf (uri ∷ peers) = peer uri intf ∷ peer_options intf peers

unfoldable pub interface_options : List (Bytes × List Bytes) → List CoreOption
interface_options [] = []
interface_options ((intf, peers) ∷ rest) = peer_options intf peers ++ interface_options rest

abbrev pub listen_options : List Bytes → List CoreOption
listen_options [] = []
listen_options (addr ∷ rest) = listen_address addr ∷ listen_options rest

-- The options of `core.New`.
unfoldable pub core_options : NodeConfig → Exec (List CoreOption)
unfolding allowed_options interface_options
core_options cfg = do
  allowed ← allowed_options cfg.allowed_public_keys
  value (
      node_info cfg.node_info
      ∷ node_info_privacy cfg.node_info_privacy
      ∷ (listen_options cfg.listen
          ++ (peer_options [] cfg.peers ++ (interface_options cfg.interface_peers ++ allowed))))
