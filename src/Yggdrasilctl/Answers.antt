-- ===== src/Yggdrasilctl/Answers.antt =====
-- cmd/yggdrasilctl/main.go: the answers to the commands, and the rows of their tables.
use popura.Base.{ℕ, Bool, true, false, List, [], ◌∷◌, ◌++◌, map, Option, if◌then◌else◌}
use popura.Base.Text.{Bytes, bytes, join}

-- The fields that are printed, of the answers in the packages admin, core, multicast and tun.
-- An up time is a whole number of seconds.
pub record ListEntry : Type 0 where
  pub command : Bytes
  pub fields : List Bytes
  pub description : Bytes

pub record Self : Type 0 where
  pub build_name : Bytes
  pub build_version : Bytes
  pub ip_address : Bytes
  pub subnet : Bytes
  pub coords : List ℕ
  pub public_key : Bytes

pub record PeerEntry : Type 0 where
  pub port : ℕ
  pub public_key : Bytes
  pub ip_address : Bytes
  pub uptime : ℕ
  pub rx_bytes : ℕ
  pub tx_bytes : ℕ
  pub priority : ℕ
  pub remote : Bytes

pub record DhtEntry : Type 0 where
  pub public_key : Bytes
  pub ip_address : Bytes
  pub port : ℕ
  pub rest : ℕ

pub record PathEntry : Type 0 where
  pub public_key : Bytes
  pub ip_address : Bytes
  pub path : List ℕ

pub record SessionEntry : Type 0 where
  pub public_key : Bytes
  pub ip_address : Bytes
  pub uptime : ℕ
  pub rx_bytes : ℕ
  pub tx_bytes : ℕ

pub record Tun : Type 0 where
  pub enabled : Bool
  pub name : Bytes
  pub mtu : ℕ

-- `json.Unmarshal` at the type of each answer; of the node information, the values of the map in the
-- order of its `range`.
pub record Decoders : Type 0 where
  pub as_list : Bytes → Option (List ListEntry)
  pub as_self : Bytes → Option Self
  pub as_peers : Bytes → Option (List PeerEntry)
  pub as_dht : Bytes → Option (List DhtEntry)
  pub as_paths : Bytes → Option (List PathEntry)
  pub as_sessions : Bytes → Option (List SessionEntry)
  pub as_node_info : Bytes → Option (List Bytes)
  pub as_interfaces : Bytes → Option (List Bytes)
  pub as_tun : Bytes → Option Tun

-- `fmt.Sprintf` at %d and %v, the text of a duration in seconds and of a number of bytes,
-- and `json.MarshalIndent`.
pub record Formats : Type 0 where
  pub decimal : ℕ → Bytes
  pub decimals : List ℕ → Bytes
  pub duration : ℕ → Bytes
  pub data_unit : ℕ → Bytes
  pub indent : Bytes → Option Bytes

-- A line, or a rendered table with its header and rows.
pub data Output : Type 0 where
  line : Bytes → Output
  table : List Bytes → List (List Bytes) → Output

-- `fmt.Sprintf("%#v", b)`
abbrev pub show_bool : Bool → Bytes
show_bool true = bytes "true"
show_bool false = bytes "false"

abbrev pub list_row : ListEntry → List Bytes
list_row entry =
    entry.command
    ∷ join (bytes ", ") (map (λ field. field ++ bytes "=...") entry.fields)
    ∷ entry.description
    ∷ []

abbrev pub self_rows : Formats → Self → List (List Bytes)
self_rows f resp =
    (bytes "Build name:" ∷ resp.build_name ∷ [])
    ∷ (bytes "Build version:" ∷ resp.build_version ∷ [])
    ∷ (bytes "IPv6 address:" ∷ resp.ip_address ∷ [])
    ∷ (bytes "IPv6 subnet:" ∷ resp.subnet ∷ [])
    ∷ (bytes "Coordinates:" ∷ f.decimals resp.coords ∷ [])
    ∷ (bytes "Public key:" ∷ resp.public_key ∷ [])
    ∷ []

abbrev pub peer_header : List Bytes
peer_header =
    bytes "Port"
    ∷ bytes "Public Key"
    ∷ bytes "IP Address"
    ∷ bytes "Uptime"
    ∷ bytes "RX"
    ∷ bytes "TX"
    ∷ bytes "Pr"
    ∷ bytes "URI"
    ∷ []

abbrev pub peer_row : Formats → PeerEntry → List Bytes
peer_row f peer =
    f.decimal peer.port
    ∷ peer.public_key
    ∷ peer.ip_address
    ∷ f.duration peer.uptime
    ∷ f.data_unit peer.rx_bytes
    ∷ f.data_unit peer.tx_bytes
    ∷ f.decimal peer.priority
    ∷ peer.remote
    ∷ []

abbrev pub dht_row : Formats → DhtEntry → List Bytes
dht_row f dht = dht.public_key ∷ dht.ip_address ∷ f.decimal dht.port ∷ f.decimal dht.rest ∷ []

abbrev pub path_row : Formats → PathEntry → List Bytes
path_row f p = p.public_key ∷ p.ip_address ∷ f.decimals p.path ∷ []

abbrev pub session_row : Formats → SessionEntry → List Bytes
session_row f p =
    p.public_key
    ∷ p.ip_address
    ∷ f.duration p.uptime
    ∷ f.data_unit p.rx_bytes
    ∷ f.data_unit p.tx_bytes
    ∷ []

abbrev pub tun_rows : Formats → Tun → List (List Bytes)
tun_rows f resp =
    (bytes "TUN enabled:" ∷ show_bool resp.enabled ∷ [])
    ∷ (if resp.enabled
        then (bytes "Interface name:" ∷ resp.name ∷ [])
          ∷ (bytes "Interface MTU:" ∷ f.decimal resp.mtu ∷ [])
          ∷ []
        else [])

-- The loop that leaves after the first value.
abbrev pub first_value : List Bytes → List Output
first_value [] = []
first_value (v ∷ vs) = line v ∷ []
