-- ===== src/Yggdrasilctl.antt =====
-- cmd/yggdrasilctl: the client of the admin socket. The endpoint, the connection and the request.
pub mod Arguments
pub mod Connection
pub mod Endpoint
pub mod Answers
pub mod Output
mod Tests
use popura.Base.{
  ℕ, Bool, true, false, not, ◌&&◌, ◌||◌, List, [], ◌∷◌, Option, none, some, if◌then◌else◌, leb,
  length, drop,
}
use popura.Base.Panic.{Exec, value, panic, slice_out_of_bounds, nil_dereference, raised, ◌>>=◌}
use popura.Base.Text.{Bytes, bytes, same, has_prefix, to_lower, split_two}
use popura.Bom.{to_utf8}
use popura.Flags.{Flags, Given, boolean, text, bool_flag, string_flag}

pub record CmdLineEnv : Type 0 where
  pub args : List Bytes
  pub endpoint : Bytes
  pub server : Bytes
  pub injson : Bool
  pub ver : Bool

-- An entry of the parsed configuration file: a string, or a value of another type.
pub data Value : Type 0 where
  string : Bytes → Value
  structured : Value

-- The fields of `url.URL` that are read.
pub record Url : Type 0 where
  pub scheme : Bytes
  pub host : Bytes

-- `admin.AdminSocketRequest`, and the fields of `admin.AdminSocketResponse` that are read.
pub record Request : Type 0 where
  pub name : Bytes
  pub arguments : Bytes

pub record Response : Type 0 where
  pub status : Bytes
  pub error : Bytes
  pub response : Bytes

-- A Go map from strings to strings: each key once.
abbrev pub Dict : Type 0
Dict = List (Bytes × Bytes)

-- The default endpoint, the configuration file, the network, and the packages that read and write
-- their formats; `none` is an error. A connection answers a request, or fails to.
pub record Outside : Type 0 where
  pub default_admin_listen : Bytes
  pub config_file : Option Bytes
  pub decode_utf16 : Bytes → Option Bytes
  pub unmarshal_config : Bytes → Option (List (Bytes × Value))
  pub parse_url : Bytes → Option Url
  pub dial : Bytes → Bytes → Option (Request → Option Response)
  pub marshal : Dict → Option Bytes

-- `newCmdLineEnv`
unfoldable pub new_cmd_line_env : Outside → CmdLineEnv
new_cmd_line_env o = record {
  args = [];
  endpoint = o.default_admin_listen;
  server = [];
  injson = false;
  ver = false;
}

-- The flags that `parseFlagsAndArgs` defines.
unfoldable pub ctl_flags : Flags
ctl_flags = (bytes "endpoint", text) ∷ (bytes "json", boolean) ∷ (bytes "version", boolean) ∷ []

-- `parseFlagsAndArgs` behind `flag.Parse`: the flags that were set, and `flag.Args()`.
unfoldable pub parse_flags_and_args : CmdLineEnv → Given → List Bytes → CmdLineEnv
parse_flags_and_args env given rest = record env {
  args = rest;
  server = string_flag given (bytes "endpoint") env.endpoint;
  injson = bool_flag given (bytes "json") false;
  ver = bool_flag given (bytes "version") false;
}

-- `dat["AdminListen"].(string)`
unfoldable pub admin_listen : List (Bytes × Value) → Option Bytes
admin_listen [] = none
admin_listen ((key, structured) ∷ dat) =
    let rest = admin_listen dat in if same key (bytes "AdminListen") then none else rest
admin_listen ((key, string s) ∷ dat) =
    let rest = admin_listen dat in if same key (bytes "AdminListen") then some s else rest

-- `if err != nil { panic(err) }`
abbrev pub must {ℓ} : {A : Type ℓ} → Option A → Exec A
must none = panic raised
must (some a) = value a

-- The endpoint after the configuration file, by its AdminListen.
unfoldable pub configured : Bytes → Option Bytes → Bytes
configured endpoint none = endpoint
configured endpoint (some ep) =
    if not (same ep (bytes "none")) && not (same ep []) then ep else endpoint

-- The branch of `setEndpoint` that reads the configuration file.
unfoldable pub read_endpoint : Outside → CmdLineEnv → Option Bytes → Exec CmdLineEnv
unfolding configured admin_listen
read_endpoint o env none = value env
read_endpoint o env (some file) = do
  config ← to_utf8 o.decode_utf16 file
  dat ← must (o.unmarshal_config config)
  value (record env { endpoint = configured env.endpoint (admin_listen dat) })

-- `setEndpoint`
unfoldable pub set_endpoint : Outside → CmdLineEnv → Exec CmdLineEnv
unfolding read_endpoint
set_endpoint o env =
    if same env.server env.endpoint
    then read_endpoint o env o.config_file
    else value (record env { endpoint = env.server })

-- `endpoint[7:]`
unfoldable pub from_seventh : Bytes → Exec Bytes
from_seventh endpoint =
    if leb 7 (length endpoint) then value (drop 7 endpoint) else panic slice_out_of_bounds

-- The switch on the scheme of the endpoint's URL. When the endpoint is no URL, `u` is nil, and
-- `u.Host` in the log line before `net.Dial` is read through it.
unfoldable pub connect_url : Outside → Bytes → Option Url → Exec (Request → Option Response)
unfolding from_seventh
connect_url o endpoint none = panic nil_dereference
connect_url o endpoint (some u) =
    if same (to_lower u.scheme) (bytes "unix")
    then (from_seventh endpoint >>= λ path. must (o.dial (bytes "unix") path))
    else if same (to_lower u.scheme) (bytes "tcp")
    then must (o.dial (bytes "tcp") u.host)
    else panic raised

-- `run` from `url.Parse` to the connection.
unfoldable pub connect : Outside → Bytes → Exec (Request → Option Response)
unfolding connect_url
connect o endpoint = connect_url o endpoint (o.parse_url endpoint)

-- `args[key] = v`
unfoldable pub insert : Bytes → Bytes → Dict → Dict
insert key v [] = (key, v) ∷ []
insert key v ((k, w) ∷ dict) =
    let rest = insert key v dict in if same k key then (k, v) ∷ dict else (k, w) ∷ rest

-- The switch on the tokens of an argument; there is always one.
unfoldable pub add_tokens : List Bytes → Dict → Dict
unfolding insert
add_tokens (key ∷ v ∷ tokens) dict = insert key v dict
add_tokens tokens dict = dict

-- The loop over the arguments after the command, with `args` as accumulator.
unfoldable pub collect : List Bytes → Dict → Dict
unfolding add_tokens
collect [] dict = dict
collect (a ∷ rest) dict = collect rest (add_tokens (split_two b'=' a) dict)

-- `send.Name`: a flag in the place of the command is ignored, and the name stays empty.
unfoldable pub request_name : List Bytes → Bytes
request_name [] = []
request_name (a ∷ rest) = if has_prefix a (bytes "-") then [] else a

-- `args` after the loop.
unfoldable pub request_arguments : List Bytes → Dict
unfolding collect
request_arguments [] = []
request_arguments (a ∷ rest) = collect rest []

-- `run` from the endpoint to the answer, with the request that was sent.
unfoldable pub ask_node : Outside → CmdLineEnv → Exec (Request × Response)
unfolding set_endpoint connect request_name request_arguments
ask_node o env = do
  env' ← set_endpoint o env
  node ← connect o env'.endpoint
  arguments ← must (o.marshal (request_arguments env'.args))
  let request : Request = record { name = request_name env'.args; arguments = arguments }
  answer ← must (node request)
  value (request, answer)
