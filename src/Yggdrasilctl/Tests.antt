-- ===== src/Yggdrasilctl/Tests.antt =====
-- Runs of yggdrasilctl's definitions on concrete arguments and answers.
use popura.Base.{false, ◌≡◌, ◌≢◌, ◌↔◌, refl, List, [], ◌∷◌, Option, none, some, All}
use popura.Base.Panic.{value, panic, nil_dereference}
use popura.Base.Text.{Bytes, bytes, same, has_prefix, split_two, to_lower, join}
use popura.Bom.{to_utf8}
use popura.Yggdrasilctl.{
  ctl_flags, Outside, Url, Request, Response, CmdLineEnv, string, set_endpoint, connect,
  request_arguments, ask_node,
}
use popura.Flags.{parse, shape}
use popura.Yggdrasilctl.Arguments.{lookup, Gives, request_arguments_iff}
use popura.Yggdrasilctl.Connection.{Dials, connect_iff}
use popura.Yggdrasilctl.Endpoint.{Settles, set_endpoint-Settles}
use popura.Yggdrasilctl.Answers.{Decoders, Formats, Output, table}
use popura.Yggdrasilctl.Output.{main, show_response, run_body, exit_code, get_list}
use popura.Yggdrasilctl.Output.Exit.{AnswersError, exit_code_iff}
use popura.Yggdrasilctl.Output.Tables.{IsAligned, show_response-IsAligned}

abbrev socket : Bytes
socket = bytes "unix:///var/run/y.sock"

abbrev default_listen : Bytes
default_listen = bytes "tcp://localhost:9001"

-- The scheme is what stands in front of the first colon, the host what follows it.
abbrev url_of : List Bytes → Option Url
url_of (scheme ∷ rest ∷ []) = some (record { scheme = scheme; host = rest })
url_of pieces = none

abbrev parse_endpoint : Bytes → Option Url
parse_endpoint s = url_of (split_two b':' s)

-- A node that answers every request with an error.
abbrev refusing : Request → Option Response
refusing request =
    some (record { status = bytes "error"; error = bytes "no such command"; response = [] })

abbrev outside : Outside
outside = record {
  default_admin_listen = default_listen;
  config_file = some (bytes "{}");
  decode_utf16 = λ s. none;
  unmarshal_config = λ s. some ((bytes "AdminListen", string socket) ∷ []);
  parse_url = parse_endpoint;
  dial = λ network address. some refusing;
  marshal = λ dict. some (bytes "{}");
}

abbrev env : CmdLineEnv
env = record {
  args = bytes "addPeer" ∷ bytes "uri=tls://a?key=b" ∷ bytes "verbose" ∷ [];
  endpoint = default_listen;
  server = default_listen;
  injson = false;
  ver = false;
}

abbrev settled : CmdLineEnv
settled = record env { endpoint = socket }

env_settles : set_endpoint outside env ≡ value settled
unfolding set_endpoint same to_utf8
env_settles = refl

set_endpoint-Settles_example : Settles outside env settled
set_endpoint-Settles_example = set_endpoint-Settles outside env settled env_settles

connect_iff_example : (connect outside socket ≡ value refusing) ↔ Dials outside socket refusing
connect_iff_example = connect_iff outside socket refusing

socket_connects : connect outside socket ≡ value refusing
unfolding connect same to_lower split_two
socket_connects = refl

-- Without a scheme the endpoint is refused through the nil URL, and no TCP address is dialled.
no_url_faults : connect outside (bytes "localhost") ≡ panic nil_dereference
unfolding connect split_two
no_url_faults = refl

uri_value :
    Gives (bytes "uri") (bytes "tls://a?key=b") (bytes "uri=tls://a?key=b" ∷ bytes "verbose" ∷ [])
unfolding has_prefix
uri_value = ([], bytes "verbose" ∷ [], refl, (refl, tt))

request_arguments_iff_example :
    (lookup (bytes "uri") (request_arguments env.args) ≡ some (bytes "tls://a?key=b"))
    ↔ Gives (bytes "uri") (bytes "tls://a?key=b") (bytes "uri=tls://a?key=b" ∷ bytes "verbose" ∷ [])
request_arguments_iff_example =
    request_arguments_iff (bytes "addPeer") (bytes "uri=tls://a?key=b" ∷ bytes "verbose" ∷ [])
      (bytes "uri") (bytes "tls://a?key=b") (refl, (refl, (refl, tt)))

uri_found : lookup (bytes "uri") (request_arguments env.args) ≡ some (bytes "tls://a?key=b")
unfolding request_arguments split_two same
uri_found = refl

abbrev decoders : Decoders
decoders = record {
  as_list = λ s. some (
      record { command = bytes "list"; fields = bytes "a" ∷ bytes "b" ∷ []; description = [] }
      ∷ []);
  as_self = λ s. none;
  as_peers = λ s. some [];
  as_dht = λ s. none;
  as_paths = λ s. none;
  as_sessions = λ s. none;
  as_node_info = λ s. none;
  as_interfaces = λ s. none;
  as_tun = λ s. some (record { enabled = false; name = []; mtu = 0 });
}

abbrev formats : Formats
formats = record {
  decimal = λ n. n ∷ [];
  decimals = λ ns. ns;
  duration = λ n. n ∷ [];
  data_unit = λ n. n ∷ [];
  indent = λ s. none;
}

abbrev list_output : List Output
list_output =
    table (bytes "Command" ∷ bytes "Arguments" ∷ bytes "Description" ∷ [])
      ((bytes "list" ∷ bytes "a=..., b=..." ∷ [] ∷ []) ∷ [])
    ∷ []

list_shown : show_response decoders formats get_list [] ≡ value list_output
unfolding show_response join
list_shown = refl

show_response-IsAligned_example : All IsAligned list_output
show_response-IsAligned_example =
    show_response-IsAligned decoders formats get_list [] list_output list_shown

exit_code_iff_example :
    (exit_code (run_body outside decoders formats [] [] env) ≡ 1)
    ↔ ((env.ver ≡ false) × (env.args ≢ []) × AnswersError outside env)
exit_code_iff_example = exit_code_iff outside decoders formats [] [] env

refused_code : exit_code (run_body outside decoders formats [] [] env) ≡ 1
unfolding run_body ask_node set_endpoint connect same to_lower split_two request_arguments to_utf8
refused_code = refl

-- A panic on the way gives the code 0.
no_url_code :
    exit_code (run_body outside decoders formats [] [] (record env { server = bytes "localhost" }))
    ≡ 0
unfolding run_body ask_node set_endpoint connect same split_two
no_url_code = refl

-- An example of the help: -v is not defined.
v_exits : main outside decoders formats [] [] (bytes "-v" ∷ bytes "getSelf" ∷ []) ≡ 2
unfolding main parse ctl_flags shape same split_two
v_exits = refl

-- An option behind the command is an argument of the command.
option_is_sent :
    request_arguments (bytes "getPeers" ∷ bytes "-endpoint=tcp://a" ∷ [])
    ≡ (bytes "-endpoint", bytes "tcp://a") ∷ []
unfolding request_arguments same split_two
option_is_sent = refl
