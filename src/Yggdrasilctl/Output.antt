-- ===== src/Yggdrasilctl/Output.antt =====
-- cmd/yggdrasilctl/main.go: what `run` prints of the node's answer, and its exit code.
pub mod Exit
pub mod Main
pub mod Tables
use popura.Base.{ℕ, Bool, true, false, List, [], ◌∷◌, ◌++◌, map, Option, none, some, if◌then◌else◌}
use popura.Base.Panic.{Exec, value, panic, ◌>>=◌}
use popura.Base.Text.{Bytes, bytes, same, to_lower, join}
use popura.Yggdrasilctl.Answers.{
  ListEntry, Self, PeerEntry, DhtEntry, PathEntry, SessionEntry, Tun, Decoders, Formats, Output,
  line, table, show_bool, list_row, self_rows, peer_header, peer_row, dht_row, path_row,
  session_row, tun_rows, first_value,
}
use popura.Flags.{Parsed, parsed, failed, help, fault, parse}
use popura.Yggdrasilctl.{
  ctl_flags, parse_flags_and_args, new_cmd_line_env, Outside, CmdLineEnv, Request, Response, must,
  ask_node,
}

-- The commands that the switch knows.
pub data Command : Type 0 where
  get_list get_self get_peers get_dht get_paths get_sessions get_node_info get_interfaces get_tun
        change_peers unknown :
      Command

-- The cases of the switch on `strings.ToLower(send.Name)`.
unfoldable pub command : Bytes → Command
command name =
    let lower = to_lower name in
    if same lower (bytes "list")
    then get_list
    else if same lower (bytes "getself")
    then get_self
    else if same lower (bytes "getpeers")
    then get_peers
    else if same lower (bytes "getdht")
    then get_dht
    else if same lower (bytes "getpaths")
    then get_paths
    else if same lower (bytes "getsessions")
    then get_sessions
    else if same lower (bytes "getnodeinfo")
    then get_node_info
    else if same lower (bytes "getmulticastinterfaces")
    then get_interfaces
    else if same lower (bytes "gettun")
    then get_tun
    else if same lower (bytes "addpeer")
    then change_peers
    else if same lower (bytes "removepeer")
    then change_peers
    else unknown

-- `table.Render()` of a table with the header and the rows.
abbrev pub rendered : List Bytes → List (List Bytes) → Exec (List Output)
rendered header rows = value (table header rows ∷ [])

-- The body of each case.
unfoldable pub show_response : Decoders → Formats → Command → Bytes → Exec (List Output)
show_response d f get_list response = do
  entries ← must (d.as_list response)
  rendered (bytes "Command" ∷ bytes "Arguments" ∷ bytes "Description" ∷ []) (map list_row entries)
show_response d f get_self response = must (d.as_self response) >>= λ s. rendered [] (self_rows f s)
show_response d f get_peers response = do
  peers ← must (d.as_peers response)
  rendered peer_header (map (peer_row f) peers)
show_response d f get_dht response = do
  entries ← must (d.as_dht response)
  rendered (bytes "Public Key" ∷ bytes "IP Address" ∷ bytes "Port" ∷ bytes "Rest" ∷ [])
      (map (dht_row f) entries)
show_response d f get_paths response = do
  paths ← must (d.as_paths response)
  rendered (bytes "Public Key" ∷ bytes "IP Address" ∷ bytes "Path" ∷ []) (map (path_row f) paths)
show_response d f get_sessions response = do
  sessions ← must (d.as_sessions response)
  rendered (bytes "Public Key" ∷ bytes "IP Address" ∷ bytes "Uptime" ∷ bytes "RX" ∷ bytes "TX" ∷ [])
      (map (session_row f) sessions)
show_response d f get_node_info response = do
  values ← must (d.as_node_info response)
  value (first_value values)
show_response d f get_interfaces response = do
  interfaces ← must (d.as_interfaces response)
  rendered (bytes "Interface" ∷ []) (map (λ p. p ∷ []) interfaces)
show_response d f get_tun response = must (d.as_tun response) >>= λ t. rendered [] (tun_rows f t)
show_response d f change_peers response = value []
show_response d f unknown response = value (line response ∷ [])

-- What is printed of an error.
abbrev pub error_line : Bytes → Bytes
error_line error =
    if same error []
    then bytes "Admin socket returned an error but didn't specify any error text"
    else bytes "Admin socket returned an error: " ++ error

-- `run` after the answer: the exit code and the output.
unfoldable pub print_reply : Decoders → Formats → Bool → Bytes → Response → Exec (ℕ × List Output)
unfolding show_response command
print_reply d f injson name recv =
    let shown = show_response d f (command name) recv.response in
    if same recv.status (bytes "error")
    then value (1, line (error_line recv.error) ∷ [])
    else if injson
    then value (0, elim (f.indent recv.response) [ none ↦ [] | some json ↦ line json ∷ [] ])
    else (shown >>= λ output. value (0, output))

-- `run` where there are arguments, or none.
unfoldable pub run_args :
    Outside → Decoders → Formats → List Output → CmdLineEnv → List Bytes → Exec (ℕ × List Output)
unfolding print_reply
run_args o d f usage env [] = value (0, usage)
run_args o d f usage env (_ ∷ _) = do
  (request, recv) ← ask_node o env
  print_reply d f env.injson request.name recv

-- `run` without what it defers; `usage` and `versions` are the texts of the help and of -version.
unfoldable pub run_body :
    Outside → Decoders → Formats → List Output → List Output → CmdLineEnv → Exec (ℕ × List Output)
unfolding run_args
run_body o d f usage versions env =
    if env.ver then value (0, versions) else run_args o d f usage env env.args

-- The result of `run`, which `main` exits with. After a panic `recover` lets `run` return, and what
-- the deferred function returns is dropped: the result is the zero value.
abbrev pub exit_code : Exec (ℕ × List Output) → ℕ
exit_code (value (code, output)) = code
exit_code (panic cause) = 0

-- `run` from what `flag.Parse` makes of the command line; the package flag itself exits the process.
unfoldable pub run_parsed :
    Outside → Decoders → Formats → List Output → List Output → Parsed → Exec (ℕ × List Output)
unfolding run_body
run_parsed o d f usage versions (parsed given rest) =
    run_body o d f usage versions (parse_flags_and_args (new_cmd_line_env o) given rest)
run_parsed o d f usage versions (failed help) = value (0, usage)
run_parsed o d f usage versions (failed fault) = value (2, usage)

-- `main`: the code that the process exits with.
unfoldable pub main : Outside → Decoders → Formats → List Output → List Output → List Bytes → ℕ
unfolding run_parsed
main o d f usage versions argv = exit_code (run_parsed o d f usage versions (parse ctl_flags argv))
