-- ===== src/Yggdrasil/Tests.antt =====
-- Runs of the node's definitions on concrete flags and a world in which everything succeeds.
use popura.Base.{
  true, false, ◌≡◌, ◌↔◌, refl, List, [], ◌∷◌, ◌++◌, none, some, inl, inr, Bool, Option,
}
use popura.Base.Panic.{value}
use popura.Base.Text.{Bytes, bytes, same, to_lower, split_on, split_two}
use popura.Keys.Hex.{decode_string, encode_to_string, from_digit}
use popura.Yggdrasil.LogLevel.{levels, Chooses, set_log_level, set_log_level-prefix}
use popura.Yggdrasil.Trace.{
  logs, stdout, core, admin, multicast, tun, info, waited, stopped, set_up, meshname, autopeering,
  level, traced, lift, emit_all, ◌>>=◌, Lives, Idles,
}
use popura.Yggdrasil.Args.{YggArgs, ygg_flags, get_args}
use popura.Yggdrasil.Args.CommandLine.{command_line}
use popura.Yggdrasil.Config.{
  popura_config, NodeConfig, World, Signal, ignored, terminate, present, absent, core_options,
  decoded,
}
use popura.Autopeering.{Url}
use popura.Autopeering.Lifecycle
use popura.Autopeering.Lifecycle.{Loop, new_loop, nil, finish_round}
use popura.Meshname
use popura.Meshname.{Server, IsServer, init}
use popura.Module.{meshname_module, autopeering_module}
use popura.Flags.{parse, bool_flag, string_flag}
use popura.Yggdrasil.{run, run_node, main, ran, exited, choose_log, ends_context}
use popura.Yggdrasil.Main.{main-command_line}
use popura.Yggdrasil.Leaves.{Leaves}
use popura.Yggdrasil.Shutdown.{with_modules, IsShutDown, run_node-IsShutDown}
use popura.Yggdrasil.Life.{whole_life}
use popura.Yggdrasil.Modes.{run-Lives}
use popura.Yggdrasil.Idle.{run-Idles}
use popura.Yggdrasil.Waits.{Waits, started_parts, run-Waits}
use popura.Yggdrasil.Success.{Succeeds, IsWorking, Configured}
use popura.Yggdrasil.Signals.{HasEnd}
use popura.Yggdrasil.Returns.{run-Succeeds_iff}

abbrev some_config : NodeConfig
some_config = record {
  private_key = bytes "0aFF";
  node_info = [];
  node_info_privacy = false;
  listen = bytes "tls://[::]:0" ∷ [];
  peers = bytes "tls://a" ∷ [];
  interface_peers = (bytes "eth0", bytes "tls://b" ∷ []) ∷ [];
  allowed_public_keys = bytes "01" ∷ [];
  admin_listen = bytes "none";
  multicast_interfaces =
      record { regex = bytes ".*"; beacon = true; listen = true; port = 0; priority = 0 } ∷ [];
  if_name = bytes "auto";
  if_mtu = 65535;
}

-- A server that is a Boolean, and a URL for every line.
abbrev switch : Server Bool
switch = record {
  new = λ listen. false;
  start = λ s. (true, true);
  stop = λ s. false;
  is_started = λ s. s;
}

switch-IsServer : IsServer switch
switch-IsServer = record {
  new_idle = λ listen. refl;
  start_starts = λ s ok. refl;
  stop_stops = λ s. refl;
}

abbrev parse_tls : Bytes → Option Url
parse_tls line = some (record { scheme = bytes "tls"; host = line; text = line })

-- The loop of automatic peering after `Init`.
abbrev tls_loop : Bool → Loop
tls_loop on = record {
  peers = record { scheme = bytes "tls"; host = bytes "a"; text = bytes "a" } ∷ [];
  enabled = on;
  timer = nil;
  running = 0;
  stale = 0;
}

abbrev told : List Signal → World
told signals = record {
  generated = some_config;
  stdin = none;
  read_file = λ path. none;
  decode_utf16 = λ s. none;
  overlay = λ cfg file. none;
  marshal = λ json cfg. some (bytes "{}");
  version_lines = bytes "Build name: yggdrasil" ∷ [];
  help = [];
  address_text = λ key. key;
  subnet_text = λ key. key;
  meshname_waits = λ m. m;
  autopeering_waits = λ ap. ap;
  core_key = 10 ∷ 255 ∷ [];
  core_address = bytes "200::1";
  core_subnet = bytes "300::/64";
  compiles = λ regex. true;
  new_core = λ sk options. true;
  new_admin = λ listen. absent;
  new_multicast = λ interfaces. present;
  new_tun = λ name mtu. present;
  has_syslog = false;
  opens_log = λ path. true;
  signals = signals;
  meshname = meshname_module switch;
  autopeering = autopeering_module parse_tls (bytes "a");
}

abbrev working : World
working = told (ignored ∷ terminate ∷ [])

abbrev auto_args : YggArgs
auto_args = record {
  genconf = false;
  useconf = false;
  normaliseconf = false;
  confjson = false;
  autoconf = true;
  ver = false;
  getaddr = false;
  getsnet = false;
  useconffile = [];
  logto = bytes "stdout";
  loglevel = bytes "warn";
  autopeer = true;
  meshnameenable = true;
  meshnamelisten = bytes "[::1]:53535";
}

-- The flags of an empty command line.
abbrev default_args : YggArgs
default_args = get_args []

abbrev version_args : YggArgs
version_args = record auto_args { ver = true }

set_log_level-prefix_example :
    (before : List Bytes) × (level : Bytes) × (after : List Bytes) × (levels
      ≡ before ++ (level ∷ after))
    × (set_log_level (bytes "DEBUG") ≡ before ++ (level ∷ []))
    × Chooses (to_lower (bytes "DEBUG")) level
set_log_level-prefix_example = set_log_level-prefix (bytes "DEBUG")

run-Lives_example : Lives (run working auto_args) whole_life
unfolding same
run-Lives_example = run-Lives working auto_args refl

-- The whole run, with the levels that it enables and without an admin socket.
run_completes :
    run working auto_args
    ≡ traced
        (logs stdout false
          ∷ level (bytes "error")
          ∷ level (bytes "warn")
          ∷ set_up core
          ∷ set_up admin
          ∷ set_up multicast
          ∷ set_up tun
          ∷ set_up meshname
          ∷ set_up autopeering
          ∷ info (bytes "Your public key is 0aff")
          ∷ info (bytes "Your IPv6 address is 200::1")
          ∷ info (bytes "Your IPv6 subnet is 300::/64")
          ∷ waited
          ∷ stopped admin
          ∷ stopped multicast
          ∷ stopped tun
          ∷ stopped autopeering
          ∷ stopped meshname
          ∷ stopped core
          ∷ [])
        (value tt)
unfolding run set_log_level to_lower choose_log same lift emit_all ◌>>=◌ core_options decoded
    decode_string encode_to_string init Meshname.start Lifecycle.init Lifecycle.start new_loop
    split_on
run_completes = refl

run-Idles_example : Idles (run working version_args)
unfolding same
run-Idles_example = run-Idles working version_args refl

auto-IsWorking : (signals : List Signal) → IsWorking (told signals) auto_args some_config
unfolding decode_string from_digit core_options init Meshname.start Lifecycle.init Lifecycle.start
    new_loop popura_config split_on
auto-IsWorking signals = record {
  sk = 10 ∷ 255 ∷ [];
  allowed = (1 ∷ []) ∷ [];
  has_admin = false;
  has_multicast = true;
  has_tun = true;
  decodes = refl;
  decode_allowed = (refl, tt);
  makes_core = refl;
  makes_admin = inl (refl, refl);
  compile = (refl, tt);
  makes_multicast = inr (refl, refl);
  makes_tun = inr (refl, refl);
  meshname_state = record { server = false; enable = true };
  creates_meshname = refl;
  starts_meshname = refl;
  autopeering_state = tls_loop true;
  creates_autopeering = refl;
  starts_autopeering = refl;
}

run-Succeeds_iff_example : Succeeds (run working auto_args) tt ↔ (
    (cfg : NodeConfig) × Configured working auto_args cfg
    × IsWorking working auto_args cfg
    × HasEnd (ignored ∷ terminate ∷ []))
unfolding same
run-Succeeds_iff_example = run-Succeeds_iff working auto_args refl

-- What the run needs is there.
working_has_all :
    (cfg : NodeConfig) × Configured working auto_args cfg
    × IsWorking working auto_args cfg
    × HasEnd (ignored ∷ terminate ∷ [])
working_has_all = (
  some_config,
  inl (refl, refl),
  auto-IsWorking (ignored ∷ terminate ∷ []),
  (ignored ∷ [], [], terminate, refl, inr (inl refl)),
)

abbrev quiet_args : YggArgs
quiet_args = record auto_args { autopeer = false; meshnameenable = false }

main-command_line_example : main working (command_line auto_args) ≡ ran (run working auto_args)
main-command_line_example = main-command_line working auto_args

-- A Boolean flag needs no value, and one dash is as good as two.
flags_parse :
    main working (bytes "--autoconf" ∷ bytes "-loglevel" ∷ bytes "warn" ∷ [])
    ≡ ran (run working (record default_args { autoconf = true; loglevel = bytes "warn" }))
unfolding main parse same split_two ygg_flags get_args bool_flag string_flag
flags_parse = refl

unknown_exits : main working (bytes "-nonsense" ∷ []) ≡ exited 2
unfolding main parse same split_two ygg_flags
unknown_exits = refl

-- While the node waits, a round of the loop ends, and the next one begins.
abbrev one_round : List Lifecycle.Event
one_round = Lifecycle.round_ends ∷ Lifecycle.timer_fires ∷ []

run_node-IsShutDown_example :
    Leaves
      (run_node
        (with_modules switch parse_tls (bytes "a") working (λ m. m) one_round)
        auto_args
        some_config)
      (IsShutDown switch parse_tls (bytes "a") auto_args)
run_node-IsShutDown_example =
    run_node-IsShutDown switch parse_tls (bytes "a") working (λ m. m) one_round auto_args
      some_config switch-IsServer (tt, (tt, tt))

-- Nothing tells the node to shut down.
abbrev undisturbed : World
undisturbed = told (ignored ∷ [])

run-Waits_example : Waits (run undisturbed auto_args) started_parts
unfolding same ends_context
run-Waits_example =
    run-Waits undisturbed auto_args some_config refl (inl (refl, refl))
      (auto-IsWorking (ignored ∷ [])) (refl, tt)
