-- ===== src/Yggdrasil.antt =====
-- cmd/yggdrasil/main.go: `run`, the node from its flags to its shutdown.
pub mod LogLevel
pub mod Trace
pub mod Args
pub mod Config
pub mod Life
pub mod Modes
pub mod Idle
pub mod Signals
pub mod Reading
pub mod Options
pub mod Parts
pub mod Success
pub mod Waits
pub mod Returns
pub mod Modules
pub mod Leaves
pub mod Shutdown
pub mod Main
mod Tests
use popura.Base.{
  ℕ, Bool, true, false, not, ◌&&◌, ◌||◌, List, [], ◌∷◌, ◌++◌, map, Option, none, some,
  if◌then◌else◌,
}
use popura.Base.Panic.{Exec, value, panic, raised, blocked}
use popura.Base.Text.{Bytes, bytes, same}
use popura.Keys.{public}
use popura.Keys.Hex.{decode_string, encode_to_string}
use popura.Config.{PopuraConfig}
use popura.Module.{Module}
use popura.Flags.{parse, Parsed, parsed, failed, help, fault}
use popura.Yggdrasil.LogLevel.{set_log_level}
use popura.Yggdrasil.Trace.{
  LogTarget, stdout, syslog, file, logs, Part, core, admin, multicast, tun, meshname, autopeering,
  Event, level, printed, info, set_up, handled, stopped, waited, Traced, lift, emit, emit_all,
  ◌>>=◌, ◌>>◌,
}
use popura.Yggdrasil.Args.{YggArgs, ygg_flags, get_args}
use popura.Yggdrasil.Config.{
  popura_config, NodeConfig, MulticastInterface, Signal, interrupt, terminate, service_stops,
  ignored, World, Made, failed, absent, present, must, read_config, decoded, core_options,
}

abbrev pub done : Traced (Unit {0})
done = lift (value tt)

-- A part, or nil without an error; an error panics.
abbrev pub made : Made → Exec Bool
made failed = panic raised
made absent = value false
made present = value true

abbrev pub check : Bool → Exec (Unit {0})
check true = value tt
check false = panic raised

-- `SetupAdminHandlers` under a test for nil.
abbrev pub handle_if : Bool → Part → Traced (Unit {0})
handle_if true p = emit (handled p)
handle_if false p = done

-- `setLogLevel` at the start of `run`.
abbrev pub enable_levels : YggArgs → Traced (Unit {0})
enable_levels args =
    emit_all
      (map level (set_log_level (if args.normaliseconf then bytes "error" else args.loglevel)))

-- The end of a case that prints a configuration.
abbrev pub print_text : Exec Bytes → Traced (Option NodeConfig)
print_text bs = do text ← lift bs; emit (printed text); lift (value none)

abbrev pub print_config : World → Bool → NodeConfig → Traced (Option NodeConfig)
print_config w confjson cfg = print_text (must (w.marshal confjson cfg))

-- `doGenconf`
abbrev pub do_genconf : World → Bool → Exec Bytes
do_genconf w isjson = must (w.marshal isjson w.generated)

-- The case that reads a configuration.
unfoldable pub load_config : World → YggArgs → Traced (Option NodeConfig)
load_config w args = do
  cfg ← lift (read_config w args.useconffile)
  if args.normaliseconf then print_config w args.confjson cfg else lift (value (some cfg))

-- `args.useconffile != "" || args.useconf`
abbrev pub has_conf : YggArgs → Bool
has_conf args = not (same args.useconffile []) || args.useconf

-- The switch that finds the configuration; `none` where `run` returns, in the switch or behind it at
-- `cfg == nil`.
unfoldable pub find_config : World → YggArgs → Traced (Option NodeConfig)
unfolding load_config
find_config w args =
    if args.ver
    then (emit_all (map printed w.version_lines) >> lift (value none))
    else if args.autoconf
    then lift (value (some w.generated))
    else if has_conf args
    then load_config w args
    else if args.genconf
    then print_text (do_genconf w args.confjson)
    else (emit_all (map printed w.help) >> lift (value none))

-- `getNodeKey`, and the text of the key if there is one.
abbrev pub print_key : (Bytes → Bytes) → Bytes × Bool → Traced (Unit {0})
print_key show (bs, false) = done
print_key show (bs, true) = lift (public bs) >>= λ key. emit (printed (show key))

-- The part made of the decoded private key.
unfoldable pub setup_core : World → NodeConfig → Traced (Unit {0})
setup_core w cfg = do
  sk ← lift (decoded (decode_string cfg.private_key))
  options ← lift (core_options cfg)
  lift (check (w.new_core sk options))
  emit (set_up core)

-- `admin.New`, which may give nil: then there is no socket, and nothing is put on it.
unfoldable pub setup_admin : World → NodeConfig → Traced Bool
setup_admin w cfg = do
  has_admin ← lift (made (w.new_admin cfg.admin_listen))
  emit (set_up admin)
  handle_if has_admin admin
  lift (value has_admin)

-- `regexp.MustCompile` of each interface.
abbrev pub all_compile : World → List MulticastInterface → Bool
all_compile w [] = true
all_compile w (intf ∷ rest) = w.compiles intf.regex && all_compile w rest

unfoldable pub setup_multicast : World → NodeConfig → Bool → Traced (Unit {0})
setup_multicast w cfg has_admin = do
  lift (check (all_compile w cfg.multicast_interfaces))
  has_multicast ← lift (made (w.new_multicast cfg.multicast_interfaces))
  emit (set_up multicast)
  handle_if (has_admin && has_multicast) multicast

unfoldable pub setup_tun : World → NodeConfig → Bool → Traced (Unit {0})
setup_tun w cfg has_admin = do
  has_tun ← lift (made (w.new_tun cfg.if_name cfg.if_mtu))
  emit (set_up tun)
  handle_if (has_admin && has_tun) tun

-- `Init` and `Start` of a module; the state that it is left in.
abbrev pub start_module : (m : Module) → PopuraConfig → Part → Traced m.State
start_module m config p = do
  s ← lift (m.create config)
  let (s', ok) = m.start s
  lift (check ok)
  emit (set_up p)
  lift (value s')

unfoldable pub setup_modules :
    (w : World) → YggArgs → Traced (w.meshname.State × w.autopeering.State)
unfolding popura_config
setup_modules w args = do
  s ← start_module w.meshname (popura_config args) meshname
  t ← start_module w.autopeering (popura_config args) autopeering
  lift (value (s, t))

-- The three lines that `run` logs of the core.
abbrev pub announce : World → Traced (Unit {0})
announce w = emit_all (
    info (bytes "Your public key is " ++ encode_to_string w.core_key)
    ∷ info (bytes "Your IPv6 address is " ++ w.core_address)
    ∷ info (bytes "Your IPv6 subnet is " ++ w.core_subnet)
    ∷ [])

-- The signals that `signal.NotifyContext` and `minwinsvc.SetOnExit` end the context by.
unfoldable pub ends_context : Signal → Bool
ends_context interrupt = true
ends_context terminate = true
ends_context service_stops = true
ends_context ignored = false

-- `<-ctx.Done()`
unfoldable pub wait_for_end : List Signal → Exec (Unit {0})
unfolding ends_context
wait_for_end [] = panic blocked
wait_for_end (s ∷ signals) = elim (ends_context s) [
  | true ↦ value tt
  | false ↦ wait_for_end signals
]

-- `Stop` of a module, whose error is dropped.
abbrev pub stop_module : (m : Module) → Part → m.State → Traced m.State
stop_module m p s = do emit (stopped p); lift (value (m.stop s))

-- The end of `run`; the states that the modules are left in.
unfoldable pub stop_parts :
    (w : World)
    → w.meshname.State
    → w.autopeering.State
    → Traced (w.meshname.State × w.autopeering.State)
stop_parts w s t = do
  emit_all (stopped admin ∷ stopped multicast ∷ stopped tun ∷ [])
  t' ← stop_module w.autopeering autopeering t
  s' ← stop_module w.meshname meshname s
  emit (stopped core)
  lift (value (s', t'))

-- `run` from the node's parts to the end.
unfoldable pub run_node :
    (w : World) → YggArgs → NodeConfig → Traced (w.meshname.State × w.autopeering.State)
unfolding setup_core setup_admin setup_multicast setup_tun setup_modules stop_parts wait_for_end
run_node w args cfg = do
  setup_core w cfg
  has_admin ← setup_admin w cfg
  setup_multicast w cfg has_admin
  setup_tun w cfg has_admin
  (s, t) ← setup_modules w args
  announce w
  emit waited
  lift (wait_for_end w.signals)
  stop_parts w (w.meshname_waits s) (w.autopeering_waits t)

-- `run` behind the switch on the configuration.
unfoldable pub run_config : World → YggArgs → Option NodeConfig → Traced (Unit {0})
unfolding run_node
run_config w args none = done
run_config w args (some cfg) =
    if args.getaddr
    then print_key w.address_text (decode_string cfg.private_key)
    else if args.getsnet
    then print_key w.subnet_text (decode_string cfg.private_key)
    else (run_node w args cfg >>= λ modules. done)

-- The logger of -logto, and stdout with a warning where there is none.
unfoldable pub choose_log : World → Bytes → LogTarget × Bool
choose_log w logto =
    if same logto (bytes "stdout")
    then (stdout, false)
    else if same logto (bytes "syslog")
    then (if w.has_syslog then (syslog, false) else (stdout, true))
    else if w.opens_log logto
    then (file logto, false)
    else (stdout, true)

abbrev pub open_log : World → YggArgs → Traced (Unit {0})
open_log w args = let (target, warns) = choose_log w args.logto in emit (logs target warns)

-- `run`
unfoldable pub run : World → YggArgs → Traced (Unit {0})
unfolding find_config run_config
run w args = do
  open_log w args
  enable_levels args
  found ← find_config w args
  run_config w args found

-- How the process ends: by the package flag, or by `run`.
pub data Outcome : Type 0 where
  exited : ℕ → Outcome
  ran : Traced (Unit {0}) → Outcome

-- `main` behind `getArgs`.
abbrev pub outcome : World → Parsed → Outcome
outcome w (parsed given rest) = ran (run w (get_args given))
outcome w (failed help) = exited 0
outcome w (failed fault) = exited 2

-- `main`; the goroutine that it waits for is `run`.
unfoldable pub main : World → List Bytes → Outcome
unfolding run
main w argv = outcome w (parse ygg_flags argv)
