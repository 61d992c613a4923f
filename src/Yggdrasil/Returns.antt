-- ===== src/Yggdrasil/Returns.antt =====
-- cmd/yggdrasil/main.go: exactly the runs of a node that get to the end.
use mathlib.Core.Path.{subst}
use popura.Base.{
  Bool, true, false, ◌≡◌, ◌↔◌, refl, sym, ap, ◌∙◌, inl, inr, Bool-cases, List, Option, some, arith,
}
use popura.Base.Panic.{Exec, value, panic, value-injective}
use popura.Config.{PopuraConfig}
use popura.Module.{Module}
use popura.Yggdrasil.Trace.{Part, Event, Traced, traced, after, lift, ◌>>=◌}
use popura.Yggdrasil.Args.{YggArgs}
use popura.Yggdrasil.Config.{NodeConfig, World}
use popura.Yggdrasil.{
  check, start_module, has_conf, find_config, setup_core, setup_admin, setup_multicast, setup_tun,
  setup_modules, run_node, run_config, run,
}
use popura.Yggdrasil.Signals.{HasEnd, HasEnd-of_wait}
use popura.Yggdrasil.Parts.{IsMade-of_made, Compile-of_all}
use popura.Yggdrasil.Reading.{read_config-IsRead}
use popura.Yggdrasil.Options.{decoded-true, Decode-of_core_options}
use popura.Yggdrasil.Modes.{
  asks_node, find_config-auto, find_config-load, load_config-node, run_config-node,
}
use popura.Yggdrasil.Success.{Succeeds, IsWorking, Configured, run-Succeeds}

Succeeds-of_after :
    {A : Type 0} (es : List Event) (m : Traced A) (a : A) → Succeeds (after es m) a → Succeeds m a
unfolding Succeeds
Succeeds-of_after es (traced fs m) a h = h

-- Where two calls in a row return, the first returns, and so does the second.
Succeeds-first :
    {A B : Type 0} (m : Traced A) (f : A → Traced B) (b : B)
    → Succeeds (m >>= f) b
    → (a : A) × Succeeds m a × Succeeds (f a) b
unfolding Succeeds ◌>>=◌
Succeeds-first (traced es (panic e)) f b h = absurd cc
Succeeds-first (traced es (value a)) f b h = (a, refl, Succeeds-of_after es (f a) b h)

Succeeds-of_lift : {A : Type 0} (m : Exec A) (a : A) → Succeeds (lift m) a → m ≡ value a
unfolding Succeeds lift
Succeeds-of_lift m a h = h

-- The same where the first has no events.
lifted :
    {A B : Type 0} (m : Exec A) (f : A → Traced B) (b : B)
    → Succeeds (lift m >>= f) b
    → (a : A) × (m ≡ value a) × Succeeds (f a) b
lifted m f b h = let (a, s, k) = Succeeds-first (lift m) f b h in (a, Succeeds-of_lift m a s, k)

check-true : (b : Bool) (u : Unit {0}) → check b ≡ value u → b ≡ true
check-true true u h = refl
check-true false u h = absurd cc

-- What a module needs.
Runs : Module → PopuraConfig → Type 0
Runs m config = (s : m.State) × (m.create config ≡ value s) × ((m.start s).1 ≡ true)

start_module-Runs :
    (m : Module) (config : PopuraConfig) (p : Part) (s : m.State)
    → Succeeds (start_module m config p) s
    → Runs m config
unfolding Runs
start_module-Runs m config p s h =
    let (t, c, k) = lifted _ _ s h in let (u, e, rest) = lifted _ _ s k in (t, c, check-true _ u e)

-- A run of a node that returns had all that it needs.
run_node-IsWorking :
    (w : World) (args : YggArgs) (cfg : NodeConfig) (r : w.meshname.State × w.autopeering.State)
    → Succeeds (run_node w args cfg) r
    → IsWorking w args cfg × HasEnd w.signals
unfolding run_node setup_core setup_admin setup_multicast setup_tun setup_modules Runs
run_node-IsWorking w args cfg r h =
    let (u, core, h1) = Succeeds-first _ _ r h in
    let (has_admin, admin, h2) = Succeeds-first _ _ r h1 in
    let (u2, multicast, h3) = Succeeds-first _ _ r h2 in
    let (u3, tun, h4) = Succeeds-first _ _ r h3 in
    let (modules, starts, h5) = Succeeds-first _ _ r h4 in
    let (u4, announced, h6) = Succeeds-first _ _ r h5 in
    let (u5, waits, h7) = Succeeds-first _ _ r h6 in
    let (u6, ends, h8) = lifted _ _ r h7 in
    let (sk, decodes, c1) = lifted _ _ u core in
    let (options, has_options, c2) = lifted _ _ u c1 in
    let (allowed, decode_allowed, same) = Decode-of_core_options cfg options has_options in
    let (c, makes_core, c3) = lifted _ _ u c2 in
    let (is_admin, makes_admin, a1) = lifted _ _ has_admin admin in
    let (m, compile, m1) = lifted _ _ u2 multicast in
    let (has_multicast, makes_multicast, m2) = lifted _ _ u2 m1 in
    let (has_tun, makes_tun, t1) = lifted _ _ u3 tun in
    let (s, meshname, s1) = Succeeds-first _ _ modules starts in
    let (t, autopeering, s2) = Succeeds-first _ _ modules s1 in
    let (ms, creates_ms, starts_ms) = start_module-Runs w.meshname _ _ s meshname in
    let (loop, creates_ap, starts_ap) = start_module-Runs w.autopeering _ _ t autopeering in
    (
      record {
        sk = sk;
        has_admin = is_admin;
        has_multicast = has_multicast;
        has_tun = has_tun;
        decodes = decoded-true _ sk decodes;
        allowed = allowed;
        decode_allowed = decode_allowed;
        makes_core = ap (w.new_core sk) same ∙ check-true _ c makes_core;
        makes_admin = IsMade-of_made _ is_admin makes_admin;
        compile = Compile-of_all w _ (check-true _ m compile);
        makes_multicast = IsMade-of_made _ has_multicast makes_multicast;
        makes_tun = IsMade-of_made _ has_tun makes_tun;
        meshname_state = ms;
        creates_meshname = creates_ms;
        starts_meshname = starts_ms;
        autopeering_state = loop;
        creates_autopeering = creates_ap;
        starts_autopeering = starts_ap;
      },
      HasEnd-of_wait w.signals ends,
    )

-- The configuration that is found where the flags ask for a node.
find_config-Configured :
    (w : World) (args : YggArgs) (found : Option NodeConfig)
    → asks_node args ≡ true
    → Succeeds (find_config w args) found
    → (cfg : NodeConfig) × (some cfg ≡ found) × Configured w args cfg
find_config-Configured w args found h s =
    let v : args.ver ≡ false = ground arith in
    elim (Bool-cases args.autoconf) [
      | inl a ↦
          let e =
            Succeeds-of_lift _ found
              (subst (λ m. Succeeds m found) (find_config-auto w args v a) s) in
          (w.generated, value-injective _ _ e, inl (a, refl))
      | inr a ↦
          let c : has_conf args ≡ true = ground arith in
          let n : args.normaliseconf ≡ false = ground arith in
          let same = find_config-load w args v a c ∙ load_config-node w args n in
          let (cfg, r, k) = lifted _ _ found (subst (λ m. Succeeds m found) same s) in
          (
            cfg,
            value-injective _ _ (Succeeds-of_lift _ found k),
            inr (a, read_config-IsRead w args.useconffile cfg r),
          )
    ]

-- When the flags ask for a node, `run` returns exactly if the configuration is generated or is read
-- without an error, its private key and allowed keys are hex, its regular expressions compile,
-- `core.New` accepts the key with all the options that the configuration gives, the other parts are
-- made, as nil or not, both modules are made and started, each without an error, and an interrupt,
-- SIGTERM or the stop of the service is among the signals.
pub run-Succeeds_iff :
    (w : World) (args : YggArgs)
    → asks_node args ≡ true
    → Succeeds (run w args) tt
      ↔ ((cfg : NodeConfig) × Configured w args cfg × IsWorking w args cfg × HasEnd w.signals)
unfolding run
run-Succeeds_iff w args h = (
  λ s.
      let ga : args.getaddr ≡ false = ground arith in
      let gs : args.getsnet ≡ false = ground arith in
      let (u, opened, s1) = Succeeds-first _ _ tt s in
      let (u2, enabled, s2) = Succeeds-first _ _ tt s1 in
      let (found, finds, s3) = Succeeds-first _ _ tt s2 in
      let (cfg, e, configured) = find_config-Configured w args found h finds in
      let node : Succeeds (run_config w args (some cfg)) tt =
        subst (λ c. Succeeds (run_config w args c) tt) (sym e) s3 in
      let (r, runs, ended) =
        Succeeds-first _ _ tt
          (subst (λ m. Succeeds m tt) (run_config-node w args cfg ga gs) node) in
      let (works, ends) = run_node-IsWorking w args cfg r runs in (cfg, configured, works, ends),
  λ (cfg, configured, works, ends). run-Succeeds w args cfg h configured works ends,
)
