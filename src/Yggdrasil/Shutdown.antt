-- ===== src/Yggdrasil/Shutdown.antt =====
-- The end of a run of the node, with the modules of the repository.
use popura.Base.{
  ℕ, ◌≤◌, false, arith, if◌then◌else◌, All, Bool-cases, inl, inr, ◌≡◌, refl, sym, ap, ◌∙◌, List,
  Option,
}
use popura.Base.Panic.{value, Returns-at, value->>=}
use popura.Base.Text.{Bytes}
use popura.Meshname
use popura.Meshname.{Server, IsServer, MeshnameServer, is_started}
use popura.Autopeering.{Url}
use popura.Autopeering.Lifecycle
use popura.Autopeering.Lifecycle.{Loop, new_loop, Timer, nil, pending, done, stopped, waiting}
use popura.Config.{PopuraConfig}
use popura.Module.{Module, meshname_module, autopeering_module}
use popura.Yggdrasil.Trace.{Part, autopeering, lift, emit_all, ◌>>=◌}
use popura.Yggdrasil.Args.{YggArgs}
use popura.Autopeering.Stopping.{alive, IsInternal, run_internal, run-stale}
use popura.Yggdrasil.Config.{popura_config, World, NodeConfig}
use popura.Yggdrasil.{start_module, setup_modules, stop_parts, run_node}
use popura.Yggdrasil.Leaves.{
  Leaves, Leaves->>=, Leaves-bind, Leaves-lift, Leaves-value, Leaves-mono,
}

-- The module's state behind `Init` and `Start`.
abbrev Started : (m : Module) → PopuraConfig → m.State → Type 0
Started m config s = (made : m.State) × (m.create config ≡ value made) × (s ≡ (m.start made).0)

start_module-Started :
    (m : Module) (config : PopuraConfig) (p : Part)
    → Leaves (start_module m config p) (Started m config)
start_module-Started m config p =
    Leaves-bind (lift (m.create config)) _ (λ s. m.create config ≡ value s) _ (Leaves-lift _)
      (λ s e.
        Leaves->>= _ _ _
          (λ _. Leaves->>= _ _ _ (λ _. Leaves-value _ (Started m config) (s, e, refl))))

setup_modules-Started :
    (w : World) (args : YggArgs)
    → Leaves (setup_modules w args) (λ (s, t). Started w.autopeering (popura_config args) t)
unfolding setup_modules
setup_modules-Started w args = Leaves->>= _ _ _ (λ s.
    Leaves-bind (start_module w.autopeering (popura_config args) autopeering) _
      (Started w.autopeering (popura_config args)) _
      (start_module-Started w.autopeering (popura_config args) autopeering)
      (λ t h. Leaves-value (s, t) (λ (s, t). Started w.autopeering (popura_config args) t) h))

-- Both modules were stopped last, automatic peering behind its `Start` and the wait.
abbrev Stopped : (w : World) → YggArgs → w.meshname.State × w.autopeering.State → Type 0
Stopped w args (s, t) =
    ((s' : w.meshname.State) × (s ≡ w.meshname.stop s'))
    × ((t' : w.autopeering.State) × Started w.autopeering (popura_config args) t'
        × (t ≡ w.autopeering.stop (w.autopeering_waits t')))

stop_parts-Stopped :
    (w : World) (args : YggArgs) (s : w.meshname.State) (t : w.autopeering.State)
    → Started w.autopeering (popura_config args) t
    → Leaves (stop_parts w s (w.autopeering_waits t)) (Stopped w args)
unfolding stop_parts Leaves ◌>>=◌ lift emit_all
stop_parts-Stopped w args s t h = ((s, refl), (t, h, refl))

run_node-Stopped :
    (w : World) (args : YggArgs) (cfg : NodeConfig) → Leaves (run_node w args cfg) (Stopped w args)
unfolding run_node
run_node-Stopped w args cfg = Leaves->>= _ _ _ (λ _. Leaves->>= _ _ _ (λ has_admin.
    Leaves->>= _ _ _ (λ _. Leaves->>= _ _ _ (λ _.
      Leaves-bind (setup_modules w args) _ (λ (s, t). Started w.autopeering (popura_config args) t)
        _ (setup_modules-Started w args)
        (λ (s, t) h. Leaves->>= _ _ _ (λ _.
          Leaves->>= _ _ _ (λ _. Leaves->>= _ _ _ (λ _. stop_parts-Stopped w args _ t h))))))))

waiting-stopped : (t : Timer) → waiting (stopped t) ≡ 0
waiting-stopped nil = refl
waiting-stopped pending = refl
waiting-stopped done = refl

-- How many loops `Start` makes.
abbrev pub loops : YggArgs → ℕ
loops args = if args.autopeer then 1 else 0

loops-le : (args : YggArgs) → loops args ≤ 1
loops-le args = ground arith

module _ (parse : Bytes → Option Url) (public_peers : Bytes) where
  -- `Init` and `Start` leave one loop, or none.
  Started-alive :
      (args : YggArgs) (t : Loop)
      → Started (autopeering_module parse public_peers) (popura_config args) t
      → (alive t ≡ loops args) × (t.stale ≡ 0)
  unfolding Lifecycle.init Lifecycle.start new_loop popura_config
  Started-alive args t (made, e, f) =
      let (peers, g, h) = value->>= (Lifecycle.get_public_peers parse public_peers) _ made e in
      let fresh = record new_loop { peers = peers; enabled = args.autopeer } in
      let same : fresh ≡ made = Returns-at (λ d. fresh ≡ d) h refl in
      let started : t ≡ Lifecycle.start fresh = f ∙ ap Lifecycle.start (sym same) in
      elim (Bool-cases args.autopeer) [
        | inl on ↦ rw (started, on) (refl, refl)
        | inr off ↦ rw (started, off) (refl, refl)
      ]

  -- What `Stop` leaves of it: no timer that will fire, and a round only if one runs at that time.
  Stopped-loop :
      (args : YggArgs) (t : Loop) (es : List Lifecycle.Event)
      → All IsInternal es
      → (alive t ≡ loops args) × (t.stale ≡ 0)
      → let left : Loop = Lifecycle.stop (Lifecycle.run t es) in
        (waiting left.timer ≡ 0) × (left.stale ≡ 0) × (left.running ≤ loops args)
  unfolding Lifecycle.stop
  Stopped-loop args t es i (a, s) =
      let one = loops-le args in
      (
        waiting-stopped (Lifecycle.Loop.timer (Lifecycle.run t es)),
        run-stale t es i (omega arith) s,
        omega (arith, run_internal t es i),
      )

module _ {S : Type 0} (ops : Server S) (parse : Bytes → Option Url) (public_peers : Bytes) where
  -- A world with the modules of the repository, and what happens to them while the node waits:
  -- anything to meshname, and rounds and timers to automatic peering.
  abbrev pub with_modules :
      World → (MeshnameServer S → MeshnameServer S) → List Lifecycle.Event → World
  with_modules w meshname_waits events = record w {
    meshname = meshname_module ops;
    autopeering = autopeering_module parse public_peers;
    meshname_waits = meshname_waits;
    autopeering_waits = λ ap. Lifecycle.run ap events;
  }

  -- The server is not started, no timer will start a round, and a round runs only if the flags ask for
  -- automatic peering, and then one.
  abbrev pub IsShutDown : YggArgs → MeshnameServer S × Loop → Type 0
  IsShutDown args (m, loop) =
      (is_started ops m ≡ false)
      × (waiting loop.timer ≡ 0)
      × (loop.stale ≡ 0)
      × (loop.running ≤ loops args)

  Stopped-IsShutDown :
      (w : World) (args : YggArgs) (mw : MeshnameServer S → MeshnameServer S)
      (events : List Lifecycle.Event)
      → IsServer ops
      → All IsInternal events
      → (r : MeshnameServer S × Loop) → Stopped (with_modules w mw events) args r
      → IsShutDown args r
  unfolding Meshname.stop is_started
  Stopped-IsShutDown w args mw events lawful i (m, l) ((m', p), (t, started, q)) =
      let left =
        Stopped-loop parse public_peers args t events i
          (Started-alive parse public_peers args t started) in
      let (timer, stale, running) = left in
      (ap (is_started ops) p ∙ lawful.stop_stops _, rw q timer, rw q stale, rw q running)

  -- With the two modules of the repository, over a meshname server that keeps its promises: whatever
  -- happens to the server and however rounds and timers follow one another while the node waits,
  -- when it has shut down without a panic the server is not started, no timer of automatic peering will fire,
  -- and at most one of its rounds runs, none if the flags do not ask for automatic peering.
  pub run_node-IsShutDown :
      (w : World) (mw : MeshnameServer S → MeshnameServer S) (events : List Lifecycle.Event)
      (args : YggArgs) (cfg : NodeConfig)
      → IsServer ops
      → All IsInternal events
      → Leaves (run_node (with_modules w mw events) args cfg) (IsShutDown args)
  run_node-IsShutDown w mw events args cfg lawful i =
      Leaves-mono (run_node (with_modules w mw events) args cfg)
        (Stopped (with_modules w mw events) args) (IsShutDown args)
        (Stopped-IsShutDown w args mw events lawful i)
        (run_node-Stopped (with_modules w mw events) args cfg)
