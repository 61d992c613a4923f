-- ===== src/Yggdrasil/Life.antt =====
-- What `run` sets up and stops.
use popura.Base.{Bool, true, false, ◌&&◌, List, [], ◌∷◌}
use popura.Base.Panic.{value}
use popura.Yggdrasil.Trace.{
  Part, core, admin, multicast, tun, meshname, autopeering, Event, set_up, handled, stopped, waited,
  Lives, Lives->>=, Lives-lift, Lives-emit_all,
}
use popura.Yggdrasil.Args.{YggArgs}
use popura.Yggdrasil.Config.{NodeConfig, World}
use popura.Config.{PopuraConfig}
use popura.Module.{Module}
use popura.Yggdrasil.{
  check, start_module, handle_if, setup_core, setup_admin, setup_multicast, setup_tun,
  setup_modules, stop_module, stop_parts, run_node,
}

-- What a node sets up and stops, in order.
abbrev pub whole_life : List Event
whole_life =
    set_up core
    ∷ set_up admin
    ∷ set_up multicast
    ∷ set_up tun
    ∷ set_up meshname
    ∷ set_up autopeering
    ∷ waited
    ∷ stopped admin
    ∷ stopped multicast
    ∷ stopped tun
    ∷ stopped autopeering
    ∷ stopped meshname
    ∷ stopped core
    ∷ []

handle_if-Lives : (b : Bool) (p : Part) → Lives (handle_if b p) []
handle_if-Lives true p = Lives-emit_all (handled p ∷ [])
handle_if-Lives false p = Lives-lift (value tt)

module _ (w : World) (cfg : NodeConfig) where
  pub setup_core-Lives : Lives (setup_core w cfg) (set_up core ∷ [])
  unfolding setup_core
  setup_core-Lives = Lives->>= _ _ [] _ (Lives-lift _) (λ sk.
      Lives->>= _ _ [] _ (Lives-lift _)
        (λ options. Lives->>= _ _ [] _ (Lives-lift _) (λ _. Lives-emit_all _)))

  pub setup_admin-Lives : Lives (setup_admin w cfg) (set_up admin ∷ [])
  unfolding setup_admin
  setup_admin-Lives = Lives->>= _ _ [] _ (Lives-lift _) (λ has_admin.
      Lives->>= _ _ (set_up admin ∷ []) _ (Lives-emit_all _)
        (λ _. Lives->>= _ _ [] [] (handle_if-Lives has_admin admin) (λ _. Lives-lift _)))

  pub setup_multicast-Lives :
      (has_admin : Bool) → Lives (setup_multicast w cfg has_admin) (set_up multicast ∷ [])
  unfolding setup_multicast
  setup_multicast-Lives has_admin = Lives->>= _ _ [] _ (Lives-lift _) (λ _.
      Lives->>= _ _ [] _ (Lives-lift _) (λ has_multicast.
        Lives->>= _ _ (set_up multicast ∷ []) _ (Lives-emit_all _)
          (λ _. handle_if-Lives (has_admin && has_multicast) multicast)))

  pub setup_tun-Lives : (has_admin : Bool) → Lives (setup_tun w cfg has_admin) (set_up tun ∷ [])
  unfolding setup_tun
  setup_tun-Lives has_admin = Lives->>= _ _ [] _ (Lives-lift _) (λ has_tun.
      Lives->>= _ _ (set_up tun ∷ []) _ (Lives-emit_all _)
        (λ _. handle_if-Lives (has_admin && has_tun) tun))

start_module-Lives :
    (m : Module) (config : PopuraConfig) (p : Part)
    → Lives (start_module m config p) (set_up p ∷ [])
start_module-Lives m config p = Lives->>= _ _ [] _ (Lives-lift _) (λ s.
    Lives->>= _ _ [] _ (Lives-lift (check (m.start s).1))
      (λ _. Lives->>= _ _ (set_up p ∷ []) [] (Lives-emit_all _) (λ _. Lives-lift _)))

pub setup_modules-Lives :
    (w : World) (args : YggArgs)
    → Lives (setup_modules w args) (set_up meshname ∷ set_up autopeering ∷ [])
unfolding setup_modules
setup_modules-Lives w args =
    Lives->>= _ _ (set_up meshname ∷ []) _ (start_module-Lives w.meshname _ meshname) (λ s.
      Lives->>= _ _ (set_up autopeering ∷ []) [] (start_module-Lives w.autopeering _ autopeering)
        (λ t. Lives-lift _))

stop_module-Lives :
    (m : Module) (p : Part) (s : m.State) → Lives (stop_module m p s) (stopped p ∷ [])
stop_module-Lives m p s = Lives->>= _ _ (stopped p ∷ []) [] (Lives-emit_all _) (λ _. Lives-lift _)

-- What `run` stops at its end, in order.
abbrev whole_stop : List Event
whole_stop =
    stopped admin
    ∷ stopped multicast
    ∷ stopped tun
    ∷ stopped autopeering
    ∷ stopped meshname
    ∷ stopped core
    ∷ []

stop_parts-Lives :
    (w : World) (s : w.meshname.State) (t : w.autopeering.State)
    → Lives (stop_parts w s t) whole_stop
unfolding stop_parts
stop_parts-Lives w s t =
    Lives->>= _ _ (stopped admin ∷ stopped multicast ∷ stopped tun ∷ []) _ (Lives-emit_all _) (λ _.
      Lives->>= _ _ (stopped autopeering ∷ []) _ (stop_module-Lives w.autopeering autopeering t)
        (λ t'.
          Lives->>= _ _ (stopped meshname ∷ []) _ (stop_module-Lives w.meshname meshname s)
            (λ s'. Lives->>= _ _ (stopped core ∷ []) [] (Lives-emit_all _) (λ _. Lives-lift _))))

pub run_node-Lives :
    (w : World) (args : YggArgs) (cfg : NodeConfig) → Lives (run_node w args cfg) whole_life
unfolding run_node
run_node-Lives w args cfg = Lives->>= _ _ (set_up core ∷ []) _ (setup_core-Lives w cfg) (λ _.
    Lives->>= _ _ (set_up admin ∷ []) _ (setup_admin-Lives w cfg) (λ has_admin.
      Lives->>= _ _ (set_up multicast ∷ []) _ (setup_multicast-Lives w cfg has_admin) (λ _.
        Lives->>= _ _ (set_up tun ∷ []) _ (setup_tun-Lives w cfg has_admin) (λ _.
          Lives->>= _ _ (set_up meshname ∷ set_up autopeering ∷ []) _ (setup_modules-Lives w args)
            (λ modules. Lives->>= _ _ [] _ (Lives-emit_all _) (λ _.
              Lives->>= _ _ (waited ∷ []) whole_stop (Lives-emit_all _) (λ _.
                Lives->>= _ _ [] whole_stop (Lives-lift _) (λ _. stop_parts-Lives w _ _))))))))
