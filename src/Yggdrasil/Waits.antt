-- ===== src/Yggdrasil/Waits.antt =====
-- cmd/yggdrasil/main.go: a node that nothing shuts down.
use mathlib.Core.Path.{subst}
use popura.Base.{
  true, false, ◌≡◌, refl, sym, ap, ◌∙◌, inl, inr, List, [], ◌∷◌, ◌++◌, some, arith, All,
}
use popura.Base.Panic.{Exec, value, panic, blocked, Returns-at}
use popura.Yggdrasil.Trace.{
  core, admin, multicast, tun, meshname, autopeering, Event, set_up, waited, life, life-append,
  Traced, traced, after, lift, ◌>>=◌, Lives, Lives->>=, Lives-lift, Lives-emit_all,
}
use popura.Yggdrasil.Args.{YggArgs}
use popura.Yggdrasil.Config.{NodeConfig, World}
use popura.Yggdrasil.{ends_context, has_conf, find_config, run_node, run}
use popura.Yggdrasil.Life.{
  setup_core-Lives, setup_admin-Lives, setup_multicast-Lives, setup_tun-Lives, setup_modules-Lives,
}
use popura.Yggdrasil.Modes.{
  asks_node, find_config-auto, find_config-load, load_config-node, run_config-node,
  enable_levels-Lives,
}
use popura.Yggdrasil.Signals.{wait_for_end_blocks}
use popura.Yggdrasil.Success.{
  Succeeds, Succeeds-emit_all, IsWorking, setup_core-Succeeds, setup_admin-Succeeds,
  setup_multicast-Succeeds, setup_tun-Succeeds, setup_modules-Succeeds, Configured,
  find_config-Succeeds, modules,
}

-- The call never returns, and what it sets up and stops is what is listed.
unfoldable pub Waits : {A : Type 0} → Traced A → List Event → Type 0
Waits (traced es m) ls = (m ≡ panic blocked) × (life es ≡ ls)

Waits-after :
    {A : Type 0} (es ls ks : List Event) (m : Traced A)
    → life es ≡ ls
    → Waits m ks
    → Waits (after es m) (ls ++ ks)
unfolding Waits
Waits-after es ls ks (traced fs m) h (b, k) = (b, life-append es fs ∙ rw (h, k))

-- A call that returns, and then one that waits.
Waits->>= :
    {A B : Type 0} (m : Traced A) (f : A → Traced B) (a : A) (ls ks : List Event)
    → Succeeds m a
    → Lives m ls
    → Waits (f a) ks
    → Waits (m >>= f) (ls ++ ks)
unfolding Succeeds Lives ◌>>=◌
Waits->>= (traced es (panic e)) f a ls ks s l w = absurd cc
Waits->>= (traced es (value b)) f a ls ks s l w =
    let same : b ≡ a = Returns-at (λ d. b ≡ d) s refl in
    Waits-after es ls ks (f b) l (subst (λ d. Waits (f d) ks) (sym same) w)

-- A call that waits, and what would follow it.
Waits-first :
    {A B : Type 0} (m : Traced A) (f : A → Traced B) (ls : List Event)
    → Waits m ls
    → Waits (m >>= f) ls
unfolding Waits ◌>>=◌
Waits-first (traced es (value a)) f ls (b, k) = absurd cc
Waits-first (traced es (panic e)) f ls (b, k) = let same : e ≡ blocked = cc in (ap panic same, k)

Waits-lift : {A : Type 0} (m : Exec A) → m ≡ panic blocked → Waits (lift m) []
unfolding Waits lift
Waits-lift m e = (e, refl)

abbrev pub started_parts : List Event
started_parts =
    set_up core
    ∷ set_up admin
    ∷ set_up multicast
    ∷ set_up tun
    ∷ set_up meshname
    ∷ set_up autopeering
    ∷ waited
    ∷ []

run_node-Waits :
    (w : World) (args : YggArgs) (cfg : NodeConfig)
    → IsWorking w args cfg
    → All (λ s. ends_context s ≡ false) w.signals
    → Waits (run_node w args cfg) started_parts
unfolding run_node
run_node-Waits w args cfg i none_ends =
    Waits->>= _ _ tt (set_up core ∷ []) _ (setup_core-Succeeds w args cfg i)
      (setup_core-Lives w cfg)
      (Waits->>= _ _ i.has_admin (set_up admin ∷ []) _ (setup_admin-Succeeds w args cfg i)
        (setup_admin-Lives w cfg)
        (Waits->>= _ _ tt (set_up multicast ∷ []) _ (setup_multicast-Succeeds w args cfg i)
          (setup_multicast-Lives w cfg i.has_admin)
          (Waits->>= _ _ tt (set_up tun ∷ []) _ (setup_tun-Succeeds w args cfg i)
            (setup_tun-Lives w cfg i.has_admin)
            (Waits->>= _ _ (modules w args cfg i) (set_up meshname ∷ set_up autopeering ∷ []) _
              (setup_modules-Succeeds w args cfg i) (setup_modules-Lives w args)
              (Waits->>= _ _ tt [] _ (Succeeds-emit_all _) (Lives-emit_all _) (
                Waits->>= _ _ tt (waited ∷ []) [] (Succeeds-emit_all _) (Lives-emit_all _) (
                  Waits-first _ _ [] (Waits-lift _ (wait_for_end_blocks w.signals none_ends)))))))))

find_config-Lives :
    (w : World) (args : YggArgs) (cfg : NodeConfig)
    → asks_node args ≡ true
    → Configured w args cfg
    → Lives (find_config w args) []
find_config-Lives w args cfg h (inl (a, g)) =
    let v : args.ver ≡ false = ground arith in rw (find_config-auto w args v a) (Lives-lift _)
find_config-Lives w args cfg h (inr (a, r)) =
    let v : args.ver ≡ false = ground arith in
    let c : has_conf args ≡ true = ground arith in
    let n : args.normaliseconf ≡ false = ground arith in
    rw (find_config-load w args v a c, load_config-node w args n)
      (Lives->>= _ _ [] [] (Lives-lift _) (λ cfg. Lives-lift _))

-- When the flags ask for a node, its configuration is generated or is read without an error, its keys,
-- regular expressions and parts work, and no signal ends the context, `run` makes or starts every part, waits,
-- never returns, and stops none of them.
pub run-Waits :
    (w : World) (args : YggArgs) (cfg : NodeConfig)
    → asks_node args ≡ true
    → Configured w args cfg
    → IsWorking w args cfg
    → All (λ s. ends_context s ≡ false) w.signals
    → Waits (run w args) started_parts
unfolding run
run-Waits w args cfg h c i none_ends =
    let ga : args.getaddr ≡ false = ground arith in
    let gs : args.getsnet ≡ false = ground arith in
    Waits->>= _ _ tt [] _ (Succeeds-emit_all _) (Lives-emit_all _) (
      Waits->>= _ _ tt [] _ (Succeeds-emit_all _) (enable_levels-Lives args) (
        Waits->>= _ _ (some cfg) [] _ (find_config-Succeeds w args cfg h c)
          (find_config-Lives w args cfg h c)
          (rw (run_config-node w args cfg ga gs)
            (Waits-first _ _ started_parts (run_node-Waits w args cfg i none_ends)))))
