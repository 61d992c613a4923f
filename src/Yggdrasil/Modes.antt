-- ===== src/Yggdrasil/Modes.antt =====
-- Which flags start a node, and which only print.
use mathlib.Core.Path.{subst}
use popura.Base.{
  Bool, true, false, not, ◌&&◌, ◌||◌, ◌≡◌, refl, List, [], ◌∷◌, map, some, All, Bool-cases, inl,
  inr, arith, if◌then◌else◌,
}
use popura.Base.Panic.{value}
use popura.Base.Text.{Bytes, bytes}
use popura.Yggdrasil.LogLevel.{set_log_level}
use popura.Yggdrasil.Trace.{
  level, printed, lift, ◌>>=◌, life, Lives, Lives->>=, Lives-lift, Lives-emit_all, IsIdle,
  value_bind, bind_assoc,
}
use popura.Yggdrasil.Args.{YggArgs}
use popura.Yggdrasil.Config.{NodeConfig, World, read_config}
use popura.Yggdrasil.{
  done, enable_levels, load_config, has_conf, find_config, run_node, run_config, run,
}
use popura.Yggdrasil.Life.{whole_life, run_node-Lives}

-- The flags ask for a node: a generated configuration, or one that is read and not printed back; and
-- neither the version, the address nor the subnet is asked for.
abbrev pub asks_node : YggArgs → Bool
asks_node args =
    not args.ver
    && (args.autoconf || (has_conf args && not args.normaliseconf))
    && (not args.getaddr && not args.getsnet)

levels-life : (ss : List Bytes) → life (map level ss) ≡ []
levels-life [] = refl
levels-life (s ∷ ss) = levels-life ss

pub levels-IsIdle : (ss : List Bytes) → All IsIdle (map level ss)
levels-IsIdle [] = tt
levels-IsIdle (s ∷ ss) = (tt, levels-IsIdle ss)

pub printed-IsIdle : (ss : List Bytes) → All IsIdle (map printed ss)
printed-IsIdle [] = tt
printed-IsIdle (s ∷ ss) = (tt, printed-IsIdle ss)

pub enable_levels-Lives : (args : YggArgs) → Lives (enable_levels args) []
enable_levels-Lives args =
    let ls = set_log_level (if args.normaliseconf then bytes "error" else args.loglevel) in
    subst (Lives (enable_levels args)) (levels-life ls) (Lives-emit_all (map level ls))

module _ (w : World) (args : YggArgs) where
  pub find_config-auto :
      args.ver ≡ false → args.autoconf ≡ true → find_config w args ≡ lift (value (some w.generated))
  unfolding find_config
  find_config-auto v a = simp (v, a)

  pub find_config-load :
      args.ver ≡ false
      → args.autoconf ≡ false
      → has_conf args ≡ true
      → find_config w args ≡ load_config w args
  unfolding find_config
  find_config-load v a h = simp (v, a, h)

  pub run_config-node :
      (cfg : NodeConfig)
      → args.getaddr ≡ false
      → args.getsnet ≡ false
      → run_config w args (some cfg) ≡ (run_node w args cfg >>= λ modules. done)
  unfolding run_config
  run_config-node cfg a s = simp (a, s)

  pub load_config-node :
      args.normaliseconf ≡ false
      → load_config w args
        ≡ (lift (read_config w args.useconffile) >>= λ cfg. lift (value (some cfg)))
  unfolding load_config
  load_config-node n = simp n

  -- When the flags ask for a node and `run` returns, it has called `New` of the core, the admin
  -- socket, multicast and the TUN adapter, and `Start` of meshname and automatic peering, in this order
  -- and each without an error, then waited, and then called `Stop` of the admin socket, multicast, the
  -- TUN adapter, automatic peering, meshname, and the core last; `New` may have given nil. When `run`
  -- panics or waits for ever, what it has done of this is a first part of it, in the same order.
  pub run-Lives : asks_node args ≡ true → Lives (run w args) whole_life
  unfolding run
  run-Lives h =
      let v : args.ver ≡ false = ground arith in
      let ga : args.getaddr ≡ false = ground arith in
      let gs : args.getsnet ≡ false = ground arith in
      let node : (cfg : NodeConfig) → Lives (run_config w args (some cfg)) whole_life = λ cfg.
        rw (run_config-node cfg ga gs)
          (Lives->>= _ _ whole_life [] (run_node-Lives w args cfg) (λ _. Lives-lift _)) in
      Lives->>= _ _ [] _ (Lives-emit_all _) (λ _.
        Lives->>= _ _ [] _ (enable_levels-Lives args) (λ _. elim (Bool-cases args.autoconf) [
          | inl a ↦
              rw (find_config-auto v a, value_bind (some w.generated) (run_config w args))
                (node w.generated)
          | inr a ↦
              let c : has_conf args ≡ true = ground arith in
              let n : args.normaliseconf ≡ false = ground arith in
              rw
                (
                  find_config-load v a c,
                  load_config-node n,
                  bind_assoc (lift (read_config w args.useconffile))
                      (λ cfg. lift (value (some cfg))) (run_config w args),
                )
                (Lives->>= _ _ [] _ (Lives-lift _)
                  (λ cfg. rw (value_bind (some cfg) (run_config w args)) (node cfg)))
        ]))
