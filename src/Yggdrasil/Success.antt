-- ===== src/Yggdrasil/Success.antt =====
-- Runs of the node that do not panic.
use mathlib.Core.Path.{subst}
use popura.Base.{
  Bool, true, false, ◌&&◌, ◌≡◌, refl, sym, ap, ◌⊎◌, inl, inr, List, [], ◌∷◌, some, arith,
}
use popura.Base.Panic.{Exec, value, panic, Returns-at}
use popura.Base.Text.{Bytes}
use popura.Keys.Hex.{decode_string}
use popura.Config.{PopuraConfig}
use popura.Module.{Module}
use popura.Yggdrasil.Trace.{
  Part, admin, multicast, tun, meshname, autopeering, Event, handled, Traced, traced, after, lift,
  emit_all, ◌>>=◌,
}
use popura.Yggdrasil.Args.{YggArgs}
use popura.Yggdrasil.Config.{popura_config, NodeConfig, World, decoded}
use popura.Yggdrasil.{
  check, start_module, handle_if, has_conf, find_config, setup_core, setup_admin, setup_multicast,
  setup_tun, setup_modules, stop_module, stop_parts, run_node, run,
}
use popura.Yggdrasil.Parts.{IsMade, made-value, Compile, all_compile-true}
use popura.Yggdrasil.Reading.{IsRead, IsRead-read_config}
use popura.Yggdrasil.Options.{Decode, options_of, core_options-value}
use popura.Yggdrasil.Signals.{HasEnd, wait_for_end-HasEnd}
use popura.Yggdrasil.Modes.{
  asks_node, find_config-auto, find_config-load, load_config-node, run_config-node,
}

-- The call returns the value.
unfoldable pub Succeeds : {A : Type 0} → Traced A → A → Type 0
Succeeds (traced es m) a = m ≡ value a

Succeeds-after :
    {A : Type 0} (es : List Event) (m : Traced A) (a : A) → Succeeds m a → Succeeds (after es m) a
unfolding Succeeds
Succeeds-after es (traced fs m) a h = h

Succeeds->>= :
    {A B : Type 0} (m : Traced A) (f : A → Traced B) (a : A) (b : B)
    → Succeeds m a
    → Succeeds (f a) b
    → Succeeds (m >>= f) b
unfolding Succeeds ◌>>=◌
Succeeds->>= (traced es (panic e)) f a b h k = absurd cc
Succeeds->>= (traced es (value c)) f a b h k =
    Succeeds-after es (f c) b
      (subst (λ d. Succeeds (f d) b) (Returns-at (λ d. a ≡ d) (sym h) refl) k)

Succeeds-lift : {A : Type 0} (m : Exec A) (a : A) → m ≡ value a → Succeeds (lift m) a
unfolding Succeeds lift
Succeeds-lift m a h = h

pub Succeeds-emit_all : (es : List Event) → Succeeds (emit_all es) tt
unfolding Succeeds emit_all
Succeeds-emit_all es = refl

handle_if-Succeeds : (b : Bool) (p : Part) → Succeeds (handle_if b p) tt
handle_if-Succeeds true p = Succeeds-emit_all (handled p ∷ [])
handle_if-Succeeds false p = Succeeds-lift (value tt) tt refl

-- What a node with a configuration needs: keys in hex, regular expressions that compile, and parts
-- that are made without an error, as nil or not.
pub record IsWorking (w : World) (args : YggArgs) (cfg : NodeConfig) : Type 0 where
  pub sk : Bytes
  pub has_admin : Bool
  pub has_multicast : Bool
  pub has_tun : Bool
  pub decodes : decode_string cfg.private_key ≡ (sk, true)
  pub allowed : List Bytes
  pub decode_allowed : Decode cfg.allowed_public_keys allowed
  pub makes_core : w.new_core sk (options_of cfg allowed) ≡ true
  pub makes_admin : IsMade (w.new_admin cfg.admin_listen) has_admin
  pub compile : Compile w cfg.multicast_interfaces
  pub makes_multicast : IsMade (w.new_multicast cfg.multicast_interfaces) has_multicast
  pub makes_tun : IsMade (w.new_tun cfg.if_name cfg.if_mtu) has_tun
  pub meshname_state : w.meshname.State
  pub creates_meshname : w.meshname.create (popura_config args) ≡ value meshname_state
  pub starts_meshname : (w.meshname.start meshname_state).1 ≡ true
  pub autopeering_state : w.autopeering.State
  pub creates_autopeering : w.autopeering.create (popura_config args) ≡ value autopeering_state
  pub starts_autopeering : (w.autopeering.start autopeering_state).1 ≡ true

start_module-Succeeds :
    (m : Module) (config : PopuraConfig) (p : Part) (s : m.State)
    → m.create config ≡ value s
    → (m.start s).1 ≡ true
    → Succeeds (start_module m config p) (m.start s).0
start_module-Succeeds m config p s c h = Succeeds->>= _ _ s _ (Succeeds-lift _ _ c) (
    Succeeds->>= _ _ tt _ (Succeeds-lift _ _ (ap check h))
      (Succeeds->>= _ _ tt _ (Succeeds-emit_all _) (Succeeds-lift _ _ refl)))

stop_module-Succeeds :
    (m : Module) (p : Part) (s : m.State) → Succeeds (stop_module m p s) (m.stop s)
stop_module-Succeeds m p s = Succeeds->>= _ _ tt _ (Succeeds-emit_all _) (Succeeds-lift _ _ refl)

stop_parts-Succeeds :
    (w : World) (s : w.meshname.State) (t : w.autopeering.State)
    → Succeeds (stop_parts w s t) (w.meshname.stop s, w.autopeering.stop t)
unfolding stop_parts
stop_parts-Succeeds w s t = Succeeds->>= _ _ tt _ (Succeeds-emit_all _) (
    Succeeds->>= _ _ (w.autopeering.stop t) _ (stop_module-Succeeds w.autopeering autopeering t) (
      Succeeds->>= _ _ (w.meshname.stop s) _ (stop_module-Succeeds w.meshname meshname s)
        (Succeeds->>= _ _ tt _ (Succeeds-emit_all _) (Succeeds-lift _ _ refl))))

module _ (w : World) (args : YggArgs) (cfg : NodeConfig) (i : IsWorking w args cfg) where
  pub setup_core-Succeeds : Succeeds (setup_core w cfg) tt
  unfolding setup_core decoded
  setup_core-Succeeds = Succeeds->>= _ _ i.sk _ (Succeeds-lift _ _ (ap decoded i.decodes)) (
      Succeeds->>= _ _ (options_of cfg i.allowed) _
        (Succeeds-lift _ _ (core_options-value cfg i.allowed i.decode_allowed))
        (Succeeds->>= _ _ tt _ (Succeeds-lift _ _ (ap check i.makes_core)) (Succeeds-emit_all _)))

  pub setup_admin-Succeeds : Succeeds (setup_admin w cfg) i.has_admin
  unfolding setup_admin
  setup_admin-Succeeds =
      Succeeds->>= _ _ i.has_admin _ (Succeeds-lift _ _ (made-value _ i.has_admin i.makes_admin)) (
        Succeeds->>= _ _ tt _ (Succeeds-emit_all _)
          (Succeeds->>= _ _ tt _ (handle_if-Succeeds i.has_admin admin) (Succeeds-lift _ _ refl)))

  pub setup_multicast-Succeeds : Succeeds (setup_multicast w cfg i.has_admin) tt
  unfolding setup_multicast
  setup_multicast-Succeeds =
      Succeeds->>= _ _ tt _ (Succeeds-lift _ _ (ap check (all_compile-true w _ i.compile))) (
        Succeeds->>= _ _ i.has_multicast _
          (Succeeds-lift _ _ (made-value _ i.has_multicast i.makes_multicast))
          (Succeeds->>= _ _ tt _ (Succeeds-emit_all _)
            (handle_if-Succeeds (i.has_admin && i.has_multicast) multicast)))

  pub setup_tun-Succeeds : Succeeds (setup_tun w cfg i.has_admin) tt
  unfolding setup_tun
  setup_tun-Succeeds =
      Succeeds->>= _ _ i.has_tun _ (Succeeds-lift _ _ (made-value _ i.has_tun i.makes_tun)) (
        Succeeds->>= _ _ tt _ (Succeeds-emit_all _)
          (handle_if-Succeeds (i.has_admin && i.has_tun) tun))

  -- The states that the modules are left in.
  abbrev pub modules : w.meshname.State × w.autopeering.State
  modules = ((w.meshname.start i.meshname_state).0, (w.autopeering.start i.autopeering_state).0)

  pub setup_modules-Succeeds : Succeeds (setup_modules w args) modules
  unfolding setup_modules
  setup_modules-Succeeds =
      Succeeds->>= _ _ modules.0 _
        (start_module-Succeeds w.meshname _ meshname i.meshname_state i.creates_meshname
          i.starts_meshname)
        (Succeeds->>= _ _ modules.1 _
          (start_module-Succeeds w.autopeering _ autopeering i.autopeering_state
            i.creates_autopeering i.starts_autopeering)
          (Succeeds-lift _ _ refl))

  -- The states that the modules are left in when the node has stopped.
  abbrev stopped_modules : w.meshname.State × w.autopeering.State
  stopped_modules = (
    w.meshname.stop (w.meshname_waits modules.0),
    w.autopeering.stop (w.autopeering_waits modules.1),
  )

  run_node-Succeeds : HasEnd w.signals → Succeeds (run_node w args cfg) stopped_modules
  unfolding run_node
  run_node-Succeeds e = Succeeds->>= _ _ tt _ setup_core-Succeeds (
      Succeeds->>= _ _ i.has_admin _ setup_admin-Succeeds (
        Succeeds->>= _ _ tt _ setup_multicast-Succeeds (
          Succeeds->>= _ _ tt _ setup_tun-Succeeds (
            Succeeds->>= _ _ modules _ setup_modules-Succeeds (
              Succeeds->>= _ _ tt _ (Succeeds-emit_all _) (
                Succeeds->>= _ _ tt _ (Succeeds-emit_all _) (
                  Succeeds->>= _ _ tt _ (Succeeds-lift _ _ (wait_for_end-HasEnd w.signals e)) (
                    stop_parts-Succeeds w (w.meshname_waits modules.0)
                      (w.autopeering_waits modules.1)))))))))

-- The configuration that `run` works with: the generated one, or the one that is read.
abbrev pub Configured : World → YggArgs → NodeConfig → Type 0
Configured w args cfg =
    ((args.autoconf ≡ true) × (w.generated ≡ cfg))
    ⊎ ((args.autoconf ≡ false) × IsRead w args.useconffile cfg)

pub find_config-Succeeds :
    (w : World) (args : YggArgs) (cfg : NodeConfig)
    → asks_node args ≡ true
    → Configured w args cfg
    → Succeeds (find_config w args) (some cfg)
find_config-Succeeds w args cfg h (inl (a, g)) =
    let v : args.ver ≡ false = ground arith in
    rw (find_config-auto w args v a) (Succeeds-lift _ _ (ap (λ c. value (some c)) g))
find_config-Succeeds w args cfg h (inr (a, r)) =
    let v : args.ver ≡ false = ground arith in
    let c : has_conf args ≡ true = ground arith in
    let n : args.normaliseconf ≡ false = ground arith in
    rw (find_config-load w args v a c, load_config-node w args n)
      (Succeeds->>= _ _ cfg _ (Succeeds-lift _ _ (IsRead-read_config w args.useconffile cfg r))
        (Succeeds-lift _ _ refl))

-- With a configuration that works and a signal that ends the wait, `run` returns.
pub run-Succeeds :
    (w : World) (args : YggArgs) (cfg : NodeConfig)
    → asks_node args ≡ true
    → Configured w args cfg
    → IsWorking w args cfg
    → HasEnd w.signals
    → Succeeds (run w args) tt
unfolding run
run-Succeeds w args cfg h c i e =
    let ga : args.getaddr ≡ false = ground arith in
    let gs : args.getsnet ≡ false = ground arith in
    Succeeds->>= _ _ tt _ (Succeeds-emit_all _) (
      Succeeds->>= _ _ tt _ (Succeeds-emit_all _) (
        Succeeds->>= _ _ (some cfg) _ (find_config-Succeeds w args cfg h c) (
          rw (run_config-node w args cfg ga gs)
            (Succeeds->>= _ _ _ _ (run_node-Succeeds w args cfg i e) (Succeeds-lift _ _ refl)))))
