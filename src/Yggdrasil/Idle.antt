-- ===== src/Yggdrasil/Idle.antt =====
-- The flags with which `run` only prints.
use popura.Base.{
  Bool, true, false, ◌||◌, ◌≡◌, refl, List, [], ◌∷◌, map, Option, none, some, All, Bool-cases, inl,
  inr, arith, if◌then◌else◌,
}
use popura.Base.Panic.{value}
use popura.Base.Text.{Bytes}
use popura.Keys.Hex.{decode_string}
use popura.Yggdrasil.Trace.{
  Event, printed, Traced, lift, emit_all, ◌>>=◌, ◌>>◌, IsIdle, Idles, Idles->>=, Idles-lift,
  Idles-emit_all, value_bind, bind_assoc,
}
use popura.Yggdrasil.Args.{YggArgs}
use popura.Yggdrasil.Config.{NodeConfig, World, must, read_config}
use popura.Yggdrasil.{print_config, load_config, has_conf, find_config, print_key, run_config, run}
use popura.Yggdrasil.Modes.{asks_node, levels-IsIdle, printed-IsIdle}

-- The call sets nothing up, and neither does what `run` does with its result.
abbrev Ends : World → YggArgs → Traced (Option NodeConfig) → Type 0
Ends w args m = Idles (m >>= run_config w args)

module _ (w : World) (args : YggArgs) where
  none-Ends : Ends w args (lift (value none))
  unfolding run_config
  none-Ends = rw (value_bind none (run_config w args)) (Idles-lift _)

  printed-Ends : (es : List Event) → All IsIdle es → Ends w args (emit_all es >> lift (value none))
  printed-Ends es h =
      rw (bind_assoc (emit_all es) (λ _. lift (value none)) (run_config w args))
        (Idles->>= _ _ (Idles-emit_all es h) (λ _. none-Ends))

  print_config-Ends : (json : Bool) (cfg : NodeConfig) → Ends w args (print_config w json cfg)
  print_config-Ends json cfg =
      rw (bind_assoc (lift (must (w.marshal json cfg))) _ (run_config w args))
        (Idles->>= _ _ (Idles-lift _) (λ text. printed-Ends (printed text ∷ []) (tt, tt)))

  print_key-Idles : (show : Bytes → Bytes) (key : Bytes × Bool) → Idles (print_key show key)
  print_key-Idles show (bs, false) = Idles-lift _
  print_key-Idles show (bs, true) = Idles->>= _ _ (Idles-lift _) (λ key. Idles-emit_all _ (tt, tt))

  -- Where the address or the subnet is asked for, a configuration sets nothing up.
  asked-Idles :
      (cfg : NodeConfig)
      → (args.getaddr || args.getsnet) ≡ true
      → Idles (run_config w args (some cfg))
  unfolding run_config
  asked-Idles cfg h = elim (Bool-cases args.getaddr) [
    | inl a ↦ simp a (print_key-Idles w.address_text (decode_string cfg.private_key))
    | inr a ↦
        let s : args.getsnet ≡ true = ground arith in
        simp (a, s) (print_key-Idles w.subnet_text (decode_string cfg.private_key))
  ]

  -- A configuration that is read, and printed back or asked for a key.
  load_config-Ends :
      ((args.getaddr || args.getsnet) || args.normaliseconf) ≡ true
      → Ends w args (load_config w args)
  unfolding load_config
  load_config-Ends h =
      rw (bind_assoc (lift (read_config w args.useconffile)) _ (run_config w args)) (
        Idles->>= _ _ (Idles-lift _) (λ cfg. elim (Bool-cases args.normaliseconf) [
          | inl n ↦ simp n (print_config-Ends args.confjson cfg)
          | inr n ↦
              let asked : (args.getaddr || args.getsnet) ≡ true = ground arith in
              simp (n, value_bind (some cfg) (run_config w args)) (asked-Idles cfg asked)
        ]))

  Ends-if :
      (b : Bool) (m n : Traced (Option NodeConfig))
      → (b ≡ true → Ends w args m)
      → (b ≡ false → Ends w args n)
      → Ends w args (if b then m else n)
  Ends-if true m n p q = p refl
  Ends-if false m n p q = q refl

  find_config-Ends : asks_node args ≡ false → Ends w args (find_config w args)
  unfolding find_config
  find_config-Ends h =
      Ends-if args.ver _ _ (λ v. printed-Ends (map printed w.version_lines) (printed-IsIdle _))
        (λ v.
          Ends-if args.autoconf _ _
            (λ a.
              rw (value_bind (some w.generated) (run_config w args))
                (asked-Idles w.generated (ground arith)))
            (λ a.
              Ends-if (has_conf args) _ _ (λ c. load_config-Ends (ground arith))
                (λ c.
                  Ends-if args.genconf _ _ (λ g. print_config-Ends args.confjson w.generated)
                    (λ g. printed-Ends (map printed w.help) (printed-IsIdle _)))))

  -- When the flags do not ask for a node, `run` sets up no part of one, whether it panics or not.
  pub run-Idles : asks_node args ≡ false → Idles (run w args)
  unfolding run
  run-Idles h =
      Idles->>= _ _ (Idles-emit_all _ (tt, tt))
        (λ _. Idles->>= _ _ (Idles-emit_all _ (levels-IsIdle _)) (λ _. find_config-Ends h))
