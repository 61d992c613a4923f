-- ===== src/Mobile/Start.antt =====
-- contrib/mobile/mobile.go: when `StartJSON` starts the node, and the node that it starts.
use popura.Base.{
  ℕ, min, Bool, true, false, ◌≡◌, refl, sym, ap, ◌∙◌, ◌↔◌, List, [], ◌∷◌, ◌++◌, map, Option, none,
  some, arith, All, ltb, if◌then◌else◌,
}
use popura.Base.Panic.{value-injective, Exec, value, panic, raised, value->>=}
use popura.Base.Text.{Bytes}
use popura.Keys.Hex.{decode_string}
use popura.Yggdrasil.Config.{
  NodeConfig, MulticastInterface, allowed_public_key, decoded, peer_options, interface_options,
}
use popura.Mobile.{
  World, Yggdrasil, must, core_options, compile_all, setup_multicast, setup_rwc, start_config,
  start_unmarshalled, start_json,
}
use popura.Mobile.Options.{
  AreDecoded, decoded-value, must-value, allowed_options-AreDecoded, core_options-value,
}

if-value :
    (b : Bool) (m : Exec (Unit {0}))
    → (if b then m else panic raised) ≡ value tt
    → (b ≡ true) × (m ≡ value tt)
if-value true m h = (refl, h)
if-value false m h = absurd cc

module _ {C M S : Type 0} (w : World C M S) where
  pub Compiles : MulticastInterface → Type 0
  Compiles intf = w.compiles intf.regex ≡ true

  compile_all-value : (l : List MulticastInterface) → compile_all w l ≡ value tt → All Compiles l
  unfolding compile_all Compiles
  compile_all-value [] h = tt
  compile_all-value (intf ∷ rest) h =
      let (e, r) = if-value (w.compiles intf.regex) (compile_all w rest) h in
      (e, compile_all-value rest r)

  compile_all-All : (l : List MulticastInterface) → All Compiles l → compile_all w l ≡ value tt
  unfolding compile_all Compiles
  compile_all-All [] h = refl
  compile_all-All (intf ∷ rest) (e, h) = rw (e, compile_all-All rest h) refl

  -- The multicast module of the node: that of before without interfaces, and otherwise what
  -- `multicast.New` gave, with an error or not.
  abbrev pub multicast_after : Option M → C → List MulticastInterface → Option M
  multicast_after old c [] = old
  multicast_after old c (intf ∷ rest) = (w.new_multicast c (intf ∷ rest)).0

  -- What a start needs, and the node that it leaves.
  pub record Starts (configjson : Bytes) (m m' : Yggdrasil C M S) : Type 0 where
    pub config : NodeConfig
    pub sk : Bytes
    pub keys : List Bytes
    pub core : C
    pub unmarshals : w.unmarshal configjson w.generated ≡ (some config, true)
    pub decodes : decode_string config.private_key ≡ (sk, true)
    pub allowed : AreDecoded config.allowed_public_keys keys
    pub makes_core :
        w.new_core sk (
          peer_options [] config.peers
          ++ (interface_options config.interface_peers ++ map allowed_public_key keys))
        ≡ some core
    pub compile : All Compiles config.multicast_interfaces
    pub has_core : m'.core ≡ some core
    pub has_config : m'.config ≡ some config
    pub has_multicast : m'.multicast ≡ multicast_after m.multicast core config.multicast_interfaces
    pub has_iprwc :
        m'.iprwc
        ≡ some (w.set_mtu (w.new_rwc core) (min config.if_mtu (w.max_mtu (w.new_rwc core))))

  min-if : (n mtu : ℕ) → (if ltb n mtu then n else mtu) ≡ min mtu n
  min-if n mtu = ground arith

  setup_rwc-min :
      (c : C) (mtu : ℕ)
      → setup_rwc w c mtu ≡ w.set_mtu (w.new_rwc c) (min mtu (w.max_mtu (w.new_rwc c)))
  unfolding setup_rwc
  setup_rwc-min c mtu = ap (w.set_mtu (w.new_rwc c)) (min-if (w.max_mtu (w.new_rwc c)) mtu)

  setup_multicast-value :
      (old : Option M) (c : C) (l : List MulticastInterface) (o : Option M)
      → setup_multicast w old c l ≡ value o
      → All Compiles l × (o ≡ multicast_after old c l)
  unfolding setup_multicast
  setup_multicast-value old c [] o h = (tt, cc)
  setup_multicast-value old c (intf ∷ rest) o h =
      let (u, e, r) = value->>= (compile_all w (intf ∷ rest)) _ o h in
      (compile_all-value (intf ∷ rest) e, cc)

  setup_multicast-All :
      (old : Option M) (c : C) (l : List MulticastInterface)
      → All Compiles l
      → setup_multicast w old c l ≡ value (multicast_after old c l)
  unfolding setup_multicast
  setup_multicast-All old c [] h = refl
  setup_multicast-All old c (intf ∷ rest) h = rw (compile_all-All (intf ∷ rest) h) refl

  start_config-Starts :
      (configjson : Bytes) (m m' : Yggdrasil C M S) (config : NodeConfig)
      → w.unmarshal configjson w.generated ≡ (some config, true)
      → start_config w m config ≡ value m'
      → Starts configjson m m'
  unfolding start_config
  start_config-Starts configjson m m' config u h =
      let (sk, d, h1) = value->>= (decoded (decode_string config.private_key)) _ m' h in
      let (options, o, h2) = value->>= (core_options config) _ m' h1 in
      let (keys, a, e) = core_options-value config options o in
      let (c, n, h3) = value->>= (must (w.new_core sk options)) _ m' h2 in
      let (multicast, t, h4) =
        value->>= (setup_multicast w m.multicast c config.multicast_interfaces) _ m' h3 in
      let (l, p) = setup_multicast-value m.multicast c config.multicast_interfaces multicast t in
      record {
        config = config;
        sk = sk;
        keys = keys;
        core = c;
        unmarshals = u;
        decodes = decoded-value _ sk d;
        allowed = a;
        makes_core = ap (w.new_core sk) (sym e) ∙ must-value _ c n;
        compile = l;
        has_core = cc;
        has_config = cc;
        has_multicast = cc;
        has_iprwc =
            sym (ap (λ n. n.iprwc) (value-injective _ m' h4))
            ∙ ap some (setup_rwc-min c config.if_mtu);
      }

  start_unmarshalled-Starts :
      (configjson : Bytes) (m m' : Yggdrasil C M S) (r : Option NodeConfig × Bool)
      → w.unmarshal configjson w.generated ≡ r
      → start_unmarshalled w m r ≡ value (m', true)
      → Starts configjson m m'
  unfolding start_unmarshalled
  start_unmarshalled-Starts configjson m m' (config, false) u h = absurd cc
  start_unmarshalled-Starts configjson m m' (none, true) u h = absurd cc
  start_unmarshalled-Starts configjson m m' (some config, true) u h =
      let (n, e, r) = value->>= (start_config w m config) _ (m', true) h in
      start_config-Starts configjson m m' config u
        (e ∙ ap value (ap (λ x. x.0) (value-injective _ _ r)))

  -- The node that a start leaves, in one piece.
  abbrev started_node :
      (configjson : Bytes) (m m' : Yggdrasil C M S) → Starts configjson m m' → Yggdrasil C M S
  started_node configjson m m' s = record {
    core = some s.core;
    iprwc = some (setup_rwc w s.core s.config.if_mtu);
    config = some s.config;
    multicast = multicast_after m.multicast s.core s.config.multicast_interfaces;
  }

  started_node-eq :
      (configjson : Bytes) (m m' : Yggdrasil C M S) (s : Starts configjson m m')
      → started_node configjson m m' s ≡ m'
  started_node-eq configjson m m' s i = record {
    core = sym s.has_core i;
    iprwc = (ap some (setup_rwc-min s.core s.config.if_mtu) ∙ sym s.has_iprwc) i;
    config = sym s.has_config i;
    multicast = sym s.has_multicast i;
  }

  Starts-start_json :
      (configjson : Bytes) (m m' : Yggdrasil C M S)
      → Starts configjson m m'
      → start_json w configjson m ≡ value (m', true)
  unfolding start_json start_unmarshalled start_config core_options decoded
  Starts-start_json configjson m m' s =
      rw
        (
          s.unmarshals,
          s.decodes,
          allowed_options-AreDecoded _ s.keys s.allowed,
          s.makes_core,
          setup_multicast-All m.multicast s.core s.config.multicast_interfaces s.compile,
        )
        (ap (λ n. value (n, true)) (started_node-eq configjson m m' s))

  -- `StartJSON` starts the node exactly when the text unmarshals into a configuration, its keys are
  -- hex, `core.New` takes them with the peers, and the interfaces' patterns compile. The started
  -- node has that core, that configuration, the multicast module of before where no interface is
  -- given and otherwise what `multicast.New` gave, also with an error, and an adapter whose MTU is the smaller of the configured one and the largest possible.
  pub start_json_iff :
      (configjson : Bytes) (m m' : Yggdrasil C M S)
      → (start_json w configjson m ≡ value (m', true)) ↔ Starts configjson m m'
  unfolding start_json
  start_json_iff configjson m m' = (
    λ h. start_unmarshalled-Starts configjson m m' (w.unmarshal configjson w.generated) refl h,
    Starts-start_json configjson m m',
  )

  start_unmarshalled_error :
      (m m' : Yggdrasil C M S) (r : Option NodeConfig × Bool)
      → start_unmarshalled w m r ≡ value (m', false)
      → (config : Option NodeConfig) × (r ≡ (config, false)) × (m' ≡ record m { config = config })
  unfolding start_unmarshalled
  start_unmarshalled_error m m' (config, false) h =
      (config, refl, sym (ap (λ x. x.0) (value-injective _ _ h)))
  start_unmarshalled_error m m' (none, true) h = absurd cc
  start_unmarshalled_error m m' (some config, true) h =
      let (n, e, r) = value->>= (start_config w m config) _ (m', false) h in absurd cc

  -- `StartJSON` returns an error exactly when the text does not unmarshal, and then it has changed
  -- nothing but the configuration, to what `json.Unmarshal` left: no other fault is returned as an
  -- error.
  pub start_json_error_iff :
      (configjson : Bytes) (m m' : Yggdrasil C M S)
      → (start_json w configjson m ≡ value (m', false)) ↔ (
          (config : Option NodeConfig) × (w.unmarshal configjson w.generated ≡ (config, false))
          × (m' ≡ record m { config = config }))
  unfolding start_json start_unmarshalled
  start_json_error_iff configjson m m' = (
    λ h. start_unmarshalled_error m m' (w.unmarshal configjson w.generated) h,
    λ (config, u, e). rw (u, e) refl,
  )
