-- ===== src/Yggdrasil/Options.antt =====
-- cmd/yggdrasil/main.go: the options of the core, and when there are any.
use popura.Base.{Bool, true, false, ◌≡◌, refl, ap, ◌∙◌, List, [], ◌∷◌, ◌++◌, map}
use popura.Base.Panic.{value, value->>=, value-injective}
use popura.Base.Text.{Bytes}
use popura.Keys.Hex.{decode_string}
use popura.Yggdrasil.Config.{
  NodeConfig, CoreOption, node_info, node_info_privacy, listen_address, peer, allowed_public_key,
  decoded, allowed_options, listen_options, peer_options, interface_options, core_options,
}

-- The texts are hex, of these keys.
abbrev pub Decode : List Bytes → List Bytes → Type 0
Decode [] [] = Unit {0}
Decode [] (k ∷ ks) = ⊥
Decode (t ∷ ts) [] = ⊥
Decode (t ∷ ts) (k ∷ ks) = (decode_string t ≡ (k, true)) × Decode ts ks

abbrev pub peers_of : List (Bytes × List Bytes) → List CoreOption
peers_of [] = []
peers_of ((intf, uris) ∷ rest) = map (λ uri. peer uri intf) uris ++ peers_of rest

-- All that the configuration says of the core, with the allowed keys.
abbrev pub options_of : NodeConfig → List Bytes → List CoreOption
options_of cfg allowed =
    node_info cfg.node_info
    ∷ node_info_privacy cfg.node_info_privacy
    ∷ (map listen_address cfg.listen
        ++ (map (λ uri. peer uri []) cfg.peers
            ++ (peers_of cfg.interface_peers ++ map allowed_public_key allowed)))

listen_options-map : (ls : List Bytes) → listen_options ls ≡ map listen_address ls
listen_options-map [] = refl
listen_options-map (l ∷ ls) = ap (◌∷◌ (listen_address l)) (listen_options-map ls)

peer_options-map :
    (intf : Bytes) (uris : List Bytes) → peer_options intf uris ≡ map (λ uri. peer uri intf) uris
peer_options-map intf [] = refl
peer_options-map intf (uri ∷ uris) = ap (◌∷◌ (peer uri intf)) (peer_options-map intf uris)

interface_options-peers_of : (ps : List (Bytes × List Bytes)) → interface_options ps ≡ peers_of ps
unfolding interface_options
interface_options-peers_of [] = refl
interface_options-peers_of ((intf, uris) ∷ rest) =
    rw (peer_options-map intf uris, interface_options-peers_of rest) refl

allowed_options-Decode :
    (ts ks : List Bytes) → Decode ts ks → allowed_options ts ≡ value (map allowed_public_key ks)
unfolding allowed_options decoded
allowed_options-Decode [] [] h = refl
allowed_options-Decode [] (k ∷ ks) h = elim h [ ]
allowed_options-Decode (t ∷ ts) [] h = elim h [ ]
allowed_options-Decode (t ∷ ts) (k ∷ ks) (e, h) = rw (e, allowed_options-Decode ts ks h) refl

pub decoded-true : (d : Bytes × Bool) (bs : Bytes) → decoded d ≡ value bs → d ≡ (bs, true)
unfolding decoded
decoded-true (cs, true) bs h = let same : cs ≡ bs = cc in ap (λ s. (s, true)) same
decoded-true (cs, false) bs h = absurd cc

-- The allowed keys behind their options.
Decode-of_allowed_options :
    (ts : List Bytes) (os : List CoreOption)
    → allowed_options ts ≡ value os
    → (ks : List Bytes) × Decode ts ks × (map allowed_public_key ks ≡ os)
unfolding allowed_options
Decode-of_allowed_options [] os h = ([], tt, value-injective _ _ h)
Decode-of_allowed_options (t ∷ ts) os h =
    let (k, d, h1) = value->>= (decoded (decode_string t)) _ os h in
    let (rest, r, h2) = value->>= (allowed_options ts) _ os h1 in
    let (ks, e, same) = Decode-of_allowed_options ts rest r in
    (k ∷ ks, (decoded-true _ k d, e), ap (◌∷◌ (allowed_public_key k)) same ∙ value-injective _ _ h2)

-- The options in front of the allowed keys.
front :
    (cfg : NodeConfig) (allowed : List Bytes)
    → options_of cfg allowed
      ≡ node_info cfg.node_info
        ∷ node_info_privacy cfg.node_info_privacy
        ∷ (listen_options cfg.listen
            ++ (peer_options [] cfg.peers
                ++ (interface_options cfg.interface_peers ++ map allowed_public_key allowed)))
front cfg allowed =
    rw
      (
        listen_options-map cfg.listen,
        peer_options-map [] cfg.peers,
        interface_options-peers_of cfg.interface_peers,
      )
      refl

pub core_options-value :
    (cfg : NodeConfig) (allowed : List Bytes)
    → Decode cfg.allowed_public_keys allowed
    → core_options cfg ≡ value (options_of cfg allowed)
unfolding core_options
core_options-value cfg allowed h =
    rw (front cfg allowed, allowed_options-Decode cfg.allowed_public_keys allowed h) refl

pub Decode-of_core_options :
    (cfg : NodeConfig) (os : List CoreOption)
    → core_options cfg ≡ value os
    → (allowed : List Bytes) × Decode cfg.allowed_public_keys allowed
      × (options_of cfg allowed ≡ os)
unfolding core_options
Decode-of_core_options cfg os h =
    let (opts, a, h1) = value->>= (allowed_options cfg.allowed_public_keys) _ os h in
    let (allowed, d, same) = Decode-of_allowed_options cfg.allowed_public_keys opts a in
    (allowed, d, front cfg allowed ∙ rw same (value-injective _ _ h1))
