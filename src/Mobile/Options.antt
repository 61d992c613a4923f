-- ===== src/Mobile/Options.antt =====
-- contrib/mobile/mobile.go: the keys and the options of `core.New`.
use popura.Base.{Bool, true, false, ◌≡◌, refl, List, [], ◌∷◌, ◌++◌, map, Option, none, some}
use popura.Base.Panic.{value, value->>=}
use popura.Base.Text.{Bytes}
use popura.Keys.Hex.{decode_string}
use popura.Yggdrasil.Config.{
  NodeConfig, CoreOption, allowed_public_key, decoded, allowed_options, peer_options,
  interface_options,
}
use popura.Mobile.{must, core_options}

-- Texts of hex, and the bytes that they stand for.
pub AreDecoded : List Bytes → List Bytes → Type 0
AreDecoded [] [] = Unit {0}
AreDecoded [] (k ∷ ks) = ⊥
AreDecoded (s ∷ ss) [] = ⊥
AreDecoded (s ∷ ss) (k ∷ ks) = (decode_string s ≡ (k, true)) × AreDecoded ss ks

pub decoded-value : (r : Bytes × Bool) (k : Bytes) → decoded r ≡ value k → r ≡ (k, true)
unfolding decoded
decoded-value (bs, true) k h = cc
decoded-value (bs, false) k h = absurd cc

pub must-value : {A : Type 0} (o : Option A) (a : A) → must o ≡ value a → o ≡ some a
must-value (some b) a h = cc
must-value none a h = absurd cc

allowed_options-value :
    (keys : List Bytes) (options : List CoreOption)
    → allowed_options keys ≡ value options
    → (ks : List Bytes) × AreDecoded keys ks × (options ≡ map allowed_public_key ks)
unfolding allowed_options AreDecoded
allowed_options-value [] options h = ([], tt, cc)
allowed_options-value (s ∷ keys) options h =
    let (k, d, r) = value->>= (decoded (decode_string s)) _ options h in
    let (rest, a, e) = value->>= (allowed_options keys) _ options r in
    let (ks, l, p) = allowed_options-value keys rest a in (k ∷ ks, (decoded-value _ k d, l), cc)

pub allowed_options-AreDecoded :
    (keys ks : List Bytes)
    → AreDecoded keys ks
    → allowed_options keys ≡ value (map allowed_public_key ks)
unfolding allowed_options AreDecoded decoded
allowed_options-AreDecoded [] [] h = refl
allowed_options-AreDecoded (s ∷ keys) (k ∷ ks) (e, h) =
    rw (e, allowed_options-AreDecoded keys ks h) refl
allowed_options-AreDecoded [] (k ∷ ks) h = elim h [ ]
allowed_options-AreDecoded (s ∷ keys) [] h = elim h [ ]

pub core_options-value :
    (config : NodeConfig) (options : List CoreOption)
    → core_options config ≡ value options
    → (keys : List Bytes) × AreDecoded config.allowed_public_keys keys
      × (options
          ≡ peer_options [] config.peers
            ++ (interface_options config.interface_peers ++ map allowed_public_key keys))
unfolding core_options
core_options-value config options h =
    let (allowed, a, r) = value->>= (allowed_options config.allowed_public_keys) _ options h in
    let (keys, d, e) = allowed_options-value config.allowed_public_keys allowed a in (keys, d, cc)
