-- ===== src/Base/Text.antt =====
-- Go strings: their bytes, and what the program uses of the package strings. Letters are those of
-- ASCII: `to_lower` leaves a byte above 127 alone.
use Prim.Native.Char.{code}
use Prim.Native.String.{String}
use mathlib.Core.List.{List, [], ◌∷◌, ◌++◌}
use mathlib.Core.Bool.{Bool, true, false, ◌&&◌}
use mathlib.Core.Logic.{◌↔◌, ◌⊎◌, inl, inr}
use mathlib.Core.Path.{◌≡◌, refl, sym, ap, ◌∙◌}
use Prim.Native.Nat.{ℕ, ◌+◌}
use native.Mathlib.Omega.{arith}
use popura.Base.Lists.{All}
use popura.Base.Tests.{leb, ◌==◌, if◌then◌else◌, Bool-cases}

abbrev pub Bytes : Type 0
Bytes = List ℕ

-- The bytes of an ASCII literal.
abbrev pub bytes : String → Bytes
bytes String.[] = []
bytes (String.◌∷◌ c s) = code c ∷ bytes s

-- `s == t`
unfoldable pub same : Bytes → Bytes → Bool
same [] [] = true
same [] (c ∷ t) = false
same (c ∷ s) [] = false
same (c ∷ s) (d ∷ t) = c == d && same s t

pub same_iff : (s t : Bytes) → (same s t ≡ true) ↔ (s ≡ t)
unfolding same
same_iff [] [] = (λ h. refl, λ h. refl)
same_iff [] (c ∷ t) = (λ h. cc, λ h. cc)
same_iff (c ∷ s) [] = (λ h. cc, λ h. cc)
same_iff (c ∷ s) (d ∷ t) = ground (arith, same_iff s t)

pub same_refl : (s : Bytes) → same s s ≡ true
same_refl s = (same_iff s s).1 refl

-- `strings.HasPrefix(s, prefix)`
unfoldable pub has_prefix : Bytes → Bytes → Bool
has_prefix s [] = true
has_prefix [] (d ∷ p) = false
has_prefix (c ∷ s) (d ∷ p) = c == d && has_prefix s p

pub has_prefix_iff : (s p : Bytes) → (has_prefix s p ≡ true) ↔ ((r : Bytes) × (s ≡ p ++ r))
unfolding has_prefix
has_prefix_iff s [] = (λ h. (s, refl), λ h. refl)
has_prefix_iff [] (d ∷ p) = (λ h. cc, λ h. cc h.1)
has_prefix_iff (c ∷ s) (d ∷ p) = (
  λ h. let (r, e) = (has_prefix_iff s p).0 (ground arith) in (r, ground arith),
  λ (r, e). ground (arith, (has_prefix_iff s p).1 (r, ground arith)),
)

-- `strings.ToLower(s)`
unfoldable pub to_lower : Bytes → Bytes
to_lower [] = []
to_lower (c ∷ s) = (if leb b'A' c && leb c b'Z' then c + 32 else c) ∷ to_lower s

-- A byte in front of the first piece.
abbrev pub extend_first : ℕ → List Bytes → List Bytes
extend_first c [] = (c ∷ []) ∷ []
extend_first c (w ∷ ws) = (c ∷ w) ∷ ws

-- `strings.Split(s, sep)` at a separator of one byte.
unfoldable pub split_on : ℕ → Bytes → List Bytes
split_on sep [] = [] ∷ []
split_on sep (c ∷ s) =
    let pieces = split_on sep s in if c == sep then [] ∷ pieces else extend_first c pieces

-- `strings.SplitN(s, sep, 2)` at a separator of one byte.
unfoldable pub split_two : ℕ → Bytes → List Bytes
split_two sep [] = [] ∷ []
split_two sep (c ∷ s) =
    let pieces = split_two sep s in if c == sep then [] ∷ s ∷ [] else extend_first c pieces

-- `strings.Join(pieces, sep)`
unfoldable pub join : Bytes → List Bytes → Bytes
join sep [] = []
join sep (w ∷ []) = w
join sep (w ∷ v ∷ ws) = w ++ (sep ++ join sep (v ∷ ws))

split_on-cons : (sep : ℕ) (s : Bytes) → (w : Bytes) × (ws : List Bytes) × (split_on sep s ≡ w ∷ ws)
unfolding split_on
split_on-cons sep [] = ([], [], refl)
split_on-cons sep (c ∷ s) =
    let (w, ws, e) = split_on-cons sep s in
    elim (Bool-cases (c == sep)) [
      | inl h ↦ ([], split_on sep s, rw h)
      | inr h ↦ (c ∷ w, ws, rw (h, e))
    ]

join-extend_first :
    (sep : Bytes) (c : ℕ) (w : Bytes) (ws : List Bytes)
    → join sep ((c ∷ w) ∷ ws) ≡ c ∷ join sep (w ∷ ws)
unfolding join
join-extend_first sep c w [] = refl
join-extend_first sep c w (v ∷ ws) = refl

-- The pieces of a text, joined by the separator, are the text.
pub join-split_on : (sep : ℕ) (s : Bytes) → join (sep ∷ []) (split_on sep s) ≡ s
unfolding split_on join
join-split_on sep [] = refl
join-split_on sep (c ∷ s) =
    let (w, ws, e) = split_on-cons sep s in
    let whole : join (sep ∷ []) (w ∷ ws) ≡ s = ap (join (sep ∷ [])) (sym e) ∙ join-split_on sep s in
    elim (Bool-cases (c == sep)) [
      | inl h ↦ let same_byte : c ≡ sep = ground arith in rw (h, e) (cc)
      | inr h ↦ rw (h, e) (join-extend_first (sep ∷ []) c w ws ∙ ap (◌∷◌ c) whole)
    ]

-- The text is cut at its first separator.
pub split_two-key :
    (sep : ℕ) (key v : Bytes)
    → All (λ c. (c == sep) ≡ false) key
    → split_two sep (key ++ (sep ∷ v)) ≡ key ∷ v ∷ []
unfolding split_two
split_two-key sep [] v h = let same_byte : (sep == sep) ≡ true = ground arith in rw same_byte
split_two-key sep (c ∷ key) v h = rw (h.0, split_two-key sep key v h.1)

-- The text is one piece, or two that the separator joins.
pub split_two-cases :
    (sep : ℕ) (s : Bytes)
    → (split_two sep s ≡ s ∷ [])
      ⊎ ((key : Bytes) × (v : Bytes) × (split_two sep s ≡ key ∷ v ∷ []) × (s ≡ key ++ (sep ∷ v)))
unfolding split_two
split_two-cases sep [] = inl refl
split_two-cases sep (c ∷ s) = elim (Bool-cases (c == sep)) [
  | inl h ↦ let same_byte : c ≡ sep = ground arith in inr ([], s, rw h, ap (λ d. d ∷ s) same_byte)
  | inr h ↦ elim (split_two-cases sep s) [
    | inl e ↦ inl (rw (h, e))
    | inr (key, v, e, f) ↦ inr (c ∷ key, v, rw (h, e), ap (◌∷◌ c) f)
  ]
]
