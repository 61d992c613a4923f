-- ===== src/Genkeys/Order.antt =====
-- `isBetter` compares two keys of one length as numbers, the first byte the most significant.
use native.Mathlib.Nat.{pow-suc}
use popura.Base.{
  ℕ, ◌+◌, ◌*◌, ◌^◌, ◌<◌, ◌≡◌, refl, ap, true, false, [], ◌∷◌, arith, ltb, if◌then◌else◌, length,
  All,
}
use popura.Base.Panic.{value}
use popura.Base.Text.{Bytes}
use popura.Genkeys.{is_better}

abbrev pub IsBytes : Bytes → Type 0
IsBytes = All (λ b. b < 256)

unfoldable pub to_number : Bytes → ℕ
to_number [] = 0
to_number (b ∷ bs) = b * 256 ^ length bs + to_number bs

pub to_number-lt : (bs : Bytes) → IsBytes bs → to_number bs < 256 ^ length bs
unfolding to_number
to_number-lt [] h = omega arith
to_number-lt (b ∷ bs) h = rw pow-suc (grind (arith, to_number-lt bs h.1))

-- A lower leading byte decides, whatever follows.
head_lt : (a b x y p : ℕ) → a < b → x < p → a * p + x < b * p + y
head_lt a b x y p h k = grind arith

pub ltb_digits :
    (n o x y p : ℕ)
    → x < p
    → y < p
    → ltb (n * p + x) (o * p + y) ≡ (if ltb n o then true else if ltb o n then false else ltb x y)
ltb_digits n o x y p hx hy = ground (arith, head_lt n o x y p, head_lt o n y x p, same_head)
  where
    same_head : n ≡ o → n * p ≡ o * p
    same_head e = ap (λ t. t * p) e

-- On keys of one length whose entries are bytes, `isBetter` does not panic, and says whether the
-- new key is lower than the old one, both read as big-endian numbers.
pub is_better_lem :
    (old new : Bytes)
    → length old ≡ length new
    → IsBytes old
    → IsBytes new
    → is_better old new ≡ value (ltb (to_number new) (to_number old))
unfolding is_better to_number
is_better_lem [] [] e ho hn = refl
is_better_lem [] (n ∷ new) e ho hn = absurd (omega arith)
is_better_lem (o ∷ old) [] e ho hn = absurd (omega arith)
is_better_lem (o ∷ old) (n ∷ new) e ho hn =
    let e' : length old ≡ length new = omega arith in
    let ih = is_better_lem old new e' ho.1 hn.1 in
    let hi : to_number old < 256 ^ length new = rw e' at (to_number-lt old ho.1) in
    rw e' (ground (arith, ih, ltb_digits n o _ _ _ (to_number-lt new hn.1) hi))
