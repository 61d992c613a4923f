-- ===== src/Brute/Curve25519/Bits.antt =====
-- contrib/yggdrasil-brute-simple/util.c: the shifts of `make_addr` as arithmetic.
use Prim.Native.Nat.{bit_or, bit_or-bitwise, digits, max}
use native.Mathlib.Nat.{
  pow-suc, mul_assoc, div-add-mod, mod-lt, mul-add-mod_self_left, mod-eq_of_lt,
}
use popura.Base.{
  ℕ, zero, suc, ◌+◌, ◌-◌, ◌*◌, ◌/◌, ◌%◌, ◌^◌, ◌≤◌, ◌<◌, ◌≡◌, refl, sym, ap, ◌∙◌, arith,
}

-- The digits of the two numbers, lowest first, by rounds.
abbrev or_from : ℕ → ℕ → ℕ → ℕ
or_from = digits (λ b. b) max

or_from-zero : (n a : ℕ) → a ≤ n → or_from n a 0 ≡ a
or_from-zero zero a h = omega arith
or_from-zero (suc n) zero h = refl
or_from-zero (suc n) (suc a) h =
    let ih = or_from-zero n (suc a / 2) (omega arith) in omega (arith, ih)

-- No carry: where the low digits of the first number are 0, and the second one has no others.
or_from-add : (r n c a b : ℕ) → a ≡ c * 2 ^ r → a ≤ n → b < 2 ^ r → or_from n a b ≡ a + b
or_from-add zero n c a b e h l =
    let none_left : b ≡ 0 = omega arith in rw none_left (or_from-zero n a h ∙ omega arith)
or_from-add (suc r) zero c a b e h l = omega arith
or_from-add (suc r) (suc n) c zero b e h l = omega arith
or_from-add (suc r) (suc n) c (suc a) b e h l =
    let power : 2 ^ suc r ≡ 2 ^ r * 2 = pow-suc 2 r in
    let double : suc a ≡ c * 2 ^ r * 2 = e ∙ ap (◌*◌ c) power ∙ sym (mul_assoc c (2 ^ r) 2) in
    let ih = or_from-add r n c (suc a / 2) (b / 2) (omega arith) (omega arith) (omega arith) in
    omega (arith, ih)

bit_or-add : (r c a b : ℕ) → a ≡ c * 2 ^ r → b < 2 ^ r → bit_or a b ≡ a + b
bit_or-add r c a b e l = bit_or-bitwise a b ∙ or_from-add r a c a b e (omega arith) l

-- The eight bits at the place r of two bytes.
pub two_bytes_lem :
    (r p high low : ℕ)
    → r < 8
    → high < 256
    → low < 256
    → bit_or (high * 2 ^ r % 256) (low / 2 ^ (8 - r))
      ≡ (p * 65536 + (high * 256 + low)) / 2 ^ (8 - r) % 256
two_bytes_lem zero p high low h a b =
    bit_or-add 0 high _ _ (omega arith) (omega arith) ∙ omega arith
two_bytes_lem (suc zero) p high low h a b =
    bit_or-add 1 (high % 128) _ _ (omega arith) (omega arith) ∙ omega arith
two_bytes_lem (suc (suc zero)) p high low h a b =
    bit_or-add 2 (high % 64) _ _ (omega arith) (omega arith) ∙ omega arith
two_bytes_lem (suc (suc (suc zero))) p high low h a b =
    bit_or-add 3 (high % 32) _ _ (omega arith) (omega arith) ∙ omega arith
two_bytes_lem (suc (suc (suc (suc zero)))) p high low h a b =
    bit_or-add 4 (high % 16) _ _ (omega arith) (omega arith) ∙ omega arith
two_bytes_lem (suc (suc (suc (suc (suc zero))))) p high low h a b =
    bit_or-add 5 (high % 8) _ _ (omega arith) (omega arith) ∙ omega arith
two_bytes_lem (suc (suc (suc (suc (suc (suc zero)))))) p high low h a b =
    bit_or-add 6 (high % 4) _ _ (omega arith) (omega arith) ∙ omega arith
two_bytes_lem (suc (suc (suc (suc (suc (suc (suc zero))))))) p high low h a b =
    bit_or-add 7 (high % 2) _ _ (omega arith) (omega arith) ∙ omega arith
two_bytes_lem (suc (suc (suc (suc (suc (suc (suc (suc r)))))))) p high low h a b =
    absurd (omega arith)

expand : (a k u : ℕ) → a * (256 * k + u) ≡ a * 256 * k + u * a
expand a k u = grind arith

digits_lt : (a u v : ℕ) → v < a → u < 256 → u * a + v < a * 256
digits_lt a u v l d = grind arith

pub mod-mul : (w a : ℕ) → 0 < a → w % (a * 256) ≡ w / a % 256 * a + w % a
mod-mul w a h =
    let u = w / a % 256 in
    let v = w % a in
    let k = w / a / 256 in
    let e1 : a * (w / a) + v ≡ w = div-add-mod w a in
    let e2 : 256 * k + u ≡ w / a = div-add-mod (w / a) 256 in
    let quotient : a * (w / a) ≡ a * (256 * k + u) = ap (◌*◌ a) (sym e2) in
    let whole : w ≡ a * 256 * k + (u * a + v) = omega (arith, e1, quotient, expand a k u) in
    let low : v < a = mod-lt w h in
    let digit : u < 256 = omega arith in
    let small : u * a + v < a * 256 = digits_lt a u v low digit in
    ap (λ n. n % (a * 256)) whole
    ∙ mul-add-mod_self_left (a * 256) k (u * a + v)
    ∙ mod-eq_of_lt small
