-- ===== src/Brute/Curve25519/Address.antt =====
-- contrib/yggdrasil-brute-simple/util.c: `make_addr` takes the bits of the hash behind the first zero.
use Prim.Native.Nat.{bit_or}
use native.Mathlib.Nat.{
  div-div-eq-div-mul, mul-add-div_right, div-eq_of_lt, mod-one, pow-suc, one-le-pow,
}
use popura.Base.{
  ℕ, zero, suc, ◌+◌, ◌*◌, ◌/◌, ◌%◌, ◌^◌, ◌-◌, ◌≤◌, ◌<◌, ◌≡◌, refl, sym, ap, ◌∙◌, [], ◌∷◌, arith,
  length,
}
use popura.Base.Panic.{value}
use popura.Base.Text.{Bytes}
use popura.Genkeys.Order.{IsBytes, to_number, to_number-lt}
use popura.Brute.{load, addr_from, leading_ones, make_addr}
use popura.Brute.Curve25519.Bits.{two_bytes_lem, mod-mul}

-- Two bytes next to each other, and the number that the array makes up to them.
record Pair (hash : Bytes) (i m : ℕ) : Type 0 where
  high : ℕ
  low : ℕ
  front : ℕ
  load_high : load hash i ≡ value high
  load_low : load hash (i + 1) ≡ value low
  high_lt : high < 256
  low_lt : low < 256
  back : ℕ
  back_lt : back < 256 ^ m
  number : to_number hash ≡ (front * 65536 + (high * 256 + low)) * 256 ^ m + back

power_split : (i m : ℕ) → 256 ^ (i + 2 + m) ≡ 256 ^ i * 65536 * 256 ^ m
power_split zero m =
    let two_more : 0 + 2 + m ≡ suc (suc m) = omega arith in
    let one_more = pow-suc 256 m in
    ap (λ n. 256 ^ n) two_more ∙ pow-suc 256 (suc m) ∙ omega (arith, one_more)
power_split (suc i) m =
    let one_more : suc i + 2 + m ≡ suc (i + 2 + m) = omega arith in
    let ih = power_split i m in
    let above = pow-suc 256 i in
    ap (λ n. 256 ^ n) one_more
    ∙ pow-suc 256 (i + 2 + m)
    ∙ (rw (ih, above) (swap_lem (256 ^ i) (256 ^ m)))
  where
    swap_lem : (a b : ℕ) → a * 65536 * b * 256 ≡ a * 256 * 65536 * b
    swap_lem a b = grind arith

two_digits : (h l a r : ℕ) → h * (a * 256) + (l * a + r) ≡ (0 * 65536 + (h * 256 + l)) * a + r
two_digits h l a r = grind arith

one_digit :
    (h a b f x r : ℕ)
    → h * (a * 65536 * b) + ((f * 65536 + x) * b + r) ≡ ((h * a + f) * 65536 + x) * b + r
one_digit h a b f x r = grind arith

load-Pair : (hash : Bytes) (i m : ℕ) → IsBytes hash → length hash ≡ i + 2 + m → Pair hash i m
unfolding load to_number
load-Pair [] i m b e = absurd (omega arith)
load-Pair (h ∷ []) i m b e = absurd (omega arith)
load-Pair (h ∷ l ∷ rest) zero m b e =
    let m_lem : length rest ≡ m = omega arith in
    record {
      high = h;
      low = l;
      front = 0;
      load_high = refl;
      load_low = refl;
      high_lt = b.0;
      low_lt = b.1.0;
      back = to_number rest;
      back_lt = rw m_lem at (to_number-lt rest b.1.1);
      number = rw (m_lem, pow-suc 256 m) (two_digits h l (256 ^ m) (to_number rest));
    }
load-Pair (h ∷ bs) (suc i) m b e =
    let size : length bs ≡ i + 2 + m = omega arith in
    let p = load-Pair bs i m b.1 size in
    let next_index : suc i + 1 ≡ suc (i + 1) = omega arith in
    let power = ap (λ n. 256 ^ n) size ∙ power_split i m in
    record {
      high = p.high;
      low = p.low;
      front = h * 256 ^ i + p.front;
      load_high = p.load_high;
      load_low = ap (load (h ∷ bs)) next_index ∙ p.load_low;
      high_lt = p.high_lt;
      low_lt = p.low_lt;
      back = p.back;
      back_lt = p.back_lt;
      number =
          ap (λ n. h * 256 ^ length bs + n) p.number
          ∙ ap (λ q. h * q + ((p.front * 65536 + (p.high * 256 + p.low)) * 256 ^ m + p.back)) power
          ∙ one_digit h (256 ^ i) (256 ^ m) p.front (p.high * 256 + p.low) p.back;
    }

-- The number of all the bytes up to the end of the pair.
to_number-Pair :
    (hash : Bytes) (i m : ℕ) (p : Pair hash i m)
    → to_number hash / 256 ^ m ≡ p.front * 65536 + (p.high * 256 + p.low)
to_number-Pair hash i m p =
    let x = p.front * 65536 + (p.high * 256 + p.low) in
    let positive : 0 < 256 ^ m = omega (arith, p.back_lt) in
    ap (λ n. n / 256 ^ m) p.number
    ∙ mul-add-div_right positive x p.back
    ∙ ap (◌+◌ x) (div-eq_of_lt p.back_lt)
    ∙ omega arith

-- What `make_addr` writes of a number: m bytes and s bits behind are cut off.
abbrev cut : Bytes → ℕ → ℕ → ℕ
cut hash m s = to_number hash / 256 ^ m / 2 ^ s

power_add : (n m : ℕ) → 256 ^ (n + m) ≡ 256 ^ n * 256 ^ m
power_add zero m = let same : 0 + m ≡ m = omega arith in ap (λ k. 256 ^ k) same ∙ omega arith
power_add (suc n) m =
    let one_more : suc n + m ≡ suc (n + m) = omega arith in
    ap (λ k. 256 ^ k) one_more
    ∙ pow-suc 256 (n + m)
    ∙ rw (power_add n m, pow-suc 256 n) (turn (256 ^ n) (256 ^ m))
  where
    turn : (a b : ℕ) → a * b * 256 ≡ a * 256 * b
    turn a b = grind arith

cut-more : (hash : Bytes) (n m s : ℕ) → cut hash (n + m) s ≡ cut hash m s / 256 ^ n
cut-more hash n m s =
    let v = to_number hash in
    div-div-eq-div-mul v (256 ^ (n + m)) (2 ^ s)
    ∙ ap (◌/◌ v) (ap (λ q. q * 2 ^ s) (power_add n m) ∙ turn (256 ^ n) (256 ^ m) (2 ^ s))
    ∙ sym (div-div-eq-div-mul v (256 ^ m * 2 ^ s) (256 ^ n))
    ∙ ap (λ q. q / 256 ^ n) (sym (div-div-eq-div-mul v (256 ^ m) (2 ^ s)))
  where
    turn : (a b c : ℕ) → a * b * c ≡ b * c * a
    turn a b c = grind arith

addr_from_lem :
    (n offset m : ℕ) (hash : Bytes)
    → IsBytes hash
    → length hash ≡ offset / 8 + n + 1 + m
    → (addr : Bytes) × (addr_from n offset hash ≡ value addr)
      × (length addr ≡ n)
      × (to_number addr ≡ cut hash m (8 - offset % 8) % 256 ^ n)
unfolding addr_from to_number
addr_from_lem zero offset m hash b e = ([], refl, refl, sym (mod-one _))
addr_from_lem (suc n) offset m hash b e =
    let p = load-Pair hash (offset / 8) (n + m) b (omega arith) in
    let (rest, f, l, number) = addr_from_lem n (offset + 8) m hash b (omega arith) in
    let r = offset % 8 in
    let whole = cut hash m (8 - r) in
    let same_place : (offset + 8) % 8 ≡ r = omega arith in
    let positive : 0 < 256 ^ n = omega (arith, one-le-pow n 256 (omega arith)) in
    let byte = bit_or (p.high * 2 ^ (offset % 8) % 256) (p.low / 2 ^ (8 - offset % 8)) in
    let digit : byte ≡ whole / 256 ^ n % 256 =
      two_bytes_lem r p.front p.high p.low (omega arith) p.high_lt p.low_lt
      ∙ ap (λ q. q / 2 ^ (8 - r) % 256) (sym (to_number-Pair hash (offset / 8) (n + m) p))
      ∙ ap (λ q. q % 256) (cut-more hash n m (8 - r)) in
    let others : to_number rest ≡ whole % 256 ^ n = rw same_place at number in
    (
      byte ∷ rest,
      rw (p.load_high, p.load_low, f) refl,
      ap suc l,
      rw (l, digit, others)
          (sym (mod-mul whole (256 ^ n) positive) ∙ ap (λ q. whole % q) (sym (pow-suc 256 n))),
    )

power_byte : (k : ℕ) → 2 ^ (8 + k) ≡ 2 ^ k * 256
power_byte k =
    let four : (k : ℕ) → 2 ^ (4 + k) ≡ 2 ^ k * 16 = λ k.
      ap (λ n. 2 ^ n) (four_lem k)
      ∙ omega (
        arith,
        pow-suc 2 k,
        pow-suc 2 (suc k),
        pow-suc 2 (suc (suc k)),
        pow-suc 2 (suc (suc (suc k))),
      ) in
    let twice : 8 + k ≡ 4 + (4 + k) = omega arith in
    ap (λ n. 2 ^ n) twice ∙ omega (arith, four (4 + k), four k)
  where
    four_lem : (k : ℕ) → 4 + k ≡ suc (suc (suc (suc k)))
    four_lem k = omega arith

-- Bytes and bits behind as bits.
pub power_bits : (m s : ℕ) → 256 ^ m * 2 ^ s ≡ 2 ^ (8 * m + s)
power_bits zero s =
    let same : 8 * 0 + s ≡ s = omega arith in omega arith ∙ ap (λ k. 2 ^ k) (sym same)
power_bits (suc m) s =
    let ih = power_bits m s in
    let byte_more : 8 * suc m + s ≡ 8 + (8 * m + s) = omega arith in
    ap (λ p. p * 2 ^ s) (pow-suc 256 m)
    ∙ turn (256 ^ m) (2 ^ s)
    ∙ ap (λ p. p * 256) ih
    ∙ sym (ap (λ k. 2 ^ k) byte_more ∙ power_byte (8 * m + s))
  where
    turn : (a b : ℕ) → a * 256 * b ≡ a * b * 256
    turn a b = grind arith

cut_bits : (hash : Bytes) (m s : ℕ) → cut hash m s ≡ to_number hash / 2 ^ (8 * m + s)
cut_bits hash m s =
    div-div-eq-div-mul (to_number hash) (256 ^ m) (2 ^ s)
    ∙ ap (◌/◌ (to_number hash)) (power_bits m s)

-- Where the loop has counted n ones, at most 398, the last 14 bytes hold the 112 bits from the bit n + 1 on.
pub make_addr-bits :
    (hash : Bytes)
    → length hash ≡ 64
    → IsBytes hash
    → leading_ones hash ≤ 398
    → (addr : Bytes) × (make_addr hash ≡ value (2 ∷ leading_ones hash % 256 ∷ addr))
      × (length addr ≡ 14)
      × (to_number addr ≡ to_number hash / 2 ^ (399 - leading_ones hash) % 2 ^ 112)
unfolding make_addr
make_addr-bits hash l b h =
    let k = leading_ones hash + 1 in
    let m = 49 - k / 8 in
    let (addr, e, size, number) = addr_from_lem 14 k m hash b (omega arith) in
    let place : 8 * m + (8 - k % 8) ≡ 399 - leading_ones hash = omega arith in
    (
      addr,
      rw e refl,
      size,
      number
          ∙ ap (λ q. q % 2 ^ 112)
              (cut_bits hash m (8 - k % 8) ∙ ap (λ d. to_number hash / 2 ^ d) place),
    )
