-- ===== src/Brute/Curve25519/Ones.antt =====
-- contrib/yggdrasil-brute-simple/util.c: the ones in front of a hash.
use native.Mathlib.Nat.{pow-suc, mul-le-mul_left}
use popura.Base.{
  ℕ, suc, ◌+◌, ◌-◌, ◌*◌, ◌/◌, ◌%◌, ◌^◌, ◌≤◌, ◌<◌, ◌≡◌, ◌⊎◌, refl, ap, Bool, true, false, ◌&&◌, inl,
  inr, [], ◌∷◌, arith, ltb, leb, ◌==◌, if◌then◌else◌, length, Bool-cases,
}
use popura.Base.Panic.{value}
use popura.Base.Text.{Bytes}
use popura.Genkeys.Order.{IsBytes, to_number, to_number-lt}
use popura.Brute.{masks, ones_of, leading_ones, make_addr}
use popura.Brute.Curve25519.Address.{power_bits, make_addr-bits}
use popura.Brute.Curve25519.Clamp.{all_below, all_below_lem}

-- What the loop over the masks says of a byte.
abbrev is_counted : ℕ → Bool
is_counted c =
    let (n, br) = ones_of masks c in
    if br
    then ltb n 8 && (leb 256 (c + 2 ^ (8 - n)) && ltb (c + 2 ^ (7 - n)) 256)
    else n == 8 && c == 255

is_counted_lem : (c : ℕ) → c < 256 → is_counted c ≡ true
unfolding all_below ones_of
is_counted_lem c h = all_below_lem is_counted 256 c refl h

within :
    (n p q c : ℕ)
    → (ltb n 8 && (leb 256 (c + p) && ltb (c + q) 256)) ≡ true
    → (n < 8) × (256 ≤ c + p) × (c + q < 256)
within n p q c h = ground arith

full : (n c : ℕ) → (n == 8 && c == 255) ≡ true → (n ≡ 8) × (c ≡ 255)
full n c h = ground arith

-- The byte ends with a zero behind its ones, or has no zero.
ones_of-cases :
    (c : ℕ)
    → c < 256
    → (((ones_of masks c).1 ≡ true)
        × ((ones_of masks c).0 < 8)
        × (256 ≤ c + 2 ^ (8 - (ones_of masks c).0))
        × (c + 2 ^ (7 - (ones_of masks c).0) < 256))
      ⊎ (((ones_of masks c).1 ≡ false) × ((ones_of masks c).0 ≡ 8) × (c ≡ 255))
ones_of-cases c h =
    let counted = is_counted_lem c h in
    elim (Bool-cases (ones_of masks c).1) [
      | inl br ↦
          let n = (ones_of masks c).0 in
          let (few, up, down) = within n (2 ^ (8 - n)) (2 ^ (7 - n)) c (rw br at counted) in
          inl (br, few, up, down)
      | inr br ↦
          let (eight, all) = full (ones_of masks c).0 c (rw br at counted) in inr (br, eight, all)
    ]

spread : (a c p : ℕ) → a * (c + p) ≡ c * a + a * p
spread a c p = grind arith

spread_suc : (a c p : ℕ) → a * suc (c + p) ≡ c * a + a * p + a
spread_suc a c p = grind arith

scale : (a c p : ℕ) → 256 ≤ c + p → a * 256 ≤ c * a + a * p
scale a c p h = omega (arith, mul-le-mul_left a h, spread a c p)

scale_lt : (a c p v : ℕ) → c + p < 256 → v < a → c * a + v + a * p < a * 256
scale_lt a c p v h l = omega (arith, mul-le-mul_left a h, spread_suc a c p, l)

-- In front of the hash stand n ones and then a zero, with z bits behind it; or it has ones only.
leading_ones-cases :
    (hash : Bytes)
    → IsBytes hash
    → ((z : ℕ) × (leading_ones hash + suc z ≡ 8 * length hash)
        × (256 ^ length hash ≤ to_number hash + 2 ^ suc z)
        × (to_number hash + 2 ^ z < 256 ^ length hash))
      ⊎ ((leading_ones hash ≡ 8 * length hash) × (to_number hash + 1 ≡ 256 ^ length hash))
unfolding leading_ones to_number
leading_ones-cases [] b = inr (refl, refl)
leading_ones-cases (c ∷ hash) b =
    let n = (ones_of masks c).0 in
    let l = length hash in
    let power = pow-suc 256 l in
    elim (ones_of-cases c b.0) [
      | inl (br, few, up, down) ↦
          let z = 8 * l + (7 - n) in
          let bits : suc z ≡ 8 * l + (8 - n) = omega arith in
          let high = power_bits l (8 - n) in
          let low = power_bits l (7 - n) in
          let up' = scale (256 ^ l) c (2 ^ (8 - n)) up in
          let down' =
            scale_lt (256 ^ l) c (2 ^ (7 - n)) (to_number hash) down (to_number-lt hash b.1) in
          inl (
            z,
            rw (br, leading_ones) (omega arith),
            omega (arith, ap (λ k. 2 ^ k) bits, high, up', power),
            omega (arith, low, down', power),
          )
      | inr (br, eight, all) ↦
          let all' = ap (λ d. d * 256 ^ l) all in
          elim (leading_ones-cases hash b.1) [
            | inl (z, place, up, down) ↦ inl (
              z,
              rw (br, leading_ones) (omega arith),
              omega (arith, all', power),
              omega (arith, all', power),
            )
            | inr (ones, number) ↦
                inr (rw (br, leading_ones) (omega arith), omega (arith, all', power, number))
          ]
    ]

-- Of a hash of 64 bytes that starts with n ones and a zero, n at most 398, `make_addr` writes the byte 2,
-- the number n modulo 256, and 14 bytes that hold the 112 bits of the hash behind that zero.
pub make_addr_lem :
    (hash : Bytes)
    → length hash ≡ 64
    → IsBytes hash
    → leading_ones hash ≤ 398
    → (n : ℕ) × (addr : Bytes) × (make_addr hash ≡ value (2 ∷ n % 256 ∷ addr))
      × (length addr ≡ 14)
      × (2 ^ 512 ≤ to_number hash + 2 ^ (512 - n))
      × (to_number hash + 2 ^ (511 - n) < 2 ^ 512)
      × (to_number addr ≡ to_number hash / 2 ^ (399 - n) % 2 ^ 112)
make_addr_lem hash l b h =
    let (addr, e, size, number) = make_addr-bits hash l b h in
    let whole : 256 ^ length hash ≡ 2 ^ 512 = ap (λ k. 256 ^ k) l in
    let n = leading_ones hash in
    elim (leading_ones-cases hash b) [
      | inl (z, place, up, down) ↦
          let bits : z ≡ 511 - n = omega arith in
          let more : suc z ≡ 512 - n = omega arith in
          (
            n,
            addr,
            e,
            size,
            omega (arith, whole, ap (λ k. 2 ^ k) more, up),
            omega (arith, whole, ap (λ k. 2 ^ k) bits, down),
            number,
          )
      | inr (ones, all) ↦ absurd (omega arith)
    ]
