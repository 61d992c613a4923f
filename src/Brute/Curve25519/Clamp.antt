-- ===== src/Brute/Curve25519/Clamp.antt =====
-- contrib/yggdrasil-brute-simple/yggdrasil-brute-multi-curve25519.c: the bits of a secret key that are fixed.
use Prim.Native.Nat.{bit_and, bit_or}
use popura.Base.{
  ℕ, zero, suc, ◌<◌, ◌≡◌, refl, sym, ap, ◌∙◌, Bool, true, ◌&&◌, inl, inr, [], ◌∷◌, ◌++◌, arith,
  ◌==◌, length, length-append, take, drop, take-append-drop, length-take, length-drop,
  take-length_append, drop-length_append, Bool-cases, All-drop,
}
use popura.Base.Panic.{value, ◌>>=◌}
use popura.Base.Text.{Bytes}
use popura.Genkeys.Order.{IsBytes}
use popura.Brute.{update}
use popura.Brute.Arrays.{update_lem}
use popura.Brute.Seeds.{next, next_seed, length-next}
use popura.Brute.Curve25519.{seed}

-- A secret key of the curve: 32 bytes, of the first of which the low three bits are clear, and of the
-- last of which the highest bit is clear and the next one is set.
pub record IsClamped (sk : Bytes) : Type 0 where
  pub first : ℕ
  pub middle : Bytes
  pub last : ℕ
  pub parts : sk ≡ first ∷ (middle ++ (last ∷ []))
  pub length_middle : length middle ≡ 30
  pub low_bits : bit_and first 7 ≡ 0
  pub high_bits : bit_and last 192 ≡ 64

unfoldable pub all_below : (ℕ → Bool) → ℕ → Bool
all_below p zero = true
all_below p (suc n) = p n && all_below p n

pub all_below_lem : (p : ℕ → Bool) (n i : ℕ) → all_below p n ≡ true → i < n → p i ≡ true
unfolding all_below
all_below_lem p zero i h l = absurd (omega arith)
all_below_lem p (suc n) i h l = elim (Bool-cases (i == n)) [
  | inl e ↦ let same : i ≡ n = ground arith in rw same (ground arith)
  | inr e ↦ all_below_lem p n i (ground arith) (ground arith)
]

low_bits_lem : (b : ℕ) → b < 256 → bit_and (bit_and b 248) 7 ≡ 0
unfolding all_below
low_bits_lem b h =
    let one = all_below_lem (λ i. bit_and (bit_and i 248) 7 == 0) 256 b refl h in ground arith

high_bits_lem : (b : ℕ) → b < 256 → bit_and (bit_or (bit_and b 127) 64) 192 ≡ 64
unfolding all_below
high_bits_lem b h =
    let one = all_below_lem (λ i. bit_and (bit_or (bit_and i 127) 64) 192 == 64) 256 b refl h in
    ground arith

-- 32 bytes are a first one, 30 in the middle and a last one.
record Parts (xs : Bytes) : Type 0 where
  first : ℕ
  middle : Bytes
  last : ℕ
  parts : xs ≡ first ∷ (middle ++ (last ∷ []))
  length_middle : length middle ≡ 30
  first_lt : first < 256
  last_lt : last < 256

one_byte : (xs : Bytes) → length xs ≡ 1 → IsBytes xs → (b : ℕ) × (xs ≡ b ∷ []) × (b < 256)
one_byte [] h a = absurd (omega arith)
one_byte (b ∷ []) h a = (b, refl, a.0)
one_byte (b ∷ c ∷ xs) h a = absurd (omega arith)

split : (xs : Bytes) → length xs ≡ 32 → IsBytes xs → Parts xs
split [] h a = absurd (omega arith)
split (b ∷ bs) h a =
    let (last, e, l) =
      one_byte (drop 30 bs) (omega (arith, length-drop 30 bs))
        (All-drop (λ b. b < 256) 30 bs a.1) in
    record {
      first = b;
      middle = take 30 bs;
      last = last;
      parts = ap (◌∷◌ b) (sym (take-append-drop 30 bs) ∙ ap (λ l. take 30 bs ++ l) e);
      length_middle = omega (arith, length-take 30 bs);
      first_lt = a.0;
      last_lt = l;
    }

seed_parts :
    (first last : ℕ) (middle : Bytes)
    → length middle ≡ 30
    → seed (first ∷ (middle ++ (last ∷ [])))
      ≡ value (bit_and first 248 ∷ (middle ++ (bit_or (bit_and last 127) 64 ∷ [])))
unfolding seed
seed_parts first last middle h =
    let front = bit_and first 248 ∷ middle in
    let length_front : suc (length middle) ≡ 31 = omega (arith, h) in
    let clear : ℕ → ℕ = λ b. bit_and b 127 in
    let set_bit : ℕ → ℕ = λ b. bit_or b 64 in
    ap (λ m. m >>= update clear 31 >>= update set_bit 31)
      (update_lem (λ b. bit_and b 248) [] (middle ++ (last ∷ [])) first 0 refl)
    ∙ ap (λ m. m >>= update set_bit 31) (update_lem clear front [] last 31 length_front)
    ∙ update_lem set_bit front [] (clear last) 31 length_front

-- `seed` clears and sets the bits.
pub seed-IsClamped :
    (sk : Bytes)
    → length sk ≡ 32
    → IsBytes sk
    → (sk' : Bytes) × (seed sk ≡ value sk') × IsClamped sk'
unfolding seed
seed-IsClamped sk h a =
    let p = split sk h a in
    (
      bit_and p.first 248 ∷ (p.middle ++ (bit_or (bit_and p.last 127) 64 ∷ [])),
      ap seed p.parts ∙ seed_parts p.first p.last p.middle p.length_middle,
      record {
        first = bit_and p.first 248;
        middle = p.middle;
        last = bit_or (bit_and p.last 127) 64;
        parts = refl;
        length_middle = p.length_middle;
        low_bits = low_bits_lem p.first p.first_lt;
        high_bits = high_bits_lem p.last p.last_lt;
      },
    )

pub length-IsClamped : (sk : Bytes) → IsClamped sk → length sk ≡ 32
length-IsClamped sk c =
    ap length c.parts ∙ omega (arith, c.length_middle, length-append c.middle (c.last ∷ []))

-- The next key has the same first byte and the same last one.
pub next_seed-IsClamped : (sk : Bytes) → IsClamped sk → IsClamped (next_seed sk)
unfolding next_seed
next_seed-IsClamped sk c =
    let bs = c.middle ++ (c.last ∷ []) in
    let front : take 30 bs ≡ c.middle =
      rw c.length_middle at (take-length_append c.middle (c.last ∷ [])) in
    let back : drop 30 bs ≡ c.last ∷ [] =
      rw c.length_middle at (drop-length_append c.middle (c.last ∷ [])) in
    record {
      first = c.first;
      middle = next c.middle;
      last = c.last;
      parts = ap next_seed c.parts ∙ rw (front, back) refl;
      length_middle = length-next c.middle ∙ c.length_middle;
      low_bits = c.low_bits;
      high_bits = c.high_bits;
    }
