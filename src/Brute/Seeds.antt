-- ===== src/Brute/Seeds.antt =====
-- contrib/yggdrasil-brute-simple: the loop that increments a seed, in both programs.
use popura.Base.{
  ℕ, suc, ◌+◌, ◌*◌, ◌%◌, ◌^◌, ◌<◌, ◌≡◌, ◌⊎◌, refl, sym, ap, ◌∙◌, inl, inr, [], ◌∷◌, ◌++◌, arith,
  ◌==◌, length, length-append, take, drop, take-append-drop, length-take, length-drop, Bool-cases,
  if◌then◌else◌,
}
use mathlib.Core.List.{append_assoc}
use native.Mathlib.Nat.{pow-succ', mod-eq_of_lt, mod_self}
use popura.Base.Panic.{value}
use popura.Base.Text.{Bytes}
use popura.Genkeys.Order.{IsBytes}
use popura.Brute.{increment_from, increment}
use popura.Brute.Arrays.{load-at, store-append}

-- The number that bytes make, the lowest one first.
unfoldable pub little_endian : Bytes → ℕ
little_endian [] = 0
little_endian (b ∷ bs) = b + 256 * little_endian bs

-- The bytes of the next number.
unfoldable pub next : Bytes → Bytes
next [] = []
next (b ∷ bs) = let rest = next bs in if (b + 1) % 256 == 0 then 0 ∷ rest else ((b + 1) % 256) ∷ bs

pub length-next : (bs : Bytes) → length (next bs) ≡ length bs
unfolding next
length-next [] = refl
length-next (b ∷ bs) = elim (Bool-cases ((b + 1) % 256 == 0)) [
  | inl h ↦ rw (h, next) (ap suc (length-next bs))
  | inr h ↦ rw (h, next) refl
]

next-IsBytes : (bs : Bytes) → IsBytes bs → IsBytes (next bs)
unfolding next
next-IsBytes [] h = tt
next-IsBytes (b ∷ bs) h = elim (Bool-cases ((b + 1) % 256 == 0)) [
  | inl e ↦ rw (e, next) (omega arith, next-IsBytes bs h.1)
  | inr e ↦ rw (e, next) (omega arith, h.1)
]

increment_from-next :
    (ds ms es : Bytes)
    → increment_from (length ms) (length ds) (ds ++ (ms ++ es)) ≡ value (ds ++ (next ms ++ es))
unfolding increment_from next
increment_from-next ds [] es = refl
increment_from-next ds (b ∷ ms) es =
    let loaded = load-at ds (ms ++ es) b in
    let stored = store-append ds (ms ++ es) b ((b + 1) % 256) in
    elim (Bool-cases ((b + 1) % 256 == 0)) [
      | inl h ↦
          let zero_byte : (b + 1) % 256 ≡ 0 = ground arith in
          let further : length (ds ++ (0 ∷ [])) ≡ suc (length ds) =
            omega (arith, length-append ds (0 ∷ [])) in
          let ih = increment_from-next (ds ++ (0 ∷ [])) ms es in
          rw (loaded, stored, h, zero_byte, next)
            (rw (further, append_assoc ds (0 ∷ []) (ms ++ es), append_assoc ds (0 ∷ []) _) at ih)
      | inr h ↦ rw (loaded, stored, h, next) refl
    ]

little_endian-lt : (bs : Bytes) → IsBytes bs → little_endian bs < 256 ^ length bs
unfolding little_endian
little_endian-lt [] h = omega arith
little_endian-lt (b ∷ bs) h =
    let power : 256 ^ suc (length bs) ≡ 256 * 256 ^ length bs = pow-succ' 256 (length bs) in
    omega (arith, little_endian-lt bs h.1, h.0)

-- The number goes up by one, or back to zero behind the last one.
little_endian-cases :
    (bs : Bytes)
    → IsBytes bs
    → ((little_endian (next bs) ≡ little_endian bs + 1) × (little_endian bs + 1 < 256 ^ length bs))
      ⊎ ((little_endian (next bs) ≡ 0) × (little_endian bs + 1 ≡ 256 ^ length bs))
unfolding next little_endian
little_endian-cases [] h = inr (refl, refl)
little_endian-cases (b ∷ bs) h =
    let power : 256 ^ suc (length bs) ≡ 256 * 256 ^ length bs = pow-succ' 256 (length bs) in
    elim (Bool-cases ((b + 1) % 256 == 0)) [
      | inl e ↦
          let zero_byte : (b + 1) % 256 ≡ 0 = ground arith in
          let carried : b ≡ 255 = omega (arith, h.0) in
          elim (little_endian-cases bs h.1) [
            | inl (f, l) ↦ inl (rw (e, next, f) (omega arith), omega arith)
            | inr (f, l) ↦ inr (rw (e, next, f) (omega arith), omega arith)
          ]
      | inr e ↦
          let nonzero : 0 < (b + 1) % 256 = ground arith in
          let kept : (b + 1) % 256 ≡ b + 1 = omega (arith, h.0) in
          let bound = little_endian-lt bs h.1 in
          inl (rw (e, next, kept) (omega arith), omega (arith, h.0))
    ]

-- The loop of main takes the bytes 1 to 30 of a seed, as a number with the lowest byte first, to the
-- next number modulo 256 ^ 30, and leaves the first byte and the last one alone.
pub increment-next :
    (first last : ℕ) (middle : Bytes)
    → length middle ≡ 30
    → IsBytes middle
    → (middle' : Bytes) × (increment (first ∷ (middle ++ (last ∷ [])))
        ≡ value (first ∷ (middle' ++ (last ∷ []))))
      × (little_endian middle' ≡ (little_endian middle + 1) % 256 ^ 30)
      × (length middle' ≡ 30)
      × IsBytes middle'
unfolding increment
increment-next first last middle h b =
    let e = increment_from-next (first ∷ []) middle (last ∷ []) in
    (
      next middle,
      rw h at e,
      elim (little_endian-cases middle b) [
        | inl (f, l) ↦ f ∙ sym (mod-eq_of_lt (rw h at l))
        | inr (f, l) ↦ f ∙ sym (ap (λ n. n % 256 ^ 30) (rw h at l) ∙ mod_self (256 ^ 30))
      ],
      length-next middle ∙ h,
      next-IsBytes middle b,
    )

-- The bytes behind the first one, and where the loop leaves them.
unfoldable pub next_seed : Bytes → Bytes
next_seed [] = []
next_seed (b ∷ bs) = b ∷ (next (take 30 bs) ++ drop 30 bs)

pub increment-next_seed :
    (seed : Bytes) → length seed ≡ 32 → increment seed ≡ value (next_seed seed)
unfolding increment next_seed
increment-next_seed [] h = absurd (omega arith)
increment-next_seed (b ∷ bs) h =
    let e = increment_from-next (b ∷ []) (take 30 bs) (drop 30 bs) in
    let thirty : length (take 30 bs) ≡ 30 = omega (arith, length-take 30 bs) in
    rw (thirty, take-append-drop 30 bs) at e

pub length-next_seed : (seed : Bytes) → length seed ≡ 32 → length (next_seed seed) ≡ 32
unfolding next_seed
length-next_seed [] h = h
length-next_seed (b ∷ bs) h = omega (
  arith,
  length-append (next (take 30 bs)) (drop 30 bs),
  length-next (take 30 bs),
  length-take 30 bs,
  length-drop 30 bs,
)
