-- ===== src/Brute/Tests.antt =====
-- Runs of the two programs for key search in C, and their theorems at concrete data.
use popura.Base.{
  ℕ, suc, ◌+◌, ◌*◌, ◌/◌, ◌-◌, ◌%◌, ◌^◌, ◌<◌, ◌≤◌, ◌≡◌, refl, true, List, [], ◌∷◌, ◌++◌, map, Option,
  none, some, Perm, arith, length, replicate, length-replicate, All, All-replicate,
}
use popura.Base.Panic.{Exec, value, panic, index_out_of_range, ◌>>=◌}
use popura.Base.Ranked.{IsBelow, IsAscending}
use popura.Base.Text.{Bytes, bytes}
use popura.Genkeys.Order.{IsBytes, to_number}
use popura.Brute.{
  find_where, pos, Sodium, numkeys, at_least_zero, insert, increment, make_addr, leading_ones,
}
use popura.Brute.Best.{IsHash, rank}
use popura.Brute.Loop.{batch}
use popura.Brute.Seeds.{little_endian, increment-next}
use popura.Brute.Ed25519 as Ed
use popura.Brute.Ed25519.Best as EdBest
use popura.Brute.Ed25519.Best.{main-best_seeds}
use popura.Brute.Curve25519 as Curve
use popura.Brute.Curve25519.Kept as CurveKept
use popura.Brute.Curve25519.Best as CurveBest
use popura.Brute.Curve25519.Ones.{make_addr_lem}
use popura.Brute.Curve25519.Best.{main-best_secrets, searched-All}

abbrev early_readings : List ℕ
early_readings = 102 ∷ []

abbrev sum : Bytes → ℕ
sum [] = 0
sum (b ∷ bs) = b + sum bs

-- A hash that shows the sum of its text, and multiples that show the sum of their factor.
abbrev toy : Sodium
toy = record {
  sha512 = λ m. 5 ∷ (sum m % 256) ∷ replicate 62 0;
  scalarmult_base = λ n. some (replicate 32 (sum n % 256));
  random = λ i. replicate 32 (i % 256);
  atoi = λ s. pos 3;
}

toy-IsHash : (m : Bytes) → IsHash (toy.sha512 m)
toy-IsHash m = (
  omega (arith, length-replicate {A = ℕ} 62 0),
  (omega arith, (omega arith, All-replicate (λ b. b < 256) 62 0 (omega arith))),
)

toy-IsSodium : EdBest.IsSodium toy
toy-IsSodium = record {
  hash = toy-IsHash;
  multiple = λ n. (replicate 32 (sum n % 256), refl);
  length_random = λ i. length-replicate 32 (i % 256);
}

toy-IsSodium_curve : CurveKept.IsSodium toy
toy-IsSodium_curve = record {
  hash = toy-IsHash;
  multiple = λ n. (replicate 32 (sum n % 256), refl);
  random =
      λ i. (length-replicate 32 (i % 256), All-replicate (λ b. b < 256) 32 (i % 256) (omega arith));
}

insert_third : insert {A = ℕ} (1 ∷ 2 ∷ 3 ∷ 4 ∷ []) 9 2 ≡ value (2 ∷ 3 ∷ 9 ∷ 4 ∷ [])
unfolding insert
insert_third = refl

-- Two bytes carry.
carries : increment (7 ∷ 255 ∷ 255 ∷ 8 ∷ replicate 28 0) ≡ value (7 ∷ 0 ∷ 0 ∷ 9 ∷ replicate 28 0)
unfolding increment
carries = refl

-- Behind the ones of a hash and one zero stand the bytes of the address.
address_of_hash : make_addr (254 ∷ replicate 63 129) ≡ value (2 ∷ 7 ∷ replicate 14 129)
unfolding make_addr
address_of_hash = refl

-- The searches behind three rounds: the hashes of the list, the highest one last.
first_bytes : List Bytes → List ℕ
first_bytes [] = []
first_bytes ([] ∷ hs) = first_bytes hs
first_bytes ((b ∷ []) ∷ hs) = first_bytes hs
first_bytes ((b ∷ c ∷ h) ∷ hs) = c ∷ first_bytes hs

three_rounds : Exec (Option (List ℕ × Bytes))
unfolding batch Ed.round Ed.start_search first_bytes
three_rounds = do
  o ← batch (Ed.round toy) 3 (Ed.start_search toy)
  value (elim o [ none ↦ none | some s ↦ some (first_bytes s.besthashlist, s.seed) ])

three_rounds_lem :
    three_rounds ≡ value (some (replicate 7 0 ++ (160 ∷ 192 ∷ 192 ∷ []), 3 ∷ 4 ∷ replicate 30 3))
unfolding three_rounds find_where insert increment
three_rounds_lem = refl

increment-next_example :
    (middle' : Bytes) × (increment (1 ∷ (replicate 30 255 ++ (2 ∷ [])))
      ≡ value (1 ∷ (middle' ++ (2 ∷ []))))
    × (little_endian middle' ≡ (little_endian (replicate 30 255) + 1) % 256 ^ 30)
    × (length middle' ≡ 30)
    × IsBytes middle'
increment-next_example =
    increment-next 1 2 (replicate 30 255) (length-replicate {A = ℕ} 30 255)
      (All-replicate (λ b. b < 256) 30 255 (omega arith))

main-best_seeds_example :
    (lost best : List EdBest.Key) × (Ed.main toy true
        (bytes "brute" ∷ bytes "3" ∷ [])
        100
        (early_readings ++ (104 ∷ []))
      ≡ value (
          some (record {
            code = 0;
            stdout = Ed.rows (map EdBest.Key.sk best) (map EdBest.Key.hash best);
          })))
    × (length best ≡ numkeys)
    × IsAscending (rank EdBest.Key.hash) best
    × Perm (lost ++ best) (
        replicate numkeys EdBest.blank
        ++ EdBest.searched toy (suc (length early_readings) * Ed.per_batch))
    × All (λ k. IsBelow (rank EdBest.Key.hash) k best) lost
    × All (EdBest.IsMade toy) (EdBest.searched toy (suc (length early_readings) * Ed.per_batch))
unfolding at_least_zero
main-best_seeds_example =
    main-best_seeds toy (bytes "brute") (bytes "3") 100 104 early_readings [] toy-IsSodium
      (omega arith, tt) (omega arith) (omega arith)

zero_leading_ones : (sk : Bytes) → CurveBest.HasAddress (CurveKept.key_of toy sk)
unfolding CurveKept.key_of leading_ones
zero_leading_ones sk = omega arith

main-best_secrets_example :
    (lost best : List CurveKept.Key) × (text : Bytes) × (Curve.main toy true
        (bytes "brute" ∷ bytes "3" ∷ [])
        100
        (early_readings ++ (104 ∷ []))
      ≡ value (some (record { code = 0; stdout = text })))
    × (Curve.rows
          (map CurveKept.Key.sk best)
          (map CurveKept.Key.pk best)
          (map CurveKept.Key.hash best)
        ≡ value text)
    × (length best ≡ numkeys)
    × IsAscending (rank CurveKept.Key.hash) best
    × Perm (lost ++ best) (
        replicate numkeys CurveKept.blank
        ++ CurveBest.searched toy (suc (length early_readings) * Curve.per_batch))
    × All (λ k. IsBelow (rank CurveKept.Key.hash) k best) lost
    × All
        (CurveBest.IsMade toy)
        (CurveBest.searched toy (suc (length early_readings) * Curve.per_batch))
unfolding at_least_zero
main-best_secrets_example =
    main-best_secrets toy (bytes "brute") (bytes "3") 100 104 early_readings [] toy-IsSodium_curve
      (omega arith, tt) (omega arith) (omega arith)
      (searched-All toy CurveBest.HasAddress (suc (length early_readings) * Curve.per_batch)
        zero_leading_ones)

-- A hash with one in front: the bits behind the zero are those of 2 / 3.
abbrev short_hash : Bytes
short_hash = replicate 64 170

make_addr_lem_example :
    (n : ℕ) × (addr : Bytes) × (make_addr short_hash ≡ value (2 ∷ n % 256 ∷ addr))
    × (length addr ≡ 14)
    × (2 ^ 512 ≤ to_number short_hash + 2 ^ (512 - n))
    × (to_number short_hash + 2 ^ (511 - n) < 2 ^ 512)
    × (to_number addr ≡ to_number short_hash / 2 ^ (399 - n) % 2 ^ 112)
unfolding leading_ones
make_addr_lem_example =
    make_addr_lem short_hash refl (All-replicate (λ b. b < 256) 64 170 (omega arith)) (omega arith)

-- With more ones in front the bytes behind the hash would be read.
reads_outside : make_addr (replicate 64 255) ≡ panic index_out_of_range
unfolding make_addr
reads_outside = refl
