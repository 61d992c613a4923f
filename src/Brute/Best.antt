-- ===== src/Brute/Best.antt =====
-- contrib/yggdrasil-brute-simple/util.c: the lists of the best keys as one list of keys.
use popura.Base.{
  ℕ, suc, ◌+◌, ◌≤◌, ◌≡◌, ◌⊎◌, refl, ap, ◌∙◌, inl, inr, List, [], ◌∷◌, ◌++◌, map, arith, ltb,
  if◌then◌else◌, length, length-map, take, drop, All, Bool-cases,
}
use popura.Base.Panic.{value}
use popura.Base.Ranked.{insert_ranked, keep}
use popura.Base.Text.{Bytes}
use popura.Genkeys.Order.{IsBytes, to_number}
use popura.Brute.{find_from, find_where, insert}
use popura.Brute.Arrays.{memcmp_greater_lem, insert_lem}

-- A hash that `crypto_hash_sha512` writes.
abbrev pub IsHash : Bytes → Type 0
IsHash h = (length h ≡ 64) × IsBytes h

module _ {A : Type 0} (hash : A → Bytes) where
  -- The keys are ranked by their hashes as big-endian numbers.
  abbrev pub rank : A → ℕ
  rank a = to_number (hash a)

  abbrev pub IsHashed : A → Type 0
  IsHashed a = IsHash (hash a)

  -- How many keys in front rank below x.
  abbrev below : A → List A → ℕ
  below x [] = 0
  below x (y ∷ ys) = let rest = below x ys in if ltb (rank y) (rank x) then suc rest else 0

  below-le : (x : A) (ys : List A) → below x ys ≤ length ys
  below-le x [] = omega arith
  below-le x (y ∷ ys) = ground (arith, below-le x ys)

  find_from-below :
      (x : A) (ys : List A) (n : ℕ)
      → IsHashed x
      → All IsHashed ys
      → find_from (hash x) (map hash ys) n ≡ n + below x ys
  unfolding find_from
  find_from-below x [] n hx h = omega arith
  find_from-below x (y ∷ ys) n hx h =
      let greater = memcmp_greater_lem (hash x) (hash y) (omega (arith, hx.0, h.0.0)) hx.1 h.0.1 in
      let ih = find_from-below x ys (suc n) hx h.1 in
      elim (Bool-cases (ltb (rank y) (rank x))) [
        | inl low ↦ rw (greater, low, find_from) (omega (arith, ih))
        | inr high ↦ rw (greater, high, find_from) (omega arith)
      ]

  map-insert_ranked :
      (f : A → Bytes) (x : A) (ys : List A)
      → take (below x ys) (map f ys) ++ (f x ∷ drop (below x ys) (map f ys))
        ≡ map f (insert_ranked rank x ys)
  unfolding insert_ranked
  map-insert_ranked f x [] = refl
  map-insert_ranked f x (y ∷ ys) = elim (Bool-cases (ltb (rank y) (rank x))) [
    | inl low ↦ rw (low, insert_ranked) (ap (◌∷◌ (f y)) (map-insert_ranked f x ys))
    | inr high ↦ rw (high, insert_ranked) refl
  ]

  -- The place that find_where gives is that at which `keep` inserts. The loop of an insertion
  -- into any of the lists, of the hashes or of a part of the keys, does what `keep` does.
  pub find_where-cases :
      (x : A) (ws : List A)
      → IsHashed x
      → All IsHashed ws
      → ((find_where (hash x) (map hash ws) ≡ 0) × (keep rank x ws ≡ ws))
        ⊎ ((c : ℕ) × (find_where (hash x) (map hash ws) ≡ suc c)
            × ((f : A → Bytes) → insert (map f ws) (f x) c ≡ value (map f (keep rank x ws))))
  unfolding find_where keep
  find_where-cases x [] hx h = inl (find_from-below x [] 0 hx h, refl)
  find_where-cases x (w ∷ ks) hx h =
      let place = find_from-below x (w ∷ ks) 0 hx h in
      let c = below x ks in
      let room = below-le x ks in
      let inserted : (f : A → Bytes)
          → insert (map f (w ∷ ks)) (f x) c ≡ value (map f (insert_ranked rank x ks)) =
        λ f.
          insert_lem c (map f ks) (f w) (f x) (omega (arith, room, length-map ks f))
          ∙ ap value (map-insert_ranked f x ks) in
      elim (Bool-cases (ltb (rank w) (rank x))) [
        | inl low ↦
            inr (below x ks, (rw low at place) ∙ omega arith, λ f. rw (low, keep) (inserted f))
        | inr high ↦ inl (rw high at place, rw (high, keep) refl)
      ]
