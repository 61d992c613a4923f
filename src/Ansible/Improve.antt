-- ===== src/Ansible/Improve.antt =====
-- The second loop of `main` keeps the best keys, once the array is sorted worst first.
use mathlib.Core.List.Perm
use mathlib.Core.List.{perm_middle}
use popura.Base.{
  ℕ, zero, suc, ◌-◌, ◌≤◌, ◌≡◌, refl, ap, ◌∙◌, inl, inr, some, List, [], ◌∷◌, ◌++◌, Perm, arith, ltb,
  if◌then◌else◌, length, take, drop, All, Bool-cases, tests, take_of_le, drop_of_le,
}
use mathlib.Core.List.{append-nil}
use popura.Base.Panic.{value}
use popura.Base.Text.{Bytes}
use popura.Ansible.{KeySet, Generator, new_key, replace_first, improve, bubble_up_to}
use popura.Genkeys.Least.{IsKey}
use popura.Ansible.Bubble.{
  IsKeySet, number, AllAtLeast, IsWorstFirst, insert_key, bubble_up_to_lem, insert_key-perm,
  length-insert_key, insert_key-All, insert_key-IsWorstFirst,
}

-- A generator that never fails, as `ed25519.GenerateKey(nil)` is used.
abbrev pub always : (ℕ → Bytes × Bytes) → Generator
always pairs i = some (pairs i)

abbrev pub made_key : (Bytes → Bytes) → (ℕ → Bytes × Bytes) → ℕ → KeySet
made_key ip_of pairs i = record {
  priv = (pairs i).1;
  pub_key = (pairs i).0;
  ip = ip_of (pairs i).0;
}

-- The keys of the calls with numbers i, i + 1, and so on.
abbrev pub made : (Bytes → Bytes) → (ℕ → Bytes × Bytes) → ℕ → ℕ → List KeySet
made ip_of pairs zero i = []
made ip_of pairs (suc n) i = made_key ip_of pairs i ∷ made ip_of pairs n (suc i)

-- The array after a new key replaced the first: the first key, and the others.
push : KeySet → List KeySet → KeySet × List KeySet
push x [] = (x, [])
push x (y ∷ ys) = if ltb (number x) (number y) then (y, insert_key x ys) else (x, y ∷ ys)

insert_key-push : (x : KeySet) (ks : List KeySet) → insert_key x ks ≡ (push x ks).0 ∷ (push x ks).1
unfolding insert_key push
insert_key-push x [] = refl
insert_key-push x (y ∷ ys) = ground arith

-- Whatever is at least as high as all the keys before stays so.
push-AllAtLeast :
    (d x : KeySet) (ks : List KeySet)
    → IsWorstFirst ks
    → AllAtLeast d ks
    → AllAtLeast d (push x ks).1
unfolding push
push-AllAtLeast d x [] s h = tt
push-AllAtLeast d x (y ∷ ys) s h = elim (Bool-cases (ltb (number x) (number y))) [
  | inl better ↦
      rw (better, push) (insert_key-All (λ j. number j ≤ number d) x ys (omega (tests, h.0)) h.1)
  | inr worse ↦ rw (worse, push) h
]

-- The array after the new keys, and the keys that were overwritten.
pub kept : KeySet → List KeySet → List KeySet → KeySet × List KeySet
kept w ks [] = (w, ks)
kept w ks (x ∷ xs) = kept (push x ks).0 (push x ks).1 xs

pub overwritten : KeySet → List KeySet → List KeySet → List KeySet
overwritten w ks [] = []
overwritten w ks (x ∷ xs) = w ∷ overwritten (push x ks).0 (push x ks).1 xs

push-IsWorstFirst :
    (x : KeySet) (ks : List KeySet) → IsWorstFirst ks → IsWorstFirst ((push x ks).0 ∷ (push x ks).1)
push-IsWorstFirst x ks s = rw insert_key-push at (insert_key-IsWorstFirst x ks s)

push-perm : (x : KeySet) (ks : List KeySet) → Perm ((push x ks).0 ∷ (push x ks).1) (x ∷ ks)
push-perm x ks = rw insert_key-push at (insert_key-perm x ks)

push-All :
    (P : KeySet → Type 0) (x : KeySet) (ks : List KeySet)
    → P x
    → All P ks
    → All P ((push x ks).0 ∷ (push x ks).1)
push-All P x ks p ps = rw insert_key-push at (insert_key-All P x ks p ps)

kept-AllAtLeast :
    (d w : KeySet) (ks xs : List KeySet)
    → IsWorstFirst (w ∷ ks)
    → AllAtLeast d ks
    → AllAtLeast d (kept w ks xs).1
unfolding kept
kept-AllAtLeast d w ks [] s h = h
kept-AllAtLeast d w ks (x ∷ xs) s h =
    kept-AllAtLeast d (push x ks).0 (push x ks).1 xs (push-IsWorstFirst x ks s.1)
      (push-AllAtLeast d x ks s.1 h)

overwritten-AllAtLeast :
    (w : KeySet) (ks xs : List KeySet)
    → IsWorstFirst (w ∷ ks)
    → All (λ d. AllAtLeast d (kept w ks xs).1) (overwritten w ks xs)
unfolding kept overwritten
overwritten-AllAtLeast w ks [] s = tt
overwritten-AllAtLeast w ks (x ∷ xs) s = (
  kept-AllAtLeast w (push x ks).0 (push x ks).1 xs (push-IsWorstFirst x ks s.1)
      (push-AllAtLeast w x ks s.1 s.0),
  overwritten-AllAtLeast (push x ks).0 (push x ks).1 xs (push-IsWorstFirst x ks s.1),
)

kept-IsWorstFirst :
    (w : KeySet) (ks xs : List KeySet)
    → IsWorstFirst (w ∷ ks)
    → IsWorstFirst ((kept w ks xs).0 ∷ (kept w ks xs).1)
unfolding kept
kept-IsWorstFirst w ks [] s = s
kept-IsWorstFirst w ks (x ∷ xs) s =
    kept-IsWorstFirst (push x ks).0 (push x ks).1 xs (push-IsWorstFirst x ks s.1)

pub kept-perm :
    (w : KeySet) (ks xs : List KeySet)
    → Perm (overwritten w ks xs ++ ((kept w ks xs).0 ∷ (kept w ks xs).1)) ((w ∷ ks) ++ xs)
unfolding kept overwritten
kept-perm w ks [] = rw append-nil (Perm.refl _)
kept-perm w ks (x ∷ xs) = Perm.cons w (
    Perm.trans (kept-perm (push x ks).0 (push x ks).1 xs)
      (Perm.trans (Perm.append_right xs (push-perm x ks)) (Perm.symm (perm_middle ks xs))))

push-length : (x : KeySet) (ks : List KeySet) → length (push x ks).1 ≡ length ks
push-length x ks = omega (arith, ap length (insert_key-push x ks), length-insert_key x ks)

pub kept-length : (w : KeySet) (ks xs : List KeySet) → length (kept w ks xs).1 ≡ length ks
unfolding kept
kept-length w ks [] = refl
kept-length w ks (x ∷ xs) = kept-length (push x ks).0 (push x ks).1 xs ∙ push-length x ks

bubble-All :
    (k : KeySet) (ks : List KeySet)
    → IsKeySet k
    → All IsKeySet ks
    → bubble_up_to (k ∷ ks) 0 ≡ value (insert_key k ks)
bubble-All k ks key keys =
    bubble_up_to_lem k ks 0 key keys ∙ ap value (whole (length ks - 0) (omega arith))
  where
    whole : (n : ℕ) → length ks ≤ n → insert_key k (take n ks) ++ drop n ks ≡ insert_key k ks
    whole n h = rw (take_of_le n ks h) (rw (drop_of_le n ks h) (append-nil (insert_key k ks)))

module _ (ip_of : Bytes → Bytes) (pairs : ℕ → Bytes × Bytes) where
  pub improve-eq_kept :
      (rounds i : ℕ) (w : KeySet) (ks : List KeySet)
      → ((j : ℕ) → IsKey (pairs j).0)
      → All IsKeySet ks
      → let r = kept w ks (made ip_of pairs rounds i) in
        improve ip_of (always pairs) rounds i (w ∷ ks) ≡ value (r.0 ∷ r.1)
  unfolding improve replace_first new_key kept
  improve-eq_kept zero i w ks h keys = refl
  improve-eq_kept (suc rounds) i w ks h keys =
      let x = made_key ip_of pairs i in
      rw (bubble-All x ks (h i) keys) (
        rw (insert_key-push x ks) (
          improve-eq_kept rounds (suc i) (push x ks).0 (push x ks).1 h
            (push-All IsKeySet x ks (h i) keys).1))

  -- If `ed25519.GenerateKey` never fails, all public keys are 32 bytes, and the array is sorted, worst
  -- first: the second loop of `main` does not panic, keeps the number of keys and leaves a sorted array. It and the overwritten keys are together the old and the new
  -- keys, and no key at 1 or above is worse than any overwritten key.
  pub improve_keeps_best :
      (rounds i : ℕ) (w : KeySet) (ks : List KeySet)
      → ((j : ℕ) → IsKey (pairs j).0)
      → All IsKeySet ks
      → IsWorstFirst (w ∷ ks)
      → (w' : KeySet) × (ks' : List KeySet) × (lost : List KeySet) × (improve ip_of
            (always pairs)
            rounds
            i
            (w ∷ ks)
          ≡ value (w' ∷ ks'))
        × (length ks' ≡ length ks)
        × IsWorstFirst (w' ∷ ks')
        × Perm (lost ++ (w' ∷ ks')) ((w ∷ ks) ++ made ip_of pairs rounds i)
        × All (λ d. AllAtLeast d ks') lost
  improve_keeps_best rounds i w ks h keys s =
      let xs = made ip_of pairs rounds i in
      (
        (kept w ks xs).0,
        (kept w ks xs).1,
        overwritten w ks xs,
        improve-eq_kept rounds i w ks h keys,
        kept-length w ks xs,
        kept-IsWorstFirst w ks xs s,
        kept-perm w ks xs,
        overwritten-AllAtLeast w ks xs s,
      )
