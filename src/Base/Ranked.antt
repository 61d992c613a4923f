-- ===== src/Base/Ranked.antt =====
-- The highest of many elements, kept in a list of a fixed length with the lowest first.
use mathlib.Core.List.Perm
use mathlib.Core.List.{perm_middle, append-nil}
use Prim.Native.Nat.{ℕ, zero, suc, ◌≤◌}
use mathlib.Core.Path.{◌≡◌, refl, ap, ◌∙◌}
use mathlib.Core.Logic.{inl, inr}
use mathlib.Core.List.{List, [], ◌∷◌, ◌++◌, Perm}
use native.Mathlib.Omega.{arith}
use popura.Base.Tests.{ltb, if◌then◌else◌, Bool-cases, tests}
use popura.Base.Lists.{length, All, replicate, All-replicate}

module _ {A : Type 0} (rank : A → ℕ) where
  -- No element of the list ranks below d.
  abbrev pub IsBelow : A → List A → Type 0
  IsBelow d = All (λ x. rank d ≤ rank x)

  abbrev pub IsAscending : List A → Type 0
  IsAscending [] = Unit {0}
  IsAscending (x ∷ xs) = IsBelow x xs × IsAscending xs

  -- Behind the elements in front that rank below x.
  unfoldable pub insert_ranked : A → List A → List A
  insert_ranked x [] = x ∷ []
  insert_ranked x (y ∷ ys) =
      let rest = insert_ranked x ys in if ltb (rank y) (rank x) then y ∷ rest else x ∷ y ∷ ys

  -- The list with x in place of its first element, if that ranks below x.
  unfoldable pub keep : A → List A → List A
  keep x [] = []
  keep x (w ∷ ks) = if ltb (rank w) (rank x) then insert_ranked x ks else w ∷ ks

  -- What `keep` leaves out.
  unfoldable pub dropped : A → List A → A
  dropped x [] = x
  dropped x (w ∷ ks) = if ltb (rank w) (rank x) then w else x

  unfoldable pub keep_all : List A → List A → List A
  keep_all ks [] = ks
  keep_all ks (x ∷ xs) = keep_all (keep x ks) xs

  unfoldable pub drop_all : List A → List A → List A
  drop_all ks [] = []
  drop_all ks (x ∷ xs) = dropped x ks ∷ drop_all (keep x ks) xs

  insert_ranked-perm : (x : A) (ys : List A) → Perm (insert_ranked x ys) (x ∷ ys)
  unfolding insert_ranked
  insert_ranked-perm x [] = Perm.refl _
  insert_ranked-perm x (y ∷ ys) = elim (Bool-cases (ltb (rank y) (rank x))) [
    | inl low ↦
        rw (low, insert_ranked)
          (Perm.trans (Perm.cons y (insert_ranked-perm x ys)) (Perm.swap x y ys))
    | inr high ↦ rw (high, insert_ranked) (Perm.refl _)
  ]

  insert_ranked-IsBelow :
      (d x : A) (ys : List A) → rank d ≤ rank x → IsBelow d ys → IsBelow d (insert_ranked x ys)
  unfolding insert_ranked
  insert_ranked-IsBelow d x [] h a = (h, tt)
  insert_ranked-IsBelow d x (y ∷ ys) h a = elim (Bool-cases (ltb (rank y) (rank x))) [
    | inl low ↦ rw (low, insert_ranked) (a.0, insert_ranked-IsBelow d x ys h a.1)
    | inr high ↦ rw (high, insert_ranked) (h, a)
  ]

  IsBelow-mono : (d x : A) (ys : List A) → rank d ≤ rank x → IsBelow x ys → IsBelow d ys
  IsBelow-mono d x [] h a = tt
  IsBelow-mono d x (y ∷ ys) h a = (omega (arith, a.0), IsBelow-mono d x ys h a.1)

  insert_ranked-IsAscending :
      (x : A) (ys : List A) → IsAscending ys → IsAscending (insert_ranked x ys)
  unfolding insert_ranked
  insert_ranked-IsAscending x [] a = (tt, tt)
  insert_ranked-IsAscending x (y ∷ ys) a = elim (Bool-cases (ltb (rank y) (rank x))) [
    | inl low ↦
        rw (low, insert_ranked)
          (insert_ranked-IsBelow y x ys (omega tests) a.0, insert_ranked-IsAscending x ys a.1)
    | inr high ↦
        let over : rank x ≤ rank y = omega tests in
        rw (high, insert_ranked) ((over, IsBelow-mono x y ys over a.0), a)
  ]

  length-insert_ranked : (x : A) (ys : List A) → length (insert_ranked x ys) ≡ suc (length ys)
  unfolding insert_ranked
  length-insert_ranked x [] = refl
  length-insert_ranked x (y ∷ ys) = elim (Bool-cases (ltb (rank y) (rank x))) [
    | inl low ↦ rw (low, insert_ranked) (ap suc (length-insert_ranked x ys))
    | inr high ↦ rw (high, insert_ranked) refl
  ]

  keep-perm : (x : A) (ks : List A) → Perm (dropped x ks ∷ keep x ks) (x ∷ ks)
  unfolding keep dropped
  keep-perm x [] = Perm.refl _
  keep-perm x (w ∷ ks) = elim (Bool-cases (ltb (rank w) (rank x))) [
    | inl low ↦
        rw (low, keep, dropped)
          (Perm.trans (Perm.cons w (insert_ranked-perm x ks)) (Perm.swap x w ks))
    | inr high ↦ rw (high, keep, dropped) (Perm.refl _)
  ]

  keep-IsAscending : (x : A) (ks : List A) → IsAscending ks → IsAscending (keep x ks)
  unfolding keep
  keep-IsAscending x [] a = tt
  keep-IsAscending x (w ∷ ks) a = elim (Bool-cases (ltb (rank w) (rank x))) [
    | inl low ↦ rw (low, keep) (insert_ranked-IsAscending x ks a.1)
    | inr high ↦ rw (high, keep) a
  ]

  pub IsAscending-replicate : (n : ℕ) (x : A) → IsAscending (replicate n x)
  IsAscending-replicate zero x = tt
  IsAscending-replicate (suc n) x =
      (All-replicate (λ y. rank x ≤ rank y) n x (omega arith), IsAscending-replicate n x)

  insert_ranked-All :
      (P : A → Type 0) (x : A) (ys : List A) → P x → All P ys → All P (insert_ranked x ys)
  unfolding insert_ranked
  insert_ranked-All P x [] p a = (p, tt)
  insert_ranked-All P x (y ∷ ys) p a = elim (Bool-cases (ltb (rank y) (rank x))) [
    | inl low ↦ rw (low, insert_ranked) (a.0, insert_ranked-All P x ys p a.1)
    | inr high ↦ rw (high, insert_ranked) (p, a)
  ]

  pub keep-All : (P : A → Type 0) (x : A) (ks : List A) → P x → All P ks → All P (keep x ks)
  unfolding keep
  keep-All P x [] p a = tt
  keep-All P x (w ∷ ks) p a = elim (Bool-cases (ltb (rank w) (rank x))) [
    | inl low ↦ rw (low, keep) (insert_ranked-All P x ks p a.1)
    | inr high ↦ rw (high, keep) a
  ]

  pub keep_all-All :
      (P : A → Type 0) (ks xs : List A) → All P ks → All P xs → All P (keep_all ks xs)
  unfolding keep_all
  keep_all-All P ks [] a b = a
  keep_all-All P ks (x ∷ xs) a b = keep_all-All P (keep x ks) xs (keep-All P x ks b.0 a) b.1

  length-keep : (x : A) (ks : List A) → length (keep x ks) ≡ length ks
  unfolding keep
  length-keep x [] = refl
  length-keep x (w ∷ ks) = elim (Bool-cases (ltb (rank w) (rank x))) [
    | inl low ↦ rw (low, keep) (length-insert_ranked x ks)
    | inr high ↦ rw (high, keep) refl
  ]

  -- What is below the list stays below it, and what is left out is below it.
  keep-IsBelow : (d x : A) (ks : List A) → IsBelow d ks → IsBelow d (keep x ks)
  unfolding keep
  keep-IsBelow d x [] a = tt
  keep-IsBelow d x (w ∷ ks) a = elim (Bool-cases (ltb (rank w) (rank x))) [
    | inl low ↦ rw (low, keep) (insert_ranked-IsBelow d x ks (omega (tests, a.0)) a.1)
    | inr high ↦ rw (high, keep) a
  ]

  dropped-IsBelow : (x : A) (ks : List A) → IsAscending ks → IsBelow (dropped x ks) (keep x ks)
  unfolding keep dropped
  dropped-IsBelow x [] a = tt
  dropped-IsBelow x (w ∷ ks) a = elim (Bool-cases (ltb (rank w) (rank x))) [
    | inl low ↦ rw (low, keep, dropped) (insert_ranked-IsBelow w x ks (omega tests) a.0)
    | inr high ↦
        let over : rank x ≤ rank w = omega tests in
        rw (high, keep, dropped) (over, IsBelow-mono x w ks over a.0)
  ]

  keep_all-IsBelow : (d : A) (ks xs : List A) → IsBelow d ks → IsBelow d (keep_all ks xs)
  unfolding keep_all
  keep_all-IsBelow d ks [] a = a
  keep_all-IsBelow d ks (x ∷ xs) a = keep_all-IsBelow d (keep x ks) xs (keep-IsBelow d x ks a)

  pub keep_all-IsAscending : (ks xs : List A) → IsAscending ks → IsAscending (keep_all ks xs)
  unfolding keep_all
  keep_all-IsAscending ks [] a = a
  keep_all-IsAscending ks (x ∷ xs) a = keep_all-IsAscending (keep x ks) xs (keep-IsAscending x ks a)

  pub length-keep_all : (ks xs : List A) → length (keep_all ks xs) ≡ length ks
  unfolding keep_all
  length-keep_all ks [] = refl
  length-keep_all ks (x ∷ xs) = length-keep_all (keep x ks) xs ∙ length-keep x ks

  -- The kept and the dropped elements are all that there were, and no kept one ranks below a
  -- dropped one.
  pub keep_all-perm : (ks xs : List A) → Perm (drop_all ks xs ++ keep_all ks xs) (ks ++ xs)
  unfolding keep_all drop_all
  keep_all-perm ks [] = rw append-nil (Perm.refl _)
  keep_all-perm ks (x ∷ xs) =
      Perm.trans (Perm.cons (dropped x ks) (keep_all-perm (keep x ks) xs))
        (Perm.trans (Perm.append_right xs (keep-perm x ks)) (Perm.symm (perm_middle ks xs)))

  pub drop_all-IsBelow :
      (ks xs : List A) → IsAscending ks → All (λ d. IsBelow d (keep_all ks xs)) (drop_all ks xs)
  unfolding keep_all drop_all
  drop_all-IsBelow ks [] a = tt
  drop_all-IsBelow ks (x ∷ xs) a = (
    keep_all-IsBelow (dropped x ks) (keep x ks) xs (dropped-IsBelow x ks a),
    drop_all-IsBelow (keep x ks) xs (keep-IsAscending x ks a),
  )
