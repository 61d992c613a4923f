-- ===== src/Base/Perms.antt =====
-- Rearrangements of lists, for results whose order the source leaves open.
use mathlib.Core.List.Perm
use Prim.Native.Nat.{ℕ, zero, suc, ◌+◌, ◌≤◌, ◌<◌}
use mathlib.Core.Path.{◌≡◌, refl, ap, subst, subst₂, ◌∙◌}
use mathlib.Core.Bool.{Bool, true, false}
use mathlib.Core.Logic.{inl, inr, ∥∥₁_elim}
use mathlib.Core.List.{List, [], ◌∷◌, Perm, Permᴰ, Perm-prop}
use mathlib.Core.Option.{Option, none, some}
use mathlib.Core.HLevel.{×_prop}
use native.Mathlib.Omega.{arith}
use native.Mathlib.Nat.{ℕ_set}
use popura.Base.Tests.{if◌then◌else◌, Bool-cases}
use popura.Base.Lists.{length, select, select_yes, select_no, All, get_elem?, take}

module _ {ℓ} {A : Type ℓ} where
  -- The element at an index, and the list without it.
  abbrev pub extract : List A → ℕ → Option (A × List A)
  extract [] i = none
  extract (x ∷ xs) zero = some (x, xs)
  extract (x ∷ xs) (suc i) = elim (extract xs i) [ none ↦ none | some (y, ys) ↦ some (y, x ∷ ys) ]

  abbrev pub cons? : Option A → List A → List A
  cons? none xs = xs
  cons? (some x) xs = x ∷ xs

  -- The elements at the indices that are in range.
  abbrev pub lookups : List A → List ℕ → List A
  lookups xs [] = []
  lookups xs (i ∷ is) = cons? (get_elem? xs i) (lookups xs is)

-- The n numbers from s on.
abbrev pub range_from : ℕ → ℕ → List ℕ
range_from s zero = []
range_from s (suc n) = s ∷ range_from (suc s) n

module _ {ℓ} {A : Type ℓ} where
  lengthᴰ : {xs ys : List A} → Permᴰ xs ys → length xs ≡ length ys
  lengthᴰ Permᴰ.nil = refl
  lengthᴰ (Permᴰ.cons e p) = ap suc (lengthᴰ p)
  lengthᴰ (Permᴰ.swap e f) = refl
  lengthᴰ (Permᴰ.trans p q) = lengthᴰ p ∙ lengthᴰ q

  pub length-eq_of_perm : {xs ys : List A} → Perm xs ys → length xs ≡ length ys
  length-eq_of_perm p = ∥∥₁_elim p (ℕ_set _ _) lengthᴰ

  nil_of_length : (xs : List A) → length xs ≡ 0 → xs ≡ []
  nil_of_length [] h = refl
  nil_of_length (x ∷ xs) h = absurd (omega arith)

  singletonᴰ : {xs ys : List A} → Permᴰ xs ys → (a : A) → ys ≡ a ∷ [] → xs ≡ a ∷ []
  singletonᴰ Permᴰ.nil a e = e
  singletonᴰ (Permᴰ.cons {a = b} {l₁ = l} f p) a e =
      let empty = nil_of_length l (omega (arith, lengthᴰ p, ap length e)) in cc
  singletonᴰ (Permᴰ.swap f g) a e = absurd (omega (arith, ap length e))
  singletonᴰ (Permᴰ.trans p q) a e = singletonᴰ p a (singletonᴰ q a e)

  -- A list of one element has no other rearrangement.
  pub singleton_of_perm : IsSet (List A) → (a : A) {xs : List A} → Perm xs (a ∷ []) → xs ≡ a ∷ []
  singleton_of_perm h a p = ∥∥₁_elim p (h _ _) (λ d. singletonᴰ d a refl)

  if_swap :
      (p q : Bool) (a b : A) (l : List A)
      → Perm
          (if p then a ∷ (if q then b ∷ l else l) else (if q then b ∷ l else l))
          (if q then b ∷ (if p then a ∷ l else l) else (if p then a ∷ l else l))
  if_swap true true a b l = Perm.swap b a l
  if_swap true false a b l = Perm.refl _
  if_swap false true a b l = Perm.refl _
  if_swap false false a b l = Perm.refl _

  cons?-swap : (p q : Option A) (l : List A) → Perm (cons? p (cons? q l)) (cons? q (cons? p l))
  cons?-swap none q l = Perm.refl _
  cons?-swap (some a) none l = Perm.refl _
  cons?-swap (some a) (some b) l = Perm.swap b a l

  cons?-perm : (p : Option A) {l m : List A} → Perm l m → Perm (cons? p l) (cons? p m)
  cons?-perm none h = h
  cons?-perm (some a) h = Perm.cons a h

  lookupsᴰ : (xs : List A) {is js : List ℕ} → Permᴰ is js → Perm (lookups xs is) (lookups xs js)
  lookupsᴰ xs Permᴰ.nil = Perm.nil
  lookupsᴰ xs (Permᴰ.cons {a = i} {l₁ = is} {l₂ = js} e p) =
      subst (λ c. Perm (lookups xs (i ∷ is)) (lookups xs (c ∷ js))) e
        (cons?-perm (get_elem? xs i) (lookupsᴰ xs p))
  lookupsᴰ xs (Permᴰ.swap {a = i} {b = j} {l = l} e f) =
      subst₂ (λ c d. Perm (lookups xs (i ∷ j ∷ l)) (lookups xs (c ∷ d ∷ l))) f e
        (cons?-swap (get_elem? xs i) (get_elem? xs j) (lookups xs l))
  lookupsᴰ xs (Permᴰ.trans p q) = Perm.trans (lookupsᴰ xs p) (lookupsᴰ xs q)

  -- The order of the indices is the order of the elements.
  pub lookups-perm :
      (xs : List A) {is js : List ℕ} → Perm is js → Perm (lookups xs is) (lookups xs js)
  lookups-perm xs p = ∥∥₁_elim p Perm-prop (lookupsᴰ xs)

  lookups-suc :
      (x : A) (xs : List A) (s n : ℕ)
      → lookups (x ∷ xs) (range_from (suc s) n) ≡ lookups xs (range_from s n)
  lookups-suc x xs s zero = refl
  lookups-suc x xs s (suc n) = ap (cons? (get_elem? xs s)) (lookups-suc x xs (suc s) n)

  -- The first n indices give the first n elements.
  pub lookups-range :
      (xs : List A) (n : ℕ) → n ≤ length xs → lookups xs (range_from 0 n) ≡ take n xs
  lookups-range xs zero h = refl
  lookups-range [] (suc n) h = absurd (omega arith)
  lookups-range (x ∷ xs) (suc n) h =
      ap (◌∷◌ x) (lookups-suc x xs 0 n ∙ lookups-range xs n (omega arith))

  selectᴰ : (t : A → Bool) {xs ys : List A} → Permᴰ xs ys → Perm (select t xs) (select t ys)
  selectᴰ t Permᴰ.nil = Perm.nil
  selectᴰ t (Permᴰ.cons {a = a} {b = b} {l₁ = xs} {l₂ = ys} e p) =
      subst (λ c. Perm (select t (a ∷ xs)) (select t (c ∷ ys))) e
        (elim (Bool-cases (t a)) [
          | inl h ↦ rw (select_yes t a xs h) (rw (select_yes t a ys h) (Perm.cons a (selectᴰ t p)))
          | inr h ↦ rw (select_no t a xs h) (rw (select_no t a ys h) (selectᴰ t p))
        ])
  selectᴰ t (Permᴰ.swap {a = a} {b = b} {l = l} e f) =
      subst₂ (λ c d. Perm (select t (a ∷ b ∷ l)) (select t (c ∷ d ∷ l))) f e
        (if_swap (t a) (t b) a b (select t l))
  selectᴰ t (Permᴰ.trans p q) = Perm.trans (selectᴰ t p) (selectᴰ t q)

  pub select-perm : (t : A → Bool) {xs ys : List A} → Perm xs ys → Perm (select t xs) (select t ys)
  select-perm t p = ∥∥₁_elim p Perm-prop (selectᴰ t)

module _ {ℓ} {A : Type ℓ} (P : A → Type 0) where
  Allᴰ : {xs ys : List A} → Permᴰ xs ys → All P xs → All P ys
  Allᴰ Permᴰ.nil h = tt
  Allᴰ (Permᴰ.cons e p) h = (subst P e h.0, Allᴰ p h.1)
  Allᴰ (Permᴰ.swap e f) h = (subst P f h.1.0, (subst P e h.0, h.1.1))
  Allᴰ (Permᴰ.trans p q) h = Allᴰ q (Allᴰ p h)

  All-prop : ((x : A) → IsProp (P x)) → (xs : List A) → IsProp (All P xs)
  All-prop h [] = λ a b. refl
  All-prop h (x ∷ xs) = ×_prop (h x) (All-prop h xs)

  pub All-perm : ((x : A) → IsProp (P x)) → {xs ys : List A} → Perm xs ys → All P xs → All P ys
  All-perm h {ys = ys} p a = ∥∥₁_elim p (All-prop h ys) (λ d. Allᴰ d a)

pub All-range : (s n m : ℕ) → s + n ≤ m → All (λ i. i < m) (range_from s n)
All-range s zero m h = tt
All-range s (suc n) m h = (omega arith, All-range (suc s) n m (omega arith))
