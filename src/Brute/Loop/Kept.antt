-- ===== src/Brute/Loop/Kept.antt =====
-- contrib/yggdrasil-brute-simple: what the loops of main have kept when they end.
use popura.Base.{
  ℕ, zero, suc, ◌+◌, ◌*◌, ◌%◌, ◌^◌, ◌≤◌, ◌<◌, ◌≡◌, refl, ap, ◌∙◌, true, false, List, [], ◌∷◌, ◌++◌,
  map, Option, none, some, arith, ltb, length, All, lt→ltb, le→ltb_false,
}
use mathlib.Core.List.{map-append}
use native.Mathlib.Nat.{suc-mul, add_comm}
use popura.Base.Panic.{Exec, value, panic}
use popura.Base.Ranked.{keep, keep_all}
use popura.Brute.{numkeys}
use popura.Brute.Loop.{finished, batch, loop_if, search}

-- The states in which the next rounds begin.
unfoldable pub trace : {S : Type 0} → (S → Exec (Option S)) → ℕ → S → List S
trace round zero s = []
trace round (suc n) s = elim (round s) [
  | panic e ↦ s ∷ []
  | value r ↦ elim r [ none ↦ s ∷ [] | some s' ↦ s ∷ trace round n s' ]
]

-- The keys that the next rounds try.
abbrev pub tried : {S A : Type 0} → (S → Exec (Option S)) → (S → A) → ℕ → S → List A
tried round key n s = map key (trace round n s)

module _ {S A : Type 0} (round : S → Exec (Option S)) (runs : S → ℕ) (rank : A → ℕ) (key : S → A)
    (IsKept : S → List A → Type 0)
    (step : (s : S) (ps : List A)
      → IsKept s ps
      → (s' : S) × (round s ≡ value (some s'))
        × IsKept s' (keep rank (key s) ps)
        × (runs s' ≡ (runs s + 1) % 2 ^ 32)) where
  batch-keep_all :
      (n : ℕ) (s : S) (ps : List A)
      → IsKept s ps
      → runs s + n < 2 ^ 32
      → (s' : S) × (batch round n s ≡ value (some s'))
        × IsKept s' (keep_all rank ps (tried round key n s))
        × (runs s' ≡ runs s + n)
        × ((m : ℕ) → trace round (n + m) s ≡ trace round n s ++ trace round m s')
  unfolding batch trace keep_all
  batch-keep_all zero s ps i h =
      (s, refl, i, omega arith, λ m. ap (λ n. trace round n s) (omega arith))
  batch-keep_all (suc n) s ps i h =
      let (t, e, j, r) = step s ps i in
      let (s', f, k, q, o) = batch-keep_all n t (keep rank (key s) ps) j (omega (arith, r)) in
      (
        s',
        rw (e, batch) f,
        rw (e, trace) k,
        omega (arith, q, r),
        λ m.
            let one_more : suc n + m ≡ suc (n + m) = omega arith in
            ap (λ l. trace round l s) one_more ∙ rw (e, trace) (ap (◌∷◌ s) (o m)),
      )

  -- Every key that is tried belongs to a state that the steps reach.
  pub tried-All :
      (P : A → Type 0)
      → ((s : S) (ps : List A) → IsKept s ps → P (key s))
      → (n : ℕ) (s : S) (ps : List A) → IsKept s ps
      → All P (tried round key n s)
  unfolding trace
  tried-All P f zero s ps i = tt
  tried-All P f (suc n) s ps i =
      let (t, e, j, r) = step s ps i in
      rw (e, trace) (f s ps i, tried-All P f n t (keep rank (key s) ps) j)

  keep_all-append :
      (ps xs ys : List A) → keep_all rank ps (xs ++ ys) ≡ keep_all rank (keep_all rank ps xs) ys
  unfolding keep_all
  keep_all-append ps [] ys = refl
  keep_all-append ps (x ∷ xs) ys = keep_all-append (keep rank x ps) xs ys

  search-ends :
      (size start requested time : ℕ) (times : List ℕ) (s s' : S)
      → batch round size s ≡ value (some s')
      → ltb time (start + requested) ≡ false
      → ltb (runs s') numkeys ≡ false
      → search round runs size start requested (time ∷ times) s ≡ value (finished s')
  unfolding search loop_if
  search-ends size start requested time times s s' e late enough =
      rw (e, late, enough, loop_if) refl

  search-goes_on :
      (size start requested time : ℕ) (times : List ℕ) (s s' : S)
      → batch round size s ≡ value (some s')
      → ltb time (start + requested) ≡ true
      → search round runs size start requested (time ∷ times) s
        ≡ search round runs size start requested times s'
  unfolding search loop_if
  search-goes_on size start requested time times s s' e early = rw (e, early, loop_if) refl

  -- The search ends at the first reading of the clock that is late enough.
  pub search-keep_all :
      (size start requested late : ℕ) (early times : List ℕ) (s : S) (ps : List A)
      → IsKept s ps
      → All (λ t. t < start + requested) early
      → start + requested ≤ late
      → numkeys ≤ size
      → runs s + suc (length early) * size < 2 ^ 32
      → (s' : S) × (search round runs size start requested (early ++ (late ∷ times)) s
          ≡ value (finished s'))
        × IsKept s' (keep_all rank ps (tried round key (suc (length early) * size) s))
  search-keep_all size start requested late [] times s ps i a l z h =
      let (s', e, k, q, o) = batch-keep_all size s ps i (omega arith) in
      let one : 1 * size ≡ size = omega arith in
      (
        s',
        search-ends size start requested late times s s' e (le→ltb_false _ _ l)
            (le→ltb_false _ _ (omega arith)),
        rw one k,
      )
  search-keep_all size start requested late (t ∷ early) times s ps i a l z h =
      let n = suc (length early) * size in
      let whole : suc (suc (length early)) * size ≡ size + n =
        suc-mul (suc (length early)) size ∙ add_comm n size in
      let (s', e, k, q, o) = batch-keep_all size s ps i (omega (arith, whole)) in
      let (s'', f, g) =
        search-keep_all size start requested late early times s' _ k a.1 l z
          (omega (arith, whole, q)) in
      (
        s'',
        search-goes_on size start requested t (early ++ (late ∷ times)) s s' e (lt→ltb _ _ a.0) ∙ f,
        rw
            (
              whole,
              o n,
              map-append key (trace round size s) (trace round n s'),
              keep_all-append ps _ _,
            )
            g,
      )
