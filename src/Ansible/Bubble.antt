-- ===== src/Ansible/Bubble.antt =====
-- `bubbleUpTo` on keys that are sorted, worst first, from the second on.
use mathlib.Core.List.Perm
use mathlib.Core.List.{append_assoc}
use popura.Base.{
  ℕ, suc, ◌-◌, ◌≤◌, ◌≡◌, refl, ap, sym, ◌∙◌, inl, inr, List, [], ◌∷◌, ◌++◌, Perm, arith, ltb,
  if◌then◌else◌, length, take, drop, length-take, take-append-drop, All-take, set, All, All-mono,
  Bool-cases, tests,
}
use popura.Base.Panic.{value}
use popura.Genkeys.Order.{to_number, is_better_lem}
use popura.Genkeys.Least.{IsKey}
use popura.Ansible.{KeySet, is_better, index, bubble_from, bubble_up_to}
use popura.Ansible.Compare.{is_better-eq_genkeys}

abbrev pub IsKeySet : KeySet → Type 0
IsKeySet k = IsKey k.pub_key

abbrev pub number : KeySet → ℕ
number k = to_number k.pub_key

-- No key of the list is better than k: all are at least as high.
abbrev pub AllAtLeast : KeySet → List KeySet → Type 0
AllAtLeast k = All (λ j. number j ≤ number k)

-- Each key is at least as good as those before it.
abbrev pub IsWorstFirst : List KeySet → Type 0
IsWorstFirst [] = Unit {0}
IsWorstFirst (k ∷ ks) = AllAtLeast k ks × IsWorstFirst ks

compare_keys :
    (old new : KeySet)
    → IsKeySet old
    → IsKeySet new
    → is_better old.pub_key new.pub_key ≡ value (ltb (number new) (number old))
compare_keys old new h k =
    is_better-eq_genkeys old.pub_key new.pub_key
    ∙ is_better_lem old.pub_key new.pub_key (omega arith) h.0 k.0

-- What the loop does to the key in front: it moves behind every worse key that follows at once.
unfoldable pub insert_key : KeySet → List KeySet → List KeySet
insert_key k [] = k ∷ []
insert_key k (y ∷ ys) = if ltb (number k) (number y) then y ∷ insert_key k ys else k ∷ y ∷ ys

index_first : (ds ys : List KeySet) (k : KeySet) → index (ds ++ (k ∷ ys)) (length ds) ≡ value k
index_first [] ys k = refl
index_first (d ∷ ds) ys k = index_first ds ys k

index_second :
    (ds ys : List KeySet) (k y : KeySet) → index (ds ++ (k ∷ y ∷ ys)) (suc (length ds)) ≡ value y
index_second [] ys k y = refl
index_second (d ∷ ds) ys k y = index_second ds ys k y

swap_second :
    (ds ys : List KeySet) (k y : KeySet)
    → set (set (ds ++ (k ∷ y ∷ ys)) (length ds) y) (suc (length ds)) k
      ≡ (ds ++ (y ∷ [])) ++ (k ∷ ys)
swap_second [] ys k y = refl
swap_second (d ∷ ds) ys k y = ap (◌∷◌ d) (swap_second ds ys k y)

length-snoc : (ds : List KeySet) (y : KeySet) → length (ds ++ (y ∷ [])) ≡ suc (length ds)
length-snoc [] y = refl
length-snoc (d ∷ ds) y = ap suc (length-snoc ds y)

later :
    (ds ys zs : List KeySet) (k y : KeySet)
    → let rest = (ds ++ (y ∷ [])) ++ (k ∷ (ys ++ zs)) in
      bubble_from (length ys) (length (ds ++ (y ∷ []))) rest
        ≡ value ((ds ++ (y ∷ [])) ++ (insert_key k ys ++ zs))
      → bubble_from (length ys) (suc (length ds)) rest ≡ value (ds ++ (y ∷ (insert_key k ys ++ zs)))
later ds ys zs k y ih =
    ap (λ i. bubble_from (length ys) i ((ds ++ (y ∷ [])) ++ (k ∷ (ys ++ zs))))
      (sym (length-snoc ds y))
    ∙ ih
    ∙ ap value (append_assoc ds (y ∷ []) (insert_key k ys ++ zs))

-- The loop goes through `ys` and leaves what stands before and behind as it is.
bubble_from_lem :
    (ds ys zs : List KeySet) (k : KeySet)
    → IsKeySet k
    → All IsKeySet ys
    → bubble_from (length ys) (length ds) (ds ++ (k ∷ (ys ++ zs)))
      ≡ value (ds ++ (insert_key k ys ++ zs))
unfolding bubble_from insert_key
bubble_from_lem ds [] zs k key keys = refl
bubble_from_lem ds (y ∷ ys) zs k key keys = rw (index_second ds (ys ++ zs) k y) (
    rw (index_first ds (y ∷ (ys ++ zs)) k) (
      rw (compare_keys y k keys.0 key) (elim (Bool-cases (ltb (number k) (number y))) [
        | inl better ↦ rw better (
            rw swap_second
              (later ds ys zs k y (bubble_from_lem (ds ++ (y ∷ [])) ys zs k key keys.1)))
        | inr worse ↦ rw worse
      ])))

-- `bubbleUpTo` moves the first key behind the worse keys that follow at once, and looks at no key
-- among the last `num`.
pub bubble_up_to_lem :
    (k : KeySet) (ks : List KeySet) (num : ℕ)
    → IsKeySet k
    → All IsKeySet ks
    → let n = length ks - num in
      bubble_up_to (k ∷ ks) num ≡ value (insert_key k (take n ks) ++ drop n ks)
unfolding bubble_up_to
bubble_up_to_lem k ks num key keys =
    let n = length ks - num in
    let rounds : length (k ∷ ks) - num - 1 ≡ length (take n ks) = omega (arith, length-take n ks) in
    let parts : ks ≡ take n ks ++ drop n ks = sym (take-append-drop n ks) in
    rw rounds (
      ap (λ t. bubble_from (length (take n ks)) 0 (k ∷ t)) parts
      ∙ bubble_from_lem [] (take n ks) (drop n ks) k key (All-take _ n ks keys))

pub insert_key-perm : (k : KeySet) (ys : List KeySet) → Perm (insert_key k ys) (k ∷ ys)
unfolding insert_key
insert_key-perm k [] = Perm.refl _
insert_key-perm k (y ∷ ys) = elim (Bool-cases (ltb (number k) (number y))) [
  | inl better ↦
      rw (better, insert_key) (Perm.trans (Perm.cons y (insert_key-perm k ys)) (Perm.swap k y ys))
  | inr worse ↦ rw (worse, insert_key) (Perm.refl _)
]

pub insert_key-All :
    (P : KeySet → Type 0) (k : KeySet) (ys : List KeySet) → P k → All P ys → All P (insert_key k ys)
unfolding insert_key
insert_key-All P k [] p ps = (p, tt)
insert_key-All P k (y ∷ ys) p ps = ground (arith, insert_key-All P k ys p ps.1)

pub length-insert_key : (k : KeySet) (ys : List KeySet) → length (insert_key k ys) ≡ suc (length ys)
unfolding insert_key
length-insert_key k [] = refl
length-insert_key k (y ∷ ys) = ground (arith, length-insert_key k ys)

AllAtLeast-trans :
    (k y : KeySet) (ys : List KeySet) → number y ≤ number k → AllAtLeast y ys → AllAtLeast k ys
AllAtLeast-trans k y ys h =
    All-mono (λ j. number j ≤ number y) (λ j. number j ≤ number k) ys (λ j le. omega arith)

pub insert_key-IsWorstFirst :
    (k : KeySet) (ys : List KeySet) → IsWorstFirst ys → IsWorstFirst (insert_key k ys)
unfolding insert_key
insert_key-IsWorstFirst k [] h = (tt, tt)
insert_key-IsWorstFirst k (y ∷ ys) (low, rest) = elim (Bool-cases (ltb (number k) (number y))) [
  | inl better ↦
      rw (better, insert_key)
        (
          insert_key-All (λ j. number j ≤ number y) k ys (omega tests) low,
          insert_key-IsWorstFirst k ys rest,
        )
  | inr worse ↦
      let le : number y ≤ number k = omega tests in
      rw (worse, insert_key) ((le, AllAtLeast-trans k y ys le low), (low, rest))
]
