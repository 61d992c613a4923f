-- ===== src/Autopeering/Pick.antt =====
-- `RandomPick` permutes the first n peers of its list, and never picks another.
use mathlib.Core.List.Perm
use native.Mathlib.Bridge.{le_prop}
use popura.Base.{
  ℕ, zero, suc, ◌≤◌, ◌<◌, ◌≡◌, refl, sym, ap, ◌∙◌, inl, inr, some, List, [], ◌∷◌, ◌++◌, Perm, arith,
  length, take, take_of_le, get_elem?, All, leb, Bool-cases,
}
use mathlib.Core.List.{append-nil, append_assoc}
use popura.Base.Panic.{value}
use popura.Base.Perms.{lookups, lookups-perm, lookups-range, range_from, All-perm, All-range}
use popura.Autopeering.{Url, pick_all, random_pick}

-- What package math/rand documents of `Perm`: it gives a permutation of the numbers below n.
pub record IsRandPerm (perm : ℕ → List ℕ) : Type 0 where
  pub permutes : (n : ℕ) → Perm (perm n) (range_from 0 n)

get_elem?_of_lt : (us : List Url) (i : ℕ) → i < length us → (u : Url) × (get_elem? us i ≡ some u)
get_elem?_of_lt [] i h = absurd (omega arith)
get_elem?_of_lt (u ∷ us) zero h = (u, refl)
get_elem?_of_lt (u ∷ us) (suc i) h = get_elem?_of_lt us i (omega arith)

pick_all_lem :
    (us : List Url) (is : List ℕ) (res : List Url)
    → All (λ i. i < length us) is
    → pick_all us is res ≡ value (res ++ lookups us is)
unfolding pick_all
pick_all_lem us [] res h = ap value (sym (append-nil res))
pick_all_lem us (i ∷ is) res (lt, h) =
    let (u, e) = get_elem?_of_lt us i lt in
    rw (e, pick_all)
      (pick_all_lem us is (res ++ (u ∷ [])) h
        ∙ ap value (append_assoc res (u ∷ []) (lookups us is)))

-- `RandomPick` never indexes out of range, and returns the first n peers of the list in some
-- order, or the whole list if it is shorter. So a peer behind the first n is never picked, although
-- the comment of the function promises n random peers of the list.
pub random_pick-perm_take :
    (perm : ℕ → List ℕ)
    → IsRandPerm perm
    → (peer_list : List Url) (n : ℕ)
    → (picked : List Url) × (random_pick perm peer_list n ≡ value picked)
      × Perm picked (take n peer_list)
unfolding random_pick
random_pick-perm_take perm law peer_list n = elim (Bool-cases (leb (length peer_list) n)) [
  | inl short ↦
      let all : take n peer_list ≡ peer_list = take_of_le n peer_list (ground arith) in
      (peer_list, rw short, rw all (Perm.refl _))
  | inr long ↦
      let le : n ≤ length peer_list = ground arith in
      let bounded =
        All-perm (λ i. i < length peer_list) (λ i. le_prop) (Perm.symm (law.permutes n))
          (All-range 0 n (length peer_list) (omega arith)) in
      (
        lookups peer_list (perm n),
        rw long (pick_all_lem peer_list (perm n) [] bounded),
        rw (← lookups-range peer_list n le) (lookups-perm peer_list (law.permutes n)),
      )
]
