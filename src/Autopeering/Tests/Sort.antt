-- ===== src/Autopeering/Tests/Sort.antt =====
-- An insertion sort, which does what `sort.Slice` promises.
use mathlib.Core.List.Perm
use popura.Base.{
  ◌≡◌, inl, inr, Bool, false, List, [], ◌∷◌, Perm, All, All-mono, if◌then◌else◌, Bool-cases,
}
use popura.Autopeering.{Peer, SortSlice}
use popura.Autopeering.Closest.{IsStrictWeakOrder, IsSorted, IsSortSlice}

insert_peer : (Peer → Peer → Bool) → Peer → List Peer → List Peer
insert_peer less p [] = p ∷ []
insert_peer less p (q ∷ qs) =
    let rest = insert_peer less p qs in if less q p then q ∷ rest else p ∷ q ∷ qs

unfoldable pub sort_peers : SortSlice
unfolding insert_peer
sort_peers less [] = []
sort_peers less (p ∷ ps) = insert_peer less p (sort_peers less ps)

module _ (less : Peer → Peer → Bool) where
  insert_peer-perm : (p : Peer) (qs : List Peer) → Perm (insert_peer less p qs) (p ∷ qs)
  unfolding insert_peer
  insert_peer-perm p [] = Perm.refl _
  insert_peer-perm p (q ∷ qs) = elim (Bool-cases (less q p)) [
    | inl h ↦ rw h (Perm.trans (Perm.cons q (insert_peer-perm p qs)) (Perm.swap p q qs))
    | inr h ↦ rw h (Perm.refl _)
  ]

  insert_peer-All :
      (P : Peer → Type 0) (p : Peer) (qs : List Peer)
      → P p
      → All P qs
      → All P (insert_peer less p qs)
  unfolding insert_peer
  insert_peer-All P p [] h hs = (h, tt)
  insert_peer-All P p (q ∷ qs) h hs = elim (Bool-cases (less q p)) [
    | inl e ↦ rw e (hs.0, insert_peer-All P p qs h hs.1)
    | inr e ↦ rw e (h, hs)
  ]

  sort_peers-perm : (ps : List Peer) → Perm (sort_peers less ps) ps
  unfolding sort_peers
  sort_peers-perm [] = Perm.refl _
  sort_peers-perm (p ∷ ps) =
      Perm.trans (insert_peer-perm p (sort_peers less ps)) (Perm.cons p (sort_peers-perm ps))

  module _ (order : IsStrictWeakOrder less) where
    insert_peer-IsSorted :
        (p : Peer) (qs : List Peer) → IsSorted less qs → IsSorted less (insert_peer less p qs)
    unfolding insert_peer
    insert_peer-IsSorted p [] h = (tt, tt)
    insert_peer-IsSorted p (q ∷ qs) (low, h) = elim (Bool-cases (less q p)) [
      | inl e ↦ rw e (
        insert_peer-All (λ r. less r q ≡ false) p qs (order.asym q p e) low,
        insert_peer-IsSorted p qs h,
      )
      | inr e ↦ rw e (
        (
          e,
          All-mono (λ r. less r q ≡ false) (λ r. less r p ≡ false) qs (λ r k. order.trans p q r e k)
              low,
        ),
        (low, h),
      )
    ]

    sort_peers-IsSorted : (ps : List Peer) → IsSorted less (sort_peers less ps)
    unfolding sort_peers
    sort_peers-IsSorted [] = tt
    sort_peers-IsSorted (p ∷ ps) =
        insert_peer-IsSorted p (sort_peers less ps) (sort_peers-IsSorted ps)

pub sort_peers-IsSortSlice : IsSortSlice sort_peers
sort_peers-IsSortSlice = record { perm = sort_peers-perm; sorted = sort_peers-IsSorted }
