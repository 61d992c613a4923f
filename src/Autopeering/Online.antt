-- ===== src/Autopeering/Online.antt =====
-- The loop that moves the online peers to the front, in place, is a filter.
use mathlib.Core.List.{append_assoc, append-nil}
use popura.Base.{
  ℕ, suc, ◌+◌, ◌≡◌, refl, sym, ap, ◌∙◌, inl, inr, Bool, true, false, some, List, [], ◌∷◌, ◌++◌,
  arith, length, length-append, get_elem?, get_elem?-append_length, set, set-append_length, select,
  select_yes, select_no, take, take-length_append, Bool-cases,
}
use popura.Autopeering.{Peer, compact, online_peers}

abbrev pub is_online : Peer → Bool
is_online p = p.online

-- `onlinePeers[:x]` after the loop.
abbrev kept : List Peer × ℕ → List Peer
kept (peers, x) = take x peers

get_at :
    (ds gap rest : List Peer) (p : Peer)
    → get_elem? (ds ++ (gap ++ (p ∷ rest))) (length ds + length gap) ≡ some p
get_at ds gap rest p =
    rw (← append_assoc, ← length-append) (get_elem?-append_length (ds ++ gap) rest p)

-- A write at x moves the gap one place on.
next_gap : List Peer → Peer → List Peer
next_gap [] p = []
next_gap (g ∷ gap) p = gap ++ (p ∷ [])

moved :
    (ds gap rest : List Peer) (p : Peer)
    → set (ds ++ (gap ++ (p ∷ rest))) (length ds) p ≡ (ds ++ (p ∷ [])) ++ (next_gap gap p ++ rest)
unfolding next_gap
moved ds [] rest p = set-append_length ds rest p p ∙ sym (append_assoc ds (p ∷ []) rest)
moved ds (g ∷ gap) rest p =
    set-append_length ds (gap ++ (p ∷ rest)) g p
    ∙ ap (λ t. ds ++ (p ∷ t)) (sym (append_assoc gap (p ∷ []) rest))
    ∙ sym (append_assoc ds (p ∷ []) ((gap ++ (p ∷ [])) ++ rest))

length-next_gap : (gap : List Peer) (p : Peer) → length (next_gap gap p) ≡ length gap
unfolding next_gap
length-next_gap [] p = refl
length-next_gap (g ∷ gap) p = omega (arith, length-append gap (p ∷ []))

module _ (rounds i x : ℕ) (peers : List Peer) (p : Peer) (found : get_elem? peers i ≡ some p) where
  compact_on :
      p.online ≡ true
      → compact (suc rounds) i x peers ≡ compact rounds (suc i) (suc x) (set peers x p)
  unfolding compact
  compact_on on = ground arith

  compact_off : p.online ≡ false → compact (suc rounds) i x peers ≡ compact rounds (suc i) x peers
  unfolding compact
  compact_off off = ground arith

-- Before x stand the online peers seen so far; between x and i stands what was moved or dropped.
compact_lem :
    (rest gap ds peers : List Peer) (i x : ℕ)
    → i ≡ length ds + length gap
    → x ≡ length ds
    → peers ≡ ds ++ (gap ++ rest)
    → kept (compact (length rest) i x peers) ≡ ds ++ select is_online rest
compact_lem [] gap ds peers i x ei ex e =
    unfold compact in rw (e, ex) (take-length_append ds (gap ++ []) ∙ sym (append-nil ds))
compact_lem (p ∷ rest) gap ds peers i x ei ex e = elim (Bool-cases p.online) [
  | inl on ↦
      ap kept (compact_on (length rest) i x peers p found on)
      ∙ compact_lem rest (next_gap gap p) (ds ++ (p ∷ [])) (set peers x p) (suc i) (suc x)
          (omega (arith, length-append ds (p ∷ []), length-next_gap gap p))
          (omega (arith, length-append ds (p ∷ []))) (rw (e, ex) (moved ds gap rest p))
      ∙ append_assoc ds (p ∷ []) (select is_online rest)
      ∙ ap (λ t. ds ++ t) (sym (select_yes is_online p rest on))
  | inr off ↦
      ap kept (compact_off (length rest) i x peers p found off)
      ∙ compact_lem rest (gap ++ (p ∷ [])) ds peers (suc i) x
          (omega (arith, length-append gap (p ∷ []))) ex
          (e ∙ ap (λ t. ds ++ t) (sym (append_assoc gap (p ∷ []) rest)))
      ∙ ap (λ t. ds ++ t) (sym (select_no is_online p rest off))
]
  where
    found : get_elem? peers i ≡ some p
    found = rw (e, ei) (get_at ds gap rest p)

-- The loop keeps exactly the online peers, in their order.
pub online_peers-eq_select : (peers : List Peer) → online_peers peers ≡ select is_online peers
unfolding online_peers
online_peers-eq_select peers = compact_lem peers [] [] peers 0 0 refl refl refl
