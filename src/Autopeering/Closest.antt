-- ===== src/Autopeering/Closest.antt =====
-- `GetClosestPeers` returns the n online peers with the least latency.
use mathlib.Core.List.Perm
use mathlib.Core.List.{append-nil, append_assoc}
use popura.Base.{
  ℕ, zero, suc, ◌+◌, ◌≤◌, ◌≡◌, sym, ap, ◌∙◌, Bool, true, false, some, List, [], ◌∷◌, ◌++◌, map,
  Perm, arith, length, length-append, length-take, take, drop, take-append-drop, select, All,
  All-mono, All-take, All-drop, min, ◌==◌,
}
use popura.Base.Perms.{select-perm, length-eq_of_perm}
use popura.Autopeering.{
  Url, Peer, Dial, test_all, SortSlice, by_latency, test_peers, first_urls, get_closest_peers,
}
use popura.Autopeering.Receive.{test_peers-perm}
use popura.Autopeering.Online.{is_online, online_peers-eq_select}

-- No peer of the list has a lower latency than p.
abbrev pub IsNearest : Peer → List Peer → Type 0
IsNearest p = All (λ q. p.latency ≤ q.latency)

abbrev pub IsByLatency : List Peer → Type 0
IsByLatency [] = Unit {0}
IsByLatency (p ∷ ps) = IsNearest p ps × IsByLatency ps

-- What package sort asks of a `less`: it is a strict weak order.
pub record IsStrictWeakOrder (less : Peer → Peer → Bool) : Type 0 where
  pub asym : (p q : Peer) → less p q ≡ true → less q p ≡ false
  pub trans : (p q r : Peer) → less q p ≡ false → less r q ≡ false → less r p ≡ false

-- No later element is less than an earlier one.
abbrev pub IsSorted : (Peer → Peer → Bool) → List Peer → Type 0
IsSorted less [] = Unit {0}
IsSorted less (p ∷ ps) = All (λ q. less q p ≡ false) ps × IsSorted less ps

-- What package sort documents of `sort.Slice`, for whatever `less`: it rearranges the slice, and with
-- a strict weak order the result is sorted. It promises no order between equal elements.
pub record IsSortSlice (sort : SortSlice) : Type 0 where
  pub perm : (less : Peer → Peer → Bool) (ps : List Peer) → Perm (sort less ps) ps
  pub sorted :
      (less : Peer → Peer → Bool)
      → IsStrictWeakOrder less
      → (ps : List Peer) → IsSorted less (sort less ps)

by_latency-IsStrictWeakOrder : IsStrictWeakOrder by_latency
unfolding by_latency
by_latency-IsStrictWeakOrder = record {
  asym = λ p q h. ground arith;
  trans = λ p q r h k. ground arith;
}

IsSorted-IsByLatency : (ps : List Peer) → IsSorted by_latency ps → IsByLatency ps
unfolding by_latency
IsSorted-IsByLatency [] h = tt
IsSorted-IsByLatency (p ∷ ps) (low, h) = (
  All-mono (λ q. by_latency q p ≡ false) (λ q. p.latency ≤ q.latency) ps (λ q e. ground arith) low,
  IsSorted-IsByLatency ps h,
)

-- With room for k more, the first k addresses are appended.
first_urls_lem :
    (n k : ℕ) (ps : List Peer) (result : List Url)
    → n ≡ length result + k
    → first_urls n ps result ≡ result ++ map (λ p. p.url) (take k ps)
unfolding first_urls
first_urls_lem n zero [] result e = sym (append-nil result)
first_urls_lem n (suc k) [] result e = sym (append-nil result)
first_urls_lem n zero (p ∷ ps) result e =
    let full : (length result == n) ≡ true = ground arith in rw full (sym (append-nil result))
first_urls_lem n (suc k) (p ∷ ps) result e =
    let room : (length result == n) ≡ false = ground arith in
    rw room (
      first_urls_lem n k ps (result ++ (p.url ∷ []))
        (omega (arith, length-append result (p.url ∷ [])))
      ∙ append_assoc result (p.url ∷ []) (map (λ q. q.url) (take k ps)))

IsByLatency-take : (n : ℕ) (ps : List Peer) → IsByLatency ps → IsByLatency (take n ps)
IsByLatency-take zero ps h = tt
IsByLatency-take (suc n) [] h = tt
IsByLatency-take (suc n) (p ∷ ps) h = (All-take _ n ps h.0, IsByLatency-take n ps h.1)

IsNearest-drop :
    (n : ℕ) (ps : List Peer) → IsByLatency ps → All (λ p. IsNearest p (drop n ps)) (take n ps)
IsNearest-drop zero ps h = tt
IsNearest-drop (suc n) [] h = tt
IsNearest-drop (suc n) (p ∷ ps) h = (All-drop _ n ps h.0, IsNearest-drop n ps h.1)

module _ (dial : ℕ → Dial) (choose : ℕ → ℕ) (sort : SortSlice) (law : IsSortSlice sort) where
  closest_of_tested :
      (peer_list : List Url) (n : ℕ) (tested : List Peer)
      → test_peers dial choose peer_list ≡ some tested
      → get_closest_peers dial choose sort peer_list n
        ≡ some (map (λ p. p.url) (take n (sort by_latency (select is_online tested))))
  unfolding get_closest_peers
  closest_of_tested peer_list n tested e =
      rw (e, get_closest_peers)
        (rw (online_peers-eq_select tested) (
          ap some
            (first_urls_lem n n (sort by_latency (select is_online tested)) [] (omega arith))))

  -- `GetClosestPeers` always returns. The peers tested online fall into those that it returns and
  -- the others: it returns n peers, or all online peers if they are fewer, by rising latency, and
  -- none of the others has a lower latency than one of those returned.
  pub get_closest_peers_best :
      (peer_list : List Url) (n : ℕ)
      → (chosen : List Peer) × (others : List Peer) × (get_closest_peers dial choose sort peer_list
            n
          ≡ some (map (λ p. p.url) chosen))
        × Perm (chosen ++ others) (select is_online (test_all dial 0 peer_list))
        × (length chosen ≡ min n (length (select is_online (test_all dial 0 peer_list))))
        × IsByLatency chosen
        × All (λ p. IsNearest p others) chosen
  get_closest_peers_best peer_list n =
      let (tested, e, p) = test_peers-perm dial choose peer_list in
      let ps = sort by_latency (select is_online tested) in
      let q : Perm ps (select is_online (test_all dial 0 peer_list)) =
        Perm.trans (law.perm by_latency (select is_online tested)) (select-perm is_online p) in
      let rising : IsByLatency ps =
        IsSorted-IsByLatency ps
          (law.sorted by_latency by_latency-IsStrictWeakOrder (select is_online tested)) in
      (
        take n ps,
        drop n ps,
        closest_of_tested peer_list n tested e,
        rw (take-append-drop n ps) q,
        omega (arith, length-take n ps, length-eq_of_perm q),
        IsByLatency-take n ps rising,
        IsNearest-drop n ps rising,
      )
