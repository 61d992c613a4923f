-- ===== src/Autopeering/Rounds.antt =====
-- When a round of the loop calls a new peer, and which.
use mathlib.Core.Path
use popura.Base.{
  ◌<◌, ◌≡◌, refl, ◌∙◌, false, Option, some, none, List, [], ◌∷◌, ◌++◌, map, Perm, arith, length,
  select, All, All-append, min, lt→ltb,
}
use popura.Base.Perms.{singleton_of_perm}
use popura.Base.Panic.{value}
use popura.Autopeering.{SortSlice, Url, Peer, test_all, get_closest_peers, random_pick}
use popura.Autopeering.Online.{is_online}
use popura.Autopeering.Closest.{IsNearest, IsByLatency, IsSortSlice, get_closest_peers_best}
use popura.Autopeering.Pick.{IsRandPerm, random_pick-perm_take}
use popura.Autopeering.Module.{
  AutoPeering, Round, since, have_peers, add_peer, check_peer_round, autopeer_timeout,
}

-- The peers that the tests of a round find online.
abbrev pub online : AutoPeering → Round → List Peer
online ap r = select is_online (test_all r.dial 0 ap.peers)

-- A peer of the list than which no other has a lower latency.
abbrev pub IsNearestOf : List Peer → Peer → Type 0
IsNearestOf ps p = (rest : List Peer) × Perm (p ∷ rest) ps × IsNearest p rest

urls-set : IsSet (List Url)
urls-set = hlevel

-- The peer called is one of those found online, and none of them has a lower latency. No peer is
-- called if none is online.
abbrev pub IsCallOf : List Peer → Option Url → Type 0
IsCallOf ps none = ps ≡ []
IsCallOf ps (some u) = (p : Peer) × IsNearestOf ps p × (u ≡ p.url)

no_peers :
    (chosen others ps : List Peer) → chosen ≡ [] → length chosen ≡ min 10 (length ps) → ps ≡ []
no_peers chosen others [] e l = refl
no_peers chosen others (p ∷ ps) e l = absurd (omega (arith, Path.ap length e))

module _ (sort : SortSlice) (law : IsSortSlice sort) (ap : AutoPeering) (r : Round)
    (rand : IsRandPerm r.perm) where
  picked_first : (u : Url) (us : List Url) → random_pick r.perm (u ∷ us) 1 ≡ value (u ∷ [])
  picked_first u us =
      let (picked, e, p) = random_pick-perm_take r.perm rand (u ∷ us) 1 in
      e ∙ Path.ap value (singleton_of_perm urls-set u p)

  add_peer_of_nil :
      get_closest_peers r.dial r.choose sort ap.peers 10 ≡ some []
      → add_peer sort ap r ≡ value (record ap { had_peers = r.now }, none)
  unfolding add_peer random_pick
  add_peer_of_nil e = rw (e, add_peer)

  add_peer_of_cons :
      (u : Url) (us : List Url)
      → get_closest_peers r.dial r.choose sort ap.peers 10 ≡ some (u ∷ us)
      → add_peer sort ap r ≡ value (record ap { had_peers = r.now }, some u)
  unfolding add_peer
  add_peer_of_cons u us e = rw (e, add_peer) (rw (picked_first u us))

  pub add_peer-IsCallOf :
      (chosen others : List Peer)
      → get_closest_peers r.dial r.choose sort ap.peers 10 ≡ some (map (λ p. p.url) chosen)
      → Perm (chosen ++ others) (online ap r)
      → length chosen ≡ min 10 (length (online ap r))
      → IsByLatency chosen
      → All (λ p. IsNearest p others) chosen
      → (call : Option Url) × (add_peer sort ap r ≡ value (record ap { had_peers = r.now }, call))
        × IsCallOf (online ap r) call
  add_peer-IsCallOf [] others e p l s n =
      (none, add_peer_of_nil e, no_peers [] others (online ap r) refl l)
  add_peer-IsCallOf (q ∷ qs) others e p l s n = (
    some q.url,
    add_peer_of_cons q.url (map (λ p. p.url) qs) e,
    (q, (qs ++ others, p, All-append _ qs others s.0 n.0), refl),
  )

  -- A round that finds no peer outside the local network, more than 30 seconds after the last time
  -- that there was one or that one was called, notes the time and calls the online peer with the least
  -- latency. It calls none only if no peer is online.
  pub check_peer_round-IsCallOf :
      have_peers r.remotes ≡ false
      → autopeer_timeout < since r.checked_at ap.had_peers
      → (call : Option Url) × (check_peer_round sort ap r
          ≡ value (record ap { had_peers = r.now }, call))
        × IsCallOf (online ap r) call
  unfolding check_peer_round
  check_peer_round-IsCallOf alone late =
      let (chosen, others, e, p, l, s, n) =
        get_closest_peers_best r.dial r.choose sort law ap.peers 10 in
      let (call, added, is_call) = add_peer-IsCallOf chosen others e p l s n in
      (call, rw alone (rw (lt→ltb _ _ late) added), is_call)

  -- The branch that looks for a peer never waits for ever and never panics.
  pub add_peer_lem :
      (call : Option Url) × (add_peer sort ap r ≡ value (record ap { had_peers = r.now }, call))
  add_peer_lem =
      let (chosen, others, e, p, l, s, n) =
        get_closest_peers_best r.dial r.choose sort law ap.peers 10 in
      let (call, added, is_call) = add_peer-IsCallOf chosen others e p l s n in (call, added)
