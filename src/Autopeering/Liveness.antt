-- ===== src/Autopeering/Liveness.antt =====
-- The calls that the loop makes while there is no peer.
use popura.Base.{
  ℕ, ◌+◌, ◌*◌, ◌≤◌, ◌<◌, ◌≡◌, refl, ap, inl, inr, false, Option, some, none, List, [], ◌∷◌, arith,
  length, select, All, All-mono, ltb, tests, Bool-cases,
}
use popura.Base.Panic.{value, Returns, Returns->>=}
use popura.Autopeering.{SortSlice, Url, Peer, test_all}
use popura.Autopeering.Online.{is_online}
use popura.Autopeering.Closest.{IsSortSlice}
use popura.Autopeering.Pick.{IsRandPerm}
use popura.Autopeering.Module.{
  AutoPeering, Round, since, have_peers, check_peer_round, run_rounds, autopeer_timeout,
  peer_check_timeout,
}
use popura.Autopeering.Rounds.{IsCallOf, check_peer_round-IsCallOf}
use popura.Autopeering.Spacing.{IsTimed, run_rounds-IsSpread}

-- The timer of a round starts behind it: the next one comes ten seconds later at least.
abbrev pub IsPaced : ℕ → List Round → Type 0
IsPaced t [] = Unit {0}
IsPaced t (r ∷ rs) =
    (t ≤ r.checked_at) × (r.checked_at ≤ r.now) × IsPaced (r.now + peer_check_timeout) rs

-- A round in which no peer is connected and some peer is online.
abbrev pub IsLonely : List Url → Round → Type 0
IsLonely peers r =
    IsRandPerm r.perm
    × (have_peers r.remotes ≡ false)
    × (0 < length (select is_online (test_all r.dial 0 peers)))

IsPaced-IsTimed : (s t : ℕ) (rs : List Round) → s ≤ t → IsPaced t rs → IsTimed s rs
IsPaced-IsTimed s t [] h p = tt
IsPaced-IsTimed s t (r ∷ rs) h p =
    (omega (arith, p.0), p.1, IsPaced-IsTimed r.now _ rs (omega arith) p.2)

called :
    (ps : List Peer) (call : Option Url)
    → 0 < length ps
    → IsCallOf ps call
    → (u : Url) × (call ≡ some u)
called ps none some_online nobody = absurd (omega (arith, ap length nobody))
called ps (some u) some_online is_call = (u, refl)

module _ (sort : SortSlice) (law : IsSortSlice sort) where
  early_round :
      (ap : AutoPeering) (r : Round)
      → have_peers r.remotes ≡ false
      → ltb autopeer_timeout (since r.checked_at ap.had_peers) ≡ false
      → check_peer_round sort ap r ≡ value (ap, none)
  unfolding check_peer_round
  early_round ap r alone early = rw alone (rw early refl)

  late_round :
      (ap : AutoPeering) (r : Round)
      → IsLonely ap.peers r
      → autopeer_timeout < since r.checked_at ap.had_peers
      → (u : Url) × (check_peer_round sort ap r ≡ value (record ap { had_peers = r.now }, some u))
  late_round ap r (rand, alone, some_online) late =
      let (call, e, is_call) = check_peer_round-IsCallOf sort law ap r rand alone late in
      let (u, f) =
        called (select is_online (test_all r.dial 0 ap.peers)) call some_online is_call in
      (u, rw f at e)

  late_calls :
      (ap : AutoPeering) (t : ℕ) (r : Round) (rs : List Round)
      → autopeer_timeout < since r.checked_at ap.had_peers
      → IsPaced t (r ∷ rs)
      → All (IsLonely ap.peers) (r ∷ rs)
      → Returns (run_rounds sort ap (r ∷ rs)) (λ (ap', calls). 0 < length calls)
  unfolding run_rounds
  late_calls ap t r rs late paced lonely =
      let (u, e) = late_round ap r lonely.0 late in
      let timed = IsPaced-IsTimed r.now _ rs (omega arith) paced.2 in
      let rand = All-mono (IsLonely ap.peers) (λ r. IsRandPerm r.perm) rs (λ r l. l.0) lonely.1 in
      rw e (
        Returns->>= (run_rounds sort (record ap { had_peers = r.now }) rs) _ _ _
          (run_rounds-IsSpread sort law (record ap { had_peers = r.now }) rs timed rand)
          (λ (ap', calls) h. omega arith))

  -- The loop calls a peer if the last of the rounds begins late enough.
  run_rounds-calls :
      (ap : AutoPeering) (t : ℕ) (r : Round) (rs : List Round)
      → ap.had_peers + autopeer_timeout < t + length rs * peer_check_timeout
      → IsPaced t (r ∷ rs)
      → All (IsLonely ap.peers) (r ∷ rs)
      → Returns (run_rounds sort ap (r ∷ rs)) (λ (ap', calls). 0 < length calls)
  unfolding run_rounds
  run_rounds-calls ap t r [] long paced lonely =
      late_calls ap t r [] (omega (arith, paced.0)) paced lonely
  run_rounds-calls ap t r (r' ∷ rs) long paced lonely =
      elim (Bool-cases (ltb autopeer_timeout (since r.checked_at ap.had_peers))) [
        | inl late ↦ late_calls ap t r (r' ∷ rs) (omega tests) paced lonely
        | inr early ↦ rw (early_round ap r lonely.0.1 early) (
            Returns->>= (run_rounds sort ap (r' ∷ rs)) _ _ _
              (run_rounds-calls ap (r.now + peer_check_timeout) r' rs
                (omega (arith, paced.0, paced.1)) paced.2 lonely.1)
              (λ (ap', calls) h. h))
      ]

  -- While no peer outside the local network is connected and some peer of the list is online, the loop
  -- calls a new peer in at most five rounds, whatever it noted before them, if the clock does not go back
  -- and each round begins at least ten seconds behind the one before it.
  pub run_rounds-calls_in_five :
      (ap : AutoPeering) (rs : List Round)
      → 5 ≤ length rs
      → IsPaced ap.had_peers rs
      → All (IsLonely ap.peers) rs
      → Returns (run_rounds sort ap rs) (λ (ap', calls). 0 < length calls)
  run_rounds-calls_in_five ap [] long paced lonely = absurd (omega arith)
  run_rounds-calls_in_five ap (r ∷ rs) long paced lonely =
      run_rounds-calls ap ap.had_peers r rs (omega arith) paced lonely
