-- ===== src/Autopeering/Spacing.antt =====
-- The calls that the loop makes over time.
use popura.Base.{
  ℕ, ◌+◌, ◌≤◌, ◌<◌, ◌≡◌, inl, inr, Option, some, none, List, [], ◌∷◌, arith, All, ltb, tests,
  Bool-cases,
}
use popura.Base.Panic.{value, Returns, Returns->>=}
use popura.Autopeering.{SortSlice, Url}
use popura.Autopeering.Closest.{IsSortSlice}
use popura.Autopeering.Pick.{IsRandPerm}
use popura.Autopeering.Module.{
  AutoPeering, Round, since, have_peers, add_peer, check_peer_round, run_rounds, autopeer_timeout,
}
use popura.Autopeering.Rounds.{add_peer_lem}

-- A call comes more than the timeout after the time noted before it, and is noted itself.
abbrev pub IsSpaced : ℕ → ℕ → ℕ → Option Url → Type 0
IsSpaced before now noted none = Unit {0}
IsSpaced before now noted (some u) = (before + autopeer_timeout < now) × (noted ≡ now)

-- What a round does to the noted time.
abbrev Notes : AutoPeering → Round → AutoPeering × Option Url → Type 0
Notes ap r (ap', call) =
    (ap.had_peers ≤ ap'.had_peers)
    × (ap'.had_peers ≤ r.now)
    × IsSpaced ap.had_peers r.now ap'.had_peers call

-- The clock does not go back: each round reads it after the round before.
abbrev pub IsTimed : ℕ → List Round → Type 0
IsTimed t [] = Unit {0}
IsTimed t (r ∷ rs) = (t ≤ r.checked_at) × (r.checked_at ≤ r.now) × IsTimed r.now rs

-- Each call comes more than the timeout after the one before it, and after the time t.
abbrev pub IsSpread : ℕ → List (ℕ × Url) → Type 0
IsSpread t [] = Unit {0}
IsSpread t ((s, u) ∷ calls) = (t + autopeer_timeout < s) × IsSpread s calls

IsSpread-mono : (s t : ℕ) (calls : List (ℕ × Url)) → s ≤ t → IsSpread t calls → IsSpread s calls
IsSpread-mono s t [] h a = tt
IsSpread-mono s t ((q, u) ∷ calls) h a = (omega (arith, a.0), a.1)

IsTimed-mono : (s t : ℕ) (rs : List Round) → s ≤ t → IsTimed t rs → IsTimed s rs
IsTimed-mono s t [] h a = tt
IsTimed-mono s t (r ∷ rs) h a = (omega (arith, a.0), a.1, a.2)

module _ (sort : SortSlice) (law : IsSortSlice sort) where
  late_Notes :
      (ap : AutoPeering) (r : Round) (call : Option Url)
      → add_peer sort ap r ≡ value (record ap { had_peers = r.now }, call)
      → ap.had_peers ≤ r.checked_at
      → r.checked_at ≤ r.now
      → autopeer_timeout < since r.checked_at ap.had_peers
      → Returns (add_peer sort ap r) (Notes ap r)
  late_Notes ap r none e before after late = rw e (omega arith, omega arith, tt)
  late_Notes ap r (some u) e before after late = rw e (omega arith, omega arith, omega arith)

  check_peer_round-Notes :
      (ap : AutoPeering) (r : Round)
      → IsRandPerm r.perm
      → ap.had_peers ≤ r.checked_at
      → r.checked_at ≤ r.now
      → Returns (check_peer_round sort ap r) (Notes ap r)
  unfolding check_peer_round
  check_peer_round-Notes ap r rand before after = elim (Bool-cases (have_peers r.remotes)) [
    | inl connected ↦ rw connected (omega arith, omega arith, tt)
    | inr alone ↦ elim (Bool-cases (ltb autopeer_timeout (since r.checked_at ap.had_peers))) [
      | inl late ↦
          let (call, e) = add_peer_lem sort law ap r rand in
          rw alone (rw late (late_Notes ap r call e before after (omega tests)))
      | inr early ↦ rw alone (rw early (omega arith, omega arith, tt))
    ]
  ]

  -- What a run gives, from the time noted before it.
  abbrev Spread : ℕ → AutoPeering × List (ℕ × Url) → Type 0
  Spread t (ap, calls) = IsSpread t calls

  record_call :
      (ap : AutoPeering) (r : Round) (call : Option Url) (had : ℕ) (ap'' : AutoPeering)
      (calls : List (ℕ × Url))
      → ap.had_peers ≤ had
      → IsSpaced ap.had_peers r.now had call
      → IsSpread had calls
      → Spread ap.had_peers (ap'', elim call [ none ↦ calls | some u ↦ (r.now, u) ∷ calls ])
  record_call ap r none had ap'' calls up spaced h = IsSpread-mono ap.had_peers had calls up h
  record_call ap r (some u) had ap'' calls up (gap, e) h = (gap, rw e at h)

  -- However the peers come and go, the loop never panics or waits for ever, and more than 30 seconds
  -- lie between one call of a new peer and the next, if the clock does not go back.
  pub run_rounds-IsSpread :
      (ap : AutoPeering) (rs : List Round)
      → IsTimed ap.had_peers rs
      → All (λ r. IsRandPerm r.perm) rs
      → Returns (run_rounds sort ap rs) (λ (ap', calls). IsSpread ap.had_peers calls)
  unfolding run_rounds
  run_rounds-IsSpread ap [] timed rand = tt
  run_rounds-IsSpread ap (r ∷ rs) timed rand =
      Returns->>= (check_peer_round sort ap r) _ (Notes ap r) (Spread ap.had_peers)
        (check_peer_round-Notes ap r rand.0 timed.0 timed.1)
        (λ (ap', call) (up, down, spaced).
          Returns->>= (run_rounds sort ap' rs) _ (Spread ap'.had_peers) (Spread ap.had_peers)
            (run_rounds-IsSpread ap' rs (IsTimed-mono ap'.had_peers r.now rs down timed.2) rand.1)
            (λ (ap'', calls) h. record_call ap r call ap'.had_peers ap'' calls up spaced h))
