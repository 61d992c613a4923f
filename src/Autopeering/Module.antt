-- ===== src/Autopeering/Module.antt =====
-- src/autopeering/module.go: the module's state, and one round of its loop.
use popura.Base.{
  ℕ, ◌-◌, ◌*◌, Bool, false, not, ◌||◌, List, [], ◌∷◌, Option, none, some, min, ltb, if◌then◌else◌,
}
use popura.Base.Panic.{Exec, value, panic, blocked, ◌>>=◌}
use popura.Base.Text.{Bytes, bytes, has_prefix}
use popura.Autopeering.{SortSlice, Url, Dial, second, get_closest_peers, random_pick}

abbrev pub link_local_prefix : Bytes
link_local_prefix = bytes "tls://[fe80"

abbrev pub autopeer_timeout : ℕ
autopeer_timeout = 30 * second

abbrev pub peer_check_timeout : ℕ
peer_check_timeout = 10 * second

-- The fields that the loop works on. Times are nanoseconds from Go's zero time.
pub record AutoPeering : Type 0 where
  pub had_peers : ℕ
  pub peers : List Url
  pub enabled : Bool

-- The largest `time.Duration`, at which `time.Since` stops.
abbrev pub max_duration : ℕ
max_duration = 9223372036854775807

-- `time.Since(t)` where the clock shows `now`. A negative duration is 0 here; both are below the
-- timeout that the loop compares with.
abbrev pub since : ℕ → ℕ → ℕ
since now t = min (now - t) max_duration

-- What one round reads: the remote addresses of `core.GetPeers`, the clock at `time.Since` and at
-- the `time.Now` that is stored, the network, the scheduler and `rand.Perm`.
pub record Round : Type 0 where
  pub remotes : List Bytes
  pub checked_at : ℕ
  pub now : ℕ
  pub dial : ℕ → Dial
  pub choose : ℕ → ℕ
  pub perm : ℕ → List ℕ

-- The loop over the connected peers.
unfoldable pub have_peers : List Bytes → Bool
have_peers [] = false
have_peers (remote ∷ rest) = not (has_prefix remote link_local_prefix) || have_peers rest

-- `if len(peers) == 1`
abbrev pub only : List Url → Option Url
only (u ∷ []) = some u
only us = none

-- The branch that looks for a new peer; `sort` stands for `sort.Slice`.
unfoldable pub add_peer : SortSlice → AutoPeering → Round → Exec (AutoPeering × Option Url)
add_peer sort ap r = elim (get_closest_peers r.dial r.choose sort ap.peers 10) [
  | none ↦ panic blocked
  | some closest ↦ do
    picked ← random_pick r.perm closest 1
    value (record ap { had_peers = r.now }, only picked)
]

-- `checkPeerLoop` up to the timer that it starts at its end: the new state, and the peer that it
-- hands to `core.CallPeer`.
unfoldable pub check_peer_round : SortSlice → AutoPeering → Round → Exec (AutoPeering × Option Url)
unfolding have_peers add_peer
check_peer_round sort ap r =
    if have_peers r.remotes
    then value (record ap { had_peers = r.now }, none)
    else if ltb autopeer_timeout (since r.checked_at ap.had_peers)
    then add_peer sort ap r
    else value (ap, none)

-- The rounds of the loop one after another, with the time and the address of each call.
unfoldable pub run_rounds :
    SortSlice → AutoPeering → List Round → Exec (AutoPeering × List (ℕ × Url))
run_rounds sort ap [] = value (ap, [])
run_rounds sort ap (r ∷ rs) = do
  (ap', call) ← check_peer_round sort ap r
  (ap'', calls) ← run_rounds sort ap' rs
  value (ap'', elim call [ none ↦ calls | some u ↦ (r.now, u) ∷ calls ])
