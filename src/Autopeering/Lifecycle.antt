-- ===== src/Autopeering/Lifecycle.antt =====
-- src/autopeering/module.go: `Init`, `Start`, `Stop` and the timers of the loop, with the goroutines
-- that run at the same time.
use popura.Base.{
  ℕ, ◌+◌, ◌-◌, Bool, false, Option, none, some, List, [], ◌∷◌, ◌++◌, ltb, if◌then◌else◌,
}
use popura.Base.Panic.{Exec, value, panic, raised, ◌>>=◌}
use popura.Base.Text.{Bytes, split_on}
use popura.Config.{PopuraConfig}
use popura.Autopeering.{Url}

-- `GetPublicPeers` over the lines of the embedded file; `parse` is `url.Parse`.
unfoldable pub parse_lines : (Bytes → Option Url) → List Bytes → List Url → Exec (List Url)
parse_lines parse [] result = value result
parse_lines parse (line ∷ lines) result = elim (parse line) [
  | none ↦ panic raised
  | some u ↦ parse_lines parse lines (result ++ (u ∷ []))
]

unfoldable pub get_public_peers : (Bytes → Option Url) → Bytes → Exec (List Url)
unfolding parse_lines
get_public_peers parse public_peers = parse_lines parse (split_on b'\n' public_peers) []

-- `checkPeerTimer`: nil, a timer that will fire, or one that fired or was stopped.
pub data Timer : Type 0 where
  nil pending done : Timer

-- The module and its goroutines: how many run a round of the loop, and how many timers that the
-- field no longer points to will start one.
pub record Loop : Type 0 where
  pub peers : List Url
  pub enabled : Bool
  pub timer : Timer
  pub running : ℕ
  pub stale : ℕ

-- `&AutoPeering{}`
unfoldable pub new_loop : Loop
new_loop = record { peers = []; enabled = false; timer = nil; running = 0; stale = 0 }

-- `Init`
unfoldable pub init : (Bytes → Option Url) → Bytes → PopuraConfig → Loop → Exec Loop
unfolding get_public_peers
init parse public_peers config ap = do
  peers ← get_public_peers parse public_peers
  value (record ap { peers = peers; enabled = config.autopeering.enable })

-- `Start`
unfoldable pub start : Loop → Loop
start ap = if ap.enabled then record ap { running = ap.running + 1 } else ap

-- `checkPeerTimer.Stop()`
abbrev pub stopped : Timer → Timer
stopped nil = nil
stopped pending = done
stopped done = done

-- `Stop`
unfoldable pub stop : Loop → Loop
stop ap = record ap { timer = stopped ap.timer }

-- How many timers will fire.
abbrev pub waiting : Timer → ℕ
waiting pending = 1
waiting _ = 0

-- The end of a round: `time.AfterFunc` starts a timer, and the field forgets the one before it.
unfoldable pub finish_round : Loop → Loop
finish_round ap = record ap {
  running = ap.running - 1;
  stale = ap.stale + waiting ap.timer;
  timer = pending;
}

-- What can happen to the module: a call from outside, the end of a running round, or a timer.
pub data Event : Type 0 where
  start_called stop_called round_ends timer_fires stale_fires : Event

-- An event that cannot happen changes nothing.
unfoldable pub step : Loop → Event → Loop
unfolding start stop finish_round
step ap start_called = start ap
step ap stop_called = stop ap
step ap round_ends = if ltb 0 ap.running then finish_round ap else ap
step ap timer_fires =
    if ltb 0 (waiting ap.timer) then record ap { timer = done; running = ap.running + 1 } else ap
step ap stale_fires =
    if ltb 0 ap.stale then record ap { stale = ap.stale - 1; running = ap.running + 1 } else ap

unfoldable pub run : Loop → List Event → Loop
run ap [] = ap
run ap (e ∷ es) = run (step ap e) es
