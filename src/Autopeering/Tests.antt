-- ===== src/Autopeering/Tests.antt =====
-- Runs of the autopeering module, and its theorems at concrete data.
mod Sort
mod Calls
use mathlib.Core.List.Perm
use popura.Base.{
  ℕ, zero, suc, ◌+◌, ◌*◌, ◌≤◌, ◌<◌, ◌≡◌, refl, ◌↔◌, inl, true, false, Option, some, none, List, [],
  ◌∷◌, ◌++◌, map, Perm, arith, if◌then◌else◌, length, min, take, select, All,
}
use popura.Base.Panic.{Exec, value, Returns}
use popura.Base.Perms.{range_from}
use popura.Base.Text.{Bytes, bytes, same, split_on, has_prefix}
use popura.Autopeering.{
  Url, Peer, Dial, test_peer, test_all, test_peers, online_peers, by_latency, get_closest_peers,
  random_pick, second, default_timeout,
}
use popura.Autopeering.Receive.{test_peers-perm}
use popura.Autopeering.Online.{is_online, online_peers-eq_select}
use popura.Autopeering.Closest.{IsNearest, IsByLatency, get_closest_peers_best}
use popura.Autopeering.Pick.{IsRandPerm, random_pick-perm_take}
use popura.Autopeering.Module.{
  AutoPeering, Round, since, have_peers, check_peer_round, run_rounds, autopeer_timeout,
}
use popura.Autopeering.Rounds.{online, IsCallOf, check_peer_round-IsCallOf}
use popura.Autopeering.Spacing.{IsSpread, run_rounds-IsSpread}
use popura.Autopeering.Lifecycle.{
  Loop, Event, start_called, stop_called, round_ends, timer_fires, new_loop, stop, run, pending,
  done, get_public_peers,
}
use popura.Autopeering.Stopping.{alive, stop-in_round}
use popura.Autopeering.PublicPeers.{get_public_peers_iff}
use Sort.{sort_peers, sort_peers-IsSortSlice}

abbrev address : Bytes → Bytes → Url
address scheme host = record { scheme = scheme; host = host; text = host }

abbrev near_peer : Url
near_peer = address (bytes "tls") (bytes "near")

abbrev far_peer : Url
far_peer = address (bytes "tcp") (bytes "far")

abbrev dead_peer : Url
dead_peer = address (bytes "tcp") (bytes "dead")

abbrev odd_peer : Url
odd_peer = address (bytes "socks") (bytes "near")

abbrev some_peers : List Url
some_peers = dead_peer ∷ far_peer ∷ odd_peer ∷ near_peer ∷ []

-- The hosts "near" and "far" answer after 5 and 9 nanoseconds.
abbrev network : ℕ → Dial
network i protocol host timeout =
    if same host (bytes "near") then some 5 else if same host (bytes "far") then some 9 else none

abbrev schedule : ℕ → ℕ
schedule n = n * 3 + 1

abbrev identity : ℕ → List ℕ
identity n = range_from 0 n

identity-IsRandPerm : IsRandPerm identity
identity-IsRandPerm = record { permutes = λ n. Perm.refl _ }

closest_runs :
    get_closest_peers network schedule sort_peers some_peers 10 ≡ some (near_peer ∷ far_peer ∷ [])
unfolding get_closest_peers by_latency sort_peers same
closest_runs = refl

test_peers-perm_example :
    (ps : List Peer) × (test_peers network schedule some_peers ≡ some ps)
    × Perm ps (test_all network 0 some_peers)
test_peers-perm_example = test_peers-perm network schedule some_peers

get_closest_peers_best_example :
    (chosen : List Peer) × (others : List Peer) × (get_closest_peers network schedule sort_peers
        some_peers 1
      ≡ some (map (λ p. p.url) chosen))
    × Perm (chosen ++ others) (select is_online (test_all network 0 some_peers))
    × (length chosen ≡ min 1 (length (select is_online (test_all network 0 some_peers))))
    × IsByLatency chosen
    × All (λ p. IsNearest p others) chosen
get_closest_peers_best_example =
    get_closest_peers_best network schedule sort_peers sort_peers-IsSortSlice some_peers 1

random_pick-perm_take_example :
    (picked : List Url) × (random_pick identity some_peers 1 ≡ value picked)
    × Perm picked (take 1 some_peers)
random_pick-perm_take_example = random_pick-perm_take identity identity-IsRandPerm some_peers 1

-- One pick is always the first peer of the list.
random_pick_first : random_pick identity some_peers 1 ≡ value (dead_peer ∷ [])
unfolding random_pick
random_pick_first = refl

abbrev module_start : AutoPeering
module_start = record { had_peers = 0; peers = some_peers; enabled = true }

abbrev round_at : ℕ → Round
round_at t = record {
  remotes = bytes "tls://[fe80::1]:4321" ∷ [];
  checked_at = t;
  now = t + 1;
  dial = network;
  choose = schedule;
  perm = identity;
}

check_peer_round-IsCallOf_example :
    (call : Option Url) × (check_peer_round sort_peers module_start (round_at (40 * second))
      ≡ value (record module_start { had_peers = 40 * second + 1 }, call))
    × IsCallOf (online module_start (round_at (40 * second))) call
unfolding have_peers has_prefix
check_peer_round-IsCallOf_example =
    check_peer_round-IsCallOf sort_peers sort_peers-IsSortSlice module_start
      (round_at (40 * second)) identity-IsRandPerm refl (omega arith)

abbrev rounds : List Round
rounds = round_at (40 * second) ∷ round_at (50 * second) ∷ round_at (80 * second) ∷ []

rounds_run :
    run_rounds sort_peers module_start rounds
    ≡ value (
      record module_start { had_peers = 80 * second + 1 },
      (40 * second + 1, near_peer) ∷ (80 * second + 1, near_peer) ∷ [],
    )
unfolding run_rounds check_peer_round get_closest_peers by_latency random_pick sort_peers same
    has_prefix
rounds_run = refl

run_rounds-IsSpread_example :
    Returns (run_rounds sort_peers module_start rounds) (λ (ap', calls). IsSpread 0 calls)
run_rounds-IsSpread_example =
    run_rounds-IsSpread sort_peers sort_peers-IsSortSlice module_start rounds (omega arith)
      (identity-IsRandPerm, (identity-IsRandPerm, (identity-IsRandPerm, tt)))

abbrev events : List Event
events = start_called ∷ round_ends ∷ timer_fires ∷ round_ends ∷ []

abbrev between : Loop
between = record { peers = []; enabled = true; timer = pending; running = 0; stale = 0 }

abbrev in_round : Loop
in_round = record { peers = []; enabled = true; timer = done; running = 1; stale = 0 }

stop-in_round_example : 0 < alive (run (stop in_round) (round_ends ∷ timer_fires ∷ []))
stop-in_round_example =
    stop-in_round in_round (round_ends ∷ timer_fires ∷ []) (omega arith) (tt, (tt, tt))

-- A parser that takes every line for an address.
abbrev parse_any : Bytes → Option Url
parse_any line = some (address [] line)

get_public_peers_iff_example :
    (get_public_peers parse_any (bytes "a\nb")
      ≡ value (address [] (bytes "a") ∷ address [] (bytes "b") ∷ []))
    ↔ (map parse_any (split_on b'\n' (bytes "a\nb"))
        ≡ map some (address [] (bytes "a") ∷ address [] (bytes "b") ∷ []))
get_public_peers_iff_example =
    get_public_peers_iff parse_any (bytes "a\nb")
      (address [] (bytes "a") ∷ address [] (bytes "b") ∷ [])
