-- ===== src/Autopeering/Tests/Calls.antt =====
-- Rounds of the autopeering module without a peer, and the theorem on them at concrete data.
use popura.Base.{◌<◌, ◌*◌, ℕ, refl, List, [], ◌∷◌, arith, length}
use popura.Base.Panic.{Returns}
use popura.Base.Text.{same, has_prefix}
use popura.Autopeering.{second, test_peer, test_all}
use popura.Autopeering.Module.{Round, have_peers, run_rounds}
use popura.Autopeering.Liveness.{IsLonely, run_rounds-calls_in_five}
use popura.Autopeering.Tests.{some_peers, module_start, round_at, identity-IsRandPerm}
use popura.Autopeering.Tests.Sort.{sort_peers, sort_peers-IsSortSlice}

round_at-IsLonely : (t : ℕ) → IsLonely some_peers (round_at t)
unfolding have_peers has_prefix test_all test_peer same
round_at-IsLonely t = (identity-IsRandPerm, refl, omega arith)

abbrev lonely_rounds : List Round
lonely_rounds =
    round_at (1 * second)
    ∷ round_at (12 * second)
    ∷ round_at (23 * second)
    ∷ round_at (34 * second)
    ∷ round_at (45 * second)
    ∷ []

run_rounds-calls_in_five_example :
    Returns (run_rounds sort_peers module_start lonely_rounds) (λ (ap', calls). 0 < length calls)
run_rounds-calls_in_five_example =
    run_rounds-calls_in_five sort_peers sort_peers-IsSortSlice module_start lonely_rounds
      (omega arith) (omega arith)
      (
        round_at-IsLonely (1 * second),
        (
          round_at-IsLonely (12 * second),
          (
            round_at-IsLonely (23 * second),
            (round_at-IsLonely (34 * second), (round_at-IsLonely (45 * second), tt)),
          ),
        ),
      )
