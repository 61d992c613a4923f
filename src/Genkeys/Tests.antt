-- ===== src/Genkeys/Tests.antt =====
-- Runs of the key search, and its theorems at concrete keys.
use popura.Base.{
  ℕ, ◌+◌, ◌≤◌, ◌<◌, ◌≡◌, refl, none, some, List, [], ◌∷◌, arith, ltb, length, replicate, All,
  All-replicate,
}
use popura.Base.Panic.{value, panic, index_out_of_range, Returns}
use popura.Base.Text.{Bytes}
use popura.Genkeys.{KeySet, Process, Move, generate, send, receive, is_better, step, run, start}
use popura.Genkeys.Least.{IsKey, number}
use popura.Genkeys.Invariant.{IsImproving, IsLastPrinted}
use popura.Genkeys.Lows.{lows, count, held}
use popura.Genkeys.Refine.{run_takes, run-start-lows}
use popura.Genkeys.Search.{IsValidMove, run_generates, run-start_improves}
use popura.Genkeys.Found.{IsLeastOf, search_finds_least}

abbrev key_of : ℕ → Bytes
key_of n = n ∷ replicate 31 7

abbrev key_set : ℕ → KeySet
key_set n = record { priv = 1 ∷ []; pub_key = key_of n }

key_of-IsKey : (n : ℕ) → n < 256 → IsKey (key_of n)
key_of-IsKey n h = ((h, All-replicate (λ b. b < 256) 31 7 (omega arith)), refl)

is_better_short : is_better (2 ∷ 9 ∷ []) (2 ∷ []) ≡ panic index_out_of_range
unfolding is_better
is_better_short = refl

abbrev schedule : List Move
schedule =
    generate 0 (some (key_set 9))
    ∷ generate 1 (some (key_set 5))
    ∷ send 1
    ∷ generate 1 (some (key_set 6))
    ∷ send 0
    ∷ receive
    ∷ receive
    ∷ []

schedule-IsValid : All IsValidMove schedule
schedule-IsValid = (
  key_of-IsKey 9 (omega arith),
  (key_of-IsKey 5 (omega arith), (tt, (key_of-IsKey 6 (omega arith), (tt, (tt, (tt, tt)))))),
)

abbrev drained : Process
drained = record {
  threads = 2;
  workers =
      record { best_key = key_of 9; sending = none }
      ∷ record { best_key = key_of 5; sending = none }
      ∷ [];
  channel = [];
  current_best = key_of 5;
  printed = key_set 5 ∷ [];
}

schedule_drains : run (start 2) schedule ≡ value drained
unfolding run step start
schedule_drains = refl

run-start_improves_example :
    Returns
      (run (start 2) schedule)
      (λ s. (length s.channel ≤ 2) × IsImproving s.printed × IsLastPrinted s.current_best s.printed)
run-start_improves_example = run-start_improves 2 schedule schedule-IsValid

search_finds_least_example : IsLeastOf (key_of 5) (run_generates (start 2) schedule)
search_finds_least_example =
    search_finds_least 2 schedule drained schedule-IsValid schedule_drains
      (refl, (refl, (refl, tt)))

-- The key 9 reaches the channel second and is dropped.
schedule_takes : run_takes (start 2) schedule [] ≡ key_set 9 ∷ key_set 5 ∷ []
unfolding run_takes step start
schedule_takes = refl

run-start-lows_example : Returns (run (start 2) schedule) (λ s.
    (s.printed ≡ lows (run_takes (start 2) schedule []))
    × (count (λ k. ltb (number k) 9) (run_takes (start 2) schedule [])
          + (count (λ k. ltb (number k) 9) s.channel
              + count (λ k. ltb (number k) 9) (held s.workers))
        ≤ count (λ k. ltb (number k) 9) (run_generates (start 2) schedule)))
run-start-lows_example = run-start-lows 2 schedule (λ k. ltb (number k) 9) schedule-IsValid
