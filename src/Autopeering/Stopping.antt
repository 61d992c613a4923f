-- ===== src/Autopeering/Stopping.antt =====
-- How many loops a module has going, and what `Stop` does to them.
use popura.Base.{ℕ, suc, ◌+◌, ◌≤◌, ◌<◌, ◌≡◌, refl, List, [], ◌∷◌, arith, All}
use popura.Autopeering.Lifecycle.{
  Loop, Event, start_called, stop_called, round_ends, timer_fires, stale_fires, new_loop, stop,
  waiting, step, run,
}

-- The rounds that run and those that a timer will start.
abbrev pub alive : Loop → ℕ
alive ap = ap.running + ap.stale + waiting ap.timer

-- How often `Start` is called.
abbrev pub starts : List Event → ℕ
starts [] = 0
starts (start_called ∷ es) = suc (starts es)
starts (_ ∷ es) = starts es

abbrev pub IsNotStart : Event → Type 0
IsNotStart start_called = ⊥
IsNotStart _ = Unit {0}

-- Neither `Start` nor `Stop` is called.
abbrev pub IsInternal : Event → Type 0
IsInternal start_called = ⊥
IsInternal stop_called = ⊥
IsInternal _ = Unit {0}

alive-step : (ap : Loop) (e : Event) → alive (step ap e) ≤ alive ap + starts (e ∷ [])
unfolding step
alive-step ap start_called = ground arith
alive-step ap stop_called = ground arith
alive-step ap round_ends = ground arith
alive-step ap timer_fires = ground arith
alive-step ap stale_fires = ground arith

starts-cons : (e : Event) (es : List Event) → starts (e ∷ es) ≡ starts (e ∷ []) + starts es
starts-cons start_called es = omega arith
starts-cons stop_called es = omega arith
starts-cons round_ends es = omega arith
starts-cons timer_fires es = omega arith
starts-cons stale_fires es = omega arith

alive-run : (ap : Loop) (es : List Event) → alive (run ap es) ≤ alive ap + starts es
unfolding run
alive-run ap [] = omega arith
alive-run ap (e ∷ es) = omega (arith, alive-run (step ap e) es, alive-step ap e, starts-cons e es)

-- However calls, rounds and timers interleave, at most as many rounds run at one time as `Start` has
-- been called.
running-le-starts : (es : List Event) → (run new_loop es).running ≤ starts es
unfolding new_loop
running-le-starts es = omega (arith, alive-run new_loop es)

step_internal : (ap : Loop) (e : Event) → IsInternal e → alive (step ap e) ≡ alive ap
unfolding step
step_internal ap start_called i = absurd i
step_internal ap stop_called i = absurd i
step_internal ap round_ends i = ground arith
step_internal ap timer_fires i = ground arith
step_internal ap stale_fires i = ground arith

pub run_internal : (ap : Loop) (es : List Event) → All IsInternal es → alive (run ap es) ≡ alive ap
unfolding run
run_internal ap [] i = refl
run_internal ap (e ∷ es) i = omega (arith, run_internal (step ap e) es i.1, step_internal ap e i.0)

-- During a round `Stop` does not end the loop: after any rounds and timers there is still a round
-- running or a timer that will start one, until `Stop` is called once more.
pub stop-in_round :
    (ap : Loop) (es : List Event)
    → 0 < ap.running
    → All IsInternal es
    → 0 < alive (run (stop ap) es)
unfolding stop
stop-in_round ap es r i = omega (arith, run_internal (stop ap) es i)

-- One loop has at most one timer, and no timer is forgotten while there is one loop.
step-stale :
    (ap : Loop) (e : Event) → IsInternal e → alive ap ≤ 1 → ap.stale ≡ 0 → (step ap e).stale ≡ 0
unfolding step
step-stale ap start_called i h s = absurd i
step-stale ap stop_called i h s = absurd i
step-stale ap round_ends i h s = ground arith
step-stale ap timer_fires i h s = ground arith
step-stale ap stale_fires i h s = ground arith

pub run-stale :
    (ap : Loop) (es : List Event)
    → All IsInternal es
    → alive ap ≤ 1
    → ap.stale ≡ 0
    → (run ap es).stale ≡ 0
unfolding run
run-stale ap [] i h s = s
run-stale ap (e ∷ es) i h s =
    run-stale (step ap e) es i.1 (omega (arith, step_internal ap e i.0)) (step-stale ap e i.0 h s)
