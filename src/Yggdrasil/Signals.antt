-- ===== src/Yggdrasil/Signals.antt =====
-- cmd/yggdrasil/main.go: the signals that the node waits for.
use popura.Base.{
  true, false, ◌≡◌, refl, ap, ◌∙◌, ◌⊎◌, inl, inr, List, [], ◌∷◌, ◌++◌, All, Bool-cases,
}
use popura.Base.Panic.{value, panic, blocked}
use popura.Yggdrasil.Config.{Signal, interrupt, terminate, service_stops, ignored}
use popura.Yggdrasil.{ends_context, wait_for_end}

-- One of the signals is an interrupt, SIGTERM or the stop of the service.
abbrev pub HasEnd : List Signal → Type 0
HasEnd signals =
    (before later : List Signal) × (s : Signal) × (signals ≡ before ++ (s ∷ later))
    × ((s ≡ interrupt) ⊎ (s ≡ terminate) ⊎ (s ≡ service_stops))

wait_for_end-append :
    (before later : List Signal) (s : Signal)
    → ends_context s ≡ true
    → wait_for_end (before ++ (s ∷ later)) ≡ value tt
unfolding wait_for_end
wait_for_end-append [] later s e = rw (e, wait_for_end) refl
wait_for_end-append (t ∷ before) later s e = elim (Bool-cases (ends_context t)) [
  | inl h ↦ rw (h, wait_for_end) refl
  | inr h ↦ rw (h, wait_for_end) (wait_for_end-append before later s e)
]

ends_context-true :
    (s : Signal) → (s ≡ interrupt) ⊎ (s ≡ terminate) ⊎ (s ≡ service_stops) → ends_context s ≡ true
unfolding ends_context
ends_context-true s (inl e) = rw e refl
ends_context-true s (inr (inl e)) = rw e refl
ends_context-true s (inr (inr e)) = rw e refl

pub wait_for_end-HasEnd : (signals : List Signal) → HasEnd signals → wait_for_end signals ≡ value tt
wait_for_end-HasEnd signals (before, later, s, e, h) =
    ap wait_for_end e ∙ wait_for_end-append before later s (ends_context-true s h)

HasEnd-cons : (s : Signal) (signals : List Signal) → HasEnd signals → HasEnd (s ∷ signals)
HasEnd-cons s signals (before, later, t, e, h) = (s ∷ before, later, t, ap (◌∷◌ s) e, h)

-- The wait returns only where there is such a signal.
pub HasEnd-of_wait : (signals : List Signal) → wait_for_end signals ≡ value tt → HasEnd signals
unfolding wait_for_end ends_context
HasEnd-of_wait [] h = absurd cc
HasEnd-of_wait (interrupt ∷ signals) h = ([], signals, interrupt, refl, inl refl)
HasEnd-of_wait (terminate ∷ signals) h = ([], signals, terminate, refl, inr (inl refl))
HasEnd-of_wait (service_stops ∷ signals) h = ([], signals, service_stops, refl, inr (inr refl))
HasEnd-of_wait (ignored ∷ signals) h = HasEnd-cons ignored signals (HasEnd-of_wait signals h)

-- Without such a signal the wait has no end.
pub wait_for_end_blocks :
    (signals : List Signal)
    → All (λ s. ends_context s ≡ false) signals
    → wait_for_end signals ≡ panic blocked
unfolding wait_for_end
wait_for_end_blocks [] h = refl
wait_for_end_blocks (s ∷ signals) h = rw (h.0, wait_for_end) (wait_for_end_blocks signals h.1)
