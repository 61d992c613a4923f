-- ===== src/Genkeys/Refine.antt =====
-- cmd/genkeys/main.go: what `main` prints of the keys that it takes from the channel.
use Prim.Native.Nat.{ℕ, ◌≤◌}
use popura.Base.{
  zero, suc, replicate, ◌+◌, ◌≡◌, refl, ap, Bool, inl, inr, none, some, List, [], ◌∷◌, ◌++◌, arith,
  length, ltb, get_elem?, All, Option-cases, All-get_elem?, Bool-cases,
}
use popura.Base.Panic.{value, panic, Returns, Returns-mono, Returns-value, Returns-at}
use popura.Genkeys.{
  KeySet, Worker, Process, Move, generate, send, receive, generate_at, send_at, do_keys_round, step,
  run, start, new_worker,
}
use popura.Genkeys.Order.{to_number}
use popura.Genkeys.Least.{IsKey, IsKeySet, number}
use popura.Genkeys.Invariant.{Inv, compare_keys}
use popura.Genkeys.Search.{
  IsValidMove, fresh, generates, run_generates, After, step-After, start-Inv,
}
use popura.Genkeys.Lows.{lows, count, count-append, waiting, held, count-held-set}
use popura.Genkeys.Taken.{takes, on_the_way, Moves, receive-Moves}

-- The keys that `main` takes in a run, in front of those taken before it: the newest stands first.
unfoldable pub run_takes : Process → List Move → List KeySet → List KeySet
run_takes s [] taken = taken
run_takes s (m ∷ ms) taken = elim (step s m) [
  | value s' ↦ run_takes s' ms (takes s m ++ taken)
  | panic e ↦ taken
]

generate-Moves :
    (p : KeySet → Bool) (taken : List KeySet) (s : Process) (i : ℕ) (w : Worker) (k : KeySet)
    → get_elem? s.workers i ≡ some w
    → s.printed ≡ lows taken
    → IsKey w.best_key
    → IsKeySet k
    → Returns (generate_at s i w (some k)) (λ s'. Moves p taken s (fresh w.sending k) s' [])
unfolding generate_at do_keys_round count
generate-Moves p taken s i w k found h best key = elim (Option-cases w.sending) [
  | inr (j, e) ↦ rw (e, generate_at) (h, omega arith)
  | inl e ↦
      rw (e, generate_at)
        (let idle : count p (waiting w.sending) ≡ count p [] = ap (λ o. count p (waiting o)) e in
          rw (compare_keys w.best_key k.pub_key best key)
            (elim (Bool-cases (ltb (number k) (to_number w.best_key))) [
              | inl better ↦ rw better (
                h,
                omega (
                  arith,
                  idle,
                  count-held-set p s.workers i w
                      (record w { best_key = k.pub_key; sending = some k }) found,
                ),
              )
              | inr worse ↦
                  rw worse (h, omega (arith, idle, count-held-set p s.workers i w w found))
            ]))
]

send-Moves :
    (p : KeySet → Bool) (taken : List KeySet) (s : Process) (i : ℕ) (w : Worker)
    → get_elem? s.workers i ≡ some w
    → s.printed ≡ lows taken
    → Moves p taken s [] (send_at s i w) []
unfolding send_at count
send-Moves p taken s i w found h = elim (Option-cases w.sending) [
  | inl e ↦ rw (e, send_at) (h, omega arith)
  | inr (k, e) ↦
      let had : count p (waiting w.sending) ≡ count p (k ∷ []) = ap (λ o. count p (waiting o)) e in
      let sent = count-append p s.channel (k ∷ []) in
      let given = count-held-set p s.workers i w (record w { sending = none }) found in
      elim (Bool-cases (ltb (length s.channel) s.threads)) [
        | inl room ↦ rw (e, send_at) (rw room (h, omega (arith, had, sent, given)))
        | inr full ↦ rw (e, send_at) (rw full (h, omega arith))
      ]
]

step-Moves :
    (p : KeySet → Bool) (taken : List KeySet) (s : Process) (m : Move)
    → Inv s
    → IsValidMove m
    → s.printed ≡ lows taken
    → Returns (step s m) (λ s'. Moves p taken s (generates s m) s' (takes s m))
unfolding step generates
step-Moves p taken s (generate i none) v ok h = absurd ok
step-Moves p taken s (generate i (some k)) v ok h = elim (Option-cases (get_elem? s.workers i)) [
  | inl e ↦ rw (e, step, generates) (h, omega arith)
  | inr (w, e) ↦
      rw (e, step, generates)
        (generate-Moves p taken s i w k e h (All-get_elem? _ s.workers i e v.workers_ok).0 ok)
]
step-Moves p taken s (send i) v ok h = elim (Option-cases (get_elem? s.workers i)) [
  | inl e ↦ rw (e, step) (h, omega arith)
  | inr (w, e) ↦ rw (e, step) (send-Moves p taken s i w e h)
]
step-Moves p taken s receive v ok h = receive-Moves p taken s s.channel v refl h

-- What a run does, by the keys taken before it and after it.
abbrev Runs : (KeySet → Bool) → List KeySet → Process → List KeySet → Process → List KeySet → Type 0
Runs p taken s ks s' taken' =
    (s'.printed ≡ lows taken')
    × (count p taken' + on_the_way p s' ≤ count p ks + (count p taken + on_the_way p s))

run_takes-cons :
    (s t : Process) (m : Move) (ms : List Move) (taken : List KeySet)
    → step s m ≡ value t
    → run_takes s (m ∷ ms) taken ≡ run_takes t ms (takes s m ++ taken)
unfolding run_takes
run_takes-cons s t m ms taken e = rw (e, run_takes) refl

run_done :
    (p : KeySet → Bool) (taken : List KeySet) (s : Process)
    → s.printed ≡ lows taken
    → Runs p taken s [] s (run_takes s [] taken)
unfolding run_takes count
run_done p taken s h = (h, omega arith)

run-Runs :
    (p : KeySet → Bool) (taken : List KeySet) (s : Process) (ms : List Move)
    → Inv s
    → All IsValidMove ms
    → s.printed ≡ lows taken
    → Returns (run s ms) (λ s'. Runs p taken s (run_generates s ms) s' (run_takes s ms taken))
unfolding run run_generates count
run-Runs p taken s [] v ok h = run_done p taken s h
run-Runs p taken s (m ∷ ms) v ok h =
    let (t, e, moved) =
      Returns-value (step s m) (λ s'. Moves p taken s (generates s m) s' (takes s m))
        (step-Moves p taken s m v ok.0 h) in
    let kept = Returns-at (After s (generates s m)) e (step-After s m v ok.0) in
    let new = takes s m ++ taken in
    rw (run_takes-cons s t m ms taken e, e)
      (Returns-mono (run t ms) (λ u. Runs p new t (run_generates t ms) u (run_takes t ms new))
        (λ u. Runs p taken s (generates s m ++ run_generates t ms) u (run_takes t ms new))
        (λ u r. (
          r.0,
          omega (
            arith,
            r.1,
            moved.1,
            count-append p (takes s m) taken,
            count-append p (generates s m) (run_generates t ms),
          ),
        ))
        (run-Runs p new t ms kept.0.inv ok.1 moved.0))

count-held-start : (p : KeySet → Bool) (n : ℕ) → count p (held (replicate n new_worker)) ≡ 0
unfolding count held
count-held-start p zero = refl
count-held-start p (suc n) = count-held-start p n

-- Under every schedule of the goroutines, with 32-byte keys: what `main` has printed are, of the keys
-- that it took from the channel, exactly those that were lower than all that it took before, in
-- their order. And of keys with any property, at most as many were taken or wait in the channel or
-- at a goroutine as were generated: no key is made up or doubled.
pub run-start-lows :
    (threads : ℕ) (ms : List Move) (p : KeySet → Bool)
    → All IsValidMove ms
    → Returns (run (start threads) ms) (λ s.
      (s.printed ≡ lows (run_takes (start threads) ms []))
      × (count p (run_takes (start threads) ms []) + (count p s.channel + count p (held s.workers))
          ≤ count p (run_generates (start threads) ms)))
unfolding start count lows
run-start-lows threads ms p ok =
    Returns-mono (run (start threads) ms) _ _
      (λ s r. (r.0, omega (arith, r.1, count-held-start p threads)))
      (run-Runs p [] (start threads) ms (start-Inv threads) ok refl)
