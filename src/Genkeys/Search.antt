-- ===== src/Genkeys/Search.antt =====
-- The search for keys under every schedule of the goroutines.
use Prim.Native.Nat.{ℕ, ◌≤◌}
use mathlib.Core.Path.{subst}
use popura.Base.{
  ◌≡◌, refl, ◌∙◌, Option, inl, inr, none, some, List, [], ◌∷◌, ◌++◌, arith, length, get_elem?, All,
  All-append, All-replicate, All-mono, Option-cases,
}
use popura.Base.Panic.{value, panic, Returns, Returns-mono, Returns-value, Returns-at}
use popura.Base.Text.{Bytes}
use popura.Genkeys.{
  KeySet, Worker, Process, Move, generate, send, receive, main_round, receive_from, generate_at,
  step, run, start, new_worker,
}
use popura.Genkeys.Least.{
  IsKeySet, number, worst_number, best_number, least_key, pending, least_pending, least,
  to_number-le_worst, worst_key-IsKey, to_number-worst_key,
}
use popura.Genkeys.Invariant.{
  WorkerInv, IsLastPrinted, IsImproving, Inv, Keeps, Keeps-refl, generate_at-Keeps,
}
use popura.Genkeys.Channel.{send_at-Keeps, main_round-Keeps, best_number_lem}

-- What `ed25519.GenerateKey` gives in a move is a key pair with a 32-byte public key.
abbrev pub IsValidMove : Move → Type 0
IsValidMove (generate i none) = ⊥
IsValidMove (generate i (some k)) = IsKeySet k
IsValidMove _ = Unit {0}

-- A goroutine that waits to send generates nothing.
abbrev pub fresh : Option KeySet → KeySet → List KeySet
fresh none k = k ∷ []
fresh (some j) k = []

-- The key that a move generates.
unfoldable pub generates : Process → Move → List KeySet
generates s (generate i (some k)) = elim (get_elem? s.workers i) [
  | none ↦ []
  | some w ↦ fresh w.sending k
]
generates s _ = []

-- All keys that a run generates.
unfoldable pub run_generates : Process → List Move → List KeySet
run_generates s [] = []
run_generates s (m ∷ ms) =
    generates s m ++ (elim (step s m) [ value s' ↦ run_generates s' ms | panic e ↦ [] ])

-- What a move does: the invariant is kept, and nothing held exceeds what was generated.
abbrev pub After : Process → List KeySet → Process → Type 0
After s ks s' = Keeps s s' × All (λ k. least s' ≤ number k) ks

fresh-All :
    (o : Option KeySet) (k : KeySet) (b : ℕ)
    → (o ≡ none → b ≤ number k)
    → All (λ j. b ≤ number j) (fresh o k)
fresh-All none k b h = (h refl, tt)
fresh-All (some j) k b h = tt

receive-After :
    (s : Process) (ks : List KeySet)
    → Inv s
    → s.channel ≡ ks
    → Returns (receive_from s ks) (After s [])
unfolding receive_from
receive-After s [] v e = (Keeps-refl s v, tt)
receive-After s (k ∷ ks) v e =
    Returns-mono (main_round (record s { channel = ks }) k) (Keeps s) (After s [])
      (λ s' kept. (kept, tt)) (main_round-Keeps s k ks v e s.printed refl)

pub step-After :
    (s : Process) (m : Move) → Inv s → IsValidMove m → Returns (step s m) (After s (generates s m))
unfolding step generates
step-After s (generate i none) v ok = absurd ok
step-After s (generate i (some k)) v ok = elim (Option-cases (get_elem? s.workers i)) [
  | inl e ↦ rw (e, step, generates) (Keeps-refl s v, tt)
  | inr (w, e) ↦
      rw (e, step, generates)
        (Returns-mono (generate_at s i w (some k))
          (λ s'. Keeps s s' × (w.sending ≡ none → least s' ≤ number k))
          (After s (fresh w.sending k)) (λ s' h. (h.0, fresh-All w.sending k (least s') h.1))
          (generate_at-Keeps s i w k v ok e))
]
step-After s (send i) v ok = elim (Option-cases (get_elem? s.workers i)) [
  | inl e ↦ rw (e, step) (Keeps-refl s v, tt)
  | inr (w, e) ↦ rw (e, step) (send_at-Keeps s i w v e, tt)
]
step-After s receive v ok = receive-After s s.channel v refl

After-cons :
    (s t u : Process) (ks js : List KeySet) → After s ks t → After t js u → After s (ks ++ js) u
After-cons s t u ks js (kept, low) (kept', low') = (
  record {
    inv = kept'.inv;
    falls = omega (arith, kept.falls, kept'.falls);
    same_threads = kept'.same_threads ∙ kept.same_threads;
  },
  All-append _ ks js (All-mono _ _ ks (λ k h. lower k h) low) low',
)
  where
    lower : (k : KeySet) → least t ≤ number k → least u ≤ number k
    lower k h = omega (arith, h, kept'.falls)

run-After :
    (s : Process) (ms : List Move)
    → Inv s
    → All IsValidMove ms
    → Returns (run s ms) (After s (run_generates s ms))
unfolding run run_generates
run-After s [] v ok = (Keeps-refl s v, tt)
run-After s (m ∷ ms) v ok =
    let (t, e, kept) = Returns-value (step s m) (After s (generates s m)) (step-After s m v ok.0) in
    rw e (
      Returns-mono (run t ms) (After t (run_generates t ms))
        (After s (generates s m ++ run_generates t ms))
        (λ u. After-cons s t u (generates s m) (run_generates t ms) kept)
        (run-After t ms kept.0.inv ok.1))

pub start-Inv : (threads : ℕ) → Inv (start threads)
unfolding start least best_number
start-Inv threads = record {
  workers_ok =
      All-replicate (WorkerInv (least (start threads))) threads new_worker
        (worst_key-IsKey, tt, omega (arith, to_number-worst_key));
  channel_ok = tt;
  capacity = omega arith;
  last_printed = refl;
  improving = tt;
}

-- With 32-byte keys no run of the process panics, whatever the order of the moves. The channel
-- never holds more than `threads` keys, each key that `main` prints is better than the one before
-- it, and `currentBest` is the last one printed.
pub run-start_improves :
    (threads : ℕ) (ms : List Move)
    → All IsValidMove ms
    → Returns (run (start threads) ms) (λ s.
      (length s.channel ≤ threads) × IsImproving s.printed × IsLastPrinted s.current_best s.printed)
unfolding start
run-start_improves threads ms ok =
    Returns-mono (run (start threads) ms) (After (start threads) (run_generates (start threads) ms))
      _
      (λ s (kept, low). (
        omega (arith, kept.inv.capacity, kept.same_threads),
        kept.inv.improving,
        kept.inv.last_printed,
      ))
      (run-After (start threads) ms (start-Inv threads) ok)

-- No key waits in the channel or at a goroutine.
abbrev pub IsDrained : Process → Type 0
IsDrained s = (s.channel ≡ []) × All (λ w. w.sending ≡ none) s.workers

least_pending_idle :
    (ws : List Worker) → All (λ w. w.sending ≡ none) ws → least_pending ws ≡ worst_number
unfolding least_pending pending
least_pending_idle [] h = refl
least_pending_idle (w ∷ ws) (e, h) = rw (e, pending) (omega (arith, least_pending_idle ws h))

best_number-le_worst :
    (best : Bytes) (ks : List KeySet) → IsLastPrinted best ks → best_number best ≤ worst_number
unfolding best_number
best_number-le_worst best [] e = rw (e, best_number) (omega arith)
best_number-le_worst best (k ∷ ks) (e, key) =
    rw e (omega (arith, best_number_lem k.pub_key key, to_number-le_worst k.pub_key key))

least_drained : (s : Process) → Inv s → IsDrained s → least s ≡ best_number s.current_best
unfolding least least_key
least_drained s v (empty, idle) =
    let held : least_key s.channel ≡ worst_number = rw empty in
    omega (
      arith,
      held,
      least_pending_idle s.workers idle,
      best_number-le_worst s.current_best s.printed v.last_printed,
    )

-- Once a run has drained, `currentBest` read as a number, or while it is empty 32 bytes of 0xff, is
-- a lower bound of all the keys that any goroutine generated.
pub search_bounds :
    (threads : ℕ) (ms : List Move) (s : Process)
    → All IsValidMove ms
    → run (start threads) ms ≡ value s
    → IsDrained s
    → All (λ k. best_number s.current_best ≤ number k) (run_generates (start threads) ms)
search_bounds threads ms s ok e drained =
    let (kept, low) =
      Returns-at (After (start threads) (run_generates (start threads) ms)) e
        (run-After (start threads) ms (start-Inv threads) ok) in
    let e' = least_drained s kept.inv drained in
    subst (λ b. All (λ k. b ≤ number k) (run_generates (start threads) ms)) e' low
