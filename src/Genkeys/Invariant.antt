-- ===== src/Genkeys/Invariant.antt =====
-- What holds of the process between two moves, and that a goroutine's round keeps it.
use Prim.Native.Nat.{ℕ, ◌≤◌, ◌<◌, min}
use popura.Base.{
  ◌≡◌, refl, inl, inr, Option, none, some, List, [], ◌∷◌, arith, length, ltb, get_elem?, set, All,
  All-get_elem?, All-set, All-mono, Option-cases, tests, Bool-cases,
}
use popura.Base.Panic.{value, ◌>>=◌, Returns, Returns-mono}
use popura.Base.Text.{Bytes}
use popura.Genkeys.{KeySet, Worker, Process, is_better, do_keys_round, generate_at}
use popura.Genkeys.Order.{to_number, is_better_lem}
use popura.Genkeys.Least.{
  IsKey, IsKeySet, number, worst_number, pending, least_pending, least, least_pending-le_worst,
  least_pending-set,
}

abbrev pub IsSending : Option KeySet → Type 0
IsSending none = Unit {0}
IsSending (some k) = IsKeySet k

abbrev pub WorkerInv : ℕ → Worker → Type 0
WorkerInv bound w = IsKey w.best_key × IsSending w.sending × (bound ≤ to_number w.best_key)

-- Each printed key is better than the one printed before it; the newest stands first.
abbrev pub IsImproving : List KeySet → Type 0
IsImproving [] = Unit {0}
IsImproving (k ∷ []) = Unit {0}
IsImproving (k ∷ j ∷ ks) = (number k < number j) × IsImproving (j ∷ ks)

-- `currentBest` is the last key printed, and is empty before the first.
abbrev pub IsLastPrinted : Bytes → List KeySet → Type 0
IsLastPrinted best [] = best ≡ []
IsLastPrinted best (k ∷ ks) = (best ≡ k.pub_key) × IsKeySet k

pub record Inv (s : Process) : Type 0 where
  pub workers_ok : All (WorkerInv (least s)) s.workers
  pub channel_ok : All IsKeySet s.channel
  pub capacity : length s.channel ≤ s.threads
  pub last_printed : IsLastPrinted s.current_best s.printed
  pub improving : IsImproving s.printed

-- One step keeps the invariant and never raises the least key.
pub record Keeps (s : Process) (s' : Process) : Type 0 where
  pub inv : Inv s'
  pub falls : least s' ≤ least s
  pub same_threads : s'.threads ≡ s.threads

pub compare_keys :
    (old new : Bytes)
    → IsKey old
    → IsKey new
    → is_better old new ≡ value (ltb (to_number new) (to_number old))
compare_keys old new h k = is_better_lem old new (omega arith) h.0 k.0

pub lower_bound : {a b : ℕ} (ws : List Worker) → b ≤ a → All (WorkerInv a) ws → All (WorkerInv b) ws
lower_bound {a} {b} ws h = All-mono (WorkerInv a) (WorkerInv b) ws lower
  where
    lower : (w : Worker) → WorkerInv a w → WorkerInv b w
    lower w (key, sends, above) = (key, sends, omega arith)

pub Keeps-refl : (s : Process) → Inv s → Keeps s s
Keeps-refl s v = record { inv = v; falls = omega arith; same_threads = refl }

-- Goroutine i is replaced by one that holds no more than its own new key.
replace-Keeps :
    (s : Process) (i : ℕ) (w w' : Worker)
    → Inv s
    → get_elem? s.workers i ≡ some w
    → IsKey w'.best_key
    → IsSending w'.sending
    → pending w ≡ worst_number
    → min (pending w') (least s) ≤ to_number w'.best_key
    → Keeps s (record s { workers = set s.workers i w' })
      × (least (record s { workers = set s.workers i w' }) ≤ to_number w'.best_key)
unfolding least
replace-Keeps s i w w' v found key sends idle holds = (
  record {
    inv = record {
      workers_ok =
          All-set _ s.workers i w' (key, sends, reach) (lower_bound s.workers falls v.workers_ok);
      channel_ok = v.channel_ok;
      capacity = v.capacity;
      last_printed = v.last_printed;
      improving = v.improving;
    };
    falls = falls;
    same_threads = refl;
  },
  reach,
)
  where
    swap :
        min (pending w) (least_pending (set s.workers i w'))
        ≡ min (pending w') (least_pending s.workers)
    swap = least_pending-set s.workers i w w' found

    falls : least (record s { workers = set s.workers i w' }) ≤ least s
    falls = omega (arith, swap, least_pending-le_worst (set s.workers i w'))

    reach : least (record s { workers = set s.workers i w' }) ≤ to_number w'.best_key
    reach = omega (arith, swap, least_pending-le_worst (set s.workers i w'))

round-Keeps :
    (s : Process) (i : ℕ) (w : Worker) (k : KeySet)
    → Inv s
    → IsKeySet k
    → get_elem? s.workers i ≡ some w
    → w.sending ≡ none
    → Returns
        (do_keys_round w (some k) >>= λ w'. value (record s { workers = set s.workers i w' }))
        (λ s'. Keeps s s' × (least s' ≤ number k))
unfolding do_keys_round pending
round-Keeps s i w k v key found idle =
    rw (compare_keys w.best_key k.pub_key own.0 key)
      (elim (Bool-cases (ltb (number k) (to_number w.best_key))) [
        | inl better ↦ rw better (
            replace-Keeps s i w (record w { best_key = k.pub_key; sending = some k }) v found key
              key none_held (omega arith))
        | inr worse ↦ rw worse (kept, omega (tests, kept.falls, own.2))
      ])
  where
    own : WorkerInv (least s) w
    own = All-get_elem? _ s.workers i found v.workers_ok

    none_held : pending w ≡ worst_number
    none_held = rw idle

    kept : Keeps s (record s { workers = set s.workers i w })
    kept = (replace-Keeps s i w w v found own.0 own.1 none_held (omega (arith, own.2))).0

pub generate_at-Keeps :
    (s : Process) (i : ℕ) (w : Worker) (k : KeySet)
    → Inv s
    → IsKeySet k
    → get_elem? s.workers i ≡ some w
    → Returns
        (generate_at s i w (some k))
        (λ s'. Keeps s s' × (w.sending ≡ none → least s' ≤ number k))
unfolding generate_at
generate_at-Keeps s i w k v key found = elim (Option-cases w.sending) [
  | inr (j, e) ↦ rw (e, generate_at) (Keeps-refl s v, λ h. absurd (cc))
  | inl e ↦
      rw (e, generate_at)
        (Returns-mono _ (λ s'. Keeps s s' × (least s' ≤ number k)) _ (λ s' h. (h.0, λ _. h.1))
          (round-Keeps s i w k v key found e))
]
