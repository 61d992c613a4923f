-- ===== src/Genkeys/Channel.antt =====
-- A send and a round of the loop of `main` keep the invariant.
use Prim.Native.Nat.{ℕ, ◌≤◌, ◌<◌, min}
use popura.Base.{
  ◌≡◌, refl, ap, ◌∙◌, Bool, false, true, ◌||◌, ◌==◌, inl, inr, none, some, List, [], ◌∷◌, ◌++◌,
  arith, length, length-append, ltb, get_elem?, set, All, All-get_elem?, All-set, All-append,
  Option-cases, tests, Bool-cases,
}
use popura.Base.Panic.{value, Returns}
use popura.Base.Text.{Bytes}
use popura.Genkeys.{KeySet, Worker, Process, is_better, main_round, send_at}
use popura.Genkeys.Order.{to_number}
use popura.Genkeys.Least.{
  IsKey, IsKeySet, number, worst_number, best_number, to_number-le_worst, least_key, pending,
  least_pending, least, least_key-append, least_pending-le_worst, least_pending-set,
}
use popura.Genkeys.Invariant.{
  WorkerInv, IsLastPrinted, IsImproving, Inv, Keeps, Keeps-refl, compare_keys, lower_bound,
}

-- The key that goroutine i waits to send goes to the channel.
enqueue-Keeps :
    (s : Process) (i : ℕ) (w : Worker) (k : KeySet)
    → Inv s
    → get_elem? s.workers i ≡ some w
    → w.sending ≡ some k
    → length s.channel < s.threads
    → Keeps s (record s {
      channel = s.channel ++ (k ∷ []);
      workers = set s.workers i (record w { sending = none });
    })
unfolding least pending
enqueue-Keeps s i w k v found e room = record {
  inv = record {
    workers_ok =
        All-set _ s.workers i _ (own.0, tt, omega (arith, own.2, falls))
          (lower_bound s.workers falls v.workers_ok);
    channel_ok = All-append _ s.channel (k ∷ []) v.channel_ok (sent, tt);
    capacity = rw length-append (omega arith);
    last_printed = v.last_printed;
    improving = v.improving;
  };
  falls = falls;
  same_threads = refl;
}
  where
    own : WorkerInv (least s) w
    own = All-get_elem? _ s.workers i found v.workers_ok

    sent : IsKeySet k
    sent = rw e at own.1

    ws : List Worker
    ws = set s.workers i (record w { sending = none })

    holds : pending w ≡ number k
    holds = rw e

    swap : min (pending w) (least_pending ws) ≡ min worst_number (least_pending s.workers)
    swap = least_pending-set s.workers i w (record w { sending = none }) found

    falls :
        min
          (best_number s.current_best)
          (min (least_key (s.channel ++ (k ∷ []))) (least_pending ws))
        ≤ least s
    falls =
        omega (arith, holds, swap, least_key-append s.channel k, least_pending-le_worst s.workers)

pub send_at-Keeps :
    (s : Process) (i : ℕ) (w : Worker)
    → Inv s
    → get_elem? s.workers i ≡ some w
    → Keeps s (send_at s i w)
unfolding send_at
send_at-Keeps s i w v found = elim (Option-cases w.sending) [
  | inl e ↦ rw (e, send_at) (Keeps-refl s v)
  | inr (k, e) ↦ elim (Bool-cases (ltb (length s.channel) s.threads)) [
    | inl room ↦ rw (e, send_at) (rw room (enqueue-Keeps s i w k v found e (omega tests)))
    | inr full ↦ rw (e, send_at) (rw full (Keeps-refl s v))
  ]
]

pub best_number_lem : (k : Bytes) → IsKey k → best_number k ≡ to_number k
unfolding best_number
best_number_lem [] h = absurd (omega arith)
best_number_lem (b ∷ k) h = refl

pub main_round_accepts :
    (s : Process) (k : KeySet) (b : Bool)
    → is_better s.current_best k.pub_key ≡ value b
    → (b || length s.current_best == 0) ≡ true
    → main_round s k ≡ value (record s { current_best = k.pub_key; printed = k ∷ s.printed })
unfolding main_round
main_round_accepts s k b h t = rw h (rw t)

pub main_round_rejects :
    (s : Process) (k : KeySet) (b : Bool)
    → is_better s.current_best k.pub_key ≡ value b
    → (b || length s.current_best == 0) ≡ false
    → main_round s k ≡ value s
unfolding main_round
main_round_rejects s k b h t = rw h (rw t)

module _ (s : Process) (k : KeySet) (rest : List KeySet) (v : Inv s)
    (e : s.channel ≡ k ∷ rest) where
  received : IsKeySet k × All IsKeySet rest
  received = rw e at v.channel_ok

  shorter : length rest ≤ s.threads
  shorter = omega (arith, v.capacity, ap length e)

  taken : least_key s.channel ≡ min (number k) (least_key rest)
  unfolding least_key
  taken = rw e

  -- `main` prints the key.
  accept-Keeps :
      number k ≤ best_number s.current_best
      → IsImproving (k ∷ s.printed)
      → Keeps s (record s { channel = rest; current_best = k.pub_key; printed = k ∷ s.printed })
  unfolding least
  accept-Keeps low chain = record {
    inv = record {
      workers_ok = lower_bound s.workers falls v.workers_ok;
      channel_ok = received.1;
      capacity = shorter;
      last_printed = (refl, received.0);
      improving = chain;
    };
    falls = falls;
    same_threads = refl;
  }
    where
      falls : min (best_number k.pub_key) (min (least_key rest) (least_pending s.workers)) ≤ least s
      falls = omega (arith, taken, best_number_lem k.pub_key received.0)

  -- `main` drops the key.
  reject-Keeps : best_number s.current_best ≤ number k → Keeps s (record s { channel = rest })
  unfolding least
  reject-Keeps high = record {
    inv = record {
      workers_ok = lower_bound s.workers falls v.workers_ok;
      channel_ok = received.1;
      capacity = shorter;
      last_printed = v.last_printed;
      improving = v.improving;
    };
    falls = falls;
    same_threads = refl;
  }
    where
      falls :
          min (best_number s.current_best) (min (least_key rest) (least_pending s.workers))
          ≤ least s
      falls = omega (arith, taken)

  -- The first key that `main` receives is printed.
  first-Keeps : s.printed ≡ [] → Returns (main_round (record s { channel = rest }) k) (Keeps s)
  unfolding best_number is_better
  first-Keeps p =
      let empty : s.current_best ≡ [] = rw p at v.last_printed in
      let low : number k ≤ best_number s.current_best =
        rw (empty, best_number) (to_number-le_worst k.pub_key received.0) in
      rw (main_round_accepts (record s { channel = rest }) k false (rw empty) (rw empty))
        (accept-Keeps low (rw p tt))

  -- A later key is printed if it is better than the last one.
  later-Keeps :
      (j : KeySet) (ks : List KeySet)
      → s.printed ≡ j ∷ ks
      → s.current_best ≡ j.pub_key
      → IsKeySet j
      → Returns (main_round (record s { channel = rest }) k) (Keeps s)
  later-Keeps j ks p last key = elim (Bool-cases (ltb (number k) (to_number s.current_best))) [
    | inl better ↦
        rw (main_round_accepts (record s { channel = rest }) k true (test ∙ ap value better) refl) (
          accept-Keeps (omega (tests, number_best))
            (rw p (omega (tests, ap to_number last), chain)))
    | inr worse ↦
        rw (main_round_rejects (record s { channel = rest }) k false (test ∙ ap value worse) full)
          (reject-Keeps (omega (tests, number_best)))
  ]
    where
      known : IsKey s.current_best
      known = rw last key

      number_best : best_number s.current_best ≡ to_number s.current_best
      number_best = best_number_lem s.current_best known

      test : is_better s.current_best k.pub_key ≡ value (ltb (number k) (to_number s.current_best))
      test = compare_keys s.current_best k.pub_key known received.0

      full : (length s.current_best == 0) ≡ false
      full = ground (arith, known.1)

      chain : IsImproving (j ∷ ks)
      chain = rw p at v.improving

  pub main_round-Keeps :
      (ks : List KeySet)
      → s.printed ≡ ks
      → Returns (main_round (record s { channel = rest }) k) (Keeps s)
  main_round-Keeps [] p = first-Keeps p
  main_round-Keeps (j ∷ ks) p =
      let last : IsLastPrinted s.current_best (j ∷ ks) = rw p at v.last_printed in
      later-Keeps j ks p last.0 last.1
