-- ===== src/Genkeys.antt =====
-- cmd/genkeys/main.go: the comparison of keys, the goroutines that look for better keys, the
-- buffered channel between them and `main`, and the loop of `main`.
pub mod Order
pub mod Least
pub mod Invariant
pub mod Channel
pub mod Search
pub mod Lows
pub mod Taken
pub mod Refine
pub mod Found
mod Tests
use popura.Base.{ℕ, suc, Bool, true, false, ◌||◌, List, [], ◌∷◌, ◌++◌, Option, none, some}
use popura.Base.{ltb, ◌==◌, if◌then◌else◌, length, replicate, get_elem?, set}
use popura.Base.Panic.{Exec, value, panic, index_out_of_range, raised, ◌>>=◌}
use popura.Base.Text.{Bytes}

pub record KeySet : Type 0 where
  pub priv : Bytes
  pub pub_key : Bytes

-- `isBetter`. The index of the loop is the suffix that is left, and `newPub[idx]` panics past the
-- end of the new key.
unfoldable pub is_better : Bytes → Bytes → Exec Bool
is_better [] new = value false
is_better (o ∷ old) [] = panic index_out_of_range
is_better (o ∷ old) (n ∷ new) =
    let rest = is_better old new in
    if ltb n o then value true else if ltb o n then value false else rest

-- `ed25519.PublicKeySize`
abbrev pub public_key_size : ℕ
public_key_size = 32

-- The first `bestKey` of `doKeys`, 32 bytes of 0xff.
abbrev pub worst_key : Bytes
worst_key = replicate public_key_size 0xff

-- A goroutine of `doKeys`: its `bestKey`, and the key pair that it waits to send.
pub record Worker : Type 0 where
  pub best_key : Bytes
  pub sending : Option KeySet

abbrev pub new_worker : Worker
new_worker = record { best_key = worst_key; sending = none }

-- One round of the loop of `doKeys` up to the send, with what `ed25519.GenerateKey` gave: a key
-- pair, or `none` for an error.
unfoldable pub do_keys_round : Worker → Option KeySet → Exec Worker
do_keys_round w none = panic raised
do_keys_round w (some k) = do
  better ← is_better w.best_key k.pub_key
  value (if better then record w { best_key = k.pub_key; sending = some k } else w)

-- The process: the goroutines, the channel `newKeys` of capacity `threads`, the `currentBest` of
-- `main`, and what `main` has printed, the newest first.
pub record Process : Type 0 where
  pub threads : ℕ
  pub workers : List Worker
  pub channel : List KeySet
  pub current_best : Bytes
  pub printed : List KeySet

unfoldable pub start : ℕ → Process
start threads = record {
  threads = threads;
  workers = replicate threads new_worker;
  channel = [];
  current_best = [];
  printed = [];
}

-- One round of the loop of `main`, on the key pair that it took from the channel.
unfoldable pub main_round : Process → KeySet → Exec Process
main_round s k = do
  better ← is_better s.current_best k.pub_key
  value (
      if better || length s.current_best == 0
      then record s { current_best = k.pub_key; printed = k ∷ s.printed }
      else s)

-- What the scheduler lets happen next: goroutine i generates a key or sends one, `main` receives.
pub data Move : Type 0 where
  generate : ℕ → Option KeySet → Move
  send : ℕ → Move
  receive : Move

-- A goroutine that waits to send generates nothing.
unfoldable pub generate_at : Process → ℕ → Worker → Option KeySet → Exec Process
generate_at s i w g = elim w.sending [
  | some k ↦ value s
  | none ↦ do_keys_round w g >>= λ w'. value (record s { workers = set s.workers i w' })
]

-- A send waits while the channel is full.
unfoldable pub send_at : Process → ℕ → Worker → Process
send_at s i w = elim w.sending [
  | none ↦ s
  | some k ↦
      if ltb (length s.channel) s.threads
      then record s {
        channel = s.channel ++ (k ∷ []);
        workers = set s.workers i (record w { sending = none });
      }
      else s
]

-- `main` waits while the channel is empty.
unfoldable pub receive_from : Process → List KeySet → Exec Process
receive_from s [] = value s
receive_from s (k ∷ rest) = main_round (record s { channel = rest }) k

-- A move that has to wait, or names no goroutine, changes nothing.
unfoldable pub step : Process → Move → Exec Process
unfolding receive_from generate_at send_at do_keys_round main_round is_better
step s (generate i g) = elim (get_elem? s.workers i) [
  | none ↦ value s
  | some w ↦ generate_at s i w g
]
step s (send i) = elim (get_elem? s.workers i) [ none ↦ value s | some w ↦ value (send_at s i w) ]
step s receive = receive_from s s.channel

unfoldable pub run : Process → List Move → Exec Process
run s [] = value s
run s (m ∷ ms) = step s m >>= λ s'. run s' ms
