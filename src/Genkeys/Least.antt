-- ===== src/Genkeys/Least.antt =====
-- The least key that the process still holds, as a number, and how a step moves it.
use Prim.Native.Nat.{ℕ, zero, suc, ◌≤◌, ◌<◌, ◌^◌, min}
use mathlib.Core.Path.{subst}
use popura.Base.{
  ◌≡◌, refl, none, some, List, [], ◌∷◌, ◌++◌, arith, length, get_elem?, set, replicate,
  All-replicate,
}
use popura.Base.Text.{Bytes}
use popura.Genkeys.{KeySet, Worker, Process, worst_key, new_worker, public_key_size}
use popura.Genkeys.Order.{IsBytes, to_number, to_number-lt}

-- A key as ed25519 makes it.
abbrev pub IsKey : Bytes → Type 0
IsKey k = IsBytes k × (length k ≡ public_key_size)

abbrev pub IsKeySet : KeySet → Type 0
IsKeySet k = IsKey k.pub_key

abbrev pub number : KeySet → ℕ
number k = to_number k.pub_key

-- The number of 32 bytes of 0xff, which no key exceeds.
unfoldable pub worst_number : ℕ
worst_number = to_number worst_key

unfoldable pub best_number : Bytes → ℕ
best_number [] = worst_number
best_number (b ∷ bs) = to_number (b ∷ bs)

unfoldable pub least_key : List KeySet → ℕ
least_key [] = worst_number
least_key (k ∷ ks) = min (number k) (least_key ks)

unfoldable pub pending : Worker → ℕ
pending w = elim w.sending [ none ↦ worst_number | some k ↦ number k ]

unfoldable pub least_pending : List Worker → ℕ
least_pending [] = worst_number
least_pending (w ∷ ws) = min (pending w) (least_pending ws)

-- The least of `currentBest`, the channel and what the goroutines wait to send.
unfoldable pub least : Process → ℕ
least s = min (best_number s.current_best) (min (least_key s.channel) (least_pending s.workers))

pub least_key-le_worst : (ks : List KeySet) → least_key ks ≤ worst_number
unfolding least_key
least_key-le_worst [] = omega arith
least_key-le_worst (k ∷ ks) = omega (arith, least_key-le_worst ks)

pub least_key-append :
    (ks : List KeySet) (k : KeySet) → least_key (ks ++ (k ∷ [])) ≡ min (number k) (least_key ks)
unfolding least_key
least_key-append [] k = refl
least_key-append (j ∷ ks) k = omega (arith, least_key-append ks k)

pub least_pending-le_worst : (ws : List Worker) → least_pending ws ≤ worst_number
unfolding least_pending
least_pending-le_worst [] = omega arith
least_pending-le_worst (w ∷ ws) = omega (arith, least_pending-le_worst ws)

-- Replacing goroutine i takes out what it waited to send, and puts in what it waits to send now.
pub least_pending-set :
    (ws : List Worker) (i : ℕ) (w w' : Worker)
    → get_elem? ws i ≡ some w
    → min (pending w) (least_pending (set ws i w')) ≡ min (pending w') (least_pending ws)
unfolding least_pending
least_pending-set [] i w w' h = cc
least_pending-set (v ∷ ws) zero w w' h =
    let e : pending v ≡ pending w = ground arith in omega (arith, e)
least_pending-set (v ∷ ws) (suc i) w w' h = omega (arith, least_pending-set ws i w w' h)

pub least_pending-replicate : (n : ℕ) → least_pending (replicate n new_worker) ≡ worst_number
unfolding least_pending pending
least_pending-replicate zero = refl
least_pending-replicate (suc n) = omega (arith, least_pending-replicate n)

pub worst_number_lem : suc worst_number ≡ 256 ^ public_key_size
unfolding worst_number to_number
worst_number_lem = refl

-- No key exceeds 32 bytes of 0xff.
pub to_number-le_worst : (k : Bytes) → IsKey k → to_number k ≤ worst_number
to_number-le_worst k (digits, size) =
    let below : to_number k < 256 ^ public_key_size =
      subst (λ n. to_number k < 256 ^ n) size (to_number-lt k digits) in
    omega (arith, worst_number_lem)

pub worst_key-IsKey : IsKey worst_key
worst_key-IsKey = (All-replicate (λ b. b < 256) public_key_size 0xff (omega arith), refl)

pub to_number-worst_key : to_number worst_key ≡ worst_number
unfolding worst_number
to_number-worst_key = refl
