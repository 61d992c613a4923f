-- ===== src/Ansible.antt =====
-- contrib/ansible/genkeys.go: keys for a number of hosts, the best of many tries.
pub mod Compare
pub mod Bubble
pub mod Improve
pub mod Sort
pub mod Choose
pub mod Chosen
pub mod Files
mod Tests
use popura.Base.{
  ℕ, zero, suc, ◌+◌, ◌-◌, Bool, true, false, List, [], ◌∷◌, ◌++◌, Option, none, some, ltb,
  if◌then◌else◌, length, get_elem?, set,
}
use popura.Base.Panic.{Exec, value, panic, index_out_of_range, raised, ◌>>=◌}
use popura.Base.Text.{Bytes}

pub record KeySet : Type 0 where
  pub priv : Bytes
  pub pub_key : Bytes
  pub ip : Bytes

-- `isBetter`
unfoldable pub is_better : Bytes → Bytes → Exec Bool
is_better [] new = value false
is_better (o ∷ old) [] = panic index_out_of_range
is_better (o ∷ old) (n ∷ new) = elim (ltb n o) [
  | true ↦ value true
  | false ↦ elim (ltb o n) [ true ↦ value false | false ↦ is_better old new ]
]

-- `sets[i]`
abbrev pub index : List KeySet → ℕ → Exec KeySet
index sets i = elim (get_elem? sets i) [ none ↦ panic index_out_of_range | some k ↦ value k ]

-- The loop of `bubbleUpTo` from index i, with `rounds` rounds left. The array is written in place.
unfoldable pub bubble_from : ℕ → ℕ → List KeySet → Exec (List KeySet)
bubble_from zero i sets = value sets
bubble_from (suc rounds) i sets = do
  next ← index sets (suc i)
  this ← index sets i
  better ← is_better next.pub_key this.pub_key
  elim better [
    | true ↦ bubble_from rounds (suc i) (set (set sets i next) (suc i) this)
    | false ↦ value sets
  ]

-- `bubbleUpTo`. The number of rounds is `len(sets) - num - 1`, none where that is below 0.
unfoldable pub bubble_up_to : List KeySet → ℕ → Exec (List KeySet)
unfolding bubble_from is_better
bubble_up_to sets num = bubble_from (length sets - num - 1) 0 sets

-- The loop of `sortKeySetArray` from index i.
unfoldable pub sort_from : ℕ → ℕ → List KeySet → Exec (List KeySet)
sort_from zero i sets = value sets
sort_from (suc rounds) i sets = do sets' ← bubble_up_to sets i; sort_from rounds (suc i) sets'

unfoldable pub sort_key_set_array : List KeySet → Exec (List KeySet)
unfolding sort_from bubble_up_to
sort_key_set_array sets = sort_from (length sets) 0 sets

-- What `ed25519.GenerateKey` gives at each call: a public and a private key, or `none` for an error.
abbrev pub Generator : Type 0
Generator = ℕ → Option (Bytes × Bytes)

-- `address.AddrForKey` of yggdrasil-go and the printed form of its result are a parameter.
module _ (ip_of : Bytes → Bytes) (generate_key : Generator) where
  -- `newKey`, at the call of `GenerateKey` with number i.
  unfoldable pub new_key : ℕ → Exec KeySet
  new_key i = elim (generate_key i) [
    | none ↦ panic raised
    | some (public, private) ↦
        value (record { priv = private; pub_key = public; ip = ip_of public })
  ]

  -- The first loop of `main`: `append(keys, newKey())`.
  unfoldable pub fill : ℕ → ℕ → List KeySet → Exec (List KeySet)
  fill zero i keys = value keys
  fill (suc rounds) i keys = do k ← new_key i; fill rounds (suc i) (keys ++ (k ∷ []))

  -- `keys[0] = newKey(); keys = bubbleUpTo(keys, 0)`
  unfoldable pub replace_first : ℕ → List KeySet → Exec (List KeySet)
  replace_first i [] = new_key i >>= λ k. panic index_out_of_range
  replace_first i (worst ∷ keys) = new_key i >>= λ k. bubble_up_to (k ∷ keys) 0

  -- The second loop of `main`.
  unfoldable pub improve : ℕ → ℕ → List KeySet → Exec (List KeySet)
  unfolding replace_first
  improve zero i keys = value keys
  improve (suc rounds) i keys = do keys' ← replace_first i keys; improve rounds (suc i) keys'

  -- `main` up to the files, with the flags `-hosts` and `-tries`: `none` where it refuses. A negative
  -- flag is not modelled. The keys at 1 and above are the hosts'.
  unfoldable pub choose_keys : ℕ → ℕ → Exec (Option (List KeySet))
  unfolding fill improve new_key sort_key_set_array bubble_up_to
  choose_keys hosts tries = if ltb tries hosts then value none else do
    keys ← fill (hosts + 1) 0 []
    sorted ← sort_key_set_array keys
    best ← improve (tries - hosts - 1) (hosts + 1) sorted
    value (some best)
