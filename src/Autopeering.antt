-- ===== src/Autopeering.antt =====
-- src/autopeering/main.go and peers.go: the test of peers, the choice of the closest, a random pick.
-- Parameters: `net/url` parses an address, the network answers a dial, `sort.Slice` sorts, and
-- `math/rand` permutes.
pub mod Receive
pub mod Online
pub mod Closest
pub mod Pick
pub mod Module
pub mod Rounds
pub mod Spacing
pub mod Liveness
pub mod Lifecycle
pub mod Stopping
pub mod PublicPeers
mod Tests
use popura.Base.{
  ℕ, zero, suc, ◌+◌, ◌-◌, ◌*◌, ◌%◌, Bool, true, false, ◌||◌, List, [], ◌∷◌, ◌++◌, map, Option, none,
  some, ltb, leb, ◌==◌, if◌then◌else◌, length, get_elem?, set, take,
}
use popura.Base.Panic.{Exec, value, panic, index_out_of_range, raised, ◌>>=◌}
use popura.Base.Text.{Bytes, bytes, same}
use popura.Base.Perms.{extract}

-- The fields of `url.URL` that the program reads, and the printed form of the whole.
pub record Url : Type 0 where
  pub scheme : Bytes
  pub host : Bytes
  pub text : Bytes

-- Durations and times are nanoseconds.
abbrev pub second : ℕ
second = 1000000000

abbrev pub default_timeout : ℕ
default_timeout = 3 * second

pub record Peer : Type 0 where
  pub url : Url
  pub online : Bool
  pub latency : ℕ

-- `net.DialTimeout(network, host, timeout)` of one goroutine: `none` for an error, or the time from
-- before the call to after it.
abbrev pub Dial : Type 0
Dial = Bytes → Bytes → ℕ → Option ℕ

-- `testPeer`, up to the send of its result.
unfoldable pub test_peer : Dial → Url → Peer
test_peer dial u =
    let p : Peer = record { url = u; online = false; latency = 0 } in
    if same u.scheme (bytes "tcp") || same u.scheme (bytes "tls")
    then elim (dial (bytes "tcp") u.host default_timeout) [
      | none ↦ p
      | some elapsed ↦ record p { online = true; latency = elapsed }
    ]
    else p

-- The goroutines that `testPeers` starts, from number i on: each dials on its own.
unfoldable pub test_all : (ℕ → Dial) → ℕ → List Url → List Peer
unfolding test_peer
test_all dial i [] = []
test_all dial i (u ∷ us) = test_peer (dial i) u ∷ test_all dial (suc i) us

-- The n receives of `testPeers` from an unbuffered channel. At each one the scheduler chooses a
-- waiting sender; with no sender left the receive waits for ever, `none`.
unfoldable pub receive_all {ℓ} : {A : Type ℓ} → (ℕ → ℕ) → ℕ → List A → Option (List A)
receive_all choose zero waiting = some []
receive_all choose (suc n) waiting = elim (extract waiting (choose n % length waiting)) [
  | none ↦ none
  | some (p, rest) ↦ elim (receive_all choose n rest) [ none ↦ none | some ps ↦ some (p ∷ ps) ]
]

unfoldable pub test_peers : (ℕ → Dial) → (ℕ → ℕ) → List Url → Option (List Peer)
unfolding test_all receive_all
test_peers dial choose peers = receive_all choose (length peers) (test_all dial 0 peers)

-- The loop of `GetClosestPeers` that moves the online peers to the front of the array: i is the
-- index of the `range`, and the array is read where it may have been written before.
unfoldable pub compact : ℕ → ℕ → ℕ → List Peer → List Peer × ℕ
compact zero i x peers = (peers, x)
compact (suc rounds) i x peers = elim (get_elem? peers i) [
  | none ↦ (peers, x)
  | some p ↦ elim p.online [
    | true ↦ compact rounds (suc i) (suc x) (set peers x p)
    | false ↦ compact rounds (suc i) x peers
  ]
]

-- `onlinePeers[:x]`
unfoldable pub online_peers : List Peer → List Peer
unfolding compact
online_peers peers = let (moved, x) = compact (length peers) 0 0 peers in take x moved

-- The `less` that `GetClosestPeers` hands to `sort.Slice`, on the elements at its two indices.
unfoldable pub by_latency : Peer → Peer → Bool
by_latency p q = ltb p.latency q.latency

-- `sort.Slice(slice, less)`: the slice that it leaves.
abbrev pub SortSlice : Type 0
SortSlice = (Peer → Peer → Bool) → List Peer → List Peer

-- The last loop of `GetClosestPeers`, with `result` as accumulator.
unfoldable pub first_urls : ℕ → List Peer → List Url → List Url
first_urls n [] result = result
first_urls n (p ∷ peers) result =
    let more = first_urls n peers (result ++ (p.url ∷ [])) in
    if length result == n then result else more

-- `GetClosestPeers`; `sort` is `sort.Slice`.
unfoldable pub get_closest_peers :
    (ℕ → Dial) → (ℕ → ℕ) → SortSlice → List Url → ℕ → Option (List Url)
unfolding test_peers online_peers by_latency first_urls
get_closest_peers dial choose sort peer_list n = elim (test_peers dial choose peer_list) [
  | none ↦ none
  | some tested ↦ some (first_urls n (sort by_latency (online_peers tested)) [])
]

-- The loop of `RandomPick` over the indices.
unfoldable pub pick_all : List Url → List ℕ → List Url → Exec (List Url)
pick_all peer_list [] res = value res
pick_all peer_list (i ∷ is) res = elim (get_elem? peer_list i) [
  | none ↦ panic index_out_of_range
  | some u ↦ pick_all peer_list is (res ++ (u ∷ []))
]

-- `RandomPick`; `perm n` is what `r.Perm(n)` gives.
unfoldable pub random_pick : (ℕ → List ℕ) → List Url → ℕ → Exec (List Url)
unfolding pick_all
random_pick perm peer_list n =
    if leb (length peer_list) n then value peer_list else pick_all peer_list (perm n) []
