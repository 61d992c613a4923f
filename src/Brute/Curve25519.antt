-- ===== src/Brute/Curve25519.antt =====
-- contrib/yggdrasil-brute-simple/yggdrasil-brute-multi-curve25519.c. The clock is the list of the readings
-- that `time(NULL)` gives behind the batches.
pub mod Clamp
pub mod Bits
pub mod Address
pub mod Ones
pub mod Kept
pub mod Best
use Prim.Native.Nat.{bit_and, bit_or}
use popura.Base.{
  ℕ, zero, suc, ◌+◌, ◌%◌, ◌^◌, Bool, true, false, List, [], ◌∷◌, ◌++◌, Option, none, some,
  replicate,
}
use popura.Base.Panic.{Exec, value, panic, ◌>>=◌}
use popura.Base.Text.{Bytes, bytes}
use popura.Keys.Hex.{encode_to_string}
use popura.Brute.{
  Sodium, Result, numkeys, at_least_zero, find_where, update, insert, increment, make_addr,
}
use popura.Brute.Loop.{Outcome, failed, finished, running, search}

-- The variables of main that the rounds use. `drawn` counts the calls of `randombytes_buf`.
pub record Search : Type 0 where
  pub sk : Bytes
  pub bestsklist : List Bytes
  pub bestpklist : List Bytes
  pub besthashlist : List Bytes
  pub runs : ℕ
  pub drawn : ℕ

-- `seed`, of the bytes that `randombytes_buf` gives.
unfoldable pub seed : Bytes → Exec Bytes
unfolding update
seed sk =
    update (λ b. bit_and b 248) 0 sk
    >>= update (λ b. bit_and b 127) 31
    >>= update (λ b. bit_or b 64) 31

unfoldable pub start_search : Sodium → Exec Search
unfolding seed
start_search c = do
  sk ← seed (c.random 0)
  value (record {
    sk = sk;
    bestsklist = replicate numkeys (replicate 32 0);
    bestpklist = replicate numkeys (replicate 32 0);
    besthashlist = replicate numkeys (replicate 64 0);
    runs = 0;
    drawn = 1;
  })

unfoldable pub advance : Search → Exec (Option Search)
advance s = do sk' ← increment s.sk; value (some (record s { sk = sk' }))

-- The round behind the call of `find_where`.
unfoldable pub insert_at : Sodium → Search → Bytes → Bytes → ℕ → Exec (Option Search)
unfolding seed advance
insert_at c s pk hash zero = advance s
insert_at c s pk hash (suc where') = do
  sks ← insert s.bestsklist s.sk where'
  pks ← insert s.bestpklist pk where'
  hashes ← insert s.besthashlist hash where'
  sk' ← seed (c.random s.drawn)
  advance (record s {
    sk = sk';
    bestsklist = sks;
    bestpklist = pks;
    besthashlist = hashes;
    drawn = suc s.drawn;
  })

unfoldable pub round : Sodium → Search → Exec (Option Search)
unfolding insert_at
round c s =
    let counted = record s { runs = (s.runs + 1) % 2 ^ 32 } in
    elim (c.scalarmult_base s.sk) [
      | none ↦ value none
      | some pk ↦
          let hash = c.sha512 pk in insert_at c counted pk hash (find_where hash s.besthashlist)
    ]

-- The rounds between two readings of the clock.
unfoldable pub per_batch : ℕ
per_batch = 2 ^ 16

unfoldable pub row : Bytes → Bytes → Bytes → Exec Bytes
row sk pk hash = do
  addr ← make_addr hash
  value (
      encode_to_string addr
      ++ (b' ' ∷ encode_to_string sk ++ (b' ' ∷ encode_to_string pk ++ (10 ∷ []))))

-- The loop that prints, over the items of the three lists.
unfoldable pub rows : List Bytes → List Bytes → List Bytes → Exec Bytes
unfolding row
rows (sk ∷ sks) (pk ∷ pks) (hash ∷ hashes) = do
  line ← row sk pk hash
  rest ← rows sks pks hashes
  value (line ++ rest)
rows sks pks hashes = value []

unfoldable pub report : Outcome Search → Exec (Option Result)
unfolding rows
report failed =
    value (some (record { code = 1; stdout = bytes "scalarmult to create pub failed!\n" }))
report (finished s) = do
  printed ← rows s.bestsklist s.bestpklist s.besthashlist
  value (some (record { code = 0; stdout = printed }))
report (running s) = value none

-- `main`, with whether `sodium_init` succeeds, and from the time at which it starts. `none` stands for
-- a process that goes on.
unfoldable pub main : Sodium → Bool → List Bytes → ℕ → List ℕ → Exec (Option Result)
unfolding start_search round report
main c ready [] starttime times = value (some (record { code = 1; stdout = [] }))
main c ready (program ∷ []) starttime times = value (some (record { code = 1; stdout = [] }))
main c false (program ∷ seconds ∷ []) starttime times =
    value (some (record { code = 1; stdout = bytes "sodium init failed!\n" }))
main c true (program ∷ seconds ∷ []) starttime times = do
  s ← start_search c
  o ← search (round c) Search.runs per_batch starttime (at_least_zero (c.atoi seconds)) times s
  report o
main c ready (program ∷ seconds ∷ more ∷ args) starttime times =
    value (some (record { code = 1; stdout = [] }))
