-- ===== src/Brute/Ed25519.antt =====
-- contrib/yggdrasil-brute-simple/yggdrasil-brute-multi-ed25519.c. The clock is the list of the readings that
-- `time(NULL)` gives behind the batches.
pub mod Best
use popura.Base.{
  ℕ, zero, suc, ◌+◌, ◌%◌, ◌^◌, Bool, true, false, List, [], ◌∷◌, ◌++◌, Option, none, some, take,
  drop, replicate,
}
use popura.Base.Panic.{Exec, value, panic, ◌>>=◌}
use popura.Base.Text.{Bytes, bytes}
use popura.Keys.Hex.{encode_to_string}
use popura.Brute.{Sodium, Result, numkeys, at_least_zero, find_where, insert, increment}
use popura.Brute.Loop.{Outcome, failed, finished, running, search}

-- The variables of main that the rounds use. `drawn` counts the calls of `randombytes_buf`.
pub record Search : Type 0 where
  pub seed : Bytes
  pub bestsklist : List Bytes
  pub besthashlist : List Bytes
  pub runs : ℕ
  pub drawn : ℕ

abbrev zeroed_lists : List Bytes
zeroed_lists = replicate numkeys (replicate 64 0)

unfoldable pub start_search : Sodium → Search
start_search c = record {
  seed = c.random 0;
  bestsklist = zeroed_lists;
  besthashlist = zeroed_lists;
  runs = 0;
  drawn = 1;
}

unfoldable pub advance : Search → Exec (Option Search)
advance s = do seed' ← increment s.seed; value (some (record s { seed = seed' }))

-- The round behind the call of `find_where`.
unfoldable pub insert_at : Sodium → Search → Bytes → Bytes → ℕ → Exec (Option Search)
unfolding advance
insert_at c s sk hash zero = advance s
insert_at c s sk hash (suc where') = do
  sks ← insert s.bestsklist sk where'
  hashes ← insert s.besthashlist hash where'
  advance (record s {
    bestsklist = sks;
    besthashlist = hashes;
    seed = c.random s.drawn;
    drawn = suc s.drawn;
  })

unfoldable pub round : Sodium → Search → Exec (Option Search)
unfolding insert_at
round c s =
    let sk = c.sha512 s.seed in
    let counted = record s { runs = (s.runs + 1) % 2 ^ 32 } in
    elim (c.scalarmult_base (take 32 sk)) [
      | none ↦ value none
      | some pk ↦
          let hash = c.sha512 pk in
          insert_at c counted (take 32 sk ++ pk) hash (find_where hash s.besthashlist)
    ]

-- The rounds between two readings of the clock.
unfoldable pub per_batch : ℕ
per_batch = 2 ^ 17

unfoldable pub row : Bytes → Bytes → Bytes
row sk hash =
    encode_to_string (take 5 hash)
    ++ (b' ' ∷ encode_to_string (take 32 sk)
        ++ (b' ' ∷ encode_to_string (take 32 (drop 32 sk)) ++ (10 ∷ [])))

-- The loop that prints, over the items of the two lists.
unfoldable pub rows : List Bytes → List Bytes → Bytes
rows [] hashes = []
rows (sk ∷ sks) [] = []
rows (sk ∷ sks) (hash ∷ hashes) = row sk hash ++ rows sks hashes

unfoldable pub report : Outcome Search → Option Result
unfolding rows
report failed = some (record { code = 1; stdout = bytes "scalarmult to create pub failed!\n" })
report (finished s) = some (record { code = 0; stdout = rows s.bestsklist s.besthashlist })
report (running s) = none

-- `main`, with whether `sodium_init` succeeds, and from the time at which it starts. `none` stands for
-- a process that goes on.
unfoldable pub main : Sodium → Bool → List Bytes → ℕ → List ℕ → Exec (Option Result)
unfolding start_search round report
main c ready [] starttime times = value (some (record { code = 1; stdout = [] }))
main c ready (program ∷ []) starttime times = value (some (record { code = 1; stdout = [] }))
main c false (program ∷ seconds ∷ []) starttime times =
    value (some (record { code = 1; stdout = bytes "sodium init failed!\n" }))
main c true (program ∷ seconds ∷ []) starttime times = do
  o ←
      search (round c) Search.runs per_batch starttime (at_least_zero (c.atoi seconds)) times
        (start_search c)
  value (report o)
main c ready (program ∷ seconds ∷ more ∷ args) starttime times =
    value (some (record { code = 1; stdout = [] }))
