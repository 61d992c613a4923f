-- ===== src/Brute/Ed25519/Best.antt =====
-- contrib/yggdrasil-brute-simple/yggdrasil-brute-multi-ed25519.c: the keys that main prints.
use popura.Base.{
  ℕ, suc, ◌+◌, ◌*◌, ◌%◌, ◌^◌, ◌≤◌, ◌<◌, ◌≡◌, refl, ap, ◌∙◌, true, inl, inr, List, [], ◌∷◌, ◌++◌,
  map, none, some, Perm, arith, length, take, replicate, All, All-replicate,
}
use popura.Base.Panic.{value}
use popura.Base.Ranked.{
  IsBelow, IsAscending, keep, keep-All, keep_all, drop_all, keep_all-IsAscending, keep_all-perm,
  drop_all-IsBelow, length-keep_all, IsAscending-replicate,
}
use popura.Base.Text.{Bytes}
use popura.Brute.{Sodium, numkeys, at_least_zero, find_where, insert}
use popura.Brute.Best.{IsHash, IsHashed, rank, find_where-cases}
use popura.Brute.Seeds.{next_seed, increment-next_seed, length-next_seed}
use popura.Brute.Loop.{finished, search}
use popura.Brute.Loop.Kept.{tried, tried-All, search-keep_all}
use popura.Brute.Ed25519.{
  Search, start_search, advance, insert_at, round, per_batch, rows, report, main,
}

-- What main relies on: the sizes of what libsodium writes, and that a multiple of the base point is no
-- fault.
pub record IsSodium (c : Sodium) : Type 0 where
  pub hash : (m : Bytes) → IsHash (c.sha512 m)
  pub multiple : (n : Bytes) → (pk : Bytes) × (c.scalarmult_base n ≡ some pk)
  pub length_random : (i : ℕ) → length (c.random i) ≡ 32

pub record Key : Type 0 where
  pub sk : Bytes
  pub hash : Bytes

-- What the arrays hold before the first round.
abbrev pub blank : Key
blank = record { sk = replicate 64 0; hash = replicate 64 0 }

-- The key that main makes of a seed.
unfoldable pub key_of : Sodium → Bytes → Key
key_of c seed = elim (c.scalarmult_base (take 32 (c.sha512 seed))) [
  | none ↦ blank
  | some pk ↦ record { sk = take 32 (c.sha512 seed) ++ pk; hash = c.sha512 pk }
]

abbrev pub key : Sodium → Search → Key
key c s = key_of c s.seed

-- The arrays hold these keys.
record IsKept (s : Search) (ps : List Key) : Type 0 where
  sks : s.bestsklist ≡ map Key.sk ps
  hashes : s.besthashlist ≡ map Key.hash ps
  hashed : All (IsHashed Key.hash) ps
  length_seed : length s.seed ≡ 32

-- What the lists hold stays as the seed changes.
advance-IsKept :
    (s : Search) (ps : List Key)
    → IsKept s ps
    → (s' : Search) × (advance s ≡ value (some s')) × IsKept s' ps × (s'.runs ≡ s.runs)
unfolding advance
advance-IsKept s ps i = (
  record s { seed = next_seed s.seed },
  rw (increment-next_seed s.seed i.length_seed) refl,
  record {
    sks = i.sks;
    hashes = i.hashes;
    hashed = i.hashed;
    length_seed = length-next_seed s.seed i.length_seed;
  },
  refl,
)

insert_at-IsKept :
    (c : Sodium) (s : Search) (ps : List Key) (k : Key)
    → IsSodium c
    → IsKept s ps
    → IsHashed Key.hash k
    → (s' : Search) × (insert_at c s k.sk k.hash (find_where k.hash s.besthashlist)
        ≡ value (some s'))
      × IsKept s' (keep (rank Key.hash) k ps)
      × (s'.runs ≡ s.runs)
unfolding insert_at
insert_at-IsKept c s ps k h i j = elim (find_where-cases Key.hash k ps j i.hashed) [
  | inl (e, same) ↦
      let place = ap (find_where k.hash) i.hashes ∙ e in rw (place, same) (advance-IsKept s ps i)
  | inr (w, e, inserted) ↦
      let kept = keep (rank Key.hash) k ps in
      let s' = record s {
        bestsklist = map Key.sk kept;
        besthashlist = map Key.hash kept;
        seed = c.random s.drawn;
        drawn = suc s.drawn;
      } in
      let place = ap (find_where k.hash) i.hashes ∙ e in
      let sks = ap (λ l. insert l k.sk w) i.sks ∙ inserted Key.sk in
      let hashes = ap (λ l. insert l k.hash w) i.hashes ∙ inserted Key.hash in
      rw (place, sks, hashes)
        (advance-IsKept s' kept (record {
          sks = refl;
          hashes = refl;
          hashed = keep-All (rank Key.hash) (IsHashed Key.hash) k ps j i.hashed;
          length_seed = h.length_random s.drawn;
        }))
]

round-IsKept :
    (c : Sodium)
    → IsSodium c
    → (s : Search) (ps : List Key) → IsKept s ps
    → (s' : Search) × (round c s ≡ value (some s'))
      × IsKept s' (keep (rank Key.hash) (key c s) ps)
      × (s'.runs ≡ (s.runs + 1) % 2 ^ 32)
unfolding round key_of
round-IsKept c h s ps i =
    let (pk, e) = h.multiple (take 32 (c.sha512 s.seed)) in
    let counted = record s { runs = (s.runs + 1) % 2 ^ 32 } in
    let k : Key = record { sk = take 32 (c.sha512 s.seed) ++ pk; hash = c.sha512 pk } in
    rw (e, round, key_of)
      (insert_at-IsKept c counted ps k h
        (record { sks = i.sks; hashes = i.hashes; hashed = i.hashed; length_seed = i.length_seed })
        (h.hash pk))

start-IsKept : (c : Sodium) → IsSodium c → IsKept (start_search c) (replicate numkeys blank)
unfolding start_search
start-IsKept c h = record {
  sks = refl;
  hashes = refl;
  hashed =
      All-replicate (IsHashed Key.hash) numkeys blank
        (refl, All-replicate (λ b. b < 256) 64 0 (omega arith));
  length_seed = h.length_random 0;
}

-- The keys that the first rounds of main try.
unfoldable pub searched : Sodium → ℕ → List Key
searched c n = tried (round c) (key c) n (start_search c)

runs-start : (c : Sodium) → Search.runs (start_search c) ≡ 0
unfolding start_search
runs-start c = refl

per_batch_lem : per_batch ≡ 2 ^ 17
unfolding per_batch
per_batch_lem = refl

search-IsKept :
    (c : Sodium) (start requested late : ℕ) (early times : List ℕ)
    → IsSodium c
    → All (λ t. t < start + requested) early
    → start + requested ≤ late
    → suc (length early) < 2 ^ 15
    → (s : Search) × (search
          (round c)
          Search.runs
          per_batch
          start
          requested
          (early ++ (late ∷ times))
          (start_search c)
        ≡ value (finished s))
      × IsKept s (
          keep_all
            (rank Key.hash)
            (replicate numkeys blank)
            (searched c (suc (length early) * per_batch)))
unfolding searched
search-IsKept c start requested late early times h a l n =
    let size = per_batch_lem in
    let none_yet = runs-start c in
    search-keep_all (round c) Search.runs (rank Key.hash) (key c) IsKept (round-IsKept c h)
      per_batch start requested late early times (start_search c) (replicate numkeys blank)
      (start-IsKept c h) a l (omega (arith, size)) (rw (none_yet, size) (omega arith))

-- A key that main makes of a seed of 32 bytes.
abbrev pub IsMade : Sodium → Key → Type 0
IsMade c k = (seed : Bytes) × (length seed ≡ 32) × (k ≡ key_of c seed)

searched-IsMade : (c : Sodium) (n : ℕ) → IsSodium c → All (IsMade c) (searched c n)
unfolding searched
searched-IsMade c n h =
    tried-All (round c) Search.runs (rank Key.hash) (key c) IsKept (round-IsKept c h) (IsMade c)
      (λ s ps i. (s.seed, i.length_seed, refl)) n (start_search c) (replicate numkeys blank)
      (start-IsKept c h)

-- With a libsodium that does not fail, one argument, and a clock that shows the requested time behind one of fewer
-- than 2 ^ 15 batches, main prints the ten keys with the highest hashes of those that it has tried and ten blank
-- ones, the lowest first, and exits with 0. Each that it has tried is made of a seed of 32 bytes.
pub main-best_seeds :
    (c : Sodium) (program seconds : Bytes) (start late : ℕ) (early times : List ℕ)
    → IsSodium c
    → All (λ t. t < start + at_least_zero (c.atoi seconds)) early
    → start + at_least_zero (c.atoi seconds) ≤ late
    → suc (length early) < 2 ^ 15
    → (lost best : List Key) × (main c true (program ∷ seconds ∷ []) start (early ++ (late ∷ times))
        ≡ value (some (record { code = 0; stdout = rows (map Key.sk best) (map Key.hash best) })))
      × (length best ≡ numkeys)
      × IsAscending (rank Key.hash) best
      × Perm (lost ++ best) (replicate numkeys blank ++ searched c (suc (length early) * per_batch))
      × All (λ k. IsBelow (rank Key.hash) k best) lost
      × All (IsMade c) (searched c (suc (length early) * per_batch))
unfolding main report
main-best_seeds c program seconds start late early times h a l n =
    let (s, e, k) =
      search-IsKept c start (at_least_zero (c.atoi seconds)) late early times h a l n in
    let zeros = replicate numkeys blank in
    let keys = searched c (suc (length early) * per_batch) in
    (
      drop_all (rank Key.hash) zeros keys,
      keep_all (rank Key.hash) zeros keys,
      rw (main, e, k.sks, k.hashes) refl,
      length-keep_all (rank Key.hash) zeros keys,
      keep_all-IsAscending (rank Key.hash) zeros keys
          (IsAscending-replicate (rank Key.hash) numkeys blank),
      keep_all-perm (rank Key.hash) zeros keys,
      drop_all-IsBelow (rank Key.hash) zeros keys
          (IsAscending-replicate (rank Key.hash) numkeys blank),
      searched-IsMade c (suc (length early) * per_batch) h,
    )
