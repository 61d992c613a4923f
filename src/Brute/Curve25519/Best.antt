-- ===== src/Brute/Curve25519/Best.antt =====
-- contrib/yggdrasil-brute-simple/yggdrasil-brute-multi-curve25519.c: the keys that main prints.
use popura.Base.{
  ℕ, suc, ◌+◌, ◌*◌, ◌^◌, ◌≤◌, ◌<◌, ◌≡◌, refl, sym, ap, true, List, [], ◌∷◌, ◌++◌, map, some, Perm,
  arith, length, replicate, All, All-replicate,
}
use popura.Base.Panic.{Exec, value, panic, Returns, Returns->>=, Returns-value}
use popura.Base.Ranked.{
  IsBelow, IsAscending, keep_all, keep_all-All, drop_all, keep_all-IsAscending, keep_all-perm,
  drop_all-IsBelow, length-keep_all, IsAscending-replicate,
}
use popura.Base.Text.{Bytes}
use popura.Brute.{Sodium, numkeys, at_least_zero, leading_ones}
use popura.Brute.Best.{IsHashed, rank}
use popura.Brute.Loop.{finished, search}
use popura.Brute.Loop.Kept.{trace, tried, tried-All, search-keep_all}
use popura.Brute.Curve25519.{Search, start_search, round, per_batch, row, rows, report, main}
use popura.Brute.Curve25519.Clamp.{IsClamped}
use popura.Brute.Curve25519.Address.{make_addr-bits}
use popura.Brute.Curve25519.Kept.{
  IsSodium, Key, blank, key_of, key, IsKept, round-IsKept, start-IsKept,
}

abbrev searched_from : Sodium → ℕ → Exec Search → List Key
searched_from c n (panic e) = []
searched_from c n (value s) = tried (round c) (key c) n s

-- The keys that the first rounds of main try.
unfoldable pub searched : Sodium → ℕ → List Key
searched c n = searched_from c n (start_search c)

-- A key that main makes of a secret key with the bits of `seed`.
abbrev pub IsMade : Sodium → Key → Type 0
IsMade c k = IsClamped k.sk × (k ≡ key_of c k.sk)

key_of-IsMade : (c : Sodium) (sk : Bytes) → IsSodium c → IsClamped sk → IsMade c (key_of c sk)
unfolding key_of
key_of-IsMade c sk h i =
    let (pk, e) = h.multiple sk in
    let same_sk : Key.sk (key_of c sk) ≡ sk = rw (e, key_of) refl in
    (rw same_sk i, ap (key_of c) (sym same_sk))

map-All :
    (P : Key → Type 0) (f : Search → Key) (xs : List Search)
    → ((s : Search) → P (f s))
    → All P (map f xs)
map-All P f [] h = tt
map-All P f (x ∷ xs) h = (h x, map-All P f xs h)

searched_from-All :
    (c : Sodium) (P : Key → Type 0) (n : ℕ) (o : Exec Search)
    → ((sk : Bytes) → P (key_of c sk))
    → All P (searched_from c n o)
searched_from-All c P n (panic e) h = tt
searched_from-All c P n (value s) h = map-All P (key c) (trace (round c) n s) (λ s. h s.sk)

-- What holds of each key that main can make holds of those that it tries.
pub searched-All :
    (c : Sodium) (P : Key → Type 0) (n : ℕ)
    → ((sk : Bytes) → P (key_of c sk))
    → All P (searched c n)
unfolding searched
searched-All c P n h = searched_from-All c P n (start_search c) h

per_batch_lem : per_batch ≡ 2 ^ 16
unfolding per_batch
per_batch_lem = refl

search-IsKept :
    (c : Sodium) (start requested late : ℕ) (early times : List ℕ)
    → IsSodium c
    → All (λ t. t < start + requested) early
    → start + requested ≤ late
    → suc (length early) < 2 ^ 16
    → (s t : Search) × (start_search c ≡ value s)
      × (search (round c) Search.runs per_batch start requested (early ++ (late ∷ times)) s
          ≡ value (finished t))
      × IsKept t (
          keep_all
            (rank Key.hash)
            (replicate numkeys blank)
            (searched c (suc (length early) * per_batch)))
      × All (IsMade c) (searched c (suc (length early) * per_batch))
unfolding searched
search-IsKept c start requested late early times h a l n =
    let size = per_batch_lem in
    let zeros = replicate numkeys blank in
    let (s, e, i, none_yet) = start-IsKept c h in
    let (t, f, k) =
      search-keep_all (round c) Search.runs (rank Key.hash) (key c) IsKept (round-IsKept c h)
        per_batch start requested late early times s zeros i a l (omega (arith, size))
        (rw (none_yet, size) (omega arith)) in
    (
      s,
      t,
      e,
      f,
      rw (e, searched) k,
      rw (e, searched)
          (tried-All (round c) Search.runs (rank Key.hash) (key c) IsKept (round-IsKept c h)
            (IsMade c) (λ s ps i. key_of-IsMade c s.sk h i.clamped) (suc (length early) * per_batch)
            s zeros i),
    )

-- The address of the key can be computed.
abbrev pub HasAddress : Key → Type 0
HasAddress k = leading_ones k.hash ≤ 398

rows-Returns :
    (ps : List Key)
    → All (IsHashed Key.hash) ps
    → All HasAddress ps
    → Returns (rows (map Key.sk ps) (map Key.pk ps) (map Key.hash ps)) (λ text. Unit {0})
unfolding rows row
rows-Returns [] a b = tt
rows-Returns (k ∷ ps) a b =
    let (addr, e, size, number) = make_addr-bits k.hash a.0.0 a.0.1 b.0 in
    Returns->>= (row k.sk k.pk k.hash) _ (λ text. Unit {0}) _ (rw e tt)
      (λ line u.
        Returns->>= (rows (map Key.sk ps) (map Key.pk ps) (map Key.hash ps)) _ _ _
          (rows-Returns ps a.1 b.1) (λ rest u'. tt))

blank-HasAddress : HasAddress blank
unfolding leading_ones
blank-HasAddress = omega arith

-- With a libsodium that does not fail, one argument, a clock that shows the requested time behind one of
-- fewer than 2 ^ 16 batches, and no key tried whose hash starts with more than 398 ones, main prints the ten
-- keys with the highest hashes of those that it has tried and ten blank ones, the lowest first, each with
-- the address that make_addr returns, and exits with 0. Each key that it has tried is made of a secret key with
-- the fixed bits of the curve.
pub main-best_secrets :
    (c : Sodium) (program seconds : Bytes) (start late : ℕ) (early times : List ℕ)
    → IsSodium c
    → All (λ t. t < start + at_least_zero (c.atoi seconds)) early
    → start + at_least_zero (c.atoi seconds) ≤ late
    → suc (length early) < 2 ^ 16
    → All HasAddress (searched c (suc (length early) * per_batch))
    → (lost best : List Key) × (text : Bytes) × (main c true
          (program ∷ seconds ∷ [])
          start
          (early ++ (late ∷ times))
        ≡ value (some (record { code = 0; stdout = text })))
      × (rows (map Key.sk best) (map Key.pk best) (map Key.hash best) ≡ value text)
      × (length best ≡ numkeys)
      × IsAscending (rank Key.hash) best
      × Perm (lost ++ best) (replicate numkeys blank ++ searched c (suc (length early) * per_batch))
      × All (λ k. IsBelow (rank Key.hash) k best) lost
      × All (IsMade c) (searched c (suc (length early) * per_batch))
unfolding main report
main-best_secrets c program seconds start late early times h a l n addresses =
    let (s, t, e, f, k, made) =
      search-IsKept c start (at_least_zero (c.atoi seconds)) late early times h a l n in
    let zeros = replicate numkeys blank in
    let keys = searched c (suc (length early) * per_batch) in
    let best = keep_all (rank Key.hash) zeros keys in
    let zero_addresses = All-replicate HasAddress numkeys blank blank-HasAddress in
    let (text, g, u) =
      Returns-value (rows (map Key.sk best) (map Key.pk best) (map Key.hash best))
        (λ text. Unit {0})
        (rows-Returns best k.hashed
          (keep_all-All (rank Key.hash) HasAddress zeros keys zero_addresses addresses)) in
    (
      drop_all (rank Key.hash) zeros keys,
      best,
      text,
      rw (main, e, f, k.sks, k.pks, k.hashes, g) refl,
      g,
      length-keep_all (rank Key.hash) zeros keys,
      keep_all-IsAscending (rank Key.hash) zeros keys
          (IsAscending-replicate (rank Key.hash) numkeys blank),
      keep_all-perm (rank Key.hash) zeros keys,
      drop_all-IsBelow (rank Key.hash) zeros keys
          (IsAscending-replicate (rank Key.hash) numkeys blank),
      made,
    )
