-- ===== src/Brute/Curve25519/Kept.antt =====
-- contrib/yggdrasil-brute-simple/yggdrasil-brute-multi-curve25519.c: what the arrays of main hold.
use popura.Base.{
  ℕ, suc, ◌+◌, ◌%◌, ◌^◌, ◌<◌, ◌≡◌, refl, ap, ◌∙◌, inl, inr, List, map, none, some, arith, length,
  replicate, All, All-replicate,
}
use popura.Base.Panic.{value}
use popura.Base.Ranked.{keep, keep-All}
use popura.Base.Text.{Bytes}
use popura.Genkeys.Order.{IsBytes}
use popura.Brute.{Sodium, numkeys, find_where, insert}
use popura.Brute.Best.{IsHash, IsHashed, rank, find_where-cases}
use popura.Brute.Seeds.{next_seed, increment-next_seed}
use popura.Brute.Curve25519.{Search, start_search, advance, insert_at, round}
use popura.Brute.Curve25519.Clamp.{IsClamped, seed-IsClamped, length-IsClamped, next_seed-IsClamped}

-- What main relies on: the sizes of what libsodium writes, and that a multiple of the base point is no
-- fault.
pub record IsSodium (c : Sodium) : Type 0 where
  pub hash : (m : Bytes) → IsHash (c.sha512 m)
  pub multiple : (n : Bytes) → (pk : Bytes) × (c.scalarmult_base n ≡ some pk)
  pub random : (i : ℕ) → (length (c.random i) ≡ 32) × IsBytes (c.random i)

pub record Key : Type 0 where
  pub sk : Bytes
  pub pk : Bytes
  pub hash : Bytes

-- What the arrays hold before the first round.
abbrev pub blank : Key
blank = record { sk = replicate 32 0; pk = replicate 32 0; hash = replicate 64 0 }

-- The key that main makes of a secret key.
unfoldable pub key_of : Sodium → Bytes → Key
key_of c sk = elim (c.scalarmult_base sk) [
  | none ↦ blank
  | some pk ↦ record { sk = sk; pk = pk; hash = c.sha512 pk }
]

abbrev pub key : Sodium → Search → Key
key c s = key_of c s.sk

-- The arrays hold these keys.
pub record IsKept (s : Search) (ps : List Key) : Type 0 where
  pub sks : s.bestsklist ≡ map Key.sk ps
  pub pks : s.bestpklist ≡ map Key.pk ps
  pub hashes : s.besthashlist ≡ map Key.hash ps
  pub hashed : All (IsHashed Key.hash) ps
  pub clamped : IsClamped s.sk

advance-IsKept :
    (s : Search) (ps : List Key)
    → IsKept s ps
    → (s' : Search) × (advance s ≡ value (some s')) × IsKept s' ps × (s'.runs ≡ s.runs)
unfolding advance
advance-IsKept s ps i = (
  record s { sk = next_seed s.sk },
  rw (increment-next_seed s.sk (length-IsClamped s.sk i.clamped)) refl,
  record {
    sks = i.sks;
    pks = i.pks;
    hashes = i.hashes;
    hashed = i.hashed;
    clamped = next_seed-IsClamped s.sk i.clamped;
  },
  refl,
)

insert_at-IsKept :
    (c : Sodium) (s : Search) (ps : List Key) (k : Key)
    → IsSodium c
    → IsKept s ps
    → IsHashed Key.hash k
    → s.sk ≡ k.sk
    → (s' : Search) × (insert_at c s k.pk k.hash (find_where k.hash s.besthashlist)
        ≡ value (some s'))
      × IsKept s' (keep (rank Key.hash) k ps)
      × (s'.runs ≡ s.runs)
unfolding insert_at
insert_at-IsKept c s ps k h i j l = elim (find_where-cases Key.hash k ps j i.hashed) [
  | inl (e, same) ↦
      let place = ap (find_where k.hash) i.hashes ∙ e in rw (place, same) (advance-IsKept s ps i)
  | inr (w, e, inserted) ↦
      let kept = keep (rank Key.hash) k ps in
      let (sk', drawn, clamped) =
        seed-IsClamped (c.random s.drawn) (h.random s.drawn).0 (h.random s.drawn).1 in
      let s' = record s {
        sk = sk';
        bestsklist = map Key.sk kept;
        bestpklist = map Key.pk kept;
        besthashlist = map Key.hash kept;
        drawn = suc s.drawn;
      } in
      let place = ap (find_where k.hash) i.hashes ∙ e in
      let sks : insert s.bestsklist s.sk w ≡ value (map Key.sk kept) =
        ap (λ l. insert l s.sk w) i.sks
        ∙ ap (λ x. insert (map Key.sk ps) x w) l
        ∙ inserted Key.sk in
      let pks = ap (λ l. insert l k.pk w) i.pks ∙ inserted Key.pk in
      let hashes = ap (λ l. insert l k.hash w) i.hashes ∙ inserted Key.hash in
      rw (place, sks, pks, hashes, drawn)
        (advance-IsKept s' kept (record {
          sks = refl;
          pks = refl;
          hashes = refl;
          hashed = keep-All (rank Key.hash) (IsHashed Key.hash) k ps j i.hashed;
          clamped = clamped;
        }))
]

pub round-IsKept :
    (c : Sodium)
    → IsSodium c
    → (s : Search) (ps : List Key) → IsKept s ps
    → (s' : Search) × (round c s ≡ value (some s'))
      × IsKept s' (keep (rank Key.hash) (key c s) ps)
      × (s'.runs ≡ (s.runs + 1) % 2 ^ 32)
unfolding round key_of
round-IsKept c h s ps i =
    let (pk, e) = h.multiple s.sk in
    let counted = record s { runs = (s.runs + 1) % 2 ^ 32 } in
    let k : Key = record { sk = s.sk; pk = pk; hash = c.sha512 pk } in
    rw (e, round, key_of)
      (insert_at-IsKept c counted ps k h
        (record {
          sks = i.sks;
          pks = i.pks;
          hashes = i.hashes;
          hashed = i.hashed;
          clamped = i.clamped;
        })
        (h.hash pk) refl)

pub start-IsKept :
    (c : Sodium)
    → IsSodium c
    → (s : Search) × (start_search c ≡ value s) × IsKept s (replicate numkeys blank) × (s.runs ≡ 0)
unfolding start_search
start-IsKept c h =
    let (sk, e, clamped) = seed-IsClamped (c.random 0) (h.random 0).0 (h.random 0).1 in
    (
      record {
        sk = sk;
        bestsklist = map Key.sk (replicate numkeys blank);
        bestpklist = map Key.pk (replicate numkeys blank);
        besthashlist = map Key.hash (replicate numkeys blank);
        runs = 0;
        drawn = 1;
      },
      rw e refl,
      record {
        sks = refl;
        pks = refl;
        hashes = refl;
        hashed =
            All-replicate (IsHashed Key.hash) numkeys blank
              (refl, All-replicate (λ b. b < 256) 64 0 (omega arith));
        clamped = clamped;
      },
      refl,
    )
