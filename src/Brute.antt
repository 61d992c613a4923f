-- ===== src/Brute.antt =====
-- contrib/yggdrasil-brute-simple: the search for keys in C. util.c, and what its two programs share.
pub mod Arrays
pub mod Best
pub mod Loop
pub mod Ed25519
pub mod Curve25519
pub mod Seeds
mod Tests
use Prim.Native.Nat.{bit_and, bit_or}
use popura.Base.{
  ℕ, zero, suc, ◌+◌, ◌-◌, ◌*◌, ◌/◌, ◌%◌, ◌^◌, Bool, true, false, List, [], ◌∷◌, ◌++◌, Option, none,
  some, ltb, ◌==◌, if◌then◌else◌, length, get_elem?, set, replicate,
}
use popura.Base.Panic.{Exec, value, panic, index_out_of_range, ◌>>=◌}
use popura.Base.Text.{Bytes}

-- `NUMKEYS`
abbrev pub numkeys : ℕ
numkeys = 10

pub data ℤ : Type 0 where
  pos negsuc : ℕ → ℤ

-- What the programs call. libsodium: `crypto_hash_sha512`, the multiple of
-- the base point of one of the two curves, `none` where it fails, and the buffers of 32 bytes that
-- `randombytes_buf` gives, by the number of the call. libc: `atoi`.
pub record Sodium : Type 0 where
  pub sha512 : Bytes → Bytes
  pub scalarmult_base : Bytes → Option Bytes
  pub random : ℕ → Bytes
  pub atoi : Bytes → ℤ

-- What the process prints to stdout, and its exit code.
pub record Result : Type 0 where
  pub code : ℕ
  pub stdout : Bytes

-- `if (requestedtime < 0) requestedtime = 0`
unfoldable pub at_least_zero : ℤ → ℕ
at_least_zero (pos n) = n
at_least_zero (negsuc n) = 0

-- `memcmp(a, b, n) > 0` of two arrays of n bytes.
unfoldable pub memcmp_greater : Bytes → Bytes → Bool
memcmp_greater [] bs = false
memcmp_greater (a ∷ as') [] = false
memcmp_greater (a ∷ as') (b ∷ bs) =
    let rest = memcmp_greater as' bs in if ltb b a then true else if ltb a b then false else rest

-- The loop of `find_where`. The number is one more than the source's `where`, which starts at -1.
unfoldable pub find_from : Bytes → List Bytes → ℕ → ℕ
unfolding memcmp_greater
find_from hash [] where' = where'
find_from hash (best ∷ list) where' = elim (memcmp_greater hash best) [
  | true ↦ find_from hash list (suc where')
  | false ↦ where'
]

unfoldable pub find_where : Bytes → List Bytes → ℕ
unfolding find_from
find_where hash besthashlist = find_from hash besthashlist 0

-- An access out of bounds, which C leaves undefined, is a panic here.
unfoldable pub load {ℓ} : {A : Type ℓ} → List A → ℕ → Exec A
load list i = elim (get_elem? list i) [ none ↦ panic index_out_of_range | some x ↦ value x ]

unfoldable pub store {ℓ} : {A : Type ℓ} → List A → ℕ → A → Exec (List A)
store list i x = if ltb i (length list) then value (set list i x) else panic index_out_of_range

-- `list[i] = f(list[i])`
unfoldable pub update : (ℕ → ℕ) → ℕ → Bytes → Exec Bytes
unfolding load store
update f i list = do x ← load list i; store list i (f x)

-- `insert_64` and `insert_32` from index j, with the rounds that are left.
unfoldable pub insert_from {ℓ} : {A : Type ℓ} → ℕ → ℕ → List A → A → Exec (List A)
unfolding load store
insert_from zero j itemlist item = store itemlist j item
insert_from (suc rounds) j itemlist item = do
  next ← load itemlist (suc j)
  itemlist' ← store itemlist j next
  insert_from rounds (suc j) itemlist' item

unfoldable pub insert {ℓ} : {A : Type ℓ} → List A → A → ℕ → Exec (List A)
unfolding insert_from
insert itemlist item where' = insert_from where' 0 itemlist item

-- `for (j = 1; j < 31; ++j) if (++seed[j]) break;`, with the rounds that are left.
unfoldable pub increment_from : ℕ → ℕ → Bytes → Exec Bytes
unfolding load store
increment_from zero j seed = value seed
increment_from (suc rounds) j seed = do
  b ← load seed j
  seed' ← store seed j ((b + 1) % 256)
  let rest = increment_from rounds (suc j) seed'
  if (b + 1) % 256 == 0 then rest else value seed'

unfoldable pub increment : Bytes → Exec Bytes
unfolding increment_from
increment seed = increment_from 30 1 seed

-- The loop over the masks of a byte: how many ones are in front, and whether a zero follows.
unfoldable pub ones_of : List ℕ → ℕ → ℕ × Bool
ones_of [] c = (0, false)
ones_of (mask ∷ masks) c = elim (bit_and c mask == 0) [
  | true ↦ (0, true)
  | false ↦ let (ones, br) = ones_of masks c in (suc ones, br)
]

abbrev pub masks : List ℕ
masks = 128 ∷ 64 ∷ 32 ∷ 16 ∷ 8 ∷ 4 ∷ 2 ∷ 1 ∷ []

-- The first loop of `make_addr`.
unfoldable pub leading_ones : Bytes → ℕ
unfolding ones_of
leading_ones [] = 0
leading_ones (c ∷ hash) =
    let (ones, br) = ones_of masks c in elim br [ true ↦ ones | false ↦ ones + leading_ones hash ]

-- The second loop of `make_addr`, from the bit with number `offset`.
unfoldable pub addr_from : ℕ → ℕ → Bytes → Exec Bytes
unfolding load
addr_from zero offset hash = value []
addr_from (suc rounds) offset hash = do
  high ← load hash (offset / 8)
  low ← load hash (offset / 8 + 1)
  rest ← addr_from rounds (offset + 8) hash
  value (bit_or (high * 2 ^ (offset % 8) % 256) (low / 2 ^ (8 - offset % 8)) ∷ rest)

-- `make_addr`: the 16 bytes that it writes.
unfoldable pub make_addr : Bytes → Exec Bytes
unfolding leading_ones addr_from
make_addr hash = do
  rest ← addr_from 14 (leading_ones hash + 1) hash
  value (2 ∷ leading_ones hash % 256 ∷ rest)
