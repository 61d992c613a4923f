-- ===== src/Keys/RoundTrip.antt =====
-- Keys that were written in hex are read back.
use mathlib.Core.Path.{subst}
use popura.Base.{
  ℕ, ◌+◌, ◌*◌, ◌/◌, ◌%◌, ◌<◌, ◌≤◌, true, ◌≡◌, refl, ap, List, [], ◌∷◌, ◌++◌, some, arith, leb,
  length, take, drop, replicate, All, Bool-cases, inl, inr, take-length_append, drop-length_append,
  length-append, length-take, ◌⊎◌,
}
use popura.Base.Panic.{value, panic, slice_out_of_bounds}
use popura.Base.Text.{Bytes}
use popura.Keys.Hex.{digit, from_digit, encode_to_string, decode_string}
use popura.Keys.{public, decode_key, cidr_mask, subnet_from_key, address_from_key}

abbrev pub IsByte : ℕ → Type 0
IsByte b = b < 256

pub from_digit-digit : (n : ℕ) → n < 16 → from_digit (digit n) ≡ some n
unfolding from_digit digit
from_digit-digit n h = ground arith

-- Decoding what was encoded gives the same bytes, without a fault.
pub decode_string-encode :
    (bs : Bytes) → All IsByte bs → decode_string (encode_to_string bs) ≡ (bs, true)
unfolding decode_string encode_to_string
decode_string-encode [] h = refl
decode_string-encode (b ∷ bs) h =
    let high = from_digit-digit (b / 16) (omega (arith, h.0)) in
    let low = from_digit-digit (b % 16) (omega arith) in
    let digits : b / 16 * 16 + b % 16 ≡ b = omega arith in
    rw (high, low, decode_string-encode bs h.1) (ap (λ (c : ℕ). (c ∷ bs, true)) digits)

module _ {ℓ} {A : Type ℓ} where
  -- The two parts of an appended list, where the length of the first is known.
  drop_part : (n : ℕ) (xs ys : List A) → length xs ≡ n → drop n (xs ++ ys) ≡ ys
  drop_part n xs ys h = subst (λ m. drop m (xs ++ ys) ≡ ys) h (drop-length_append xs ys)

  take_part : (n : ℕ) (xs ys : List A) → length xs ≡ n → take n (xs ++ ys) ≡ xs
  take_part n xs ys h = subst (λ m. take m (xs ++ ys) ≡ xs) h (take-length_append xs ys)

public-append :
    (seed key : Bytes) → length seed ≡ 32 → length key ≡ 32 → public (seed ++ key) ≡ value key
unfolding public
public-append seed key s k =
    let long : leb 32 (length (seed ++ key)) ≡ true = ground (arith, length-append seed key) in
    rw (long, drop_part 32 seed key s) (ap value (take_part 32 key (replicate 32 0) k))

-- A private key: a seed and a public key of 32 bytes each.
abbrev pub IsPrivateKey : Bytes → Bytes → Type 0
IsPrivateKey seed key = All IsByte (seed ++ key) × (length seed ≡ 32) × (length key ≡ 32)

decode_key-encode :
    (seed key : Bytes)
    → IsPrivateKey seed key
    → decode_key (encode_to_string (seed ++ key)) ≡ value key
unfolding decode_key
decode_key-encode seed key (h, s, k) =
    rw (decode_string-encode (seed ++ key) h) (public-append seed key s k)

-- `AddressFromKey`, on the hex of a private key, a seed of 32 bytes and then the 32 bytes of the
-- public key, gives the address of that public key.
pub address_from_key-encode :
    (addr_for_key : Bytes → Bytes) (seed key : Bytes)
    → IsPrivateKey seed key
    → address_from_key addr_for_key (encode_to_string (seed ++ key)) ≡ value (addr_for_key key)
unfolding address_from_key
address_from_key-encode addr_for_key seed key h = rw (decode_key-encode seed key h)

-- `SubnetFromKey`, on the hex of a private key, gives the 8 bytes of the subnet of its public key and
-- 8 zeros, with a mask of 64 ones and 64 zeros, where `address.SubnetForKey` gives 8 bytes.
subnet_from_key-encode :
    (subnet_for_key : Bytes → Bytes) (seed key : Bytes)
    → IsPrivateKey seed key
    → length (subnet_for_key key) ≡ 8
    → subnet_from_key subnet_for_key (encode_to_string (seed ++ key))
      ≡ value (record {
        ip = subnet_for_key key ++ replicate 8 0;
        mask = replicate 8 255 ++ replicate 8 0;
      })
unfolding subnet_from_key cidr_mask
subnet_from_key-encode subnet_for_key seed key h l = rw (decode_key-encode seed key h, l)

-- `decodeKey` panics exactly when fewer than 32 bytes stand in front of the first fault of the hex
-- input; otherwise it gives 32 bytes.
pub decode_key-cases :
    (input : Bytes)
    → ((decode_key input ≡ panic slice_out_of_bounds) × (length (decode_string input).0 < 32))
      ⊎ ((key : Bytes) × (decode_key input ≡ value key)
          × (length key ≡ 32)
          × (32 ≤ length (decode_string input).0))
unfolding decode_key public
decode_key-cases input = elim (Bool-cases (leb 32 (length (decode_string input).0))) [
  | inl h ↦
      let rest = drop 32 (decode_string input).0 in
      let size = length-take 32 (rest ++ replicate 32 0) in
      let total = length-append rest (replicate 32 0) in
      inr (take 32 (rest ++ replicate 32 0), rw h, omega (arith, size, total), ground arith)
  | inr h ↦ inl (rw h, ground arith)
]
