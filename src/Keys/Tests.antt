-- ===== src/Keys/Tests.antt =====
-- Keys in hex on concrete inputs.
use popura.Base.{
  false, ◌≡◌, refl, ◌<◌, ◌≤◌, ◌⊎◌, [], ◌∷◌, ◌++◌, length, take, replicate, All-append,
  All-replicate, arith,
}
use popura.Base.Panic.{value, panic, slice_out_of_bounds}
use popura.Base.Text.{Bytes, bytes}
use popura.Keys.{decode_key, address_from_key}
use popura.Keys.Hex.{encode_to_string, decode_string, from_digit}
use popura.Keys.RoundTrip.{IsByte, IsPrivateKey, address_from_key-encode, decode_key-cases}

abbrev seed : Bytes
seed = replicate 32 1

abbrev key : Bytes
key = replicate 32 254

seed-IsPrivateKey : IsPrivateKey seed key
seed-IsPrivateKey = (
  All-append IsByte seed key (All-replicate IsByte 32 1 (omega arith))
      (All-replicate IsByte 32 254 (omega arith)),
  refl,
  refl,
)

abbrev first_bytes : Bytes → Bytes
first_bytes k = take 8 k

address_from_key-encode_example :
    address_from_key first_bytes (encode_to_string (seed ++ key)) ≡ value (replicate 8 254)
address_from_key-encode_example = address_from_key-encode first_bytes seed key seed-IsPrivateKey

-- A digit pair that is no hex ends the key; the bytes in front of it count.
fault_decodes : decode_string (bytes "0aFFxx01") ≡ (10 ∷ 255 ∷ [], false)
unfolding decode_string from_digit
fault_decodes = refl

decode_key-cases_example :
    ((decode_key (bytes "0aFF") ≡ panic slice_out_of_bounds)
      × (length (decode_string (bytes "0aFF")).0 < 32))
    ⊎ ((k : Bytes) × (decode_key (bytes "0aFF") ≡ value k)
        × (length k ≡ 32)
        × (32 ≤ length (decode_string (bytes "0aFF")).0))
decode_key-cases_example = decode_key-cases (bytes "0aFF")
