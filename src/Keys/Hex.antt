-- ===== src/Keys/Hex.antt =====
-- The package encoding/hex, as the program uses it.
use popura.Base.{
  ℕ, ◌+◌, ◌-◌, ◌*◌, ◌/◌, ◌%◌, Bool, true, false, ◌&&◌, [], ◌∷◌, Option, none, some, leb, ltb,
  if◌then◌else◌,
}
use popura.Base.Text.{Bytes}

-- The digit of a number below 16.
unfoldable pub digit : ℕ → ℕ
digit n = if ltb n 10 then b'0' + n else b'a' + (n - 10)

-- The number of a digit, of either case.
unfoldable pub from_digit : ℕ → Option ℕ
from_digit c =
    if leb b'0' c && leb c b'9'
    then some (c - b'0')
    else if leb b'a' c && leb c b'f'
    then some (c - b'a' + 10)
    else if leb b'A' c && leb c b'F'
    then some (c - b'A' + 10)
    else none

-- `hex.EncodeToString`
unfoldable pub encode_to_string : Bytes → Bytes
unfolding digit
encode_to_string [] = []
encode_to_string (b ∷ bs) = digit (b / 16) ∷ digit (b % 16) ∷ encode_to_string bs

-- One pair of digits in front of what the rest gives.
abbrev pub push : Option ℕ → Option ℕ → Bytes × Bool → Bytes × Bool
push (some p) (some q) (bs, ok) = ((p * 16 + q) ∷ bs, ok)
push p q rest = ([], false)

-- `hex.DecodeString`: the bytes in front of the first fault, and whether there is none. A digit
-- without a partner is a fault.
unfoldable pub decode_string : Bytes → Bytes × Bool
unfolding from_digit
decode_string [] = ([], true)
decode_string (p ∷ []) = ([], false)
decode_string (p ∷ q ∷ s) = push (from_digit p) (from_digit q) (decode_string s)
