-- ===== src/Keys.antt =====
-- src/popura/utils.go: the address and the subnet of a private key in hex.
pub mod Hex
pub mod RoundTrip
mod Tests
use popura.Base.{
  ℕ, zero, suc, ◌+◌, ◌-◌, ◌*◌, ◌/◌, ◌^◌, ◌||◌, not, Bool, List, [], ◌∷◌, ◌++◌, Option, none, some,
  leb, ◌==◌, if◌then◌else◌, length, take, drop, replicate,
}
use popura.Base.Panic.{Exec, value, panic, slice_out_of_bounds, ◌>>=◌}
use popura.Base.Text.{Bytes}
use popura.Keys.Hex.{decode_string}

-- `ed25519.PublicKeySize`
abbrev pub public_key_size : ℕ
public_key_size = 32

-- `ed25519.PrivateKey.Public`: what follows the first 32 bytes, copied into 32 bytes.
unfoldable pub public : Bytes → Exec Bytes
public priv =
    if leb 32 (length priv)
    then value (take public_key_size (drop 32 priv ++ replicate public_key_size 0))
    else panic slice_out_of_bounds

-- `decodeKey`: the error of `hex.DecodeString` is dropped.
unfoldable pub decode_key : Bytes → Exec Bytes
unfolding public
decode_key input = let (key_data, ok) = decode_string input in public key_data

-- `net.IPNet`
pub record IpNet : Type 0 where
  pub ip : Bytes
  pub mask : Bytes

-- The bytes of a mask of n ones.
unfoldable pub mask_bytes : ℕ → ℕ → Bytes
mask_bytes zero n = []
mask_bytes (suc l) n =
    let full = mask_bytes l (n - 8) in
    let empty = mask_bytes l 0 in if leb 8 n then 255 ∷ full else (255 - 255 / 2 ^ n) ∷ empty

-- `net.CIDRMask(ones, bits)`; nil is the empty mask.
unfoldable pub cidr_mask : ℕ → ℕ → Bytes
unfolding mask_bytes
cidr_mask ones bits =
    if not (bits == 32 || bits == 128) || not (leb ones bits)
    then []
    else mask_bytes (bits / 8) ones

-- `SubnetFromKey`; `subnet_for_key` stands for `address.SubnetForKey`.
unfoldable pub subnet_from_key : (Bytes → Bytes) → Bytes → Exec IpNet
unfolding decode_key cidr_mask
subnet_from_key subnet_for_key input = do
  key ← decode_key input
  let snet = subnet_for_key key
  value (record {
    ip = snet ++ (0 ∷ 0 ∷ 0 ∷ 0 ∷ 0 ∷ 0 ∷ 0 ∷ 0 ∷ []);
    mask = cidr_mask (length snet * 8) 128;
  })

-- `AddressFromKey`; `addr_for_key` stands for `address.AddrForKey`.
unfoldable pub address_from_key : (Bytes → Bytes) → Bytes → Exec Bytes
unfolding decode_key
address_from_key addr_for_key input = decode_key input >>= λ key. value (addr_for_key key)
