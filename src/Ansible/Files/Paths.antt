-- ===== src/Ansible/Files/Paths.antt =====
-- contrib/ansible/genkeys.go: the hosts' files have different names.
use popura.Base.{
  ℕ, zero, suc, ◌+◌, ◌*◌, ◌/◌, ◌%◌, ◌≤◌, ◌<◌, true, false, ◌≡◌, refl, sym, ap, ◌∙◌, inl, inr, [],
  ◌∷◌, ◌++◌, Option, none, some, arith, Bool-cases, ltb, ◌==◌, drop,
}
use popura.Base.Text.{Bytes}
use popura.Keys.Hex.{digit, from_digit}
use popura.Keys.RoundTrip.{from_digit-digit}
use popura.Ansible.Files.{hex_from, format_hex, file_path}

-- The number of a digit, 0 for any other byte.
abbrev number_of : Option ℕ → ℕ
number_of none = 0
number_of (some d) = d

-- The number in front of the first slash, behind one that is read already, and what follows.
unfoldable read : ℕ → Bytes → ℕ × Bytes
read n [] = (n, [])
read n (c ∷ s) = elim (c == b'/') [
  | true ↦ (n, s)
  | false ↦ read (n * 16 + number_of (from_digit c)) s
]

digit-slash : (d : ℕ) → d < 16 → (digit d == b'/') ≡ false
unfolding digit
digit-slash d h = ground arith

read-step :
    (n c d : ℕ) (s : Bytes)
    → (c == b'/') ≡ false
    → from_digit c ≡ some d
    → read n (c ∷ s) ≡ read (n * 16 + d) s
unfolding read
read-step n c d s h e = ground arith

read-digit : (n d : ℕ) (s : Bytes) → d < 16 → read n (digit d ∷ s) ≡ read (n * 16 + d) s
read-digit n d s h = read-step n (digit d) d s (digit-slash d h) (from_digit-digit d h)

hex_from-small :
    (rounds n : ℕ) (s : Bytes) → ltb n 16 ≡ true → hex_from (suc rounds) n s ≡ digit n ∷ s
unfolding hex_from
hex_from-small rounds n s h = ground arith

hex_from-large :
    (rounds n : ℕ) (s : Bytes)
    → ltb n 16 ≡ false
    → hex_from (suc rounds) n s ≡ hex_from rounds (n / 16) (digit (n % 16) ∷ s)
unfolding hex_from
hex_from-large rounds n s h = ground arith

-- What `%x` prints is read back, whatever follows it.
read-hex_from : (rounds n : ℕ) (s : Bytes) → n ≤ rounds → read 0 (hex_from rounds n s) ≡ read n s
unfolding hex_from
read-hex_from zero n s h =
    let zero_times : 0 * 16 + n ≡ n = omega arith in
    read-digit 0 n s (omega arith) ∙ ap (λ m. read m s) zero_times
read-hex_from (suc rounds) n s h = elim (Bool-cases (ltb n 16)) [
  | inl small ↦
      let zero_times : 0 * 16 + n ≡ n = omega arith in
      ap (read 0) (hex_from-small rounds n s small)
      ∙ read-digit 0 n s (ground arith)
      ∙ ap (λ m. read m s) zero_times
  | inr large ↦
      let big : 16 ≤ n = ground arith in
      let last : n / 16 * 16 + n % 16 ≡ n = omega arith in
      ap (read 0) (hex_from-large rounds n s large)
      ∙ read-hex_from rounds (n / 16) (digit (n % 16) ∷ s) (omega arith)
      ∙ read-digit (n / 16) (n % 16) s (omega arith)
      ∙ ap (λ m. read m s) last
]

hex_from-append :
    (rounds n : ℕ) (s t : Bytes) → hex_from rounds n s ++ t ≡ hex_from rounds n (s ++ t)
unfolding hex_from
hex_from-append zero n s t = refl
hex_from-append (suc rounds) n s t = elim (Bool-cases (ltb n 16)) [
  | inl small ↦
      ap (λ r. r ++ t) (hex_from-small rounds n s small)
      ∙ sym (hex_from-small rounds n (s ++ t) small)
  | inr large ↦
      ap (λ r. r ++ t) (hex_from-large rounds n s large)
      ∙ hex_from-append rounds (n / 16) (digit (n % 16) ∷ s) t
      ∙ sym (hex_from-large rounds n (s ++ t) large)
]

read-format_hex : (i : ℕ) (name : Bytes) → read 0 (format_hex i ++ (b'/' ∷ name)) ≡ (i, name)
unfolding format_hex read
read-format_hex i name =
    ap (read 0) (hex_from-append i i [] (b'/' ∷ name))
    ∙ read-hex_from i i (b'/' ∷ name) (omega arith)

-- The path of a file gives its host and its name.
pub file_path-injective :
    (i j : ℕ) (a b : Bytes) → file_path i a ≡ file_path j b → (i ≡ j) × (a ≡ b)
file_path-injective i j a b h =
    let e = sym (read-format_hex i a) ∙ ap (λ s. read 0 (drop 10 s)) h ∙ read-format_hex j b in
    (ap (λ r. r.0) e, ap (λ r. r.1) e)
