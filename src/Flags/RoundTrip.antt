-- ===== src/Flags/RoundTrip.antt =====
-- Flags that are written as `-name=value` are read back.
use popura.Base.{
  Bool, true, false, not, ◌&&◌, ◌≡◌, refl, ◌∙◌, List, [], ◌∷◌, ◌++◌, map, none, some, arith, All,
  Bool-cases, inl, inr, ◌==◌,
}
use popura.Base.Text.{Bytes, bytes, same, same_iff, split_two-key}
use popura.Flags.{
  Kind, boolean, text, Flags, Value, switch, string, Given, named, shape, kind_of, parse_bool,
  parsed, sets, move, parse_from, parse,
}
use popura.Flags.Command.{parse_from-cons, parse_from-nil}

abbrev pub print_bool : Bool → Bytes
print_bool true = bytes "true"
print_bool false = bytes "false"

abbrev pub print_value : Value → Bytes
print_value (switch b) = print_bool b
print_value (string s) = s

-- `-name=value`
abbrev pub print_flag : Bytes × Value → Bytes
print_flag (name, v) = b'-' ∷ (name ++ (b'=' ∷ print_value v))

abbrev pub kind : Value → Kind
kind (switch b) = boolean
kind (string s) = text

no_equals : Bytes → Bool
no_equals [] = true
no_equals (c ∷ s) = not (c == b'=') && no_equals s

-- A name that a command line can hold: not empty, no dash in front, no `=` inside.
pub is_name : Bytes → Bool
unfolding no_equals
is_name [] = false
is_name (c ∷ s) = not (c == b'-') && no_equals (c ∷ s)

-- All names of the program's flags are such names.
unfoldable pub are_names : Flags → Bool
unfolding is_name
are_names [] = true
are_names ((name, k) ∷ flags) = is_name name && are_names flags

-- The value is one for a flag of the program.
abbrev pub Fits : Flags → Bytes × Value → Type 0
Fits flags (name, v) = kind_of name flags ≡ some (kind v)

-- Assignments one after another, the newest first.
abbrev pub onto : List (Bytes × Value) → Given → Given
onto [] given = given
onto (v ∷ vs) given = onto vs (v ∷ given)

no_equals-All : (s : Bytes) → no_equals s ≡ true → All (λ c. (c == b'=') ≡ false) s
unfolding no_equals
no_equals-All [] h = tt
no_equals-All (c ∷ s) h = (ground arith, no_equals-All s (ground arith))

is_name-of_kind :
    (flags : Flags) (name : Bytes) (k : Kind)
    → are_names flags ≡ true
    → kind_of name flags ≡ some k
    → is_name name ≡ true
unfolding are_names kind_of
is_name-of_kind [] name k h e = absurd (cc)
is_name-of_kind ((n, j) ∷ flags) name k h e = elim (Bool-cases (same n name)) [
  | inl s ↦ let same_name : n ≡ name = (same_iff n name).0 s in rw (← same_name) (ground arith)
  | inr s ↦ is_name-of_kind flags name k (ground arith) (rw s at e)
]

shape-print_flag :
    (name : Bytes) (v : Value)
    → is_name name ≡ true
    → shape (print_flag (name, v)) ≡ named name (some (print_value v))
unfolding shape is_name
shape-print_flag [] v h = absurd (cc)
shape-print_flag (c ∷ s) v h =
    let dash : (c == b'-') ≡ false = ground arith in
    let equals : (c == b'=') ≡ false = ground arith in
    let split = split_two-key b'=' (c ∷ s) (print_value v) (no_equals-All (c ∷ s) (ground arith)) in
    rw (dash, equals, split)

parse_bool-print_bool : (b : Bool) → parse_bool (print_bool b) ≡ some b
unfolding parse_bool same
parse_bool-print_bool true = refl
parse_bool-print_bool false = refl

move-print_flag :
    (flags : Flags) (name : Bytes) (v : Value)
    → is_name name ≡ true
    → Fits flags (name, v)
    → move flags (print_flag (name, v)) ≡ sets name v
unfolding move
move-print_flag flags name (switch b) h f =
    rw (shape-print_flag name (switch b) h, f, parse_bool-print_bool b)
move-print_flag flags name (string s) h f = rw (shape-print_flag name (string s) h, f)

module _ (flags : Flags) (ok : are_names flags ≡ true) where
  parse_from-print :
      (vs : List (Bytes × Value)) (given : Given)
      → All (Fits flags) vs
      → parse_from flags given none (map print_flag vs) ≡ parsed (onto vs given) []
  parse_from-print [] given h = parse_from-nil flags given
  parse_from-print ((name, v) ∷ vs) given h =
      let moved = move-print_flag flags name v (is_name-of_kind flags name (kind v) ok h.0) h.0 in
      parse_from-cons flags given (print_flag (name, v)) (map print_flag vs)
      ∙ rw moved (parse_from-print vs ((name, v) ∷ given) h.1)

  -- Parsing `-name=value` for each of some flags sets these flags, in their order, and leaves no
  -- argument.
  pub parse-print :
      (vs : List (Bytes × Value))
      → All (Fits flags) vs
      → parse flags (map print_flag vs) ≡ parsed (onto vs []) []
  unfolding parse
  parse-print vs h = parse_from-print vs [] h
