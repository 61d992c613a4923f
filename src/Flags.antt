-- ===== src/Flags.antt =====
-- The package flag, as cmd/yggdrasil and cmd/yggdrasilctl use it: `flag.Parse` over Boolean and text
-- flags.
pub mod Command
pub mod RoundTrip
use popura.Base.{Bool, true, false, ◌||◌, List, [], ◌∷◌, Option, none, some, ◌==◌, if◌then◌else◌}
use popura.Base.Text.{Bytes, bytes, same, split_two}

-- `flag.Bool` or `flag.String`.
pub data Kind : Type 0 where
  boolean text : Kind

-- The flags of a program.
abbrev pub Flags : Type 0
Flags = List (Bytes × Kind)

pub data Value : Type 0 where
  switch : Bool → Value
  string : Bytes → Value

-- The flags that were set, the newest first.
abbrev pub Given : Type 0
Given = List (Bytes × Value)

-- What an argument is: no flag, `--`, a fault, or the name of a flag with the value after `=`.
pub data Shape : Type 0 where
  positional terminator malformed : Shape
  named : Bytes → Option Bytes → Shape

-- The name and the value, where the argument is cut at its first `=`.
abbrev pub named_by : List Bytes → Shape
named_by [] = malformed
named_by (name ∷ []) = named name none
named_by (name ∷ value ∷ pieces) = named name (some value)

-- The argument behind its dashes.
unfoldable pub after_dashes : Bytes → Shape
after_dashes [] = malformed
after_dashes (c ∷ s) =
    if c == b'-' || c == b'=' then malformed else named_by (split_two b'=' (c ∷ s))

-- The argument behind two dashes.
unfoldable pub after_two : Bytes → Shape
unfolding after_dashes
after_two [] = terminator
after_two (c ∷ s) = after_dashes (c ∷ s)

-- The argument behind one dash.
unfoldable pub after_one : Bytes → Shape
unfolding after_two
after_one [] = positional
after_one (c ∷ s) = if c == b'-' then after_two s else after_dashes (c ∷ s)

unfoldable pub shape : Bytes → Shape
unfolding after_one
shape [] = positional
shape (c ∷ s) = if c == b'-' then after_one s else positional

unfoldable pub kind_of : Bytes → Flags → Option Kind
kind_of name [] = none
kind_of name ((n, k) ∷ flags) =
    let rest = kind_of name flags in if same n name then some k else rest

abbrev pub one_of : Bytes → List Bytes → Bool
one_of s [] = false
one_of s (t ∷ ts) = same s t || one_of s ts

-- `strconv.ParseBool`
unfoldable pub parse_bool : Bytes → Option Bool
parse_bool s =
    if one_of s
      (bytes "1" ∷ bytes "t" ∷ bytes "T" ∷ bytes "true" ∷ bytes "TRUE" ∷ bytes "True" ∷ [])
    then some true
    else if one_of s
        (bytes "0" ∷ bytes "f" ∷ bytes "F" ∷ bytes "false" ∷ bytes "FALSE" ∷ bytes "False" ∷ [])
    then some false
    else none

-- A Boolean flag without a value is true.
abbrev pub bool_value : Option Bytes → Option Bool
bool_value none = some true
bool_value (some s) = parse_bool s

-- Why the program exits: the help, with code 0, or a fault, with code 2.
pub data Failure : Type 0 where
  help fault : Failure

-- The flags that were set and the arguments behind them, or an exit.
pub data Parsed : Type 0 where
  parsed : Given → List Bytes → Parsed
  failed : Failure → Parsed

-- What a flag does that is not defined.
abbrev pub undefined_flag : Bytes → Failure
undefined_flag name = if same name (bytes "help") || same name (bytes "h") then help else fault

-- What an argument does: it sets a flag, makes a text flag wait for its value, ends the flags and is
-- left or dropped, or fails.
pub data Move : Type 0 where
  sets : Bytes → Value → Move
  waits : Bytes → Move
  stops ends : Move
  fails : Failure → Move

abbrev pub move_bool : Bytes → Option Bool → Move
move_bool name none = fails fault
move_bool name (some b) = sets name (switch b)

abbrev pub move_kind : Bytes → Option Bytes → Option Kind → Move
move_kind name v none = fails (undefined_flag name)
move_kind name v (some boolean) = move_bool name (bool_value v)
move_kind name none (some text) = waits name
move_kind name (some s) (some text) = sets name (string s)

abbrev pub move_shape : Flags → Shape → Move
move_shape flags positional = stops
move_shape flags terminator = ends
move_shape flags malformed = fails fault
move_shape flags (named name v) = move_kind name v (kind_of name flags)

unfoldable pub move : Flags → Bytes → Move
unfolding shape kind_of parse_bool
move flags s = move_shape flags (shape s)

-- `parseOne` again and again. The name is that of a text flag whose value is the next argument.
unfoldable pub parse_from : Flags → Given → Option Bytes → List Bytes → Parsed
parse_from flags given none [] = parsed given []
parse_from flags given (some name) [] = failed fault
parse_from flags given (some name) (s ∷ rest) =
    parse_from flags ((name, string s) ∷ given) none rest
parse_from flags given none (s ∷ rest) = elim (move flags s) [
  | sets name v ↦ parse_from flags ((name, v) ∷ given) none rest
  | waits name ↦ parse_from flags given (some name) rest
  | stops ↦ parsed given (s ∷ rest)
  | ends ↦ parsed given rest
  | fails p ↦ failed p
]

-- `flag.Parse`
unfoldable pub parse : Flags → List Bytes → Parsed
unfolding parse_from move
parse flags args = parse_from flags [] none args

-- The value of a flag, or its default.
abbrev pub switch_or : Bool → Value → Bool
switch_or b (switch c) = c
switch_or b (string s) = b

abbrev pub string_or : Bytes → Value → Bytes
string_or s (switch c) = s
string_or s (string t) = t

unfoldable pub bool_flag : Given → Bytes → Bool → Bool
bool_flag [] name default = default
bool_flag ((n, v) ∷ given) name default =
    let rest = bool_flag given name default in if same n name then switch_or default v else rest

unfoldable pub string_flag : Given → Bytes → Bytes → Bytes
string_flag [] name default = default
string_flag ((n, v) ∷ given) name default =
    let rest = string_flag given name default in if same n name then string_or default v else rest
