-- ===== src/Flags/Command.antt =====
-- Options stand in front of the command.
use popura.Base.{◌≡◌, refl, sym, ◌∙◌, List, [], ◌∷◌, ◌++◌, Option, none, some, arith}
use popura.Base.Text.{Bytes}
use popura.Flags.{
  Flags, Given, string, positional, Parsed, parsed, failed, fault, Move, sets, waits, stops, ends,
  fails, shape, move, parse_from,
}

-- The loop on one more argument, by what the argument does.
abbrev pub after_move : Flags → Given → Bytes → List Bytes → Move → Parsed
after_move flags given s rest (sets name v) = parse_from flags ((name, v) ∷ given) none rest
after_move flags given s rest (waits name) = parse_from flags given (some name) rest
after_move flags given s rest stops = parsed given (s ∷ rest)
after_move flags given s rest ends = parsed given rest
after_move flags given s rest (fails p) = failed p

pub parse_from-cons :
    (flags : Flags) (given : Given) (s : Bytes) (rest : List Bytes)
    → parse_from flags given none (s ∷ rest) ≡ after_move flags given s rest (move flags s)
unfolding parse_from
parse_from-cons flags given s rest = ground arith

pub parse_from-nil :
    (flags : Flags) (given : Given) → parse_from flags given none [] ≡ parsed given []
unfolding parse_from
parse_from-nil flags given = refl

parse_from-waits_nil :
    (flags : Flags) (given : Given) (name : Bytes)
    → parse_from flags given (some name) [] ≡ failed fault
unfolding parse_from
parse_from-waits_nil flags given name = refl

pub parse_from-waits :
    (flags : Flags) (given : Given) (name s : Bytes) (rest : List Bytes)
    → parse_from flags given (some name) (s ∷ rest)
      ≡ parse_from flags ((name, string s) ∷ given) none rest
unfolding parse_from
parse_from-waits flags given name s rest = refl

module _ (flags : Flags) (command : Bytes) (rest : List Bytes)
    (h : shape command ≡ positional) where
  -- The command and more stand behind the arguments, and are left.
  abbrev Extends : Given → List Bytes → Given → Option Bytes → Type 0
  Extends result before given waiting =
      parse_from flags given waiting before ≡ parsed result []
      → parse_from flags given waiting (before ++ (command ∷ rest)) ≡ parsed result (command ∷ rest)

  command-stops : move flags command ≡ stops
  unfolding move
  command-stops = rw h

  after_move-append :
      (m : Move) (given result : Given) (s : Bytes) (before : List Bytes)
      → ((given' : Given) (waiting : Option Bytes) → Extends result before given' waiting)
      → after_move flags given s before m ≡ parsed result []
      → after_move flags given s (before ++ (command ∷ rest)) m ≡ parsed result (command ∷ rest)
  after_move-append (sets name v) given result s before ih e = ih ((name, v) ∷ given) none e
  after_move-append (waits name) given result s before ih e = ih given (some name) e
  after_move-append stops given result s before ih e = absurd (cc)
  after_move-append ends given result s before ih e = cc
  after_move-append (fails p) given result s before ih e = absurd (cc)

  pub parse_from-append :
      (before : List Bytes) (result given : Given) (waiting : Option Bytes)
      → Extends result before given waiting
  parse_from-append [] result given none e =
      rw (parse_from-cons flags given command rest, command-stops) (cc (parse_from-nil flags given))
  parse_from-append [] result given (some name) e =
      absurd (cc (parse_from-waits_nil flags given name))
  parse_from-append (s ∷ before) result given (some name) e =
      parse_from-waits flags given name s (before ++ (command ∷ rest))
      ∙ parse_from-append before result ((name, string s) ∷ given) none
          (sym (parse_from-waits flags given name s before) ∙ e)
  parse_from-append (s ∷ before) result given none e =
      parse_from-cons flags given s (before ++ (command ∷ rest))
      ∙ after_move-append (move flags s) given result s before (parse_from-append before result)
          (sym (parse_from-cons flags given s before) ∙ e)
