-- ===== src/Yggdrasil/Args/CommandLine.antt =====
-- Every choice of flags can be written on a command line.
use popura.Base.{◌≡◌, refl, List, [], ◌∷◌, map, All, true}
use popura.Base.Text.{Bytes, bytes, same}
use popura.Flags.{Value, switch, string, Given, parsed, parse, kind_of, bool_flag, string_flag}
use popura.Flags.RoundTrip.{print_flag, Fits, onto, are_names, parse-print}
use popura.Yggdrasil.Args.{YggArgs, ygg_flags, get_args}

-- All flags with their values.
abbrev pub assignments : YggArgs → List (Bytes × Value)
assignments args =
    (bytes "genconf", switch args.genconf)
    ∷ (bytes "useconf", switch args.useconf)
    ∷ (bytes "useconffile", string args.useconffile)
    ∷ (bytes "normaliseconf", switch args.normaliseconf)
    ∷ (bytes "json", switch args.confjson)
    ∷ (bytes "autoconf", switch args.autoconf)
    ∷ (bytes "version", switch args.ver)
    ∷ (bytes "logto", string args.logto)
    ∷ (bytes "address", switch args.getaddr)
    ∷ (bytes "subnet", switch args.getsnet)
    ∷ (bytes "loglevel", string args.loglevel)
    ∷ (bytes "autopeer", switch args.autopeer)
    ∷ (bytes "meshname", switch args.meshnameenable)
    ∷ (bytes "meshnamelisten", string args.meshnamelisten)
    ∷ []

-- The command line that sets each flag by `-name=value`.
abbrev pub command_line : YggArgs → List Bytes
command_line args = map print_flag (assignments args)

names_fit : are_names ygg_flags ≡ true
unfolding ygg_flags are_names
names_fit = refl

assignments-Fits : (args : YggArgs) → All (Fits ygg_flags) (assignments args)
unfolding ygg_flags kind_of same
assignments-Fits args = (
  refl,
  (
    refl,
    (
      refl,
      (refl, (refl, (refl, (refl, (refl, (refl, (refl, (refl, (refl, (refl, (refl, tt))))))))))),
    ),
  ),
)

get_args-onto : (args : YggArgs) → get_args (onto (assignments args) []) ≡ args
unfolding get_args bool_flag string_flag same
get_args-onto args = refl

-- For any values of the fourteen flags, `flag.Parse` of the command line that writes each as
-- `-name=value` ends without a fault and leaves no argument, and `getArgs` then returns these values.
pub get_args-command_line :
    (args : YggArgs)
    → (given : Given) × (parse ygg_flags (command_line args) ≡ parsed given [])
      × (get_args given ≡ args)
get_args-command_line args = (
  onto (assignments args) [],
  parse-print ygg_flags names_fit (assignments args) (assignments-Fits args),
  get_args-onto args,
)
