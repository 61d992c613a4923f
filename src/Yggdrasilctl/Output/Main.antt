-- ===== src/Yggdrasilctl/Output/Main.antt =====
-- The command line of yggdrasilctl: options in front of the command, and arguments behind it.
use popura.Base.{Bool, false, List, [], ◌∷◌, ◌++◌, Option, none, some}
use popura.Base.Text.{Bytes, bytes}
use popura.Flags.{Value, switch, string}
use popura.Yggdrasilctl.{Outside, CmdLineEnv}
use popura.Yggdrasilctl.Answers.{Output}

-- A flag that is set, or not.
abbrev pub option {ℓ} : {A : Type ℓ} → Bytes → (A → Value) → Option A → List (Bytes × Value)
option name as_value none = []
option name as_value (some a) = (name, as_value a) ∷ []

-- Any of the three flags.
abbrev pub options : Option Bytes → Option Bool → Option Bool → List (Bytes × Value)
options endpoint json version =
    option (bytes "endpoint") string endpoint
    ++ (option (bytes "json") switch json ++ option (bytes "version") switch version)

abbrev pub given_or {ℓ} : {A : Type ℓ} → A → Option A → A
given_or a none = a
given_or a (some b) = b

-- The settings of a run with these options and arguments.
abbrev pub settings : Outside → Option Bytes → Option Bool → Option Bool → List Bytes → CmdLineEnv
settings o endpoint json version args = record {
  args = args;
  endpoint = o.default_admin_listen;
  server = given_or o.default_admin_listen endpoint;
  injson = given_or false json;
  ver = given_or false version;
}
