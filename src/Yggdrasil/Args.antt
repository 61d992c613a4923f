-- ===== src/Yggdrasil/Args.antt =====
-- cmd/yggdrasil/main.go: the flags of the node, `getArgs`.
pub mod CommandLine
use popura.Base.{Bool, true, false, List, [], ◌∷◌}
use popura.Base.Text.{Bytes, bytes}
use popura.Flags.{Flags, boolean, text, Given, bool_flag, string_flag}

-- `yggArgs`
pub record YggArgs : Type 0 where
  pub genconf : Bool
  pub useconf : Bool
  pub normaliseconf : Bool
  pub confjson : Bool
  pub autoconf : Bool
  pub ver : Bool
  pub getaddr : Bool
  pub getsnet : Bool
  pub useconffile : Bytes
  pub logto : Bytes
  pub loglevel : Bytes
  pub autopeer : Bool
  pub meshnameenable : Bool
  pub meshnamelisten : Bytes

-- The flags that `getArgs` defines.
unfoldable pub ygg_flags : Flags
ygg_flags =
    (bytes "genconf", boolean)
    ∷ (bytes "useconf", boolean)
    ∷ (bytes "useconffile", text)
    ∷ (bytes "normaliseconf", boolean)
    ∷ (bytes "json", boolean)
    ∷ (bytes "autoconf", boolean)
    ∷ (bytes "version", boolean)
    ∷ (bytes "logto", text)
    ∷ (bytes "address", boolean)
    ∷ (bytes "subnet", boolean)
    ∷ (bytes "loglevel", text)
    ∷ (bytes "autopeer", boolean)
    ∷ (bytes "meshname", boolean)
    ∷ (bytes "meshnamelisten", text)
    ∷ []

-- What `getArgs` returns, from the flags that were set.
unfoldable pub get_args : Given → YggArgs
get_args given = record {
  genconf = bool_flag given (bytes "genconf") false;
  useconf = bool_flag given (bytes "useconf") false;
  useconffile = string_flag given (bytes "useconffile") [];
  normaliseconf = bool_flag given (bytes "normaliseconf") false;
  confjson = bool_flag given (bytes "json") false;
  autoconf = bool_flag given (bytes "autoconf") false;
  ver = bool_flag given (bytes "version") false;
  logto = string_flag given (bytes "logto") (bytes "stdout");
  getaddr = bool_flag given (bytes "address") false;
  getsnet = bool_flag given (bytes "subnet") false;
  loglevel = string_flag given (bytes "loglevel") (bytes "info");
  autopeer = bool_flag given (bytes "autopeer") false;
  meshnameenable = bool_flag given (bytes "meshname") false;
  meshnamelisten = string_flag given (bytes "meshnamelisten") (bytes "[::1]:53535");
}
