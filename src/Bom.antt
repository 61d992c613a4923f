-- ===== src/Bom.antt =====
-- The byte order mark in front of a configuration file, which cmd/yggdrasil/main.go and
-- cmd/yggdrasilctl/cmd_line_env.go treat alike.
use popura.Base.{Bool, ◌||◌, [], ◌∷◌, Option, none, some, if◌then◌else◌}
use popura.Base.Panic.{Exec, value, panic, raised}
use popura.Base.Text.{Bytes, same}

-- `conf[0:2]`. `os.ReadFile` and `io.ReadAll` leave room for 512 bytes or more, so the slice stays
-- within the capacity of a shorter file, and reads zeros there.
abbrev pub first_two : Bytes → Bytes
first_two [] = 0 ∷ 0 ∷ []
first_two (c ∷ []) = c ∷ 0 ∷ []
first_two (c ∷ d ∷ conf) = c ∷ d ∷ []

unfoldable pub has_bom : Bytes → Bool
has_bom conf = same (first_two conf) (0xFF ∷ 0xFE ∷ []) || same (first_two conf) (0xFE ∷ 0xFF ∷ [])

-- The file as UTF-8; `decode` is the decoder of `unicode.UTF16(unicode.BigEndian, unicode.UseBOM)`.
unfoldable pub to_utf8 : (Bytes → Option Bytes) → Bytes → Exec Bytes
unfolding has_bom
to_utf8 decode conf =
    if has_bom conf
    then elim (decode conf) [ none ↦ panic raised | some text ↦ value text ]
    else value conf
