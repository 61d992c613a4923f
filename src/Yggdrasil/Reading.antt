-- ===== src/Yggdrasil/Reading.antt =====
-- cmd/yggdrasil/main.go: what `readConfig` reads.
use popura.Base.{◌≡◌, ◌≢◌, ◌⊎◌, refl, inl, inr, [], ◌∷◌, Option, none, some}
use popura.Base.Panic.{value, value->>=}
use popura.Base.Text.{Bytes}
use popura.Bom.{to_utf8}
use popura.Yggdrasil.Config.{NodeConfig, World, must, source, read_config}

-- The text comes from the file of that name, and from stdin where the name is empty.
abbrev pub Gives : World → Bytes → Bytes → Type 0
Gives w path raw =
    ((path ≡ []) × (w.stdin ≡ some raw)) ⊎ ((path ≢ []) × (w.read_file path ≡ some raw))

-- The text is there, it is UTF-8 or is decoded, and on top of the generated configuration it gives
-- this one.
abbrev pub IsRead : World → Bytes → NodeConfig → Type 0
IsRead w path cfg =
    (raw : Bytes) × (conf : Bytes) × Gives w path raw
    × (to_utf8 w.decode_utf16 raw ≡ value conf)
    × (w.overlay w.generated conf ≡ some cfg)

source-Gives : (w : World) (path raw : Bytes) → source w path ≡ some raw → Gives w path raw
source-Gives w [] raw h = inl (refl, h)
source-Gives w (c ∷ path) raw h = inr (λ e. absurd cc, h)

Gives-source : (w : World) (path raw : Bytes) → Gives w path raw → source w path ≡ some raw
Gives-source w [] raw (inl (e, h)) = h
Gives-source w [] raw (inr (n, h)) = absurd (n refl)
Gives-source w (c ∷ path) raw (inl (e, h)) = absurd cc
Gives-source w (c ∷ path) raw (inr (n, h)) = h

must-some : {A : Type 0} (o : Option A) (a : A) → must o ≡ value a → o ≡ some a
must-some none a h = absurd cc
must-some (some b) a h = cc

pub IsRead-read_config :
    (w : World) (path : Bytes) (cfg : NodeConfig)
    → IsRead w path cfg
    → read_config w path ≡ value cfg
unfolding read_config
IsRead-read_config w path cfg (raw, conf, g, d, o) =
    rw (Gives-source w path raw g) (rw d (rw o refl))

pub read_config-IsRead :
    (w : World) (path : Bytes) (cfg : NodeConfig)
    → read_config w path ≡ value cfg
    → IsRead w path cfg
unfolding read_config
read_config-IsRead w path cfg h =
    let (raw, s, h1) = value->>= (must (source w path)) _ cfg h in
    let (conf, d, h2) = value->>= (to_utf8 w.decode_utf16 raw) _ cfg h1 in
    (raw, conf, source-Gives w path raw (must-some _ raw s), d, must-some _ cfg h2)
