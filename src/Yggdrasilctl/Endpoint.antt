-- ===== src/Yggdrasilctl/Endpoint.antt =====
-- Which endpoint yggdrasilctl settles on.
use popura.Base.{
  false, ◌≡◌, ◌≢◌, refl, sym, ap, ◌∙◌, ◌⊎◌, inl, inr, List, [], Option, none, some, arith,
  Bool-cases,
}
use popura.Base.Panic.{value, Returns-at, value->>=, value-injective}
use popura.Base.Text.{Bytes, bytes, same, same_iff}
use popura.Bom.{to_utf8}
use popura.Yggdrasilctl.{
  Outside, CmdLineEnv, Value, admin_listen, configured, must, read_endpoint, set_endpoint,
}

differs : (s t : Bytes) → same s t ≡ false → s ≢ t
differs s t h e = ground (arith, (same_iff s t).1 e)

-- The configuration file has an entry AdminListen that is a string, neither "none" nor empty.
abbrev pub Configures : Outside → Bytes → Type 0
Configures o endpoint =
    (file : Bytes) × (config : Bytes) × (dat : List (Bytes × Value)) × (o.config_file ≡ some file)
    × (to_utf8 o.decode_utf16 file ≡ value config)
    × (o.unmarshal_config config ≡ some dat)
    × (admin_listen dat ≡ some endpoint)
    × (endpoint ≢ bytes "none")
    × (endpoint ≢ [])

-- The fields other than the endpoint and the server are the same.
abbrev pub Keeps : CmdLineEnv → CmdLineEnv → Type 0
Keeps env env' = (env'.args ≡ env.args) × (env'.injson ≡ env.injson) × (env'.ver ≡ env.ver)

-- The endpoint comes from the configuration file, or it configures none and the endpoint is as
-- before.
abbrev pub Reads : Outside → CmdLineEnv → CmdLineEnv → Type 0
Reads o env env' =
    (Configures o env'.endpoint
      ⊎ ((env'.endpoint ≡ env.endpoint) × ((e : Bytes) → Configures o e → ⊥)))
    × Keeps env env'

-- The endpoint comes from the flag, or as the configuration file has it.
abbrev pub Settles : Outside → CmdLineEnv → CmdLineEnv → Type 0
Settles o env env' =
    ((env.server ≢ env.endpoint) × (env'.endpoint ≡ env.server) × Keeps env env')
    ⊎ ((env.server ≡ env.endpoint) × Reads o env env')

must-value {ℓ} : {A : Type ℓ} (m : Option A) (a : A) → must m ≡ value a → m ≡ some a
must-value none a h = absurd cc
must-value (some b) a h = cc

-- AdminListen gives an endpoint.
abbrev Names : Option Bytes → Bytes → Type 0
Names listen e = (listen ≡ some e) × (e ≢ bytes "none") × (e ≢ [])

configured-cases :
    (endpoint : Bytes) (listen : Option Bytes)
    → Names listen (configured endpoint listen)
      ⊎ ((configured endpoint listen ≡ endpoint) × ((e : Bytes) → Names listen e → ⊥))
unfolding configured
configured-cases endpoint none = inr (refl, λ e (l, n, z). absurd cc)
configured-cases endpoint (some ep) = elim (Bool-cases (same ep (bytes "none"))) [
  | inl n ↦ inr (
    rw n refl,
    λ e (l, not_none, z). let here : ep ≡ bytes "none" = (same_iff ep _).0 n in not_none cc,
  )
  | inr n ↦ elim (Bool-cases (same ep [])) [
    | inl z ↦ inr (
      rw (n, z) refl,
      λ e (l, m, not_empty). let here : ep ≡ [] = (same_iff ep []).0 z in not_empty cc,
    )
    | inr z ↦ inl (rw (n, z) (refl, differs ep _ n, differs ep [] z))
  ]
]

-- A file configures at most what it names.
Configures-Names :
    (o : Outside) (file config endpoint : Bytes) (dat : List (Bytes × Value))
    → o.config_file ≡ some file
    → to_utf8 o.decode_utf16 file ≡ value config
    → o.unmarshal_config config ≡ some dat
    → Configures o endpoint
    → Names (admin_listen dat) endpoint
Configures-Names o file config endpoint dat e c d (file', config', dat', e', c', d', l, n, z) =
    let same_file : file' ≡ file = cc in
    let same_config : config' ≡ config =
      value-injective config' config (sym c' ∙ ap (to_utf8 o.decode_utf16) same_file ∙ c) in
    let same_dat : dat' ≡ dat = cc in (ap admin_listen (sym same_dat) ∙ l, n, z)

no_file : (o : Outside) (endpoint : Bytes) → o.config_file ≡ none → Configures o endpoint → ⊥
no_file o endpoint e (file, config, dat, there, c, d, l, n, z) = absurd cc

-- What reading the configuration file returns.
read_endpoint-Reads :
    (o : Outside) (env env' : CmdLineEnv) (file : Option Bytes)
    → o.config_file ≡ file
    → read_endpoint o env file ≡ value env'
    → Reads o env env'
unfolding read_endpoint
read_endpoint-Reads o env env' none e h =
    Returns-at (Reads o env) h (inr (refl, λ listen g. no_file o listen e g), (refl, refl, refl))
read_endpoint-Reads o env env' (some file) e h =
    let (config, c, h1) = value->>= (to_utf8 o.decode_utf16 file) _ env' h in
    let (dat, d, h2) = value->>= (must (o.unmarshal_config config)) _ env' h1 in
    let found : o.unmarshal_config config ≡ some dat = must-value _ dat d in
    Returns-at (Reads o env) h2 (
      elim (configured-cases env.endpoint (admin_listen dat)) [
        | inl (l, n, z) ↦ inl (file, config, dat, e, c, found, l, n, z)
        | inr (kept, unnamed) ↦
            inr (kept, λ a g. unnamed a (Configures-Names o file config a dat e c found g))
      ],
      (refl, refl, refl),
    )

-- When `setEndpoint` returns, the endpoint is the value of -endpoint where that differs from the
-- endpoint before. Where it does not, and the configuration file has an AdminListen that is a string,
-- neither "none" nor empty, the endpoint is that; where there is no such AdminListen, or no file, the
-- endpoint is as before. The arguments, -json and -version are as before.
pub set_endpoint-Settles :
    (o : Outside) (env env' : CmdLineEnv) → set_endpoint o env ≡ value env' → Settles o env env'
unfolding set_endpoint
set_endpoint-Settles o env env' h = elim (Bool-cases (same env.server env.endpoint)) [
  | inl s ↦ inr (
    (same_iff env.server env.endpoint).0 s,
    read_endpoint-Reads o env env' o.config_file refl (rw s at h),
  )
  | inr s ↦ Returns-at (Settles o env) (rw s at h) (inl (differs _ _ s, refl, (refl, refl, refl)))
]
