-- ===== src/Yggdrasilctl/Connection.antt =====
-- Where the client connects: the endpoint that it settles on, and the dial.
use mathlib.Core.Path.{subst}
use mathlib.Core.Option.{none-ne-some, some-injective}
use popura.Base.{
  ◌≤◌, false, ◌≡◌, ◌≢◌, refl, sym, ◌↔◌, ◌⊎◌, inl, inr, Option, none, some, arith, Bool-cases,
  Option-cases, leb, length, drop,
}
use popura.Base.Panic.{value, ◌>>=◌}
use popura.Base.Text.{Bytes, bytes, same, same_iff, to_lower}
use popura.Yggdrasilctl.{Outside, Url, Request, Response, must, from_seventh, connect_url, connect}

-- The connection that a URL stands for, by its scheme: the socket behind the first seven bytes of the
-- endpoint for unix, the host for tcp.
abbrev pub UrlDials : Outside → Bytes → Url → (Request → Option Response) → Type 0
UrlDials o endpoint u node =
    ((to_lower u.scheme ≡ bytes "unix")
      × (7 ≤ length endpoint)
      × (o.dial (bytes "unix") (drop 7 endpoint) ≡ some node))
    ⊎ ((to_lower u.scheme ≡ bytes "tcp") × (o.dial (bytes "tcp") u.host ≡ some node))

abbrev pub Dials : Outside → Bytes → (Request → Option Response) → Type 0
Dials o endpoint node = (u : Url) × (o.parse_url endpoint ≡ some u) × UrlDials o endpoint u node

must_iff {ℓ} : {A : Type ℓ} (m : Option A) (a : A) → (must m ≡ value a) ↔ (m ≡ some a)
must_iff none a = (λ h. cc, λ h. cc)
must_iff (some b) a = (λ h. cc, λ h. cc)

differs :
    (u : Url) (scheme : Bytes)
    → same (to_lower u.scheme) scheme ≡ false
    → to_lower u.scheme ≢ scheme
differs u scheme h e = ground (arith, (same_iff (to_lower u.scheme) scheme).1 e)

module _ (o : Outside) (endpoint : Bytes) (node : Request → Option Response) where
  dial_unix_iff :
      ((from_seventh endpoint >>= λ path. must (o.dial (bytes "unix") path)) ≡ value node)
      ↔ ((7 ≤ length endpoint) × (o.dial (bytes "unix") (drop 7 endpoint) ≡ some node))
  unfolding from_seventh
  dial_unix_iff = elim (Bool-cases (leb 7 (length endpoint))) [
    | inl h ↦
        let long : 7 ≤ length endpoint = ground arith in
        rw h (λ e. (long, (must_iff _ node).0 e), λ (l, e). (must_iff _ node).1 e)
    | inr h ↦ rw h (λ e. cc, λ (l, e). absurd (ground arith))
  ]

  connect_url_iff :
      (u : Url) → (connect_url o endpoint (some u) ≡ value node) ↔ UrlDials o endpoint u node
  unfolding connect_url
  connect_url_iff u = elim (Bool-cases (same (to_lower u.scheme) (bytes "unix"))) [
    | inl s ↦
        let scheme = (same_iff (to_lower u.scheme) (bytes "unix")).0 s in
        rw s (
          λ e. let (l, d) = dial_unix_iff.0 e in inl (scheme, l, d),
          λ d. elim d [ inl (_, l, h) ↦ dial_unix_iff.1 (l, h) | inr (t, _) ↦ absurd cc ],
        )
    | inr s ↦ elim (Bool-cases (same (to_lower u.scheme) (bytes "tcp"))) [
      | inl t ↦
          let scheme = (same_iff (to_lower u.scheme) (bytes "tcp")).0 t in
          rw (s, t)
            (
              λ e. inr (scheme, (must_iff _ node).0 e),
              λ d. elim d [ inl (r, _, _) ↦ absurd cc | inr (_, h) ↦ (must_iff _ node).1 h ],
            )
      | inr t ↦
          rw (s, t)
            (
              λ e. cc,
              λ d. elim d [
                | inl (r, _, _) ↦ absurd (differs u _ s r)
                | inr (r, _) ↦ absurd (differs u _ t r)
              ],
            )
    ]
  ]

-- `run` connects to a node exactly when `url.Parse` accepts the endpoint, and either its scheme is
-- unix in any case, it has seven bytes or more, and the socket behind them is dialled, or its scheme
-- is tcp in any case and its host is dialled. An endpoint that is no URL gives no connection.
pub connect_iff :
    (o : Outside) (endpoint : Bytes) (node : Request → Option Response)
    → (connect o endpoint ≡ value node) ↔ Dials o endpoint node
unfolding connect
connect_iff o endpoint node = elim (Option-cases (o.parse_url endpoint)) [
  | inl e ↦ rw e (λ h. cc, λ (u, f, _). absurd (none-ne-some _ f))
  | inr (u, e) ↦ rw e (
    λ h. (u, refl, (connect_url_iff o endpoint node u).0 h),
    λ (v, f, d).
        (connect_url_iff o endpoint node u).1
          (subst (λ w. UrlDials o endpoint w node) (sym (some-injective _ _ f)) d),
  )
]
