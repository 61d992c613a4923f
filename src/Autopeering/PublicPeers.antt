-- ===== src/Autopeering/PublicPeers.antt =====
-- The embedded list of peers, and the test of one peer.
use popura.Base.{
  ℕ, ◌≡◌, refl, sym, ap, ◌∙◌, ◌↔◌, ◌⊎◌, inl, inr, true, Option, some, List, [], ◌∷◌, ◌++◌, map,
  arith, Option-cases,
}
use mathlib.Core.List.{append-nil, append_assoc}
use popura.Base.Panic.{value, panic, raised}
use popura.Base.Text.{Bytes, bytes, same_iff, split_on}
use popura.Autopeering.{Url, Dial, test_peer, default_timeout}
use popura.Autopeering.Lifecycle.{parse_lines, get_public_peers}

parse_lines_ok :
    (parse : Bytes → Option Url) (lines : List Bytes) (us res : List Url)
    → map parse lines ≡ map some us
    → parse_lines parse lines res ≡ value (res ++ us)
unfolding parse_lines
parse_lines_ok parse [] [] res e = ap value (sym (append-nil res))
parse_lines_ok parse [] (u ∷ us) res e = cc
parse_lines_ok parse (l ∷ ls) [] res e = cc
parse_lines_ok parse (l ∷ ls) (u ∷ us) res e =
    let first : parse l ≡ some u = cc in
    let others : map parse ls ≡ map some us = cc in
    rw (first, parse_lines)
      (parse_lines_ok parse ls us (res ++ (u ∷ [])) others
        ∙ ap value (append_assoc res (u ∷ []) us))

parse_lines_fails :
    (parse : Bytes → Option Url) (lines : List Bytes) (res : List Url)
    → ((us : List Url) × (map parse lines ≡ map some us))
      ⊎ (parse_lines parse lines res ≡ panic raised)
unfolding parse_lines
parse_lines_fails parse [] res = inl ([], refl)
parse_lines_fails parse (l ∷ ls) res = elim (Option-cases (parse l)) [
  | inl bad ↦ inr (rw (bad, parse_lines))
  | inr (u, e) ↦ elim (parse_lines_fails parse ls (res ++ (u ∷ []))) [
    | inl (us, all) ↦ inl (u ∷ us, cc)
    | inr bad ↦ inr (rw (e, parse_lines) bad)
  ]
]

-- `GetPublicPeers` returns addresses exactly when they are what parsing the lines of the file gives,
-- one for each line and in their order.
pub get_public_peers_iff :
    (parse : Bytes → Option Url) (text : Bytes) (us : List Url)
    → (get_public_peers parse text ≡ value us) ↔ (map parse (split_on b'\n' text) ≡ map some us)
unfolding get_public_peers
get_public_peers_iff parse text us = (
  λ h. elim (parse_lines_fails parse (split_on b'\n' text) []) [
    | inl (vs, all) ↦
        let got : value vs ≡ value us =
          sym (parse_lines_ok parse (split_on b'\n' text) vs [] all) ∙ h in
        let same_list : vs ≡ us = cc in all ∙ ap (map some) same_list
    | inr bad ↦ cc
  ],
  parse_lines_ok parse (split_on b'\n' text) us [],
)

-- The addresses that the program can dial.
abbrev IsSupported : Url → Type 0
IsSupported u = (u.scheme ≡ bytes "tcp") ⊎ (u.scheme ≡ bytes "tls")

-- A peer is tested online exactly when its scheme is tcp or tls and a TCP dial to its host succeeds
-- within three seconds; the latency is then the time that the dial took.
test_peer-online_iff :
    (dial : Dial) (u : Url) (t : ℕ)
    → (test_peer dial u ≡ record { url = u; online = true; latency = t })
      ↔ (IsSupported u × (dial (bytes "tcp") u.host default_timeout ≡ some t))
unfolding test_peer
test_peer-online_iff dial u t = (
  λ h. ground (arith, same_iff u.scheme (bytes "tcp"), same_iff u.scheme (bytes "tls")),
  λ h. ground (arith, same_iff u.scheme (bytes "tcp"), same_iff u.scheme (bytes "tls")),
)
