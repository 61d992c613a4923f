-- ===== src/Yggdrasilctl/Arguments.antt =====
-- The arguments of a request: which value a key has.
use mathlib.Core.List.{append_assoc}
use mathlib.Core.Option.{none-ne-some, some-injective}
use popura.Base.{
  true, false, ◌==◌, ◌≡◌, refl, sym, ap, ◌∙◌, ◌↔◌, ◌⊎◌, inl, inr, List, [], ◌∷◌, ◌++◌, Option, none,
  some, All, Bool-cases, if◌then◌else◌,
}
use popura.Base.Text.{
  Bytes, same, same_iff, same_refl, has_prefix, has_prefix_iff, split_two, split_two-key,
  split_two-cases,
}
use popura.Yggdrasilctl.{Dict, insert, add_tokens, collect, request_arguments}

-- `args[key]`
abbrev pub lookup : Bytes → Dict → Option Bytes
lookup key [] = none
lookup key ((k, v) ∷ dict) = if same k key then some v else lookup key dict

-- No `=` in a key.
abbrev pub IsKey : Bytes → Type 0
IsKey = All (λ c. (c == b'=') ≡ false)

-- The argument gives the key no value.
abbrev pub Skips : Bytes → Bytes → Type 0
Skips key a = has_prefix a (key ++ (b'=' ∷ [])) ≡ false

-- The last argument that gives the key a value gives it v.
abbrev pub Gives : Bytes → Bytes → List Bytes → Type 0
Gives key v as' =
    (before : List Bytes) × (after : List Bytes) × (as' ≡ before ++ ((key ++ (b'=' ∷ v)) ∷ after))
    × All (Skips key) after

lookup-insert : (key v : Bytes) (dict : Dict) → lookup key (insert key v dict) ≡ some v
unfolding insert
lookup-insert key v [] = rw (same_refl key)
lookup-insert key v ((k, w) ∷ dict) = elim (Bool-cases (same k key)) [
  | inl h ↦ rw (h, h)
  | inr h ↦ rw (h, h) (lookup-insert key v dict)
]

lookup-insert_other :
    (key k v : Bytes) (dict : Dict)
    → same k key ≡ false
    → lookup key (insert k v dict) ≡ lookup key dict
unfolding insert
lookup-insert_other key k v [] h = rw h
lookup-insert_other key k v ((l, w) ∷ dict) h = elim (Bool-cases (same l k)) [
  | inl e ↦
      let same_key : l ≡ k = (same_iff l k).0 e in
      let other_key : same l key ≡ false = ap (λ m. same m key) same_key ∙ h in rw (e, other_key)
  | inr e ↦ rw (e, lookup-insert_other key k v dict h)
]

module _ (key : Bytes) where
  -- An argument that does not give the key a value leaves it as it is.
  lookup-add_skip :
      (a : Bytes) (dict : Dict)
      → Skips key a
      → lookup key (add_tokens (split_two b'=' a) dict) ≡ lookup key dict
  unfolding add_tokens
  lookup-add_skip a dict h = elim (split_two-cases b'=' a) [
    | inl e ↦ rw e
    | inr (k, v, e, f) ↦ elim (Bool-cases (same k key)) [
      | inl s ↦
          let same_key : k ≡ key = (same_iff k key).0 s in
          let hit : has_prefix a (key ++ (b'=' ∷ [])) ≡ true =
            (has_prefix_iff a _).1
              (v, f ∙ ap (λ l. l ++ (b'=' ∷ v)) same_key ∙ sym (append_assoc key (b'=' ∷ []) v)) in
          absurd cc
      | inr s ↦ rw e (lookup-insert_other key k v dict s)
    ]
  ]

  lookup-add_given :
      (v : Bytes) (dict : Dict)
      → IsKey key
      → lookup key (add_tokens (split_two b'=' (key ++ (b'=' ∷ v))) dict) ≡ some v
  unfolding add_tokens
  lookup-add_given v dict h = rw (split_two-key b'=' key v h) (lookup-insert key v dict)

  lookup-collect_skip :
      (as' : List Bytes) (dict : Dict)
      → All (Skips key) as'
      → lookup key (collect as' dict) ≡ lookup key dict
  unfolding collect
  lookup-collect_skip [] dict h = refl
  lookup-collect_skip (a ∷ as') dict h = lookup-collect_skip as' _ h.1 ∙ lookup-add_skip a dict h.0

  lookup-collect_given :
      (before after : List Bytes) (v : Bytes) (dict : Dict)
      → IsKey key
      → All (Skips key) after
      → lookup key (collect (before ++ ((key ++ (b'=' ∷ v)) ∷ after)) dict) ≡ some v
  unfolding collect
  lookup-collect_given [] after v dict k h =
      lookup-collect_skip after _ h ∙ lookup-add_given v dict k
  lookup-collect_given (b ∷ before) after v dict k h = lookup-collect_given before after v _ k h

  -- Where a value comes from: from an argument, or from the dictionary before.
  collect-source :
      (as' : List Bytes) (v : Bytes) (dict : Dict)
      → IsKey key
      → lookup key (collect as' dict) ≡ some v
      → Gives key v as' ⊎ (All (Skips key) as' × (lookup key dict ≡ some v))
  unfolding collect
  collect-source [] v dict k h = inr (tt, h)
  collect-source (a ∷ as') v dict k h = elim (collect-source as' v _ k h) [
    | inl (before, after, e, s) ↦ inl (a ∷ before, after, ap (◌∷◌ a) e, s)
    | inr (s, e) ↦ elim (Bool-cases (has_prefix a (key ++ (b'=' ∷ [])))) [
      | inl p ↦
          let (w, f) = (has_prefix_iff a _).0 p in
          let whole : a ≡ key ++ (b'=' ∷ w) = f ∙ append_assoc key (b'=' ∷ []) w in
          let given : lookup key (add_tokens (split_two b'=' a) dict) ≡ some w =
            rw whole (lookup-add_given w dict k) in
          let same_value : v ≡ w = some-injective _ _ (sym e ∙ given) in
          inl ([], as', rw (whole, same_value), s)
      | inr p ↦ inr ((p, s), sym (lookup-add_skip a dict p) ∙ e)
    ]
  ]

-- In the request, a key (a text without `=`) has the value v exactly when an argument after the
-- command is the key, `=` and v, and no argument behind it starts with the key and `=`. The value
-- itself may hold `=`.
pub request_arguments_iff :
    (command : Bytes) (as' : List Bytes) (key v : Bytes)
    → IsKey key
    → (lookup key (request_arguments (command ∷ as')) ≡ some v) ↔ Gives key v as'
unfolding request_arguments
request_arguments_iff command as' key v k = (
  λ h. elim (collect-source key as' v [] k h) [
    | inl g ↦ g
    | inr (s, e) ↦ absurd (none-ne-some _ e)
  ],
  λ (before, after, e, s). rw e (lookup-collect_given key before after v [] k s),
)
