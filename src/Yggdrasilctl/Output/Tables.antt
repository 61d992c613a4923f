-- ===== src/Yggdrasilctl/Output/Tables.antt =====
-- The shape of the tables that yggdrasilctl prints.
use popura.Base.{
  ℕ, ◌≡◌, refl, List, [], ◌∷◌, map, Option, none, some, length, All, Bool-cases, inl, inr,
}
use popura.Base.Panic.{value, ◌>>=◌, Returns-at}
use popura.Base.Text.{Bytes}
use popura.Yggdrasilctl.{must}
use popura.Yggdrasilctl.Answers.{Decoders, Formats, Output, line, table, Tun, first_value, tun_rows}
use popura.Yggdrasilctl.Output.{
  Command, get_list, get_self, get_peers, get_dht, get_paths, get_sessions, get_node_info,
  get_interfaces, get_tun, change_peers, unknown, show_response,
}

-- The columns of a table: those of its header, or a name and a value where it has none.
abbrev pub columns : List Bytes → ℕ
columns [] = 2
columns (h ∷ header) = length (h ∷ header)

-- Each row of a table has a cell for each column.
abbrev pub IsAligned : Output → Type 0
IsAligned (line s) = Unit
IsAligned (table header rows) = All (λ row. length row ≡ columns header) rows

module _ {ℓ} {A : Type ℓ} where
  All-map :
      (n : ℕ) (row : A → List Bytes) (xs : List A)
      → ((x : A) → length (row x) ≡ n)
      → All (λ r. length r ≡ n) (map row xs)
  All-map n row [] h = tt
  All-map n row (x ∷ xs) h = (h x, All-map n row xs h)

  -- What holds of the output for whatever a decoder gives.
  after_must :
      (m : Option A) (k : A → List Output) (output : List Output)
      → ((a : A) → All IsAligned (k a))
      → (must m >>= λ a. value (k a)) ≡ value output
      → All IsAligned output
  after_must none k output h e = absurd cc
  after_must (some a) k output h e = Returns-at (All IsAligned) e (h a)

first_value-IsAligned : (vs : List Bytes) → All IsAligned (first_value vs)
first_value-IsAligned [] = tt
first_value-IsAligned (v ∷ vs) = (tt, tt)

tun_rows-IsAligned : (f : Formats) (resp : Tun) → All (λ row. length row ≡ 2) (tun_rows f resp)
tun_rows-IsAligned f resp = elim (Bool-cases resp.enabled) [
  | inl h ↦ (refl, rw h (refl, (refl, tt)))
  | inr h ↦ (refl, rw h tt)
]

-- Whatever command was sent and whatever the node answered: when `run` renders a table, each of its
-- rows has as many cells as the header, or two where the table has no header.
pub show_response-IsAligned :
    (d : Decoders) (f : Formats) (c : Command) (response : Bytes) (output : List Output)
    → show_response d f c response ≡ value output
    → All IsAligned output
unfolding show_response
show_response-IsAligned d f get_list response output e =
    after_must (d.as_list response) _ output (λ es. (All-map 3 _ es (λ x. refl), tt)) e
show_response-IsAligned d f get_self response output e =
    after_must (d.as_self response) _ output
      (λ s. ((refl, (refl, (refl, (refl, (refl, (refl, tt)))))), tt)) e
show_response-IsAligned d f get_peers response output e =
    after_must (d.as_peers response) _ output (λ es. (All-map 8 _ es (λ x. refl), tt)) e
show_response-IsAligned d f get_dht response output e =
    after_must (d.as_dht response) _ output (λ es. (All-map 4 _ es (λ x. refl), tt)) e
show_response-IsAligned d f get_paths response output e =
    after_must (d.as_paths response) _ output (λ es. (All-map 3 _ es (λ x. refl), tt)) e
show_response-IsAligned d f get_sessions response output e =
    after_must (d.as_sessions response) _ output (λ es. (All-map 5 _ es (λ x. refl), tt)) e
show_response-IsAligned d f get_node_info response output e =
    after_must (d.as_node_info response) _ output first_value-IsAligned e
show_response-IsAligned d f get_interfaces response output e =
    after_must (d.as_interfaces response) _ output (λ es. (All-map 1 _ es (λ x. refl), tt)) e
show_response-IsAligned d f get_tun response output e =
    after_must (d.as_tun response) _ output (λ t. (tun_rows-IsAligned f t, tt)) e
show_response-IsAligned d f change_peers response output e = Returns-at (All IsAligned) e tt
show_response-IsAligned d f unknown response output e = Returns-at (All IsAligned) e (tt, tt)
