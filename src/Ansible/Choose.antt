-- ===== src/Ansible/Choose.antt =====
-- `main` of contrib/ansible/genkeys.go up to the files: when it refuses, and how many keys it has.
use popura.Base.{
  ℕ, zero, suc, ◌+◌, ◌-◌, ◌≤◌, ◌<◌, ◌≡◌, refl, Option, some, none, List, [], ◌∷◌, ◌++◌, arith,
  length, length-append, All, All-append, lt→ltb, le→ltb_false,
}
use popura.Base.Panic.{value, ◌>>=◌, Returns, Returns-mono, Returns->>=}
use popura.Base.Text.{Bytes}
use popura.Genkeys.Least.{IsKey}
use popura.Ansible.{
  KeySet, new_key, fill, replace_first, improve, choose_keys, sort_key_set_array, bubble_up_to,
}
use popura.Ansible.Bubble.{IsKeySet}
use popura.Ansible.Improve.{always, made_key}
use popura.Ansible.Sort.{SameKeys, bubble_up_to-SameKeys, sort_key_set_array-SameKeys}

-- An array of n keys.
abbrev pub IsArray : ℕ → List KeySet → Type 0
IsArray n ks = All IsKeySet ks × (length ks ≡ n)

-- There is a result, an array of n keys.
abbrev pub HasArray : ℕ → Option (List KeySet) → Type 0
HasArray n none = ⊥
HasArray n (some ks) = IsArray n ks

module _ (ip_of : Bytes → Bytes) (pairs : ℕ → Bytes × Bytes) (h : (j : ℕ) → IsKey (pairs j).0) where
  fill-IsArray :
      (rounds i n : ℕ) (ks : List KeySet)
      → IsArray n ks
      → Returns (fill ip_of (always pairs) rounds i ks) (IsArray (n + rounds))
  unfolding fill new_key
  fill-IsArray zero i n ks a = (a.0, omega (arith, a.1))
  fill-IsArray (suc rounds) i n ks a =
      Returns-mono (fill ip_of (always pairs) rounds (suc i) (ks ++ (made_key ip_of pairs i ∷ [])))
        (IsArray (suc n + rounds)) (IsArray (n + suc rounds)) (λ r b. (b.0, omega (arith, b.1)))
        (fill-IsArray rounds (suc i) (suc n) (ks ++ (made_key ip_of pairs i ∷ [])) (
          All-append IsKeySet ks _ a.0 (h i, tt),
          omega (arith, length-append ks (made_key ip_of pairs i ∷ []), a.1),
        ))

  replace_first-IsArray :
      (i n : ℕ) (ks : List KeySet)
      → IsArray (suc n) ks
      → Returns (replace_first ip_of (always pairs) i ks) (IsArray (suc n))
  unfolding replace_first new_key
  replace_first-IsArray i n [] a = absurd (omega (arith, a.1))
  replace_first-IsArray i n (w ∷ ks) a =
      let k = made_key ip_of pairs i in
      Returns-mono (bubble_up_to (k ∷ ks) 0) (SameKeys (k ∷ ks)) (IsArray (suc n))
        (λ r b. (b.1, omega (arith, b.2, a.1))) (bubble_up_to-SameKeys (k ∷ ks) 0 (h i, a.0.1))

  improve-IsArray :
      (rounds i n : ℕ) (ks : List KeySet)
      → IsArray (suc n) ks
      → Returns (improve ip_of (always pairs) rounds i ks) (IsArray (suc n))
  unfolding improve
  improve-IsArray zero i n ks a = a
  improve-IsArray (suc rounds) i n ks a =
      Returns->>= (replace_first ip_of (always pairs) i ks)
        (λ js. improve ip_of (always pairs) rounds (suc i) js) (IsArray (suc n)) (IsArray (suc n))
        (replace_first-IsArray i n ks a) (λ js b. improve-IsArray rounds (suc i) n js b)

  -- With more hosts than tries `main` refuses.
  pub choose_keys_refuses :
      (hosts tries : ℕ) → tries < hosts → choose_keys ip_of (always pairs) hosts tries ≡ value none
  unfolding choose_keys
  choose_keys_refuses hosts tries few = rw (lt→ltb tries hosts few)

  improve_sorted :
      (hosts rounds : ℕ) (ks : List KeySet)
      → IsArray (hosts + 1) ks
      → Returns
          (sort_key_set_array ks >>= λ sorted.
            improve ip_of (always pairs) rounds (hosts + 1) sorted >>= λ best. value (some best))
          (HasArray (hosts + 1))
  improve_sorted hosts rounds ks a =
      Returns->>= (sort_key_set_array ks) _ (SameKeys ks) (HasArray (hosts + 1))
        (sort_key_set_array-SameKeys ks a.0)
        (λ sorted same.
          Returns->>= (improve ip_of (always pairs) rounds (hosts + 1) sorted)
            (λ best. value (some best)) (IsArray (suc hosts)) (HasArray (hosts + 1))
            (improve-IsArray rounds (hosts + 1) hosts sorted (same.1, omega (arith, same.2, a.1)))
            (λ best b. (b.0, omega (arith, b.1))))

  -- With at least as many tries as hosts `main` does not panic, and ends with a key for each host
  -- behind the key at 0.
  pub choose_keys_enough :
      (hosts tries : ℕ)
      → hosts ≤ tries
      → Returns (choose_keys ip_of (always pairs) hosts tries) (HasArray (hosts + 1))
  unfolding choose_keys
  choose_keys_enough hosts tries enough = rw (le→ltb_false tries hosts enough) (
      Returns->>= (fill ip_of (always pairs) (hosts + 1) 0 []) _ (IsArray (0 + (hosts + 1)))
        (HasArray (hosts + 1)) (fill-IsArray (hosts + 1) 0 0 [] (tt, refl))
        (λ ks a. improve_sorted hosts (tries - hosts - 1) ks (a.0, omega (arith, a.1))))
