-- ===== src/Ansible/Chosen.antt =====
-- `main` of contrib/ansible/genkeys.go up to the files: where its keys come from.
use mathlib.Core.List.Perm
use mathlib.Core.List.{append_assoc, append-nil}
use mathlib.Core.Path.{subst}
use popura.Base.{
  ℕ, zero, suc, ◌+◌, ◌-◌, ◌≤◌, ◌≡◌, refl, sym, ap, ◌∙◌, some, List, [], ◌∷◌, ◌++◌, Perm, arith,
  length, All, le→ltb_false,
}
use popura.Base.Panic.{value, ◌>>=◌, Returns-value}
use popura.Base.Text.{Bytes}
use popura.Genkeys.Least.{IsKey}
use popura.Ansible.{KeySet, new_key, fill, improve, choose_keys, sort_key_set_array}
use popura.Ansible.Bubble.{IsKeySet}
use popura.Ansible.Improve.{
  always, made_key, made, kept, overwritten, kept-perm, kept-length, improve-eq_kept,
}
use popura.Ansible.Sort.{SameKeys, sort_key_set_array-SameKeys}

module _ (ip_of : Bytes → Bytes) (pairs : ℕ → Bytes × Bytes) where
  length-made : (n i : ℕ) → length (made ip_of pairs n i) ≡ n
  length-made zero i = refl
  length-made (suc n) i = ap suc (length-made n (suc i))

  made-append :
      (n m i : ℕ) → made ip_of pairs n i ++ made ip_of pairs m (n + i) ≡ made ip_of pairs (n + m) i
  made-append zero m i =
      let start : 0 + i ≡ i = omega arith in
      let size : m ≡ 0 + m = omega arith in
      ap (made ip_of pairs m) start ∙ ap (λ n. made ip_of pairs n i) size
  made-append (suc n) m i =
      let start : suc n + i ≡ n + suc i = omega arith in
      let size : suc (n + m) ≡ suc n + m = omega arith in
      ap (λ j. made ip_of pairs (suc n) i ++ made ip_of pairs m j) start
      ∙ ap (◌∷◌ (made_key ip_of pairs i)) (made-append n m (suc i))
      ∙ ap (λ k. made ip_of pairs k i) size

  made_on : (n m : ℕ) → made ip_of pairs n 0 ++ made ip_of pairs m n ≡ made ip_of pairs (n + m) 0
  made_on n m =
      let start : n ≡ n + 0 = omega arith in
      ap (λ j. made ip_of pairs n 0 ++ made ip_of pairs m j) start ∙ made-append n m 0

  fill-made :
      (rounds i : ℕ) (ks : List KeySet)
      → fill ip_of (always pairs) rounds i ks ≡ value (ks ++ made ip_of pairs rounds i)
  unfolding fill new_key
  fill-made zero i ks = ap value (sym (append-nil ks))
  fill-made (suc rounds) i ks =
      fill-made rounds (suc i) (ks ++ (made_key ip_of pairs i ∷ []))
      ∙ ap value (append_assoc ks (made_key ip_of pairs i ∷ []) (made ip_of pairs rounds (suc i)))

  module _ (h : (j : ℕ) → IsKey (pairs j).0) where
    made-All : (n i : ℕ) → All IsKeySet (made ip_of pairs n i)
    made-All zero i = tt
    made-All (suc n) i = (h i, made-All n (suc i))

    -- The second loop, on the sorted keys, loses some and takes over others.
    improve-perm :
        (rounds i n : ℕ) (sorted : List KeySet)
        → All IsKeySet sorted
        → length sorted ≡ suc n
        → (best : List KeySet) × (lost : List KeySet) × (improve ip_of
              (always pairs)
              rounds
              i
              sorted
            ≡ value best)
          × (length best ≡ suc n)
          × Perm (lost ++ best) (sorted ++ made ip_of pairs rounds i)
    improve-perm rounds i n [] keys l = absurd (omega (arith, l))
    improve-perm rounds i n (w ∷ ks) keys l =
        let xs = made ip_of pairs rounds i in
        (
          (kept w ks xs).0 ∷ (kept w ks xs).1,
          overwritten w ks xs,
          improve-eq_kept ip_of pairs rounds i w ks h keys.1,
          omega (arith, l, kept-length w ks xs),
          kept-perm w ks xs,
        )

    sort_improve-perm :
        (hosts rounds : ℕ) (ks : List KeySet)
        → All IsKeySet ks
        → length ks ≡ hosts + 1
        → (best : List KeySet) × (lost : List KeySet) × ((sort_key_set_array ks >>= λ sorted.
              improve ip_of (always pairs) rounds (hosts + 1) sorted >>= λ best'.
              value (some best'))
            ≡ value (some best))
          × (length best ≡ hosts + 1)
          × Perm (lost ++ best) (ks ++ made ip_of pairs rounds (hosts + 1))
    sort_improve-perm hosts rounds ks keys l =
        let (sorted, e, same) =
          Returns-value (sort_key_set_array ks) (SameKeys ks)
            (sort_key_set_array-SameKeys ks keys) in
        let (best, lost, r, size, p) =
          improve-perm rounds (hosts + 1) hosts sorted same.1 (omega (arith, same.2, l)) in
        (best, lost, rw (e, r) refl, omega (arith, size), Perm.trans p (Perm.append_right _ same.0))

    -- If `ed25519.GenerateKey` never fails, its public keys are 32 bytes, and there are at least as
    -- many tries as hosts: the search of `main` does not panic, and ends with a key for each host
    -- behind the key at 0. With the keys that it drops they are a rearrangement of the keys that
    -- were made, of as many as there are tries, or one more where the tries are as many as the
    -- hosts: each has its own private key and address, and no two hosts have the key of one call.
    pub choose_keys-made :
        (hosts tries : ℕ)
        → hosts ≤ tries
        → (best : List KeySet) × (lost : List KeySet) × (choose_keys ip_of
              (always pairs)
              hosts
              tries
            ≡ value (some best))
          × (length best ≡ hosts + 1)
          × Perm (lost ++ best) (made ip_of pairs (hosts + 1 + (tries - hosts - 1)) 0)
    unfolding choose_keys
    choose_keys-made hosts tries enough =
        let n = hosts + 1 in
        let rounds = tries - hosts - 1 in
        let all = made ip_of pairs n 0 in
        let (best, lost, e, size, p) =
          sort_improve-perm hosts rounds all (made-All n 0) (length-made n 0) in
        (
          best,
          lost,
          rw (le→ltb_false tries hosts enough, fill-made n 0 []) e,
          size,
          subst (λ l. Perm (lost ++ best) l) (made_on n rounds) p,
        )
