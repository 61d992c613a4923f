-- ===== src/Ansible/Sort.antt =====
-- `sortKeySetArray` rearranges the keys, but stops at the first pair that is in order.
use mathlib.Core.List.Perm
use popura.Base.{
  ℕ, zero, suc, ◌-◌, ◌≡◌, refl, ◌∙◌, false, List, [], ◌∷◌, Perm, arith, length, take, drop,
  take-append-drop, length-append, length-take, length-drop, All, All-append, All-take, All-drop,
}
use popura.Base.Panic.{value, Returns, Returns-mono, Returns->>=}
use popura.Ansible.{KeySet, is_better, bubble_from, bubble_up_to, sort_from, sort_key_set_array}
use popura.Ansible.Bubble.{
  IsKeySet, insert_key, bubble_up_to_lem, insert_key-perm, insert_key-All, length-insert_key,
}

bubble_from_stuck :
    (rounds : ℕ) (a b : KeySet) (ks : List KeySet)
    → is_better b.pub_key a.pub_key ≡ value false
    → bubble_from rounds 0 (a ∷ b ∷ ks) ≡ value (a ∷ b ∷ ks)
unfolding bubble_from
bubble_from_stuck zero a b ks h = refl
bubble_from_stuck (suc rounds) a b ks h = rw h

sort_from_stuck :
    (rounds i : ℕ) (a b : KeySet) (ks : List KeySet)
    → is_better b.pub_key a.pub_key ≡ value false
    → sort_from rounds i (a ∷ b ∷ ks) ≡ value (a ∷ b ∷ ks)
unfolding sort_from
sort_from_stuck zero i a b ks h = refl
sort_from_stuck (suc rounds) i a b ks h = rw (stays i) (sort_from_stuck rounds (suc i) a b ks h)
  where
    stays : (num : ℕ) → bubble_up_to (a ∷ b ∷ ks) num ≡ value (a ∷ b ∷ ks)
    stays num = unfold bubble_up_to in bubble_from_stuck _ a b ks h

-- If the first key is not better than the second, `sortKeySetArray` changes nothing, in whatever
-- order the keys behind them stand.
pub sort_key_set_array_stuck :
    (a b : KeySet) (ks : List KeySet)
    → is_better b.pub_key a.pub_key ≡ value false
    → sort_key_set_array (a ∷ b ∷ ks) ≡ value (a ∷ b ∷ ks)
unfolding sort_key_set_array
sort_key_set_array_stuck a b ks h = sort_from_stuck (length (a ∷ b ∷ ks)) 0 a b ks h

-- The keys are the same up to order, and so are their lengths.
abbrev pub SameKeys : List KeySet → List KeySet → Type 0
SameKeys before after = Perm after before × All IsKeySet after × (length after ≡ length before)

bubble_up_to-nil : (num : ℕ) → bubble_up_to [] num ≡ value []
unfolding bubble_up_to bubble_from
bubble_up_to-nil num = let none_left : 0 - num - 1 ≡ 0 = omega arith in rw none_left

pub bubble_up_to-SameKeys :
    (ks : List KeySet) (num : ℕ) → All IsKeySet ks → Returns (bubble_up_to ks num) (SameKeys ks)
bubble_up_to-SameKeys [] num keys = rw bubble_up_to-nil (Perm.refl _, tt, refl)
bubble_up_to-SameKeys (k ∷ ks) num (key, keys) =
    let n = length ks - num in
    let front = insert_key k (take n ks) in
    rw (bubble_up_to_lem k ks num key keys) (
      rw (take-append-drop n ks) at (Perm.append_right (drop n ks) (insert_key-perm k (take n ks))),
      All-append IsKeySet front (drop n ks)
          (insert_key-All IsKeySet k (take n ks) key (All-take IsKeySet n ks keys))
          (All-drop IsKeySet n ks keys),
      omega (
        arith,
        length-append front (drop n ks),
        length-insert_key k (take n ks),
        length-take n ks,
        length-drop n ks,
      ),
    )

SameKeys-trans : (a b c : List KeySet) → SameKeys a b → SameKeys b c → SameKeys a c
SameKeys-trans a b c (p, ka, la) (q, kb, lb) = (Perm.trans q p, kb, lb ∙ la)

sort_from-SameKeys :
    (rounds i : ℕ) (ks : List KeySet)
    → All IsKeySet ks
    → Returns (sort_from rounds i ks) (SameKeys ks)
unfolding sort_from
sort_from-SameKeys zero i ks keys = (Perm.refl ks, keys, refl)
sort_from-SameKeys (suc rounds) i ks keys =
    Returns->>= (bubble_up_to ks i) (λ js. sort_from rounds (suc i) js) (SameKeys ks) (SameKeys ks)
      (bubble_up_to-SameKeys ks i keys)
      (λ js same.
        Returns-mono (sort_from rounds (suc i) js) (SameKeys js) (SameKeys ks)
          (λ r. SameKeys-trans ks js r same) (sort_from-SameKeys rounds (suc i) js same.1))

-- `sortKeySetArray` never panics on ed25519 keys, and rearranges its argument.
pub sort_key_set_array-SameKeys :
    (ks : List KeySet) → All IsKeySet ks → Returns (sort_key_set_array ks) (SameKeys ks)
unfolding sort_key_set_array
sort_key_set_array-SameKeys ks keys = sort_from-SameKeys (length ks) 0 ks keys
