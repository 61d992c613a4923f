-- ===== src/Brute/Arrays.antt =====
-- contrib/yggdrasil-brute-simple/util.c: the insertion into the lists of the best keys.
use Prim.Native.Nat.{ℕ, zero, suc, ◌≤◌, ◌<◌, ◌^◌}
use popura.Base.{
  ◌≡◌, refl, ap, ◌∙◌, true, List, [], ◌∷◌, ◌++◌, arith, ltb, length, length-append, take, drop,
  set-append_length, get_elem?-append_length, lt→ltb,
}
use mathlib.Core.List.{append_assoc}
use popura.Base.Panic.{value, ◌>>=◌}
use popura.Base.Text.{Bytes}
use popura.Genkeys.Order.{IsBytes, to_number, to_number-lt, ltb_digits}
use popura.Brute.{memcmp_greater, load, store, update, insert_from, insert}

-- Of two arrays of one size, `memcmp` finds the greater one by their bytes as a big-endian number.
pub memcmp_greater_lem :
    (as' bs : Bytes)
    → length as' ≡ length bs
    → IsBytes as'
    → IsBytes bs
    → memcmp_greater as' bs ≡ ltb (to_number bs) (to_number as')
unfolding memcmp_greater to_number
memcmp_greater_lem [] [] e ha hb = refl
memcmp_greater_lem [] (b ∷ bs) e ha hb = absurd (omega arith)
memcmp_greater_lem (a ∷ as') [] e ha hb = absurd (omega arith)
memcmp_greater_lem (a ∷ as') (b ∷ bs) e ha hb =
    let e' : length as' ≡ length bs = omega arith in
    let ih = memcmp_greater_lem as' bs e' ha.1 hb.1 in
    let hi : to_number as' < 256 ^ length bs = rw e' at (to_number-lt as' ha.1) in
    rw e' (ground (arith, ih, ltb_digits b a _ _ _ (to_number-lt bs hb.1) hi))

module _ {A : Type 0} where
  pub load-at : (ds ks : List A) (x : A) → load (ds ++ (x ∷ ks)) (length ds) ≡ value x
  unfolding load
  load-at ds ks x = rw (get_elem?-append_length ds ks x, load) refl

  pub store-append :
      (ds ks : List A) (w x : A) → store (ds ++ (w ∷ ks)) (length ds) x ≡ value (ds ++ (x ∷ ks))
  unfolding store
  store-append ds ks w x =
      let room : ltb (length ds) (length (ds ++ (w ∷ ks))) ≡ true =
        lt→ltb _ _ (omega (arith, length-append ds (w ∷ ks))) in
      rw (room, set-append_length ds ks w x) refl

  load-append : (ds ks : List A) (w x : A) → load (ds ++ (w ∷ x ∷ ks)) (suc (length ds)) ≡ value x
  unfolding load
  load-append [] ks w x = refl
  load-append (d ∷ ds) ks w x = load-append ds ks w x

  -- The loop moves the items behind the first one to the front, and puts the new item behind them.
  insert_from_lem :
      (c : ℕ) (ds ks : List A) (w x : A)
      → c ≤ length ks
      → insert_from c (length ds) (ds ++ (w ∷ ks)) x ≡ value (ds ++ (take c ks ++ (x ∷ drop c ks)))
  unfolding insert_from
  insert_from_lem zero ds ks w x h = store-append ds ks w x
  insert_from_lem (suc c) ds [] w x h = absurd (omega arith)
  insert_from_lem (suc c) ds (k ∷ ks) w x h =
      let ih = insert_from_lem c (ds ++ (k ∷ [])) ks k x (omega arith) in
      let further : length (ds ++ (k ∷ [])) ≡ suc (length ds) =
        omega (arith, length-append ds (k ∷ [])) in
      rw (load-append ds ks w k, store-append ds (k ∷ ks) w k)
        (rw (further, append_assoc ds (k ∷ []) (k ∷ ks), append_assoc ds (k ∷ []) _) at ih)

  pub insert_lem :
      (c : ℕ) (ks : List A) (w x : A)
      → c ≤ length ks
      → insert (w ∷ ks) x c ≡ value (take c ks ++ (x ∷ drop c ks))
  unfolding insert
  insert_lem c ks w x h = insert_from_lem c [] ks w x h

-- At the index that is the length in front.
pub update_lem :
    (f : ℕ → ℕ) (ds ks : Bytes) (x n : ℕ)
    → length ds ≡ n
    → update f n (ds ++ (x ∷ ks)) ≡ value (ds ++ (f x ∷ ks))
unfolding update
update_lem f ds ks x n e =
    let here : update f (length ds) (ds ++ (x ∷ ks)) ≡ value (ds ++ (f x ∷ ks)) =
      ap (λ m. m >>= λ y. store (ds ++ (x ∷ ks)) (length ds) (f y)) (load-at ds ks x)
      ∙ store-append ds ks x (f x) in
    rw e at here
