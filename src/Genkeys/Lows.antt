-- ===== src/Genkeys/Lows.antt =====
-- The keys of a list that were lower than all before them, and how often a key is in a list.
use popura.Base.{
  ℕ, zero, suc, ◌+◌, Bool, true, ◌&&◌, ◌≡◌, refl, Option, none, some, List, [], ◌∷◌, ◌++◌, arith,
  ltb, if◌then◌else◌, get_elem?, set,
}
use popura.Genkeys.{KeySet, Worker}
use popura.Genkeys.Least.{number}

-- The key is lower than each of the list.
unfoldable pub below : KeySet → List KeySet → Bool
below k [] = true
below k (j ∷ js) = ltb (number k) (number j) && below k js

-- Of a list whose newest key stands first, the keys that were lower than all older ones.
unfoldable pub lows : List KeySet → List KeySet
unfolding below
lows [] = []
lows (k ∷ older) = let rest = lows older in if below k older then k ∷ rest else rest

-- The key is lower than the first of the list.
abbrev pub below_first : KeySet → List KeySet → Bool
below_first k [] = true
below_first k (j ∷ js) = ltb (number k) (number j)

below_first-step :
    (k j : KeySet) (b c : Bool) (ls : List KeySet)
    → b ≡ below_first k ls
    → c ≡ below_first j ls
    → (ltb (number k) (number j) && b) ≡ below_first k (if c then j ∷ ls else ls)
below_first-step k j b c [] h g = ground arith
below_first-step k j b c (i ∷ ls) h g = ground arith

-- A key is lower than all of a list when it is lower than the last low.
pub below-lows : (k : KeySet) (js : List KeySet) → below k js ≡ below_first k (lows js)
unfolding below lows
below-lows k [] = refl
below-lows k (j ∷ js) =
    below_first-step k j (below k js) (below j js) (lows js) (below-lows k js) (below-lows j js)

-- How many keys of the list have the property.
unfoldable pub count : (KeySet → Bool) → List KeySet → ℕ
count p [] = 0
count p (k ∷ ks) = (if p k then 1 else 0) + count p ks

pub count-append :
    (p : KeySet → Bool) (ks js : List KeySet) → count p (ks ++ js) ≡ count p ks + count p js
unfolding count
count-append p [] js = omega arith
count-append p (k ∷ ks) js = omega (arith, count-append p ks js)

-- What a goroutine waits to send.
abbrev pub waiting : Option KeySet → List KeySet
waiting none = []
waiting (some k) = k ∷ []

-- What the goroutines wait to send.
unfoldable pub held : List Worker → List KeySet
held [] = []
held (w ∷ ws) = waiting w.sending ++ held ws

-- Replacing goroutine i takes out what it waited to send, and puts in what it waits to send now.
pub count-held-set :
    (p : KeySet → Bool) (ws : List Worker) (i : ℕ) (w w' : Worker)
    → get_elem? ws i ≡ some w
    → count p (waiting w.sending) + count p (held (set ws i w'))
      ≡ count p (waiting w'.sending) + count p (held ws)
unfolding held
count-held-set p [] i w w' h = cc
count-held-set p (v ∷ ws) zero w w' h =
    let e : count p (waiting v.sending) ≡ count p (waiting w.sending) = ground arith in
    omega (
      arith,
      e,
      count-append p (waiting v.sending) (held ws),
      count-append p (waiting w'.sending) (held ws),
    )
count-held-set p (v ∷ ws) (suc i) w w' h = omega (
  arith,
  count-held-set p ws i w w' h,
  count-append p (waiting v.sending) (held ws),
  count-append p (waiting v.sending) (held (set ws i w')),
)
