-- ===== src/Genkeys/Taken.antt =====
-- cmd/genkeys/main.go: a key that `main` takes from the channel, printed or dropped.
use Prim.Native.Nat.{ℕ, ◌≤◌}
use popura.Base.{
  ◌+◌, ◌≡◌, refl, sym, ap, ◌∙◌, Bool, false, true, ◌==◌, inl, inr, List, [], ◌∷◌, ◌++◌, arith,
  length, ltb, Bool-cases,
}
use popura.Base.Panic.{value, Returns}
use popura.Genkeys.{
  KeySet, Process, Move, generate, send, receive, is_better, main_round, receive_from,
}
use popura.Genkeys.Order.{to_number}
use popura.Genkeys.Least.{IsKey, IsKeySet, number}
use popura.Genkeys.Invariant.{IsLastPrinted, Inv, compare_keys}
use popura.Genkeys.Channel.{main_round_accepts, main_round_rejects}
use popura.Genkeys.Lows.{below, lows, below_first, below-lows, count, held}

-- The first key of the channel.
abbrev pub first : List KeySet → List KeySet
first [] = []
first (k ∷ rest) = k ∷ []

-- The key that `main` takes in a move.
abbrev pub takes : Process → Move → List KeySet
takes s (generate i g) = []
takes s (send i) = []
takes s receive = first s.channel

-- The keys in the channel and at the goroutines, counted.
abbrev pub on_the_way : (KeySet → Bool) → Process → ℕ
on_the_way p s = count p s.channel + count p (held s.workers)

-- What a move does: what is printed are the lows of what was taken, and no key is made up.
abbrev pub Moves :
    (KeySet → Bool) → List KeySet → Process → List KeySet → Process → List KeySet → Type 0
Moves p taken s ks s' new =
    (s'.printed ≡ lows (new ++ taken))
    × (count p new + on_the_way p s' ≤ count p ks + on_the_way p s)

module _ (s : Process) (k : KeySet) (rest : List KeySet) (v : Inv s)
    (e : s.channel ≡ k ∷ rest) where
  received : IsKeySet k
  received = (rw e at v.channel_ok).0

  -- The process without the first key, that is printed or dropped.
  abbrev after_receive : Bool → Process
  after_receive true = record s {
    channel = rest;
    current_best = k.pub_key;
    printed = k ∷ s.printed;
  }
  after_receive false = record s { channel = rest }

  main_round-first :
      s.printed ≡ [] → main_round (record s { channel = rest }) k ≡ value (after_receive true)
  unfolding is_better
  main_round-first p =
      let empty : s.current_best ≡ [] = rw p at v.last_printed in
      main_round_accepts (record s { channel = rest }) k false (rw empty) (rw empty)

  main_round-later :
      (j : KeySet)
      → s.current_best ≡ j.pub_key
      → IsKeySet j
      → main_round (record s { channel = rest }) k
        ≡ value (after_receive (ltb (number k) (number j)))
  main_round-later j last key =
      let known : IsKey s.current_best = rw last key in
      let full : (length s.current_best == 0) ≡ false = ground (arith, known.1) in
      let test =
        compare_keys s.current_best k.pub_key known received
        ∙ ap (λ best. value (ltb (number k) (to_number best))) last in
      elim (Bool-cases (ltb (number k) (number j))) [
        | inl better ↦
            rw better (
              main_round_accepts (record s { channel = rest }) k true (test ∙ ap value better) refl)
        | inr worse ↦
            rw worse (
              main_round_rejects (record s { channel = rest }) k false (test ∙ ap value worse) full)
      ]

  main_round-below :
      (ks : List KeySet)
      → s.printed ≡ ks
      → main_round (record s { channel = rest }) k ≡ value (after_receive (below_first k ks))
  main_round-below [] p = main_round-first p
  main_round-below (j ∷ ks) p =
      let last : IsLastPrinted s.current_best (j ∷ ks) = rw p at v.last_printed in
      main_round-later j last.0 last.1

  after_receive-printed :
      (taken : List KeySet) (b : Bool)
      → b ≡ below k taken
      → s.printed ≡ lows taken
      → (after_receive b).printed ≡ lows (k ∷ taken)
  unfolding lows
  after_receive-printed taken true h p = rw⁻¹ h (ap (◌∷◌ k) p)
  after_receive-printed taken false h p = rw⁻¹ h p

  after_receive-count :
      (p : KeySet → Bool) (b : Bool)
      → count p (k ∷ []) + on_the_way p (after_receive b) ≤ count p [] + on_the_way p s
  unfolding count
  after_receive-count p true = omega (arith, ap (count p) e)
  after_receive-count p false = omega (arith, ap (count p) e)

  main_round-Moves :
      (p : KeySet → Bool) (taken : List KeySet)
      → s.printed ≡ lows taken
      → Returns (main_round (record s { channel = rest }) k) (λ s'. Moves p taken s [] s' (k ∷ []))
  main_round-Moves p taken h =
      let b = below_first k (lows taken) in
      let low : b ≡ below k taken = sym (below-lows k taken) in
      rw (main_round-below (lows taken) h)
        (after_receive-printed taken b low h, after_receive-count p b)

pub receive-Moves :
    (p : KeySet → Bool) (taken : List KeySet) (s : Process) (ks : List KeySet)
    → Inv s
    → s.channel ≡ ks
    → s.printed ≡ lows taken
    → Returns (receive_from s ks) (λ s'. Moves p taken s [] s' (first ks))
unfolding receive_from
receive-Moves p taken s [] v e h = (h, omega arith)
receive-Moves p taken s (k ∷ rest) v e h = main_round-Moves s k rest v e p taken h
