-- ===== src/Genkeys/Found.antt =====
-- cmd/genkeys/main.go: what the search has found once no key is on its way any more.
use Prim.Native.Nat.{ℕ, ◌≤◌}
use mathlib.Core.Path.{subst}
use mathlib.Core.List.{Mem, mem-cons_self, mem-cons_of_mem}
use popura.Base.{
  ◌≡◌, sym, ◌∙◌, ap, Bool, true, inl, inr, ◌⊎◌, List, [], ◌∷◌, arith, All, Bool-cases,
}
use popura.Base.Panic.{value, Returns-at}
use popura.Base.Text.{Bytes, same, same_iff}
use popura.Genkeys.{KeySet, Process, Move, run, start}
use popura.Genkeys.Order.{to_number}
use popura.Genkeys.Channel.{best_number_lem}
use popura.Genkeys.Least.{number, worst_number, best_number}
use popura.Genkeys.Invariant.{IsLastPrinted}
use popura.Genkeys.Lows.{lows, count}
use popura.Genkeys.Search.{IsValidMove, IsDrained, run_generates, run-start_improves, search_bounds}
use popura.Genkeys.Refine.{run_takes, run-start-lows}

-- A key of the list is `best`, and none of the list is lower; or `best` is empty, and none of the
-- list is below 32 bytes of 0xff.
abbrev pub IsLeastOf : Bytes → List KeySet → Type 0
IsLeastOf best ks =
    ((k : KeySet) × Mem k ks × (k.pub_key ≡ best) × All (λ j. number k ≤ number j) ks)
    ⊎ ((best ≡ []) × All (λ j. worst_number ≤ number j) ks)

counted :
    (p : KeySet → Bool) (ks : List KeySet) → 1 ≤ count p ks → (k : KeySet) × Mem k ks × (p k ≡ true)
unfolding count
counted p [] h = absurd (omega arith)
counted p (k ∷ ks) h = elim (Bool-cases (p k)) [
  | inl e ↦ (k, mem-cons_self, e)
  | inr e ↦
      let rest : 1 ≤ count p ks = ground arith in
      let (j, m, f) = counted p ks rest in (j, mem-cons_of_mem k m, f)
]

count-lows : (p : KeySet → Bool) (ks : List KeySet) → count p (lows ks) ≤ count p ks
unfolding count lows
count-lows p [] = omega arith
count-lows p (k ∷ ks) = ground (arith, count-lows p ks)

-- What a printed key makes of the bounds: some generated key is the one printed last.
found_printed :
    (best : Bytes) (ks taken printed : List KeySet)
    → IsLastPrinted best printed
    → printed ≡ lows taken
    → count (λ k. same k.pub_key best) taken ≤ count (λ k. same k.pub_key best) ks
    → All (λ k. best_number best ≤ number k) ks
    → IsLeastOf best ks
unfolding best_number count
found_printed best ks taken [] e lowest fewer low = inr (e, rw e at low)
found_printed best ks taken (j ∷ js) (e, key) lowest fewer low =
    let p : KeySet → Bool = λ k. same k.pub_key best in
    let last : p j ≡ true = (same_iff j.pub_key best).1 (sym e) in
    let some_printed : 1 ≤ count p (lows taken) =
      subst (λ ls. 1 ≤ count p ls) lowest (rw last (omega arith)) in
    let (k, m, s) = counted p ks (omega (arith, some_printed, count-lows p taken, fewer)) in
    let same_key : k.pub_key ≡ best = (same_iff k.pub_key best).0 s in
    let value_of : best_number best ≡ number k =
      ap best_number e ∙ best_number_lem j.pub_key key ∙ ap to_number (sym (same_key ∙ e)) in
    inl (k, m, same_key, subst (λ b. All (λ j. b ≤ number j) ks) value_of low)

-- With 32-byte keys, once no key waits in the channel or at a goroutine: `currentBest` is the public
-- key of one of the pairs that the goroutines generated, and none of these has a lower public key,
-- read as a number; or `currentBest` is empty, and no public key below 32 bytes of 0xff was
-- generated.
pub search_finds_least :
    (threads : ℕ) (ms : List Move) (s : Process)
    → All IsValidMove ms
    → run (start threads) ms ≡ value s
    → IsDrained s
    → IsLeastOf s.current_best (run_generates (start threads) ms)
search_finds_least threads ms s ok e drained =
    let p : KeySet → Bool = λ k. same k.pub_key s.current_best in
    let (capacity, improving, last) = Returns-at _ e (run-start_improves threads ms ok) in
    let (lowest, fewer) = Returns-at _ e (run-start-lows threads ms p ok) in
    found_printed s.current_best (run_generates (start threads) ms)
      (run_takes (start threads) ms []) s.printed last lowest (omega (arith, fewer))
      (search_bounds threads ms s ok e drained)
