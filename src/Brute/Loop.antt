-- ===== src/Brute/Loop.antt =====
-- contrib/yggdrasil-brute-simple: the loops of main, which both programs have.
pub mod Kept
use popura.Base.{
  ℕ, zero, suc, ◌+◌, Bool, true, false, ◌||◌, List, [], ◌∷◌, Option, none, some, ltb, if◌then◌else◌,
}
use popura.Base.Panic.{Exec, value, panic, ◌>>=◌}
use popura.Brute.{numkeys}

-- How the search goes: the program returns 1, the loop has ended, or it goes on behind the last
-- reading of the clock.
pub data Outcome (S : Type 0) : Type 0 where
  failed : Outcome S
  finished running : S → Outcome S

module _ {S : Type 0} (round : S → Exec (Option S)) where
  -- The inner loop, with the rounds that are left. `none` is `return 1`.
  unfoldable pub batch : ℕ → S → Exec (Option S)
  batch zero s = value (some s)
  batch (suc n) s = do r ← round s; elim r [ none ↦ value none | some s' ↦ batch n s' ]

  -- The condition of the outer loop behind a batch, at a reading of the clock: `again` is the rest.
  unfoldable pub loop_if : (S → ℕ) → ℕ → ℕ → (S → Exec (Outcome S)) → Option S → Exec (Outcome S)
  loop_if runs deadline time again none = value failed
  loop_if runs deadline time again (some s) =
      if ltb time deadline || ltb (runs s) numkeys then again s else value (finished s)

  -- The outer loop, with the readings of the clock behind each batch.
  unfoldable pub search : (S → ℕ) → ℕ → ℕ → ℕ → List ℕ → S → Exec (Outcome S)
  unfolding batch loop_if
  search runs size start requested [] s = value (running s)
  search runs size start requested (time ∷ times) s =
      batch size s
      >>= loop_if runs (start + requested) time (λ s'. search runs size start requested times s')
