-- ===== src/Yggdrasil/LogLevel.antt =====
-- cmd/yggdrasil/main.go: the levels that `setLogLevel` enables.
use popura.Base.{
  Bool, true, false, ◌≡◌, ◌≢◌, ◌⊎◌, refl, arith, All, ap, ◌||◌, List, [], ◌∷◌, ◌++◌, Bool-cases,
  inl, inr, if◌then◌else◌,
}
use popura.Base.Text.{Bytes, bytes, same, same_iff, to_lower}

abbrev pub levels : List Bytes
levels = bytes "error" ∷ bytes "warn" ∷ bytes "info" ∷ bytes "debug" ∷ bytes "trace" ∷ []

-- `contains`
unfoldable pub contains : List Bytes → Bytes → Bool
contains [] level = false
contains (l ∷ ls) level = same l level || contains ls level

-- The level that counts: the argument in lower case, or info where that is no level.
unfoldable pub chosen_level : Bytes → Bytes
unfolding contains
chosen_level name = if contains levels (to_lower name) then to_lower name else bytes "info"

-- The loop that enables levels up to the one chosen.
unfoldable pub enable_to : List Bytes → Bytes → List Bytes
enable_to [] level = []
enable_to (l ∷ ls) level =
    let more = enable_to ls level in if same l level then l ∷ [] else l ∷ more

-- `setLogLevel`: the levels that it enables, in order.
unfoldable pub set_log_level : Bytes → List Bytes
unfolding chosen_level enable_to
set_log_level name = enable_to levels (chosen_level name)

enable_to-contains :
    (ls : List Bytes) (level : Bytes)
    → contains ls level ≡ true
    → (before : List Bytes) × (after : List Bytes) × (ls ≡ before ++ (level ∷ after))
      × (enable_to ls level ≡ before ++ (level ∷ []))
unfolding contains enable_to
enable_to-contains [] level h = absurd cc
enable_to-contains (l ∷ ls) level h = elim (Bool-cases (same l level)) [
  | inl s ↦
      let same_level = (same_iff l level).0 s in
      ([], ls, ap (λ k. k ∷ ls) same_level, rw s (ap (λ k. k ∷ []) same_level))
  | inr s ↦
      let (before, after, e, f) = enable_to-contains ls level (rw s at h) in
      (l ∷ before, after, ap (◌∷◌ l) e, rw s (ap (◌∷◌ l) f))
]

not_contained :
    (ls : List Bytes) (level : Bytes) → contains ls level ≡ false → All (λ l. l ≢ level) ls
unfolding contains
not_contained [] level h = tt
not_contained (l ∷ ls) level h = (
  λ e. let s : same l level ≡ true = (same_iff l level).1 e in ground arith,
  not_contained ls level (ground arith),
)

-- The level that an argument in lower case chooses.
abbrev pub Chooses : Bytes → Bytes → Type 0
Chooses lower level = (level ≡ lower) ⊎ ((level ≡ bytes "info") × All (λ l. l ≢ lower) levels)

-- For any argument there is a level such that `setLogLevel` enables the levels up to it, that one
-- included and none behind it. It is the argument in lower case if that is a level, and info if it is
-- none.
pub set_log_level-prefix :
    (name : Bytes)
    → (before : List Bytes) × (level : Bytes) × (after : List Bytes) × (levels
        ≡ before ++ (level ∷ after))
      × (set_log_level name ≡ before ++ (level ∷ []))
      × Chooses (to_lower name) level
unfolding set_log_level chosen_level contains same
set_log_level-prefix name = elim (Bool-cases (contains levels (to_lower name))) [
  | inl known ↦
      let (before, after, e, f) = enable_to-contains levels (to_lower name) known in
      rw known (before, to_lower name, after, e, f, inl refl)
  | inr unknown ↦
      let (before, after, e, f) = enable_to-contains levels (bytes "info") refl in
      rw unknown (
        before,
        bytes "info",
        after,
        e,
        f,
        inr (refl, not_contained levels (to_lower name) unknown),
      )
]
