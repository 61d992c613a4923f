-- ===== src/Yggdrasil/Parts.antt =====
-- cmd/yggdrasil/main.go: parts that are made without an error, and interfaces whose regular
-- expressions compile.
use popura.Base.{Bool, true, false, ◌≡◌, refl, ◌⊎◌, inl, inr, List, [], ◌∷◌, All, arith}
use popura.Base.Panic.{value}
use popura.Yggdrasil.Config.{MulticastInterface, World, Made, failed, absent, present}
use popura.Yggdrasil.{made, all_compile}

-- A `New` gave no error, and b says whether there is a part.
abbrev pub IsMade : Made → Bool → Type 0
IsMade m b = ((m ≡ absent) × (b ≡ false)) ⊎ ((m ≡ present) × (b ≡ true))

pub made-value : (m : Made) (b : Bool) → IsMade m b → made m ≡ value b
made-value m b (inl (e, f)) = rw (e, f) refl
made-value m b (inr (e, f)) = rw (e, f) refl

pub IsMade-of_made : (m : Made) (b : Bool) → made m ≡ value b → IsMade m b
IsMade-of_made failed b h = absurd cc
IsMade-of_made absent b h = inl (refl, cc)
IsMade-of_made present b h = inr (refl, cc)

abbrev pub Compile : World → List MulticastInterface → Type 0
Compile w = All (λ intf. w.compiles intf.regex ≡ true)

pub all_compile-true :
    (w : World) (interfaces : List MulticastInterface)
    → Compile w interfaces
    → all_compile w interfaces ≡ true
all_compile-true w [] h = refl
all_compile-true w (intf ∷ rest) (c, h) = rw (c, all_compile-true w rest h) refl

pub Compile-of_all :
    (w : World) (interfaces : List MulticastInterface)
    → all_compile w interfaces ≡ true
    → Compile w interfaces
Compile-of_all w [] h = tt
Compile-of_all w (intf ∷ rest) h = (ground arith, Compile-of_all w rest (ground arith))
