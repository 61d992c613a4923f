-- ===== src/Base/Panic.antt =====
-- Go's panics as values: a call returns or panics, and a panic ends what follows.

use mathlib.Core.Path.{◌≡◌, refl, subst}

-- Why a call did not return: a run-time fault, `panic(err)` in the program, or a wait without end.
pub data Fault : Type 0 where
  index_out_of_range slice_out_of_bounds nil_dereference raised blocked : Fault

pub data Exec {ℓ} (A : Type ℓ) : Type ℓ where
  value : A → Exec A
  panic : Fault → Exec A

infixl 5 ◌>>=◌ ◌>>◌
abbrev pub ◌>>=◌ {ℓ κ} : {A : Type ℓ} {B : Type κ} → Exec A → (A → Exec B) → Exec B
value a >>= f = f a
panic e >>= f = panic e

abbrev pub ◌>>◌ {ℓ} : {B : Type ℓ} → Exec (Unit {0}) → Exec B → Exec B
m >> k = m >>= λ _. k

-- No value: what a call that panics returns.
pub data Never {ℓ} : Type ℓ where

-- The call returns, and its result has the property.
abbrev pub Returns {ℓ κ} : {A : Type ℓ} → Exec A → (A → Type κ) → Type κ
Returns (value a) P = P a
Returns (panic e) P = Never

pub Returns-mono {ℓ κ η} :
    {A : Type ℓ} (m : Exec A) (P : A → Type κ) (Q : A → Type η)
    → ((a : A) → P a → Q a)
    → Returns m P
    → Returns m Q
Returns-mono (value a) P Q f h = f a h
Returns-mono (panic e) P Q f h = elim h [ ]

pub Returns->>= {ℓ κ η} :
    {A B : Type ℓ} (m : Exec A) (f : A → Exec B) (P : A → Type κ) (Q : B → Type η)
    → Returns m P
    → ((a : A) → P a → Returns (f a) Q)
    → Returns (m >>= f) Q
Returns->>= (value a) f P Q h k = k a h
Returns->>= (panic e) f P Q h k = elim h [ ]

-- A call that returns has a value.
pub Returns-value {ℓ κ} :
    {A : Type ℓ} (m : Exec A) (P : A → Type κ) → Returns m P → (a : A) × (m ≡ value a) × P a
Returns-value (value a) P h = (a, refl, h)
Returns-value (panic e) P h = elim h [ ]

pub Returns-at {ℓ κ} :
    {A : Type ℓ} {m : Exec A} {a : A} (P : A → Type κ) → m ≡ value a → Returns m P → P a
Returns-at P e h = subst (λ n. Returns n P) e h

-- What two calls in a row return comes from the second, on what the first returned.
pub value->>= {ℓ κ} :
    {A : Type ℓ} {B : Type κ} (m : Exec A) (f : A → Exec B) (b : B)
    → (m >>= f) ≡ value b
    → (a : A) × (m ≡ value a) × (f a ≡ value b)
value->>= (value a) f b h = (a, refl, h)
value->>= (panic e) f b h = absurd cc

pub value-injective {ℓ} : {A : Type ℓ} (a b : A) → value a ≡ value b → a ≡ b
value-injective a b e = cc
