-- ===== src/Yggdrasil/Leaves.antt =====
-- What a run of the node leaves, unless it panics.
use popura.Base.{◌≡◌, refl, List}
use popura.Base.Panic.{Exec, value, panic}
use popura.Yggdrasil.Trace.{Event, Traced, traced, after, lift, ◌>>=◌}

-- Unless the call panics, its result has the property.
unfoldable pub Leaves : {A : Type 0} → Traced A → (A → Type 0) → Type 0
Leaves (traced es (value a)) P = P a
Leaves (traced es (panic e)) P = Unit

Leaves-after :
    {A : Type 0} (es : List Event) (m : Traced A) (P : A → Type 0)
    → Leaves m P
    → Leaves (after es m) P
unfolding Leaves
Leaves-after es (traced fs (value a)) P h = h
Leaves-after es (traced fs (panic e)) P h = tt

pub Leaves->>= :
    {A B : Type 0} (m : Traced A) (f : A → Traced B) (P : B → Type 0)
    → ((a : A) → Leaves (f a) P)
    → Leaves (m >>= f) P
unfolding Leaves ◌>>=◌
Leaves->>= (traced es (panic e)) f P k = tt
Leaves->>= (traced es (value a)) f P k = Leaves-after es (f a) P (k a)

pub Leaves-bind :
    {A B : Type 0} (m : Traced A) (f : A → Traced B) (P : A → Type 0) (Q : B → Type 0)
    → Leaves m P
    → ((a : A) → P a → Leaves (f a) Q)
    → Leaves (m >>= f) Q
unfolding Leaves ◌>>=◌
Leaves-bind (traced es (panic e)) f P Q h k = tt
Leaves-bind (traced es (value a)) f P Q h k = Leaves-after es (f a) Q (k a h)

pub Leaves-lift : {A : Type 0} (m : Exec A) → Leaves (lift m) (λ a. m ≡ value a)
unfolding Leaves lift
Leaves-lift (value a) = refl
Leaves-lift (panic e) = tt

pub Leaves-value : {A : Type 0} (a : A) (P : A → Type 0) → P a → Leaves (lift (value a)) P
unfolding Leaves lift
Leaves-value a P h = h

pub Leaves-mono :
    {A : Type 0} (m : Traced A) (P Q : A → Type 0) → ((a : A) → P a → Q a) → Leaves m P → Leaves m Q
unfolding Leaves
Leaves-mono (traced es (value a)) P Q f h = f a h
Leaves-mono (traced es (panic e)) P Q f h = tt
