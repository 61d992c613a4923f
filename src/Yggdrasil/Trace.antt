-- ===== src/Yggdrasil/Trace.antt =====
-- What a run of the node does, in order, and whether it panics.
use popura.Base.{Bool, ◌≡◌, refl, sym, ap, ◌∙◌, List, [], ◌∷◌, ◌++◌, All, All-append}
use mathlib.Core.List.{append_assoc}
use popura.Base.Panic.{Exec, value, panic}
use popura.Base.Text.{Bytes}

pub data Part : Type 0 where
  core admin multicast tun meshname autopeering : Part

-- Where the log goes.
pub data LogTarget : Type 0 where
  stdout syslog : LogTarget
  file : Bytes → LogTarget

-- The log is opened, with a warning or not; a log level is enabled; a line is printed; a text goes to
-- the log at the level info; a part's `New`, or a module's `Start`, returned without an error, and a
-- `New` may have given nil, so that there is no such part; a part's handlers are put on the admin
-- socket; the wait for the end begins; a part's `Stop` is called, on nil too.
pub data Event : Type 0 where
  logs : LogTarget → Bool → Event
  level printed info : Bytes → Event
  set_up handled stopped : Part → Event
  waited : Event

pub data Traced (A : Type 0) : Type 0 where
  traced : List Event → Exec A → Traced A

module _ {A : Type 0} where
  -- The events of a call behind those before it.
  abbrev pub after : List Event → Traced A → Traced A
  after es (traced fs m) = traced (es ++ fs) m

  -- A call without events.
  unfoldable pub lift : Exec A → Traced A
  lift m = traced [] m

  abbrev pub events : Traced A → List Event
  events (traced es m) = es

infixl 5 ◌>>=◌ ◌>>◌
unfoldable pub ◌>>=◌ : {A B : Type 0} → Traced A → (A → Traced B) → Traced B
traced es (value a) >>= f = after es (f a)
traced es (panic e) >>= f = traced es (panic e)

abbrev pub ◌>>◌ : {B : Type 0} → Traced (Unit {0}) → Traced B → Traced B
m >> k = m >>= λ _. k

unfoldable pub emit_all : List Event → Traced (Unit {0})
emit_all es = traced es (value tt)

abbrev pub emit : Event → Traced (Unit {0})
emit e = emit_all (e ∷ [])

-- Only what sets parts up and stops them, and the wait between.
abbrev pub life : List Event → List Event
life [] = []
life (logs t w ∷ es) = life es
life (level l ∷ es) = life es
life (printed s ∷ es) = life es
life (info s ∷ es) = life es
life (handled p ∷ es) = life es
life (e ∷ es) = e ∷ life es

pub life-append : (es fs : List Event) → life (es ++ fs) ≡ life es ++ life fs
life-append [] fs = refl
life-append (logs t w ∷ es) fs = life-append es fs
life-append (level l ∷ es) fs = life-append es fs
life-append (printed s ∷ es) fs = life-append es fs
life-append (info s ∷ es) fs = life-append es fs
life-append (handled p ∷ es) fs = life-append es fs
life-append (set_up p ∷ es) fs = ap (◌∷◌ (set_up p)) (life-append es fs)
life-append (stopped p ∷ es) fs = ap (◌∷◌ (stopped p)) (life-append es fs)
life-append (waited ∷ es) fs = ap (◌∷◌ waited) (life-append es fs)

-- The second list begins with the first.
abbrev pub IsPrefix : List Event → List Event → Type 0
IsPrefix es ls = (rest : List Event) × (es ++ rest ≡ ls)

-- What the call sets up and stops is what is listed if it returns, and otherwise the list begins with
-- it.
unfoldable pub Lives : {A : Type 0} → Traced A → List Event → Type 0
Lives (traced es (value a)) ls = life es ≡ ls
Lives (traced es (panic e)) ls = IsPrefix (life es) ls

pub Lives-after :
    {A : Type 0} (es ls ks : List Event) (m : Traced A)
    → life es ≡ ls
    → Lives m ks
    → Lives (after es m) (ls ++ ks)
unfolding Lives
Lives-after es ls ks (traced fs (panic e)) h (rest, k) = (
  rest,
  ap (λ gs. gs ++ rest) (life-append es fs) ∙ append_assoc (life es) (life fs) rest ∙ rw (h, k),
)
Lives-after es ls ks (traced fs (value a)) h k = life-append es fs ∙ rw (h, k)

pub Lives->>= :
    {A B : Type 0} (m : Traced A) (f : A → Traced B) (ls ks : List Event)
    → Lives m ls
    → ((a : A) → Lives (f a) ks)
    → Lives (m >>= f) (ls ++ ks)
unfolding Lives ◌>>=◌
Lives->>= (traced es (panic e)) f ls ks (rest, h) k =
    (rest ++ ks, sym (append_assoc (life es) rest ks) ∙ ap (λ gs. gs ++ ks) h)
Lives->>= (traced es (value a)) f ls ks h k = Lives-after es ls ks (f a) h (k a)

pub Lives-lift : {A : Type 0} (m : Exec A) → Lives (lift m) []
unfolding Lives lift
Lives-lift (value a) = refl
Lives-lift (panic e) = ([], refl)

pub Lives-emit_all : (es : List Event) → Lives (emit_all es) (life es)
unfolding Lives emit_all
Lives-emit_all es = refl

-- No part is set up, whether the call panics or not.
abbrev pub IsIdle : Event → Type 0
IsIdle (set_up p) = ⊥
IsIdle e = Unit

unfoldable pub Idles : {A : Type 0} → Traced A → Type 0
Idles m = All IsIdle (events m)

Idles-after :
    {A : Type 0} (es : List Event) (m : Traced A) → All IsIdle es → Idles m → Idles (after es m)
unfolding Idles
Idles-after es (traced fs r) h k = All-append IsIdle es fs h k

pub Idles->>= :
    {A B : Type 0} (m : Traced A) (f : A → Traced B)
    → Idles m
    → ((a : A) → Idles (f a))
    → Idles (m >>= f)
unfolding Idles ◌>>=◌
Idles->>= (traced es (panic e)) f h k = h
Idles->>= (traced es (value a)) f h k = Idles-after es (f a) h (k a)

pub Idles-lift : {A : Type 0} (m : Exec A) → Idles (lift m)
unfolding Idles lift
Idles-lift m = tt

pub Idles-emit_all : (es : List Event) → All IsIdle es → Idles (emit_all es)
unfolding Idles emit_all
Idles-emit_all es h = h

after-append :
    {A : Type 0} (es fs : List Event) (m : Traced A) → after (es ++ fs) m ≡ after es (after fs m)
after-append es fs (traced gs m) = ap (λ hs. traced hs m) (append_assoc es fs gs)

after-nil : {A : Type 0} (m : Traced A) → after [] m ≡ m
after-nil (traced es m) = refl

after->>= :
    {A B : Type 0} (es : List Event) (m : Traced A) (f : A → Traced B)
    → (after es m >>= f) ≡ after es (m >>= f)
unfolding ◌>>=◌
after->>= es (traced fs (panic e)) f = refl
after->>= es (traced fs (value a)) f = after-append es fs (f a)

-- A result that is given on, and three calls in a row.
pub value_bind : {A B : Type 0} (a : A) (f : A → Traced B) → (lift (value a) >>= f) ≡ f a
unfolding ◌>>=◌ lift
value_bind a f = after-nil (f a)

pub bind_assoc :
    {A B C : Type 0} (m : Traced A) (g : A → Traced B) (f : B → Traced C)
    → ((m >>= g) >>= f) ≡ (m >>= λ a. g a >>= f)
unfolding ◌>>=◌
bind_assoc (traced es (panic e)) g f = refl
bind_assoc (traced es (value a)) g f = after->>= es (g a) f
