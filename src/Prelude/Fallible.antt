-- ===== src/Prelude/Fallible.antt =====
-- Calls that may fail: `none` is an error. What such a call promises is read by `Outcome`.
use mathlib.Core.Path.{◌≡◌, refl}
use mathlib.Core.Logic.{◌⊎◌, inl, inr}
use mathlib.Core.Bool.{Bool, true, false}
use mathlib.Core.Option.{Option, none, some}
use rongo.Prelude.Tests.{if◌then◌else◌}

infixl 5 ◌>>=◌
abbrev pub ◌>>=◌ {ℓ κ} : {A : Type ℓ} {B : Type κ} → Option A → (A → Option B) → Option B
none >>= f = none
some a >>= f = f a

-- An error lets `E` hold, a result `P`.
abbrev pub Outcome {ℓ κ} : {A : Type ℓ} → Type κ → (A → Type κ) → Option A → Type κ
Outcome E P none = E
Outcome E P (some a) = P a

pub Outcome-bind {ℓ κ ι} :
    {A : Type ℓ} {B : Type κ} (E : Type ι) (P : A → Type ι) (Q : B → Type ι) (m : Option A)
    (f : A → Option B)
    → Outcome E P m
    → ((a : A) → P a → Outcome E Q (f a))
    → Outcome E Q (m >>= f)
Outcome-bind E P Q none f h k = h
Outcome-bind E P Q (some a) f h k = k a h

pub Outcome-if {ℓ κ} :
    {A : Type ℓ} (E : Type κ) (P : A → Type κ) (b : Bool) (m n : Option A)
    → Outcome E P m
    → Outcome E P n
    → Outcome E P (if b then m else n)
Outcome-if E P true m n h k = h
Outcome-if E P false m n h k = k

pub Outcome-map {ℓ κ} :
    {A : Type ℓ} (E : Type κ) {P Q : A → Type κ} (m : Option A)
    → ((a : A) → P a → Q a)
    → Outcome E P m
    → Outcome E Q m
Outcome-map E none f h = h
Outcome-map E (some a) f h = f a h

pub Outcome-imp {ℓ κ} :
    {A : Type ℓ} {E F : Type κ} {P Q : A → Type κ} (m : Option A)
    → (E → F)
    → ((a : A) → P a → Q a)
    → Outcome E P m
    → Outcome F Q m
Outcome-imp none g f h = g h
Outcome-imp (some a) g f h = f a h

pub Option-cases {ℓ} : {A : Type ℓ} (o : Option A) → (o ≡ none) ⊎ ((a : A) × (o ≡ some a))
Option-cases none = inl refl
Option-cases (some a) = inr (a, refl)

pub none_or_some {ℓ} : {A : Type ℓ} (o : Option A) (a : A) → o ≡ none → o ≡ some a → ⊥
none_or_some none a e h = cc h
none_or_some (some b) a e h = cc e
