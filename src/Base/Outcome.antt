-- ===== src/Base/Outcome.antt =====
-- Code that may run into undefined behaviour: the outcome is a value or a memory fault.
use mathlib.Core.Path.{◌≡◌, refl}
use mathlib.Core.Logic.{◌≢◌}
use mathlib.Core.Option.{Option, none, some}

-- A write past a buffer, a read past one, a null pointer, a pointer to a freed object, a `free` of what is
-- not allocated; and the mark
-- of a loop of the model whose fuel was too small.
pub data Fault : Type 0 where
  overflow over_read null_deref use_after_free bad_free out_of_fuel : Fault

pub data Exec {ℓ} (A : Type ℓ) : Type ℓ where
  ok : A → Exec A
  fault : Fault → Exec A

infixl 5 ◌>>=◌ ◌>>◌
abbrev pub ◌>>=◌ {ℓ κ} : {A : Type ℓ} {B : Type κ} → Exec A → (A → Exec B) → Exec B
ok a >>= f = f a
fault e >>= f = fault e

abbrev pub ◌>>◌ {ℓ} : {B : Type ℓ} → Exec (Unit {0}) → Exec B → Exec B
m >> k = m >>= λ _. k

-- Reading through a pointer that may be NULL.
abbrev pub deref {ℓ} : {A : Type ℓ} → Option A → Exec A
deref none = fault null_deref
deref (some a) = ok a

-- Reading an element of an array at an index that may be out of range.
abbrev pub element {ℓ} : {A : Type ℓ} → Option A → Exec A
element none = fault over_read
element (some a) = ok a

pub bind-eq-ok {ℓ κ} :
    {A : Type ℓ} {B : Type κ} (m : Exec A) (f : A → Exec B) {b : B}
    → (m >>= f) ≡ ok b
    → (a : A) × (m ≡ ok a) × (f a ≡ ok b)
bind-eq-ok (ok a) f h = (a, refl, h)
bind-eq-ok (fault e) f h = cc

-- The outcome is not the mark of a loop that stopped for lack of fuel.
abbrev pub InFuel {ℓ} : {A : Type ℓ} → Exec A → Type 0
InFuel (ok a) = Unit
InFuel (fault e) = e ≢ out_of_fuel

pub >>=-InFuel {ℓ κ} :
    {A : Type ℓ} {B : Type κ} (m : Exec A) (f : A → Exec B)
    → InFuel m
    → ((a : A) → InFuel (f a))
    → InFuel (m >>= f)
>>=-InFuel (ok a) f h k = k a
>>=-InFuel (fault e) f h k = h

pub bind-cong {ℓ κ} :
    {A : Type ℓ} {B : Type κ} (m : Exec A) (f g : A → Exec B)
    → ((a : A) → f a ≡ g a)
    → (m >>= f) ≡ (m >>= g)
bind-cong (ok a) f g same = same a
bind-cong (fault e) f g same = refl

pub bind_assoc {ℓ κ μ} :
    {A : Type ℓ} {B : Type κ} {C : Type μ} (m : Exec A) (f : A → Exec B) (g : B → Exec C)
    → ((m >>= f) >>= g) ≡ (m >>= λ (a : A). f a >>= g)
bind_assoc (ok a) f g = refl
bind_assoc (fault e) f g = refl

pub bind-ok {ℓ} : {A : Type ℓ} (m : Exec A) → (m >>= ok) ≡ m
bind-ok (ok a) = refl
bind-ok (fault e) = refl
