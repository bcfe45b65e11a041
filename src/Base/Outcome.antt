-- ===== src/Base/Outcome.antt =====
-- What running a piece of the program comes to: a value, a fault at which it stops, or no end yet.
use mathlib.Core.Path.{◌≡◌, refl, ap}
use mathlib.Core.Logic.{◌⊎◌, inl, inr}
use mathlib.Core.Bool.{Bool, true, false}

pub data Fault : Type 0 where
  -- An `assert` whose condition is false.
  assertion : Fault
  -- A null pointer is read or written through.
  null_deref : Fault
  -- The memory past an allocation is read or written.
  out_of_bounds : Fault
  -- A call of `abort`.
  aborted : Fault

pub data Outcome {ℓ} (A : Type ℓ) : Type ℓ where
  ok : A → Outcome A
  fault : Fault → Outcome A
  -- The fuel ran out: the code is still in one of its loops.
  pending : Outcome A

infixl 5 ◌>>=◌ ◌>>◌
abbrev pub ◌>>=◌ {ℓ κ} : {A : Type ℓ} {B : Type κ} → Outcome A → (A → Outcome B) → Outcome B
ok a >>= f = f a
fault e >>= f = fault e
pending >>= f = pending

abbrev pub ◌>>◌ {ℓ} : {B : Type ℓ} → Outcome (Unit {0}) → Outcome B → Outcome B
m >> k = m >>= λ _. k

-- `assert(c)`: under NDEBUG nothing is tested.
abbrev pub assert_that : Bool → Bool → Outcome (Unit {0})
assert_that true c = ok tt
assert_that false true = ok tt
assert_that false false = fault assertion

-- Inversion of a bind that came to a value.
pub >>=-eq-ok {ℓ κ} :
    {A : Type ℓ} {B : Type κ} (first : Outcome A) (next : A → Outcome B) {y : B}
    → (first >>= next) ≡ ok y
    → (x : A) × (first ≡ ok x) × (next x ≡ ok y)
>>=-eq-ok (ok x) next e = (x, refl, e)
>>=-eq-ok (fault g) next e = cc
>>=-eq-ok pending next e = cc

pub Outcome-cases {ℓ} :
    {A : Type ℓ} (o : Outcome A)
    → ((a : A) × (o ≡ ok a)) ⊎ (((f : Fault) × (o ≡ fault f)) ⊎ (o ≡ pending))
Outcome-cases (ok a) = inl (a, refl)
Outcome-cases (fault f) = inr (inl (f, refl))
Outcome-cases pending = inr (inr refl)

abbrev pub value_or {ℓ} : {A : Type ℓ} → A → Outcome A → A
value_or d (ok a) = a
value_or d (fault f) = d
value_or d pending = d

pub ok-injective {ℓ} : {A : Type ℓ} {a b : A} → ok a ≡ ok b → a ≡ b
ok-injective {a} e = ap (value_or a) e

-- `P` holds of what the code comes to, if it comes to anything, and it does not fault.
abbrev pub Safe {ℓ} : {A : Type ℓ} → (A → Type 0) → Outcome A → Type 0
Safe P (ok a) = P a
Safe P (fault f) = ⊥
Safe P pending = Unit

pub Safe-bind {ℓ κ} :
    {A : Type ℓ} {B : Type κ} (P : A → Type 0) (Q : B → Type 0) (m : Outcome A) (f : A → Outcome B)
    → Safe P m
    → ((a : A) → P a → Safe Q (f a))
    → Safe Q (m >>= f)
Safe-bind P Q (ok a) f s h = h a s
Safe-bind P Q (fault g) f s h = absurd s
Safe-bind P Q pending f s h = tt

pub Safe-weaken {ℓ} :
    {A : Type ℓ} (P Q : A → Type 0) (m : Outcome A) → Safe P m → ((a : A) → P a → Q a) → Safe Q m
Safe-weaken P Q (ok a) s h = h a s
Safe-weaken P Q (fault g) s h = s
Safe-weaken P Q pending s h = tt

-- What holds of a value that a piece of the program comes to, if it does.
abbrev pub OnOk {ℓ} : {A : Type ℓ} → (A → Type 0) → Outcome A → Type 0
OnOk P (ok x) = P x
OnOk P (fault f) = Unit
OnOk P pending = Unit

pub OnOk-bind {ℓ κ} :
    {A : Type ℓ} {B : Type κ} (P : B → Type 0) (first : Outcome A) (next : A → Outcome B)
    → ((x : A) → OnOk P (next x))
    → OnOk P (first >>= next)
OnOk-bind P (ok x) next h = h x
OnOk-bind P (fault f) next h = tt
OnOk-bind P pending next h = tt

-- With what is known of the first part.
pub OnOk-then {ℓ κ} :
    {A : Type ℓ} {B : Type κ} (Q : A → Type 0) (P : B → Type 0) (first : Outcome A)
    (next : A → Outcome B)
    → OnOk Q first
    → ((x : A) → Q x → OnOk P (next x))
    → OnOk P (first >>= next)
OnOk-then Q P (ok x) next q h = h x q
OnOk-then Q P (fault f) next q h = tt
OnOk-then Q P pending next q h = tt

pub OnOk-at {ℓ} : {A : Type ℓ} (P : A → Type 0) {x : A} (m : Outcome A) → m ≡ ok x → OnOk P m → P x
OnOk-at P (ok y) e h = rw (← ok-injective e) h
OnOk-at P (fault f) e h = absurd (cc)
OnOk-at P pending e h = absurd (cc)

pub OnOk-each {ℓ} :
    {A : Type ℓ} {P : A → Type 0} (m : Outcome A) → ((x : A) → m ≡ ok x → P x) → OnOk P m
OnOk-each (ok y) h = h y refl
OnOk-each (fault f) h = tt
OnOk-each pending h = tt

pub OnOk-weaken {ℓ} :
    {A : Type ℓ} {P Q : A → Type 0} (m : Outcome A) → OnOk P m → ((x : A) → P x → Q x) → OnOk Q m
OnOk-weaken (ok x) h w = w x h
OnOk-weaken (fault f) h w = tt
OnOk-weaken pending h w = tt

-- A piece of the program that comes to a value.
abbrev pub Returns {ℓ} : {A : Type ℓ} → Outcome A → Type 0
Returns (ok x) = Unit
Returns (fault f) = ⊥
Returns pending = ⊥

pub Returns-value {ℓ} : {A : Type ℓ} (m : Outcome A) → Returns m → (x : A) × (m ≡ ok x)
Returns-value (ok x) r = (x, refl)
Returns-value (fault f) r = absurd r
Returns-value pending r = absurd r

pub Returns-bind {ℓ κ} :
    {A : Type ℓ} {B : Type κ} (first : Outcome A) (next : A → Outcome B)
    → Returns first
    → ((x : A) → first ≡ ok x → Returns (next x))
    → Returns (first >>= next)
Returns-bind (ok x) next r h = h x refl
Returns-bind (fault f) next r h = absurd r
Returns-bind pending next r h = absurd r

-- An assert that holds, evaluated or not.
pub assert_holds : (nd c : Bool) → c ≡ true → assert_that nd c ≡ ok tt
assert_holds true c h = refl
assert_holds false true h = refl
assert_holds false false h = cc
