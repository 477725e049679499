-- ===== src/Base/Errors.antt =====
-- What a run of the program's code gives: a value, or the way in which it goes wrong.
use mathlib.Core.Path.{◌≡◌, refl, ap, subst}
use mathlib.Core.Logic.{◌≢◌}
use mathlib.Core.Bool.{Bool, true, false}
use mathlib.Core.Option.{Option, none, some}

-- `exit_failure`: ASSERT or FATAL (common/macros.hpp) prints and leaves the process.
-- `out_of_range`: `std::array::at` throws, in a `noexcept` function or uncaught: the process ends.
-- `null_pointer`: a null pointer is followed, which is undefined behaviour.
-- `out_of_fuel`: a loop of the model met its bound before the loop of the code ended.
pub data Failure : Type 0 where
  exit_failure out_of_range null_pointer out_of_fuel : Failure

pub data Outcome {ℓ} (A : Type ℓ) : Type ℓ where
  ok : A → Outcome A
  failed : Failure → Outcome A

-- `ASSERT(cond, msg)`: the message goes to the error stream, which is not modelled.
abbrev pub assert : Bool → Outcome (Unit {0})
assert true = ok tt
assert false = failed Failure.exit_failure

-- `FATAL(msg)`
abbrev pub fatal {ℓ} : {A : Type ℓ} → Outcome A
fatal = failed Failure.exit_failure

-- A pointer that is about to be followed.
abbrev pub deref {ℓ} : {A : Type ℓ} → Option A → Outcome A
deref none = failed Failure.null_pointer
deref (some p) = ok p

-- The bounds check of `std::array::at`.
abbrev pub in_range : Bool → Outcome (Unit {0})
in_range true = ok tt
in_range false = failed Failure.out_of_range

-- The code after a call runs with the call's value; a run that went wrong is over.
infixl 5 ◌>>=◌ ◌>>◌
abbrev pub ◌>>=◌ {ℓ κ} :
    {X : Type ℓ} {Y : Type κ} (run : Outcome X) (next : X → Outcome Y) → Outcome Y
failed e >>= next = failed e
ok x >>= next = next x

abbrev pub ◌>>◌ {κ} : {Y : Type κ} (run : Outcome (Unit {0})) (next : Outcome Y) → Outcome Y
run >> next = run >>= λ _. next

-- The run does not meet the bound of a loop, and a value that it gives has the property.
abbrev pub Ends {ℓ} : {A : Type ℓ} → (A → Type 0) → Outcome A → Type 0
Ends P (ok a) = P a
Ends P (failed e) = e ≢ Failure.out_of_fuel

pub Ends-intro {ℓ} :
    {A : Type ℓ} (P : A → Type 0) (m : Outcome A)
    → m ≢ failed Failure.out_of_fuel
    → ((a : A) → m ≡ ok a → P a)
    → Ends P m
Ends-intro P (ok a) h k = k a refl
Ends-intro P (failed e) h k = λ q. h (ap failed q)

pub Ends-bind {ℓ κ} :
    {A : Type ℓ} {B : Type κ} (P : A → Type 0) (Q : B → Type 0) (m : Outcome A) (f : A → Outcome B)
    → Ends P m
    → ((a : A) → P a → Ends Q (f a))
    → Ends Q (m >>= f)
Ends-bind P Q (ok a) f h k = k a h
Ends-bind P Q (failed e) f h k = h

pub Ends-ok {ℓ} : {A : Type ℓ} (P : A → Type 0) (m : Outcome A) {a : A} → Ends P m → m ≡ ok a → P a
Ends-ok P (ok a) h e = subst (Ends P) e h
Ends-ok P (failed x) h e = cc

pub >>=-ne_out_of_fuel {ℓ κ} :
    {A : Type ℓ} {B : Type κ} (m : Outcome A) (f : A → Outcome B)
    → m ≢ failed Failure.out_of_fuel
    → ((a : A) → f a ≢ failed Failure.out_of_fuel)
    → (m >>= f) ≢ failed Failure.out_of_fuel
>>=-ne_out_of_fuel (ok a) f h k = k a
>>=-ne_out_of_fuel (failed e) f h k = λ q. h (cc)

pub Ends-mono {ℓ} :
    {A : Type ℓ} (P Q : A → Type 0) (m : Outcome A) → ((a : A) → P a → Q a) → Ends P m → Ends Q m
Ends-mono P Q (ok a) k h = k a h
Ends-mono P Q (failed e) k h = h

-- A call whose following code succeeds has itself succeeded.
pub >>=-eq-ok {ℓ κ} :
    {X : Type ℓ} {Y : Type κ} (run : Outcome X) (next : X → Outcome Y) {y : Y}
    → (run >>= next) ≡ ok y
    → (x : X) × (run ≡ ok x) × (next x ≡ ok y)
>>=-eq-ok (failed e) next eq = cc
>>=-eq-ok (ok x) next eq = (x, refl, eq)

pub ok-inj {ℓ} : {X : Type ℓ} {x y : X} → ok x ≡ ok y → x ≡ y
ok-inj h = cc

pub >>=-assoc :
    {A B C : Type 0} (m : Outcome A) (f : A → Outcome B) (g : B → Outcome C)
    → ((m >>= f) >>= g) ≡ (m >>= λ a. f a >>= g)
>>=-assoc (ok a) f g = refl
>>=-assoc (failed e) f g = refl

pub >>=-cong :
    {A B : Type 0} (m : Outcome A) (f g : A → Outcome B)
    → ((a : A) → f a ≡ g a)
    → (m >>= f) ≡ (m >>= g)
>>=-cong (ok a) f g h = h a
>>=-cong (failed e) f g h = refl

pub >>=-ok : {A : Type 0} (m : Outcome A) → (m >>= λ a. ok a) ≡ m
>>=-ok (ok a) = refl
>>=-ok (failed e) = refl
