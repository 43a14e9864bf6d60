-- ===== src/Machine/Result.antt =====
-- What an instruction of the machine can come to.
use eople.Base.{◌≡◌, refl, subst, Option, none, some, Bool, true, false, if◌then◌else◌}

-- A failed assertion, a null pointer that is followed, a read behind the memory that the program
-- owns, signed arithmetic that C++ leaves undefined, and the end of the model's fuel.
pub data Fault : Type 0 where
  assertion null_pointer wild_access div_by_zero overflow bad_shift out_of_fuel : Fault

pub data Result {ℓ} (Value : Type ℓ) : Type ℓ where
  err : Fault → Result Value
  ok : Value → Result Value

abbrev pub or_fault {ℓ} : {A : Type ℓ} → Fault → Option A → Result A
or_fault e none = err e
or_fault e (some a) = ok a

-- A condition that the source asserts or that the language asks for.
abbrev pub check : Bool → Fault → Result (Unit {0})
check t fault = if t then ok tt else err fault

infixl 5 ◌>>=◌
abbrev pub ◌>>=◌ {ℓ κ} :
    {Value : Type ℓ} {Next : Type κ} → Result Value → (Value → Result Next) → Result Next
err fault >>= next = err fault
ok value >>= next = next value

-- A step whose value is not used.
infixl 5 ◌>>◌
abbrev pub ◌>>◌ {ℓ} : {Next : Type ℓ} → Result (Unit {0}) → Result Next → Result Next
step >> next = step >>= λ done. next

-- A chain that succeeds: its first step had a value, from which the rest succeeded.
pub >>=-eq-ok {ℓ κ} :
    {Value : Type ℓ} {Next : Type κ} (step : Result Value) (next : Value → Result Next) {n : Next}
    → (step >>= next) ≡ ok n
    → (v : Value) × (step ≡ ok v) × (next v ≡ ok n)
>>=-eq-ok (err fault) next succeeds = cc
>>=-eq-ok (ok v) next succeeds = (v, refl, succeeds)

-- What holds of the result where there is one.
abbrev pub After {ℓ κ} : {A : Type ℓ} → (A → Type κ) → Result A → Type κ
After P (ok a) = P a
After P (err e) = Unit

pub After-bind {ℓ κ μ} :
    {A : Type ℓ} {B : Type κ} (P : B → Type μ) (m : Result A) (f : A → Result B)
    → ((a : A) → m ≡ ok a → After P (f a))
    → After P (m >>= f)
After-bind P (ok a) f h = h a refl
After-bind P (err e) f h = tt

pub After-if {ℓ μ} :
    {A : Type ℓ} (P : A → Type μ) (t : Bool) (m n : Result A)
    → (t ≡ true → After P m)
    → (t ≡ false → After P n)
    → After P (if t then m else n)
After-if P true m n hm hn = hm refl
After-if P false m n hm hn = hn refl

pub After-ok {ℓ μ} :
    {A : Type ℓ} (P : A → Type μ) (m : Result A) {a : A} → After P m → m ≡ ok a → P a
After-ok P m h e = subst (After P) e h

pub After-map {ℓ κ μ} :
    {A : Type ℓ} (P : A → Type κ) (Q : A → Type μ) (m : Result A)
    → ((a : A) → P a → Q a)
    → After P m
    → After Q m
After-map P Q (ok a) f h = f a h
After-map P Q (err e) f h = tt

-- A step, and what follows it.
pub After-then {ℓ κ μ ν} :
    {A : Type ℓ} {B : Type κ} (P : A → Type μ) (Q : B → Type ν) (m : Result A) (f : A → Result B)
    → After P m
    → ((a : A) → P a → After Q (f a))
    → After Q (m >>= f)
After-then P Q (ok a) f h k = k a h
After-then P Q (err e) f h k = tt
