-- ===== src/Machine/Exec/Fuel/Order.antt =====
-- One computation has every result of another.
use eople.Base.{◌≡◌, refl, ◌∙◌, Bool, true, false, if◌then◌else◌}
use eople.Opcodes.{InstructionImpl}
use eople.Machine.Result.{Result, ok, err, ◌>>=◌}
use eople.Machine.State.{State}
use eople.Machine.Loops.{Exec}

abbrev pub Below {ℓ} : {A : Type ℓ} → Result A → Result A → Type ℓ
Below (ok a) n = n ≡ ok a
Below (err e) n = Unit

pub Below-refl {ℓ} : {A : Type ℓ} (m : Result A) → Below m m
Below-refl (ok a) = refl
Below-refl (err e) = tt

pub Below-ok {ℓ} : {A : Type ℓ} (m n : Result A) {a : A} → Below m n → m ≡ ok a → n ≡ ok a
Below-ok (ok a) n h e = h ∙ e
Below-ok (err e) n h q = cc

pub Below-bind {ℓ κ} :
    {A : Type ℓ} {B : Type κ} (m n : Result A) (f g : A → Result B)
    → Below m n
    → ((a : A) → Below (f a) (g a))
    → Below (m >>= f) (n >>= g)
Below-bind (ok a) n f g h k = rw h (k a)
Below-bind (err e) n f g h k = tt

pub Below-same {ℓ κ} :
    {A : Type ℓ} {B : Type κ} (m : Result A) (f g : A → Result B)
    → ((a : A) → Below (f a) (g a))
    → Below (m >>= f) (m >>= g)
Below-same m f g k = Below-bind m m f g (Below-refl m) k

pub Below-if {ℓ} :
    {A : Type ℓ} (t : Bool) (m n m' n' : Result A)
    → Below m m'
    → Below n n'
    → Below (if t then m else n) (if t then m' else n')
Below-if true m n m' n' h k = h
Below-if false m n m' n' h k = k

pub Below-elim {ℓ} :
    {A : Type ℓ} (t : Bool) (m n m' n' : Result A)
    → Below m m'
    → Below n n'
    → Below (elim t [ true ↦ m | false ↦ n ]) (elim t [ true ↦ m' | false ↦ n' ])
Below-elim true m n m' n' h k = h
Below-elim false m n m' n' h k = k

-- The same of what runs an instruction.
abbrev pub BelowExec : Exec → Exec → Type 0
BelowExec e e' = (impl : InstructionImpl) (st : State) → Below (e impl st) (e' impl st)
