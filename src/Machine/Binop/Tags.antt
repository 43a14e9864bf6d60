-- ===== src/Machine/Binop/Tags.antt =====
-- What the operations of src/eople_binop.cpp do with the tag of the object that they write.
use eople.Base.{
  ◌≡◌, refl, Bool, true, Option, some, none, ◌*◌, ◌^◌, ◌||◌, leb, false, if◌then◌else◌,
}
use eople.Opcodes.{Instruction}
use eople.Machine.Result.{Result, ok, err, ◌>>=◌}
use eople.Base.Int.{ℤ, pos, ltb_ℤ, eqb_ℤ}
use eople.Machine.Object.{Object, in_range, int_val}
use eople.Machine.Binop.{
  Operation, FloatOps, add_i, sub_i, mul_i, div_i, mod_i, add_f, sub_f, mul_f, div_f, shift_left,
  shift_right, b_and, b_xor, b_or, greater_than_i, less_than_i, equal_i, not_equal_i, less_equal_i,
  greater_equal_i, greater_than_f, less_than_f, equal_f, not_equal_f, less_equal_f, greater_equal_f,
  logical_and, logical_or, int_result, quot, shift_count,
}
use eople.Machine.Binop.Table.{operation}

-- An operation changes the word of an object and leaves its tag.
abbrev pub KeepsTag : Result (Object → Object) → Type 0
KeepsTag (ok g) = (o : Object) → (g o).object_type ≡ o.object_type
KeepsTag (err e) = Unit

if-KeepsTag :
    (t : Bool) (x y : Result (Object → Object))
    → KeepsTag x
    → KeepsTag y
    → KeepsTag (if t then x else y)
if-KeepsTag true x y p q = p
if-KeepsTag false x y p q = q

bind-KeepsTag :
    {A : Type 0} (m : Result A) (f : A → Result (Object → Object))
    → ((x : A) → KeepsTag (f x))
    → KeepsTag (m >>= f)
bind-KeepsTag (ok x) f p = p x
bind-KeepsTag (err e) f p = tt

int_result-KeepsTag : (z : ℤ) → KeepsTag (int_result z)
unfolding int_result
int_result-KeepsTag z = if-KeepsTag (in_range z) _ _ (λ o. refl) tt

abbrev pub AllKeepTag : Option Operation → Type 0
AllKeepTag none = Unit
AllKeepTag (some f) = (a b : Object) → KeepsTag (f a b)

div_i-KeepsTag : (a b : Object) → KeepsTag (div_i a b)
unfolding div_i
div_i-KeepsTag a b = if-KeepsTag (eqb_ℤ (int_val b) (pos 0)) _ _ tt (int_result-KeepsTag _)

mod_i-KeepsTag : (a b : Object) → KeepsTag (mod_i a b)
unfolding mod_i
mod_i-KeepsTag a b =
    if-KeepsTag (eqb_ℤ (int_val b) (pos 0)) _ _ tt
      (if-KeepsTag (in_range (quot (int_val a) (int_val b))) _ _ (int_result-KeepsTag _) tt)

shift_left-KeepsTag : (a b : Object) → KeepsTag (shift_left a b)
unfolding shift_left
shift_left-KeepsTag a b = bind-KeepsTag (shift_count (int_val b)) _ (λ n.
    if-KeepsTag (ltb_ℤ (int_val a) (pos 0) || leb (2 ^ 64) (a.word * 2 ^ n)) _ _ tt (λ o. refl))

shift_right-KeepsTag : (a b : Object) → KeepsTag (shift_right a b)
unfolding shift_right
shift_right-KeepsTag a b = bind-KeepsTag (shift_count (int_val b)) _ (λ n o. refl)

pub operation-KeepsTag : (fops : FloatOps) (i : Instruction) → AllKeepTag (operation fops i)
unfolding operation add_i sub_i mul_i add_f sub_f mul_f div_f b_and b_xor b_or greater_than_i
    less_than_i equal_i not_equal_i less_equal_i greater_equal_i greater_than_f less_than_f equal_f
    not_equal_f less_equal_f greater_equal_f logical_and logical_or
operation-KeepsTag fops Instruction.add_i = λ a b. int_result-KeepsTag _
operation-KeepsTag fops Instruction.sub_i = λ a b. int_result-KeepsTag _
operation-KeepsTag fops Instruction.mul_i = λ a b. int_result-KeepsTag _
operation-KeepsTag fops Instruction.div_i = div_i-KeepsTag
operation-KeepsTag fops Instruction.mod_i = mod_i-KeepsTag
operation-KeepsTag fops Instruction.shift_left = shift_left-KeepsTag
operation-KeepsTag fops Instruction.shift_right = shift_right-KeepsTag
operation-KeepsTag fops Instruction.add_f = λ a b o. refl
operation-KeepsTag fops Instruction.sub_f = λ a b o. refl
operation-KeepsTag fops Instruction.mul_f = λ a b o. refl
operation-KeepsTag fops Instruction.div_f = λ a b o. refl
operation-KeepsTag fops Instruction.b_and = λ a b o. refl
operation-KeepsTag fops Instruction.b_xor = λ a b o. refl
operation-KeepsTag fops Instruction.b_or = λ a b o. refl
operation-KeepsTag fops Instruction.greater_than_i = λ a b o. refl
operation-KeepsTag fops Instruction.less_than_i = λ a b o. refl
operation-KeepsTag fops Instruction.equal_i = λ a b o. refl
operation-KeepsTag fops Instruction.not_equal_i = λ a b o. refl
operation-KeepsTag fops Instruction.less_equal_i = λ a b o. refl
operation-KeepsTag fops Instruction.greater_equal_i = λ a b o. refl
operation-KeepsTag fops Instruction.greater_than_f = λ a b o. refl
operation-KeepsTag fops Instruction.less_than_f = λ a b o. refl
operation-KeepsTag fops Instruction.equal_f = λ a b o. refl
operation-KeepsTag fops Instruction.not_equal_f = λ a b o. refl
operation-KeepsTag fops Instruction.less_equal_f = λ a b o. refl
operation-KeepsTag fops Instruction.greater_equal_f = λ a b o. refl
operation-KeepsTag fops Instruction.and = λ a b o. refl
operation-KeepsTag fops Instruction.or = λ a b o. refl
operation-KeepsTag fops _ = tt
