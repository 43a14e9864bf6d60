-- ===== src/Generator/Meaning.antt =====
-- What the operators of the language mean on integers and Booleans, apart from registers, objects
-- and instructions: the view of an expression that the code of src/eople_vmcode_gen.cpp, run by the
-- instructions of src/eople_binop.cpp, is to keep to.
pub mod Operators
pub mod Cells
pub mod Runs
pub mod Kinds
pub mod Parts
pub mod Computes
pub mod Sides
pub mod Refines
use eople.Base.{
  ℕ, ◌+◌, ◌<◌, ◌≡◌, Bool, true, false, not, ◌&&◌, ◌||◌, Option, none, some, if◌then◌else◌,
  get_elem?, List,
}
use eople.Base.Int.{ℤ, pos, ◌+ℤ◌, ◌-ℤ◌, ◌*ℤ◌, ltb_ℤ, leb_ℤ, eqb_ℤ}
use eople.Base.Text.{Text}
use eople.Types.{Ty, primitive, ValueType}
use eople.Machine.Result.{ok}
use eople.Machine.Object.{Object, int_val, is_true, in_range}
use eople.Machine.Binop.{quot, rem}
use eople.Generator.Ast.{OpType, Expression, identifier, literal, binary_op}
use eople.Generator.Scope.{get_expression_type}
use eople.Generator.State.{Context}
use eople.Generator.Expressions.{symbol_to_stack}

pub data Value : Type 0 where
  number : ℤ → Value
  truth : Bool → Value

-- A number that an `int_t` does not hold has no meaning.
unfoldable pub within : ℤ → Option Value
within z = if in_range z then some (number z) else none

-- Operators on numbers.
unfoldable pub count_with : OpType → ℤ → ℤ → Option Value
unfolding within
count_with OpType.add x y = within (x +ℤ y)
count_with OpType.sub x y = within (x -ℤ y)
count_with OpType.mul x y = within (x *ℤ y)
count_with OpType.div x y = if eqb_ℤ y (pos 0) then none else within (quot x y)
count_with OpType.modulo x y =
    if eqb_ℤ y (pos 0) then none else if in_range (quot x y) then within (rem x y) else none
count_with OpType.gt x y = some (truth (ltb_ℤ y x))
count_with OpType.lt x y = some (truth (ltb_ℤ x y))
count_with OpType.eq x y = some (truth (eqb_ℤ x y))
count_with OpType.neq x y = some (truth (not (eqb_ℤ x y)))
count_with OpType.leq x y = some (truth (leb_ℤ x y))
count_with OpType.geq x y = some (truth (leb_ℤ y x))
count_with _ x y = none

-- Operators on truth values. Equality is not one of them: it compares the whole words.
unfoldable pub decide_with : OpType → Bool → Bool → Option Value
decide_with OpType.and p q = some (truth (p && q))
decide_with OpType.or p q = some (truth (p || q))
decide_with _ p q = none

unfoldable pub apply : OpType → Value → Value → Option Value
unfolding count_with decide_with
apply op (number x) (number y) = count_with op x y
apply op (truth p) (truth q) = decide_with op p q
apply op (number x) (truth q) = none
apply op (truth p) (number y) = none

unfoldable pub value_of : Ty → Object → Option Value
value_of (primitive ValueType.int) o = some (number (int_val o))
value_of (primitive ValueType.bool) o = some (truth (is_true o))
value_of _ o = none

-- The value of an expression of variables, literals and operators, by the values of the variables.
unfoldable pub meaning : (Text → Value) → Expression → Option Value
unfolding apply value_of
meaning values (identifier name guard) = if guard then none else some (values name)
meaning values (literal name t o) = value_of t o
meaning values (binary_op op l r) = elim (meaning values l) [
  | none ↦ none
  | some x ↦ (elim (meaning values r) [ none ↦ none | some y ↦ apply op x y ])
]
meaning values _ = none

-- The object of a register stands for a value, whatever its tag and the upper half of a Boolean.
abbrev pub Shows : Value → Object → Type 0
Shows (number z) o = int_val o ≡ z
Shows (truth b) o = is_true o ≡ b

abbrev pub kind : Value → Ty
kind (number z) = primitive ValueType.int
kind (truth b) = primitive ValueType.bool

-- The register of a frame that begins at `base` holds an object with a property, and lies below
-- `limit`.
pub record Held (base : ℕ) (memory : List Object) (limit slot : ℕ) (P : Object → Type 0)
    : Type 0 where
  pub object : Object
  pub below : slot < limit
  pub is_held : get_elem? memory (base + slot) ≡ some object
  pub has : P object

-- The variables of an expression lie in registers below `limit` that show their values, with the
-- types of those, and its literals lie there too.
abbrev pub Loaded : Context → (Text → Value) → ℕ → List Object → ℕ → Expression → Type 0
Loaded cx values base memory limit (identifier name guard) =
    (slot : ℕ) × (symbol_to_stack cx name ≡ ok slot)
    × (get_expression_type cx.scopes name ≡ some (kind (values name)))
    × Held base memory limit slot (Shows (values name))
Loaded cx values base memory limit (literal name t o) =
    (slot : ℕ) × (symbol_to_stack cx name ≡ ok slot)
    × Held base memory limit slot (λ stored. stored ≡ o)
Loaded cx values base memory limit (binary_op op l r) =
    Loaded cx values base memory limit l × Loaded cx values base memory limit r
Loaded cx values base memory limit _ = Unit

-- How many temporaries an expression takes at most.
abbrev pub operators : Expression → ℕ
operators (binary_op op l r) = operators l + operators r + 1
operators _ = 0
