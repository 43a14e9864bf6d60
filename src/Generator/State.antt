-- ===== src/Generator/State.antt =====
-- What the code generator of src/eople_vmcode_gen.cpp keeps and reads, and the opcodes that it picks by
-- type.
use eople.Base.{◌≡◌, refl, ℕ, ◌+◌, Bool, true, false, List, Option, none, some, if◌then◌else◌}
use eople.Base.Text.{Text}
use eople.Types.{Ty, primitive, ValueType}
use eople.Opcodes.{Opcode}
use eople.Code.{VmCode, Emitter, push_opcode, push_operands}
use eople.Machine.Result.{Result, ok, ◌>>=◌, or_fault, assertion, err}
use eople.Machine.Object.{Object}
use eople.Generator.Scope.{Scope}
use eople.Generator.Ast.{OpType}

-- A function that `GetFunction` or `GetMemberFunction` finds: its number and its return type.
pub record Callee : Type 0 where
  pub function : ℕ
  pub return_type : Ty

-- What the generator reads while it works on one function: the scopes; the searches of the modules,
-- by name, and by process and name; the return type that type inference left in a call; the slot
-- above the frame; the first slot of the constants; the depth that is not initialised; the
-- first temporary; the number of the next function of the module.
pub record Context : Type 0 where
  pub scopes : List Scope
  pub get_function : Text → Option Callee
  pub get_member_function : Text → Text → Option Callee
  pub get_cfunction : Text → Option ℕ
  pub call_type : Text → Ty
  pub storage_end : ℕ
  pub base_stack_offset : ℕ
  pub first_constant : ℕ
  pub stray_depth : ℕ
  pub temp_start : ℕ
  pub first_block : ℕ

-- The members of `VMCodeGen` that change. `blocks` are the functions of when and whenever statements
-- that are added to the module, each with its identifier and its code.
pub record Generator : Type 0 where
  pub emitter : Emitter
  pub constants : List Object
  pub first_temp : ℕ
  pub current_temp : ℕ
  pub result_index : ℕ
  pub error_count : ℕ
  pub blocks : List (Text × List VmCode)

abbrev pub bump_error : Generator → Generator
bump_error g = record g { error_count = g.error_count + 1 }

abbrev pub opcode : Opcode → Generator → Generator
opcode op g = record g { emitter = push_opcode op g.emitter }

-- What an emitter does, for the generator.
unfoldable pub emitting : (Emitter → Option Emitter) → Generator → Result Generator
emitting f g = do e ← or_fault assertion (f g.emitter); ok (record g { emitter = e })

unfoldable pub operands : List ℕ → Generator → Result Generator
unfolding emitting
operands xs = emitting (push_operands xs false)

abbrev pub is_primitive : ValueType → Ty → Bool
is_primitive ValueType.float (primitive ValueType.float) = true
is_primitive ValueType.int (primitive ValueType.int) = true
is_primitive ValueType.bool (primitive ValueType.bool) = true
is_primitive ValueType.string (primitive ValueType.string) = true
is_primitive ValueType.nil (primitive ValueType.nil) = true
is_primitive _ _ = false

abbrev pub is_process : Ty → Bool
is_process (Ty.process_type name) = true
is_process (primitive ValueType.process) = true
is_process _ = false

abbrev pub is_array : Ty → Bool
is_array (Ty.array_type inner) = true
is_array (primitive ValueType.array) = true
is_array _ = false

-- `CHOOSE_OP`.
abbrev by_float : Ty → Opcode → Opcode → Opcode
by_float t f i = if is_primitive ValueType.float t then f else i

-- The switch of `EQ`, `NEQ` and `ADD` on the type of the left side.
abbrev by_type : Ty → Opcode → Opcode → Opcode → Opcode → Opcode
by_type t f i b s =
    if is_primitive ValueType.float t
    then f
    else if is_primitive ValueType.int t
    then i
    else if is_primitive ValueType.bool t
    then b
    else if is_primitive ValueType.string t
    then s
    else Opcode.nop

-- The opcode of an operator, by the type of its left side; `none` counts an error and leaves `NOP`.
unfoldable pub choose_opcode : OpType → Ty → Option Opcode
choose_opcode OpType.gt t = some (by_float t Opcode.greater_than_f Opcode.greater_than_i)
choose_opcode OpType.lt t = some (by_float t Opcode.less_than_f Opcode.less_than_i)
choose_opcode OpType.eq t =
    some (by_type t Opcode.equal_f Opcode.equal_i Opcode.equal_i Opcode.equal_s)
choose_opcode OpType.neq t =
    some (by_type t Opcode.not_equal_f Opcode.not_equal_i Opcode.not_equal_i Opcode.not_equal_s)
choose_opcode OpType.leq t = some (by_float t Opcode.less_equal_f Opcode.less_equal_i)
choose_opcode OpType.geq t = some (by_float t Opcode.greater_equal_f Opcode.greater_equal_i)
choose_opcode OpType.and t = some Opcode.and
choose_opcode OpType.or t = some Opcode.or
choose_opcode OpType.sub t = some (by_float t Opcode.sub_f Opcode.sub_i)
choose_opcode OpType.mul t = some (by_float t Opcode.mul_f Opcode.mul_i)
choose_opcode OpType.div t = some (by_float t Opcode.div_f Opcode.div_i)
choose_opcode OpType.shl t = some Opcode.shift_left
choose_opcode OpType.shr t = some Opcode.shift_right
choose_opcode OpType.band t = some Opcode.b_and
choose_opcode OpType.bxor t = some Opcode.b_xor
choose_opcode OpType.bor t = some Opcode.b_or
choose_opcode OpType.add t = some (by_type t Opcode.add_f Opcode.add_i Opcode.nop Opcode.concat_s)
choose_opcode OpType.modulo t = if is_primitive ValueType.int t then some Opcode.mod_i else none
choose_opcode OpType.not t = none
choose_opcode OpType.call t = none
choose_opcode OpType.unknown t = none

abbrev is_comparison : OpType → Bool
is_comparison OpType.gt = true
is_comparison OpType.lt = true
is_comparison OpType.eq = true
is_comparison OpType.neq = true
is_comparison OpType.leq = true
is_comparison OpType.geq = true
is_comparison OpType.and = true
is_comparison OpType.or = true
is_comparison _ = false

-- The type of an operator by the type of its left side, which a comparison does not ask for; an
-- operator that has no case fails the assertion.
unfoldable pub operator_type : OpType → Result Ty → Result Ty
operator_type OpType.not t = err assertion
operator_type OpType.call t = err assertion
operator_type OpType.unknown t = err assertion
operator_type op t = if is_comparison op then ok (primitive ValueType.bool) else t

-- Whether the choice of the opcode asks for the type of the left side.
abbrev pub reads_type : OpType → Bool
reads_type OpType.and = false
reads_type OpType.or = false
reads_type OpType.shl = false
reads_type OpType.shr = false
reads_type OpType.band = false
reads_type OpType.bxor = false
reads_type OpType.bor = false
reads_type OpType.not = false
reads_type OpType.call = false
reads_type OpType.unknown = false
reads_type _ = true

pub choose_opcode-any :
    (op : OpType) (t u : Ty) → reads_type op ≡ false → choose_opcode op t ≡ choose_opcode op u
unfolding choose_opcode
choose_opcode-any OpType.and t u h = refl
choose_opcode-any OpType.or t u h = refl
choose_opcode-any OpType.shl t u h = refl
choose_opcode-any OpType.shr t u h = refl
choose_opcode-any OpType.band t u h = refl
choose_opcode-any OpType.bxor t u h = refl
choose_opcode-any OpType.bor t u h = refl
choose_opcode-any OpType.not t u h = refl
choose_opcode-any OpType.call t u h = refl
choose_opcode-any OpType.unknown t u h = refl
choose_opcode-any _ t u h = cc

-- `StringCopy` for a string, `Store` for all else.
abbrev pub store_opcode : Ty → Opcode
store_opcode t = if is_primitive ValueType.string t then Opcode.string_copy else Opcode.store
