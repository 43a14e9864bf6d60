-- ===== src/Code.antt =====
-- The instruction cells of inc/eople_core.h, and the part of src/eople_vmcode_gen.cpp that writes
-- them: `PushOpcode`, `PushCCall`, `PushOperand`, and the argument lists of the calls.
pub mod Filling
pub mod Arguments
pub mod Carriers
mod Tests
use eople.Base.{
  ℕ, zero, suc, ◌+◌, ◌%◌, ◌^◌, Bool, true, false, ◌&&◌, List, [], ◌∷◌, ◌++◌, Option, none, some,
  ltb, ◌==◌, if◌then◌else◌,
}
use eople.Opcodes.{Opcode, InstructionImpl, opcode_to_instruction}

-- `VMCode`: the pointer to the implementation, `none` for null, and four `u16` operands.
pub record VmCode : Type 0 where
  pub instruction : Option InstructionImpl
  pub a : ℕ
  pub b : ℕ
  pub c : ℕ
  pub d : ℕ

-- `VMCode( Opcode )` and `VMCode( InstructionImpl )`.
unfoldable pub code_of : Option InstructionImpl → VmCode
code_of i = record { instruction = i; a = 0; b = 0; c = 0; d = 0 }

-- The part of a `VMCodeGen` that the emitter uses.
pub record Emitter : Type 0 where
  pub code : List VmCode
  pub current_operand : ℕ
  pub opcode_count : ℕ

-- Every opcode has a case of its own in the source, which appends its cell.
unfoldable pub push_opcode : Opcode → Emitter → Emitter
unfolding code_of opcode_to_instruction
push_opcode op e = record {
  code = e.code ++ code_of (opcode_to_instruction op) ∷ [];
  current_operand = 0;
  opcode_count = e.opcode_count + 1;
}

unfoldable pub push_ccall : InstructionImpl → Emitter → Emitter
unfolding code_of
push_ccall target e = record {
  code = e.code ++ code_of (some target) ∷ [];
  current_operand = 0;
  opcode_count = e.opcode_count + 1;
}

-- The cast to `Operand`.
abbrev pub to_operand : ℕ → ℕ
to_operand n = n % 2 ^ 16

-- The cell with an operand written; the fourth operand is the last.
unfoldable pub set_operand : ℕ → ℕ → VmCode → Option VmCode
set_operand zero x cell = some (record cell { a = to_operand x })
set_operand (suc zero) x cell = some (record cell { b = to_operand x })
set_operand (suc (suc zero)) x cell = some (record cell { c = to_operand x })
set_operand (suc (suc (suc zero))) x cell = some (record cell { d = to_operand x })
set_operand (suc (suc (suc (suc k)))) x cell = none

-- A write to the last cell; there is none in empty code.
unfoldable pub set_last : ℕ → ℕ → List VmCode → Option (List VmCode)
unfolding set_operand
set_last k x [] = none
set_last k x (cell ∷ []) = elim (set_operand k x cell) [ none ↦ none | some c ↦ some (c ∷ []) ]
set_last k x (cell ∷ next ∷ cells) = elim (set_last k x (next ∷ cells)) [
  | none ↦ none
  | some r ↦ some (cell ∷ r)
]

unfoldable pub write_operand : ℕ → Emitter → Option Emitter
write_operand x e = elim (set_last e.current_operand x e.code) [
  | none ↦ none
  | some cells ↦ some (record e { code = cells; current_operand = e.current_operand + 1 })
]

-- `none` is the failed assertion for a fifth operand of one cell.
unfoldable pub push_operand : ℕ → Bool → Emitter → Option Emitter
unfolding write_operand
push_operand x allow_new_op e =
    if ltb 3 e.current_operand && allow_new_op
    then write_operand x (push_opcode Opcode.nop e)
    else write_operand x e

unfoldable pub push_operands : List ℕ → Bool → Emitter → Option Emitter
push_operands [] allow_new_op e = some e
push_operands (x ∷ xs) allow_new_op e = elim (push_operand x allow_new_op e) [
  | none ↦ none
  | some e' ↦ push_operands xs allow_new_op e'
]

-- A call: its opcode, the operands that stand first, and the arguments, with further cells for
-- those that do not fit.
unfoldable pub gen_call : Opcode → List ℕ → List ℕ → Emitter → Option Emitter
gen_call op first arguments e = elim (push_operands first false (push_opcode op e)) [
  | none ↦ none
  | some e' ↦ push_operands arguments true e'
]

-- The code that `GenFunctionCall` and `GenProcessMessage` write once the arguments are evaluated.
unfoldable pub gen_function_call : ℕ → List ℕ → Emitter → Option Emitter
unfolding gen_call
gen_function_call call arguments = gen_call Opcode.function_call (call ∷ []) arguments

unfoldable pub gen_spawn_process : ℕ → ℕ → List ℕ → Emitter → Option Emitter
unfolding gen_call
gen_spawn_process result call arguments =
    gen_call Opcode.spawn_process (result ∷ call ∷ []) arguments

unfoldable pub gen_process_message : ℕ → ℕ → List ℕ → Emitter → Option Emitter
unfolding gen_call
gen_process_message process call arguments =
    gen_call Opcode.process_message (process ∷ call ∷ []) arguments

-- The operand of a cell by its position.
unfoldable pub operand_at : ℕ → VmCode → ℕ
operand_at zero cell = cell.a
operand_at (suc zero) cell = cell.b
operand_at (suc (suc zero)) cell = cell.c
operand_at (suc (suc (suc k))) cell = cell.d

-- The operands that `ProcessStack::PushArgs` and `CopyMessageArgs` read, in their order: from
-- position `k` of a cell on, and from the first position of each further cell. `none` is a read
-- behind the code.
unfoldable pub read_arguments : ℕ → ℕ → List VmCode → Option (List ℕ)
read_arguments k zero cells = some []
read_arguments k (suc n) [] = none
read_arguments k (suc n) (cell ∷ cells) = elim (k == 4) [
  | true ↦ read_arguments 0 (suc n) cells
  | false ↦ (elim (read_arguments (k + 1) n (cell ∷ cells)) [
    | none ↦ none
    | some r ↦ some (operand_at k cell ∷ r)
  ])
]
