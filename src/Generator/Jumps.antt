-- ===== src/Generator/Jumps.antt =====
-- How the statements of src/eople_vmcode_gen.cpp fill cells in that they wrote before: jumps, and the
-- counts of the cells of a loop.
use eople.Base.{
  ℕ, ◌+◌, ◌-◌, ◌^◌, Bool, true, false, List, [], ◌∷◌, Option, some, ◌==◌, if◌then◌else◌, length,
  set, get_elem?,
}
use eople.Opcodes.{Opcode, Instruction, InstructionImpl, instruction}
use eople.Code.{VmCode, to_operand}
use eople.Machine.Result.{Result, ok, ◌>>=◌, or_fault, wild_access}
use eople.Generator.State.{Generator, opcode}

-- `m_function->code[i]`, written.
unfoldable pub set_cell : ℕ → (VmCode → VmCode) → Generator → Result Generator
set_cell i f g = do
  cell ← or_fault wild_access (get_elem? g.emitter.code i)
  ok (record g { emitter = record (g.emitter) { code = set g.emitter.code i (f cell) } })

-- `code.size() - 1`: the index of the cell that `PushOpcode` has added. Where there is no code it
-- wraps around in the source and is 0 here; either is behind the code.
abbrev pub last_op : Generator → ℕ
last_op g = length g.emitter.code - 1

-- The opcodes that were pushed since the counter stood at `pre`.
abbrev pub count_since : ℕ → Generator → ℕ
count_since pre g = g.emitter.opcode_count - pre

abbrev pub is_less_than_i : Option InstructionImpl → Bool
is_less_than_i (some (instruction Instruction.less_than_i)) = true
is_less_than_i _ = false

-- A comparison becomes a jump: the operands move up for the offset.
abbrev pub to_jump_geq : VmCode → VmCode
to_jump_geq cell = record cell {
  instruction = some (instruction Instruction.jump_geq);
  b = cell.a;
  c = cell.b;
}

-- The jump behind a condition: the condition's last cell, where it is `LessThanI`, or a new one.
unfoldable pub jump_of_condition : ℕ → Generator → Result (ℕ × Generator)
unfolding set_cell
jump_of_condition expr_id g = do
  let last = last_op g
  cell ← or_fault wild_access (get_elem? g.emitter.code last)
  let jump = opcode Opcode.jump_if g
  (elim (is_less_than_i cell.instruction) [
    | true ↦ (do g' ← set_cell last to_jump_geq g; ok (last, g'))
    | false ↦ (do
      g' ← set_cell (last_op jump) (λ c. record c { b = to_operand expr_id }) jump
      ok (last_op jump, g'))
  ])

abbrev pub set_a : ℕ → VmCode → VmCode
set_a n cell = record cell { a = to_operand n }

abbrev pub add_a : ℕ → VmCode → VmCode
add_a n cell = record cell { a = to_operand (cell.a + n) }

-- The jumps to the end of an `if`: the one that was just added goes over its block, the others over
-- that jump as well.
unfoldable pub extend_jumps : ℕ → ℕ → ℕ → List ℕ → Generator → Result Generator
unfolding set_cell
extend_jumps end_jump over_block over_all [] g = ok g
extend_jumps end_jump over_block over_all (jump ∷ jumps) g = do
  g' ← set_cell jump (add_a (if end_jump == jump then over_block else over_all)) g
  extend_jumps end_jump over_block over_all jumps g'

abbrev pub start_statement : Generator → Generator
start_statement g = record g { result_index = 2 ^ 64 - 1; current_temp = g.first_temp }

-- The operands A to C of the cell of a loop with a condition.
abbrev pub set_parts : ℕ → ℕ → ℕ → VmCode → VmCode
set_parts a b c cell = record cell { a = to_operand a; b = to_operand b; c = to_operand c }
