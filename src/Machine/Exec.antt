-- ===== src/Machine/Exec.antt =====
-- The instructions of the machine together: the function pointers of src/eople_vm.cpp and what
-- they run. Fuel bounds how deep instructions run one another and how long loops go on. The
-- instructions that the library does not model (strings, arrays, printing, new processes, the C
-- functions) are `others`.
pub mod Fuel
pub mod Straight
pub mod Visits
use eople.Base.{ℕ, zero, suc, Option, none, some}
use eople.Opcodes.{Instruction, InstructionImpl, instruction, cfunction}
use eople.Machine.Result.{Result, err, out_of_fuel}
use eople.Machine.Binop.{FloatOps, three_operands, store}
use eople.Machine.Binop.Table.{operation}
use eople.Machine.State.{State, Step}
use eople.Machine.Flow.{
  jump, jump_if, jump_gt, jump_lt, jump_eq, jump_neq, jump_leq, jump_geq, return_nil, return_value,
  when_register, whenever_register, process_message,
}
use eople.Machine.Loops.{Exec, while, when, whenever, for_i, for_f}
use eople.Machine.Calls.{function_call}

-- The instructions that run no other code.
unfoldable pub simple : FloatOps → Instruction → Option (State → Step)
simple fops Instruction.store = some store
simple fops Instruction.jump = some jump
simple fops Instruction.jump_if = some jump_if
simple fops Instruction.jump_gt = some jump_gt
simple fops Instruction.jump_lt = some jump_lt
simple fops Instruction.jump_eq = some jump_eq
simple fops Instruction.jump_neq = some jump_neq
simple fops Instruction.jump_leq = some jump_leq
simple fops Instruction.jump_geq = some jump_geq
simple fops Instruction.return = some return_nil
simple fops Instruction.return_value = some return_value
simple fops Instruction.when_register = some when_register
simple fops Instruction.whenever_register = some whenever_register
simple fops Instruction.process_message = some process_message
simple fops i = elim (operation fops i) [ none ↦ none | some f ↦ some (three_operands f) ]

-- The instructions that run other code, through `exec`.
unfoldable pub nested : FloatOps → Exec → ℕ → Instruction → Option (State → Step)
nested fops exec fuel Instruction.while = some (while exec fuel)
nested fops exec fuel Instruction.when = some (when exec)
nested fops exec fuel Instruction.whenever = some (whenever exec)
nested fops exec fuel Instruction.for_i = some (for_i exec fuel)
nested fops exec fuel Instruction.for_f = some (for_f exec fops fuel)
nested fops exec fuel Instruction.function_call = some (function_call exec fuel)
nested fops exec fuel _ = none

module _ (fops : FloatOps) (others : Exec) where
  unfoldable pub perform : Exec → ℕ → InstructionImpl → State → Step
  unfolding simple nested
  perform exec fuel (instruction i) st = elim (simple fops i) [
    | some run ↦ run st
    | none ↦ (elim (nested fops exec fuel i) [
      | some run ↦ run st
      | none ↦ others (instruction i) st
    ])
  ]
  perform exec fuel (cfunction n) st = others (cfunction n) st

  unfoldable pub execute : ℕ → Exec
  unfolding perform
  execute zero impl st = err out_of_fuel
  execute (suc fuel) impl st = perform (execute fuel) fuel impl st
