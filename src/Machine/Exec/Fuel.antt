-- ===== src/Machine/Exec/Fuel.antt =====
-- The machine of src/eople_control_flow.cpp and src/eople_vm.cpp on different amounts of fuel.
pub mod Order
pub mod Loops
use eople.Base.{
  ℕ, zero, suc, ◌+◌, ◌≡◌, refl, sym, subst, ◌∙◌, Bool, true, false, Option, none, some, arith,
}
use eople.Opcodes.{Instruction, InstructionImpl, instruction, cfunction}
use eople.Machine.Result.{Result, ok, err, ◌>>=◌}
use eople.Machine.Object.{Object}
use eople.Machine.Stack.{Function}
use eople.Machine.Binop.{FloatOps}
use eople.Machine.State.{State, Step, operand, function_at, advance, pop_frame}
use eople.Machine.Loops.{Exec, run_cell}
use eople.Machine.Calls.{execution_loop, enter_function, execute_function, function_call}
use eople.Machine.Exec.{simple, nested, perform, execute}
use eople.Machine.Exec.Fuel.Order.{
  Below, Below-refl, Below-ok, Below-bind, Below-same, Below-elim, BelowExec,
}
use eople.Machine.Exec.Fuel.Loops.{
  run_cell-Below, while-Below, when-Below, whenever-Below, for_i-Below, for_f-Below,
}

-- The same of instructions, where a table has them.
abbrev BelowEntry : Option (State → Step) → Option (State → Step) → Type 0
BelowEntry (some f) (some g) = (st : State) → Below (f st) (g st)
BelowEntry none none = Unit
BelowEntry _ _ = ⊥

module _ (e e' : Exec) (h : BelowExec e e') where
  execution_loop-Below :
      (fuel : ℕ) (st : State) → Below (execution_loop e fuel st) (execution_loop e' (suc fuel) st)
  unfolding execution_loop
  execution_loop-Below zero st = tt
  execution_loop-Below (suc fuel) st =
      Below-bind (run_cell e st.process.ip st) (run_cell e' st.process.ip st) _ _
        (run_cell-Below e e' h st.process.ip st)
        (λ (st', more). Below-elim more _ _ _ _ (execution_loop-Below fuel (advance 1 st')) refl)

  execute_function-Below :
      (fuel fn : ℕ) (st : State)
      → Below (execute_function e fuel fn st) (execute_function e' (suc fuel) fn st)
  unfolding execute_function
  execute_function-Below fuel fn st = Below-same (function_at fn st) _ _ (λ f.
      Below-same (enter_function fn f st) _ _ (λ st₁.
        Below-bind (execution_loop e fuel st₁) (execution_loop e' (suc fuel) st₁) _ _
          (execution_loop-Below fuel st₁) (λ st₂. refl)))

  function_call-Below :
      (fuel : ℕ) (st : State) → Below (function_call e fuel st) (function_call e' (suc fuel) st)
  unfolding function_call
  function_call-Below fuel st = Below-same (operand 0 st) _ _ (λ a.
      Below-bind (execute_function e fuel a.word st) (execute_function e' (suc fuel) a.word st) _ _
        (execute_function-Below fuel a.word st) (λ st'. refl))

  nested-Below :
      (fops : FloatOps) (fuel : ℕ) (i : Instruction)
      → BelowEntry (nested fops e fuel i) (nested fops e' (suc fuel) i)
  unfolding nested
  nested-Below fops fuel Instruction.while = while-Below e e' h fuel
  nested-Below fops fuel Instruction.when = when-Below e e' h
  nested-Below fops fuel Instruction.whenever = whenever-Below e e' h
  nested-Below fops fuel Instruction.for_i = for_i-Below e e' h fuel
  nested-Below fops fuel Instruction.for_f = for_f-Below e e' h fops fuel
  nested-Below fops fuel Instruction.function_call = function_call-Below fuel
  nested-Below fops fuel _ = tt

by_table :
    (m n p : Option (State → Step)) (f : State → Step) (st : State)
    → BelowEntry m n
    → Below
        (elim p [ some run ↦ run st | none ↦ elim m [ some run ↦ run st | none ↦ f st ] ])
        (elim p [ some run ↦ run st | none ↦ elim n [ some run ↦ run st | none ↦ f st ] ])
by_table m n (some run) f st h = Below-refl (run st)
by_table none none none f st h = Below-refl (f st)
by_table (some r) (some r') none f st h = h st
by_table none (some r) none f st h = absurd h
by_table (some r) none none f st h = absurd h

module _ (fops : FloatOps) (others : Exec) where
  perform-Below :
      (e e' : Exec)
      → BelowExec e e'
      → (fuel : ℕ) (impl : InstructionImpl) (st : State)
      → Below (perform fops others e fuel impl st) (perform fops others e' (suc fuel) impl st)
  unfolding perform
  perform-Below e e' h fuel (instruction i) st =
      by_table (nested fops e fuel i) (nested fops e' (suc fuel) i) (simple fops i)
        (others (instruction i)) st (nested-Below e e' h fops fuel i)
  perform-Below e e' h fuel (cfunction n) st = Below-refl _

  execute-Below : (fuel : ℕ) → BelowExec (execute fops others fuel) (execute fops others (suc fuel))
  unfolding execute
  execute-Below zero impl st = tt
  execute-Below (suc fuel) impl st =
      perform-Below (execute fops others fuel) (execute fops others (suc fuel)) (execute-Below fuel)
        fuel impl st

-- What an instruction of the machine comes to with some fuel it comes to with any more: loops,
-- calls and blocks in it, and whatever the instructions outside the model do, included.
pub execute-more :
    (fops : FloatOps) (others : Exec) (fuel k : ℕ) (impl : InstructionImpl) (st st' : State)
    (more : Bool)
    → execute fops others fuel impl st ≡ ok (st', more)
    → execute fops others (fuel + k) impl st ≡ ok (st', more)
execute-more fops others fuel zero impl st st' more h =
    let e : fuel ≡ fuel + 0 = omega arith in
    subst (λ n. execute fops others n impl st ≡ ok (st', more)) e h
execute-more fops others fuel (suc k) impl st st' more h =
    let e : suc fuel + k ≡ fuel + suc k = omega arith in
    let next = Below-ok _ _ (execute-Below fops others fuel impl st) h in
    subst (λ n. execute fops others n impl st ≡ ok (st', more)) e
      (execute-more fops others (suc fuel) k impl st st' more next)
