-- ===== src/Machine/Calls.antt =====
-- `ExecutionLoop` of inc/eople_vm.h, `ExecuteFunction` of src/eople_vm.cpp and `FunctionCall` of
-- src/eople_control_flow.cpp: how a function runs on the stack of a process. The exceptions that C
-- functions throw are not modelled.
pub mod Returns
pub mod Cells
pub mod Operands
pub mod Arrival
pub mod Parameters
pub mod Carriers
use eople.Base.{
  ℕ, zero, suc, ◌+◌, Bool, true, false, List, [], ◌∷◌, ◌++◌, Option, none, some, ◌==◌,
  if◌then◌else◌, length, drop, set, get_elem?,
}
use eople.Code.{VmCode, read_arguments}
use eople.Machine.Result.{
  Result, ok, err, ◌>>=◌, ◌>>◌, check, or_fault, wild_access, out_of_fuel, null_pointer,
}
use eople.Machine.Object.{Object, is_true}
use eople.Machine.Stack.{
  Function, parameter_count, initialize_locals, push_constants, push_args, copy_arguments,
  get_object_at_offset, apply_closure_state, capture_closure,
}
use eople.Machine.State.{
  State, Step, CodePtr, CallData, Promise, WhenBlock, operand, function_at, setup_frame, pop_frame,
  advance, with_stack, with_process,
}
use eople.Machine.Flow.{promise_at}
use eople.Machine.Loops.{Exec, run_cell}

-- `while( ip->instruction( process_ref ) ) ++ip;`
unfoldable pub execution_loop : Exec → ℕ → State → Result State
unfolding run_cell
execution_loop exec zero st = err out_of_fuel
execution_loop exec (suc fuel) st = do
  (st', more) ← run_cell exec st.process.ip st
  (elim more [ true ↦ execution_loop exec fuel (advance 1 st') | false ↦ ok st' ])

-- The cells from an instruction on.
unfoldable pub cells_from : Option CodePtr → State → Result (List VmCode)
unfolding function_at
cells_from none st = err null_pointer
cells_from (some p) st = do f ← function_at p.fn st; ok (drop p.at f.code)

-- Where `PushArgs` puts the first parameter, and the operand of the caller's cell that it reads for
-- it. A constructor keeps the first object of the stack free, and operand B of its call names the
-- object that is built.
unfoldable pub first_parameter : Function → State → ℕ
first_parameter f st = if f.is_constructor then 1 else st.process.stack.stack_base

unfoldable pub first_operand : Function → ℕ
first_operand f = if f.is_constructor then 2 else 1

-- `PushArgs` with an instruction pointer. The arguments are read through the base of the caller's
-- frame, a pointer that was taken before the stack could grow. `realloc` makes every pointer to the
-- old memory invalid, whether the memory moves or not: a read through it after the stack has grown
-- is undefined behaviour and a fault here.
unfoldable pub push_call_args : Function → Option CodePtr → ℕ → ℕ → State → Result State
unfolding cells_from first_parameter first_operand
push_call_args f caller_ip src old_size st = if parameter_count f == 0 then ok st else do
  cells ← cells_from caller_ip st
  operands ← or_fault wild_access (read_arguments (first_operand f) (parameter_count f) cells)
  check (length st.process.stack.memory == old_size) wild_access
  s ← copy_arguments src (first_parameter f st) operands st.process.stack
  ok (with_stack s st)

-- What `ExecuteFunction` does before it enters the loop.
unfoldable pub enter_function : ℕ → Function → State → Result State
unfolding push_call_args setup_frame
enter_function fn f st = do
  let old = st.process.stack
  st₁ ← push_call_args f st.process.ip old.stack_base (length old.memory) (setup_frame fn f st)
  s₂ ← push_constants f st₁.process.stack
  s₃ ← initialize_locals f s₂
  ok (with_stack s₃ st₁)

module _ (exec : Exec) where
  unfoldable pub execute_function : ℕ → ℕ → State → Result State
  unfolding enter_function execution_loop
  execute_function fuel fn st = do
    f ← function_at fn st
    st₁ ← enter_function fn f st
    st₂ ← execution_loop exec fuel st₁
    ok (pop_frame st₂)

  -- `FunctionCall`.
  unfoldable pub function_call : ℕ → State → Step
  unfolding execute_function
  function_call fuel st = do a ← operand 0 st; st' ← execute_function fuel a.word st; ok (st', true)
