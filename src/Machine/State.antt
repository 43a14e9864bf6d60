-- ===== src/Machine/State.antt =====
-- `Process`, `Promise`, `WhenBlock` of inc/eople_core.h and `CallData` of inc/eople_vm.h, and what
-- the instructions share: the code at the instruction pointer and its operands.
-- A pointer to a function or a promise is a number, 0 for null, that counts from 1.
use eople.Base.{
  ℕ, zero, suc, ◌+◌, ◌-◌, Bool, true, false, List, [], ◌∷◌, Option, none, some, ◌==◌, if◌then◌else◌,
  length, get_elem?, set, take, drop, replicate,
}
use eople.Code.{VmCode, operand_at}
use eople.Machine.Result.{Result, ok, err, ◌>>=◌, or_fault, null_pointer, wild_access}
use eople.Machine.Object.{Object, zeroed}
use eople.Machine.Stack.{
  Function, ProcessStack, ClosureState, setup_stack_frame, pop_stack_frame, get_object_at_offset,
  push_object_at_offset, shift_segment, write_range, locals_count, constant_count,
}

pub record CodePtr : Type 0 where
  pub fn : ℕ
  pub at : ℕ

pub record WhenBlock : Type 0 where
  pub eval : ℕ
  pub closure_state : ClosureState

pub record Process : Type 0 where
  pub process_id : ℕ
  pub stack : ProcessStack
  pub callstack : List (Option CodePtr)
  pub ip : Option CodePtr
  pub incremental_ip_offset : ℕ
  pub incremental_constants_offset : ℕ
  pub incremental_locals_offset : ℕ
  pub when_blocks : List WhenBlock
  pub whenever_blocks : List WhenBlock

pub record Promise : Type 0 where
  pub owner : ℕ
  pub value : Object
  pub is_ready : Bool
  pub is_timer : Bool

pub record CallData : Type 0 where
  pub function : ℕ
  pub process_ref : ℕ
  pub args : List Object
  pub promise : ℕ

-- What one core works on: the program, the promises, the process it has locked, and the messages
-- that it has sent, the last one at the end.
pub record State : Type 0 where
  pub functions : List Function
  pub promises : List Promise
  pub process : Process
  pub outbox : List CallData

-- What an instruction returns besides its effect.
abbrev pub Step : Type 0
Step = Result (State × Bool)

abbrev pub with_process : Process → State → State
with_process p st = record st { process = p }

abbrev pub with_stack : ProcessStack → State → State
with_stack s st = record st { process = record (st.process) { stack = s } }

abbrev pub with_ip : Option CodePtr → State → State
with_ip ip st = record st { process = record (st.process) { ip = ip } }

abbrev pub ahead : ℕ → Option CodePtr → Option CodePtr
ahead n none = none
ahead n (some p) = some (record p { at = p.at + n })

-- `ip += n`.
unfoldable pub advance : ℕ → State → State
advance n st = with_ip (ahead n st.process.ip) st

unfoldable pub function_at : ℕ → State → Result Function
function_at zero st = err null_pointer
function_at (suc n) st = or_fault wild_access (get_elem? st.functions n)

unfoldable pub code_at : Option CodePtr → State → Result VmCode
unfolding function_at
code_at none st = err null_pointer
code_at (some p) st = do f ← function_at p.fn st; or_fault wild_access (get_elem? f.code p.at)

-- `*ip`, and the function pointer in it.
unfoldable pub current : State → Result VmCode
unfolding code_at
current st = code_at st.process.ip st

-- `OperandA` to `OperandD` are the operands 0 to 3, as addresses in the memory of the stack.
unfoldable pub operand_index : ℕ → State → Result ℕ
operand_index k st = do cell ← current st; ok (operand_at k cell)

unfoldable pub operand : ℕ → State → Result Object
unfolding operand_index
operand k st = do offset ← operand_index k st; get_object_at_offset offset st.process.stack

-- A write to an object of the active frame, by what becomes of the object.
unfoldable pub update_at : ℕ → (Object → Object) → State → Result State
update_at offset g st = do
  o ← get_object_at_offset offset st.process.stack
  s ← push_object_at_offset (g o) offset st.process.stack
  ok (with_stack s st)

unfoldable pub update_operand : ℕ → (Object → Object) → State → Result State
unfolding update_at operand_index
update_operand k g st = do offset ← operand_index k st; update_at offset g st

-- `CCallReturnVal`: the object on top of the stack.
unfoldable pub update_return_val : (Object → Object) → State → Result State
update_return_val g st = do
  let s = st.process.stack
  o ← or_fault wild_access (get_elem? s.memory s.stack_top)
  ok (with_stack (record s { memory = set s.memory s.stack_top (g o) }) st)

-- An address that is kept while other code runs: it is good only for as long as the memory is not
-- moved, and the memory is moved when it grows.
pub record ObjectPtr : Type 0 where
  pub index : ℕ
  pub size : ℕ

abbrev pub address_of : ℕ → State → ObjectPtr
address_of offset st = record {
  index = st.process.stack.stack_base + offset;
  size = length st.process.stack.memory;
}

unfoldable pub deref : ObjectPtr → State → Result Object
deref p st =
    if length st.process.stack.memory == p.size
    then or_fault wild_access (get_elem? st.process.stack.memory p.index)
    else err wild_access

-- `Process::SetupStackFrame`.
unfoldable pub setup_frame : ℕ → Function → State → State
setup_frame fn f st =
    with_process
      (record (st.process) {
        stack = setup_stack_frame f st.process.stack;
        callstack = st.process.ip ∷ st.process.callstack;
        ip = some (record { fn = fn; at = 0 });
      })
      st

return_to : List (Option CodePtr) → Process → Process
return_to [] p = p
return_to (ip ∷ callstack) p = record p { ip = ip; callstack = callstack }

-- `Process::PopStackFrame`.
unfoldable pub pop_frame : State → State
unfolding return_to
pop_frame st =
    let p = record (st.process) { stack = pop_stack_frame st.process.stack } in
    with_process (return_to p.callstack p) st

-- `Process::IncrementalStackShift`: whether the locals were moved to make room for constants.
unfoldable pub incremental_stack_shift : Function → Process → Result (Process × Bool)
unfolding shift_segment write_range
incremental_stack_shift f p =
    let old_constants = p.incremental_constants_offset in
    let old_locals = p.incremental_locals_offset in
    let old_offset = f.constants_start + old_constants in
    let new_offset = f.locals_start in
    let base = p.stack.stack_base in
    let moved = (do
      s ← shift_segment old_offset new_offset old_locals p.stack
      s' ←
          write_range (base + f.locals_start + old_locals)
            (replicate (locals_count f - old_locals) zeroed) s
      s'' ←
          write_range (base + old_offset)
            (take (constant_count f - old_constants) (drop old_constants f.constants)) s'
      ok (record p { stack = s'' }, true)) in
    if new_offset == old_offset then ok (p, false) else moved
