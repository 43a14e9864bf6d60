-- ===== src/Machine/Messages.antt =====
-- `ExecuteProcessMessage` of src/eople_vm.cpp: a message runs its function, settles its promise,
-- and then every when and whenever block of the process is tried.
pub mod Blocks
pub mod Removal
use eople.Base.{
  ℕ, zero, suc, ◌+◌, Bool, true, false, List, [], ◌∷◌, ◌++◌, Option, none, some, ◌==◌, ltb, leb,
  if◌then◌else◌, length, get_elem?, set,
}
use eople.Machine.Result.{
  Result, ok, err, ◌>>=◌, ◌>>◌, check, or_fault, wild_access, out_of_fuel, null_pointer,
}
use eople.Machine.Object.{Object, is_true}
use eople.Machine.Stack.{
  initialize_locals, push_constants, push_args, get_object_at_offset, apply_closure_state,
  capture_closure,
}
use eople.Machine.State.{
  State, Step, CallData, Promise, WhenBlock, function_at, setup_frame, pop_frame, with_stack,
  with_process,
}
use eople.Machine.Flow.{promise_at}
use eople.Machine.Loops.{Exec, run_cell}
use eople.Machine.Calls.{execution_loop}

-- The promise of a call gets its value, and its owner is told by a message with no function.
unfoldable pub settle : ℕ → State → Result State
unfolding promise_at
settle zero st = ok st
settle (suc n) st = do
  value ← get_object_at_offset 0 st.process.stack
  promise ← promise_at (suc n) st
  let call : CallData = record {
    function = 0;
    process_ref = promise.owner;
    args = [];
    promise = suc n;
  }
  ok (record st {
    promises = set st.promises n (record promise { value = value; is_ready = true });
    outbox = st.outbox ++ call ∷ [];
  })

-- `when_blocks[i] = std::move( when_blocks.back() ); when_blocks.pop_back();`
unfoldable pub last? : List WhenBlock → Option WhenBlock
last? [] = none
last? (b ∷ []) = some b
last? (b ∷ c ∷ bs) = last? (c ∷ bs)

unfoldable pub drop_last : List WhenBlock → List WhenBlock
drop_last [] = []
drop_last (b ∷ []) = []
drop_last (b ∷ c ∷ bs) = b ∷ drop_last (c ∷ bs)

unfoldable pub swap_remove : ℕ → List WhenBlock → List WhenBlock
unfolding last? drop_last
swap_remove i blocks = elim (last? blocks) [ none ↦ [] | some b ↦ drop_last (set blocks i b) ]

-- The function of a block, after a hot swap if there is one.
current_eval : WhenBlock → State → Result ℕ
current_eval b st = do
  f ← function_at b.eval st
  ok (if f.updated_function == 0 then b.eval else f.updated_function)

-- The frame of a block is set up, its closure is put back, and its first instruction is run.
unfoldable pub try_block : Exec → ℕ → WhenBlock → State → Step
unfolding run_cell
try_block exec eval b st = do
  f ← function_at eval st
  let st₁ = setup_frame eval f st
  s ← apply_closure_state f b.closure_state st₁.process.stack
  let st₂ = with_stack s st₁
  run_cell exec st₂.process.ip st₂

abbrev pub with_when : List WhenBlock → State → State
with_when blocks st = with_process (record (st.process) { when_blocks = blocks }) st

abbrev pub with_whenever : List WhenBlock → State → State
with_whenever blocks st = with_process (record (st.process) { whenever_blocks = blocks }) st

-- A whenever block that has run: it goes if the C result is false, and keeps the state of its
-- frame otherwise. The index of the next block comes with the state. Where the run has registered
-- further blocks, more than the `count` there were, the reference to the block is invalid: the
-- vector may have moved, and the model has no capacity that says whether it did.
unfoldable pub after_whenever : ℕ → ℕ → ℕ → WhenBlock → State → Result (State × ℕ)
unfolding swap_remove
after_whenever count i eval b st = do
  r ← or_fault wild_access (get_elem? st.process.stack.memory st.process.stack.stack_top)
  f ← function_at eval st
  let kept = (do
    check (leb (length st.process.whenever_blocks) count) wild_access
    c ← capture_closure f st.process.stack
    let block = record b { eval = eval; closure_state = c }
    ok (with_whenever (set st.process.whenever_blocks i block) st, i + 1))
  (if is_true r then kept else ok (with_whenever (swap_remove i st.process.whenever_blocks) st, i))

module _ (exec : Exec) where
  -- The loop over the when blocks, from index `i` on. A block that ran is gone.
  unfoldable pub run_when_blocks : ℕ → ℕ → State → Result State
  unfolding current_eval try_block
  run_when_blocks zero i st = err out_of_fuel
  run_when_blocks (suc fuel) i st = elim (get_elem? st.process.when_blocks i) [
    | none ↦ ok st
    | some b ↦ (do
      eval ← current_eval b st
      let st₁ = with_when (set st.process.when_blocks i (record b { eval = eval })) st
      (st₂, taken) ← try_block exec eval b st₁
      (elim taken [
        | true ↦
            run_when_blocks fuel i
              (pop_frame (with_when (swap_remove i st₂.process.when_blocks) st₂))
        | false ↦ run_when_blocks fuel (i + 1) (pop_frame st₂)
      ]))
  ]

  unfoldable pub run_whenever_blocks : ℕ → ℕ → State → Result State
  unfolding current_eval try_block after_whenever
  run_whenever_blocks zero i st = err out_of_fuel
  run_whenever_blocks (suc fuel) i st = elim (get_elem? st.process.whenever_blocks i) [
    | none ↦ ok st
    | some b ↦ (do
      eval ← current_eval b st
      let st₁ = with_whenever (set st.process.whenever_blocks i (record b { eval = eval })) st
      (st₂, taken) ← try_block exec eval b st₁
      (elim taken [
        | true ↦ (do
          (st₃, next) ← after_whenever (length st.process.whenever_blocks) i eval b st₂
          run_whenever_blocks fuel next (pop_frame st₃))
        | false ↦ run_whenever_blocks fuel (i + 1) (pop_frame st₂)
      ]))
  ]

  -- The function of a message: its arguments, constants and locals are laid out, it is run, and
  -- its result, at the bottom of its frame, goes to the promise.
  unfoldable pub run_message : ℕ → CallData → State → Result State
  unfolding settle
  run_message fuel c st = do
    f ← function_at c.function st
    let st₁ = setup_frame c.function f st
    s₁ ← push_args f c.args st₁.process.stack
    s₂ ← push_constants f s₁
    s₃ ← initialize_locals f s₂
    st₂ ← execution_loop exec fuel (with_stack s₃ st₁)
    st₃ ← settle c.promise st₂
    ok (pop_frame st₃)

  unfoldable pub execute_process_message : ℕ → CallData → State → Result State
  unfolding run_message run_when_blocks run_whenever_blocks
  execute_process_message fuel c st = do
    st₁ ← if c.function == 0 then ok st else run_message fuel c st
    st₂ ← run_when_blocks fuel 0 st₁
    run_whenever_blocks fuel 0 st₂
