-- ===== src/Machine/Flow.antt =====
-- The instructions of src/eople_control_flow.cpp that run no other code: jumps, returns, the
-- registration of when blocks, messages, and the two C functions that look at a promise.
use eople.Base.{
  ℕ, zero, suc, ◌+◌, Bool, true, false, not, ◌&&◌, List, [], ◌∷◌, ◌++◌, ◌==◌, if◌then◌else◌, length,
  get_elem?,
}
use eople.Base.Int.{ltb_ℤ, leb_ℤ, eqb_ℤ}
use eople.Types.{Ty, primitive, ValueType}
use eople.Machine.Result.{Result, ok, err, ◌>>=◌, or_fault, null_pointer, wild_access, out_of_fuel}
use eople.Machine.Object.{Object, int_val, is_true, put_word, put_bool}
use eople.Machine.Stack.{Function, capture_closure, parameter_count}
use eople.Machine.State.{
  State, Step, Promise, WhenBlock, CallData, operand, operand_index, update_at, update_return_val,
  function_at, advance, with_process,
}

-- `Jump`. The loop that runs the instruction moves on by one more.
unfoldable pub jump : State → Step
jump st = do i_count ← operand_index 0 st; ok (advance i_count st, true)

-- The jumps that test: they skip when `test` holds of the operands B and C.
jump_when : (Object → Object → Bool) → State → Step
jump_when test st = do
  i_count ← operand_index 0 st
  b ← operand 1 st
  c ← operand 2 st
  ok (if test b c then advance i_count st else st, true)

-- `JumpIf` reads B alone, and skips the block when it is false.
unfoldable pub jump_if : State → Step
jump_if st = do
  i_count ← operand_index 0 st
  b ← operand 1 st
  ok (if is_true b then st else advance i_count st, true)

unfoldable pub jump_gt : State → Step
unfolding jump_when
jump_gt = jump_when (λ b c. ltb_ℤ (int_val c) (int_val b))

unfoldable pub jump_lt : State → Step
unfolding jump_when
jump_lt = jump_when (λ b c. ltb_ℤ (int_val b) (int_val c))

unfoldable pub jump_eq : State → Step
unfolding jump_when
jump_eq = jump_when (λ b c. eqb_ℤ (int_val b) (int_val c))

unfoldable pub jump_neq : State → Step
unfolding jump_when
jump_neq = jump_when (λ b c. not (eqb_ℤ (int_val b) (int_val c)))

unfoldable pub jump_leq : State → Step
unfolding jump_when
jump_leq = jump_when (λ b c. leb_ℤ (int_val b) (int_val c))

unfoldable pub jump_geq : State → Step
unfolding jump_when
jump_geq = jump_when (λ b c. leb_ℤ (int_val c) (int_val b))

-- `Return` changes nothing; `false` ends the loop that runs the function.
unfoldable pub return_nil : State → Step
return_nil st = ok (st, false)

-- `ReturnValue`: the result goes to the bottom of the frame.
unfoldable pub return_value : State → Step
return_value st = do a ← operand 0 st; st' ← update_at 0 (λ _. a) st; ok (st', false)

-- The block that `WhenRegister` and `WheneverRegister` build.
unfoldable pub new_block : State → Result WhenBlock
new_block st = do
  a ← operand 0 st
  f ← function_at a.word st
  closure ← capture_closure f st.process.stack
  ok (record { eval = a.word; closure_state = closure })

unfoldable pub when_register : State → Step
when_register st = do
  block ← new_block st
  let p = st.process
  ok (with_process (record p { when_blocks = p.when_blocks ++ block ∷ [] }) st, true)

unfoldable pub whenever_register : State → Step
whenever_register st = do
  block ← new_block st
  let p = st.process
  ok (with_process (record p { whenever_blocks = p.whenever_blocks ++ block ∷ [] }) st, true)

-- `CopyMessageArgs`: `n` operands from position `k` of the current cell on, and from the first
-- position of each further cell, to which the instruction pointer moves.
unfoldable pub copy_message_args : ℕ → ℕ → ℕ → State → Result (State × List Object)
copy_message_args zero k n st = err out_of_fuel
copy_message_args (suc fuel) k zero st = ok (st, [])
copy_message_args (suc fuel) k (suc n) st = elim (k == 4) [
  | true ↦ copy_message_args fuel 0 (suc n) (advance 1 st)
  | false ↦ (do
    a ← operand k st
    (st', rest) ← copy_message_args fuel (k + 1) n st
    ok (st', a ∷ rest))
]

is_nil : Ty → Bool
is_nil (primitive ValueType.nil) = true
is_nil _ = false

-- A new promise of the process, and its address; a function that returns nothing has none.
unfoldable pub new_promise : Function → State → State × ℕ
unfolding is_nil
new_promise f st = if is_nil f.return_type then (st, 0) else (
  record st {
    promises =
        st.promises
        ++ record {
          owner = st.process.process_id;
          value = record { word = 0; object_type = ValueType.nil };
          is_ready = false;
          is_timer = false;
        }
          ∷ [];
  },
  length st.promises + 1,
)

-- `ProcessMessage`. `SendMessage` puts the call on the queue of the other process.
unfoldable pub process_message : State → Step
process_message st = do
  other ← operand 0 st
  function ← operand 1 st
  f ← function_at function.word st
  (st', args) ←
      copy_message_args (parameter_count f + parameter_count f + 1) 2 (parameter_count f) st
  let (sent, promise) = new_promise f st'
  let call : CallData = record {
    function = function.word;
    process_ref = other.word;
    args = args;
    promise = promise;
  }
  st'' ← update_return_val (put_word promise) (record sent { outbox = sent.outbox ++ call ∷ [] })
  ok (st'', true)

unfoldable pub promise_at : ℕ → State → Result Promise
promise_at zero st = err null_pointer
promise_at (suc n) st = or_fault wild_access (get_elem? st.promises n)

is_promise : ValueType → Bool
is_promise ValueType.promise = true
is_promise _ = false

-- The chain of promises behind one that is ready: ready when all of them are.
unfoldable pub all_ready : ℕ → Promise → Bool → State → Result Bool
unfolding is_promise
all_ready zero promise is_ready st = err out_of_fuel
all_ready (suc fuel) promise is_ready st = elim (is_promise promise.value.object_type) [
  | true ↦ (do
    child ← promise_at promise.value.word st
    all_ready fuel child (is_ready && child.is_ready) st)
  | false ↦ ok is_ready
]

-- `Ready`, the test in front of a when block.
unfoldable pub ready : ℕ → State → Step
ready fuel st = do
  a ← operand 0 st
  promise ← promise_at a.word st
  let chain = all_ready fuel promise true st
  is_ready ← if promise.is_ready then chain else ok false
  st' ← update_return_val (put_bool is_ready) st
  ok (st', true)
