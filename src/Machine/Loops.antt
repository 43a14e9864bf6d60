-- ===== src/Machine/Loops.antt =====
-- The instructions of src/eople_control_flow.cpp that run other code: `While`, `ForI`, `ForF`,
-- `When` and `Whenever`. `exec` runs the instruction that a function pointer stands for, on the
-- operands at the process's instruction pointer.
pub mod Counted
use eople.Base.{
  ℕ, zero, suc, ◌+◌, ◌-◌, Bool, true, false, ◌&&◌, Option, none, some, ◌==◌, if◌then◌else◌,
}
use eople.Base.Int.{ℤ, pos, ◌+ℤ◌, ltb_ℤ, leb_ℤ}
use eople.Code.{VmCode}
use eople.Opcodes.{InstructionImpl}
use eople.Machine.Result.{
  Result, ok, err, ◌>>=◌, ◌>>◌, or_fault, check, null_pointer, out_of_fuel, overflow,
}
use eople.Machine.Object.{Object, int_val, is_true, put_int, put_word, put_bool, in_range}
use eople.Machine.Binop.{FloatOps}
use eople.Machine.State.{
  State, Step, CodePtr, ObjectPtr, operand, operand_index, update_at, update_return_val, current,
  code_at, ahead, advance, with_ip, address_of, deref,
}

abbrev pub Exec : Type 0
Exec = InstructionImpl → State → Step

-- `start[i].instruction( process_ref )`.
unfoldable pub run_cell : Exec → Option CodePtr → State → Step
run_cell exec p st = do
  cell ← code_at p st
  impl ← or_fault null_pointer cell.instruction
  exec impl st

-- `for( i = 0; i < n; ++i, ++ip ) start[i].instruction( process_ref );` The instruction is taken
-- from the counter, its operands from the instruction pointer.
unfoldable pub run_counted : Exec → Option CodePtr → ℕ → State → Result State
unfolding run_cell
run_counted exec start zero st = ok st
run_counted exec start (suc n) st = do
  (st', _) ← run_cell exec start st
  run_counted exec (ahead 1 start) n (advance 1 st')

unfoldable pub is_at : Option CodePtr → Option CodePtr → Bool
is_at (some p) (some q) = (p.fn == q.fn) && (p.at == q.at)
is_at _ _ = false

-- `for( ip = start_ip; ip != end_ip; ++ip ) ip->instruction( process_ref );`
unfoldable pub run_until : Exec → ℕ → Option CodePtr → State → Result State
unfolding run_cell is_at
run_until exec zero end st = err out_of_fuel
run_until exec (suc fuel) end st = elim (is_at st.process.ip end) [
  | true ↦ ok st
  | false ↦ (do (st', _) ← run_cell exec st.process.ip st; run_until exec fuel end (advance 1 st'))
]

-- Where the parts of a loop with a condition stand.
pub record Parts : Type 0 where
  pub condition : ObjectPtr
  pub condition_start : Option CodePtr
  pub condition_count : ℕ
  pub body_start : Option CodePtr
  pub body_count : ℕ

-- The operands A, B and C of `While`, `When` and `Whenever`, and `++ip`.
unfoldable pub parts_of : State → Result (Parts × State)
parts_of st = do
  condition ← operand_index 0 st
  condition_i_count ← operand_index 1 st
  body_i_count ← operand_index 2 st
  let start = ahead 1 st.process.ip
  ok (
    record {
      condition = address_of condition st;
      condition_start = start;
      condition_count = condition_i_count;
      body_start = ahead condition_i_count start;
      body_count = body_i_count;
    },
    with_ip start st,
  )

module _ (exec : Exec) where
  unfoldable pub run_condition : Parts → State → Result State
  unfolding run_counted
  run_condition p st = run_counted exec p.condition_start p.condition_count st

  unfoldable pub run_body : Parts → State → Result State
  unfolding run_counted
  run_body p st = run_counted exec p.body_start p.body_count (with_ip p.body_start st)

  -- `while( condition->bool_val )`, after the condition has run.
  unfoldable pub while_rounds : ℕ → Parts → State → Result State
  unfolding run_condition run_body
  while_rounds zero p st = err out_of_fuel
  while_rounds (suc fuel) p st = do
    condition ← deref p.condition st
    (elim (is_true condition) [
      | true ↦ (do
        st₁ ← run_body p st
        st₂ ← run_condition p (with_ip p.condition_start st₁)
        while_rounds fuel p st₂)
      | false ↦ ok st
    ])

  -- `ip = body_start + body_i_count - 1`.
  unfoldable pub last_of_body : Parts → Option CodePtr
  last_of_body p = elim p.body_start [
    | none ↦ none
    | some b ↦ some (record b { at = b.at + p.body_count - 1 })
  ]

  unfoldable pub while : ℕ → State → Step
  unfolding parts_of run_condition while_rounds last_of_body
  while fuel st = do
    (p, st₁) ← parts_of st
    st₂ ← run_condition p st₁
    st₃ ← while_rounds fuel p st₂
    ok (with_ip (last_of_body p) st₃, true)

  -- `When` returns whether its body was run.
  unfoldable pub when : State → Step
  unfolding parts_of run_condition run_body
  when st = do
    (p, st₁) ← parts_of st
    st₂ ← run_condition p st₁
    condition ← deref p.condition st₂
    let end = ahead p.body_count p.body_start
    let taken = (do st₃ ← run_body p st₂; ok (with_ip end st₃, true))
    (if is_true condition then taken else ok (with_ip end st₂, false))

  -- The body of `Whenever`, which stops at an instruction that returns `false`.
  unfoldable pub run_body_until : Option CodePtr → ℕ → State → Result State
  unfolding run_cell
  run_body_until start zero st = ok st
  run_body_until start (suc n) st = do
    (st', more) ← run_cell exec start st
    (elim more [
      | true ↦ run_body_until (ahead 1 start) n (advance 1 st')
      | false ↦ update_return_val (put_bool false) st'
    ])

  -- `Whenever`. Behind the loop the source sets the result to `true`, also after a `break`.
  unfoldable pub whenever : State → Step
  unfolding parts_of run_condition run_body_until
  whenever st = do
    (p, st₁) ← parts_of st
    st₂ ← run_condition p st₁
    condition ← deref p.condition st₂
    let end = ahead p.body_count p.body_start
    let taken = (do
      st₃ ← run_body_until p.body_start p.body_count (with_ip p.body_start st₂)
      st₄ ← update_return_val (put_bool true) (with_ip end st₃)
      ok (st₄, true))
    (if is_true condition then taken else ok (with_ip end st₂, false))

  -- One round of a counted loop: the counter is written, the body is run.
  unfoldable pub for_round :
      ℕ → Option CodePtr → Option CodePtr → ℕ → (Object → Object) → State → Result State
  unfolding run_until
  for_round fuel start_ip end_ip counter g st = do
    st' ← update_at counter g st
    run_until exec fuel end_ip (with_ip start_ip st')

  -- `for( i = start; i < stop_value; i += step )`, or `i > stop_value` for a negative step.
  unfoldable pub for_i_rounds :
      ℕ → Option CodePtr → Option CodePtr → ℕ → ℤ → ℤ → ℤ → State → Result State
  unfolding for_round
  for_i_rounds zero start_ip end_ip counter i stop step st = err out_of_fuel
  for_i_rounds (suc fuel) start_ip end_ip counter i stop step st =
      elim (if leb_ℤ (pos 0) step then ltb_ℤ i stop else ltb_ℤ stop i) [
        | true ↦ (do
          st' ← for_round fuel start_ip end_ip counter (put_int i) st
          check (in_range (i +ℤ step)) overflow
          for_i_rounds fuel start_ip end_ip counter (i +ℤ step) stop step st')
        | false ↦ ok st
      ]

  -- `ip = end_ip - 1`.
  abbrev pub before : ℕ → Option CodePtr → Option CodePtr
  before i_count none = none
  before i_count (some p) = some (record p { at = p.at + i_count })

  unfoldable pub for_i : ℕ → State → Step
  unfolding for_i_rounds
  for_i fuel st = do
    start ← operand 0 st
    counter ← operand_index 0 st
    stop ← operand 1 st
    step ← operand 2 st
    i_count ← operand_index 3 st
    let start_ip = ahead 1 st.process.ip
    st' ←
        for_i_rounds fuel start_ip (ahead i_count start_ip) counter (int_val start) (int_val stop)
          (int_val step) st
    ok (with_ip (before i_count st.process.ip) st', true)

  unfoldable pub for_f_rounds :
      FloatOps → ℕ → Option CodePtr → Option CodePtr → ℕ → ℕ → ℕ → ℕ → State → Result State
  unfolding for_round
  for_f_rounds fops zero start_ip end_ip counter i stop step st = err out_of_fuel
  for_f_rounds fops (suc fuel) start_ip end_ip counter i stop step st =
      elim (if fops.less_equal 0 step then fops.less i stop else fops.less stop i) [
        | true ↦ (do
          st' ← for_round fuel start_ip end_ip counter (put_word i) st
          for_f_rounds fops fuel start_ip end_ip counter (fops.add i step) stop step st')
        | false ↦ ok st
      ]

  unfoldable pub for_f : FloatOps → ℕ → State → Step
  unfolding for_f_rounds
  for_f fops fuel st = do
    start ← operand 0 st
    counter ← operand_index 0 st
    stop ← operand 1 st
    step ← operand 2 st
    i_count ← operand_index 3 st
    let start_ip = ahead 1 st.process.ip
    st' ←
        for_f_rounds fops fuel start_ip (ahead i_count start_ip) counter start.word stop.word
          step.word st
    ok (with_ip (before i_count st.process.ip) st', true)
