-- ===== src/Machine/Tests/Calls.antt =====
-- Calls, messages and blocks of src/eople_vm.cpp.
use eople.Base.{
  List, ◌-◌, ℕ, ◌+◌, ◌≡◌, refl, true, false, [], ◌∷◌, ◌++◌, Option, none, some, arith, length,
  get_elem?,
}
use eople.Opcodes.{opcode_to_instruction, Opcode, Instruction}
use eople.Code.{
  Emitter, operand_at, gen_function_call, gen_process_message, gen_call, push_opcode, push_operands,
  push_operand, write_operand, set_last, set_operand, code_of,
}
use eople.Machine.Result.{null_pointer, ok, err, ◌>>=◌, wild_access}
use eople.Machine.Object.{word_of}
use eople.Machine.Stack.{Function, empty_closure, setup_stack_frame, capture_closure}
use eople.Machine.State.{
  State, with_stack, with_ip, function_at, setup_frame, pop_frame, advance, operand_index, current,
  code_at, deref, update_return_val, WhenBlock,
}
use eople.Machine.Flow.{copy_message_args}
use eople.Machine.Loops.{
  Exec, whenever, parts_of, run_condition, run_counted, run_cell, run_body_until,
}
use eople.Machine.Calls.Carriers.{function_call-faults}
use eople.Machine.Calls.{execution_loop}
use eople.Machine.Calls.Operands.{load_all, Loaded}
use eople.Machine.Calls.Arrival.{message_arguments-arrive}
use eople.Machine.Calls.Returns.{pop_frame-setup_frame}
use eople.Machine.Messages.{with_whenever, after_whenever, swap_remove}
use eople.Machine.Messages.Removal.{get_elem?-swap_remove}
use eople.Machine.Messages.Blocks.{whenever-never_removed}
use eople.Machine.Tests.{cell, sample, sample_stack, sample_state}

pop_frame-setup_frame_example :
    pop_frame (setup_frame 1 sample sample_state)
    ≡ with_stack
        (record sample_stack { memory = (setup_stack_frame sample sample_stack).memory })
        sample_state
pop_frame-setup_frame_example = pop_frame-setup_frame 1 sample sample_state

-- A message with three arguments needs a second cell.
abbrev sender_code : Emitter
sender_code = push_opcode Opcode.store (record { code = []; current_operand = 0; opcode_count = 0 })

abbrev message : Option Emitter
message = gen_process_message 2 3 (0 ∷ 1 ∷ 3 ∷ []) sender_code

abbrev written : Emitter
written = elim message [ none ↦ sender_code | some e ↦ e ]

abbrev sender : Function
sender = record sample { code = written.code ++ cell Instruction.return 0 0 0 ∷ [] }

abbrev sender_state : State
sender_state =
    with_ip (some (record { fn = 1; at = length sender_code.code }))
      (record sample_state { functions = sender ∷ [] })

message_arguments-arrive_example :
    (m : ℕ) × (copy_message_args 7 2 3 sender_state
      ≡ (load_all (0 ∷ 1 ∷ 3 ∷ []) sender_state >>= Loaded (advance m sender_state)))
message_arguments-arrive_example =
    message_arguments-arrive 2 3 1 (0 ∷ 1 ∷ 3 ∷ []) sender_code written sender sender_state
      (cell Instruction.return 0 0 0 ∷ []) (omega arith, (omega arith, (omega arith, tt)))
      (unfold gen_process_message gen_call push_operands push_operand write_operand set_last
          set_operand push_opcode code_of in
        refl)
      (unfold function_at in refl) refl refl

-- Instructions that do nothing.
abbrev idle : Exec
idle impl st = ok (st, true)

-- A call with four arguments needs a second cell too.
abbrev called : Emitter
called = elim (gen_function_call 1 (0 ∷ 1 ∷ 2 ∷ 3 ∷ []) sender_code) [
  | none ↦ sender_code
  | some e ↦ e
]

abbrev caller_state : State
caller_state =
    with_ip (some (record { fn = 1; at = length sender_code.code })) (record sample_state {
      functions = record sample { code = called.code ++ cell Instruction.return 0 0 0 ∷ [] } ∷ [];
    })

function_call-faults_example : execution_loop idle 5 caller_state ≡ err null_pointer
function_call-faults_example =
    function_call-faults idle 3 1 1 0 1 2 3 [] sender_code called
      (record sample { code = called.code ++ cell Instruction.return 0 0 0 ∷ [] })
      (cell Instruction.return 0 0 0 ∷ []) caller_state caller_state
      (unfold gen_function_call gen_call push_operands push_operand write_operand set_last
          set_operand push_opcode code_of in
        refl)
      (unfold run_cell code_at function_at gen_function_call gen_call push_operands push_operand
          write_operand set_last set_operand push_opcode code_of opcode_to_instruction in
        refl)
      refl (unfold function_at in refl) refl

-- A whenever block whose body returns at once.
abbrev stops : Exec
stops impl st = ok (st, false)

abbrev block : Function
block = record sample {
  code =
      cell Instruction.whenever 0 1 1
      ∷ cell Instruction.store 0 0 0
      ∷ cell Instruction.return 0 0 0
      ∷ [];
}

abbrev block_state : State
block_state =
    with_whenever (record { eval = 1; closure_state = empty_closure } ∷ [])
      (record sample_state { functions = block ∷ [] })

abbrev block_done : State
block_done = elim (whenever stops block_state) [ ok (st, taken) ↦ st | err e ↦ block_state ]

abbrev block_kept : State
block_kept =
    elim (after_whenever 1 0 1 (record { eval = 1; closure_state = empty_closure }) block_done) [
      | ok (st, next) ↦ st
      | err e ↦ block_state
    ]

whenever-never_removed_example :
    (1 ≡ 0 + 1)
    × (length block_kept.process.whenever_blocks ≡ length block_done.process.whenever_blocks)
whenever-never_removed_example =
    whenever-never_removed stops 1 0 1 (record { eval = 1; closure_state = empty_closure })
      block_state block_done block_kept 1
      (unfold whenever parts_of operand_index word_of current code_at function_at operand_at
          run_condition run_counted run_cell deref run_body_until update_return_val advance in
        refl)
      (unfold after_whenever whenever parts_of operand_index word_of current code_at function_at
          operand_at run_condition run_counted run_cell deref run_body_until update_return_val
          advance capture_closure in
        refl)

-- Had the block been the second one to be registered in its own run, its reference would be invalid.
stale_reference :
    after_whenever 0 0 1 (record { eval = 1; closure_state = empty_closure }) block_done
    ≡ err wild_access
unfolding after_whenever function_at whenever operand_index current operand_at deref advance word_of
    update_return_val
stale_reference = refl

abbrev numbered : ℕ → WhenBlock
numbered n = record { eval = n; closure_state = empty_closure }

abbrev three_blocks : List WhenBlock
three_blocks = numbered 1 ∷ numbered 2 ∷ numbered 3 ∷ []

get_elem?-swap_remove_run :
    (length (swap_remove 0 three_blocks) ≡ 3 - 1)
    × (get_elem? (swap_remove 0 three_blocks) 0 ≡ some (numbered 3))
get_elem?-swap_remove_run = get_elem?-swap_remove 0 0 three_blocks (omega arith) (omega arith)
