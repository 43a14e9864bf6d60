-- ===== src/Machine/Tests/Arguments.antt =====
-- The arguments of calls, as `PushArgs` of inc/eople_core.h copies them.
use eople.Base.{List, ℕ, zero, suc, ◌≡◌, refl, true, [], ◌∷◌, ◌++◌, none, some, arith, set}
use eople.Base.Int.{negsuc, pos}
use eople.Opcodes.{Opcode, Instruction}
use eople.Code.{
  Emitter, operand_at, gen_function_call, gen_call, push_opcode, push_operands, push_operand,
  write_operand, set_last, set_operand, code_of, read_arguments,
}
use eople.Machine.Result.{ok, err, wild_access}
use eople.Machine.Object.{zeroed}
use eople.Machine.Stack.{
  Function, setup_stack_frame, copy_arguments, push_stack_frame, new_base, new_top, new_temporaries,
  realloc_stack,
}
use eople.Machine.State.{State, with_stack, function_at, setup_frame}
use eople.Machine.Calls.{enter_function, push_call_args, cells_from, first_parameter, first_operand}
use eople.Machine.Calls.Arrival.{call_arguments-arrive}
use eople.Machine.Calls.Parameters.{AllBelow}
use eople.Machine.Binop.Frame.{holds}
use eople.Machine.Tests.{number, cell, sample, six_objects, sample_stack, sample_state}

-- The cell that `callee_entered` stands at names the operands 1 and 4, which go to offsets 5 and 6.
abbrev callee_entered : State
callee_entered =
    with_stack (record sample_stack { memory = six_objects ++ zeroed ∷ []; stack_base = 5 })
      sample_state

abbrev got_arguments : State
got_arguments =
    with_stack
      (record (callee_entered.process.stack) {
        memory = set (set callee_entered.process.stack.memory 5 (number (negsuc 1))) 6 zeroed;
      })
      callee_entered

-- The call of `sample` needs 11 objects and the stack has 6: it grows before the arguments are read.
stale_arguments : enter_function 1 sample sample_state ≡ err wild_access
unfolding enter_function push_call_args setup_frame setup_stack_frame push_stack_frame new_base
    new_top new_temporaries realloc_stack cells_from function_at read_arguments operand_at
    first_operand
stale_arguments = refl

-- A constructor takes operands C and D, and leaves the first object of the stack free.
constructor_arguments :
    push_call_args
      (record sample { is_constructor = true })
      callee_entered.process.ip
      0
      7
      callee_entered
    ≡ ok (
        with_stack
          (record (callee_entered.process.stack) {
            memory = set (set callee_entered.process.stack.memory 1 zeroed) 2 (number (pos 1));
          })
          callee_entered)
unfolding push_call_args cells_from function_at read_arguments operand_at first_operand
    first_parameter copy_arguments
constructor_arguments = refl

-- A call with four arguments goes on in a second cell. The callee has as many parameters, and its
-- frame starts above the three objects that the caller names.
abbrev caller_code : Emitter
caller_code = push_opcode Opcode.store (record { code = []; current_operand = 0; opcode_count = 0 })

abbrev four : List ℕ
four = 0 ∷ 1 ∷ 2 ∷ 1 ∷ []

abbrev call_written : Emitter
call_written = elim (gen_function_call 3 four caller_code) [ none ↦ caller_code | some e ↦ e ]

abbrev caller : Function
caller = record sample { code = call_written.code ++ cell Instruction.return 0 0 0 ∷ [] }

abbrev callee : Function
callee = record sample { constants_start = 4; locals_start = 5; temp_start = 6 }

abbrev before_arguments : State
before_arguments =
    with_stack (record sample_stack { memory = six_objects ++ zeroed ∷ []; stack_base = 3 })
      (record sample_state { functions = caller ∷ callee ∷ [] })

abbrev after_arguments : State
after_arguments =
    with_stack
      (record (before_arguments.process.stack) {
        memory =
            number (pos 1)
            ∷ number (negsuc 1)
            ∷ number (pos 3)
            ∷ number (pos 1)
            ∷ number (negsuc 1)
            ∷ number (pos 3)
            ∷ number (negsuc 1)
            ∷ [];
      })
      before_arguments

four-AllBelow : AllBelow 0 3 four
four-AllBelow zero operand h = ground arith
four-AllBelow (suc zero) operand h = ground arith
four-AllBelow (suc (suc zero)) operand h = ground arith
four-AllBelow (suc (suc (suc zero))) operand h = ground arith
four-AllBelow (suc (suc (suc (suc i)))) operand h = absurd (cc)

call_arguments-arrive_example :
    (holds after_arguments 6 ≡ holds before_arguments 1)
    × (holds after_arguments 2 ≡ holds before_arguments 2)
    × (after_arguments
        ≡ with_stack
            (record (before_arguments.process.stack) {
              memory = after_arguments.process.stack.memory;
            })
            before_arguments)
call_arguments-arrive_example =
    call_arguments-arrive 3 1 four caller_code call_written caller callee 0 7 before_arguments
      after_arguments (cell Instruction.return 0 0 0 ∷ []) 3 1 2
      (omega arith, (omega arith, (omega arith, (omega arith, tt))))
      (unfold gen_function_call gen_call push_operands push_operand write_operand set_last
          set_operand push_opcode code_of in
        refl)
      (unfold function_at in refl) refl refl refl four-AllBelow refl (omega arith)
      (unfold push_call_args cells_from function_at read_arguments operand_at first_operand
          first_parameter copy_arguments gen_function_call gen_call push_operands push_operand
          write_operand set_last set_operand push_opcode code_of in
        refl)
