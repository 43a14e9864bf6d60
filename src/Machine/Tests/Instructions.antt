-- ===== src/Machine/Tests/Instructions.antt =====
-- Single instructions and loops of src/eople_binop.cpp and src/eople_control_flow.cpp.
use eople.Base.{◌+◌, ◌<◌, ◌≡◌, ◌≢◌, ◌⊎◌, refl, Bool, true, false, not, ◌||◌, arith, set}
use eople.Base.Int.{pos, negsuc, ◌+ℤ◌, ◌*ℤ◌}
use eople.Opcodes.{Instruction, instruction}
use eople.Code.{operand_at}
use eople.Machine.Result.{ok}
use eople.Machine.Object.{zeroed, int_val, signed64, word_of, in_range, put_int}
use eople.Machine.Stack.{get_object_at_offset, push_object_at_offset}
use eople.Machine.State.{
  State, with_stack, operand, operand_index, update_operand, update_at, current, code_at,
  function_at,
}
use eople.Machine.Binop.{
  FloatOps, three_operands, add_i, div_i, mod_i, int_result, quot, rem, less_than_i, equal_i,
  less_equal_i, greater_than_i, greater_equal_i, not_equal_i,
}
use eople.Machine.Binop.Table.{operation}
use eople.Machine.Binop.Frame.{holds, tag, three_operands-frame}
use eople.Machine.Binop.Arithmetic.{magnitude, div_i-mod_i}
use eople.Machine.Binop.Compare.{Says, comparisons-agree}
use eople.Machine.Loops.{Exec}
use eople.Machine.Exec.{execute, perform, simple}
use eople.Machine.Exec.Fuel.{execute-more}
use eople.Machine.Tests.{number, sample_stack, sample_state}

-- No floating point and no further instructions.
abbrev pub no_floats : FloatOps
no_floats = record {
  add = λ a b. 0;
  sub = λ a b. 0;
  mul = λ a b. 0;
  div = λ a b. 0;
  less = λ a b. false;
  less_equal = λ a b. false;
  equal = λ a b. false;
}

abbrev pub idle : Exec
idle impl st = ok (st, true)

-- `sample_state` after its first instruction, which adds 1 and -2.
abbrev added : State
added =
    with_stack
      (record sample_stack { memory = set sample_stack.memory 4 (put_int (negsuc 0) zeroed) })
      sample_state

adds : three_operands add_i sample_state ≡ ok (added, true)
unfolding three_operands add_i int_result in_range signed64 word_of ◌+ℤ◌ operand operand_index
    update_operand update_at current code_at function_at operand_at get_object_at_offset
    push_object_at_offset
adds = refl

three_operands-frame_example :
    (true ≡ true)
    × (holds added 0 ≡ holds sample_state 0)
    × (tag (holds added 4) ≡ tag (holds sample_state 4))
    × (added
        ≡ with_stack (record sample_stack { memory = added.process.stack.memory }) sample_state)
three_operands-frame_example =
    three_operands-frame no_floats Instruction.add_i add_i sample_state added true 4 0
      (unfold operation in refl) adds
      (unfold operand_index current code_at function_at operand_at in refl) (omega arith)

-- -7 divided by 2 is -3, and -1 is left.
div_i-mod_i_example :
    (int_val (put_int (negsuc 2) zeroed) *ℤ int_val (number (pos 2))
        +ℤ int_val (put_int (negsuc 0) zeroed)
      ≡ int_val (number (negsuc 6)))
    × (magnitude (int_val (put_int (negsuc 0) zeroed)) < magnitude (int_val (number (pos 2))))
div_i-mod_i_example =
    div_i-mod_i (number (negsuc 6)) (number (pos 2)) zeroed zeroed (put_int (negsuc 2))
      (put_int (negsuc 0)) (unfold div_i int_result in_range signed64 word_of quot in refl)
      (unfold mod_i int_result in_range signed64 word_of quot rem in refl)

comparisons-agree_example :
    let a = number (pos 1) in
    let b = number (pos 2) in
    (lt : Bool) × (eq : Bool) × Says less_than_i a b lt
    × Says equal_i a b eq
    × Says less_equal_i a b (lt || eq)
    × Says greater_than_i a b (not (lt || eq))
    × Says greater_equal_i a b (not lt)
    × Says not_equal_i a b (not eq)
    × (((eq ≡ true) × (int_val a ≡ int_val b)) ⊎ ((eq ≡ false) × (int_val a ≢ int_val b)))
comparisons-agree_example = comparisons-agree (number (pos 1)) (number (pos 2))

execute-more_run :
    execute no_floats idle (1 + 4) (instruction Instruction.add_i) sample_state ≡ ok (added, true)
execute-more_run =
    execute-more no_floats idle 1 4 (instruction Instruction.add_i) sample_state added true (
      unfold execute perform simple operation three_operands add_i int_result in_range signed64
        word_of ◌+ℤ◌ operand operand_index update_operand update_at current code_at function_at
        operand_at get_object_at_offset push_object_at_offset in
      refl)
