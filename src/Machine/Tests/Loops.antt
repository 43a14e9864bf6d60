-- ===== src/Machine/Tests/Loops.antt =====
-- A counted loop of src/eople_control_flow.cpp whose body adds up its counter.
use eople.Base.{ℕ, zero, suc, ◌≡◌, refl, subst, true, [], ◌∷◌, some, arith, inl}
use eople.Base.Int.{pos, ◌+ℤ◌}
use eople.Code.{VmCode, operand_at}
use eople.Opcodes.{Instruction, instruction}
use eople.Machine.Result.{Result, ok, ◌>>=◌}
use eople.Machine.Object.{zeroed, signed64, word_of, in_range}
use eople.Machine.Stack.{Function, get_object_at_offset, push_object_at_offset}
use eople.Machine.State.{
  State, CodePtr, with_stack, with_ip, advance, operand, operand_index, update_operand, update_at,
  current, code_at, function_at,
}
use eople.Machine.Binop.{three_operands, add_i, int_result}
use eople.Machine.Binop.Table.{operation}
use eople.Machine.Loops.{run_counted, run_cell}
use eople.Machine.Exec.{execute, simple, perform}
use eople.Machine.Exec.Straight.{IsStraight, Straight}
use eople.Machine.Exec.Visits.{visit_all, for_i-visit_all}
use eople.Machine.Tests.{number, cell, sample, sample_stack, sample_state}
use eople.Machine.Tests.Instructions.{no_floats, idle}

-- `for i = 1 to 4`: the counter is at offset 2, the sum at offset 3.
abbrev body : VmCode
body = cell Instruction.add_i 3 2 3

abbrev summing : Function
summing = record sample {
  code =
      record { instruction = some (instruction Instruction.for_i); a = 2; b = 0; c = 1; d = 1 }
      ∷ body
      ∷ cell Instruction.return 0 0 0
      ∷ [];
}

abbrev sums : ℕ → ℕ → State
sums i total =
    record (with_stack
      (record sample_stack {
        memory =
            number (pos 4) ∷ number (pos 1) ∷ number (pos i) ∷ number (pos total) ∷ zeroed ∷ [];
      })
      sample_state) { functions = summing ∷ [] }

abbrev body_start : CodePtr
body_start = record { fn = 1; at = 1 }

body-IsStraight : IsStraight no_floats body
unfolding simple operation
body-IsStraight = (Instruction.add_i, refl, inl (add_i, refl))

same_cell : {a b : VmCode} → ◌≡◌ {A = Result VmCode} (ok a) (ok b) → a ≡ b
same_cell e = cc

body-Straight : Straight no_floats 1 body_start (sums 1 0)
unfolding code_at function_at
body-Straight zero c l at = subst (IsStraight no_floats) (same_cell at) body-IsStraight
body-Straight (suc k) c l at = absurd (omega arith)

for_i-visit_all_example : execute no_floats idle 6 (instruction Instruction.for_i) (sums 1 0) ≡ (
    visit_all (execute no_floats idle 5) body_start 1 2 3 1 (sums 1 0) >>= λ st'.
    ok (with_ip (some body_start) st', true))
unfolding signed64 word_of
for_i-visit_all_example =
    for_i-visit_all no_floats idle 5 (record { fn = 1; at = 0 }) body_start 1 2 1 4 (number (pos 1))
      (number (pos 4)) (number (pos 1)) (sums 1 0) refl refl
      (unfold operand operand_index current code_at function_at operand_at get_object_at_offset in
        refl)
      (unfold operand_index current code_at function_at operand_at in refl)
      (unfold operand operand_index current code_at function_at operand_at get_object_at_offset in
        refl)
      (unfold operand operand_index current code_at function_at operand_at get_object_at_offset in
        refl)
      (unfold operand_index current code_at function_at operand_at in refl) refl refl refl
      (omega arith) body-Straight (omega arith)

-- The sum is 1 + 2 + 3, and the counter is left at 3.
visits_three :
    visit_all (execute no_floats idle 5) body_start 1 2 3 1 (sums 1 0)
    ≡ ok (with_ip (some (record { fn = 1; at = 2 })) (sums 3 6))
unfolding visit_all execute perform simple operation three_operands add_i int_result in_range
    signed64 word_of ◌+ℤ◌ operand operand_index update_operand update_at current code_at function_at
    operand_at get_object_at_offset push_object_at_offset run_counted run_cell advance
visits_three = refl
