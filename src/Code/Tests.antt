-- ===== src/Code/Tests.antt =====
-- The emitter of src/eople_vmcode_gen.cpp on concrete calls.
use eople.Base.{ℕ, ◌+◌, ◌≡◌, refl, List, [], ◌∷◌, some, arith, length}
use eople.Opcodes.{Opcode, opcode_to_instruction}
use eople.Opcodes.Mapping.{opcode_to_instruction_inj, opcode_to_instruction_null}
use eople.Code.{
  Emitter, to_operand, gen_function_call, gen_spawn_process, gen_process_message, push_opcode,
}
use eople.Code.Arguments.{
  AllFit, Calls, gen_function_call-Calls, gen_spawn_process-Calls, gen_process_message-Calls,
}
use eople.Code.Carriers.{NullAt, gen_function_call-NullAt, gen_spawn_process-NullAt}

-- Code with one instruction.
abbrev started : Emitter
started = push_opcode Opcode.store (record { code = []; current_operand = 0; opcode_count = 0 })

-- Enough arguments for three cells.
abbrev six : List ℕ
six = 11 ∷ 12 ∷ 13 ∷ 14 ∷ 15 ∷ 16 ∷ 17 ∷ 18 ∷ []

six-AllFit : AllFit six
six-AllFit = (
  omega arith,
  (
    omega arith,
    (omega arith, (omega arith, (omega arith, (omega arith, (omega arith, (omega arith, tt)))))),
  ),
)

gen_function_call-Calls_example :
    Calls started
      (gen_function_call 7 six started)
      (opcode_to_instruction Opcode.function_call)
      (λ cell. cell.a ≡ to_operand 7)
      1
      six
gen_function_call-Calls_example = gen_function_call-Calls six started six-AllFit 7

gen_spawn_process-Calls_run :
    Calls started
      (gen_spawn_process 6 7 six started)
      (opcode_to_instruction Opcode.spawn_process)
      (λ cell. (cell.a ≡ to_operand 6) × (cell.b ≡ to_operand 7))
      2
      six
gen_spawn_process-Calls_run = gen_spawn_process-Calls six started six-AllFit 6 7

gen_process_message-Calls_run :
    Calls started
      (gen_process_message 6 7 six started)
      (opcode_to_instruction Opcode.process_message)
      (λ cell. (cell.a ≡ to_operand 6) × (cell.b ≡ to_operand 7))
      2
      six
gen_process_message-Calls_run = gen_process_message-Calls six started six-AllFit 6 7

gen_function_call-NullAt_run :
    (e' : Emitter) × (gen_function_call 7 (1 ∷ 2 ∷ 3 ∷ 4 ∷ []) started ≡ some e')
    × NullAt e'.code (length started.code + 1)
gen_function_call-NullAt_run = gen_function_call-NullAt started 7 1 2 3 4 []

gen_spawn_process-NullAt_run :
    (e' : Emitter) × (gen_spawn_process 6 7 (1 ∷ 2 ∷ 3 ∷ []) started ≡ some e')
    × NullAt e'.code (length started.code + 1)
gen_spawn_process-NullAt_run = gen_spawn_process-NullAt started 6 7 1 2 3 []

opcode_to_instruction_inj_run : Opcode.while ≡ Opcode.while
opcode_to_instruction_inj_run = opcode_to_instruction_inj Opcode.while Opcode.while refl

opcode_to_instruction_null_run : Opcode.nop ≡ Opcode.nop
opcode_to_instruction_null_run =
    opcode_to_instruction_null Opcode.nop (unfold opcode_to_instruction in refl)
