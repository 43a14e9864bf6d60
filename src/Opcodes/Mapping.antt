-- ===== src/Opcodes/Mapping.antt =====
-- What `OpcodeToInstruction` and `InstructionToString` of src/eople_vm.cpp keep apart.
use eople.Base.{◌≡◌, refl, ap, ◌∙◌, sym, Option, none, some}
use eople.Opcodes.{
  Opcode, Instruction, InstructionImpl, instruction, cfunction, opcode_to_instruction,
}

-- The opcode of an implementation.
opcode_of : Option InstructionImpl → Opcode
opcode_of (some (instruction Instruction.add_i)) = Opcode.add_i
opcode_of (some (instruction Instruction.sub_i)) = Opcode.sub_i
opcode_of (some (instruction Instruction.mul_i)) = Opcode.mul_i
opcode_of (some (instruction Instruction.div_i)) = Opcode.div_i
opcode_of (some (instruction Instruction.mod_i)) = Opcode.mod_i
opcode_of (some (instruction Instruction.add_f)) = Opcode.add_f
opcode_of (some (instruction Instruction.sub_f)) = Opcode.sub_f
opcode_of (some (instruction Instruction.mul_f)) = Opcode.mul_f
opcode_of (some (instruction Instruction.div_f)) = Opcode.div_f
opcode_of (some (instruction Instruction.shift_left)) = Opcode.shift_left
opcode_of (some (instruction Instruction.shift_right)) = Opcode.shift_right
opcode_of (some (instruction Instruction.b_and)) = Opcode.b_and
opcode_of (some (instruction Instruction.b_xor)) = Opcode.b_xor
opcode_of (some (instruction Instruction.b_or)) = Opcode.b_or
opcode_of (some (instruction Instruction.concat_s)) = Opcode.concat_s
opcode_of (some (instruction Instruction.equal_s)) = Opcode.equal_s
opcode_of (some (instruction Instruction.not_equal_s)) = Opcode.not_equal_s
opcode_of (some (instruction Instruction.for_i)) = Opcode.for_i
opcode_of (some (instruction Instruction.for_f)) = Opcode.for_f
opcode_of (some (instruction Instruction.for_a)) = Opcode.for_a
opcode_of (some (instruction Instruction.while)) = Opcode.while
opcode_of (some (instruction Instruction.return)) = Opcode.return
opcode_of (some (instruction Instruction.return_value)) = Opcode.return_value
opcode_of (some (instruction Instruction.print_i)) = Opcode.print_i
opcode_of (some (instruction Instruction.print_f)) = Opcode.print_f
opcode_of (some (instruction Instruction.print_i_arr)) = Opcode.print_i_arr
opcode_of (some (instruction Instruction.print_f_arr)) = Opcode.print_f_arr
opcode_of (some (instruction Instruction.print_s_arr)) = Opcode.print_s_arr
opcode_of (some (instruction Instruction.print_s_promise)) = Opcode.print_s_promise
opcode_of (some (instruction Instruction.print_dict)) = Opcode.print_dict
opcode_of (some (instruction Instruction.function_call)) = Opcode.function_call
opcode_of (some (instruction Instruction.array_subscript)) = Opcode.array_subscript
opcode_of (some (instruction Instruction.process_message)) = Opcode.process_message
opcode_of (some (instruction Instruction.greater_than_i)) = Opcode.greater_than_i
opcode_of (some (instruction Instruction.less_than_i)) = Opcode.less_than_i
opcode_of (some (instruction Instruction.equal_i)) = Opcode.equal_i
opcode_of (some (instruction Instruction.not_equal_i)) = Opcode.not_equal_i
opcode_of (some (instruction Instruction.less_equal_i)) = Opcode.less_equal_i
opcode_of (some (instruction Instruction.greater_equal_i)) = Opcode.greater_equal_i
opcode_of (some (instruction Instruction.greater_than_f)) = Opcode.greater_than_f
opcode_of (some (instruction Instruction.less_than_f)) = Opcode.less_than_f
opcode_of (some (instruction Instruction.equal_f)) = Opcode.equal_f
opcode_of (some (instruction Instruction.not_equal_f)) = Opcode.not_equal_f
opcode_of (some (instruction Instruction.less_equal_f)) = Opcode.less_equal_f
opcode_of (some (instruction Instruction.greater_equal_f)) = Opcode.greater_equal_f
opcode_of (some (instruction Instruction.and)) = Opcode.and
opcode_of (some (instruction Instruction.or)) = Opcode.or
opcode_of (some (instruction Instruction.store)) = Opcode.store
opcode_of (some (instruction Instruction.store_array_element)) = Opcode.store_array_element
opcode_of (some (instruction Instruction.store_array_string_element)) =
    Opcode.store_array_string_element
opcode_of (some (instruction Instruction.string_copy)) = Opcode.string_copy
opcode_of (some (instruction Instruction.spawn_process)) = Opcode.spawn_process
opcode_of (some (instruction Instruction.when_register)) = Opcode.when_register
opcode_of (some (instruction Instruction.whenever_register)) = Opcode.whenever_register
opcode_of (some (instruction Instruction.when)) = Opcode.when
opcode_of (some (instruction Instruction.whenever)) = Opcode.whenever
opcode_of (some (instruction Instruction.jump)) = Opcode.jump
opcode_of (some (instruction Instruction.jump_if)) = Opcode.jump_if
opcode_of (some (instruction Instruction.jump_gt)) = Opcode.jump_gt
opcode_of (some (instruction Instruction.jump_lt)) = Opcode.jump_lt
opcode_of (some (instruction Instruction.jump_eq)) = Opcode.jump_eq
opcode_of (some (instruction Instruction.jump_neq)) = Opcode.jump_neq
opcode_of (some (instruction Instruction.jump_leq)) = Opcode.jump_leq
opcode_of (some (instruction Instruction.jump_geq)) = Opcode.jump_geq
opcode_of (some (cfunction n)) = Opcode.nop
opcode_of none = Opcode.nop

opcode_of-opcode_to_instruction : (op : Opcode) → opcode_of (opcode_to_instruction op) ≡ op
unfolding opcode_of opcode_to_instruction
opcode_of-opcode_to_instruction Opcode.add_i = refl
opcode_of-opcode_to_instruction _ = refl

-- Opcodes and implementations are one to one: no two opcodes share an implementation.
pub opcode_to_instruction_inj :
    (a b : Opcode) → opcode_to_instruction a ≡ opcode_to_instruction b → a ≡ b
opcode_to_instruction_inj a b e =
    sym (opcode_of-opcode_to_instruction a) ∙ ap opcode_of e ∙ opcode_of-opcode_to_instruction b

-- The one opcode with no implementation is `NOP`, whose pointer is null.
pub opcode_to_instruction_null : (op : Opcode) → opcode_to_instruction op ≡ none → op ≡ Opcode.nop
opcode_to_instruction_null op e =
    opcode_to_instruction_inj op Opcode.nop (e ∙ unfold opcode_to_instruction in refl)
