-- ===== src/Opcodes.antt =====
-- inc/eople_core.h and src/eople_vm.cpp: the opcodes, and the functions that implement them.
pub mod Mapping
use eople.Base.{ℕ, Option, none, some}
use eople.Base.Text.{Text, text}

-- `Opcode`, in the order of the source.
pub data Opcode : Type 0 where
  add_i sub_i mul_i div_i mod_i add_f sub_f mul_f div_f shift_left shift_right b_and b_xor b_or
        concat_s equal_s not_equal_s for_i for_f for_a while return return_value print_i print_f
        print_i_arr print_f_arr print_s_arr print_s_promise print_dict function_call array_subscript
        process_message greater_than_i less_than_i equal_i not_equal_i less_equal_i greater_equal_i
        greater_than_f less_than_f equal_f not_equal_f less_equal_f greater_equal_f and or store
        store_array_element store_array_string_element string_copy spawn_process when_register
        whenever_register when whenever jump jump_if jump_gt jump_lt jump_eq jump_neq jump_leq
        jump_geq nop :
      Opcode

-- The functions of the namespace `Instruction` that an opcode can stand for.
pub data Instruction : Type 0 where
  add_i sub_i mul_i div_i mod_i add_f sub_f mul_f div_f shift_left shift_right b_and b_xor b_or
        concat_s equal_s not_equal_s for_i for_f for_a while return return_value print_i print_f
        print_i_arr print_f_arr print_s_arr print_s_promise print_dict function_call array_subscript
        process_message greater_than_i less_than_i equal_i not_equal_i less_equal_i greater_equal_i
        greater_than_f less_than_f equal_f not_equal_f less_equal_f greater_equal_f and or store
        store_array_element store_array_string_element string_copy spawn_process when_register
        whenever_register when whenever jump jump_if jump_gt jump_lt jump_eq jump_neq jump_leq
        jump_geq :
      Instruction

-- `InstructionImpl`, a pointer to the implementation of an instruction: one of the functions
-- above, or a C function of the standard library, by its number.
pub data InstructionImpl : Type 0 where
  instruction : Instruction → InstructionImpl
  cfunction : ℕ → InstructionImpl

-- `OpcodeToInstruction`; `none` is the null pointer.
unfoldable pub opcode_to_instruction : Opcode → Option InstructionImpl
opcode_to_instruction Opcode.add_i = some (instruction Instruction.add_i)
opcode_to_instruction Opcode.sub_i = some (instruction Instruction.sub_i)
opcode_to_instruction Opcode.mul_i = some (instruction Instruction.mul_i)
opcode_to_instruction Opcode.div_i = some (instruction Instruction.div_i)
opcode_to_instruction Opcode.mod_i = some (instruction Instruction.mod_i)
opcode_to_instruction Opcode.add_f = some (instruction Instruction.add_f)
opcode_to_instruction Opcode.sub_f = some (instruction Instruction.sub_f)
opcode_to_instruction Opcode.mul_f = some (instruction Instruction.mul_f)
opcode_to_instruction Opcode.div_f = some (instruction Instruction.div_f)
opcode_to_instruction Opcode.shift_left = some (instruction Instruction.shift_left)
opcode_to_instruction Opcode.shift_right = some (instruction Instruction.shift_right)
opcode_to_instruction Opcode.b_and = some (instruction Instruction.b_and)
opcode_to_instruction Opcode.b_xor = some (instruction Instruction.b_xor)
opcode_to_instruction Opcode.b_or = some (instruction Instruction.b_or)
opcode_to_instruction Opcode.concat_s = some (instruction Instruction.concat_s)
opcode_to_instruction Opcode.equal_s = some (instruction Instruction.equal_s)
opcode_to_instruction Opcode.not_equal_s = some (instruction Instruction.not_equal_s)
opcode_to_instruction Opcode.for_i = some (instruction Instruction.for_i)
opcode_to_instruction Opcode.for_f = some (instruction Instruction.for_f)
opcode_to_instruction Opcode.for_a = some (instruction Instruction.for_a)
opcode_to_instruction Opcode.while = some (instruction Instruction.while)
opcode_to_instruction Opcode.return = some (instruction Instruction.return)
opcode_to_instruction Opcode.return_value = some (instruction Instruction.return_value)
opcode_to_instruction Opcode.print_i = some (instruction Instruction.print_i)
opcode_to_instruction Opcode.print_f = some (instruction Instruction.print_f)
opcode_to_instruction Opcode.print_i_arr = some (instruction Instruction.print_i_arr)
opcode_to_instruction Opcode.print_f_arr = some (instruction Instruction.print_f_arr)
opcode_to_instruction Opcode.print_s_arr = some (instruction Instruction.print_s_arr)
opcode_to_instruction Opcode.print_s_promise = some (instruction Instruction.print_s_promise)
opcode_to_instruction Opcode.print_dict = some (instruction Instruction.print_dict)
opcode_to_instruction Opcode.function_call = some (instruction Instruction.function_call)
opcode_to_instruction Opcode.array_subscript = some (instruction Instruction.array_subscript)
opcode_to_instruction Opcode.process_message = some (instruction Instruction.process_message)
opcode_to_instruction Opcode.greater_than_i = some (instruction Instruction.greater_than_i)
opcode_to_instruction Opcode.less_than_i = some (instruction Instruction.less_than_i)
opcode_to_instruction Opcode.equal_i = some (instruction Instruction.equal_i)
opcode_to_instruction Opcode.not_equal_i = some (instruction Instruction.not_equal_i)
opcode_to_instruction Opcode.less_equal_i = some (instruction Instruction.less_equal_i)
opcode_to_instruction Opcode.greater_equal_i = some (instruction Instruction.greater_equal_i)
opcode_to_instruction Opcode.greater_than_f = some (instruction Instruction.greater_than_f)
opcode_to_instruction Opcode.less_than_f = some (instruction Instruction.less_than_f)
opcode_to_instruction Opcode.equal_f = some (instruction Instruction.equal_f)
opcode_to_instruction Opcode.not_equal_f = some (instruction Instruction.not_equal_f)
opcode_to_instruction Opcode.less_equal_f = some (instruction Instruction.less_equal_f)
opcode_to_instruction Opcode.greater_equal_f = some (instruction Instruction.greater_equal_f)
opcode_to_instruction Opcode.and = some (instruction Instruction.and)
opcode_to_instruction Opcode.or = some (instruction Instruction.or)
opcode_to_instruction Opcode.store = some (instruction Instruction.store)
opcode_to_instruction Opcode.store_array_element =
    some (instruction Instruction.store_array_element)
opcode_to_instruction Opcode.store_array_string_element =
    some (instruction Instruction.store_array_string_element)
opcode_to_instruction Opcode.string_copy = some (instruction Instruction.string_copy)
opcode_to_instruction Opcode.spawn_process = some (instruction Instruction.spawn_process)
opcode_to_instruction Opcode.when_register = some (instruction Instruction.when_register)
opcode_to_instruction Opcode.whenever_register = some (instruction Instruction.whenever_register)
opcode_to_instruction Opcode.when = some (instruction Instruction.when)
opcode_to_instruction Opcode.whenever = some (instruction Instruction.whenever)
opcode_to_instruction Opcode.jump = some (instruction Instruction.jump)
opcode_to_instruction Opcode.jump_if = some (instruction Instruction.jump_if)
opcode_to_instruction Opcode.jump_gt = some (instruction Instruction.jump_gt)
opcode_to_instruction Opcode.jump_lt = some (instruction Instruction.jump_lt)
opcode_to_instruction Opcode.jump_eq = some (instruction Instruction.jump_eq)
opcode_to_instruction Opcode.jump_neq = some (instruction Instruction.jump_neq)
opcode_to_instruction Opcode.jump_leq = some (instruction Instruction.jump_leq)
opcode_to_instruction Opcode.jump_geq = some (instruction Instruction.jump_geq)
opcode_to_instruction Opcode.nop = none

abbrev instruction_name : Instruction → Text
instruction_name Instruction.add_i = text "AddI"
instruction_name Instruction.sub_i = text "SubI"
instruction_name Instruction.mul_i = text "MulI"
instruction_name Instruction.div_i = text "DivI"
instruction_name Instruction.mod_i = text "ModI"
instruction_name Instruction.add_f = text "AddF"
instruction_name Instruction.sub_f = text "SubF"
instruction_name Instruction.mul_f = text "MulF"
instruction_name Instruction.div_f = text "DivF"
instruction_name Instruction.shift_left = text "ShiftLeft"
instruction_name Instruction.shift_right = text "ShiftRight"
instruction_name Instruction.b_and = text "BAnd"
instruction_name Instruction.b_xor = text "BXor"
instruction_name Instruction.b_or = text "BOr"
instruction_name Instruction.concat_s = text "ConcatS"
instruction_name Instruction.equal_s = text "EqualS"
instruction_name Instruction.not_equal_s = text "NotEqualS"
instruction_name Instruction.for_i = text "ForI"
instruction_name Instruction.for_f = text "ForF"
instruction_name Instruction.for_a = text "ForA"
instruction_name Instruction.while = text "While"
instruction_name Instruction.return = text "Return"
instruction_name Instruction.return_value = text "ReturnValue"
instruction_name Instruction.print_i = text "PrintI"
instruction_name Instruction.print_f = text "PrintF"
instruction_name Instruction.print_i_arr = text "PrintIArr"
instruction_name Instruction.print_f_arr = text "PrintFArr"
instruction_name Instruction.print_s_arr = text "PrintSArr"
instruction_name Instruction.print_s_promise = text "PrintSPromise"
instruction_name Instruction.print_dict = text "PrintDict"
instruction_name Instruction.function_call = text "FunctionCall"
instruction_name Instruction.array_subscript = text "ArraySubscript"
instruction_name Instruction.process_message = text "ProcessMessage"
instruction_name Instruction.greater_than_i = text "GreaterThanI"
instruction_name Instruction.less_than_i = text "LessThanI"
instruction_name Instruction.equal_i = text "EqualI"
instruction_name Instruction.not_equal_i = text "NotEqualI"
instruction_name Instruction.less_equal_i = text "LessEqualI"
instruction_name Instruction.greater_equal_i = text "GreaterEqualI"
instruction_name Instruction.greater_than_f = text "GreaterThanF"
instruction_name Instruction.less_than_f = text "LessThanF"
instruction_name Instruction.equal_f = text "EqualF"
instruction_name Instruction.not_equal_f = text "NotEqualF"
instruction_name Instruction.less_equal_f = text "LessEqualF"
instruction_name Instruction.greater_equal_f = text "GreaterEqualF"
instruction_name Instruction.and = text "And"
instruction_name Instruction.or = text "Or"
instruction_name Instruction.store = text "Store"
instruction_name Instruction.store_array_element = text "StoreArrayElement"
instruction_name Instruction.store_array_string_element = text "StoreArrayStringElement"
instruction_name Instruction.string_copy = text "StringCopy"
instruction_name Instruction.spawn_process = text "SpawnProcess"
instruction_name Instruction.when_register = text "WhenRegister"
instruction_name Instruction.whenever_register = text "WheneverRegister"
instruction_name Instruction.when = text "When"
instruction_name Instruction.whenever = text "Whenever"
instruction_name Instruction.jump = text "Jump"
instruction_name Instruction.jump_if = text "JumpIf"
instruction_name Instruction.jump_gt = text "JumpGT"
instruction_name Instruction.jump_lt = text "JumpLT"
instruction_name Instruction.jump_eq = text "JumpEQ"
instruction_name Instruction.jump_neq = text "JumpNEQ"
instruction_name Instruction.jump_leq = text "JumpLEQ"
instruction_name Instruction.jump_geq = text "JumpGEQ"

-- `InstructionToString`.
unfoldable pub instruction_to_string : InstructionImpl → Text
instruction_to_string (instruction i) = instruction_name i
instruction_to_string (cfunction n) = text "ERR"
