-- ===== src/Machine/Binop/Table.antt =====
-- Which instructions of src/eople_binop.cpp have the shape of three operands.
use eople.Base.{Option, none, some}
use eople.Opcodes.{Instruction}
use eople.Machine.Binop.{
  Operation, FloatOps, add_i, sub_i, mul_i, div_i, mod_i, add_f, sub_f, mul_f, div_f, shift_left,
  shift_right, b_and, b_xor, b_or, greater_than_i, less_than_i, equal_i, not_equal_i, less_equal_i,
  greater_equal_i, greater_than_f, less_than_f, equal_f, not_equal_f, less_equal_f, greater_equal_f,
  logical_and, logical_or,
}

unfoldable pub operation : FloatOps → Instruction → Option Operation
operation fops Instruction.add_i = some add_i
operation fops Instruction.sub_i = some sub_i
operation fops Instruction.mul_i = some mul_i
operation fops Instruction.div_i = some div_i
operation fops Instruction.mod_i = some mod_i
operation fops Instruction.add_f = some (add_f fops)
operation fops Instruction.sub_f = some (sub_f fops)
operation fops Instruction.mul_f = some (mul_f fops)
operation fops Instruction.div_f = some (div_f fops)
operation fops Instruction.shift_left = some shift_left
operation fops Instruction.shift_right = some shift_right
operation fops Instruction.b_and = some b_and
operation fops Instruction.b_xor = some b_xor
operation fops Instruction.b_or = some b_or
operation fops Instruction.greater_than_i = some greater_than_i
operation fops Instruction.less_than_i = some less_than_i
operation fops Instruction.equal_i = some equal_i
operation fops Instruction.not_equal_i = some not_equal_i
operation fops Instruction.less_equal_i = some less_equal_i
operation fops Instruction.greater_equal_i = some greater_equal_i
operation fops Instruction.greater_than_f = some (greater_than_f fops)
operation fops Instruction.less_than_f = some (less_than_f fops)
operation fops Instruction.equal_f = some (equal_f fops)
operation fops Instruction.not_equal_f = some (not_equal_f fops)
operation fops Instruction.less_equal_f = some (less_equal_f fops)
operation fops Instruction.greater_equal_f = some (greater_equal_f fops)
operation fops Instruction.and = some logical_and
operation fops Instruction.or = some logical_or
operation fops _ = none
