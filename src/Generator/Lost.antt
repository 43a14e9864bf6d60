-- ===== src/Generator/Lost.antt =====
-- An `if` of src/eople_vmcode_gen.cpp whose condition is a variable.
use eople.Base.{ℕ, ◌≡◌, some, get_elem?}
use eople.Base.Text.{Text}
use eople.Opcodes.{Instruction, instruction}
use eople.Code.{VmCode}
use eople.Generator.Ast.{Statements}
use eople.Generator.State.{Generator}

-- The cell has become a jump on the operands that it compared.
pub record BecameJump (cell : VmCode) (i : ℕ) (g' : Generator) : Type 0 where
  pub now : VmCode
  pub stands : get_elem? g'.emitter.code i ≡ some now
  pub jumps : now.instruction ≡ some (instruction Instruction.jump_geq)
  pub left : now.b ≡ cell.a
  pub right : now.c ≡ cell.b
