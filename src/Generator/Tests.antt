-- ===== src/Generator/Tests.antt =====
-- Small functions for the generator of src/eople_vmcode_gen.cpp.
mod Meaning
use eople.Base.{ℕ, ◌≡◌, refl, false, true, List, [], ◌∷◌, none, some, ◌≤◌, ◌+◌, length, take}
use eople.Base.Text.{Text, text, text_eq}
use eople.Types.{Ty, primitive, ValueType, nil_type}
use eople.Symbols.{SymbolTable, TableEntry}
use eople.Opcodes.{Instruction, instruction}
use eople.Code.{VmCode, push_operands, push_operand, push_opcode, set_last}
use eople.Machine.Result.{Result, ok, err, Fault}
use eople.Generator.Ast.{
  OpType, Expression, Statements, identifier, literal, binary_op, assign, while_loop, if_then,
  nothing, followed_by, no_more,
}
use eople.Generator.State.{Context, Generator}
use eople.Generator.Statements.{gen_function, gen_statement, gen_statements}
use eople.Generator.Growth.Cells.{size}
use eople.Generator.Growth.Statements.{gen_statements-appends}
use eople.Generator.Counts.{WhileParts, while_loop-WhileParts}

abbrev int_type : Ty
int_type = primitive ValueType.int

abbrev bool_type : Ty
bool_type = primitive ValueType.bool

abbrev constant : Text → ℕ → Ty → TableEntry
constant name i t = record {
  ident = name;
  target_name = [];
  stack_index = i;
  type_of = t;
  is_constant = true;
}

abbrev variable : Text → ℕ → Ty → TableEntry
variable name i t = record (constant name i t) { is_constant = false }

-- The constant 1 at 0, the variables a and b at 1 and 2 and the flag at 3.
abbrev table : SymbolTable
table = record {
  table = (text "1", 0) ∷ (text "a", 1) ∷ (text "b", 2) ∷ (text "flag", 3) ∷ (text "t", 4) ∷ [];
  entries =
      constant (text "1") 0 int_type
      ∷ variable (text "a") 0 int_type
      ∷ variable (text "b") 1 int_type
      ∷ variable (text "flag") 2 bool_type
      ∷ [];
  scope_name = [];
  next_const_reg = 1;
  next_var_reg = 3;
  rollback_const_reg = 0;
  rollback_var_reg = 0;
  force_constant = false;
}

abbrev context : Context
context = record {
  scopes = record { symbols = table; scope_name = [] } ∷ [];
  get_function = λ name. none;
  get_member_function = λ process name. none;
  get_cfunction = λ name. none;
  call_type = λ name. nil_type;
  storage_end = 8;
  base_stack_offset = 0;
  first_constant = 0;
  stray_depth = 0;
  temp_start = 4;
  first_block = 1;
}

abbrev fresh : Generator
fresh = record {
  emitter = record { code = []; current_operand = 0; opcode_count = 0 };
  constants = record { word = 0; object_type = ValueType.nil } ∷ [];
  first_temp = 4;
  current_temp = 4;
  result_index = 0;
  error_count = 0;
  blocks = [];
}

abbrev cell : Instruction → ℕ → ℕ → ℕ → ℕ → VmCode
cell i a b c d = record { instruction = some (instruction i); a = a; b = b; c = c; d = d }

code_of_body : Statements → Result (List VmCode)
unfolding gen_function text_eq
code_of_body body = elim (gen_function context none body fresh) [
  | ok g ↦ ok g.emitter.code
  | err e ↦ err e
]

abbrev one : Expression
one = literal (text "1") int_type (record { word = 1; object_type = ValueType.int })

abbrev a : Expression
a = identifier (text "a") false

abbrev b : Expression
b = identifier (text "b") false

abbrev flag : Expression
flag = identifier (text "flag") false

-- while a < b: a = a + 1
count_up :
    code_of_body (
      followed_by
        (while_loop
          (binary_op OpType.lt a b)
          (followed_by (assign (text "a") (binary_op OpType.add a one)) nothing))
        nothing)
    ≡ ok (
        cell Instruction.while 4 1 1 0
        ∷ cell Instruction.less_than_i 1 2 4 0
        ∷ cell Instruction.add_i 1 0 1 0
        ∷ cell Instruction.return 0 0 0 0
        ∷ [])
unfolding code_of_body push_operands push_operand push_opcode set_last
count_up = refl

-- flag = a < b; if flag: a = b. The assignment becomes the test.
flag_lost :
    code_of_body (
      followed_by (assign (text "flag") (binary_op OpType.lt a b)) (
        followed_by
          (if_then flag (followed_by (assign (text "a") b) nothing) no_more nothing)
          nothing))
    ≡ ok (
        cell Instruction.jump_geq 1 1 2 0
        ∷ cell Instruction.store 1 2 0 0
        ∷ cell Instruction.return 0 0 0 0
        ∷ [])
unfolding code_of_body push_operands push_operand push_opcode set_last
flag_lost = refl

-- An `if` on a variable that begins a function reads in front of the code.
no_code :
    code_of_body (followed_by (if_then flag nothing no_more nothing) nothing)
    ≡ err Fault.wild_access
unfolding code_of_body push_operands push_operand push_opcode set_last
no_code = refl

abbrev loop_body : Statements
loop_body = followed_by (assign (text "a") (binary_op OpType.add a one)) nothing

abbrev or_fresh : Result Generator → Generator
or_fresh (ok g) = g
or_fresh (err e) = fresh

looped : Generator
unfolding gen_statement text_eq push_operands push_operand push_opcode set_last
looped =
    or_fresh (gen_statement context none (while_loop (binary_op OpType.lt a b) loop_body) fresh)

looped-ran :
    gen_statement context none (while_loop (binary_op OpType.lt a b) loop_body) fresh ≡ ok looped
unfolding looped
looped-ran = refl

while_loop-WhileParts_example : WhileParts context none (binary_op OpType.lt a b) fresh looped
while_loop-WhileParts_example =
    while_loop-WhileParts context none (binary_op OpType.lt a b) loop_body fresh looped (tt, tt)
      looped-ran

appended : Generator
unfolding gen_statements text_eq push_operands push_operand push_opcode set_last
appended = or_fresh (gen_statements context none loop_body fresh)

appended-ran : gen_statements context none loop_body fresh ≡ ok appended
unfolding appended
appended-ran = refl

gen_statements-appends_example :
    (take (size fresh) appended.emitter.code ≡ fresh.emitter.code)
    × (size fresh ≤ size appended)
    × (size appended + fresh.emitter.opcode_count ≡ size fresh + appended.emitter.opcode_count)
    × (length appended.constants ≡ length fresh.constants)
gen_statements-appends_example =
    gen_statements-appends context none loop_body fresh appended (tt, tt) appended-ran

-- Behind `flag = a < b`.
abbrev compared : Generator
compared = record fresh {
  emitter = record {
    code = cell Instruction.less_than_i 1 2 3 0 ∷ [];
    current_operand = 3;
    opcode_count = 1;
  };
}

tested : Generator
unfolding gen_statement text_eq push_operands push_operand push_opcode set_last
tested = or_fresh (gen_statement context none (if_then flag loop_body no_more nothing) compared)
