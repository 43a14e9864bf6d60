-- ===== src/Generator/Tests/Meaning.antt =====
-- The code for (a + 1) < b on a small state.
use eople.Base.{
  ℕ, ◌+◌, ◌≡◌, refl, false, true, List, [], ◌∷◌, none, some, get_elem?, if◌then◌else◌, replicate,
  arith, ◌≢◌, ◌^◌,
}
use eople.Base.Int.{pos, ◌+ℤ◌}
use eople.Base.Text.{Text, text, text_eq}
use eople.Types.{ValueType, nil_type}
use eople.Opcodes.{Instruction}
use eople.Code.{push_operands, push_operand, push_opcode, set_last}
use eople.Machine.Result.{ok}
use eople.Machine.Object.{Object, zeroed, in_range, signed64}
use eople.Machine.Stack.{Function}
use eople.Machine.State.{State, function_at}
use eople.Machine.Binop.{FloatOps}
use eople.Machine.Exec.{execute}
use eople.Machine.Loops.{run_counted}
use eople.Generator.Ast.{OpType, Expression, binary_op}
use eople.Generator.State.{Generator}
use eople.Generator.Expressions.{gen_expression_term, symbol_to_stack}
use eople.Generator.Scope.{get_expression_type}
use eople.Generator.Growth.Cells.{size}
use eople.Generator.Tests.{context, fresh, a, b, one, cell}
use eople.Generator.Meaning.{Value, number, truth, meaning, Shows, Held, Loaded}
use eople.Generator.Meaning.Computes.{start, Fits}
use eople.Generator.Meaning.Runs.{placed}
use eople.Generator.Meaning.Refines.{gen_expression_term-refines}

abbrev no_floats : FloatOps
no_floats = record {
  add = λ a b. 0;
  sub = λ a b. 0;
  mul = λ a b. 0;
  div = λ a b. 0;
  less = λ a b. false;
  less_equal = λ a b. false;
  equal = λ a b. false;
}

abbrev sum_below : Expression
sum_below = binary_op OpType.lt (binary_op OpType.add a one) b

abbrev values : Text → Value
values name = if text_eq name (text "a") then number (pos 6) else number (pos 8)

has_value : meaning values sum_below ≡ some (truth true)
unfolding meaning text_eq in_range ◌+ℤ◌ signed64
has_value = refl

abbrev out : Generator
out = record fresh {
  emitter = record {
    code = cell Instruction.add_i 1 0 4 0 ∷ cell Instruction.less_than_i 4 2 4 0 ∷ [];
    current_operand = 3;
    opcode_count = 2;
  };
  constants = record { word = 1; object_type = ValueType.int } ∷ [];
  current_temp = 5;
}

generated : gen_expression_term context none sum_below false fresh ≡ ok (4, out)
unfolding gen_expression_term text_eq push_operands push_operand push_opcode set_last
generated = refl

abbrev compare : Function
compare = record {
  name = text "compare";
  code = out.emitter.code;
  constants = out.constants;
  parameters_start = 0;
  constants_start = 0;
  locals_start = 1;
  temp_start = 4;
  temp_end = 6;
  storage_requirement = 6;
  return_type = nil_type;
  reuse_context = false;
  is_constructor = false;
  is_when_eval = false;
  updated_function = 0;
}

-- The frame begins at 1: the constant, a, b, the flag and two temporaries.
abbrev stored : List Object
stored =
    zeroed
    ∷ record { word = 1; object_type = ValueType.int }
    ∷ record { word = 6; object_type = ValueType.int }
    ∷ record { word = 8; object_type = ValueType.int }
    ∷ replicate 3 zeroed

abbrev machine : State
machine = record {
  functions = compare ∷ [];
  promises = [];
  process = record {
    process_id = 1;
    stack = record {
      memory = stored;
      stack_base = 1;
      stack_top = 7;
      temporaries = 5;
      stack_frame = [];
    };
    callstack = [];
    ip = none;
    incremental_ip_offset = 0;
    incremental_constants_offset = 0;
    incremental_locals_offset = 0;
    when_blocks = [];
    whenever_blocks = [];
  };
  outbox = [];
}

is_loaded : Loaded context values 1 stored 4 sum_below
unfolding text_eq symbol_to_stack get_expression_type signed64
is_loaded = (
  (
    (
      1,
      refl,
      refl,
      record {
        object = record { word = 6; object_type = ValueType.int };
        below = omega arith;
        is_held = refl;
        has = refl;
      },
    ),
    (
      0,
      refl,
      record {
        object = record { word = 1; object_type = ValueType.int };
        below = omega arith;
        is_held = refl;
        has = refl;
      },
    ),
  ),
  (
    2,
    refl,
    refl,
    record {
      object = record { word = 8; object_type = ValueType.int };
      below = omega arith;
      is_held = refl;
      has = refl;
    },
  ),
)

enough_room : Fits 1 stored 4 2 fresh
enough_room = record {
  above = omega arith;
  small = omega arith;
  room = omega arith;
  result_small = omega arith;
  result_room = omega arith;
}

found : function_at 1 machine ≡ ok compare
unfolding function_at
found = refl

flag_elsewhere : ◌≢◌ {A = ℕ} 3 4
flag_elsewhere h = omega (arith, h)

gen_expression_term-refines_example :
    (steps : ℕ) × (after : List Object) × (size out ≡ size fresh + steps)
    × (run_counted
          (execute no_floats (λ i st. ok (st, true)) 1)
          (some (start 1 fresh))
          steps
          (placed (start 1 fresh) stored machine)
        ≡ ok (placed (start 1 out) after machine))
    × Held 1 after (2 ^ 16) 4 (Shows (truth true))
    × (get_elem? after (1 + 3) ≡ get_elem? stored (1 + 3))
gen_expression_term-refines_example =
    gen_expression_term-refines no_floats (λ i st. ok (st, true)) 0 machine 1 compare context none
      values sum_below stored 4 false fresh out 4 3 (truth true) is_loaded enough_room has_value
      generated found refl (omega arith) flag_elsewhere
