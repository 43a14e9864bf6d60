-- ===== src/Machine/Tests.antt =====
-- The machine of src/eople_vm.cpp and src/eople_control_flow.cpp on concrete states.
mod Instructions
mod Loops
mod Calls
mod Arguments
use eople.Base.{
  ℕ, zero, suc, ◌+◌, ◌<◌, ◌≤◌, ◌≡◌, ◌≢◌, ◌⊎◌, inl, inr, refl, Bool, true, false, List, [], ◌∷◌,
  ◌++◌, Option, none, some, arith, length, get_elem?, replicate,
}
use eople.Base.Int.{ℤ, pos, negsuc, ◌+ℤ◌, ◌-ℤ◌, ◌*ℤ◌}
use eople.Base.Text.{text}
use eople.Types.{ValueType, nil_type}
use eople.Opcodes.{Opcode, Instruction, InstructionImpl, instruction}
use eople.Code.{VmCode, Emitter}
use eople.Machine.Result.{Result, ok, err}
use eople.Machine.Object.{Object, zeroed, int_val, word_of, put_int, put_bool}
use eople.Machine.Object.Views.{int_val-put_bool_ne}
use eople.Machine.Stack.{
  Function, ProcessStack, ClosureState, empty_stack, setup_stack_frame, pop_stack_frame,
  capture_closure, apply_closure_state, restore_state, write_range, splice, closure_count, segment,
  parameter_count,
}
use eople.Machine.Stack.Frames.{setup_stack_frame-grows, pop_stack_frame-setup}
use eople.Machine.Stack.Closures.{closure_start, apply_closure_state-capture}
use eople.Machine.State.{State, Process, CodePtr}

-- An object, a function with two parameters, a constant, a local and a temporary, and its code.
abbrev pub number : ℤ → Object
number z = put_int z (record { word = 0; object_type = ValueType.int })

abbrev pub cell : Instruction → ℕ → ℕ → ℕ → VmCode
cell i a b c = record { instruction = some (instruction i); a = a; b = b; c = c; d = 0 }

abbrev pub sample : Function
sample = record {
  name = text "sample";
  code = cell Instruction.add_i 0 1 4 ∷ cell Instruction.return_value 4 0 0 ∷ [];
  constants = number (pos 5) ∷ [];
  parameters_start = 0;
  constants_start = 2;
  locals_start = 3;
  temp_start = 4;
  temp_end = 5;
  storage_requirement = 5;
  return_type = nil_type;
  reuse_context = false;
  is_constructor = false;
  is_when_eval = false;
  updated_function = 0;
}

-- A stack with the frame of one call.
abbrev pub six_objects : List Object
six_objects =
    number (pos 1) ∷ number (negsuc 1) ∷ number (pos 3) ∷ number (pos 4) ∷ zeroed ∷ zeroed ∷ []

abbrev pub sample_stack : ProcessStack
sample_stack = record {
  memory = six_objects;
  stack_base = 0;
  stack_top = 5;
  temporaries = 4;
  stack_frame = [];
}

abbrev pub sample_state : State
sample_state = record {
  functions = sample ∷ [];
  promises = [];
  process = record {
    process_id = 1;
    stack = sample_stack;
    callstack = [];
    ip = some (record { fn = 1; at = 0 });
    incremental_ip_offset = 0;
    incremental_constants_offset = 0;
    incremental_locals_offset = 0;
    when_blocks = [];
    whenever_blocks = [];
  };
  outbox = [];
}

setup_stack_frame-grows_example :
    let t = setup_stack_frame sample sample_stack in
    (t.stack_top < length t.memory) × ((n : ℕ) × (t.memory ≡ six_objects ++ replicate n zeroed))
setup_stack_frame-grows_example = setup_stack_frame-grows sample sample_stack

-- The closure of the frame, put back over one whose objects were all cleared.
abbrev caught : ClosureState
caught = record {
  state = number (pos 1) ∷ number (negsuc 1) ∷ number (pos 3) ∷ number (pos 4) ∷ [];
  base_offset = 0;
}

abbrev cleared : ProcessStack
cleared = record sample_stack { memory = replicate 6 zeroed }

abbrev restored : ProcessStack
restored = record cleared { memory = six_objects }

captures : capture_closure sample sample_stack ≡ ok caught
unfolding capture_closure
captures = refl

applies : apply_closure_state sample caught cleared ≡ ok restored
unfolding apply_closure_state restore_state write_range splice
applies = refl

apply_closure_state-capture_example :
    (restored.stack_base ≡ sample_stack.stack_base)
    × (segment (closure_start sample sample_stack) (closure_count sample) restored.memory
        ≡ segment (closure_start sample sample_stack) (closure_count sample) six_objects)
    × (get_elem? restored.memory 4 ≡ get_elem? cleared.memory 4)
apply_closure_state-capture_example =
    apply_closure_state-capture sample sample_stack caught captures (omega arith) cleared restored 4
      applies (inr (omega arith))

int_val-put_bool_ne_run :
    int_val (put_bool true zeroed) ≢ int_val (put_bool true (number (negsuc 0)))
unfolding word_of
int_val-put_bool_ne_run =
    int_val-put_bool_ne true zeroed (number (negsuc 0)) (omega arith) (omega arith) (omega arith)
