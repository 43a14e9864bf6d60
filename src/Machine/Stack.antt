-- ===== src/Machine/Stack.antt =====
-- `Function` and `ProcessStack` of inc/eople_core.h. The stack's memory is a list, and the pointers
-- into it are offsets from `stack`; `stack_end` is its length. Every read and write goes through a
-- bounds check, which stands for the source's assertions and, where it has none, for a fault.
pub mod Memory
pub mod Frames
pub mod Closures
use eople.Base.{
  ℕ, suc, ◌+◌, ◌-◌, ◌*◌, ◌%◌, ◌^◌, Bool, true, false, List, [], ◌∷◌, ◌++◌, Option, none, some, ltb,
  leb, ◌==◌, if◌then◌else◌, length, get_elem?, set, take, drop, replicate,
}
use eople.Base.Text.{Text}
use eople.Types.{Ty}
use eople.Code.{VmCode}
use eople.Machine.Result.{Result, ok, err, ◌>>=◌, ◌>>◌, check, assertion, wild_access, or_fault}
use eople.Machine.Object.{Object, zeroed}

-- A pointer to a `Function` is a number, 0 for null.
pub record Function : Type 0 where
  pub name : Text
  pub code : List VmCode
  pub constants : List Object
  pub parameters_start : ℕ
  pub constants_start : ℕ
  pub locals_start : ℕ
  pub temp_start : ℕ
  pub temp_end : ℕ
  pub storage_requirement : ℕ
  pub return_type : Ty
  pub reuse_context : Bool
  pub is_constructor : Bool
  pub is_when_eval : Bool
  pub updated_function : ℕ

-- `a - b` on `u32`.
abbrev pub sub32 : ℕ → ℕ → ℕ
sub32 a b = (a + (2 ^ 32 - b)) % 2 ^ 32

abbrev pub parameter_count : Function → ℕ
parameter_count f = sub32 f.constants_start f.parameters_start

abbrev pub constant_count : Function → ℕ
constant_count f = sub32 f.locals_start f.constants_start

abbrev pub locals_count : Function → ℕ
locals_count f = sub32 f.temp_start f.locals_start

pub record StackFrame : Type 0 where
  pub bp : ℕ
  pub sp : ℕ
  pub tp : ℕ

-- The last frame pushed stands first.
pub record ProcessStack : Type 0 where
  pub memory : List Object
  pub stack_base : ℕ
  pub stack_top : ℕ
  pub temporaries : ℕ
  pub stack_frame : List StackFrame

abbrev pub empty_stack : ProcessStack
empty_stack = record {
  memory = [];
  stack_base = 0;
  stack_top = 0;
  temporaries = 0;
  stack_frame = [];
}

-- Objects copied over the memory from an offset on.
unfoldable pub splice : ℕ → List Object → List Object → List Object
splice at objects memory = take at memory ++ (objects ++ drop (at + length objects) memory)

abbrev pub segment : ℕ → ℕ → List Object → List Object
segment at count memory = take count (drop at memory)

-- `memcpy` and `memset` behind their assertion.
unfoldable pub write_range : ℕ → List Object → ProcessStack → Result ProcessStack
unfolding splice
write_range at objects s =
    if leb (at + length objects) (length s.memory)
    then ok (record s { memory = splice at objects s.memory })
    else err assertion

unfoldable pub push_stack_frame : ProcessStack → ProcessStack
push_stack_frame s = record s {
  stack_frame = record { bp = s.stack_base; sp = s.stack_top; tp = s.temporaries } ∷ s.stack_frame;
}

pop_frames : List StackFrame → ProcessStack → ProcessStack
pop_frames [] s = s
pop_frames (frame ∷ frames) s = record s {
  stack_base = frame.bp;
  stack_top = frame.sp;
  temporaries = frame.tp;
  stack_frame = frames;
}

unfoldable pub pop_stack_frame : ProcessStack → ProcessStack
unfolding pop_frames
pop_stack_frame s = pop_frames s.stack_frame s

-- The allocation is taken to succeed. It is called to grow the memory only, and the new part is
-- zeroed. One more object than asked for leaves room for the result of a C function.
unfoldable pub realloc_stack : ℕ → ProcessStack → ProcessStack
realloc_stack size s = record s {
  memory = s.memory ++ replicate (size + 1 - length s.memory) zeroed;
}

-- The three pointers of the frame of a function that is called.
unfoldable pub new_base : Function → ProcessStack → ℕ
new_base f s = if f.reuse_context then s.stack_base else s.stack_top

unfoldable pub new_top : Function → ProcessStack → ℕ
unfolding new_base
new_top f s =
    if f.is_when_eval then new_base f s + f.temp_end else s.stack_top + f.storage_requirement

unfoldable pub new_temporaries : Function → ProcessStack → ℕ
unfolding new_base
new_temporaries f s = f.temp_start + (if f.reuse_context then 0 else new_base f s)

unfoldable pub setup_stack_frame : Function → ProcessStack → ProcessStack
unfolding push_stack_frame new_base new_top new_temporaries realloc_stack
setup_stack_frame f s =
    let t = record (push_stack_frame s) {
      stack_base = new_base f s;
      stack_top = new_top f s;
      temporaries = new_temporaries f s;
    } in
    if ltb (length t.memory) (t.stack_top + 1) then realloc_stack t.stack_top t else t

unfoldable pub initialize_locals : Function → ProcessStack → Result ProcessStack
unfolding write_range
initialize_locals f s =
    write_range (s.stack_base + f.locals_start) (replicate (locals_count f) zeroed) s

unfoldable pub push_constants : Function → ProcessStack → Result ProcessStack
unfolding write_range
push_constants f s =
    write_range (s.stack_base + f.constants_start) (take (constant_count f) f.constants) s

-- The arguments of a message, which `PushArgs` copies to an offset from `stack`.
unfoldable pub push_args : Function → List Object → ProcessStack → Result ProcessStack
unfolding write_range
push_args f args s = write_range f.parameters_start (take (parameter_count f) args) s

-- A read and a write with no assertion in the source.
abbrev pub load : ℕ → List Object → Result Object
load i memory = or_fault wild_access (get_elem? memory i)

-- The assignments `*(dest++) = src[…]` of `PushArgs`, for the operands that the cells of the call
-- name: `src` and `dest` are addresses in the memory of the stack.
unfoldable pub copy_arguments : ℕ → ℕ → List ℕ → ProcessStack → Result ProcessStack
copy_arguments src dest [] s = ok s
copy_arguments src dest (operand ∷ operands) s = do
  argument ← load (src + operand) s.memory
  check (ltb dest (length s.memory)) wild_access
  copy_arguments src (dest + 1) operands (record s { memory = set s.memory dest argument })

-- `GetObjectAtOffset` and `PushObjectAtOffset`.
unfoldable pub get_object_at_offset : ℕ → ProcessStack → Result Object
get_object_at_offset offset s = or_fault assertion (get_elem? s.memory (s.stack_base + offset))

unfoldable pub push_object_at_offset : Object → ℕ → ProcessStack → Result ProcessStack
push_object_at_offset object offset s =
    if ltb (s.stack_base + offset) (length s.memory)
    then ok (record s { memory = set s.memory (s.stack_base + offset) object })
    else err assertion

unfoldable pub is_temporary : ℕ → ProcessStack → Bool
is_temporary object s = leb s.temporaries object

-- `CaptureClosure`: the state that a when block keeps. With nothing to copy it is empty.
pub record ClosureState : Type 0 where
  pub state : List Object
  pub base_offset : ℕ

abbrev pub empty_closure : ClosureState
empty_closure = record { state = []; base_offset = 0 }

-- The counts are `u32`, and so is their sum.
abbrev pub closure_count : Function → ℕ
closure_count f = (locals_count f + parameter_count f + constant_count f) % 2 ^ 32

unfoldable pub capture_closure : Function → ProcessStack → Result ClosureState
capture_closure f s =
    if closure_count f == 0
    then ok empty_closure
    else if leb (s.stack_base + f.parameters_start + closure_count f) (length s.memory)
    then ok (record {
      state = segment (s.stack_base + f.parameters_start) (closure_count f) s.memory;
      base_offset = s.stack_base;
    })
    else err assertion

-- The captured state goes back to where it was taken from, unless it is empty.
unfoldable pub restore_state : ℕ → List Object → ProcessStack → Result ProcessStack
unfolding write_range
restore_state at [] s = ok s
restore_state at (object ∷ state) s = write_range at (object ∷ state) s

-- `ApplyClosureState`. The two differences of pointers are added as they are in the source, where
-- the new top is not checked against the end of the memory.
unfoldable pub apply_closure_state : Function → ClosureState → ProcessStack → Result ProcessStack
unfolding restore_state
apply_closure_state f c s = restore_state (c.base_offset + f.parameters_start) c.state (record s {
  stack_base = c.base_offset;
  stack_top = s.stack_top + c.base_offset - s.stack_base;
  temporaries = s.temporaries + c.base_offset - s.stack_base;
})

-- `ShiftSegment`: `memmove`.
unfoldable pub shift_segment : ℕ → ℕ → ℕ → ProcessStack → Result ProcessStack
unfolding write_range
shift_segment old_offset new_offset size s =
    write_range (s.stack_base + new_offset) (segment (s.stack_base + old_offset) size s.memory) s
