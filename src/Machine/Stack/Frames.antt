-- ===== src/Machine/Stack/Frames.antt =====
-- `SetupStackFrame` and `PopStackFrame` of inc/eople_core.h.
use mathlib.Core.List.{append-nil}
use eople.Base.{
  ℕ, ◌+◌, ◌-◌, ◌<◌, ◌≡◌, refl, sym, ◌++◌, inl, inr, arith, ltb, ltb→lt, length, length-append,
  length-replicate, replicate, Bool-cases,
}
use eople.Machine.Object.{zeroed}
use eople.Machine.Stack.{
  ProcessStack, Function, push_stack_frame, pop_stack_frame, setup_stack_frame, realloc_stack,
  new_top,
}

-- A frame is entered with memory to spare: the new top, where a C function leaves its result, is
-- an object of the stack, and the memory that there was is kept below zeroed objects.
pub setup_stack_frame-grows :
    (f : Function) (s : ProcessStack)
    → let t = setup_stack_frame f s in
      (t.stack_top < length t.memory) × ((n : ℕ) × (t.memory ≡ s.memory ++ replicate n zeroed))
unfolding setup_stack_frame realloc_stack push_stack_frame
setup_stack_frame-grows f s = elim (Bool-cases (ltb (length s.memory) (new_top f s + 1))) [
  | inl short ↦
      let missing = new_top f s + 1 - length s.memory in
      rw (short, setup_stack_frame)
        (
          omega (
            arith,
            ltb→lt _ _ short,
            length-append s.memory (replicate missing zeroed),
            length-replicate missing zeroed,
          ),
          (missing, refl),
        )
  | inr room ↦ rw (room, setup_stack_frame) (ground arith, (0, sym (append-nil s.memory)))
]

-- Leaving the frame puts the three pointers and the frames below back as they were, also when the
-- memory was moved to grow.
pub pop_stack_frame-setup :
    (f : Function) (s : ProcessStack)
    → pop_stack_frame (setup_stack_frame f s) ≡ record s { memory = (setup_stack_frame f s).memory }
unfolding pop_stack_frame setup_stack_frame
pop_stack_frame-setup f s = elim (Bool-cases (ltb (length s.memory) (new_top f s + 1))) [
  | inl short ↦ rw (short, setup_stack_frame) refl
  | inr room ↦ rw (room, setup_stack_frame) refl
]
