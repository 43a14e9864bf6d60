-- ===== src/Machine/Calls/Returns.antt =====
-- Entering and leaving a function of src/eople_vm.cpp.
use eople.Base.{ℕ, ◌≡◌, ap}
use eople.Machine.Stack.{Function, setup_stack_frame}
use eople.Machine.Stack.Frames.{pop_stack_frame-setup}
use eople.Machine.State.{State, setup_frame, pop_frame, with_stack}

-- Leaving the frame that a call set up, when nothing ran in between, gives the caller its
-- instruction pointer, call stack and frame back: only the memory may have grown.
pub pop_frame-setup_frame :
    (fn : ℕ) (f : Function) (st : State)
    → pop_frame (setup_frame fn f st)
      ≡ with_stack
          (record (st.process.stack) { memory = (setup_stack_frame f st.process.stack).memory })
          st
unfolding pop_frame setup_frame
pop_frame-setup_frame fn f st = ap (λ s. with_stack s st) (pop_stack_frame-setup f st.process.stack)
