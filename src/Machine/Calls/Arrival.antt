-- ===== src/Machine/Calls/Arrival.antt =====
-- From the code generator (src/eople_vmcode_gen.cpp) to the machine (src/eople_control_flow.cpp): the
-- arguments of a message.
use eople.Machine.Binop.Frame.{holds}
use eople.Machine.Calls.Parameters.{AllBelow, push_call_args-arrive}
use mathlib.Core.List.{append_assoc}
use eople.Base.{
  ℕ, zero, suc, ◌+◌, ◌≡◌, refl, sym, ap, subst, ◌∙◌, List, [], ◌∷◌, ◌++◌, some, arith, drop, length,
  Option-cases, inl, inr, get_elem?, ◌<◌, false,
}
use eople.Code.{VmCode, Emitter, read_arguments, gen_process_message, gen_function_call}
use eople.Code.Arguments.{AllFit, gen_process_message-Calls, gen_function_call-Calls}
use eople.Machine.Result.{ok, ◌>>=◌}
use eople.Machine.Stack.{Function, parameter_count}
use eople.Machine.State.{State, function_at, advance, with_stack}
use eople.Machine.Flow.{copy_message_args}
use eople.Machine.Calls.{cells_from, push_call_args, first_parameter, first_operand}
use eople.Machine.Calls.Operands.{load_all, Loaded, Copied, copy-Copied}

read_arguments-append :
    (k n : ℕ) (cells later : List VmCode) (operands : List ℕ)
    → read_arguments k n cells ≡ some operands
    → read_arguments k n (cells ++ later) ≡ some operands
unfolding read_arguments
read_arguments-append k zero cells later operands h = h
read_arguments-append k (suc n) [] later operands h = cc
read_arguments-append k (suc n) (cell ∷ cells) later operands h =
    elim (Option-cases (read_arguments (k + 1) n (cell ∷ cells))) [
      | inl e ↦ ground (arith, read_arguments-append 0 (suc n) cells later operands)
      | inr (r, e) ↦ ground (
        arith,
        read_arguments-append 0 (suc n) cells later operands,
        read_arguments-append (k + 1) n (cell ∷ cells) later r e,
      )
    ]

drop-append : (xs ys : List VmCode) → drop (length xs) (xs ++ ys) ≡ ys
drop-append [] ys = refl
drop-append (x ∷ xs) ys = drop-append xs ys

cells-behind :
    (fn : ℕ) (f : Function) (st : State) (before cells : List VmCode)
    → function_at fn st ≡ ok f
    → f.code ≡ before ++ cells
    → cells_from (some (record { fn = fn; at = length before })) st ≡ ok cells
unfolding cells_from
cells-behind fn f st before cells hf hc = rw (hf, hc) (ap ok (drop-append before cells))

-- Where a process stands on a message that `GenProcessMessage` wrote, with other code in front of
-- it and behind, and whose arguments fit an operand, `CopyMessageArgs` takes exactly those
-- arguments from the frame, in their order, within the fuel that `ProcessMessage` gives it; it
-- fails only where the frame does not hold one of them.
pub message_arguments-arrive :
    (process call fn : ℕ) (arguments : List ℕ) (e e' : Emitter) (f : Function) (st : State)
    (later : List VmCode)
    → AllFit arguments
    → gen_process_message process call arguments e ≡ some e'
    → function_at fn st ≡ ok f
    → f.code ≡ e'.code ++ later
    → st.process.ip ≡ some (record { fn = fn; at = length e.code })
    → (m : ℕ) × (copy_message_args (length arguments + length arguments + 1) 2 (length arguments) st
        ≡ (load_all arguments st >>= Loaded (advance m st)))
unfolding Copied
message_arguments-arrive process call fn arguments e e' f st later fit gen hf hc ip =
    let (e'', gen', c) = gen_process_message-Calls arguments e fit process call in
    let same : e'' ≡ e' = cc in
    let code : f.code ≡ e.code ++ (c.cell ∷ c.rest ++ later) =
      hc
      ∙ ap (λ x. x.code ++ later) (sym same)
      ∙ ap (λ x. x ++ later) c.appended
      ∙ append_assoc e.code (c.cell ∷ c.rest) later in
    let n = length arguments in
    copy-Copied (n + n + 1) 2 n st (c.cell ∷ c.rest ++ later) arguments
      (subst (λ p. cells_from p st ≡ ok (c.cell ∷ c.rest ++ later)) (sym ip)
        (cells-behind fn f st e.code _ hf code))
      (read_arguments-append 2 n (c.cell ∷ c.rest) later arguments c.reads) (ground arith)
      (ground arith) (omega arith)

-- Where a function stands on a call that `GenFunctionCall` wrote, with other code in front of it and
-- behind, and whose arguments fit an operand, and the callee, which is no constructor, has as many
-- parameters and a frame above the arguments: `PushArgs`, where it succeeds, gives each parameter of
-- the callee what the frame of the caller held at the argument, and changes nothing below the frame
-- of the callee and nothing else of the state.
pub call_arguments-arrive :
    (call fn : ℕ) (arguments : List ℕ) (e e' : Emitter) (f callee : Function) (src old_size : ℕ)
    (st st' : State) (later : List VmCode) (i operand j : ℕ)
    → AllFit arguments
    → gen_function_call call arguments e ≡ some e'
    → function_at fn st ≡ ok f
    → f.code ≡ e'.code ++ later
    → callee.is_constructor ≡ false
    → parameter_count callee ≡ length arguments
    → AllBelow src st.process.stack.stack_base arguments
    → get_elem? arguments i ≡ some operand
    → j < st.process.stack.stack_base
    → push_call_args callee (some (record { fn = fn; at = length e.code })) src old_size st ≡ ok st'
    → (holds st' (st.process.stack.stack_base + i) ≡ holds st (src + operand))
      × (holds st' j ≡ holds st j)
      × (st' ≡ with_stack (record (st.process.stack) { memory = st'.process.stack.memory }) st)
unfolding first_parameter first_operand
call_arguments-arrive call fn arguments e e' f callee src old_size st st' later i operand j fit gen
      hf hc plain count below at l ran =
    let (e'', gen', c) = gen_function_call-Calls arguments e fit call in
    let same : e'' ≡ e' = cc in
    let code : f.code ≡ e.code ++ (c.cell ∷ c.rest ++ later) =
      hc
      ∙ ap (λ x. x.code ++ later) (sym same)
      ∙ ap (λ x. x ++ later) c.appended
      ∙ append_assoc e.code (c.cell ∷ c.rest) later in
    let base : first_parameter callee st ≡ st.process.stack.stack_base = rw plain refl in
    let reads : read_arguments (first_operand callee) (parameter_count callee)
          (c.cell ∷ c.rest ++ later)
        ≡ some arguments =
      rw (plain, count)
        (read_arguments-append 1 (length arguments) (c.cell ∷ c.rest) later arguments c.reads) in
    subst
      (λ b.
        (holds st' (b + i) ≡ holds st (src + operand))
        × (holds st' j ≡ holds st j)
        × (st' ≡ with_stack (record (st.process.stack) { memory = st'.process.stack.memory }) st))
      base
      (push_call_args-arrive callee (some (record { fn = fn; at = length e.code })) src old_size st
        st' (c.cell ∷ c.rest ++ later) arguments i operand j (cells-behind fn f st e.code _ hf code)
        reads (subst (λ b. AllBelow src b arguments) (sym base) below) at
        (subst (λ b. j < b) (sym base) l) ran)
