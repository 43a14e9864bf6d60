-- ===== src/Machine/Exec/Straight.antt =====
-- Bodies of instructions that move on by one cell: the arithmetic, comparisons and bit operations of
-- src/eople_binop.cpp and `Store`. The loops of src/eople_control_flow.cpp may run such a body by a
-- counter or by the instruction pointer.
use eople.Base.{
  ℕ, zero, suc, ◌+◌, ◌<◌, ◌≡◌, refl, sym, ap, subst, ◌∙◌, Bool, true, false, Option, none, some,
  arith, ◌⊎◌, inl, inr,
}
use eople.Code.{VmCode}
use eople.Machine.Object.{Object}
use eople.Opcodes.{Instruction, InstructionImpl, instruction}
use eople.Machine.Result.{Result, ok, ◌>>=◌, >>=-eq-ok, or_fault, null_pointer}
use eople.Machine.State.{
  State, Step, CodePtr, code_at, advance, ahead, function_at, operand, operand_index, update_at,
  update_operand,
}
use eople.Machine.Binop.{Operation, FloatOps, three_operands, store}
use eople.Machine.Binop.Frame.{three_operands-Ran, update_at-eq}
use eople.Machine.Loops.{Exec, run_cell, run_counted, run_until, is_at}
use eople.Machine.Loops.Counted.{
  >>=-cong, is_at-here, is_at-later, advance-ip, ahead-ahead, run_until-end, run_until-step,
}
use eople.Machine.Exec.{execute, perform, simple}

-- A cell with an instruction of three operands, or with `Store`.
abbrev pub IsStraight : FloatOps → VmCode → Type 0
IsStraight fops cell =
    (i : Instruction) × (cell.instruction ≡ some (instruction i))
    × (((f : Operation) × (simple fops i ≡ some (three_operands f))) ⊎ (simple fops i ≡ some store))

-- The `n` cells from an address on are such cells.
abbrev pub Straight : FloatOps → ℕ → CodePtr → State → Type 0
Straight fops n p st =
    (k : ℕ) (cell : VmCode)
    → k < n
    → code_at (some (record p { at = p.at + k })) st ≡ ok cell
    → IsStraight fops cell

-- The same place in the same program.
abbrev pub SamePlace : State → State → Type 0
SamePlace st st' = (st'.process.ip ≡ st.process.ip) × (st'.functions ≡ st.functions)

pub update_at-SamePlace :
    (offset : ℕ) (g : Object → Object) (st st' : State)
    → update_at offset g st ≡ ok st'
    → SamePlace st st'
update_at-SamePlace offset g st st' h =
    let (o, _, e) = update_at-eq offset g st h in
    (ap (λ s. s.process.ip) e, ap (λ s. s.functions) e)

store-SamePlace : (st st' : State) (more : Bool) → store st ≡ ok (st', more) → SamePlace st st'
unfolding store update_operand
store-SamePlace st st' more h =
    let (source, _, h₁) = >>=-eq-ok (operand 1 st) _ h in
    let (u, eu, h₂) = >>=-eq-ok (update_operand 0 (λ _. source) st) _ h₁ in
    let (offset, _, eo) = >>=-eq-ok (operand_index 0 st) _ eu in
    let (o, _, e) = update_at-eq offset (λ _. source) st eo in
    let stays : SamePlace st u = (ap (λ s. s.process.ip) e, ap (λ s. s.functions) e) in
    subst (SamePlace st) (same h₂) stays
  where
    same : {u st' : State} {more : Bool} → ◌≡◌ {A = Step} (ok (u, true)) (ok (st', more)) → u ≡ st'
    same e = cc

three_operands-SamePlace :
    (f : Operation) (st st' : State) (more : Bool)
    → three_operands f st ≡ ok (st', more)
    → SamePlace st st'
three_operands-SamePlace f st st' more h =
    let (_, r) = three_operands-Ran f st st' more h in
    (ap (λ s. s.process.ip) r.result, ap (λ s. s.functions) r.result)

function_at-functions :
    (fn : ℕ) (st st' : State)
    → st'.functions ≡ st.functions
    → function_at fn st' ≡ function_at fn st
unfolding function_at
function_at-functions zero st st' e = refl
function_at-functions (suc fn) st st' e = rw e refl

code_at-functions :
    (p : CodePtr) (st st' : State)
    → st'.functions ≡ st.functions
    → code_at (some p) st' ≡ code_at (some p) st
unfolding code_at function_at
code_at-functions p st st' e = rw (function_at-functions p.fn st st' e) refl

pub Straight-same :
    (fops : FloatOps) (n : ℕ) (p : CodePtr) (st st' : State)
    → st'.functions ≡ st.functions
    → Straight fops n p st
    → Straight fops n p st'
Straight-same fops n p st st' e h k cell l at = h k cell l (sym (code_at-functions _ st st' e) ∙ at)

Straight-first :
    (fops : FloatOps) (n : ℕ) (p : CodePtr) (st : State)
    → Straight fops (suc n) p st
    → (cell : VmCode) → code_at (some p) st ≡ ok cell
    → IsStraight fops cell
Straight-first fops n p st h cell at =
    h 0 cell (omega arith) (ap (λ q. code_at (some q) st) (plus_zero p) ∙ at)
  where
    plus_zero : (p : CodePtr) → record p { at = p.at + 0 } ≡ p
    plus_zero p = ap (λ a. record p { at = a }) (omega arith)

Straight-rest :
    (fops : FloatOps) (n : ℕ) (p : CodePtr) (st st' : State)
    → st'.functions ≡ st.functions
    → Straight fops (suc n) p st
    → Straight fops n (record p { at = p.at + 1 }) st'
Straight-rest fops n p st st' e h k cell l at = h (suc k) cell (omega arith) (
    ap (λ a. code_at (some (record p { at = a })) st) (omega arith)
    ∙ sym (code_at-functions _ st st' e)
    ∙ at)

advance-functions : (n : ℕ) (st : State) → (advance n st).functions ≡ st.functions
unfolding advance
advance-functions n st = refl

execute-run :
    (fops : FloatOps) (others : Exec) (fuel : ℕ) (i : Instruction) (run : State → Step)
    → (st st' : State) (more : Bool) → simple fops i ≡ some run
    → execute fops others fuel (instruction i) st ≡ ok (st', more)
    → run st ≡ ok (st', more)
unfolding execute perform
execute-run fops others zero i run st st' more h e = cc
execute-run fops others (suc fuel) i run st st' more h e =
    let same : run st ≡ execute fops others (suc fuel) (instruction i) st =
      sym (rw (h, perform) refl) in
    same ∙ e

module _ (fops : FloatOps) (others : Exec) (fuel : ℕ) where
  execute-SamePlace :
      (i : Instruction) (st st' : State) (more : Bool)
      → ((f : Operation) × (simple fops i ≡ some (three_operands f))) ⊎ (simple fops i ≡ some store)
      → execute fops others fuel (instruction i) st ≡ ok (st', more)
      → SamePlace st st'
  execute-SamePlace i st st' more (inl (f, h)) e =
      three_operands-SamePlace f st st' more
        (execute-run fops others fuel i (three_operands f) st st' more h e)
  execute-SamePlace i st st' more (inr h) e =
      store-SamePlace st st' more (execute-run fops others fuel i store st st' more h e)

  run_cell-SamePlace :
      (p : CodePtr) (st st' : State) (more : Bool)
      → ((cell : VmCode) → code_at (some p) st ≡ ok cell → IsStraight fops cell)
      → run_cell (execute fops others fuel) (some p) st ≡ ok (st', more)
      → SamePlace st st'
  unfolding run_cell
  run_cell-SamePlace p st st' more straight h =
      let (cell, at, h₁) = >>=-eq-ok (code_at (some p) st) _ h in
      let (impl, ei, h₂) = >>=-eq-ok (or_fault null_pointer cell.instruction) _ h₁ in
      let (i, hi, how) = straight cell at in
      let same : impl ≡ instruction i = same_impl (cell.instruction) impl i ei hi in
      execute-SamePlace i st st' more how
        (subst (λ x. execute fops others fuel x st ≡ ok (st', more)) same h₂)
    where
      same_impl :
          (o : Option InstructionImpl) (impl : InstructionImpl) (i : Instruction)
          → or_fault null_pointer o ≡ ok impl
          → o ≡ some (instruction i)
          → impl ≡ instruction i
      same_impl none impl i h g = cc
      same_impl (some x) impl i h g = cc

  pub run_counted-run_until :
      (n limit : ℕ) (p : CodePtr) (st : State)
      → n < limit
      → Straight fops n p st
      → st.process.ip ≡ some p
      → run_counted (execute fops others fuel) (some p) n st
        ≡ run_until (execute fops others fuel) limit (ahead n (some p)) st
  unfolding run_counted
  run_counted-run_until n zero p st l straight e = absurd (omega arith)
  run_counted-run_until zero (suc limit) p st l straight e = sym (
      run_until-end (execute fops others fuel) limit _ st
        (subst (λ q. is_at q (ahead 0 (some p)) ≡ true) (sym e) (is_at-here p)))
  run_counted-run_until (suc n) (suc limit) p st l straight e =
      let exec : Exec = execute fops others fuel in
      let p' : CodePtr = record p { at = p.at + 1 } in
      let end = ahead (suc n) (some p) in
      let later : is_at st.process.ip end ≡ false =
        subst (λ q. is_at q end ≡ false) (sym e) (is_at-later p n) in
      let here : run_until exec (suc limit) end st
          ≡ (run_cell exec (some p) st >>= λ r. run_until exec limit end (advance 1 r.0)) =
        run_until-step exec limit end st later
        ∙ ap (λ q. run_cell exec q st >>= λ r. run_until exec limit end (advance 1 r.0)) e in
      >>=-cong (run_cell exec (some p) st) _ _ (λ (st', more) h.
        let (ip_same, functions_same) =
          run_cell-SamePlace p st st' more (Straight-first fops n p st straight) h in
        let ip' : (advance 1 st').process.ip ≡ some p' =
          advance-ip 1 st' ∙ ap (ahead 1) (ip_same ∙ e) in
        let program = advance-functions 1 st' ∙ functions_same in
        run_counted-run_until n limit p' (advance 1 st') (omega arith)
          (Straight-rest fops n p st (advance 1 st') program straight) ip'
        ∙ ap (λ end. run_until exec limit end (advance 1 st')) (ahead-ahead n p))
      ∙ sym here

  -- Such a body leaves the program as it is.
  pub run_counted-functions :
      (n : ℕ) (p : CodePtr) (st st' : State)
      → Straight fops n p st
      → run_counted (execute fops others fuel) (some p) n st ≡ ok st'
      → st'.functions ≡ st.functions
  unfolding run_counted
  run_counted-functions zero p st st' straight h = same st st' h
    where
      same :
          (st st' : State) → ◌≡◌ {A = Result State} (ok st) (ok st') → st'.functions ≡ st.functions
      same st st' h = cc
  run_counted-functions (suc n) p st st' straight h =
      let ((u, more), eu, rest) = >>=-eq-ok (run_cell (execute fops others fuel) (some p) st) _ h in
      let (_, same) = run_cell-SamePlace p st u more (Straight-first fops n p st straight) eu in
      let program = advance-functions 1 u ∙ same in
      run_counted-functions n (record p { at = p.at + 1 }) (advance 1 u) st'
        (Straight-rest fops n p st (advance 1 u) program straight) rest
      ∙ program
