-- ===== src/Generator/Meaning/Runs.antt =====
-- Runs of the cells of operators by the counted loops of src/eople_control_flow.cpp.
use native.Mathlib.Nat.{zero-add}
use Prim.Native.Nat.add
use eople.Base.{
  ℕ, zero, suc, ◌+◌, ◌≡◌, refl, ap, ◌∙◌, true, List, some, arith, length, get_elem?, set, ltb,
  get_elem?-lt,
}
use eople.Opcodes.{Instruction, instruction}
use eople.Code.{VmCode, operand_at}
use eople.Machine.Result.{ok, >>=-eq-ok}
use eople.Machine.Object.{Object}
use eople.Machine.Stack.{Function, get_object_at_offset, push_object_at_offset}
use eople.Machine.State.{
  State, Step, CodePtr, function_at, code_at, current, operand, operand_index, update_at,
  update_operand, advance,
}
use eople.Machine.Binop.{Operation, FloatOps, three_operands}
use eople.Machine.Exec.{simple, perform, execute}
use eople.Machine.Loops.{Exec, run_cell, run_counted}

-- A state with another instruction pointer and other memory.
abbrev pub placed : CodePtr → List Object → State → State
placed p memory st = record st {
  process = record (st.process) {
    ip = some p;
    stack = record (st.process.stack) { memory = memory };
  };
}

abbrev pub forth : ℕ → CodePtr → CodePtr
forth n p = record p { at = p.at + n }

-- `n` cells from an instruction pointer on take one memory to another, and no more happens.
abbrev pub Runs : Exec → State → CodePtr → ℕ → List Object → List Object → Type 0
Runs exec st p n memory memory' =
    run_counted exec (some p) n (placed p memory st) ≡ ok (placed (forth n p) memory' st)

forth-zero : (p : CodePtr) → forth 0 p ≡ p
forth-zero p = let e : p.at + 0 ≡ p.at = omega arith in ap (λ a. record p { at = a }) e

pub forth-forth : (m n : ℕ) (p : CodePtr) → forth n (forth m p) ≡ forth (m + n) p
forth-forth m n p =
    let e : p.at + m + n ≡ p.at + (m + n) = omega arith in ap (λ a. record p { at = a }) e

forth-one : (m : ℕ) (p : CodePtr) → forth m (forth 1 p) ≡ forth (suc m) p
forth-one m p = let e : p.at + 1 + m ≡ p.at + suc m = omega arith in ap (λ a. record p { at = a }) e

run_counted-append :
    (exec : Exec) (m n : ℕ) (p : CodePtr) (st st' : State)
    → run_counted exec (some p) m st ≡ ok st'
    → run_counted exec (some p) (m + n) st ≡ run_counted exec (some (forth m p)) n st'
unfolding run_counted
run_counted-append exec zero n p st st' h =
    let same : st ≡ st' = ground arith in
    rw (zero-add, forth-zero p) (ap (run_counted exec (some p) n) same)
run_counted-append exec (suc m) n p st st' h =
    let ((st₁, more), here, later) = >>=-eq-ok (run_cell exec (some p) st) _ h in
    rw (add.suc m n, here, run_counted)
      (run_counted-append exec m n (forth 1 p) (advance 1 st₁) st' later
        ∙ ap (λ q. run_counted exec (some q) n st') (forth-one m p))

-- Two runs, the second from where the first one ends.
pub Runs-append :
    (exec : Exec) (st : State) (p : CodePtr) (m n : ℕ) (memory memory' memory'' : List Object)
    → Runs exec st p m memory memory'
    → Runs exec st (forth m p) n memory' memory''
    → Runs exec st p (m + n) memory memory''
Runs-append exec st p m n memory memory' memory'' first later =
    run_counted-append exec m n p _ _ first
    ∙ later
    ∙ ap (λ q. ok (placed q memory'' st)) (forth-forth m n p)

current-placed :
    (p : CodePtr) (f : Function) (cell : VmCode) (memory : List Object) (st : State)
    → function_at p.fn st ≡ ok f
    → get_elem? f.code p.at ≡ some cell
    → current (placed p memory st) ≡ ok cell
unfolding current code_at function_at
current-placed p f cell memory st hf hc = let same = found p.fn in rw (same, hf, hc) refl
  where
    found : (fn : ℕ) → function_at fn (placed p memory st) ≡ function_at fn st
    found zero = refl
    found (suc fn) = refl

operand-held :
    (k : ℕ) (cell : VmCode) (o : Object) (st : State)
    → current st ≡ ok cell
    → get_elem? st.process.stack.memory (st.process.stack.stack_base + operand_at k cell) ≡ some o
    → operand k st ≡ ok o
unfolding operand operand_index get_object_at_offset
operand-held k cell o st hc ho = rw (hc, ho) refl

update_third :
    (p : CodePtr) (cell : VmCode) (old : Object) (write : Object → Object) (memory : List Object)
    (st : State)
    → current (placed p memory st) ≡ ok cell
    → get_elem? memory (st.process.stack.stack_base + cell.c) ≡ some old
    → update_operand 2 write (placed p memory st)
      ≡ ok (placed p (set memory (st.process.stack.stack_base + cell.c) (write old)) st)
unfolding update_operand operand_index update_at get_object_at_offset push_object_at_offset
    operand_at
update_third p cell old write memory st hc ho =
    let inside = get_elem?-lt memory (st.process.stack.stack_base + cell.c) ho in
    let test : ltb (st.process.stack.stack_base + cell.c) (length memory) ≡ true = ground arith in
    rw (hc, operand_at, ho, test) refl

module _ (fops : FloatOps) (others : Exec) (fuel : ℕ) (st : State) where
  execute-simple :
      (i : Instruction) (run : State → Step)
      → simple fops i ≡ some run
      → execute fops others (suc fuel) (instruction i) st ≡ run st
  unfolding execute perform
  execute-simple i run h = rw (h, perform) refl

three_operands-runs :
    (op : Operation) (a b : Object) (write : Object → Object) (st st' : State)
    → operand 0 st ≡ ok a
    → operand 1 st ≡ ok b
    → op a b ≡ ok write
    → update_operand 2 write st ≡ ok st'
    → three_operands op st ≡ ok (st', true)
unfolding three_operands
three_operands-runs op a b write st st' ha hb ho hw = rw (ha, hb, ho, hw) refl

run_counted-one :
    (exec : Exec) (p : CodePtr) (cell : VmCode) (i : Instruction) (st st' : State)
    → code_at (some p) st ≡ ok cell
    → cell.instruction ≡ some (instruction i)
    → exec (instruction i) st ≡ ok (st', true)
    → run_counted exec (some p) 1 st ≡ ok (advance 1 st')
unfolding run_counted run_cell
run_counted-one exec p cell i st st' hc hi he = rw (hc, hi, he) refl

module _ (fops : FloatOps) (others : Exec) (fuel : ℕ) (st : State) where
  -- The operator's cell at the instruction pointer.
  pub operator-Runs :
      (p : CodePtr) (f : Function) (cell : VmCode) (i : Instruction) (op : Operation)
      (memory : List Object) (a b old : Object) (write : Object → Object)
      → function_at p.fn st ≡ ok f
      → get_elem? f.code p.at ≡ some cell
      → cell.instruction ≡ some (instruction i)
      → simple fops i ≡ some (three_operands op)
      → get_elem? memory (st.process.stack.stack_base + cell.a) ≡ some a
      → get_elem? memory (st.process.stack.stack_base + cell.b) ≡ some b
      → op a b ≡ ok write
      → get_elem? memory (st.process.stack.stack_base + cell.c) ≡ some old
      → Runs
          (execute fops others (suc fuel))
          st
          p
          1
          memory
          (set memory (st.process.stack.stack_base + cell.c) (write old))
  unfolding operand_at advance current
  operator-Runs p f cell i op memory a b old write hf hc hi hs ha hb ho hd =
      let here = current-placed p f cell memory st hf hc in
      let reads_a = operand-held 0 cell a (placed p memory st) here ha in
      let reads_b = operand-held 1 cell b (placed p memory st) here hb in
      let writes = update_third p cell old write memory st here hd in
      run_counted-one (execute fops others (suc fuel)) p cell i (placed p memory st) _ here hi (
        execute-simple fops others fuel (placed p memory st) i (three_operands op) hs
        ∙ three_operands-runs op a b write (placed p memory st) _ reads_a reads_b ho writes)
