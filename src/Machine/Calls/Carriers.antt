-- ===== src/Machine/Calls/Carriers.antt =====
-- What `ExecutionLoop` of inc/eople_vm.h does behind a call whose arguments took more than one cell.
use eople.Base.{
  ℕ, zero, suc, [], ◌+◌, ◌≡◌, refl, sym, ap, ◌∙◌, true, List, ◌∷◌, ◌++◌, some, none, length,
  get_elem?,
}
use eople.Code.{VmCode, Emitter, gen_function_call}
use eople.Code.Carriers.{gen_function_call-NullAt}
use eople.Machine.Result.{ok, err, null_pointer}
use eople.Machine.Stack.{Function}
use eople.Machine.State.{State, code_at, function_at, advance, ahead}
use eople.Machine.Loops.{Exec, run_cell}
use eople.Machine.Calls.{execution_loop}
use eople.Machine.Calls.Cells.{advance-ip, function_at-advance}

get_elem?-before :
    (xs ys : List VmCode) (i : ℕ) {c : VmCode}
    → get_elem? xs i ≡ some c
    → get_elem? (xs ++ ys) i ≡ some c
get_elem?-before [] ys i h = cc
get_elem?-before (x ∷ xs) ys zero h = h
get_elem?-before (x ∷ xs) ys (suc i) h = get_elem?-before xs ys i h

-- A cell with a null implementation cannot be run.
run_cell-null :
    (exec : Exec) (fn i : ℕ) (f : Function) (cell : VmCode) (st : State)
    → function_at fn st ≡ ok f
    → get_elem? f.code i ≡ some cell
    → cell.instruction ≡ none
    → run_cell exec (some (record { fn = fn; at = i })) st ≡ err null_pointer
unfolding run_cell code_at
run_cell-null exec fn i f cell st hf hc hn = rw (hf, hc, hn) refl

execution_loop-next :
    (exec : Exec) (fuel : ℕ) (st st' : State)
    → run_cell exec st.process.ip st ≡ ok (st', true)
    → execution_loop exec (suc fuel) st ≡ execution_loop exec fuel (advance 1 st')
unfolding execution_loop
execution_loop-next exec fuel st st' h = rw h refl

execution_loop-err :
    (exec : Exec) (fuel : ℕ) (st : State)
    → run_cell exec st.process.ip st ≡ err null_pointer
    → execution_loop exec (suc fuel) st ≡ err null_pointer
unfolding execution_loop
execution_loop-err exec fuel st h = rw h refl

-- A function call with four arguments or more, wherever it stands in the code, and whatever its
-- callee does: when the call itself succeeds and the machine is back at its cell, the loop goes on
-- to the next cell and follows a null pointer.
pub function_call-faults :
    (exec : Exec) (fuel fn call x y z w : ℕ) (more : List ℕ) (e e' : Emitter) (f : Function)
    (later : List VmCode) (st st' : State)
    → gen_function_call call (x ∷ y ∷ z ∷ w ∷ more) e ≡ some e'
    → run_cell exec st.process.ip st ≡ ok (st', true)
    → st'.process.ip ≡ some (record { fn = fn; at = length e.code })
    → function_at fn st' ≡ ok f
    → f.code ≡ e'.code ++ later
    → execution_loop exec (suc (suc fuel)) st ≡ err null_pointer
function_call-faults exec fuel fn call x y z w more e e' f later st st' gen ran ip hf hc =
    let (e'', gen', (cell, at, null)) = gen_function_call-NullAt e call x y z w more in
    let same : e'' ≡ e' = cc in
    let at' : get_elem? f.code (length e.code + 1) ≡ some cell =
      ap (λ c. get_elem? c (length e.code + 1)) (hc ∙ ap (λ q. q.code ++ later) (sym same))
      ∙ get_elem?-before e''.code later (length e.code + 1) at in
    let stuck =
      run_cell-null exec fn (length e.code + 1) f cell (advance 1 st')
        (function_at-advance fn st' ∙ hf) at' null in
    execution_loop-next exec (suc fuel) st st' ran
    ∙ execution_loop-err exec fuel (advance 1 st')
        (ap (λ p. run_cell exec p (advance 1 st')) (advance-ip st' ∙ ap (ahead 1) ip) ∙ stuck)
