-- ===== src/Machine/Calls/Cells.antt =====
-- The cells of the code behind the instruction pointer, as the instructions of
-- src/eople_control_flow.cpp step over them.
use eople.Base.{
  ℕ, zero, suc, ◌+◌, ◌≡◌, refl, ap, ◌∙◌, List, [], ◌∷◌, Option, none, some, arith, get_elem?, drop,
}
use eople.Code.{VmCode, operand_at}
use eople.Machine.Result.{Result, ok, >>=-eq-ok}
use eople.Machine.Stack.{get_object_at_offset}
use eople.Machine.State.{
  State, CodePtr, operand, operand_index, current, code_at, function_at, advance, ahead,
}
use eople.Machine.Calls.{cells_from}

drop-cons :
    {A : Type 0} (xs : List A) (n : ℕ) {c : A} {cs : List A}
    → drop n xs ≡ c ∷ cs
    → (get_elem? xs n ≡ some c) × (drop (suc n) xs ≡ cs)
drop-cons [] zero h = absurd (cc)
drop-cons [] (suc n) h = absurd (cc)
drop-cons (x ∷ xs) zero h = (cc, cc)
drop-cons (x ∷ xs) (suc n) h = drop-cons xs n h

pub advance-ip : (st : State) → (advance 1 st).process.ip ≡ ahead 1 st.process.ip
unfolding advance
advance-ip st = refl

ok_inj : {A : Type 0} {a b : A} → ◌≡◌ {A = Result A} (ok a) (ok b) → a ≡ b
ok_inj h = cc

cells-cons :
    (p : Option CodePtr) (st : State) {c : VmCode} {cs : List VmCode}
    → cells_from p st ≡ ok (c ∷ cs)
    → (code_at p st ≡ ok c) × (cells_from (ahead 1 p) st ≡ ok cs)
unfolding cells_from code_at
cells-cons none st h = absurd (cc)
cells-cons (some p) st h =
    let (f, ef, e) = >>=-eq-ok (function_at p.fn st) _ h in
    let (here, rest) = drop-cons f.code p.at (ok_inj e) in
    let n : p.at + 1 ≡ suc p.at = omega arith in (rw (ef, here) refl, rw ef (ap ok (rw n rest)))

pub function_at-advance : (fn : ℕ) (st : State) → function_at fn (advance 1 st) ≡ function_at fn st
unfolding function_at advance
function_at-advance zero st = refl
function_at-advance (suc fn) st = refl

cells-advance : (p : Option CodePtr) (st : State) → cells_from p (advance 1 st) ≡ cells_from p st
unfolding cells_from
cells-advance none st = refl
cells-advance (some p) st = rw (function_at-advance p.fn st) refl

pub cells_from-cons :
    (st : State) {c : VmCode} {cs : List VmCode}
    → cells_from st.process.ip st ≡ ok (c ∷ cs)
    → (current st ≡ ok c) × (cells_from (advance 1 st).process.ip (advance 1 st) ≡ ok cs)
unfolding current
cells_from-cons st h =
    let (here, rest) = cells-cons st.process.ip st h in
    (here, cells-advance (advance 1 st).process.ip st ∙ rw (advance-ip st) rest)

pub operand-current :
    (k : ℕ) (st : State) {c : VmCode}
    → current st ≡ ok c
    → operand k st ≡ get_object_at_offset (operand_at k c) st.process.stack
unfolding operand operand_index
operand-current k st h = rw h refl
