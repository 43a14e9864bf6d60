-- ===== src/Machine/Calls/Parameters.antt =====
-- The arguments of a call, as `PushArgs` of inc/eople_core.h copies them.
use eople.Base.{
  ℕ, zero, suc, ◌+◌, ◌<◌, ◌≡◌, sym, ap, ◌∙◌, List, [], ◌∷◌, Option, some, ◌==◌, Bool-cases, inl,
  inr, subst, arith, length, get_elem?, set, ltb, get_elem?-set_self, get_elem?-set_ne,
}
use eople.Machine.Result.{Result, ok, ◌>>=◌, ◌>>◌, or_fault, >>=-eq-ok, wild_access, check}
use eople.Machine.Object.{Object}
use eople.Code.{VmCode, read_arguments}
use eople.Machine.Stack.{ProcessStack, Function, parameter_count, copy_arguments, load}
use eople.Machine.State.{State, CodePtr, with_stack}
use eople.Machine.Binop.Frame.{holds}
use eople.Machine.Calls.{push_call_args, cells_from, first_parameter, first_operand}

-- Every argument is read from below an address.
abbrev pub AllBelow : ℕ → ℕ → List ℕ → Type 0
AllBelow src dest operands =
    (i operand : ℕ) → get_elem? operands i ≡ some operand → src + operand < dest

set_below :
    (memory : List Object) (a : Object) (dest j : ℕ)
    → j < dest
    → get_elem? (set memory dest a) j ≡ get_elem? memory j
set_below memory a dest j l = get_elem?-set_ne memory a (λ e. absurd (omega arith))

copy_arguments-cons :
    (src dest operand : ℕ) (operands : List ℕ) (s t : ProcessStack)
    → copy_arguments src dest (operand ∷ operands) s ≡ ok t
    → (a : Object) × (get_elem? s.memory (src + operand) ≡ some a)
      × (dest < length s.memory)
      × (copy_arguments src (dest + 1) operands (record s { memory = set s.memory dest a }) ≡ ok t)
unfolding copy_arguments
copy_arguments-cons src dest operand operands s t h =
    let (a, ea, h₁) = >>=-eq-ok (load (src + operand) s.memory) _ h in
    let (_, ec, h₂) = >>=-eq-ok (check (ltb dest (length s.memory)) wild_access) _ h₁ in
    (a, ground arith, ground arith, h₂)

copy_arguments-below :
    (src dest : ℕ) (operands : List ℕ) (s t : ProcessStack) (j : ℕ)
    → copy_arguments src dest operands s ≡ ok t
    → j < dest
    → get_elem? t.memory j ≡ get_elem? s.memory j
unfolding copy_arguments
copy_arguments-below src dest [] s t j h l = ap (λ m. get_elem? m j) (same s t h)
  where
    same : (s t : ProcessStack) → ◌≡◌ {A = Result ProcessStack} (ok s) (ok t) → t.memory ≡ s.memory
    same s t e = cc
copy_arguments-below src dest (operand ∷ operands) s t j h l =
    let (a, ea, room, rest) = copy_arguments-cons src dest operand operands s t h in
    copy_arguments-below src (dest + 1) operands _ t j rest (omega arith)
    ∙ set_below s.memory a dest j l

arrive :
    (src dest : ℕ) (operands : List ℕ) (s t : ProcessStack) (i operand : ℕ)
    → copy_arguments src dest operands s ≡ ok t
    → AllBelow src dest operands
    → get_elem? operands i ≡ some operand
    → get_elem? t.memory (dest + i) ≡ get_elem? s.memory (src + operand)
arrive src dest [] s t i o h below e = absurd (cc)
arrive src dest (operand ∷ operands) s t zero o h below e =
    let (a, ea, room, rest) = copy_arguments-cons src dest operand operands s t h in
    let here : dest + 0 ≡ dest = omega arith in
    let same : o ≡ operand = cc in
    ap (get_elem? t.memory) here
    ∙ copy_arguments-below src (dest + 1) operands _ t dest rest (omega arith)
    ∙ get_elem?-set_self s.memory dest a room
    ∙ sym ea
    ∙ ap (λ x. get_elem? s.memory (src + x)) (sym same)
arrive src dest (operand ∷ operands) s t (suc i) o h below e =
    let (a, ea, room, rest) = copy_arguments-cons src dest operand operands s t h in
    let there : dest + suc i ≡ dest + 1 + i = omega arith in
    ap (get_elem? t.memory) there
    ∙ arrive src (dest + 1) operands _ t i o rest (λ k x q. raised (below (suc k) x q)) e
    ∙ set_below s.memory a dest (src + o) (below (suc i) o e)
  where
    raised : {x y : ℕ} → x < y → x < y + 1
    raised l = omega arith

copy_arguments-rest :
    (src dest : ℕ) (operands : List ℕ) (s t : ProcessStack)
    → copy_arguments src dest operands s ≡ ok t
    → t ≡ record s { memory = t.memory }
unfolding copy_arguments
copy_arguments-rest src dest [] s t h = go s t h
  where
    go :
        (s t : ProcessStack)
        → ◌≡◌ {A = Result ProcessStack} (ok s) (ok t)
        → t ≡ record s { memory = t.memory }
    go s t e = cc
copy_arguments-rest src dest (operand ∷ operands) s t h =
    let (a, ea, room, rest) = copy_arguments-cons src dest operand operands s t h in
    copy_arguments-rest src (dest + 1) operands _ t rest

no_arguments :
    (k n : ℕ) (cells : List VmCode) (operands : List ℕ) (i operand : ℕ)
    → n ≡ 0
    → read_arguments k n cells ≡ some operands
    → get_elem? operands i ≡ some operand
    → ⊥
unfolding read_arguments
no_arguments k zero cells operands i operand e h at =
    let nothing : operands ≡ [] = cc in
    none_of i operand (ap (λ l. get_elem? l i) (sym nothing) ∙ at)
  where
    none_of : (i operand : ℕ) → get_elem? [] i ≡ some operand → ⊥
    none_of zero operand h = cc
    none_of (suc i) operand h = cc
no_arguments k (suc n) cells operands i operand e h at = omega arith

-- A call that pushes an argument has copied all of them.
pushed :
    (f : Function) (caller_ip : Option CodePtr) (src old_size : ℕ) (st st' : State)
    → (cells : List VmCode) (operands : List ℕ) (i operand : ℕ) → cells_from caller_ip st ≡ ok cells
    → read_arguments (first_operand f) (parameter_count f) cells ≡ some operands
    → get_elem? operands i ≡ some operand
    → push_call_args f caller_ip src old_size st ≡ ok st'
    → (s : ProcessStack) × (copy_arguments src (first_parameter f st) operands st.process.stack
        ≡ ok s)
      × (st' ≡ with_stack s st)
unfolding push_call_args
pushed f caller_ip src old_size st st' cells operands i operand hc ho at h =
    elim (Bool-cases (parameter_count f == 0)) [
      | inl none_left ↦ absurd (
          no_arguments (first_operand f) (parameter_count f) cells operands i operand (ground arith)
            ho at)
      | inr some_left ↦
          let h₀ : (check (length st.process.stack.memory == old_size) wild_access
                >> (copy_arguments src (first_parameter f st) operands st.process.stack >>= λ s.
                    ok (with_stack s st)))
              ≡ ok st' =
            rw (some_left, hc, ho, or_fault) at h in
          let (_, _, h₁) =
            >>=-eq-ok (check (length st.process.stack.memory == old_size) wild_access)
              (λ _. copy_arguments src (first_parameter f st) operands st.process.stack >>= λ s.
                ok (with_stack s st))
              h₀ in
          let (s, copied, last) =
            >>=-eq-ok (copy_arguments src (first_parameter f st) operands st.process.stack)
              (λ s. ok (with_stack s st)) h₁ in
          (s, copied, same_state last)
    ]
  where
    same_state : {s s' : State} → ◌≡◌ {A = Result State} (ok s) (ok s') → s' ≡ s
    same_state e = cc

Arrives : Function → ℕ → State → ℕ → ℕ → ℕ → State → Type 0
Arrives f src st i operand j st' =
    (holds st' (first_parameter f st + i) ≡ holds st (src + operand))
    × (holds st' j ≡ holds st j)
    × (st' ≡ with_stack (record (st.process.stack) { memory = st'.process.stack.memory }) st)

pub push_call_args-arrive :
    (f : Function) (caller_ip : Option CodePtr) (src old_size : ℕ) (st st' : State)
    → (cells : List VmCode) (operands : List ℕ) (i operand j : ℕ)
    → cells_from caller_ip st ≡ ok cells
    → read_arguments (first_operand f) (parameter_count f) cells ≡ some operands
    → AllBelow src (first_parameter f st) operands
    → get_elem? operands i ≡ some operand
    → j < first_parameter f st
    → push_call_args f caller_ip src old_size st ≡ ok st'
    → (holds st' (first_parameter f st + i) ≡ holds st (src + operand))
      × (holds st' j ≡ holds st j)
      × (st' ≡ with_stack (record (st.process.stack) { memory = st'.process.stack.memory }) st)
unfolding Arrives
push_call_args-arrive f caller_ip src old_size st st' cells operands i operand j hc ho below at l
      h =
    let (s, copied, e) =
      pushed f caller_ip src old_size st st' cells operands i operand hc ho at h in
    let kept = copy_arguments-rest src (first_parameter f st) operands st.process.stack s copied in
    subst (Arrives f src st i operand j) (sym e) (
      arrive src (first_parameter f st) operands st.process.stack s i operand copied below at,
      copy_arguments-below src (first_parameter f st) operands st.process.stack s j copied l,
      ap (λ t. with_stack t st) kept,
    )
