-- ===== src/Generator/Growth.antt =====
-- How the emitter of src/eople_vmcode_gen.cpp grows the code of a function.
pub mod Cells
pub mod Calls
pub mod Expressions
pub mod Jumps
pub mod Blocks
pub mod Steps
pub mod Statements
pub mod Conditions
use mathlib.Core.List.{append_assoc}
use eople.Base.{
  ℕ, zero, suc, ◌+◌, ◌≤◌, ◌<◌, ◌≡◌, refl, sym, ap, ◌∙◌, Bool, true, false, List, [], ◌∷◌, ◌++◌,
  Option, none, some, arith, length, take, length-append, Option-cases, inl, inr, ltb, ◌&&◌,
  if◌then◌else◌,
}
use eople.Opcodes.{Opcode, InstructionImpl, opcode_to_instruction}
use eople.Code.{
  VmCode, Emitter, code_of, push_opcode, push_ccall, set_operand, set_last, write_operand,
  push_operand, push_operands, gen_call, gen_function_call, gen_spawn_process, gen_process_message,
}

-- The first `n` cells stay, no cell goes, and the counter counts the cells that are added.
pub record Extends (n : ℕ) (e e' : Emitter) : Type 0 where
  pub kept : take n e'.code ≡ take n e.code
  pub counted : length e'.code + e.opcode_count ≡ length e.code + e'.opcode_count
  pub longer : length e.code ≤ length e'.code

pub Extends-refl : (n : ℕ) (e : Emitter) → Extends n e e
Extends-refl n e = record { kept = refl; counted = refl; longer = omega arith }

pub Extends-trans :
    (n : ℕ) (e e' e'' : Emitter) → Extends n e e' → Extends n e' e'' → Extends n e e''
Extends-trans n e e' e'' p q = record {
  kept = q.kept ∙ p.kept;
  counted = omega (arith, p.counted, q.counted);
  longer = omega (arith, p.longer, q.longer);
}

take-append {ℓ} :
    {A : Type ℓ} (n : ℕ) (xs ys : List A) → n ≤ length xs → take n (xs ++ ys) ≡ take n xs
take-append zero xs ys h = refl
take-append (suc n) [] ys h = absurd (omega arith)
take-append (suc n) (x ∷ xs) ys h = ap (λ t. x ∷ t) (take-append n xs ys (omega arith))

-- A cell at the end.
added :
    (n : ℕ) (e : Emitter) (cell : VmCode) (k : ℕ)
    → n ≤ length e.code
    → Extends n e (record {
      code = e.code ++ cell ∷ [];
      current_operand = k;
      opcode_count = e.opcode_count + 1;
    })
added n e cell k h = record {
  kept = take-append n e.code (cell ∷ []) h;
  counted = omega (arith, length-append e.code (cell ∷ []));
  longer = omega (arith, length-append e.code (cell ∷ []));
}

pub push_opcode-Extends :
    (n : ℕ) (op : Opcode) (e : Emitter) → n ≤ length e.code → Extends n e (push_opcode op e)
unfolding push_opcode
push_opcode-Extends n op e h = added n e (code_of (opcode_to_instruction op)) 0 h

pub push_opcode-length :
    (op : Opcode) (e : Emitter) → length (push_opcode op e).code ≡ length e.code + 1
unfolding push_opcode
push_opcode-length op e =
    omega (arith, length-append e.code (code_of (opcode_to_instruction op) ∷ []))

pub push_ccall-Extends :
    (n : ℕ) (i : InstructionImpl) (e : Emitter) → n ≤ length e.code → Extends n e (push_ccall i e)
unfolding push_ccall
push_ccall-Extends n i e h = added n e (code_of (some i)) 0 h

pub push_ccall-length :
    (i : InstructionImpl) (e : Emitter) → length (push_ccall i e).code ≡ length e.code + 1
unfolding push_ccall
push_ccall-length i e = omega (arith, length-append e.code (code_of (some i) ∷ []))

set_last-one :
    (k x : ℕ) (cell : VmCode) (r : List VmCode)
    → set_last k x (cell ∷ []) ≡ some r
    → (c : VmCode) × (r ≡ c ∷ [])
unfolding set_last
set_last-one k x cell r h = elim (Option-cases (set_operand k x cell)) [
  | inl e ↦ absurd (ground arith)
  | inr (c, e) ↦ (c, ground arith)
]

set_last-more :
    (k x : ℕ) (cell next : VmCode) (cells r : List VmCode)
    → set_last k x (cell ∷ next ∷ cells) ≡ some r
    → (t : List VmCode) × (set_last k x (next ∷ cells) ≡ some t) × (r ≡ cell ∷ t)
unfolding set_last
set_last-more k x cell next cells r h = elim (Option-cases (set_last k x (next ∷ cells))) [
  | inl e ↦ absurd (ground arith)
  | inr (t, e) ↦ (t, e, ground arith)
]

-- A write to the last cell.
set_last-take :
    (k x n : ℕ) (cells r : List VmCode)
    → set_last k x cells ≡ some r
    → n < length cells
    → (take n r ≡ take n cells) × (length r ≡ length cells)
set_last-take k x n [] r h le = absurd (omega arith)
set_last-take k x zero (cell ∷ []) r h le =
    let (c, e) = set_last-one k x cell r h in (refl, ap length e)
set_last-take k x (suc n) (cell ∷ []) r h le = absurd (omega arith)
set_last-take k x zero (cell ∷ next ∷ cells) r h le =
    let (t, e, shape) = set_last-more k x cell next cells r h in
    let (same, long) = set_last-take k x zero (next ∷ cells) t e (omega arith) in
    (refl, ap length shape ∙ ap suc long)
set_last-take k x (suc n) (cell ∷ next ∷ cells) r h le =
    let (t, e, shape) = set_last-more k x cell next cells r h in
    let (same, long) = set_last-take k x n (next ∷ cells) t e (omega arith) in
    (ap (take (suc n)) shape ∙ ap (λ u. cell ∷ u) same, ap length shape ∙ ap suc long)

write_operand-Extends :
    (n x : ℕ) (e e' : Emitter)
    → n < length e.code
    → write_operand x e ≡ some e'
    → Extends n e e' × (length e'.code ≡ length e.code)
unfolding write_operand
write_operand-Extends n x e e' le h = elim (Option-cases (set_last e.current_operand x e.code)) [
  | inl f ↦ absurd (ground arith)
  | inr (r, f) ↦
      let (same, long) = set_last-take e.current_operand x n e.code r f le in
      let shape : record e { code = r; current_operand = e.current_operand + 1 } ≡ e' =
        ground arith in
      rw (← shape)
        (record { kept = same; counted = omega (arith, long); longer = omega (arith, long) }, long)
]

-- Operands go to a cell that is there; further cells may be added for them.
push_operand-Extends :
    (n x : ℕ) (b : Bool) (e e' : Emitter)
    → n < length e.code
    → push_operand x b e ≡ some e'
    → Extends n e e'
unfolding push_operand
push_operand-Extends n x b e e' le h = by_test (ltb 3 e.current_operand && b) h
  where
    by_test :
        (t : Bool)
        → (if t then write_operand x (push_opcode Opcode.nop e) else write_operand x e) ≡ some e'
        → Extends n e e'
    by_test true w =
        let grown = push_opcode-Extends n Opcode.nop e (omega arith) in
        let more = push_opcode-length Opcode.nop e in
        let (wrote, same) =
          write_operand-Extends n x (push_opcode Opcode.nop e) e' (omega (arith, more)) w in
        Extends-trans n e (push_opcode Opcode.nop e) e' grown wrote
    by_test false w = (write_operand-Extends n x e e' le w).0

push_operands-step :
    (x : ℕ) (xs : List ℕ) (b : Bool) (e e' : Emitter)
    → push_operands (x ∷ xs) b e ≡ some e'
    → (e₁ : Emitter) × (push_operand x b e ≡ some e₁) × (push_operands xs b e₁ ≡ some e')
unfolding push_operands
push_operands-step x xs b e e' h = elim (Option-cases (push_operand x b e)) [
  | inl f ↦ absurd (ground arith)
  | inr (e₁, f) ↦ (e₁, f, ground arith)
]

pub push_operands-Extends :
    (n : ℕ) (xs : List ℕ) (b : Bool) (e e' : Emitter)
    → n < length e.code
    → push_operands xs b e ≡ some e'
    → Extends n e e'
unfolding push_operands
push_operands-Extends n [] b e e' le h = ground (arith, Extends-refl n e)
push_operands-Extends n (x ∷ xs) b e e' le h =
    let (e₁, first, later) = push_operands-step x xs b e e' h in
    let grown = push_operand-Extends n x b e e₁ le first in
    Extends-trans n e e₁ e' grown
      (push_operands-Extends n xs b e₁ e' (omega (arith, grown.longer)) later)

-- A cell and its operands: the code is longer than it was.
pub opcode-operands-Adds :
    (n : ℕ) (op : Opcode) (xs : List ℕ) (b : Bool) (e e' : Emitter)
    → n ≤ length e.code
    → push_operands xs b (push_opcode op e) ≡ some e'
    → Extends n e e' × (length e.code < length e'.code)
opcode-operands-Adds n op xs b e e' le h =
    let more = push_opcode-length op e in
    let wrote = push_operands-Extends n xs b (push_opcode op e) e' (omega (arith, more)) h in
    (
      Extends-trans n e (push_opcode op e) e' (push_opcode-Extends n op e le) wrote,
      omega (arith, more, wrote.longer),
    )

gen_call-step :
    (op : Opcode) (first arguments : List ℕ) (e e' : Emitter)
    → gen_call op first arguments e ≡ some e'
    → (e₁ : Emitter) × (push_operands first false (push_opcode op e) ≡ some e₁)
      × (push_operands arguments true e₁ ≡ some e')
unfolding gen_call
gen_call-step op first arguments e e' h =
    elim (Option-cases (push_operands first false (push_opcode op e))) [
      | inl f ↦ absurd (ground arith)
      | inr (e₁, f) ↦ (e₁, f, ground arith)
    ]

pub gen_call-Extends :
    (n : ℕ) (op : Opcode) (first arguments : List ℕ) (e e' : Emitter)
    → n ≤ length e.code
    → gen_call op first arguments e ≡ some e'
    → Extends n e e' × (length e.code < length e'.code)
gen_call-Extends n op first arguments e e' le h =
    let (e₁, leads, later) = gen_call-step op first arguments e e' h in
    let (grown, more) = opcode-operands-Adds n op first false e e₁ le leads in
    let wrote = push_operands-Extends n arguments true e₁ e' (omega arith) later in
    (Extends-trans n e e₁ e' grown wrote, omega (arith, wrote.longer))

pub ccall-Extends :
    (n : ℕ) (i : InstructionImpl) (arguments : List ℕ) (e e' : Emitter)
    → n ≤ length e.code
    → push_operands arguments true (push_ccall i e) ≡ some e'
    → Extends n e e' × (length e.code < length e'.code)
ccall-Extends n i arguments e e' le h =
    let more = push_ccall-length i e in
    let wrote =
      push_operands-Extends n arguments true (push_ccall i e) e' (omega (arith, more)) h in
    (
      Extends-trans n e (push_ccall i e) e' (push_ccall-Extends n i e le) wrote,
      omega (arith, more, wrote.longer),
    )

pub ccall-operand-Extends :
    (n x : ℕ) (i : InstructionImpl) (e e' : Emitter)
    → n ≤ length e.code
    → push_operand x true (push_ccall i e) ≡ some e'
    → Extends n e e'
ccall-operand-Extends n x i e e' le h =
    let more = push_ccall-length i e in
    Extends-trans n e (push_ccall i e) e' (push_ccall-Extends n i e le)
      (push_operand-Extends n x true (push_ccall i e) e' (omega (arith, more)) h)
