-- ===== src/Code/Filling.antt =====
-- How the operands of src/eople_vmcode_gen.cpp fill the cells, and how they are read back.
use mathlib.Core.List.{append_assoc}
use eople.Base.{
  ℕ, zero, suc, ◌+◌, ◌<◌, ◌≤◌, ◌≡◌, refl, ◌∙◌, Bool, true, List, [], ◌∷◌, ◌++◌, map, Option, none,
  some, arith, length,
}
use eople.Opcodes.{Opcode, opcode_to_instruction}
use eople.Code.{
  VmCode, Emitter, code_of, push_opcode, to_operand, set_operand, set_last, write_operand,
  push_operand, push_operands, operand_at, read_arguments,
}

-- An empty cell that carries operands only.
abbrev pub carrier : ℕ → VmCode
carrier x = record { instruction = none; a = to_operand x; b = 0; c = 0; d = 0 }

-- The cells for a list of arguments, when `k` operands of the first cell are in use.
unfoldable pub fill : VmCode → ℕ → List ℕ → List VmCode
fill cell k [] = cell ∷ []
fill cell zero (x ∷ xs) = fill (record cell { a = to_operand x }) 1 xs
fill cell (suc zero) (x ∷ xs) = fill (record cell { b = to_operand x }) 2 xs
fill cell (suc (suc zero)) (x ∷ xs) = fill (record cell { c = to_operand x }) 3 xs
fill cell (suc (suc (suc zero))) (x ∷ xs) = fill (record cell { d = to_operand x }) 4 xs
fill cell (suc (suc (suc (suc k)))) (x ∷ xs) = cell ∷ fill (carrier x) 1 xs

set_last-push :
    (k x : ℕ) (pre : List VmCode) (cell : VmCode) {c : VmCode}
    → set_operand k x cell ≡ some c
    → set_last k x (pre ++ cell ∷ []) ≡ some (pre ++ c ∷ [])
unfolding set_last
set_last-push k x [] cell e = ground (arith, e)
set_last-push k x (p ∷ []) cell e = ground (arith, e)
set_last-push k x (p ∷ q ∷ pre) cell e = ground (arith, set_last-push k x (q ∷ pre) cell e)

-- The emitter after some more operands.
abbrev pub Emits : Option Emitter → List VmCode → Type 0
Emits r cells = (e : Emitter) × (r ≡ some e) × (e.code ≡ cells)

abbrev pub at : List VmCode → ℕ → ℕ → Emitter
at cells k n = record { code = cells; current_operand = k; opcode_count = n }

pub push_operand-room :
    (k x n : ℕ) (b : Bool) (pre : List VmCode) (cell : VmCode) {c : VmCode}
    → k < 4
    → set_operand k x cell ≡ some c
    → push_operand x b (at (pre ++ cell ∷ []) k n) ≡ some (at (pre ++ c ∷ []) (k + 1) n)
unfolding push_operand write_operand
push_operand-room k x n b pre cell h e = ground (arith, set_last-push k x pre cell e)

push_operand-full :
    (x n : ℕ) (pre : List VmCode) (cell : VmCode)
    → push_operand x true (at (pre ++ cell ∷ []) 4 n)
      ≡ some (at ((pre ++ cell ∷ []) ++ carrier x ∷ []) 1 (n + 1))
unfolding push_operand write_operand push_opcode code_of opcode_to_instruction
push_operand-full x n pre cell = ground (
  arith,
  set_last-push 0 x (pre ++ cell ∷ []) (code_of (opcode_to_instruction Opcode.nop)) {c = carrier x}
      (unfold set_operand in refl),
)

pub push_operands-cons :
    (x : ℕ) (xs : List ℕ) (b : Bool) (e : Emitter) {e' : Emitter}
    → push_operand x b e ≡ some e'
    → push_operands (x ∷ xs) b e ≡ push_operands xs b e'
unfolding push_operands
push_operands-cons x xs b e h = rw (h, push_operands) refl

pub push_operands-fill :
    (xs : List ℕ) (pre : List VmCode) (cell : VmCode) (k n : ℕ)
    → k ≤ 4
    → Emits (push_operands xs true (at (pre ++ cell ∷ []) k n)) (pre ++ fill cell k xs)
unfolding push_operands fill set_operand
push_operands-fill [] pre cell k n h = (at (pre ++ cell ∷ []) k n, refl, refl)
push_operands-fill (x ∷ xs) pre cell zero n h =
    rw (push_operands-cons x xs true _ (push_operand-room 0 x n true pre cell (omega arith) refl))
      (push_operands-fill xs pre (record cell { a = to_operand x }) 1 n (omega arith))
push_operands-fill (x ∷ xs) pre cell (suc zero) n h =
    rw (push_operands-cons x xs true _ (push_operand-room 1 x n true pre cell (omega arith) refl))
      (push_operands-fill xs pre (record cell { b = to_operand x }) 2 n (omega arith))
push_operands-fill (x ∷ xs) pre cell (suc (suc zero)) n h =
    rw (push_operands-cons x xs true _ (push_operand-room 2 x n true pre cell (omega arith) refl))
      (push_operands-fill xs pre (record cell { c = to_operand x }) 3 n (omega arith))
push_operands-fill (x ∷ xs) pre cell (suc (suc (suc zero))) n h =
    rw (push_operands-cons x xs true _ (push_operand-room 3 x n true pre cell (omega arith) refl))
      (push_operands-fill xs pre (record cell { d = to_operand x }) 4 n (omega arith))
push_operands-fill (x ∷ xs) pre cell (suc (suc (suc (suc zero)))) n h =
    let (e, ran, cells) =
      push_operands-fill xs (pre ++ cell ∷ []) (carrier x) 1 (n + 1) (omega arith) in
    (
      e,
      push_operands-cons x xs true _ (push_operand-full x n pre cell) ∙ ran,
      cells ∙ append_assoc pre (cell ∷ []) (fill (carrier x) 1 xs),
    )
push_operands-fill (x ∷ xs) pre cell (suc (suc (suc (suc (suc k))))) n h = absurd (omega arith)

-- Two cells that agree in their first `k` operands.
abbrev pub Agree : ℕ → VmCode → VmCode → Type 0
Agree zero h cell = Unit {0}
Agree (suc zero) h cell = h.a ≡ cell.a
Agree (suc (suc zero)) h cell = (h.a ≡ cell.a) × (h.b ≡ cell.b)
Agree (suc (suc (suc zero))) h cell = (h.a ≡ cell.a) × (h.b ≡ cell.b) × (h.c ≡ cell.c)
Agree (suc (suc (suc (suc k)))) h cell =
    (h.a ≡ cell.a) × (h.b ≡ cell.b) × (h.c ≡ cell.c) × (h.d ≡ cell.d)

-- The first cell keeps its implementation and the operands that are in use.
abbrev pub Keeps : ℕ → VmCode → List VmCode → Type 0
Keeps k cell cells =
    (h : VmCode) × (t : List VmCode) × (cells ≡ h ∷ t)
    × (h.instruction ≡ cell.instruction)
    × Agree k h cell

pub fill-Keeps : (xs : List ℕ) (cell : VmCode) (k : ℕ) → k ≤ 4 → Keeps k cell (fill cell k xs)
unfolding fill
fill-Keeps [] cell zero h = (cell, [], refl, refl, tt)
fill-Keeps [] cell (suc zero) h = (cell, [], refl, refl, refl)
fill-Keeps [] cell (suc (suc zero)) h = (cell, [], refl, refl, (refl, refl))
fill-Keeps [] cell (suc (suc (suc zero))) h = (cell, [], refl, refl, (refl, refl, refl))
fill-Keeps [] cell (suc (suc (suc (suc k)))) h = (cell, [], refl, refl, (refl, refl, refl, refl))
fill-Keeps (x ∷ xs) cell zero h =
    let (c, t, e, i, keep) = fill-Keeps xs (record cell { a = to_operand x }) 1 (omega arith) in
    (c, t, e, i, tt)
fill-Keeps (x ∷ xs) cell (suc zero) h =
    let (c, t, e, i, keep) = fill-Keeps xs (record cell { b = to_operand x }) 2 (omega arith) in
    (c, t, e, i, keep.0)
fill-Keeps (x ∷ xs) cell (suc (suc zero)) h =
    let (c, t, e, i, keep) = fill-Keeps xs (record cell { c = to_operand x }) 3 (omega arith) in
    (c, t, e, i, (keep.0, keep.1))
fill-Keeps (x ∷ xs) cell (suc (suc (suc zero))) h =
    let (c, t, e, i, keep) = fill-Keeps xs (record cell { d = to_operand x }) 4 (omega arith) in
    (c, t, e, i, (keep.0, keep.1, keep.2))
fill-Keeps (x ∷ xs) cell (suc (suc (suc (suc k)))) h =
    (cell, fill (carrier x) 1 xs, refl, refl, (refl, refl, refl, refl))

read_arguments-cons :
    (k x n : ℕ) (xs : List ℕ) (cell : VmCode) (cells : List VmCode)
    → k < 4
    → Keeps (suc k) cell cells
    → operand_at k cell ≡ x
    → read_arguments (k + 1) n cells ≡ some xs
    → read_arguments k (suc n) cells ≡ some (x ∷ xs)
unfolding read_arguments operand_at
read_arguments-cons zero x n xs cell cells lt (h, t, e, _, ag) o r =
    rw e (let r' = rw e at r in ground arith)
read_arguments-cons (suc zero) x n xs cell cells lt (h, t, e, _, ag) o r =
    rw e (let r' = rw e at r in ground arith)
read_arguments-cons (suc (suc zero)) x n xs cell cells lt (h, t, e, _, ag) o r =
    rw e (let r' = rw e at r in ground arith)
read_arguments-cons (suc (suc (suc zero))) x n xs cell cells lt (h, t, e, _, ag) o r =
    rw e (let r' = rw e at r in ground arith)
read_arguments-cons (suc (suc (suc (suc k)))) x n xs cell cells lt keeps o r = absurd (omega arith)

pub read_arguments-fill :
    (xs : List ℕ) (cell : VmCode) (k : ℕ)
    → k ≤ 4
    → read_arguments k (length xs) (fill cell k xs) ≡ some (map to_operand xs)
unfolding fill read_arguments operand_at
read_arguments-fill [] cell k h = refl
read_arguments-fill (x ∷ xs) cell zero h =
    read_arguments-cons 0 _ (length xs) _ (record cell { a = to_operand x }) _ (omega arith)
      (fill-Keeps xs (record cell { a = to_operand x }) 1 (omega arith)) refl
      (read_arguments-fill xs (record cell { a = to_operand x }) 1 (omega arith))
read_arguments-fill (x ∷ xs) cell (suc zero) h =
    read_arguments-cons 1 _ (length xs) _ (record cell { b = to_operand x }) _ (omega arith)
      (fill-Keeps xs (record cell { b = to_operand x }) 2 (omega arith)) refl
      (read_arguments-fill xs (record cell { b = to_operand x }) 2 (omega arith))
read_arguments-fill (x ∷ xs) cell (suc (suc zero)) h =
    read_arguments-cons 2 _ (length xs) _ (record cell { c = to_operand x }) _ (omega arith)
      (fill-Keeps xs (record cell { c = to_operand x }) 3 (omega arith)) refl
      (read_arguments-fill xs (record cell { c = to_operand x }) 3 (omega arith))
read_arguments-fill (x ∷ xs) cell (suc (suc (suc zero))) h =
    read_arguments-cons 3 _ (length xs) _ (record cell { d = to_operand x }) _ (omega arith)
      (fill-Keeps xs (record cell { d = to_operand x }) 4 (omega arith)) refl
      (read_arguments-fill xs (record cell { d = to_operand x }) 4 (omega arith))
read_arguments-fill (x ∷ xs) cell (suc (suc (suc (suc zero)))) h =
    read_arguments-cons 0 _ (length xs) _ (carrier x) _ (omega arith)
      (fill-Keeps xs (carrier x) 1 (omega arith)) refl
      (read_arguments-fill xs (carrier x) 1 (omega arith))
read_arguments-fill (x ∷ xs) cell (suc (suc (suc (suc (suc k))))) h = absurd (omega arith)
