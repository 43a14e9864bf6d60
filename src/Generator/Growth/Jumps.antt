-- ===== src/Generator/Growth/Jumps.antt =====
-- The jumps and cells that the statements of src/eople_vmcode_gen.cpp write and fill in.
use eople.Base.{
  ℕ, zero, suc, ◌+◌, ◌≤◌, ◌<◌, ◌≡◌, refl, ap, Bool, true, false, List, [], ◌∷◌, ◌++◌, arith, ◌==◌,
  if◌then◌else◌, length-set, set, take, get_elem?,
}
use eople.Opcodes.{Opcode}
use eople.Code.{VmCode, to_operand}
use eople.Machine.Result.{
  Result, ok, err, ◌>>=◌, or_fault, After, After-bind, After-then, wild_access,
}
use eople.Generator.State.{Generator, opcode, operands}
use eople.Generator.Jumps.{
  set_cell, last_op, is_less_than_i, to_jump_geq, jump_of_condition, extend_jumps, add_a,
}
use eople.Generator.Growth.{Extends-refl, push_opcode-Extends, push_opcode-length}
use eople.Generator.Growth.Cells.{Grows, Grows-refl, Grows-trans, size, GrowsMore, cell-GrowsMore}

pub take-set {ℓ} :
    {A : Type ℓ} (n i : ℕ) (xs : List A) (v : A) → n ≤ i → take n (set xs i v) ≡ take n xs
take-set zero i xs v h = refl
take-set (suc n) i [] v h = refl
take-set (suc n) zero (x ∷ xs) v h = absurd (omega arith)
take-set (suc n) (suc i) (x ∷ xs) v h = ap (λ t. x ∷ t) (take-set n i xs v (omega arith))

-- A write to a cell that is not one of the first `n`.
abbrev pub GrowsSame : ℕ → Generator → Generator → Type 0
GrowsSame n g g' = Grows n g g' × (size g' ≡ size g)

pub set_cell-GrowsSame :
    (n i : ℕ) (f : VmCode → VmCode) (g : Generator) → n ≤ i → After (GrowsSame n g) (set_cell i f g)
unfolding set_cell
set_cell-GrowsSame n i f g h =
    After-bind (GrowsSame n g) (or_fault wild_access (get_elem? g.emitter.code i)) _ (λ cell _. (
      record {
        code = record {
          kept = take-set n i g.emitter.code (f cell) h;
          counted = omega (arith, length-set g.emitter.code i (f cell));
          longer = omega (arith, length-set g.emitter.code i (f cell));
        };
        temps = refl;
        pool = refl;
      },
      length-set g.emitter.code i (f cell),
    ))

pub opcode-Grows : (n : ℕ) (op : Opcode) (g : Generator) → n ≤ size g → Grows n g (opcode op g)
opcode-Grows n op g h = record {
  code = push_opcode-Extends n op g.emitter h;
  temps = refl;
  pool = refl;
}

-- A jump that is one of the cells behind the first `n`.
abbrev pub JumpAt : ℕ → Generator → ℕ × Generator → Type 0
JumpAt n g r = Grows n g r.1 × (n ≤ r.0) × (r.0 < size r.1)

pub jump_of_condition-JumpAt :
    (n expr_id : ℕ) (g : Generator) → n < size g → After (JumpAt n g) (jump_of_condition expr_id g)
unfolding jump_of_condition
jump_of_condition-JumpAt n expr_id g h =
    After-bind (JumpAt n g) (or_fault wild_access (get_elem? g.emitter.code (last_op g))) _
      (λ cell _. by_kind (is_less_than_i cell.instruction))
  where
    jumped : Generator
    jumped = opcode Opcode.jump_if g

    more : size jumped ≡ size g + 1
    more = push_opcode-length Opcode.jump_if g.emitter

    by_kind :
        (t : Bool)
        → After (JumpAt n g) (elim t [
          | true ↦ (set_cell (last_op g) to_jump_geq g >>= λ g'. ok (last_op g, g'))
          | false ↦
              (set_cell (last_op jumped) (λ c. record c { b = to_operand expr_id }) jumped >>= λ g'.
              ok (last_op jumped, g'))
        ])
    by_kind true =
        After-then (GrowsSame n g) (JumpAt n g) _ _
          (set_cell-GrowsSame n (last_op g) to_jump_geq g (omega arith))
          (λ g' (p, same). (p, omega arith, omega arith))
    by_kind false =
        After-then (GrowsSame n jumped) (JumpAt n g) _ _
          (set_cell-GrowsSame n (last_op jumped) _ jumped (omega (arith, more)))
          (λ g' (p, same). (
            Grows-trans n g jumped g' (opcode-Grows n Opcode.jump_if g (omega arith)) p,
            omega (arith, more),
            omega (arith, more),
          ))

-- What comes after a part that grows the code from `g` to `g₁`, when it gives a generator.
pub then-Grows :
    (n : ℕ) (g g₁ : Generator) (m : Result Generator)
    → Grows n g g₁
    → After (Grows n g₁) m
    → After (Grows n g) m
then-Grows n g g₁ (ok g') p q = Grows-trans n g g₁ g' p q
then-Grows n g g₁ (err e) p q = tt

-- The members that a statement resets.
pub reset-Grows :
    (n k : ℕ) (g : Generator)
    → Grows n g (record g { result_index = k; current_temp = g.first_temp })
reset-Grows n k g = record { code = Extends-refl n g.emitter; temps = refl; pool = refl }

pub set_cell-Grows :
    (n i : ℕ) (f : VmCode → VmCode) (g : Generator) → n ≤ i → After (Grows n g) (set_cell i f g)
set_cell-Grows n i f g h = go (set_cell i f g) (set_cell-GrowsSame n i f g h)
  where
    go : (m : Result Generator) → After (GrowsSame n g) m → After (Grows n g) m
    go (ok g') p = p.0
    go (err e) p = tt

pub cell-Grows :
    (n : ℕ) (op : Opcode) (xs : List ℕ) (g : Generator)
    → n ≤ size g
    → After (Grows n g) (operands xs (opcode op g))
cell-Grows n op xs g h = go (operands xs (opcode op g)) (cell-GrowsMore n op xs g h)
  where
    go : (m : Result Generator) → After (GrowsMore n g) m → After (Grows n g) m
    go (ok g') p = p.0
    go (err e) p = tt

abbrev pub AllFrom : ℕ → List ℕ → Type 0
AllFrom n [] = Unit
AllFrom n (x ∷ xs) = (n ≤ x) × AllFrom n xs

pub AllFrom-push : (n x : ℕ) (xs : List ℕ) → AllFrom n xs → n ≤ x → AllFrom n (xs ++ x ∷ [])
AllFrom-push n x [] h le = (le, tt)
AllFrom-push n x (y ∷ xs) (hy, h) le = (hy, AllFrom-push n x xs h le)

pub extend_jumps-Grows :
    (n end_jump over_block over_all : ℕ) (jumps : List ℕ) (g : Generator)
    → AllFrom n jumps
    → After (Grows n g) (extend_jumps end_jump over_block over_all jumps g)
unfolding extend_jumps
extend_jumps-Grows n end_jump over_block over_all [] g h = Grows-refl n g
extend_jumps-Grows n end_jump over_block over_all (jump ∷ jumps) g (hj, h) =
    After-then (Grows n g) (Grows n g) _ _
      (set_cell-Grows n jump (add_a (if end_jump == jump then over_block else over_all)) g hj)
      (λ g₁ p. then-Grows n g g₁ _ p (extend_jumps-Grows n end_jump over_block over_all jumps g₁ h))

-- A cell with its operands, and its index.
pub jump_cell-JumpAt :
    (n : ℕ) (op : Opcode) (xs : List ℕ) (g : Generator)
    → n ≤ size g
    → After (JumpAt n g) (operands xs (opcode op g) >>= λ g'. ok (last_op (opcode op g), g'))
jump_cell-JumpAt n op xs g le =
    After-then (GrowsMore n g) (JumpAt n g) (operands xs (opcode op g)) _
      (cell-GrowsMore n op xs g le)
      (λ g' (p, more).
        let long = push_opcode-length op g.emitter in (p, omega (arith, long), omega (arith, long)))

pub jump-from :
    (n : ℕ) (g g₁ : Generator) (m : Result (ℕ × Generator))
    → Grows n g g₁
    → After (JumpAt n g₁) m
    → After (JumpAt n g) m
jump-from n g g₁ (ok r) p (q, above, below) = (Grows-trans n g g₁ r.1 p q, above, below)
jump-from n g g₁ (err e) p q = tt
