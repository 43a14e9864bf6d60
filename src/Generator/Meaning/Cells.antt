-- ===== src/Generator/Meaning/Cells.antt =====
-- The cell that `GenExpressionTerm` writes for an operator, and where it stands in the code of the
-- function that is generated.
use eople.Base.{
  ℕ, zero, suc, ◌+◌, ◌≤◌, ◌≡◌, refl, ap, ◌∙◌, sym, Bool, true, false, List, [], ◌∷◌, ◌++◌, some,
  arith, length, take, get_elem?, if◌then◌else◌,
}
use eople.Opcodes.{Opcode, opcode_to_instruction}
use eople.Code.{VmCode, code_of, push_opcode, push_operands, to_operand, set_operand}
use eople.Code.Filling.{at, push_operand-room, push_operands-cons}
use eople.Machine.Result.{ok, ◌>>=◌}
use eople.Generator.State.{Context, Generator, opcode, operands, emitting}
use eople.Generator.Expressions.{place_result}
use eople.Generator.Growth.Cells.{size, Grows}

abbrev pub operator_cell : Opcode → ℕ → ℕ → ℕ → VmCode
operator_cell op left right target = record {
  instruction = opcode_to_instruction op;
  a = to_operand left;
  b = to_operand right;
  c = to_operand target;
  d = 0;
}

-- The generator with the cell of an operator behind its code.
abbrev pub with_operator : Opcode → ℕ → ℕ → ℕ → Generator → Generator
with_operator op left right target g = record g {
  emitter =
      at (g.emitter.code ++ operator_cell op left right target ∷ []) 3 (g.emitter.opcode_count + 1);
}

abbrev pub target_of : Bool → Generator → ℕ
target_of is_root g = if is_root then g.result_index else g.current_temp

abbrev pub temps_after : Bool → ℕ → ℕ
temps_after is_root temps = if is_root then temps else temps + 1

two_operands :
    (op : Opcode) (left right : ℕ) (pre : List VmCode) (n k : ℕ)
    → push_operands (left ∷ right ∷ []) false (push_opcode op (at pre k n))
      ≡ some (at (pre ++ record (operator_cell op left right 0) { c = 0 } ∷ []) 2 (n + 1))
unfolding push_opcode code_of push_operands set_operand
two_operands op left right pre n k =
    push_operands-cons left (right ∷ []) false _ (
      push_operand-room 0 left (n + 1) false pre (code_of (opcode_to_instruction op)) (omega arith)
        refl)
    ∙ push_operands-cons right [] false _
        (push_operand-room 1 right (n + 1) false pre _ (omega arith) refl)

third_operand :
    (op : Opcode) (left right target : ℕ) (pre : List VmCode) (n : ℕ)
    → push_operands
        (target ∷ [])
        false
        (at (pre ++ record (operator_cell op left right 0) { c = 0 } ∷ []) 2 n)
      ≡ some (at (pre ++ operator_cell op left right target ∷ []) 3 n)
unfolding push_operands set_operand
third_operand op left right target pre n =
    push_operands-cons target [] false _
      (push_operand-room 2 target n false pre _ (omega arith) refl)

pub operator-cell :
    (cx : Context) (op : Opcode) (left right : ℕ) (is_root : Bool) (g : Generator)
    → (operands (left ∷ right ∷ []) (opcode op g) >>= place_result cx is_root)
      ≡ ok (
        target_of is_root g,
        record (with_operator op left right (target_of is_root g) g) {
          current_temp = temps_after is_root g.current_temp;
        },
      )
unfolding operands emitting place_result
operator-cell cx op left right true g =
    let e =
      two_operands op left right g.emitter.code g.emitter.opcode_count g.emitter.current_operand in
    let e' =
      third_operand op left right g.result_index g.emitter.code (g.emitter.opcode_count + 1) in
    rw (e, e') refl
operator-cell cx op left right false g =
    let e =
      two_operands op left right g.emitter.code g.emitter.opcode_count g.emitter.current_operand in
    let e' =
      third_operand op left right g.current_temp g.emitter.code (g.emitter.opcode_count + 1) in
    rw (e, e') refl

-- The code of a function begins with what is generated so far.
abbrev pub Written : List VmCode → Generator → Type 0
Written code g = take (size g) code ≡ g.emitter.code

take-take {ℓ} : {A : Type ℓ} (m n : ℕ) (xs : List A) → m ≤ n → take m (take n xs) ≡ take m xs
take-take zero n xs h = refl
take-take (suc m) zero xs h = absurd (omega arith)
take-take (suc m) (suc n) [] h = refl
take-take (suc m) (suc n) (x ∷ xs) h = ap (λ t. x ∷ t) (take-take m n xs (omega arith))

take-all {ℓ} : {A : Type ℓ} (xs : List A) → take (length xs) xs ≡ xs
take-all [] = refl
take-all (x ∷ xs) = ap (λ t. x ∷ t) (take-all xs)

-- What was written stays written: the code only grows.
pub Written-before :
    (code : List VmCode) (g g' : Generator) → Grows (size g) g g' → Written code g' → Written code g
Written-before code g g' p w =
    sym (take-take (size g) (size g') code p.code.longer)
    ∙ ap (take (size g)) w
    ∙ p.code.kept
    ∙ take-all g.emitter.code

-- The last cell that was written.
pub get_elem?-take_push {ℓ} :
    {A : Type ℓ} (n : ℕ) (xs ys : List A) (y : A)
    → take n xs ≡ ys ++ y ∷ []
    → get_elem? xs (length ys) ≡ some y
get_elem?-take_push zero xs [] y h = cc
get_elem?-take_push zero xs (z ∷ ys) y h = cc
get_elem?-take_push (suc n) [] [] y h = cc
get_elem?-take_push (suc n) [] (z ∷ ys) y h = cc
get_elem?-take_push (suc n) (x ∷ xs) [] y h = cc
get_elem?-take_push (suc n) (x ∷ xs) (z ∷ ys) y h = get_elem?-take_push n xs ys y cc

pub take-prefix {ℓ} :
    {A : Type ℓ} (n : ℕ) (xs ys zs : List A) → take n xs ≡ ys ++ zs → take (length ys) xs ≡ ys
take-prefix n xs [] zs h = refl
take-prefix zero xs (y ∷ ys) zs h = cc
take-prefix (suc n) [] (y ∷ ys) zs h = cc
take-prefix (suc n) (x ∷ xs) (y ∷ ys) zs h =
    let same : x ≡ y = cc in rw same (ap (λ t. y ∷ t) (take-prefix n xs ys zs cc))
