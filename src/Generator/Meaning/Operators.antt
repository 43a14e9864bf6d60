-- ===== src/Generator/Meaning/Operators.antt =====
-- `GenExpressionTerm` picks, for an operator and the type of its left side, an instruction of
-- src/eople_binop.cpp that computes what the operator means.
use eople.Base.{◌≢◌, inl, inr, Bool-cases, subst, ◌≡◌, refl, Bool, Option, none, some, arith}
use eople.Base.Int.{ℤ, pos, eqb_ℤ}
use eople.Opcodes.{Opcode, Instruction, instruction, opcode_to_instruction}
use eople.Machine.Result.{ok}
use eople.Machine.Object.{Object, int_val, is_true, put_bool, put_int, in_range}
use eople.Machine.Object.Views.{is_true-put_bool, signed64-word_of}
use eople.Machine.Binop.{
  Operation, FloatOps, three_operands, add_i, sub_i, mul_i, div_i, mod_i, less_than_i, equal_i,
  greater_than_i, less_equal_i, greater_equal_i, not_equal_i, logical_and, logical_or, int_result,
  quot, rem,
}
use eople.Machine.Binop.Table.{operation}
use eople.Machine.Exec.{simple}
use eople.Generator.Ast.{OpType}
use eople.Generator.State.{choose_opcode}
use eople.Generator.Meaning.{
  Value, number, truth, within, count_with, decide_with, apply, Shows, kind,
}

module _ (fops : FloatOps) where
  -- The opcode that is chosen for an operator, the instruction it stands for and its operation.
  pub record Picks (op : OpType) (x : Value) (f : Operation) : Type 0 where
    pub code : Opcode
    pub implementation : Instruction
    pub is_chosen : choose_opcode op (kind x) ≡ some code
    pub stands_for : opcode_to_instruction code ≡ some (instruction implementation)
    pub runs_as : simple fops implementation ≡ some (three_operands f)

-- What an operation writes over any object shows a value.
pub record Writes (f : Operation) (a b : Object) (v : Value) : Type 0 where
  pub write : Object → Object
  pub computes : f a b ≡ ok write
  pub shows : (old : Object) → Shows v (write old)

int_result-Writes :
    (f : Operation) (a b : Object) (z : ℤ) (v : Value)
    → f a b ≡ int_result z
    → within z ≡ some v
    → Writes f a b v
unfolding int_result within
int_result-Writes f a b z v e h = elim (Bool-cases (in_range z)) [
  | inl fits ↦
      let shape : number z ≡ v = ground arith in
      record {
        write = put_int z;
        computes = ground arith;
        shows = λ old. subst (λ u. Shows u (put_int z old)) shape (signed64-word_of z fits);
      }
  | inr not_fits ↦ absurd (ground arith)
]

put_bool-Writes :
    (f : Operation) (a b : Object) (t : Bool) (v : Value)
    → f a b ≡ ok (put_bool t)
    → ◌≡◌ {A = Option Value} (some (truth t)) (some v)
    → Writes f a b v
put_bool-Writes f a b t v e h =
    let shape : truth t ≡ v = cc in
    record {
      write = put_bool t;
      computes = e;
      shows = λ old. subst (λ u. Shows u (put_bool t old)) shape (is_true-put_bool t old);
    }

module _ (fops : FloatOps) where
  abbrev pub Implements : OpType → Value → Object → Object → Value → Type 0
  Implements op x a b v = (f : Operation) × Picks fops op x f × Writes f a b v

  pick :
      (op : OpType) (x : Value) (f : Operation) (c : Opcode) (i : Instruction)
      → choose_opcode op (kind x) ≡ some c
      → opcode_to_instruction c ≡ some (instruction i)
      → simple fops i ≡ some (three_operands f)
      → Picks fops op x f
  pick op x f c i e s r = record {
    code = c;
    implementation = i;
    is_chosen = e;
    stands_for = s;
    runs_as = r;
  }

  -- Division by zero has no meaning, and a remainder has none where the quotient does not fit.
  div_i-Writes :
      (a b : Object) (v : Value)
      → count_with OpType.div (int_val a) (int_val b) ≡ some v
      → Writes div_i a b v
  unfolding count_with div_i
  div_i-Writes a b v h = elim (Bool-cases (eqb_ℤ (int_val b) (pos 0))) [
    | inl zero ↦ absurd (ground arith)
    | inr nonzero ↦
        int_result-Writes div_i a b (quot (int_val a) (int_val b)) v (ground arith) (ground arith)
  ]

  mod_i-Writes :
      (a b : Object) (v : Value)
      → count_with OpType.modulo (int_val a) (int_val b) ≡ some v
      → Writes mod_i a b v
  unfolding count_with mod_i
  mod_i-Writes a b v h = elim (Bool-cases (eqb_ℤ (int_val b) (pos 0))) [
    | inl zero ↦ absurd (ground arith)
    | inr nonzero ↦ (elim (Bool-cases (in_range (quot (int_val a) (int_val b)))) [
      | inl fits ↦
          int_result-Writes mod_i a b (rem (int_val a) (int_val b)) v (ground arith) (ground arith)
      | inr not_fits ↦ absurd (ground arith)
    ])
  ]

  count_with-Implements :
      (op : OpType) (a b : Object) (v : Value)
      → count_with op (int_val a) (int_val b) ≡ some v
      → Implements op (number (int_val a)) a b v
  unfolding count_with choose_opcode opcode_to_instruction simple operation add_i sub_i mul_i
      greater_than_i less_than_i equal_i not_equal_i less_equal_i greater_equal_i
  count_with-Implements OpType.add a b v h = (
    add_i,
    pick _ _ _ Opcode.add_i Instruction.add_i refl refl refl,
    int_result-Writes _ a b _ v refl h,
  )
  count_with-Implements OpType.sub a b v h = (
    sub_i,
    pick _ _ _ Opcode.sub_i Instruction.sub_i refl refl refl,
    int_result-Writes _ a b _ v refl h,
  )
  count_with-Implements OpType.mul a b v h = (
    mul_i,
    pick _ _ _ Opcode.mul_i Instruction.mul_i refl refl refl,
    int_result-Writes _ a b _ v refl h,
  )
  count_with-Implements OpType.div a b v h =
      (div_i, pick _ _ _ Opcode.div_i Instruction.div_i refl refl refl, div_i-Writes a b v h)
  count_with-Implements OpType.modulo a b v h =
      (mod_i, pick _ _ _ Opcode.mod_i Instruction.mod_i refl refl refl, mod_i-Writes a b v h)
  count_with-Implements OpType.gt a b v h = (
    greater_than_i,
    pick _ _ _ Opcode.greater_than_i Instruction.greater_than_i refl refl refl,
    put_bool-Writes _ a b _ v refl h,
  )
  count_with-Implements OpType.lt a b v h = (
    less_than_i,
    pick _ _ _ Opcode.less_than_i Instruction.less_than_i refl refl refl,
    put_bool-Writes _ a b _ v refl h,
  )
  count_with-Implements OpType.eq a b v h = (
    equal_i,
    pick _ _ _ Opcode.equal_i Instruction.equal_i refl refl refl,
    put_bool-Writes _ a b _ v refl h,
  )
  count_with-Implements OpType.neq a b v h = (
    not_equal_i,
    pick _ _ _ Opcode.not_equal_i Instruction.not_equal_i refl refl refl,
    put_bool-Writes _ a b _ v refl h,
  )
  count_with-Implements OpType.leq a b v h = (
    less_equal_i,
    pick _ _ _ Opcode.less_equal_i Instruction.less_equal_i refl refl refl,
    put_bool-Writes _ a b _ v refl h,
  )
  count_with-Implements OpType.geq a b v h = (
    greater_equal_i,
    pick _ _ _ Opcode.greater_equal_i Instruction.greater_equal_i refl refl refl,
    put_bool-Writes _ a b _ v refl h,
  )
  count_with-Implements _ a b v h = cc

  decide_with-Implements :
      (op : OpType) (a b : Object) (v : Value)
      → decide_with op (is_true a) (is_true b) ≡ some v
      → Implements op (truth (is_true a)) a b v
  unfolding decide_with choose_opcode opcode_to_instruction simple operation logical_and logical_or
  decide_with-Implements OpType.and a b v h = (
    logical_and,
    pick _ _ _ Opcode.and Instruction.and refl refl refl,
    put_bool-Writes _ a b _ v refl h,
  )
  decide_with-Implements OpType.or a b v h = (
    logical_or,
    pick _ _ _ Opcode.or Instruction.or refl refl refl,
    put_bool-Writes _ a b _ v refl h,
  )
  decide_with-Implements _ a b v h = cc

  -- Where an operator has a value on two others, the instruction chosen for it by the type of the
  -- left one succeeds on objects that show them, and writes an object that shows it.
  pub apply-Implements :
      (op : OpType) (x y v : Value) (a b : Object)
      → apply op x y ≡ some v
      → Shows x a
      → Shows y b
      → Implements op x a b v
  unfolding apply
  apply-Implements op (number x) (number y) v a b h ha hb =
      subst (λ u. Implements op (number u) a b v) ha
        (count_with-Implements op a b v (rw (ha, hb) h))
  apply-Implements op (truth p) (truth q) v a b h ha hb =
      subst (λ u. Implements op (truth u) a b v) ha
        (decide_with-Implements op a b v (rw (ha, hb) h))
  apply-Implements op (number x) (truth q) v a b h ha hb = cc
  apply-Implements op (truth p) (number y) v a b h ha hb = cc

count_with-chosen :
    (op : OpType) (x y : ℤ) (v : Value)
    → count_with op x y ≡ some v
    → choose_opcode op (kind (number x)) ≢ none
unfolding count_with choose_opcode
count_with-chosen OpType.not x y v h e = cc
count_with-chosen OpType.call x y v h e = cc
count_with-chosen OpType.unknown x y v h e = cc
count_with-chosen _ x y v h e = cc

decide_with-chosen :
    (op : OpType) (p q : Bool) (v : Value)
    → decide_with op p q ≡ some v
    → choose_opcode op (kind (truth p)) ≢ none
unfolding decide_with choose_opcode
decide_with-chosen OpType.and p q v h e = cc
decide_with-chosen _ p q v h e = cc

-- An operator that has a value has an opcode.
pub apply-chosen :
    (op : OpType) (x y v : Value) → apply op x y ≡ some v → choose_opcode op (kind x) ≢ none
unfolding apply
apply-chosen op (number x) (number y) v h = count_with-chosen op x y v h
apply-chosen op (truth p) (truth q) v h = decide_with-chosen op p q v h
apply-chosen op (number x) (truth q) v h = absurd cc
apply-chosen op (truth p) (number y) v h = absurd cc
