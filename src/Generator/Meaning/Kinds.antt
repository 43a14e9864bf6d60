-- ===== src/Generator/Meaning/Kinds.antt =====
-- The kinds of values: what `GetType` of src/eople_vmcode_gen.cpp finds for an expression that has a
-- value.
use eople.Machine.Result.{ok, or_fault, assertion}
use eople.Base.{
  ℕ, ◌+◌, ◌<◌, ◌≡◌, refl, ap, ◌∙◌, subst, Bool, true, false, List, Option, none, some, arith,
  Option-cases, inl, inr, get_elem?, if◌then◌else◌, Bool-cases,
}
use eople.Base.Int.{ℤ, eqb_ℤ, pos}
use eople.Base.Text.{Text}
use eople.Types.{Ty, primitive, ValueType, nil_type}
use eople.Machine.Object.{Object, in_range}
use eople.Machine.Binop.{quot, rem}
use eople.Generator.Ast.{
  OpType, Expression, identifier, literal, binary_op, call_of, message_of, array_subscript,
}
use eople.Generator.State.{Context, operator_type, reads_type, choose_opcode, choose_opcode-any}
use eople.Generator.Expressions.{get_type, left_type}
use eople.Generator.Meaning.{
  Value, number, truth, within, count_with, decide_with, apply, value_of, meaning, Shows, kind,
  Loaded,
}

-- The parts of a meaning.
pub meaning-parts :
    (values : Text → Value) (op : OpType) (l r : Expression) (v : Value)
    → meaning values (binary_op op l r) ≡ some v
    → (x : Value) × (y : Value) × (meaning values l ≡ some x)
      × (meaning values r ≡ some y)
      × (apply op x y ≡ some v)
unfolding meaning
meaning-parts values op l r v h = elim (Option-cases (meaning values l)) [
  | inl e ↦ absurd (ground arith)
  | inr (x, e) ↦ (elim (Option-cases (meaning values r)) [
    | inl e' ↦ absurd (ground arith)
    | inr (y, e') ↦ (x, y, e, e', ground arith)
  ])
]

same_kind : (u v : Value) → ◌≡◌ {A = Option Value} (some u) (some v) → kind u ≡ kind v
same_kind u v h = let shape : u ≡ v = cc in ap kind shape

Shows-same :
    (u v : Value) (o : Object) → ◌≡◌ {A = Option Value} (some u) (some v) → Shows u o → Shows v o
Shows-same u v o h s = let shape : u ≡ v = cc in subst (λ w. Shows w o) shape s

pub value_of-kind :
    (t : Ty) (o : Object) (v : Value) → value_of t o ≡ some v → (t ≡ kind v) × Shows v o
unfolding value_of
value_of-kind (primitive ValueType.int) o v h = (same_kind _ v h, Shows-same _ v o h refl)
value_of-kind (primitive ValueType.bool) o v h = (same_kind _ v h, Shows-same _ v o h refl)
value_of-kind _ o v h = cc

within-kind : (z : ℤ) (v : Value) → within z ≡ some v → primitive ValueType.int ≡ kind v
unfolding within
within-kind z v h = by_test (in_range z) h
  where
    by_test :
        (t : Bool)
        → (if t then some (number z) else none) ≡ some v
        → primitive ValueType.int ≡ kind v
    by_test true e = same_kind (number z) v e
    by_test false e = cc

-- Division and remainder.
guarded-kind :
    (t : Bool) (m : Option Value) (v : Value)
    → (m ≡ some v → primitive ValueType.int ≡ kind v)
    → (if t then none else m) ≡ some v
    → primitive ValueType.int ≡ kind v
guarded-kind true m v k e = cc
guarded-kind false m v k e = k e

fitting-kind :
    (t : Bool) (m : Option Value) (v : Value)
    → (m ≡ some v → primitive ValueType.int ≡ kind v)
    → (if t then m else none) ≡ some v
    → primitive ValueType.int ≡ kind v
fitting-kind true m v k e = k e
fitting-kind false m v k e = cc

count_with-kind :
    (op : OpType) (x y : ℤ) (v : Value)
    → count_with op x y ≡ some v
    → operator_type op (ok (primitive ValueType.int)) ≡ ok (kind v)
unfolding count_with operator_type
count_with-kind OpType.add x y v h = ap ok (within-kind _ v h)
count_with-kind OpType.sub x y v h = ap ok (within-kind _ v h)
count_with-kind OpType.mul x y v h = ap ok (within-kind _ v h)
count_with-kind OpType.div x y v h = ap ok (guarded-kind (eqb_ℤ y (pos 0)) _ v (within-kind _ v) h)
count_with-kind OpType.modulo x y v h = ap ok (
    guarded-kind (eqb_ℤ y (pos 0)) _ v
      (fitting-kind (in_range (quot x y)) _ v (within-kind (rem x y) v)) h)
count_with-kind OpType.gt x y v h = ap ok (same_kind _ v h)
count_with-kind OpType.lt x y v h = ap ok (same_kind _ v h)
count_with-kind OpType.eq x y v h = ap ok (same_kind _ v h)
count_with-kind OpType.neq x y v h = ap ok (same_kind _ v h)
count_with-kind OpType.leq x y v h = ap ok (same_kind _ v h)
count_with-kind OpType.geq x y v h = ap ok (same_kind _ v h)
count_with-kind _ x y v h = cc

decide_with-kind :
    (op : OpType) (p q : Bool) (v : Value)
    → decide_with op p q ≡ some v
    → operator_type op (ok (primitive ValueType.bool)) ≡ ok (kind v)
unfolding decide_with operator_type
decide_with-kind OpType.and p q v h = ap ok (same_kind _ v h)
decide_with-kind OpType.or p q v h = ap ok (same_kind _ v h)
decide_with-kind _ p q v h = cc

apply-kind :
    (op : OpType) (x y v : Value)
    → apply op x y ≡ some v
    → operator_type op (ok (kind x)) ≡ ok (kind v)
unfolding apply
apply-kind op (number x) (number y) v h = count_with-kind op x y v h
apply-kind op (truth p) (truth q) v h = decide_with-kind op p q v h
apply-kind op (number x) (truth q) v h = cc
apply-kind op (truth p) (number y) v h = cc

module _ (cx : Context) (values : Text → Value) (base : ℕ) where
  -- `GetType` finds the kind of the value.
  pub get_type-kind :
      (memory : List Object) (limit : ℕ) (e : Expression) (v : Value)
      → Loaded cx values base memory limit e
      → meaning values e ≡ some v
      → get_type cx e ≡ ok (kind v)
  unfolding get_type meaning
  get_type-kind memory limit (identifier name true) v loaded h = cc
  get_type-kind memory limit (identifier name false) v (slot, _, typed, _) h =
      ap (or_fault assertion) typed ∙ ap ok (same_kind _ v h)
  get_type-kind memory limit (literal name t o) v loaded h = ap ok (value_of-kind t o v h).0
  get_type-kind memory limit (binary_op op l r) v (left, right) h =
      let (x, y, hx, hy, ha) = meaning-parts values op l r v h in
      ap (operator_type op) (get_type-kind memory limit l x left hx) ∙ apply-kind op x y v ha
  get_type-kind memory limit (call_of name mangled arguments) v loaded h = cc
  get_type-kind memory limit (message_of process name mangled arguments) v loaded h = cc
  get_type-kind memory limit (array_subscript name index) v loaded h = cc

  -- The type that the operator's opcode is chosen by gives the opcode of the left side's kind.
  pub left_type-kind :
      (op : OpType) (l : Expression) (x : Value)
      → get_type cx l ≡ ok (kind x)
      → (t : Ty) × (left_type cx op l ≡ ok t) × (choose_opcode op t ≡ choose_opcode op (kind x))
  unfolding left_type
  left_type-kind op l x h = elim (Bool-cases (reads_type op)) [
    | inl e ↦ (kind x, rw e h, refl)
    | inr e ↦ (nil_type, rw e refl, choose_opcode-any op nil_type (kind x) e)
  ]

  -- Memory that keeps the registers below the limit keeps an expression loaded.
  pub Loaded-kept :
      (memory memory' : List Object) (limit : ℕ) (e : Expression)
      → ((i : ℕ) → i < limit → get_elem? memory' (base + i) ≡ get_elem? memory (base + i))
      → Loaded cx values base memory limit e
      → Loaded cx values base memory' limit e
  Loaded-kept memory memory' limit (identifier name guard) k (slot, found, typed, h) = (
    slot,
    found,
    typed,
    record {
      object = h.object;
      below = h.below;
      is_held = k slot h.below ∙ h.is_held;
      has = h.has;
    },
  )
  Loaded-kept memory memory' limit (literal name t o) k (slot, found, h) = (
    slot,
    found,
    record {
      object = h.object;
      below = h.below;
      is_held = k slot h.below ∙ h.is_held;
      has = h.has;
    },
  )
  Loaded-kept memory memory' limit (binary_op op l r) k (left, right) =
      (Loaded-kept memory memory' limit l k left, Loaded-kept memory memory' limit r k right)
  Loaded-kept memory memory' limit (call_of name mangled arguments) k loaded = loaded
  Loaded-kept memory memory' limit (message_of process name mangled arguments) k loaded = loaded
  Loaded-kept memory memory' limit (array_subscript name index) k loaded = loaded
