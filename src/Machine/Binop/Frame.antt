-- ===== src/Machine/Binop/Frame.antt =====
-- What an instruction of src/eople_binop.cpp with three operands can touch.
use eople.Base.{
  ℕ, ◌+◌, ◌≡◌, refl, sym, ap, ◌∙◌, Bool, true, Option, some, none, subst, arith, set, get_elem?,
  inl, inr, Option-cases, ◌≢◌, get_elem?-set_ne, get_elem?-set_self, get_elem?-lt,
}
use eople.Types.{ValueType}
use eople.Opcodes.{Instruction}
use eople.Machine.Result.{Result, ok, >>=-eq-ok}
use eople.Machine.Object.{Object}
use eople.Machine.Stack.{get_object_at_offset, push_object_at_offset}
use eople.Machine.State.{State, Step, with_stack, operand, operand_index, update_operand, update_at}
use eople.Machine.Binop.{Operation, FloatOps, three_operands}
use eople.Machine.Binop.Tags.{KeepsTag, AllKeepTag, operation-KeepsTag}
use eople.Machine.Binop.Table.{operation}

-- The state with one object of the active frame replaced.
abbrev pub with_object : ℕ → Object → State → State
with_object offset o st =
    let s = st.process.stack in
    with_stack (record s { memory = set s.memory (s.stack_base + offset) o }) st

pub update_at-eq :
    (offset : ℕ) (g : Object → Object) (st : State) {st' : State}
    → update_at offset g st ≡ ok st'
    → (o : Object) × (get_elem? st.process.stack.memory (st.process.stack.stack_base + offset)
        ≡ some o)
      × (st' ≡ with_object offset (g o) st)
unfolding update_at get_object_at_offset push_object_at_offset
update_at-eq offset g st h =
    elim (Option-cases (get_elem? st.process.stack.memory (st.process.stack.stack_base + offset))) [
      | inl e ↦ absurd (ground arith)
      | inr (o, e) ↦ (o, e, ground arith)
    ]

-- The operands, the operation and the object that an instruction with three operands went
-- through.
pub record Ran (f : Operation) (st st' : State) : Type 0 where
  pub a : Object
  pub b : Object
  pub g : Object → Object
  pub c : ℕ
  pub old : Object
  pub reads_a : operand 0 st ≡ ok a
  pub reads_b : operand 1 st ≡ ok b
  pub computes : f a b ≡ ok g
  pub writes : operand_index 2 st ≡ ok c
  pub was : get_elem? st.process.stack.memory (st.process.stack.stack_base + c) ≡ some old
  pub result : st' ≡ with_object c (g old) st

ok-pair :
    {st' u w : State} {more : Bool}
    → u ≡ w
    → ◌≡◌ {A = Step} (ok (u, true)) (ok (st', more))
    → (more ≡ true) × (st' ≡ w)
ok-pair e h = (cc, cc)

pub three_operands-Ran :
    (f : Operation) (st st' : State) (more : Bool)
    → three_operands f st ≡ ok (st', more)
    → (more ≡ true) × Ran f st st'
unfolding three_operands update_operand
three_operands-Ran f st st' more h =
    let (a, ea, h₁) = >>=-eq-ok (operand 0 st) _ h in
    let (b, eb, h₂) = >>=-eq-ok (operand 1 st) _ h₁ in
    let (g, eg, h₃) = >>=-eq-ok (f a b) _ h₂ in
    let (u, eu, h₄) = >>=-eq-ok (update_operand 2 g st) _ h₃ in
    let (c, ec, h₅) = >>=-eq-ok (operand_index 2 st) _ eu in
    let (o, eo, es) = update_at-eq c g st h₅ in
    let (em, er) = ok-pair es h₄ in
    (
      em,
      record {
        a = a;
        b = b;
        g = g;
        c = c;
        old = o;
        reads_a = ea;
        reads_b = eb;
        computes = eg;
        writes = ec;
        was = eo;
        result = er;
      },
    )

tag_of :
    (f : Operation) (a b : Object) (g : Object → Object)
    → ((a b : Object) → KeepsTag (f a b))
    → f a b ≡ ok g
    → KeepsTag (ok g)
tag_of f a b g k h = subst KeepsTag h (k a b)

-- The object that an address of the memory holds.
abbrev pub holds : State → ℕ → Option Object
holds st i = get_elem? st.process.stack.memory i

abbrev pub tag : Option Object → Option ValueType
tag none = none
tag (some o) = some o.object_type

with_object-frame :
    (c : ℕ) (old new : Object) (st st' : State)
    → st' ≡ with_object c new st
    → holds st (st.process.stack.stack_base + c) ≡ some old
    → ((j : ℕ) → j ≢ st.process.stack.stack_base + c → holds st' j ≡ holds st j)
      × (holds st' (st.process.stack.stack_base + c) ≡ some new)
      × (st' ≡ with_stack (record (st.process.stack) { memory = st'.process.stack.memory }) st)
with_object-frame c old new st st' e h = rw e (
  (λ j ne. get_elem?-set_ne _ new (λ q. ne (sym q))),
  get_elem?-set_self st.process.stack.memory (st.process.stack.stack_base + c) new
      (get_elem?-lt _ _ h),
  refl,
)

c_of :
    (f : Operation) (st st' : State) (more : Bool) (c : ℕ) (r : Ran f st st')
    → operand_index 2 st ≡ ok c
    → r.c ≡ c
c_of f st st' more c r h = go (sym (r.writes) ∙ h)
  where
    go : {m n : ℕ} → ◌≡◌ {A = Result ℕ} (ok m) (ok n) → m ≡ n
    go e = cc

-- An instruction with three operands that succeeds goes on to the next one and changes one object,
-- the one in the frame that its third operand names, which keeps its tag: every other object, the
-- instruction pointer, the bounds of the frame, the promises and the messages stay.
pub three_operands-frame :
    (fops : FloatOps) (i : Instruction) (f : Operation) (st st' : State) (more : Bool) (c j : ℕ)
    → operation fops i ≡ some f
    → three_operands f st ≡ ok (st', more)
    → operand_index 2 st ≡ ok c
    → j ≢ st.process.stack.stack_base + c
    → (more ≡ true)
      × (holds st' j ≡ holds st j)
      × (tag (holds st' (st.process.stack.stack_base + c))
          ≡ tag (holds st (st.process.stack.stack_base + c)))
      × (st' ≡ with_stack (record (st.process.stack) { memory = st'.process.stack.memory }) st)
three_operands-frame fops i f st st' more c j hi h hc ne =
    let (em, r) = three_operands-Ran f st st' more h in
    let k : AllKeepTag (some f) = subst AllKeepTag hi (operation-KeepsTag fops i) in
    let (others, now, rest) = with_object-frame r.c r.old (r.g r.old) st st' r.result r.was in
    let e : st.process.stack.stack_base + r.c ≡ st.process.stack.stack_base + c =
      ap (λ x. st.process.stack.stack_base + x) (c_of f st st' more c r hc) in
    let tags : tag (holds st' (st.process.stack.stack_base + r.c))
        ≡ tag (holds st (st.process.stack.stack_base + r.c)) =
      ap tag now ∙ ap some (tag_of f r.a r.b r.g k r.computes r.old) ∙ ap tag (sym r.was) in
    (em, others j (λ q. ne (q ∙ e)), subst (λ x. tag (holds st' x) ≡ tag (holds st x)) e tags, rest)
