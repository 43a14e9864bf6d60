-- ===== src/Generator/Meaning/Parts.antt =====
-- What `GenExpressionTerm` goes through on variables, literals and operators.
use eople.Base.{
  ℕ, ◌≡◌, refl, ap, ◌∙◌, sym, subst, Bool, true, false, [], ◌∷◌, Option, some, ltb, length, set,
  if◌then◌else◌,
}
use eople.Base.Text.{Text}
use eople.Types.{Ty}
use eople.Symbols.{sub64}
use eople.Opcodes.{Opcode}
use eople.Machine.Result.{Result, ok, err, ◌>>=◌, >>=-eq-ok, assertion}
use eople.Machine.Object.{Object}
use eople.Generator.Ast.{OpType, Expression, identifier, literal, binary_op}
use eople.Generator.State.{Context, Generator, choose_opcode, opcode, operands}
use eople.Generator.Expressions.{
  symbol_to_stack, set_stack_object, left_type, chosen, gen_expression_term, place_result,
}
use eople.Generator.Meaning.Cells.{with_operator, target_of, temps_after, operator-cell}

-- What a part of the generator does that writes no code.
pub record Silent (g g' : Generator) : Type 0 where
  pub emitter : g'.emitter ≡ g.emitter
  pub temps : g'.current_temp ≡ g.current_temp
  pub result : g'.result_index ≡ g.result_index

-- Where the value of an operator is, and the generator that has its cell; the temporaries of its
-- sides are free again.
abbrev pub after_operator : Opcode → ℕ → ℕ → Bool → Generator → Generator → ℕ × Generator
after_operator c left right is_root g g₂ =
    let g₃ = record g₂ { current_temp = g.current_temp } in
    (
      target_of is_root g₃,
      record (with_operator c left right (target_of is_root g₃) g₃) {
        current_temp = temps_after is_root g.current_temp;
      },
    )

module _ (cx : Context) (is_ready : Option ℕ) where
  set_stack_object-Silent :
      (index : ℕ) (o : Object) (g g' : Generator)
      → set_stack_object cx index o g ≡ ok g'
      → Silent g g'
  unfolding set_stack_object
  set_stack_object-Silent index o g g' h = by_test (ltb offset (length g.constants)) h
    where
      offset : ℕ
      offset = sub64 (sub64 index cx.base_stack_offset) cx.first_constant

      filled : Generator
      filled = record g { constants = set g.constants offset o }

      by_test : (t : Bool) → (if t then ok filled else err assertion) ≡ ok g' → Silent g g'
      by_test true e =
          let shape : filled ≡ g' = cc in
          rw (← shape) (record { emitter = refl; temps = refl; result = refl })
      by_test false e = cc

  ok_inj : {m n : ℕ} → ◌≡◌ {A = Result ℕ} (ok m) (ok n) → m ≡ n
  ok_inj e = cc

  out_inj : {m n : ℕ × Generator} → ◌≡◌ {A = Result (ℕ × Generator)} (ok m) (ok n) → m ≡ n
  out_inj e = cc

  placed_at :
      (slot index : ℕ) (g g' : Generator) (r : ℕ × Generator)
      → index ≡ slot
      → Silent g g'
      → ◌≡◌ {A = Result (ℕ × Generator)} (ok (index, g')) (ok r)
      → (r.0 ≡ slot) × Silent g r.1
  placed_at slot index g g' r e s h =
      let shape : (index, g') ≡ r = cc in
      (sym (ap (λ q. q.0) shape) ∙ e, subst (λ q. Silent g q.1) shape s)

  -- A variable and a literal lie where their names do.
  pub identifier-slot :
      (name : Text) (is_root : Bool) (slot : ℕ) (g : Generator) (r : ℕ × Generator)
      → symbol_to_stack cx name ≡ ok slot
      → gen_expression_term cx is_ready (identifier name false) is_root g ≡ ok r
      → (r.0 ≡ slot) × Silent g r.1
  unfolding gen_expression_term
  identifier-slot name is_root slot g r found h =
      let (index, found', e) = >>=-eq-ok (symbol_to_stack cx name) _ h in
      placed_at slot index g g r (ok_inj (sym found' ∙ found))
        (record { emitter = refl; temps = refl; result = refl }) e

  pub literal-slot :
      (name : Text) (t : Ty) (o : Object) (is_root : Bool) (slot : ℕ) (g : Generator)
      (r : ℕ × Generator)
      → symbol_to_stack cx name ≡ ok slot
      → gen_expression_term cx is_ready (literal name t o) is_root g ≡ ok r
      → (r.0 ≡ slot) × Silent g r.1
  unfolding gen_expression_term
  literal-slot name t o is_root slot g r found h =
      let (index, found', h₁) = >>=-eq-ok (symbol_to_stack cx name) _ h in
      let (g', filled, e) = >>=-eq-ok (set_stack_object cx index o g) _ h₁ in
      placed_at slot index g g' r (ok_inj (sym found' ∙ found))
        (set_stack_object-Silent index o g g' filled) e

  -- An operator whose opcode is known: its left side, its right side, and its cell.
  pub binary_op-parts :
      (op : OpType) (t : Ty) (c : Opcode) (l r : Expression) (is_root : Bool) (g : Generator)
      (out : ℕ × Generator)
      → left_type cx op l ≡ ok t
      → choose_opcode op t ≡ some c
      → gen_expression_term cx is_ready (binary_op op l r) is_root g ≡ ok out
      → (left : ℕ) × (g₁ : Generator) × (right : ℕ) × (g₂ : Generator) × (gen_expression_term cx
            is_ready l false g
          ≡ ok (left, g₁))
        × (gen_expression_term cx is_ready r false g₁ ≡ ok (right, g₂))
        × (out ≡ after_operator c left right is_root g g₂)
  unfolding gen_expression_term chosen
  binary_op-parts op t c l r is_root g out ht hc h =
      let picked : chosen cx op t g ≡ (c, g) = rw (hc, chosen) refl in
      let typed = subst (λ m. (m >>= λ t. rest (chosen cx op t g)) ≡ ok out) ht h in
      let h' = subst (λ q. rest q ≡ ok out) picked typed in
      let ((left, g₁), hl, h₁) = >>=-eq-ok (gen_expression_term cx is_ready l false g) _ h' in
      let ((right, g₂), hr, h₂) = >>=-eq-ok (gen_expression_term cx is_ready r false g₁) _ h₁ in
      (left, g₁, right, g₂, hl, hr, last left right g₂ h₂)
    where
      rest : Opcode × Generator → Result (ℕ × Generator)
      rest (o, g₀) = do
        (left, g₁) ← gen_expression_term cx is_ready l false g₀
        (right, g₂) ← gen_expression_term cx is_ready r false g₁
        g₃ ← operands (left ∷ right ∷ []) (opcode o (record g₂ { current_temp = g.current_temp }))
        place_result cx is_root g₃

      last :
          (left right : ℕ) (g₂ : Generator)
          → (operands (left ∷ right ∷ []) (opcode c (record g₂ { current_temp = g.current_temp }))
              >>= place_result cx is_root)
            ≡ ok out
          → out ≡ after_operator c left right is_root g g₂
      last left right g₂ e = out_inj (
          sym e
          ∙ operator-cell cx c left right is_root (record g₂ { current_temp = g.current_temp }))
