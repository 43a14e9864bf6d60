-- ===== src/Generator/Growth/Expressions.antt =====
-- The code that the expressions of src/eople_vmcode_gen.cpp add.
use eople.Base.{
  ℕ, ◌+◌, ◌≤◌, ◌<◌, refl, Bool, true, false, List, [], ◌∷◌, Option, none, some, arith,
  if◌then◌else◌,
}
use eople.Types.{Ty}
use eople.Opcodes.{Opcode, cfunction}
use eople.Code.{Emitter, push_ccall, push_operand}
use eople.Machine.Result.{Result, ok, ◌>>=◌, or_fault, After, After-bind, After-then, assertion}
use eople.Generator.Scope.{get_stack_index}
use eople.Generator.Ast.{
  OpType, Expression, Expressions, identifier, literal, binary_op, call_of, message_of,
  array_subscript, done, argument,
}
use eople.Generator.State.{
  Context, Generator, bump_error, opcode, emitting, operands, is_process, choose_opcode,
  store_opcode,
}
use eople.Generator.Expressions.{
  symbol_to_stack, return_type_of, left_type, is_rejected, write_call, write_message, place_result,
  copy_returned, copy_call_result, chosen, gen_expression_term, gen_arguments,
}
use eople.Generator.Growth.{Extends-refl, ccall-operand-Extends}
use eople.Generator.Growth.Cells.{
  Grows, size, Grows-refl, bump-Grows, Grows-trans, GrowsPair, set_stack_object-Grows, GrowsMore,
  cell-GrowsMore, operands-Grows, from, GrowsList, emitting-Grows,
}
use eople.Generator.Growth.Calls.{write_call-Grows, write_message-Grows}

module _ (cx : Context) where
  pub place_result-Grows :
      (n : ℕ) (is_root : Bool) (g : Generator)
      → n < size g
      → After (GrowsPair n g) (place_result cx is_root g)
  unfolding place_result
  place_result-Grows n true g le =
      After-then (Grows n g) (GrowsPair n g) (operands (g.result_index ∷ []) g) _
        (operands-Grows n (g.result_index ∷ []) g le) (λ g' p. p)
  place_result-Grows n false g le =
      After-then (Grows n g) (GrowsPair n g) (operands (g.current_temp ∷ []) g) _
        (operands-Grows n (g.current_temp ∷ []) g le)
        (λ g' p. record { code = p.code; temps = p.temps; pool = p.pool })

  pub copy_returned-Grows :
      (n : ℕ) (op : Opcode) (is_root : Bool) (g : Generator)
      → n ≤ size g
      → After (GrowsPair n g) (copy_returned cx op is_root g)
  unfolding copy_returned
  copy_returned-Grows n op true g le =
      After-then (GrowsMore n g) (GrowsPair n g) _ _
        (cell-GrowsMore n op (g.result_index ∷ cx.storage_end ∷ []) g le) (λ g' p. p.0)
  copy_returned-Grows n op false g le =
      let g₁ = record g { current_temp = g.current_temp + 1 } in
      After-then (GrowsMore n g₁) (GrowsPair n g) _ _
        (cell-GrowsMore n op (g.current_temp ∷ cx.storage_end ∷ []) g₁ le)
        (λ g' p. record { code = p.0.code; temps = p.0.temps; pool = p.0.pool })

  copy_call_result-Grows :
      (n : ℕ) (t : Ty) (is_root : Bool) (g : Generator)
      → n ≤ size g
      → After (GrowsPair n g) (copy_call_result cx t is_root g)
  unfolding copy_call_result
  copy_call_result-Grows n t is_root g le = go (is_process t) is_root
    where
      go :
          (p root : Bool)
          → After (GrowsPair n g) (elim p [
            | true ↦ ok (
              if root then g.result_index else g.current_temp,
              if root then g else record g { current_temp = g.current_temp + 1 },
            )
            | false ↦ copy_returned cx (store_opcode t) root g
          ])
      go true true = Grows-refl n g
      go true false = record { code = Extends-refl n g.emitter; temps = refl; pool = refl }
      go false root = copy_returned-Grows n (store_opcode t) root g le

  pub chosen-Grows : (n : ℕ) (op : OpType) (t : Ty) (g : Generator) → Grows n g (chosen cx op t g).1
  unfolding chosen
  chosen-Grows n op t g = go (choose_opcode op t)
    where
      go :
          (o : Option Opcode)
          → Grows n g
              (elim o as (λ _. Opcode × Generator) [
                | some c ↦ (c, g)
                | none ↦ (Opcode.nop, bump_error g)
              ]).1
      go none = bump-Grows n g
      go (some c) = Grows-refl n g

  -- An operator or a subscript: its cell and the place of its value.
  operator-Grows :
      (n : ℕ) (op : Opcode) (xs : List ℕ) (is_root : Bool) (g : Generator)
      → n ≤ size g
      → After (GrowsPair n g) (operands xs (opcode op g) >>= place_result cx is_root)
  operator-Grows n op xs is_root g le =
      After-then (GrowsMore n g) (GrowsPair n g) (operands xs (opcode op g))
        (place_result cx is_root) (cell-GrowsMore n op xs g le)
        (λ g' (p, more). from n g g' _ p (place_result-Grows n is_root g' (omega arith)))

  mutual
    unfolding gen_expression_term

    pub gen_expression_term-Grows :
        (is_ready : Option ℕ) (n : ℕ) (e : Expression) (is_root : Bool) (g : Generator)
        → n ≤ size g
        → After (GrowsPair n g) (gen_expression_term cx is_ready e is_root g)
    gen_expression_term-Grows (some target) n (identifier name true) is_root g le =
        After-bind (GrowsPair n g) (symbol_to_stack cx name) _ (λ index _.
          let f : Emitter → Option Emitter =
            λ e. push_operand index true (push_ccall (cfunction target) e) in
          After-then (Grows n g) (GrowsPair n g) (emitting f g) (λ g'. ok (cx.storage_end, g'))
            (emitting-Grows n f g
              (λ e' h. ccall-operand-Extends n index (cfunction target) g.emitter e' le h))
            (λ g' p. p))
    gen_expression_term-Grows none n (identifier name true) is_root g le = bump-Grows n g
    gen_expression_term-Grows is_ready n (identifier name false) is_root g le =
        After-bind (GrowsPair n g) (symbol_to_stack cx name) _ (λ index _. Grows-refl n g)
    gen_expression_term-Grows is_ready n (literal name t o) is_root g le =
        After-bind (GrowsPair n g) (symbol_to_stack cx name) _ (λ index _.
          After-then (Grows n g) (GrowsPair n g) _ _ (set_stack_object-Grows cx n index o g)
            (λ g' p. p))
    gen_expression_term-Grows is_ready n (binary_op op l r) is_root g le =
        After-bind (GrowsPair n g) (left_type cx op l) _ (λ t _.
          let g₀ = (chosen cx op t g).1 in
          let p₀ = chosen-Grows n op t g in
          After-then (GrowsPair n g₀) (GrowsPair n g) _ _
            (gen_expression_term-Grows is_ready n l false g₀ (omega (arith, p₀.code.longer)))
            (λ (left, g₁) p₁.
              After-then (GrowsPair n g₁) (GrowsPair n g) _ _
                (gen_expression_term-Grows is_ready n r false g₁
                  (omega (arith, p₀.code.longer, p₁.code.longer)))
                (λ (right, g₂) p₂.
                  let p = Grows-trans n g g₁ g₂ (Grows-trans n g g₀ g₁ p₀ p₁) p₂ in
                  let g₃ = record g₂ { current_temp = g.current_temp } in
                  from n g g₃ _ (record { code = p.code; temps = p.temps; pool = p.pool })
                    (operator-Grows n (chosen cx op t g).0 (left ∷ right ∷ []) is_root g₃
                      (omega (arith, p.code.longer))))))
    gen_expression_term-Grows is_ready n (call_of name mangled arguments) is_root g le =
        After-then (GrowsList n g) (GrowsPair n g) _ _
          (gen_arguments-Grows is_ready n true arguments g le)
          (λ (indices, g₁) p₁.
            After-then (Grows n g₁) (GrowsPair n g) _ _
              (written indices g₁ (omega (arith, p₁.code.longer)))
              (λ g₂ p₂.
                let p = Grows-trans n g g₁ g₂ p₁ p₂ in
                from n g g₂ _ p (
                  copy_call_result-Grows n (return_type_of cx name mangled) is_root g₂
                    (omega (arith, p.code.longer)))))
      where
        written :
            (indices : Option (List ℕ)) (g₁ : Generator)
            → n ≤ size g₁
            → After (Grows n g₁) (elim indices [
              | some is ↦ write_call cx name mangled is g₁
              | none ↦ ok (bump_error g₁)
            ])
        written (some is) g₁ le₁ = write_call-Grows cx n name mangled is g₁ le₁
        written none g₁ le₁ = bump-Grows n g₁
    gen_expression_term-Grows is_ready n (message_of process name mangled arguments) is_root g le =
        After-bind (GrowsPair n g) (symbol_to_stack cx mangled) _ (λ call _.
          After-bind (GrowsPair n g) (symbol_to_stack cx process) _ (λ process_index _.
            After-then (GrowsList n g) (GrowsPair n g) _ _
              (gen_arguments-Grows is_ready n false arguments g le)
              (λ (indices, g₁) p₁.
                After-then (Grows n g₁) (GrowsPair n g) _ _
                  (written call process_index indices g₁ (omega (arith, p₁.code.longer)))
                  (λ g₂ p₂.
                    let p = Grows-trans n g g₁ g₂ p₁ p₂ in
                    from n g g₂ _ p (
                      copy_returned-Grows n Opcode.store is_root g₂
                        (omega (arith, p.code.longer)))))))
      where
        written :
            (call process_index : ℕ) (indices : Option (List ℕ)) (g₁ : Generator)
            → n ≤ size g₁
            → After (Grows n g₁) (elim indices [
              | some is ↦ write_message cx process name call process_index is g₁
              | none ↦ ok g₁
            ])
        written call process_index (some is) g₁ le₁ =
            write_message-Grows cx n process name call process_index is g₁ le₁
        written call process_index none g₁ le₁ = Grows-refl n g₁
    gen_expression_term-Grows is_ready n (array_subscript name index) is_root g le =
        After-bind (GrowsPair n g)
          (or_fault assertion (get_stack_index cx.scopes cx.stray_depth name)) _
          (λ array _.
            After-then (GrowsPair n g) (GrowsPair n g) _ _
              (gen_expression_term-Grows is_ready n index false g le)
              (λ (at, g₁) p₁. from n g g₁ _ p₁ (
                operator-Grows n Opcode.array_subscript (array ∷ at ∷ []) is_root g₁
                  (omega (arith, p₁.code.longer)))))

    pub gen_arguments-Grows :
        (is_ready : Option ℕ) (n : ℕ) (checks : Bool) (es : Expressions) (g : Generator)
        → n ≤ size g
        → After (GrowsList n g) (gen_arguments cx is_ready checks es g)
    gen_arguments-Grows is_ready n checks done g le = Grows-refl n g
    gen_arguments-Grows is_ready n checks (argument e es) g le =
        After-bind (GrowsList n g) (is_rejected cx checks e) _ (λ rejected _. checked rejected _ (
          After-then (GrowsPair n g) (GrowsList n g) _ _
            (gen_expression_term-Grows is_ready n e false g le)
            (λ (index, g₁) p₁.
              After-then (GrowsList n g₁) (GrowsList n g) _ _
                (gen_arguments-Grows is_ready n checks es g₁ (omega (arith, p₁.code.longer)))
                (λ (indices, g₂) p₂. Grows-trans n g g₁ g₂ p₁ p₂))))
      where
        checked :
            (t : Bool) (m : Result (Option (List ℕ) × Generator))
            → After (GrowsList n g) m
            → After (GrowsList n g) (elim t [ true ↦ ok (none, g) | false ↦ m ])
        checked true m q = Grows-refl n g
        checked false m q = q
