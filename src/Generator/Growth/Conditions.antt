-- ===== src/Generator/Growth/Conditions.antt =====
-- The conditions for which src/eople_vmcode_gen.cpp writes code.
use eople.Base.{ℕ, ◌+◌, ◌≤◌, ◌<◌, ◌≡◌, Bool, true, false, List, [], ◌∷◌, Option, none, some, arith}
use eople.Types.{Ty}
use eople.Opcodes.{Opcode}
use eople.Machine.Result.{
  Result, ok, err, ◌>>=◌, After, After-bind, After-then, or_fault, assertion,
}
use eople.Generator.Scope.{get_stack_index}
use eople.Generator.Ast.{
  Expression, Statement, Statements, Branches, for_loop, while_loop, when_block, whenever_block,
  if_then, nothing, followed_by, no_more, else_if, identifier, literal, binary_op, call_of,
  message_of, array_subscript,
}
use eople.Generator.State.{
  Context, Generator, opcode, operands, bump_error, is_process, store_opcode,
}
use eople.Generator.Expressions.{
  symbol_to_stack, return_type_of, left_type, chosen, write_call, write_message, place_result,
  copy_returned, copy_call_result, gen_expression_term,
}
use eople.Generator.Growth.Cells.{
  Grows, Grows-refl, Grows-trans, bump-Grows, size, GrowsPair, GrowsMore, GrowsList, cell-GrowsMore,
}
use eople.Generator.Growth.Calls.{write_call-Grows, write_message-Grows}
use eople.Generator.Growth.Expressions.{
  chosen-Grows, place_result-Grows, gen_expression_term-Grows, gen_arguments-Grows,
}

module _ (cx : Context) where
  -- An operator, a subscript, a message, or a call that returns no process.
  abbrev pub HasCode : Expression → Type 0
  HasCode (binary_op op l r) = Unit
  HasCode (array_subscript name index) = Unit
  HasCode (message_of process name mangled arguments) = Unit
  HasCode (call_of name mangled arguments) = is_process (return_type_of cx name mangled) ≡ false
  HasCode (identifier name guard) = ⊥
  HasCode (literal name t o) = ⊥

  -- Every condition of an `if` in a statement has code of its own.
  abbrev mutual
    pub Tested : Statement → Type 0
    Tested (for_loop counter start stop step body) = AllTested body
    Tested (while_loop e body) = AllTested body
    Tested (if_then e body branches otherwise) =
        HasCode e × AllTested body × TestedBranches branches × AllTested otherwise
    Tested (when_block name e body) = AllTested body
    Tested (whenever_block name e body) = AllTested body
    Tested _ = Unit

    pub AllTested : Statements → Type 0
    AllTested nothing = Unit
    AllTested (followed_by s ss) = Tested s × AllTested ss

    pub TestedBranches : Branches → Type 0
    TestedBranches no_more = Unit
    TestedBranches (else_if e body branches) = AllTested body × TestedBranches branches

  abbrev pub MorePair : ℕ → Generator → ℕ × Generator → Type 0
  MorePair n g r = Grows n g r.1 × (size g < size r.1)

  more-from :
      (n : ℕ) (g g₁ : Generator) (m : Result (ℕ × Generator))
      → Grows n g g₁
      → After (MorePair n g₁) m
      → After (MorePair n g) m
  more-from n g g₁ (ok r) p (q, more) = (Grows-trans n g g₁ r.1 p q, omega (arith, p.code.longer))
  more-from n g g₁ (err e) p q = tt

  operator-MorePair :
      (n : ℕ) (op : Opcode) (xs : List ℕ) (is_root : Bool) (g : Generator)
      → n ≤ size g
      → After (MorePair n g) (operands xs (opcode op g) >>= place_result cx is_root)
  operator-MorePair n op xs is_root g le =
      After-then (GrowsMore n g) (MorePair n g) (operands xs (opcode op g))
        (place_result cx is_root) (cell-GrowsMore n op xs g le)
        (λ g' (p, more). placed g' p more _ (place_result-Grows cx n is_root g' (omega arith)))
    where
      placed :
          (g' : Generator)
          → Grows n g g'
          → size g < size g'
          → (m : Result (ℕ × Generator)) → After (GrowsPair n g') m
          → After (MorePair n g) m
      placed g' p more (ok r) q = (Grows-trans n g g' r.1 p q, omega (arith, q.code.longer))
      placed g' p more (err e) q = tt

  copy_returned-MorePair :
      (n : ℕ) (op : Opcode) (is_root : Bool) (g : Generator)
      → n ≤ size g
      → After (MorePair n g) (copy_returned cx op is_root g)
  unfolding copy_returned
  copy_returned-MorePair n op true g le =
      After-then (GrowsMore n g) (MorePair n g) _ _
        (cell-GrowsMore n op (g.result_index ∷ cx.storage_end ∷ []) g le) (λ g' p. p)
  copy_returned-MorePair n op false g le =
      let g₁ = record g { current_temp = g.current_temp + 1 } in
      After-then (GrowsMore n g₁) (MorePair n g) _ _
        (cell-GrowsMore n op (g.current_temp ∷ cx.storage_end ∷ []) g₁ le)
        (λ g' p. (record { code = p.0.code; temps = p.0.temps; pool = p.0.pool }, p.1))

  copy_call_result-MorePair :
      (n : ℕ) (t : Ty) (is_root : Bool) (g : Generator)
      → is_process t ≡ false
      → n ≤ size g
      → After (MorePair n g) (copy_call_result cx t is_root g)
  unfolding copy_call_result
  copy_call_result-MorePair n t is_root g h le =
      rw (h, copy_call_result) (copy_returned-MorePair n (store_opcode t) is_root g le)

  -- The code of such an expression is behind the code that was there.
  pub gen_expression_term-MorePair :
      (is_ready : Option ℕ) (n : ℕ) (e : Expression) (is_root : Bool) (g : Generator)
      → HasCode e
      → n ≤ size g
      → After (MorePair n g) (gen_expression_term cx is_ready e is_root g)
  unfolding gen_expression_term
  gen_expression_term-MorePair is_ready n (identifier name guard) is_root g h le = absurd h
  gen_expression_term-MorePair is_ready n (literal name t o) is_root g h le = absurd h
  gen_expression_term-MorePair is_ready n (binary_op op l r) is_root g h le =
      After-bind (MorePair n g) (left_type cx op l) _ (λ t _.
        let g₀ = (chosen cx op t g).1 in
        let p₀ = chosen-Grows cx n op t g in
        After-then (GrowsPair n g₀) (MorePair n g) _ _
          (gen_expression_term-Grows cx is_ready n l false g₀ (omega (arith, p₀.code.longer)))
          (λ (left, g₁) p₁.
            After-then (GrowsPair n g₁) (MorePair n g) _ _
              (gen_expression_term-Grows cx is_ready n r false g₁
                (omega (arith, p₀.code.longer, p₁.code.longer)))
              (λ (right, g₂) p₂.
                let p = Grows-trans n g g₁ g₂ (Grows-trans n g g₀ g₁ p₀ p₁) p₂ in
                let g₃ = record g₂ { current_temp = g.current_temp } in
                more-from n g g₃ _ (record { code = p.code; temps = p.temps; pool = p.pool })
                  (operator-MorePair n (chosen cx op t g).0 (left ∷ right ∷ []) is_root g₃
                    (omega (arith, p.code.longer))))))
  gen_expression_term-MorePair is_ready n (call_of name mangled arguments) is_root g h le =
      After-then (GrowsList n g) (MorePair n g) _ _
        (gen_arguments-Grows cx is_ready n true arguments g le)
        (λ (indices, g₁) p₁.
          After-then (Grows n g₁) (MorePair n g) _ _
            (written indices g₁ (omega (arith, p₁.code.longer)))
            (λ g₂ p₂.
              let p = Grows-trans n g g₁ g₂ p₁ p₂ in
              more-from n g g₂ _ p (
                copy_call_result-MorePair n (return_type_of cx name mangled) is_root g₂ h
                  (omega (arith, p.code.longer)))))
    where
      written :
          (indices : Option (List ℕ)) (g₁ : Generator)
          → n ≤ size g₁
          → After (Grows n g₁) (elim indices [
            | some is ↦ write_call cx name mangled is g₁
            | none ↦ ok (bump_error g₁)
          ])
      written (some is) g₁ le₁ = write_call-Grows cx n name mangled is g₁ le₁
      written none g₁ le₁ = bump-Grows n g₁
  gen_expression_term-MorePair is_ready n (message_of process name mangled arguments) is_root g h
        le =
      After-bind (MorePair n g) (symbol_to_stack cx mangled) _ (λ call _.
        After-bind (MorePair n g) (symbol_to_stack cx process) _ (λ process_index _.
          After-then (GrowsList n g) (MorePair n g) _ _
            (gen_arguments-Grows cx is_ready n false arguments g le)
            (λ (indices, g₁) p₁.
              After-then (Grows n g₁) (MorePair n g) _ _
                (written call process_index indices g₁ (omega (arith, p₁.code.longer)))
                (λ g₂ p₂.
                  let p = Grows-trans n g g₁ g₂ p₁ p₂ in
                  more-from n g g₂ _ p (
                    copy_returned-MorePair n Opcode.store is_root g₂
                      (omega (arith, p.code.longer)))))))
    where
      written :
          (call process_index : ℕ) (indices : Option (List ℕ)) (g₁ : Generator)
          → n ≤ size g₁
          → After (Grows n g₁) (elim indices [
            | some is ↦ write_message cx process name call process_index is g₁
            | none ↦ ok g₁
          ])
      written call process_index (some is) g₁ le₁ =
          write_message-Grows cx n process name call process_index is g₁ le₁
      written call process_index none g₁ le₁ = Grows-refl n g₁
  gen_expression_term-MorePair is_ready n (array_subscript name index) is_root g h le =
      After-bind (MorePair n g) (or_fault assertion (get_stack_index cx.scopes cx.stray_depth name))
        _
        (λ array _.
          After-then (GrowsPair n g) (MorePair n g) _ _
            (gen_expression_term-Grows cx is_ready n index false g le)
            (λ (at, g₁) p₁. more-from n g g₁ _ p₁ (
              operator-MorePair n Opcode.array_subscript (array ∷ at ∷ []) is_root g₁
                (omega (arith, p₁.code.longer)))))
