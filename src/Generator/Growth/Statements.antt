-- ===== src/Generator/Growth/Statements.antt =====
-- The code that the statements of src/eople_vmcode_gen.cpp add.
use eople.Base.{
  ℕ, ◌+◌, ◌≤◌, ◌≡◌, refl, ap, ◌∙◌, true, false, List, [], ◌∷◌, Option, arith, length, if◌then◌else◌,
  take,
}
use eople.Types.{ValueType}
use eople.Opcodes.{Opcode}
use eople.Machine.Result.{ok, or_fault, After, After-bind, After-then, After-ok, assertion}
use eople.Generator.Scope.{get_stack_index, get_expression_type}
use eople.Generator.Ast.{
  Statement, Statements, Branches, return_nothing, return_of, assign, assign_element, for_loop,
  while_loop, when_block, whenever_block, if_then, call_statement, message_statement, nothing,
  followed_by, no_more, else_if,
}
use eople.Generator.State.{Context, Generator, opcode, is_primitive}
use eople.Generator.Expressions.{symbol_to_stack}
use eople.Generator.Jumps.{last_op, start_statement}
use eople.Generator.Statements.{gen_statement, gen_statements, gen_branches, gen_else}
use eople.Generator.Growth.Conditions.{
  Tested, AllTested, TestedBranches, MorePair, gen_expression_term-MorePair,
}
use eople.Generator.Growth.{push_opcode-length}
use eople.Generator.Growth.Cells.{Grows, Grows-refl, Grows-trans, size, GrowsPair, GrowsList}
use eople.Generator.Growth.Expressions.{gen_expression_term-Grows, gen_arguments-Grows}
use eople.Generator.Growth.Jumps.{
  AllFrom, AllFrom-push, GrowsSame, JumpAt, cell-Grows, extend_jumps-Grows,
  jump_of_condition-JumpAt, opcode-Grows, reset-Grows, set_cell-Grows, set_cell-GrowsSame,
  then-Grows,
}
use eople.Generator.Growth.Blocks.{gen_for_init-JumpAt, gen_when-Grows, write_assignment-Grows}
use eople.Generator.Growth.Steps.{
  JumpsFrom, jumps-from, followed-Grows, followed-JumpsFrom, tested_branch-Grows, term-Grows,
  call-Grows, message-Grows,
}

take-all {ℓ} : {A : Type ℓ} (xs : List A) → take (length xs) xs ≡ xs
take-all [] = refl
take-all (x ∷ xs) = ap (λ t. x ∷ t) (take-all xs)

module _ (cx : Context) (is_ready : Option ℕ) where
  mutual
    unfolding gen_statement

    pub gen_statement-Grows :
        (n : ℕ) (s : Statement) (g : Generator)
        → Tested cx s
        → n ≤ size g
        → After (Grows n g) (gen_statement cx is_ready s g)
    gen_statement-Grows n return_nothing g h le =
        Grows-trans n g (start_statement g) _ (reset-Grows n _ g)
          (opcode-Grows n Opcode.return (start_statement g) le)
    gen_statement-Grows n (return_of e) g h le =
        then-Grows n g (start_statement g) _ (reset-Grows n _ g) (
          term-Grows cx is_ready n e false (start_statement g) _ le
            (λ (index, g₁) le₁. cell-Grows n Opcode.return_value (index ∷ []) g₁ le₁))
    gen_statement-Grows n (assign name e) g h le =
        After-bind (Grows n g) (symbol_to_stack cx name) _ (λ left _.
          then-Grows n g (record (start_statement g) { result_index = left }) _
            (reset-Grows n left g)
            (term-Grows cx is_ready n e true (record (start_statement g) { result_index = left }) _
              le (λ (rhs, g₁) le₁. write_assignment-Grows cx is_ready n rhs name g₁ le₁)))
    gen_statement-Grows n (assign_element name index e) g h le =
        After-bind (Grows n g) (or_fault assertion (get_stack_index cx.scopes cx.stray_depth name))
          _
          (λ left _.
            then-Grows n g (record (start_statement g) { result_index = left }) _
              (reset-Grows n left g)
              (term-Grows cx is_ready n e true (record (start_statement g) { result_index = left })
                _ le
                (λ (rhs, g₁) le₁. term-Grows cx is_ready n index false g₁ _ le₁ (λ (at, g₂) le₂.
                  After-bind (Grows n g₂) (or_fault assertion (get_expression_type cx.scopes name))
                    _
                    (λ t _.
                      cell-Grows n
                        (if is_primitive ValueType.string t
                          then Opcode.store_array_string_element
                          else Opcode.store_array_element)
                        (left ∷ at ∷ rhs ∷ []) g₂ le₂)))))
    gen_statement-Grows n (for_loop counter start stop step body) g h le =
        then-Grows n g (start_statement g) _ (reset-Grows n _ g) (
          After-then (JumpAt n (start_statement g)) (Grows n (start_statement g)) _ _
            (gen_for_init-JumpAt cx is_ready n counter start stop step (start_statement g) le)
            (λ (for_index, g₁) (p₁, above, below). then-Grows n (start_statement g) g₁ _ p₁ (
              followed-Grows n g₁ _ _ (omega (arith, p₁.code.longer))
                (gen_statements-Grows n body g₁ h (omega (arith, p₁.code.longer)))
                (λ g₂ le₂. set_cell-Grows n for_index _ g₂ above))))
    gen_statement-Grows n (while_loop e body) g h le =
        let g₁ = opcode Opcode.while (start_statement g) in
        let p₁ = opcode-Grows n Opcode.while (start_statement g) le in
        let more = push_opcode-length Opcode.while g.emitter in
        then-Grows n g g₁ _ (Grows-trans n g (start_statement g) g₁ (reset-Grows n _ g) p₁) (
          term-Grows cx is_ready n e false g₁ _ (omega (arith, more)) (λ (expr_id, g₂) le₂.
            followed-Grows n g₂ _ _ le₂ (gen_statements-Grows n body g₂ h le₂)
              (λ g₃ le₃. set_cell-Grows n (last_op g₁) _ g₃ (omega (arith, more)))))
    gen_statement-Grows n (when_block name e body) g h le =
        gen_when-Grows cx is_ready n (gen_statements cx is_ready body) name Opcode.when
          Opcode.when_register e g le (λ g'. gen_statements-Grows 0 body g' h (omega arith))
    gen_statement-Grows n (whenever_block name e body) g h le =
        gen_when-Grows cx is_ready n (gen_statements cx is_ready body) name Opcode.whenever
          Opcode.whenever_register e g le (λ g'. gen_statements-Grows 0 body g' h (omega arith))
    gen_statement-Grows n (if_then e body branches otherwise) g (he, hb, hs, ho) le =
        let g₀ = start_statement g in
        then-Grows n g g₀ _ (reset-Grows n _ g) (
          After-then (MorePair cx n g₀) (Grows n g₀) _ _
            (gen_expression_term-MorePair cx is_ready n e false g₀ he le)
            (λ (expr_id, g₁) (p₁, more). then-Grows n g₀ g₁ _ p₁ (
              After-then (JumpAt n g₁) (Grows n g₁) _ _
                (jump_of_condition-JumpAt n expr_id g₁ (omega arith))
                (λ (jump, g₂) (p₂, above, below). then-Grows n g₁ g₂ _ p₂ (
                  followed-Grows n g₂ _ _ (omega arith)
                    (gen_statements-Grows n body g₂ hb (omega arith))
                    (λ g₃ le₃.
                      followed-Grows n g₃ _ _ le₃ (set_cell-Grows n jump _ g₃ above) (λ g₄ le₄.
                        After-then (JumpsFrom n g₄) (Grows n g₄) _ _
                          (gen_branches-Grows n branches [] jump g₄ hs le₄ tt above)
                          (λ (jumps, last_jump, g₅) (p₅, all, far). then-Grows n g₄ g₅ _ p₅ (
                            gen_else-Grows n otherwise jumps last_jump g₅ ho
                              (omega (arith, p₅.code.longer)) all far)))))))))
    gen_statement-Grows n (call_statement name mangled arguments) g h le =
        let g₀ = record (start_statement g) { result_index = g.first_temp } in
        then-Grows n g g₀ _ (reset-Grows n g.first_temp g) (
          After-then (GrowsList n g₀) (Grows n g₀) _ _
            (gen_arguments-Grows cx is_ready n true arguments g₀ le)
            (λ (indices, g₁) p₁.
              then-Grows n g₀ g₁ _ p₁
                (call-Grows cx is_ready n name mangled indices g₁ (omega (arith, p₁.code.longer)))))
    gen_statement-Grows n (message_statement process name mangled arguments) g h le =
        After-bind (Grows n g) (symbol_to_stack cx mangled) _ (λ call _.
          After-bind (Grows n g) (symbol_to_stack cx process) _ (λ process_index _.
            then-Grows n g (start_statement g) _ (reset-Grows n _ g) (
              After-then (GrowsList n (start_statement g)) (Grows n (start_statement g)) _ _
                (gen_arguments-Grows cx is_ready n false arguments (start_statement g) le)
                (λ (indices, g₁) p₁. then-Grows n (start_statement g) g₁ _ p₁ (
                  message-Grows cx is_ready n process name call process_index indices g₁
                    (omega (arith, p₁.code.longer)))))))

    pub gen_statements-Grows :
        (n : ℕ) (ss : Statements) (g : Generator)
        → AllTested cx ss
        → n ≤ size g
        → After (Grows n g) (gen_statements cx is_ready ss g)
    gen_statements-Grows n nothing g h le = Grows-refl n g
    gen_statements-Grows n (followed_by s ss) g (hs, h) le =
        followed-Grows n g _ _ le (gen_statement-Grows n s g hs le)
          (λ g₁ le₁. gen_statements-Grows n ss g₁ h le₁)

    gen_branches-Grows :
        (n : ℕ) (bs : Branches) (jumps : List ℕ) (last_jump : ℕ) (g : Generator)
        → TestedBranches cx bs
        → n ≤ size g
        → AllFrom n jumps
        → n ≤ last_jump
        → After (JumpsFrom n g) (gen_branches cx is_ready bs jumps last_jump g)
    gen_branches-Grows n no_more jumps last_jump g h le all far = (Grows-refl n g, all, far)
    gen_branches-Grows n (else_if e body branches) jumps last_jump g (hb, hs) le all far =
        let g₁ = opcode Opcode.jump g in
        let more = push_opcode-length Opcode.jump g.emitter in
        let all' = AllFrom-push n (last_op g₁) jumps all (omega (arith, more)) in
        jumps-from n g g₁ _ (opcode-Grows n Opcode.jump g le) (
          After-then (GrowsSame n g₁) (JumpsFrom n g₁) _ _ (set_cell-GrowsSame n last_jump _ g₁ far)
            (λ g₂ (p₂, same). jumps-from n g₁ g₂ _ p₂ (
              After-then (GrowsPair n g₂) (JumpsFrom n g₂) _ _
                (gen_expression_term-Grows cx is_ready n e false g₂ (omega (arith, more)))
                (λ (expr_id, g₃) p₃. jumps-from n g₂ g₃ _ p₃ (
                  tested_branch-Grows n expr_id g₃ _ (omega (arith, more, same, p₃.code.longer))
                    (λ jump g₄ le₄ above.
                      followed-JumpsFrom n g₄ _ _ le₄ (gen_statements-Grows n body g₄ hb le₄)
                        (λ g₅ le₅.
                          followed-JumpsFrom n g₅ _ _ le₅ (set_cell-Grows n jump _ g₅ above)
                            (λ g₆ le₆.
                              followed-JumpsFrom n g₆ _ _ le₆ (extend_jumps-Grows n _ _ _ _ g₆ all')
                                (λ g₇ le₇.
                                  gen_branches-Grows n branches _ jump g₇ hs le₇ all' above)))))))))

    gen_else-Grows :
        (n : ℕ) (ss : Statements) (jumps : List ℕ) (last_jump : ℕ) (g : Generator)
        → AllTested cx ss
        → n ≤ size g
        → AllFrom n jumps
        → n ≤ last_jump
        → After (Grows n g) (gen_else cx is_ready ss jumps last_jump g)
    gen_else-Grows n nothing jumps last_jump g h le all far = Grows-refl n g
    gen_else-Grows n (followed_by s ss) jumps last_jump g (hs, h) le all far =
        let g₁ = opcode Opcode.jump g in
        let more = push_opcode-length Opcode.jump g.emitter in
        let all' = AllFrom-push n (last_op g₁) jumps all (omega (arith, more)) in
        then-Grows n g g₁ _ (opcode-Grows n Opcode.jump g le) (
          followed-Grows n g₁ _ _ (omega (arith, more)) (set_cell-Grows n last_jump _ g₁ far)
            (λ g₂ le₂. followed-Grows n g₂ _ _ le₂ (gen_statement-Grows n s g₂ hs le₂) (λ g₃ le₃.
              followed-Grows n g₃ _ _ le₃ (gen_statements-Grows n ss g₃ h le₃)
                (λ g₄ le₄. extend_jumps-Grows n _ _ _ _ g₄ all'))))

  -- The statements of a body only add cells behind the code that was there, and the counter goes up
  -- by as many: every condition of an `if` among them has code of its own.
  pub gen_statements-appends :
      (ss : Statements) (g g' : Generator)
      → AllTested cx ss
      → gen_statements cx is_ready ss g ≡ ok g'
      → (take (size g) g'.emitter.code ≡ g.emitter.code)
        × (size g ≤ size g')
        × (size g' + g.emitter.opcode_count ≡ size g + g'.emitter.opcode_count)
        × (length g'.constants ≡ length g.constants)
  gen_statements-appends ss g g' h ran =
      let p =
        After-ok (Grows (size g) g) (gen_statements cx is_ready ss g)
          (gen_statements-Grows (size g) ss g h (omega arith)) ran in
      (p.code.kept ∙ take-all g.emitter.code, p.code.longer, p.code.counted, p.pool)
