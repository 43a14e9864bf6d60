-- ===== src/Generator/Growth/Blocks.antt =====
-- Assignments, the cells of counted loops and the blocks of src/eople_vmcode_gen.cpp.
use eople.Base.{
  ℕ, ◌+◌, ◌≤◌, ◌≡◌, refl, ◌∙◌, Bool, true, false, [], ◌∷◌, ◌++◌, Option, none, some, arith, length,
  ltb, ◌==◌, ◌&&◌, ◌||◌, not, if◌then◌else◌,
}
use eople.Base.Text.{Text}
use eople.Types.{ValueType, Ty}
use eople.Opcodes.{Opcode}
use eople.Machine.Result.{Result, ok, ◌>>=◌, After, After-bind, After-then, or_fault, assertion}
use eople.Generator.Scope.{get_expression_type}
use eople.Generator.Ast.{Expression, identifier}
use eople.Generator.State.{
  Context, Generator, opcode, operands, is_primitive, is_array, store_opcode,
}
use eople.Generator.Expressions.{symbol_to_stack, set_stack_object, get_type}
use eople.Generator.Jumps.{last_op, start_statement}
use eople.Generator.Statements.{write_assignment, gen_for_init, gen_when, optional_term}
use eople.Generator.Growth.{push_opcode-Extends, push_opcode-length}
use eople.Generator.Growth.Cells.{
  Grows, Grows-refl, Grows-trans, size, GrowsPair, operands-Grows, set_stack_object-Grows,
}
use eople.Generator.Growth.Expressions.{gen_expression_term-Grows}
use eople.Generator.Growth.Jumps.{
  JumpAt, cell-Grows, jump-from, jump_cell-JumpAt, opcode-Grows, set_cell-Grows, then-Grows,
}

module _ (cx : Context) (is_ready : Option ℕ) where
  pub write_assignment-Grows :
      (n rhs : ℕ) (name : Text) (g : Generator)
      → n ≤ size g
      → After (Grows n g) (write_assignment cx is_ready rhs name g)
  unfolding write_assignment
  write_assignment-Grows n rhs name g le =
      go (not (rhs == g.result_index) && (ltb rhs g.first_temp || (rhs == cx.storage_end))) _ (
        After-bind (Grows n g) (or_fault assertion (get_expression_type cx.scopes name)) _
          (λ t _. cell-Grows n (store_opcode t) (g.result_index ∷ rhs ∷ []) g le))
    where
      go :
          (t : Bool) (m : Result Generator)
          → After (Grows n g) m
          → After (Grows n g) (elim t [ true ↦ m | false ↦ ok g ])
      go true m q = q
      go false m q = Grows-refl n g

  pub optional_term-Grows :
      (n : ℕ) (e : Option Expression) (g : Generator)
      → n ≤ size g
      → After (GrowsPair n g) (optional_term cx is_ready e g)
  unfolding optional_term
  optional_term-Grows n none g le = Grows-refl n g
  optional_term-Grows n (some e) g le = gen_expression_term-Grows cx is_ready n e false g le

  pub gen_for_init-JumpAt :
      (n : ℕ) (counter : Text) (start : Expression) (stop step : Option Expression) (g : Generator)
      → n ≤ size g
      → After (JumpAt n g) (gen_for_init cx is_ready counter start stop step g)
  unfolding gen_for_init
  gen_for_init-JumpAt n counter start stop step g le =
      After-bind (JumpAt n g) (symbol_to_stack cx counter) _ (λ at _.
        After-then (GrowsPair n g) (JumpAt n g) _ _
          (gen_expression_term-Grows cx is_ready n start false g le)
          (λ (a, g₁) p₁.
            After-then (GrowsPair n g₁) (JumpAt n g) _ _
              (optional_term-Grows n stop g₁ (omega (arith, p₁.code.longer)))
              (λ (b, g₂) p₂.
                After-then (GrowsPair n g₂) (JumpAt n g) _ _
                  (optional_term-Grows n step g₂ (omega (arith, p₁.code.longer, p₂.code.longer)))
                  (λ (c, g₃) p₃.
                    let p = Grows-trans n g g₂ g₃ (Grows-trans n g g₁ g₂ p₁ p₂) p₃ in
                    jump-from n g g₃ _ p (
                      After-bind (JumpAt n g₃) (get_type cx start) _ (λ start_type _.
                        loop_cell (is_array start_type) (get_type cx (identifier counter false)) at
                          a b c g₃ (omega (arith, p.code.longer))))))))
    where
      by_counter : Ty → Opcode
      by_counter t = if is_primitive ValueType.float t then Opcode.for_f else Opcode.for_i

      loop_cell :
          (t : Bool) (counter_type : Result Ty) (at a b c : ℕ) (g₃ : Generator)
          → n ≤ size g₃
          → After (JumpAt n g₃) (elim t [
            | true ↦
                (operands (at ∷ a ∷ []) (opcode Opcode.for_a g₃) >>= λ g₅.
                ok (last_op (opcode Opcode.for_a g₃), g₅))
            | false ↦
                (counter_type >>= λ t'.
                (operands (at ∷ a ∷ []) (opcode Opcode.store g₃) >>= λ g₄.
                (operands (at ∷ b ∷ c ∷ []) (opcode (by_counter t') g₄) >>= λ g₆.
                ok (last_op (opcode (by_counter t') g₄), g₆))))
          ])
      loop_cell true counter_type at a b c g₃ le₃ =
          jump_cell-JumpAt n Opcode.for_a (at ∷ a ∷ []) g₃ le₃
      loop_cell false counter_type at a b c g₃ le₃ =
          After-bind (JumpAt n g₃) counter_type _ (λ t' _.
            After-then (Grows n g₃) (JumpAt n g₃) (operands (at ∷ a ∷ []) (opcode Opcode.store g₃))
              _ (cell-Grows n Opcode.store (at ∷ a ∷ []) g₃ le₃)
              (λ g₄ p₄. jump-from n g₃ g₄ _ p₄ (
                jump_cell-JumpAt n (by_counter t') (at ∷ b ∷ c ∷ []) g₄
                  (omega (arith, p₄.code.longer)))))

  pub gen_when-Grows :
      (n : ℕ) (body : Generator → Result Generator) (name : Text) (op register : Opcode)
      (e : Expression) (g : Generator)
      → n ≤ size g
      → ((g' : Generator) → After (Grows 0 g') (body g'))
      → After (Grows n g) (gen_when cx is_ready body name op register e g)
  unfolding gen_when
  gen_when-Grows n body name op register e g le hb =
      let outer = start_statement g in
      let inner = record outer {
        emitter = record (outer.emitter) { code = [] };
        first_temp = cx.temp_start;
        current_temp = cx.temp_start;
      } in
      let g₁ = opcode op inner in
      let p₁ = opcode-Grows 0 op inner (omega arith) in
      After-then (GrowsPair 0 g₁) (Grows n g) _ _
        (gen_expression_term-Grows cx is_ready 0 e false g₁ (omega arith))
        (λ (expr_id, g₂) p₂. After-then (Grows 0 g₂) (Grows n g) _ _ (hb g₂) (λ g₃ p₃.
          After-then (Grows 0 g₃) (Grows n g) _ _ (set_cell-Grows 0 (last_op g₁) _ g₃ (omega arith))
            (λ g₄ p₄. registered g₄ (p₄.pool ∙ p₃.pool ∙ p₂.pool ∙ p₁.pool))))
    where
      registered :
          (g₄ : Generator)
          → length g₄.constants ≡ length g.constants
          → After (Grows n g) (
              symbol_to_stack cx name >>= λ index.
              (set_stack_object cx index
                  (record {
                    word = cx.first_block + length g₄.blocks;
                    object_type = ValueType.function;
                  })
                  (opcode register (record g₄ {
                    emitter = record (g₄.emitter) {
                      code = g.emitter.code;
                      opcode_count = g.emitter.opcode_count;
                    };
                    first_temp = g.first_temp;
                    current_temp = g.first_temp;
                    blocks = g₄.blocks ++ (name, g₄.emitter.code) ∷ [];
                  }))
                >>= λ g₆. operands (index ∷ []) g₆))
      registered g₄ pool =
          let back = record g₄ {
            emitter = record (g₄.emitter) {
              code = g.emitter.code;
              opcode_count = g.emitter.opcode_count;
            };
            first_temp = g.first_temp;
            current_temp = g.first_temp;
            blocks = g₄.blocks ++ (name, g₄.emitter.code) ∷ [];
          } in
          let g₅ = opcode register back in
          let grown = push_opcode-Extends n register back.emitter le in
          let more = push_opcode-length register back.emitter in
          let p₅ : Grows n g g₅ = record {
            code = record { kept = grown.kept; counted = grown.counted; longer = grown.longer };
            temps = refl;
            pool = pool;
          } in
          After-bind (Grows n g) (symbol_to_stack cx name) _ (λ index _.
            After-then (Grows n g₅) (Grows n g) _ _ (set_stack_object-Grows cx n index _ g₅)
              (λ g₆ p₆.
                then-Grows n g g₆ _ (Grows-trans n g g₅ g₆ p₅ p₆)
                  (operands-Grows n (index ∷ []) g₆ (omega (arith, more, p₆.code.longer)))))
