-- ===== src/Generator/Statements.antt =====
-- The statements of src/eople_vmcode_gen.cpp: `GenStatement` for each of them, `GenForInit` and
-- `GenWhen`.
use eople.Base.{
  ℕ, ◌+◌, ◌-◌, Bool, true, false, List, [], ◌∷◌, ◌++◌, Option, none, some, ltb, ◌==◌, ◌&&◌, ◌||◌,
  not, if◌then◌else◌, length, get_elem?,
}
use eople.Base.Text.{Text}
use eople.Types.{ValueType}
use eople.Opcodes.{Opcode, Instruction, InstructionImpl, instruction, opcode_to_instruction}
use eople.Code.{VmCode, to_operand, code_of}
use eople.Machine.Result.{Result, ok, ◌>>=◌, or_fault, assertion}
use eople.Generator.Scope.{get_stack_index, get_expression_type}
use eople.Generator.Ast.{
  Expression, Statement, Statements, Branches, return_nothing, return_of, assign, assign_element,
  for_loop, while_loop, when_block, whenever_block, if_then, call_statement, message_statement,
  nothing, followed_by, no_more, else_if, identifier,
}
use eople.Generator.State.{
  Context, Generator, bump_error, opcode, operands, is_primitive, is_array, store_opcode,
}
use eople.Generator.Expressions.{
  symbol_to_stack, set_stack_object, get_type, write_call, write_message, gen_expression_term,
  gen_arguments,
}
use eople.Generator.Jumps.{
  set_cell, last_op, count_since, jump_of_condition, set_a, add_a, extend_jumps, start_statement,
  set_parts,
}

is_return : Option InstructionImpl → Bool
is_return (some (instruction Instruction.return)) = true
is_return (some (instruction Instruction.return_value)) = true
is_return _ = false

ends_with_return : List VmCode → Bool
unfolding is_return
ends_with_return code = elim (get_elem? code (length code - 1)) [
  | some cell ↦ is_return cell.instruction
  | none ↦ false
]

module _ (cx : Context) (is_ready : Option ℕ) where
  abbrev term : Expression → Bool → Generator → Result (ℕ × Generator)
  term = gen_expression_term cx is_ready

  -- A `Store`, or a `StringCopy`, with the operands given.
  unfoldable pub write_assignment : ℕ → Text → Generator → Result Generator
  unfolding operands get_expression_type
  write_assignment rhs name g =
      let is_call = rhs == cx.storage_end in
      let simple = not (rhs == g.result_index) && (ltb rhs g.first_temp || is_call) in
      elim simple [
        | true ↦ (do
          t ← or_fault assertion (get_expression_type cx.scopes name)
          operands (g.result_index ∷ rhs ∷ []) (opcode (store_opcode t) g))
        | false ↦ ok g
      ]

  unfoldable pub optional_term : Option Expression → Generator → Result (ℕ × Generator)
  unfolding gen_expression_term
  optional_term none g = ok (0, g)
  optional_term (some e) g = term e false g

  -- `GenForInit`: the index of the loop's cell.
  unfoldable pub gen_for_init :
      Text → Expression → Option Expression → Option Expression → Generator → Result (ℕ × Generator)
  unfolding symbol_to_stack gen_expression_term optional_term operands get_type
  gen_for_init counter start stop step g = do
    counter_index ← symbol_to_stack cx counter
    (start_index, g₁) ← term start false g
    (end_index, g₂) ← optional_term stop g₁
    (step_index, g₃) ← optional_term step g₂
    start_type ← get_type cx start
    (elim (is_array start_type) [
      | true ↦ (do
        let g₄ = opcode Opcode.for_a g₃
        g₅ ← operands (counter_index ∷ start_index ∷ []) g₄
        ok (last_op g₄, g₅))
      | false ↦ (do
        counter_type ← get_type cx (identifier counter false)
        g₄ ← operands (counter_index ∷ start_index ∷ []) (opcode Opcode.store g₃)
        let is_float = is_primitive ValueType.float counter_type
        let g₅ = opcode (if is_float then Opcode.for_f else Opcode.for_i) g₄
        g₆ ← operands (counter_index ∷ end_index ∷ step_index ∷ []) g₅
        ok (last_op g₅, g₆))
    ])

  -- `GenWhen` and the registration of its function: the block has code of its own, and shares the
  -- constants. `body` generates its statements.
  unfoldable pub gen_when :
      (Generator → Result Generator)
      → Text
      → Opcode
      → Opcode
      → Expression
      → Generator
      → Result Generator
  unfolding gen_expression_term set_cell symbol_to_stack set_stack_object operands
  gen_when body name op register e g = do
    let outer = start_statement g
    let inner = record outer {
      emitter = record (outer.emitter) { code = [] };
      first_temp = cx.temp_start;
      current_temp = cx.temp_start;
    }
    let g₁ = opcode op inner
    (expr_id, g₂) ← term e false g₁
    g₃ ← body g₂
    g₄ ←
        set_cell (last_op g₁)
          (set_parts expr_id (count_since g₁.emitter.opcode_count g₂)
            (count_since g₂.emitter.opcode_count g₃))
          g₃
    let back = record g₄ {
      emitter = record (g₄.emitter) {
        code = outer.emitter.code;
        opcode_count = outer.emitter.opcode_count;
      };
      first_temp = outer.first_temp;
      current_temp = outer.current_temp;
      blocks = g₄.blocks ++ (name, g₄.emitter.code) ∷ [];
    }
    let g₅ = opcode register back
    index ← symbol_to_stack cx name
    g₆ ←
        set_stack_object cx index
          (record { word = cx.first_block + length g₄.blocks; object_type = ValueType.function }) g₅
    operands (index ∷ []) g₆

  unfoldable mutual
    unfolding gen_when set_cell jump_of_condition extend_jumps write_assignment gen_for_init
        gen_expression_term gen_arguments write_call write_message symbol_to_stack set_stack_object
        operands get_expression_type

    -- `GenStatement`.
    pub gen_statement : Statement → Generator → Result Generator
    gen_statement return_nothing g = ok (opcode Opcode.return (start_statement g))
    gen_statement (return_of e) g = do
      (index, g₁) ← term e false (start_statement g)
      operands (index ∷ []) (opcode Opcode.return_value g₁)
    gen_statement (assign name e) g = do
      left ← symbol_to_stack cx name
      (rhs, g₁) ← term e true (record (start_statement g) { result_index = left })
      write_assignment rhs name g₁
    gen_statement (assign_element name index e) g = do
      left ← or_fault assertion (get_stack_index cx.scopes cx.stray_depth name)
      (rhs, g₁) ← term e true (record (start_statement g) { result_index = left })
      (at, g₂) ← term index false g₁
      element_type ← or_fault assertion (get_expression_type cx.scopes name)
      let is_string = is_primitive ValueType.string element_type
      operands (left ∷ at ∷ rhs ∷ []) (
          opcode
            (if is_string then Opcode.store_array_string_element else Opcode.store_array_element)
            g₂)
    gen_statement (for_loop counter start stop step body) g = do
      (for_index, g₁) ← gen_for_init counter start stop step (start_statement g)
      g₂ ← gen_statements body g₁
      let op_count = count_since g₁.emitter.opcode_count g₂
      set_cell for_index (λ cell. record cell { d = to_operand op_count }) g₂
    gen_statement (while_loop e body) g = do
      let g₁ = opcode Opcode.while (start_statement g)
      (expr_id, g₂) ← term e false g₁
      g₃ ← gen_statements body g₂
      set_cell (last_op g₁)
          (set_parts expr_id (count_since g₁.emitter.opcode_count g₂)
            (count_since g₂.emitter.opcode_count g₃))
          g₃
    gen_statement (when_block name e body) g =
        gen_when (gen_statements body) name Opcode.when Opcode.when_register e g
    gen_statement (whenever_block name e body) g =
        gen_when (gen_statements body) name Opcode.whenever Opcode.whenever_register e g
    gen_statement (if_then e body branches otherwise) g = do
      (expr_id, g₁) ← term e false (start_statement g)
      (jump, g₂) ← jump_of_condition expr_id g₁
      g₃ ← gen_statements body g₂
      g₄ ← set_cell jump (set_a (count_since g₂.emitter.opcode_count g₃)) g₃
      (jumps, last_jump, g₅) ← gen_branches branches [] jump g₄
      gen_else otherwise jumps last_jump g₅
    gen_statement (call_statement name mangled arguments) g = do
      (indices, g₁) ←
          gen_arguments cx is_ready true arguments
            (record (start_statement g) { result_index = g.first_temp })
      (elim indices [ some is ↦ write_call cx name mangled is g₁ | none ↦ ok (bump_error g₁) ])
    gen_statement (message_statement process name mangled arguments) g = do
      call ← symbol_to_stack cx mangled
      process_index ← symbol_to_stack cx process
      (indices, g₁) ← gen_arguments cx is_ready false arguments (start_statement g)
      (elim indices [
        | some is ↦ write_message cx process name call process_index is g₁
        | none ↦ ok g₁
      ])

    pub gen_statements : Statements → Generator → Result Generator
    gen_statements nothing g = ok g
    gen_statements (followed_by s ss) g = do g₁ ← gen_statement s g; gen_statements ss g₁

    -- The else-if blocks: the jumps to the end so far, and the last jump over a block.
    pub gen_branches : Branches → List ℕ → ℕ → Generator → Result (List ℕ × ℕ × Generator)
    gen_branches no_more jumps last_jump g = ok (jumps, last_jump, g)
    gen_branches (else_if e body branches) jumps last_jump g = do
      let g₁ = opcode Opcode.jump g
      let end_jump = last_op g₁
      g₂ ← set_cell last_jump (add_a 1) g₁
      (expr_id, g₃) ← term e false g₂
      (jump, g₄) ← jump_of_condition expr_id g₃
      g₅ ← gen_statements body g₄
      g₆ ← set_cell jump (set_a (count_since g₄.emitter.opcode_count g₅)) g₅
      g₇ ←
          extend_jumps end_jump (count_since g₁.emitter.opcode_count g₆)
            (count_since g.emitter.opcode_count g₆) (jumps ++ end_jump ∷ []) g₆
      gen_branches branches (jumps ++ end_jump ∷ []) jump g₇

    pub gen_else : Statements → List ℕ → ℕ → Generator → Result Generator
    gen_else nothing jumps last_jump g = ok g
    gen_else (followed_by s ss) jumps last_jump g = do
      let g₁ = opcode Opcode.jump g
      let end_jump = last_op g₁
      g₂ ← set_cell last_jump (add_a 1) g₁
      g₃ ← gen_statement s g₂
      g₄ ← gen_statements ss g₃
      extend_jumps end_jump (count_since g₁.emitter.opcode_count g₄)
          (count_since g.emitter.opcode_count g₄) (jumps ++ end_jump ∷ []) g₄

  -- `GenFunction`, of a function that is no template: a return is added where there is none at the
  -- end.
  unfoldable pub gen_function : Statements → Generator → Result Generator
  unfolding gen_statements ends_with_return
  gen_function body g = do
    g₁ ← gen_statements body (record g { first_temp = cx.temp_start; current_temp = cx.temp_start })
    let code = g₁.emitter.code
    ok (
        if ends_with_return code then g₁ else (record g₁ {
          emitter = record (g₁.emitter) {
            code = code ++ code_of (opcode_to_instruction Opcode.return) ∷ [];
          };
        }))
