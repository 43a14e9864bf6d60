-- ===== src/Generator/Expressions.antt =====
-- The expressions of src/eople_vmcode_gen.cpp: `GetType`, `GenExpressionTerm`, `GenFunctionCall` and
-- `GenProcessMessage`.
use eople.Base.{
  ℕ, ◌+◌, Bool, true, false, List, [], ◌∷◌, Option, none, some, ltb, if◌then◌else◌, length, set,
}
use eople.Base.Text.{Text}
use eople.Types.{Ty, primitive, ValueType, nil_type}
use eople.Symbols.{sub64}
use eople.Opcodes.{Opcode, cfunction}
use eople.Code.{
  push_ccall, push_operand, push_operands, gen_function_call, gen_spawn_process,
  gen_process_message,
}
use eople.Machine.Result.{Result, ok, err, ◌>>=◌, or_fault, assertion}
use eople.Machine.Object.{Object}
use eople.Generator.Scope.{get_stack_index, get_expression_type}
use eople.Generator.Ast.{
  OpType, Expression, Expressions, identifier, literal, binary_op, call_of, message_of,
  array_subscript, done, argument,
}
use eople.Generator.State.{
  Context, Generator, bump_error, opcode, emitting, operands, is_primitive, is_process,
  choose_opcode, operator_type, reads_type, store_opcode,
}

module _ (cx : Context) where
  -- `SYMBOL_TO_STACK`.
  unfoldable pub symbol_to_stack : Text → Result ℕ
  unfolding get_stack_index
  symbol_to_stack key = or_fault assertion (get_stack_index cx.scopes 0 key)

  -- `StackObject( index )`, written.
  unfoldable pub set_stack_object : ℕ → Object → Generator → Result Generator
  set_stack_object index o g =
      let offset = sub64 (sub64 index cx.base_stack_offset) cx.first_constant in
      if ltb offset (length g.constants)
      then ok (record g { constants = set g.constants offset o })
      else err assertion

  abbrev function_object : ℕ → Object
  function_object f = record { word = f; object_type = ValueType.function }

  unfoldable pub return_type_of : Text → Text → Ty
  return_type_of name mangled = elim (cx.get_function name) [
    | some callee ↦ callee.return_type
    | none ↦ cx.call_type mangled
  ]

  -- `GetType`.
  unfoldable pub get_type : Expression → Result Ty
  unfolding get_expression_type return_type_of operator_type
  get_type (identifier name guard) =
      if guard
      then ok (primitive ValueType.bool)
      else or_fault assertion (get_expression_type cx.scopes name)
  get_type (literal name t o) = ok t
  get_type (binary_op op l r) = operator_type op (get_type l)
  get_type (call_of name mangled arguments) = ok (return_type_of name mangled)
  get_type (message_of process name mangled arguments) = ok (return_type_of name mangled)
  get_type (array_subscript name index) = or_fault assertion (get_expression_type cx.scopes name)

  -- The type by which the opcode of an operator is chosen, where it is chosen by a type.
  unfoldable pub left_type : OpType → Expression → Result Ty
  unfolding get_type
  left_type op l = if reads_type op then get_type l else ok nil_type

  -- Whether an argument of a function call has the type nil; those of a message are not looked at.
  unfoldable pub is_rejected : Bool → Expression → Result Bool
  unfolding get_type
  is_rejected checks e =
      if checks then (do t ← get_type e; ok (is_primitive ValueType.nil t)) else ok false

  -- The call that `GenFunctionCall` writes once its arguments are evaluated.
  unfoldable pub write_call : Text → Text → List ℕ → Generator → Result Generator
  unfolding symbol_to_stack set_stack_object emitting
  write_call name mangled indices g = do
    call ← symbol_to_stack mangled
    (elim (cx.get_function name) [
      | some callee ↦ (do
        g' ← set_stack_object call (function_object callee.function) g
        (if is_process callee.return_type
            then emitting (gen_spawn_process g'.result_index call indices) g'
            else emitting (gen_function_call call indices) g'))
      | none ↦ (elim (cx.get_cfunction name) [
        | some target ↦
            emitting (λ e. push_operands indices true (push_ccall (cfunction target) e)) g
        | none ↦ ok (bump_error g)
      ])
    ])

  -- The message that `GenProcessMessage` writes.
  unfoldable pub write_message : Text → Text → ℕ → ℕ → List ℕ → Generator → Result Generator
  unfolding set_stack_object emitting
  write_message process name call process_index indices g =
      elim (cx.get_member_function process name) [
        | some callee ↦ (do
          g' ← set_stack_object call (function_object callee.function) g
          emitting (gen_process_message process_index call indices) g')
        | none ↦ ok (bump_error g)
      ]

  -- Where the value of an operator or a subscript goes: to the result, or to a new temporary.
  unfoldable pub place_result : Bool → Generator → Result (ℕ × Generator)
  unfolding operands
  place_result is_root g = elim is_root [
    | true ↦ (do g' ← operands (g.result_index ∷ []) g; ok (g.result_index, g'))
    | false ↦ (do
      g' ← operands (g.current_temp ∷ []) g
      ok (g.current_temp, record g' { current_temp = g.current_temp + 1 }))
  ]

  -- The copy of what a call returned, from the slot above the frame.
  unfoldable pub copy_returned : Opcode → Bool → Generator → Result (ℕ × Generator)
  unfolding operands
  copy_returned op is_root g = do
    let destination = if is_root then g.result_index else g.current_temp
    let g₁ = if is_root then g else record g { current_temp = g.current_temp + 1 }
    g₂ ← operands (destination ∷ cx.storage_end ∷ []) (opcode op g₁)
    ok (destination, g₂)

  unfoldable pub copy_call_result : Ty → Bool → Generator → Result (ℕ × Generator)
  unfolding copy_returned
  copy_call_result t is_root g = elim (is_process t) [
    | true ↦ ok (
      if is_root then g.result_index else g.current_temp,
      if is_root then g else record g { current_temp = g.current_temp + 1 },
    )
    | false ↦ copy_returned (store_opcode t) is_root g
  ]

  -- The opcode of an operator, and the error that is counted where there is none.
  unfoldable pub chosen : OpType → Ty → Generator → Opcode × Generator
  unfolding choose_opcode
  chosen op t g = elim (choose_opcode op t) [ some o ↦ (o, g) | none ↦ (Opcode.nop, bump_error g) ]

  -- `GenExpressionTerm`. The C function `is_ready` is called for a guard.
  unfoldable mutual
    unfolding symbol_to_stack set_stack_object left_type is_rejected write_call write_message
        place_result copy_returned copy_call_result chosen operands emitting

    pub gen_expression_term :
        (is_ready : Option ℕ) → Expression → Bool → Generator → Result (ℕ × Generator)
    gen_expression_term is_ready (identifier name guard) is_root g = elim guard [
      | true ↦ (elim is_ready [
        | some target ↦ (do
          index ← symbol_to_stack name
          g' ← emitting (λ e. push_operand index true (push_ccall (cfunction target) e)) g
          ok (cx.storage_end, g'))
        | none ↦ ok (cx.storage_end, bump_error g)
      ])
      | false ↦ (do index ← symbol_to_stack name; ok (index, g))
    ]
    gen_expression_term is_ready (literal name t o) is_root g = do
      index ← symbol_to_stack name
      g' ← set_stack_object index o g
      ok (index, g')
    gen_expression_term is_ready (binary_op op l r) is_root g = do
      t ← left_type op l
      let (o, g₀) = chosen op t g
      (left, g₁) ← gen_expression_term is_ready l false g₀
      (right, g₂) ← gen_expression_term is_ready r false g₁
      g₃ ← operands (left ∷ right ∷ []) (opcode o (record g₂ { current_temp = g.current_temp }))
      place_result is_root g₃
    gen_expression_term is_ready (call_of name mangled arguments) is_root g = do
      (indices, g₁) ← gen_arguments is_ready true arguments g
      g₂ ← (elim indices [ some is ↦ write_call name mangled is g₁ | none ↦ ok (bump_error g₁) ])
      copy_call_result (return_type_of name mangled) is_root g₂
    gen_expression_term is_ready (message_of process name mangled arguments) is_root g = do
      call ← symbol_to_stack mangled
      process_index ← symbol_to_stack process
      (indices, g₁) ← gen_arguments is_ready false arguments g
      g₂ ← (elim indices [
        | some is ↦ write_message process name call process_index is g₁
        | none ↦ ok g₁
      ])
      copy_returned Opcode.store is_root g₂
    gen_expression_term is_ready (array_subscript name index) is_root g = do
      array ← or_fault assertion (get_stack_index cx.scopes cx.stray_depth name)
      (at, g₁) ← gen_expression_term is_ready index false g
      g₂ ← operands (array ∷ at ∷ []) (opcode Opcode.array_subscript g₁)
      place_result is_root g₂

    -- The loop over the arguments; `none` for one of type nil, where it is checked.
    pub gen_arguments :
        (is_ready : Option ℕ)
        → Bool
        → Expressions
        → Generator
        → Result (Option (List ℕ) × Generator)
    gen_arguments is_ready checks done g = ok (some [], g)
    gen_arguments is_ready checks (argument e es) g = do
      rejected ← is_rejected checks e
      (elim rejected [
        | true ↦ ok (none, g)
        | false ↦ (do
          (index, g₁) ← gen_expression_term is_ready e false g
          (indices, g₂) ← gen_arguments is_ready checks es g₁
          ok (elim indices [ some is ↦ some (index ∷ is) | none ↦ none ], g₂))
      ])
