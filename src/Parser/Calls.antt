-- ===== src/Parser/Calls.antt =====
-- The parts of an expression that hold other expressions, in src/eople_parse.cpp: parentheses,
-- subscripts, calls, messages, array and dictionary literals. `expression` is `ParseExpression`; the
-- loops over elements run on fuel.
use eople.Base.{ℕ, zero, suc, ◌+◌, Bool, true, false, ◌&&◌, ◌||◌, not, ltb, ◌==◌, if◌then◌else◌}
use eople.Base.Text.{Text, text}
use eople.Symbols.{not_found}
use eople.Lexer.Token.{Token}
use eople.Machine.Result.{Result, ok, err, ◌>>=◌, null_pointer, out_of_fuel}
use eople.Parser.Node.{Node, Pointer, Pointers}
use eople.Parser.State.{
  Parser, Action, consume_token, consume_expected, consume_newlines, is_current, bump_error,
  add_symbol, failed, found_null, token_code,
}
use eople.Parser.Symbols.{search, has_function, parse_identifier}
use eople.Parser.Literals.{char_label, count_up}

abbrev pub open_paren : Token
open_paren = Token.character 40

abbrev pub close_paren : Token
close_paren = Token.character 41

abbrev pub comma : Token
comma = Token.character 44

-- An error where an expected token or node is missing; parsing goes on.
abbrev pub bump_unless : Bool → Parser → Parser
bump_unless t p = if t then p else bump_error p

abbrev pub is_node : Pointer → Bool
is_node Pointer.null = false
is_node (Pointer.to n) = true

-- `m_temp_max` and `m_temp_count` at the end of a statement.
abbrev pub end_temps : Parser → Parser
end_temps p = record p {
  temp_max = if ltb p.temp_max p.temp_count then p.temp_count else p.temp_max;
  temp_count = 0;
}

-- The string literal of a key, with a label of its own.
unfoldable pub subscript_key : Text → Parser → Result (Node × Parser)
unfolding add_symbol char_label
subscript_key name p = do
  let label = char_label (text "$subscriptkey") p.labels.subscript_keys
  (id, p') ← add_symbol label true (record p {
    labels = record (p.labels) { subscript_keys = count_up p.labels.subscript_keys };
  })
  ok (Node.string_literal name id label, p')

unfoldable pub dict_key : Text → Parser → Result (Pointer × Parser)
unfolding add_symbol char_label
dict_key name p = do
  let label = char_label (text "$key") p.labels.keys
  (id, p') ←
      add_symbol label true
        (record p { labels = record (p.labels) { keys = count_up p.labels.keys } })
  ok (Pointer.to (Node.string_literal name id label), p')

-- `GetAsIdentifier()->name`.
abbrev pub name_of : Pointer → Result Text
name_of (Pointer.to (Node.identifier name symbol)) = ok name
name_of _ = err null_pointer

-- An identifier for a literal with elements, under a new label.
unfoldable pub literal_identifier : Text → ℕ → Parser → Result (Node × Parser)
unfolding add_symbol char_label
literal_identifier prefix n p = do
  let label = char_label prefix n
  (id, p') ← add_symbol label true p
  ok (Node.identifier label id, p')

module _ (expression : Action) where
  -- `ParseParExpression`. A null in the parentheses is returned once the closing one is consumed.
  unfoldable pub parse_par_expression : Action
  unfolding consume_expected bump_error
  parse_par_expression p =
      let (opened, q) = consume_expected open_paren p in
      elim opened [
        | false ↦ found_null q
        | true ↦ (do
          (node, q₁) ← expression q
          (let (closed, q₂) = consume_expected close_paren q₁ in
              if closed then ok (node, q₂) else failed q₂))
      ]

  -- `ParseArraySubscript`. A minus sign before the index is consumed and not used.
  unfoldable pub parse_array_subscript : Text → Action
  unfolding consume_expected search bump_error
  parse_array_subscript name p =
      let (opened, q) = consume_expected (Token.character 91) p in
      elim opened [
        | false ↦ found_null q
        | true ↦ (do
          scopes ← has_function q.scopes
          elim (search scopes name == not_found) [
            | true ↦ failed q
            | false ↦ (do
              let (neg, q₁) = consume_expected (Token.character 45) q
              (index, q₂) ← expression q₁
              let (closed, q₃) =
                  consume_expected (Token.character 93) (bump_unless (is_node index) q₂)
              ok (
                Pointer.to (
                    Node.array_subscript (Pointer.to (Node.identifier name (search scopes name)))
                      index),
                bump_unless closed q₃,
              ))
          ])
      ]

  -- The loop over the arguments of a call, from the next one on.
  unfoldable pub parse_arguments : ℕ → Parser → Result (Pointers × Parser)
  unfolding consume_expected consume_newlines
  parse_arguments zero p = err out_of_fuel
  parse_arguments (suc fuel) p = do
    (arg, q) ← expression p
    elim arg [
      | Pointer.null ↦ ok (Pointers.none_left, q)
      | Pointer.to node ↦
          (let (more, q₁) = consume_expected comma (consume_newlines q) in
            elim more [
              | true ↦ (do
                (later, q₂) ← parse_arguments fuel q₁
                ok (Pointers.then_also (Pointer.to node) later, q₂))
              | false ↦ ok (Pointers.then_also (Pointer.to node) Pointers.none_left, q₁)
            ])
    ]

  -- A call behind its opening parenthesis; `first` are the arguments that it has already.
  unfoldable pub parse_call : ℕ → Pointer → (Pointers → Pointers) → Bool → Action
  unfolding consume_expected consume_newlines consume_token bump_error parse_arguments token_code
  parse_call fuel ident first need_terminator p = do
    (arguments, q) ←
        parse_arguments fuel (consume_newlines (record p { temp_count = p.temp_count + 1 }))
    let call = Node.call_node ident p.namespace_stack (first arguments)
    let (closed, q₁) = consume_expected close_paren (consume_newlines q)
    let separated =
        is_current Token.tok_newline q₁
        || is_current Token.tok_eof q₁
        || is_current (Token.character 59) q₁
    (if not closed
        then failed q₁
        else if need_terminator && not separated
        then failed q₁
        else ok (Pointer.to call, if need_terminator then end_temps (consume_token q₁) else q₁))

  -- `ParseBaseFunctionCall`.
  unfoldable pub parse_base_function_call : ℕ → Pointer → Bool → Action
  unfolding consume_expected parse_identifier parse_call subscript_key bump_error
  parse_base_function_call fuel ident need_terminator p =
      let (opened, q) = consume_expected open_paren p in
      elim opened [
        | true ↦ parse_call fuel ident (λ arguments. arguments) need_terminator q
        | false ↦
            (let (struct_call, q₁) = consume_expected Token.tok_struct_call q in
              elim struct_call [
                | false ↦ found_null q₁
                | true ↦ (do
                  (method, q₂) ← parse_identifier q₁
                  elim (is_node method) [
                    | false ↦ (do name ← name_of ident; failed q₂)
                    | true ↦
                        (let (opened', q₃) = consume_expected open_paren q₂ in
                          elim opened' [
                            | true ↦
                                parse_call fuel method (λ arguments. later ident arguments)
                                  need_terminator q₃
                            | false ↦ (do
                              name ← name_of method
                              (key, q₄) ← subscript_key name q₃
                              ok (Pointer.to (Node.array_subscript ident (Pointer.to key)), q₄))
                          ])
                  ])
              ])
      ]
    where
      later : Pointer → Pointers → Pointers
      later Pointer.null arguments = arguments
      later (Pointer.to n) arguments = Pointers.then_also (Pointer.to n) arguments
