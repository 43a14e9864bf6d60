-- ===== src/Parser/Elements.antt =====
-- `ParseArrayLiteral`, `ParseDictLiteral`, `ParseFunctionCall` and `ParseProcessMessage` of
-- src/eople_parse.cpp. `expression` is `ParseExpression`; the loops over elements run on fuel.
use eople.Base.{ℕ, zero, suc, Bool, true, false, ◌==◌, if◌then◌else◌}
use eople.Base.Text.{text}
use eople.Lexer.Token.{Token}
use eople.Machine.Result.{Result, ok, err, ◌>>=◌, out_of_fuel}
use eople.Parser.Node.{Node, Pointer, Pointers}
use eople.Parser.State.{
  Parser, Parsed, Action, consume_expected, consume_newlines, bump_error, failed, found_null,
}
use eople.Parser.Symbols.{parse_identifier}
use eople.Parser.Literals.{count_up}
use eople.Parser.Calls.{
  comma, bump_unless, is_node, end_temps, dict_key, name_of, literal_identifier,
  parse_base_function_call,
}

-- The keys and the values of a dictionary.
abbrev pub Entries : Type 0
Entries = Pointers × Pointers

abbrev pub add_pair : Pointer → Pointer → Entries → Entries
add_pair key value (keys, values) = (Pointers.then_also key keys, Pointers.then_also value values)

-- A call as a statement: a null is passed on, a subscript is an error.
abbrev pub as_call : Pointer → Parser → Parsed
as_call Pointer.null q = found_null q
as_call (Pointer.to (Node.call_node ident namespaces arguments)) q =
    ok (Pointer.to (Node.call_node ident namespaces arguments), q)
as_call (Pointer.to node) q = failed q

-- The message of a call; without a call there is an error, unless the line has one already.
abbrev pub as_message : Pointer → Pointer → Parser → Parsed
as_message process Pointer.null q =
    if q.last_line == q.last_error_line then found_null q else failed q
as_message process (Pointer.to call) q =
    ok (Pointer.to (Node.message_node process call), end_temps q)

module _ (expression : Action) where
  unfoldable pub parse_elements : ℕ → Parser → Result (Pointers × Parser)
  unfolding consume_expected consume_newlines
  parse_elements zero p = err out_of_fuel
  parse_elements (suc fuel) p = do
    (element, q) ← expression p
    elim element [
      | Pointer.null ↦ ok (Pointers.none_left, q)
      | Pointer.to node ↦
          (let (another, q₁) = consume_expected comma q in
            elim another [
              | true ↦ (do
                (later, q₂) ← parse_elements fuel (consume_newlines q₁)
                ok (Pointers.then_also (Pointer.to node) later, q₂))
              | false ↦
                  ok (Pointers.then_also (Pointer.to node) Pointers.none_left, consume_newlines q₁)
            ])
    ]

  -- `ParseArrayLiteral`.
  unfoldable pub parse_array_literal : ℕ → Action
  unfolding consume_expected parse_elements literal_identifier bump_error
  parse_array_literal fuel p =
      let (opened, q) = consume_expected (Token.character 91) p in
      elim opened [
        | false ↦ found_null q
        | true ↦ (do
          (ident, q₁) ←
              literal_identifier (text "$arrayliteral") q.labels.arrays
                (record q { labels = record (q.labels) { arrays = count_up q.labels.arrays } })
          (elements, q₂) ← parse_elements fuel q₁
          let (closed, q₃) = consume_expected (Token.character 93) q₂
          ok (Pointer.to (Node.array_literal ident elements), bump_unless closed q₃))
      ]

  -- The loop over the entries, from a key on; a comma without a key behind it ends it without a node.
  unfoldable pub parse_entries : ℕ → Pointer → Parser → Result (Bool × Entries × Parser)
  unfolding consume_expected consume_newlines bump_error dict_key
  parse_entries zero key p = err out_of_fuel
  parse_entries (suc fuel) key p = do
    let (colon, q) = consume_expected (Token.character 58) p
    (value, q₁) ← expression (bump_unless colon q)
    let (another, q₂) = consume_expected comma (bump_unless (is_node value) q₁)
    let q₃ = consume_newlines q₂
    let (named, q₄) = consume_expected Token.tok_identifier q₃
    elim another [
      | false ↦ ok (true, add_pair key value (Pointers.none_left, Pointers.none_left), q₃)
      | true ↦ (elim named [
        | false ↦ ok (false, (Pointers.none_left, Pointers.none_left), q₄)
        | true ↦ (do
          (key', q₅) ← dict_key q₃.lexer.word q₄
          (whole, entries, q₆) ← parse_entries fuel key' q₅
          ok (whole, add_pair key value entries, q₆))
      ])
    ]

  -- `ParseDictLiteral`.
  unfoldable pub parse_dict_literal : ℕ → Action
  unfolding consume_expected literal_identifier dict_key parse_entries bump_error
  parse_dict_literal fuel p =
      let (opened, q) = consume_expected (Token.character 123) p in
      elim opened [
        | false ↦ found_null q
        | true ↦ (do
          (ident, q₁) ←
              literal_identifier (text "$dictliteral") q.labels.dicts
                (record q { labels = record (q.labels) { dicts = count_up q.labels.dicts } })
          (let (named, q₂) = consume_expected Token.tok_identifier q₁ in
              elim named [
                | false ↦ found_null q₂
                | true ↦ (do
                  (key, q₃) ← dict_key q₁.lexer.word q₂
                  (whole, (keys, values), q₄) ← parse_entries fuel key q₃
                  (let (closed, q₅) = consume_expected (Token.character 125) q₄ in
                      if whole
                      then ok
                          (Pointer.to (Node.dict_literal ident keys values), bump_unless closed q₅)
                      else found_null q₄))
              ]))
      ]

  -- `ParseFunctionCall`.
  unfoldable pub parse_function_call : ℕ → Pointer → Bool → Action
  unfolding parse_base_function_call bump_error
  parse_function_call fuel ident need_terminator p = do
    (call, q) ← parse_base_function_call expression fuel ident need_terminator p
    as_call call q

  -- `ParseProcessMessage`.
  unfoldable pub parse_process_message : ℕ → Pointer → Action
  unfolding consume_expected parse_identifier parse_function_call bump_error
  parse_process_message fuel process p =
      let (sent, q) = consume_expected Token.tok_process_message p in
      elim sent [
        | false ↦ found_null q
        | true ↦ (do
          (member, q₁) ← parse_identifier q
          elim (is_node member) [
            | false ↦ (do name ← name_of process; failed q₁)
            | true ↦ (do
              (call, q₂) ← parse_function_call fuel member false q₁
              as_message process call q₂)
          ])
      ]
