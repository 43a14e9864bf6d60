-- ===== src/Parser/Factor.antt =====
-- `ParseFunctionCallExpression` and `ParseFactor` of src/eople_parse.cpp.
use eople.Base.{ℕ, Bool, true, false, not, ◌&&◌, if◌then◌else◌}
use eople.Base.Text.{Text}
use eople.Lexer.Token.{Token}
use eople.Machine.Result.{ok, ◌>>=◌}
use eople.Parser.Node.{Node, Pointer}
use eople.Parser.State.{
  Action, consume_expected, is_current, token_code, bump_error, add_symbol, failed, found_null,
}
use eople.Parser.Symbols.{parse_valid_identifier}
use eople.Parser.Literals.{parse_float, parse_int, parse_string, parse_bool, parse_type}
use eople.Parser.Calls.{
  open_paren, parse_par_expression, parse_array_subscript, parse_base_function_call,
}
use eople.Parser.Elements.{parse_array_literal, parse_dict_literal, parse_process_message}

-- The next alternative, from where the first one has left the parser, unless that has a node.
infixr 3 ◌or_else◌
unfoldable pub ◌or_else◌ : Action → Action → Action
(first or_else second) p = do
  (node, q) ← first p
  (elim node [ Pointer.to n ↦ ok (Pointer.to n, q) | Pointer.null ↦ second q ])

-- A literal that takes no sign.
unfoldable pub without_sign : Bool → Action → Action
unfolding bump_error
without_sign signed literal p = do
  (node, q) ← literal p
  (elim node [
    | Pointer.null ↦ found_null q
    | Pointer.to n ↦ (if signed then failed q else ok (Pointer.to n, q))
  ])

-- The same, where what comes next is tried.
unfoldable pub unsigned_or : Bool → Action → Action → Action
unfolding bump_error
unsigned_or signed literal second p = do
  (node, q) ← literal p
  (elim node [
    | Pointer.null ↦ second q
    | Pointer.to n ↦ (if signed then failed q else ok (Pointer.to n, q))
  ])

module _ (print_float : ℕ → Text) (expression : Action) (fuel : ℕ) where
  -- `ParseFunctionCallExpression`.
  unfoldable pub parse_function_call_expression : Text → Action
  unfolding parse_valid_identifier parse_base_function_call add_symbol token_code bump_error
  parse_function_call_expression name p =
      let struct_call = is_current Token.tok_struct_call p in
      if not (is_current open_paren p) && not struct_call then found_null p else (do
        (ident, q) ←
            (if struct_call then parse_valid_identifier name p else (do
              (id, q) ← add_symbol name false p
              ok (Pointer.to (Node.identifier name id), q)))
        (node, q') ← parse_base_function_call expression fuel ident false q
        (elim node [ Pointer.to n ↦ ok (Pointer.to n, q') | Pointer.null ↦ failed q' ]))

  -- `ParseFactor` behind a name.
  unfoldable pub parse_named : Text → Action
  unfolding add_symbol parse_process_message parse_function_call_expression parse_array_subscript
      parse_valid_identifier token_code ◌or_else◌
  parse_named name p =
      if is_current Token.tok_process_message p
      then (do
        (id, q) ← add_symbol name false p
        parse_process_message expression fuel (Pointer.to (Node.identifier name id)) q)
      else (parse_function_call_expression name
            or_else parse_array_subscript expression name
            or_else parse_valid_identifier name)
          p

  -- `ParseFactor` behind the signs.
  unfoldable pub parse_literal : Bool → Bool → Action
  unfolding parse_type parse_array_literal parse_dict_literal parse_float parse_int parse_bool
      parse_string ◌or_else◌ unsigned_or without_sign
  parse_literal neg signed = unsigned_or signed parse_type (
      unsigned_or signed (parse_array_literal expression fuel) (
        unsigned_or signed (parse_dict_literal expression fuel) (
          parse_float print_float neg
          or_else parse_int neg
          or_else unsigned_or signed parse_bool (without_sign signed parse_string))))

  -- `ParseFactor` without parentheses.
  unfoldable pub parse_plain : Action
  unfolding consume_expected token_code parse_named parse_literal
  parse_plain p =
      let (named, q) = consume_expected Token.tok_identifier p in
      let (neg, q₁) = consume_expected (Token.character 45) p in
      let (pos, q₂) = consume_expected (Token.character 43) p in
      if named
      then parse_named p.lexer.word q
      else if neg
      then parse_literal true true q₁
      else parse_literal false pos q₂

  -- `ParseFactor`.
  unfoldable pub parse_factor : Action
  unfolding parse_par_expression parse_plain ◌or_else◌
  parse_factor = parse_par_expression expression or_else parse_plain
