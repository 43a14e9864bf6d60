-- ===== src/Parser/Operators/Factors.antt =====
-- `ParseFactor` of src/eople_parse.cpp on variables and parentheses.
use eople.Base.{ℕ, ◌≡◌, refl, ap, ◌∙◌, true, false, List, [], ◌∷◌, ◌==◌, arith}
use eople.Base.Text.{Text}
use eople.Symbols.{SymbolTable, not_found}
use eople.Lexer.Token.{Token}
use eople.Lexer.Next.{Lexer}
use eople.Machine.Result.{ok}
use eople.Parser.Node.{Node, Pointer}
use eople.Parser.State.{Parser, Action, consume_token, is_current, token_code, found_null}
use eople.Parser.Symbols.{search, has_function, parse_valid_identifier}
use eople.Parser.Calls.{open_paren, close_paren, parse_par_expression, parse_array_subscript}
use eople.Parser.Factor.{
  ◌or_else◌, parse_function_call_expression, parse_named, parse_plain, parse_factor,
}
use eople.Parser.Operators.Grammar.{Left, head, At, begins_more}
use eople.Parser.Operators.Steps.{consume_token-At, expected-yes, expected-no, is_current-head}

-- Alternatives.
pub or_else-null :
    (first second : Action) (p q : Parser)
    → first p ≡ found_null q
    → (first or_else second) p ≡ second q
unfolding ◌or_else◌
or_else-null first second p q h = rw h refl

or_else-node :
    (first second : Action) (p q : Parser) (n : Node)
    → first p ≡ ok (Pointer.to n, q)
    → (first or_else second) p ≡ ok (Pointer.to n, q)
unfolding ◌or_else◌
or_else-node first second p q n h = rw h refl

has_function-found :
    (name : Text) (scopes : List SymbolTable)
    → (search scopes name == not_found) ≡ false
    → has_function scopes ≡ ok scopes
unfolding search
has_function-found name [] h = cc
has_function-found name (s ∷ contexts) h = refl

-- A name that is a variable.
parse_valid_identifier-found :
    (name : Text) (id : ℕ) (p : Parser)
    → search p.scopes name ≡ id
    → (id == not_found) ≡ false
    → parse_valid_identifier name p ≡ ok (Pointer.to (Node.identifier name id), p)
unfolding parse_valid_identifier
parse_valid_identifier-found name id p e n =
    let known : (search p.scopes name == not_found) ≡ false = ap (λ i. i == not_found) e ∙ n in
    rw (has_function-found name p.scopes known, known, e) refl

parse_array_subscript-null :
    (expression : Action) (name : Text) (p : Parser)
    → is_current (Token.character 91) p ≡ false
    → parse_array_subscript expression name p ≡ found_null p
unfolding parse_array_subscript
parse_array_subscript-null expression name p h =
    let e = expected-no (Token.character 91) p h in rw (e, parse_array_subscript, e) refl

parse_par_expression-null :
    (expression : Action) (p : Parser)
    → is_current open_paren p ≡ false
    → parse_par_expression expression p ≡ found_null p
unfolding parse_par_expression
parse_par_expression-null expression p h =
    let e = expected-no open_paren p h in rw (e, parse_par_expression, e) refl

parse_par_expression-grouped :
    (expression : Action) (node : Node) (p q : Parser)
    → is_current open_paren p ≡ true
    → expression (consume_token p) ≡ ok (Pointer.to node, q)
    → is_current close_paren q ≡ true
    → parse_par_expression expression p ≡ ok (Pointer.to node, consume_token q)
unfolding parse_par_expression
parse_par_expression-grouped expression node p q h inner h' =
    let e = expected-yes open_paren p h in
    let e' = expected-yes close_paren q h' in rw (e, parse_par_expression, e, inner, e') refl

begins_more-false :
    (t : Token)
    → begins_more t ≡ false
    → ((token_code t == 40) ≡ false)
      × ((token_code t == 91) ≡ false)
      × ((token_code t == 298) ≡ false)
      × ((token_code t == 299) ≡ false)
unfolding begins_more
begins_more-false t h = ground arith

module _ (print_float : ℕ → Text) (expression : Action) (fuel : ℕ) where
  parse_function_call_expression-null :
      (name : Text) (p : Parser)
      → is_current Token.tok_struct_call p ≡ false
      → is_current open_paren p ≡ false
      → parse_function_call_expression print_float expression fuel name p ≡ found_null p
  unfolding parse_function_call_expression token_code
  parse_function_call_expression-null name p h h' = rw (h, h') refl

  parse_named-variable :
      (name : Text) (id : ℕ) (p : Parser) (ts : Left)
      → At p ts
      → begins_more (head ts) ≡ false
      → search p.scopes name ≡ id
      → (id == not_found) ≡ false
      → parse_named print_float expression fuel name p
        ≡ ok (Pointer.to (Node.identifier name id), p)
  unfolding parse_named begins_more token_code
  parse_named-variable name id p ts at more e n =
      let (paren, bracket, arrow, point) = begins_more-false (head ts) more in
      let no_message = is_current-head Token.tok_process_message p ts at ∙ arrow in
      let no_method = is_current-head Token.tok_struct_call p ts at ∙ point in
      let no_call = is_current-head open_paren p ts at ∙ paren in
      let no_index = is_current-head (Token.character 91) p ts at ∙ bracket in
      rw no_message (
        or_else-null (parse_function_call_expression print_float expression fuel name)
          (parse_array_subscript expression name or_else parse_valid_identifier name) p p
          (parse_function_call_expression-null name p no_method no_call)
        ∙ or_else-null (parse_array_subscript expression name) (parse_valid_identifier name) p p
            (parse_array_subscript-null expression name p no_index)
        ∙ parse_valid_identifier-found name id p e n)

  parse_plain-named :
      (p : Parser)
      → is_current Token.tok_identifier p ≡ true
      → parse_plain print_float expression fuel p
        ≡ parse_named print_float expression fuel p.lexer.word (consume_token p)
  unfolding parse_plain
  parse_plain-named p h = rw (expected-yes Token.tok_identifier p h, parse_plain) refl

  pub parse_factor-variable :
      (name : Text) (id : ℕ) (lx : Lexer) (p : Parser) (ts : Left)
      → At p ((Token.tok_identifier, lx) ∷ ts)
      → lx.word ≡ name
      → begins_more (head ts) ≡ false
      → search p.scopes name ≡ id
      → (id == not_found) ≡ false
      → parse_factor print_float expression fuel p
        ≡ ok (Pointer.to (Node.identifier name id), consume_token p)
  unfolding parse_factor token_code
  parse_factor-variable name id lx p ts at word more e n =
      let (at', same) = consume_token-At p Token.tok_identifier lx ts at in
      let not_grouped : is_current open_paren p ≡ false =
        is_current-head open_paren p ((Token.tok_identifier, lx) ∷ ts) at in
      let is_name : is_current Token.tok_identifier p ≡ true =
        is_current-head Token.tok_identifier p ((Token.tok_identifier, lx) ∷ ts) at in
      let named =
        parse_named-variable name id (consume_token p) ts at' more
          (ap (λ s. search s name) same.scopes ∙ e) n in
      or_else-null (parse_par_expression expression) (parse_plain print_float expression fuel) p p
        (parse_par_expression-null expression p not_grouped)
      ∙ parse_plain-named p is_name
      ∙ ap (λ w. parse_named print_float expression fuel w (consume_token p))
          (ap (λ l. l.word) at.1 ∙ word)
      ∙ named

  pub parse_factor-grouped :
      (node : Node) (lx lx' : Lexer) (p q : Parser) (ts rest : Left)
      → At p ((open_paren, lx) ∷ ts)
      → expression (consume_token p) ≡ ok (Pointer.to node, q)
      → At q ((close_paren, lx') ∷ rest)
      → parse_factor print_float expression fuel p ≡ ok (Pointer.to node, consume_token q)
  unfolding parse_factor token_code
  parse_factor-grouped node lx lx' p q ts rest at inner at' =
      or_else-node (parse_par_expression expression) (parse_plain print_float expression fuel) p
        (consume_token q) node
        (parse_par_expression-grouped expression node p q
          (is_current-head open_paren p ((open_paren, lx) ∷ ts) at) inner
          (is_current-head close_paren q ((close_paren, lx') ∷ rest) at'))
