-- ===== src/Parser/Operators/Empty.antt =====
-- Empty parentheses in the expressions of src/eople_parse.cpp.
use eople.Base.{ℕ, suc, ◌≡◌, refl, sym, subst, true, ◌∷◌}
use eople.Base.Text.{Text}
use eople.Lexer.Next.{Lexer}
use eople.Parser.State.{Parser, Action, consume_token, is_current, found_null, token_code}
use eople.Parser.Calls.{open_paren, close_paren, parse_par_expression}
use eople.Parser.Factor.{parse_plain, parse_factor}
use eople.Parser.Operators.{parse_expression}
use eople.Parser.Operators.Grammar.{Left, At}
use eople.Parser.Operators.Steps.{consume_token-At, expected-yes, is_current-head}
use eople.Parser.Operators.Factors.{or_else-null}

module _ (print_float : ℕ → Text) (fuel : ℕ) where
  nothing_at_close :
      (p : Parser)
      → parse_expression print_float (suc fuel) (record p { current_token = close_paren })
        ≡ found_null (record p { current_token = close_paren })
  unfolding parse_expression token_code
  nothing_at_close p = refl

  parse_expression-close :
      (p : Parser)
      → p.current_token ≡ close_paren
      → parse_expression print_float (suc fuel) p ≡ found_null p
  parse_expression-close p e =
      subst
        (λ t.
          parse_expression print_float (suc fuel) (record p { current_token = t })
          ≡ found_null (record p { current_token = t }))
        (sym e) (nothing_at_close p)

parse_par_expression-empty :
    (expression : Action) (p q : Parser)
    → is_current open_paren p ≡ true
    → expression (consume_token p) ≡ found_null q
    → is_current close_paren q ≡ true
    → parse_par_expression expression p ≡ found_null (consume_token q)
unfolding parse_par_expression
parse_par_expression-empty expression p q h inner h' =
    let e = expected-yes open_paren p h in
    let e' = expected-yes close_paren q h' in rw (e, parse_par_expression, e, inner, e') refl

-- Empty parentheses in front of a variable, a literal or a call are read over: `ParseFactor` goes on
-- behind them, with no error counted, as if they did not stand there.
pub parse_factor-empty :
    (print_float : ℕ → Text) (fuel m : ℕ) (lx lx' : Lexer) (p : Parser) (ts : Left)
    → At p ((open_paren, lx) ∷ (close_paren, lx') ∷ ts)
    → parse_factor print_float (parse_expression print_float (suc fuel)) m p
      ≡ parse_plain print_float
          (parse_expression print_float (suc fuel))
          m
          (consume_token (consume_token p))
unfolding parse_factor token_code
parse_factor-empty print_float fuel m lx lx' p ts at =
    let expression = parse_expression print_float (suc fuel) in
    let (at', same) = consume_token-At p open_paren lx ((close_paren, lx') ∷ ts) at in
    or_else-null (parse_par_expression expression) (parse_plain print_float expression m) p
      (consume_token (consume_token p))
      (parse_par_expression-empty expression p (consume_token p)
        (is_current-head open_paren p ((open_paren, lx) ∷ (close_paren, lx') ∷ ts) at)
        (parse_expression-close print_float fuel (consume_token p) at'.0)
        (is_current-head close_paren (consume_token p) ((close_paren, lx') ∷ ts) at'))
