-- ===== src/Parser/Operators/Steps.antt =====
-- The steps of the parser of src/eople_parse.cpp on the tokens that are left.
use eople.Base.{subst, ◌≡◌, refl, ap, ◌∙◌, sym, true, false, [], ◌∷◌, ◌==◌}
use eople.Lexer.Token.{Token}
use eople.Lexer.Next.{Lexer}
use eople.Parser.State.{
  Parser, next, consume_token, consume_expected, is_current, token_code, skip_newlines,
  consume_newlines,
}
use eople.Parser.Operators.Grammar.{Left, head, At, Same}

pub Same-refl : (p : Parser) → Same p p
Same-refl p = record {
  scopes = refl;
  module_symbols = refl;
  namespace_stack = refl;
  errors = refl;
  labels = refl;
}

pub Same-trans : (p q r : Parser) → Same p q → Same q r → Same p r
Same-trans p q r a b = record {
  scopes = b.scopes ∙ a.scopes;
  module_symbols = b.module_symbols ∙ a.module_symbols;
  namespace_stack = b.namespace_stack ∙ a.namespace_stack;
  errors = b.errors ∙ a.errors;
  labels = b.labels ∙ a.labels;
}

next-At : (ts : Left) (p : Parser) → p.ahead ≡ ts → At (next ts p) ts × Same p (next ts p)
unfolding next
next-At [] p e = (
  (refl, e),
  record {
    scopes = refl;
    module_symbols = refl;
    namespace_stack = refl;
    errors = refl;
    labels = refl;
  },
)
next-At ((t, lx) ∷ ts) p e = (
  (refl, refl, refl),
  record {
    scopes = refl;
    module_symbols = refl;
    namespace_stack = refl;
    errors = refl;
    labels = refl;
  },
)

-- Behind the first token that is left.
pub consume_token-At :
    (p : Parser) (t : Token) (lx : Lexer) (ts : Left)
    → At p ((t, lx) ∷ ts)
    → At (consume_token p) ts × Same p (consume_token p)
unfolding consume_token
consume_token-At p t lx ts (et, el, ea) =
    let q = record p { last_line = p.lexer.line } in
    let (at, same) = next-At ts q ea in
    subst (λ a. At (next a q) ts × Same p (next a q)) (sym ea)
      (
        at,
        record {
          scopes = same.scopes;
          module_symbols = same.module_symbols;
          namespace_stack = same.namespace_stack;
          errors = same.errors;
          labels = same.labels;
        },
      )

pub expected-yes :
    (token : Token) (p : Parser)
    → is_current token p ≡ true
    → consume_expected token p ≡ (true, consume_token p)
unfolding consume_expected token_code
expected-yes token p h = rw h refl

pub expected-no :
    (token : Token) (p : Parser)
    → is_current token p ≡ false
    → consume_expected token p ≡ (false, p)
unfolding consume_expected token_code
expected-no token p h = rw h refl

skip_newlines-none :
    (ts : Left) (p : Parser) → is_current Token.tok_newline p ≡ false → skip_newlines ts p ≡ p
unfolding skip_newlines token_code
skip_newlines-none [] p h = rw h refl
skip_newlines-none (t ∷ ts) p h = rw (h, skip_newlines) refl

pub consume_newlines-none :
    (p : Parser)
    → is_current Token.tok_newline p ≡ false
    → consume_newlines p ≡ record p { last_line = p.lexer.line }
unfolding consume_newlines
consume_newlines-none p h =
    ap {A = Parser} (λ q. record q { last_line = q.lexer.line }) (skip_newlines-none p.ahead p h)

-- A test of the current token is one of the first token that is left.
pub is_current-head :
    (token : Token) (p : Parser) (ts : Left)
    → At p ts
    → is_current token p ≡ (token_code (head ts) == token_code token)
is_current-head token p [] (e, _) = ap (λ t. token_code t == token_code token) e
is_current-head token p ((t, lx) ∷ ts) (e, _, _) = ap (λ t. token_code t == token_code token) e
