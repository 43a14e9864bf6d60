-- ===== src/Parser/Operators/Levels.antt =====
-- The expressions of the grammar, level by level, and `ParseExpression` of src/eople_parse.cpp.
use eople.Base.{ℕ, zero, suc, ◌<◌, ◌≡◌, refl, ap, ◌∙◌, Bool, true, false, ◌||◌, List, ◌∷◌, arith}
use eople.Base.Text.{Text}
use eople.Symbols.{SymbolTable}
use eople.Lexer.Token.{Token}
use eople.Parser.Node.{Node}
use eople.Parser.State.{Parser, Action, consume_token, token_code}
use eople.Parser.Symbols.{search}
use eople.Parser.Calls.{open_paren, close_paren}
use eople.Parser.Factor.{parse_factor}
use eople.Parser.Operators.{in_level, parse_level, parse_expression}
use eople.Parser.Operators.Grammar.{Left, head, At, begins_more, goes_on, Derives, weight}
use eople.Parser.Operators.RoundTrip.{
  Gives, Reaches, Reaches-Gives, parse_op-left, operation-Reaches, Derives-head,
}
use eople.Parser.Operators.Steps.{Same-trans, consume_token-At}
use eople.Parser.Operators.Factors.{parse_factor-variable, parse_factor-grouped}

-- An operator of a level does not make an expression below go on.
in_level-first : (level : ℕ) (t : Token) → in_level (suc level) t ≡ true → goes_on level t ≡ false
unfolding in_level goes_on begins_more token_code
in_level-first zero (Token.character c) h = ground arith
in_level-first (suc zero) (Token.character c) h = ground arith
in_level-first (suc (suc zero)) Token.tok_shift_left h = refl
in_level-first (suc (suc zero)) Token.tok_shift_right h = refl
in_level-first (suc (suc (suc zero))) (Token.character c) h = ground arith
in_level-first (suc (suc (suc zero))) Token.tok_eq h = refl
in_level-first (suc (suc (suc zero))) Token.tok_neq h = refl
in_level-first (suc (suc (suc zero))) Token.tok_leq h = refl
in_level-first (suc (suc (suc zero))) Token.tok_geq h = refl
in_level-first (suc (suc (suc (suc zero)))) (Token.character c) h = ground arith
in_level-first (suc (suc (suc (suc (suc zero))))) (Token.character c) h = ground arith
in_level-first (suc (suc (suc (suc (suc (suc zero)))))) (Token.character c) h = ground arith
in_level-first (suc (suc (suc (suc (suc (suc (suc zero))))))) Token.tok_and h = refl
in_level-first (suc (suc (suc (suc (suc (suc (suc (suc zero)))))))) Token.tok_or h = refl
in_level-first _ _ h = cc

-- What may not stand behind an expression of a level, but for the operators of the level.
abbrev pub below : ℕ → Token → Bool
below zero t = begins_more t
below (suc level) t = goes_on level t

below-goes_on : (level : ℕ) (t : Token) → goes_on level t ≡ false → below level t ≡ false
unfolding goes_on
below-goes_on zero t h = h
below-goes_on (suc level) t h = right_false _ _ h
  where
    right_false : (a b : Bool) → (a || b) ≡ false → b ≡ false
    right_false true b h = cc
    right_false false b h = h

module _ (print_float : ℕ → Text) (scopes : List SymbolTable) where
  abbrev factor_of : ℕ → Action
  factor_of fuel = parse_factor print_float (parse_expression print_float fuel) fuel

  parse_expression-suc :
      (fuel : ℕ) (p : Parser)
      → parse_expression print_float (suc fuel) p ≡ parse_level (factor_of fuel) fuel 9 p
  unfolding parse_expression
  parse_expression-suc fuel p = refl

  Derives-Reaches :
      {level : ℕ} {e : Node} {ts rest : Left} (d : Derives scopes level e ts rest) (fuel : ℕ)
      (p : Parser)
      → weight d < fuel
      → At p ts
      → p.scopes ≡ scopes
      → below level (head rest) ≡ false
      → Reaches (factor_of fuel) fuel level (weight d) p e rest
  unfolding weight parse_level
  Derives-Reaches (Derives.variable name id lx rest w s n) fuel p h at es stops =
      let (at', same) = consume_token-At p Token.tok_identifier lx rest at in
      (
        consume_token p,
        parse_factor-variable print_float (parse_expression print_float fuel) fuel name id lx p rest
            at w stops (ap (λ c. search c name) es ∙ s) n,
        at',
        same,
      )
  Derives-Reaches (Derives.grouped e lx lx' ts rest d) zero p h at es stops =
      absurd (omega (arith, h))
  Derives-Reaches (Derives.grouped e lx lx' ts rest d) (suc fuel) p h at es stops =
      let (at₁, same₁) = consume_token-At p open_paren lx ts at in
      let inner =
        Reaches-Gives (factor_of fuel) fuel 9 (weight d) (consume_token p) e
          ((close_paren, lx') ∷ rest) (omega (arith, h))
          (unfold goes_on in_level begins_more token_code in refl)
          (Derives-Reaches d fuel (consume_token p) (omega (arith, h)) at₁ (same₁.scopes ∙ es)
            (unfold goes_on in_level begins_more token_code in refl)) in
      let (q, ran, at₂, same₂) = inner in
      let (at₃, same₃) = consume_token-At q close_paren lx' rest at₂ in
      (
        consume_token q,
        parse_factor-grouped print_float (parse_expression print_float (suc fuel)) (suc fuel) e lx
            lx' p q ts rest at (parse_expression-suc fuel (consume_token p) ∙ ran) at₂,
        at₃,
        Same-trans p q _ (Same-trans p (consume_token p) q same₁ same₂) same₃,
      )
  Derives-Reaches (Derives.lower level e ts rest d) fuel p h at es stops =
      let (q, ran, at', same) =
        Reaches-Gives (factor_of fuel) fuel level (weight d) p e rest h stops
          (Derives-Reaches d fuel p h at es (below-goes_on level (head rest) stops)) in
      (
        fuel,
        q,
        omega arith,
        parse_op-left level fuel (parse_level (factor_of fuel) fuel level) e p q ran,
        at',
        same,
      )
  Derives-Reaches (Derives.operation level t op l r lx ts us rest i o dl dr) fuel p h at es stops =
      operation-Reaches (factor_of fuel) fuel level (weight dl) (weight dr) t op l r lx p us rest h
        i o (Derives-head dr)
        (Derives-Reaches dl fuel p (omega (arith, h)) at es (in_level-first level t i))
        (λ q at' same.
          Reaches-Gives (factor_of fuel) fuel level (weight dr) q r rest (omega (arith, h)) stops (
            Derives-Reaches dr fuel q (omega (arith, h)) at' (same.scopes ∙ es)
              (below-goes_on level (head rest) stops)))

  -- `ParseExpression` reads every expression of variables, the eighteen binary operators and
  -- parentheses as the grammar of the nine levels derives it, with the operators of a level grouped to
  -- the left: where such an expression stands at the current token, its variables are found in the
  -- scopes, and the token behind it neither is an operator nor makes a call, a message or a subscript of
  -- the last name, the parser returns its tree, stands at the token behind it, and has counted no error
  -- and added no symbol and no label. Two units of fuel more than the
  -- expression has operators and parentheses are enough.
  pub parse_expression-derives :
      {e : Node} {ts rest : Left} (d : Derives scopes 9 e ts rest) (fuel : ℕ) (p : Parser)
      → weight d < fuel
      → At p ts
      → p.scopes ≡ scopes
      → goes_on 9 (head rest) ≡ false
      → Gives (parse_expression print_float (suc fuel)) p e rest
  parse_expression-derives {e} {ts} {rest} d fuel p h at es stops =
      let (q, ran, at', same) =
        Reaches-Gives (factor_of fuel) fuel 9 (weight d) p e rest h stops
          (Derives-Reaches d fuel p h at es (below-goes_on 9 (head rest) stops)) in
      (q, parse_expression-suc fuel p ∙ ran, at', same)
