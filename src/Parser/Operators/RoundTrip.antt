-- ===== src/Parser/Operators/RoundTrip.antt =====
-- The levels of src/eople_parse.cpp on the expressions of the grammar.
use eople.Base.{
  ℕ, zero, suc, ◌+◌, ◌<◌, ◌≤◌, ◌≡◌, refl, ap, ◌∙◌, sym, subst, Bool, true, false, ◌||◌, List, [],
  ◌∷◌, some, ◌==◌, arith,
}
use eople.Symbols.{SymbolTable}
use eople.Lexer.Token.{Token}
use eople.Lexer.Next.{Lexer}
use eople.Generator.Ast.{OpType}
use eople.Machine.Result.{ok}
use eople.Parser.Node.{Node, Pointer}
use eople.Parser.State.{Parser, Action, consume_token, consume_newlines, token_code}
use eople.Parser.Operators.{in_level, token_to_op_type, parse_more, parse_op, parse_level}
use eople.Parser.Operators.Grammar.{Left, head, At, goes_on, Derives, Same}
use eople.Parser.Operators.Steps.{
  Same-trans, consume_token-At, consume_newlines-none, is_current-head,
}

-- A parse that gives a node and stands before `rest`.
abbrev pub Gives : Action → Parser → Node → Left → Type 0
Gives action p e rest = (q : Parser) × (action p ≡ ok (Pointer.to e, q)) × At q rest × Same p q

current-head : (p : Parser) (ts : Left) → At p ts → p.current_token ≡ head ts
current-head p [] (e, _) = e
current-head p (t ∷ ts) (e, _, _) = e

parse_more-stops :
    (level fuel : ℕ) (argument : Action) (e : Node) (p : Parser) (ts : Left)
    → At p ts
    → in_level (suc level) (head ts) ≡ false
    → parse_more (in_level (suc level)) argument (suc fuel) e p ≡ ok (Pointer.to e, p)
unfolding parse_more
parse_more-stops level fuel argument e p ts at h =
    let e' = ap (in_level (suc level)) (current-head p ts at) ∙ h in rw (parse_more, e') refl

pub parse_op-left :
    (level fuel : ℕ) (argument : Action) (e : Node) (p q : Parser)
    → argument p ≡ ok (Pointer.to e, q)
    → parse_op (in_level (suc level)) argument fuel p
      ≡ parse_more (in_level (suc level)) argument fuel e q
unfolding parse_op
parse_op-left level fuel argument e p q h = rw (h, parse_op) refl

-- Behind an operator.
past_operator : Parser → Parser
past_operator p = consume_newlines (consume_token (record p { temp_count = p.temp_count + 1 }))

past_operator-At :
    (p : Parser) (t : Token) (lx : Lexer) (ts : Left)
    → At p ((t, lx) ∷ ts)
    → (token_code (head ts) == 301) ≡ false
    → At (past_operator p) ts × Same p (past_operator p)
unfolding past_operator token_code
past_operator-At p t lx ts at h =
    let q = record p { temp_count = p.temp_count + 1 } in
    let (at', same) = consume_token-At q t lx ts at in
    let e =
      consume_newlines-none (consume_token q)
        (is_current-head Token.tok_newline (consume_token q) ts at' ∙ h) in
    subst (λ c. At c ts × Same p c) (sym e)
      (
        relined (consume_token q) ts at',
        record {
          scopes = same.scopes;
          module_symbols = same.module_symbols;
          namespace_stack = same.namespace_stack;
          errors = same.errors;
          labels = same.labels;
        },
      )
  where
    relined : (c : Parser) (ts : Left) → At c ts → At (record c { last_line = c.lexer.line }) ts
    relined c [] a = a
    relined c (u ∷ us) a = a

parse_more-step :
    (level fuel : ℕ) (argument : Action) (op : OpType) (l r : Node) (p q : Parser)
    → in_level (suc level) p.current_token ≡ true
    → token_to_op_type p.current_token ≡ some op
    → argument (past_operator p) ≡ ok (Pointer.to r, q)
    → parse_more (in_level (suc level)) argument (suc fuel) l p
      ≡ parse_more
          (in_level (suc level))
          argument
          fuel
          (Node.binary_op op (Pointer.to l) (Pointer.to r))
          q
unfolding parse_more past_operator
parse_more-step level fuel argument op l r p q hi ho ha = rw (parse_more, hi, ho, ha) refl

-- One round of the loop.
pub parse_more-round :
    (level fuel : ℕ) (argument : Action) (t : Token) (op : OpType) (l r : Node) (lx : Lexer)
    (p : Parser) (ts rest : Left)
    → At p ((t, lx) ∷ ts)
    → in_level (suc level) t ≡ true
    → token_to_op_type t ≡ some op
    → (token_code (head ts) == 301) ≡ false
    → ((q : Parser) → At q ts → Same p q → Gives argument q r rest)
    → (q : Parser) × (parse_more (in_level (suc level)) argument (suc fuel) l p
        ≡ parse_more
            (in_level (suc level))
            argument
            fuel
            (Node.binary_op op (Pointer.to l) (Pointer.to r))
            q)
      × At q rest
      × Same p q
unfolding parse_more
parse_more-round level fuel argument t op l r lx p ts rest at hi ho hn k =
    let (at₁, same₁) = past_operator-At p t lx ts at hn in
    let (q, ran, at', same) = k (past_operator p) at₁ same₁ in
    let e = at.0 in
    (
      q,
      parse_more-step level fuel argument op l r p q (ap (in_level (suc level)) e ∙ hi)
          (ap token_to_op_type e ∙ ho) ran,
      at',
      Same-trans p (past_operator p) q same₁ same,
    )

-- An expression does not begin with an end of line.
pub Derives-head :
    {scopes : List SymbolTable} {level : ℕ} {e : Node} {ts rest : Left}
    → Derives scopes level e ts rest
    → (token_code (head ts) == 301) ≡ false
unfolding token_code
Derives-head (Derives.variable name id lx rest w s n) = refl
Derives-head (Derives.grouped e lx lx' ts rest d) = refl
Derives-head (Derives.lower level e ts rest d) = Derives-head d
Derives-head (Derives.operation level t op l r lx ts us rest i o dl dr) = Derives-head dl

-- The loop of a level, with some fuel left, goes on from an expression of the level.
abbrev pub Reaches : Action → ℕ → ℕ → ℕ → Parser → Node → Left → Type 0
Reaches factor fuel zero used p e rest = Gives factor p e rest
Reaches factor fuel (suc level) used p e rest =
    (spare : ℕ) × (q : Parser) × (fuel ≤ spare + used)
    × (parse_level factor fuel (suc level) p
        ≡ parse_more (in_level (suc level)) (parse_level factor fuel level) spare e q)
    × At q rest
    × Same p q

-- Where the level does not go on, it gives the expression.
pub Reaches-Gives :
    (factor : Action) (fuel level used : ℕ) (p : Parser) (e : Node) (rest : Left)
    → used < fuel
    → goes_on level (head rest) ≡ false
    → Reaches factor fuel level used p e rest
    → Gives (parse_level factor fuel level) p e rest
unfolding parse_level goes_on
Reaches-Gives factor fuel zero used p e rest h stops g = g
Reaches-Gives factor fuel (suc level) used p e rest h stops (zero, q, enough, ran, at, same) =
    absurd (omega (arith, enough, h))
Reaches-Gives factor fuel (suc level) used p e rest h stops (suc spare, q, enough, ran, at, same) =
    (
      q,
      ran
          ∙ parse_more-stops level spare (parse_level factor fuel level) e q rest at
              (left_false _ _ stops),
      at,
      same,
    )
  where
    left_false : (a b : Bool) → (a || b) ≡ false → a ≡ false
    left_false true b h = cc
    left_false false b h = refl

-- An operator of the level, with an expression of the level below behind it.
pub operation-Reaches :
    (factor : Action) (fuel level m n : ℕ) (t : Token) (op : OpType) (l r : Node) (lx : Lexer)
    (p : Parser) (us rest : Left)
    → m + n + 1 < fuel
    → in_level (suc level) t ≡ true
    → token_to_op_type t ≡ some op
    → (token_code (head us) == 301) ≡ false
    → Reaches factor fuel (suc level) m p l ((t, lx) ∷ us)
    → ((q : Parser) → At q us → Same p q → Gives (parse_level factor fuel level) q r rest)
    → Reaches factor fuel
        (suc level)
        (m + n + 1)
        p
        (Node.binary_op op (Pointer.to l) (Pointer.to r))
        rest
operation-Reaches factor fuel level m n t op l r lx p us rest h i o hn
      (zero, q, enough, ran, at, same) k =
    absurd (omega (arith, enough, h))
operation-Reaches factor fuel level m n t op l r lx p us rest h i o hn
      (suc spare, q, enough, ran, at, same) k =
    let (q', round, at', same') =
      parse_more-round level spare (parse_level factor fuel level) t op l r lx q us rest at i o hn
        (λ c a s. k c a (Same-trans p q c same s)) in
    (spare, q', omega (arith, enough), ran ∙ round, at', Same-trans p q q' same same')
