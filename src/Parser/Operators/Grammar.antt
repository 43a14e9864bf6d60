-- ===== src/Parser/Operators/Grammar.antt =====
-- The grammar of the expressions of variables, binary operators and parentheses that
-- src/eople_parse.cpp reads, on the tokens that are left.
use eople.Base.{ℕ, zero, suc, ◌+◌, ◌≡◌, Bool, true, false, ◌||◌, List, [], ◌∷◌, some, ◌==◌}
use eople.Base.Text.{Text}
use eople.Symbols.{SymbolTable, not_found}
use eople.Lexer.Token.{Token}
use eople.Lexer.Next.{Lexer}
use eople.Generator.Ast.{OpType}
use eople.Parser.Node.{Node, Pointer}
use eople.Parser.State.{Parser, token_code}
use eople.Parser.Symbols.{search}
use eople.Parser.Calls.{open_paren, close_paren}
use eople.Parser.Operators.{in_level, token_to_op_type}

-- The tokens that are left, from the current one on; behind the last one is the end of the buffer.
abbrev pub Left : Type 0
Left = List (Token × Lexer)

abbrev pub head : Left → Token
head [] = Token.tok_eof
head (t ∷ ts) = t.0

abbrev pub At : Parser → Left → Type 0
At p [] = (p.current_token ≡ Token.tok_eof) × (p.ahead ≡ [])
At p ((t, lx) ∷ ts) = (p.current_token ≡ t) × (p.lexer ≡ lx) × (p.ahead ≡ ts)

-- The tokens that make a name more than a variable.
unfoldable pub begins_more : Token → Bool
unfolding token_code
begins_more t =
    (token_code t == 40) || (token_code t == 91) || (token_code t == 298) || (token_code t == 299)

-- Whether an expression of a level, or the name at its end, goes on with a token.
unfoldable pub goes_on : ℕ → Token → Bool
unfolding begins_more in_level
goes_on zero t = begins_more t
goes_on (suc level) t = in_level (suc level) t || goes_on level t

-- An expression of a level stands before `rest`: a level is the one below it, or an operator of its own
-- between an expression of the same level and one of the level below.
pub data Derives (scopes : List SymbolTable) : ℕ → Node → Left → Left → Type 0 where
  variable :
      (name : Text) (id : ℕ) (lx : Lexer) (rest : Left)
      → lx.word ≡ name
      → search scopes name ≡ id
      → (id == not_found) ≡ false
      → Derives scopes 0 (Node.identifier name id) ((Token.tok_identifier, lx) ∷ rest) rest
  grouped :
      (e : Node) (lx lx' : Lexer) (ts rest : Left)
      → Derives scopes 9 e ts ((close_paren, lx') ∷ rest)
      → Derives scopes 0 e ((open_paren, lx) ∷ ts) rest
  lower :
      (level : ℕ) (e : Node) (ts rest : Left)
      → Derives scopes level e ts rest
      → Derives scopes (suc level) e ts rest
  operation :
      (level : ℕ) (t : Token) (op : OpType) (l r : Node) (lx : Lexer) (ts us rest : Left)
      → in_level (suc level) t ≡ true
      → token_to_op_type t ≡ some op
      → Derives scopes (suc level) l ts ((t, lx) ∷ us)
      → Derives scopes level r us rest
      → Derives scopes (suc level) (Node.binary_op op (Pointer.to l) (Pointer.to r)) ts rest

-- How many operators and parentheses an expression has.
unfoldable pub weight :
    {scopes : List SymbolTable} {level : ℕ} {e : Node} {ts rest : Left}
    → Derives scopes level e ts rest
    → ℕ
weight (Derives.variable name id lx rest w s n) = 0
weight (Derives.grouped e lx lx' ts rest d) = weight d + 1
weight (Derives.lower level e ts rest d) = weight d
weight (Derives.operation level t op l r lx ts us rest i o dl dr) = weight dl + weight dr + 1

-- What the parser of an expression of the grammar leaves alone.
pub record Same (p q : Parser) : Type 0 where
  pub scopes : q.scopes ≡ p.scopes
  pub module_symbols : q.module_symbols ≡ p.module_symbols
  pub namespace_stack : q.namespace_stack ≡ p.namespace_stack
  pub errors : q.error_count ≡ p.error_count
  pub labels : q.labels ≡ p.labels
