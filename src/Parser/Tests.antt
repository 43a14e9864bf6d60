-- ===== src/Parser/Tests.antt =====
-- Small expressions for the parser of src/eople_parse.cpp.
use eople.Base.{ℕ, zero, suc, ◌≡◌, refl, false, [], ◌∷◌, arith}
use eople.Base.Text.{Text, text, text_eq}
use eople.Types.{nil_type}
use eople.Symbols.{SymbolTable, TableEntry, new_table}
use eople.Lexer.Token.{Token}
use eople.Lexer.Next.{Lexer}
use eople.Generator.Ast.{OpType}
use eople.Machine.Result.{Result, ok, err}
use eople.Parser.Node.{Node, Pointer}
use eople.Parser.State.{consume_token, Parser, token_code}
use eople.Parser.Symbols.{search}
use eople.Parser.Operators.{parse_expression, in_level, token_to_op_type}
use eople.Parser.Operators.Grammar.{Left, Derives, weight, goes_on, begins_more}
use eople.Parser.Operators.RoundTrip.{Gives}
use eople.Parser.Operators.Levels.{parse_expression-derives}
use eople.Parser.Operators.Empty.{parse_factor-empty}
use eople.Parser.Factor.{parse_factor, parse_plain}

abbrev entry : Text → ℕ → TableEntry
entry name i = record {
  ident = name;
  target_name = [];
  stack_index = i;
  type_of = nil_type;
  is_constant = false;
}

-- The variables a and b.
abbrev table : SymbolTable
table = record new_table {
  table = (text "b", 1) ∷ (text "a", 0) ∷ [];
  entries = entry (text "a") 0 ∷ entry (text "b") 1 ∷ [];
  next_var_reg = 2;
}

abbrev lexer : Text → Lexer
lexer word = record { rest = []; line = 1; u64 = 0; f64 = 0; word = word }

abbrev name : Text → Token × Lexer
name word = (Token.tok_identifier, lexer word)

abbrev mark : ℕ → Token × Lexer
mark c = (Token.character c, lexer [])

abbrev parser : Token × Lexer → Left → Parser
parser t ts = record {
  lexer = t.1;
  current_token = t.0;
  ahead = ts;
  scopes = table ∷ [];
  module_symbols = new_table;
  namespace_stack = [];
  error_count = 0;
  last_line = 1;
  last_error_line = 0;
  temp_count = 0;
  temp_max = 0;
  labels = record { ints = 0; strings = 0; arrays = 0; dicts = 0; keys = 0; subscript_keys = 0 };
}

abbrev a : Node
a = Node.identifier (text "a") 0

abbrev b : Node
b = Node.identifier (text "b") 1

abbrev binary : OpType → Node → Node → Node
binary op l r = Node.binary_op op (Pointer.to l) (Pointer.to r)

abbrev no_floats : ℕ → Text
no_floats n = []

-- a + b * (a)
abbrev behind_a : Left
behind_a = mark 43 ∷ name (text "b") ∷ mark 42 ∷ mark 40 ∷ name (text "a") ∷ mark 41 ∷ []

abbrev sum : Node
sum = binary OpType.add a (binary OpType.mul b a)

variable_a : (rest : Left) → Derives (table ∷ []) 0 a (name (text "a") ∷ rest) rest
unfolding search text_eq
variable_a rest = Derives.variable (text "a") 0 (lexer (text "a")) rest refl refl refl

variable_b : (rest : Left) → Derives (table ∷ []) 0 b (name (text "b") ∷ rest) rest
unfolding search text_eq
variable_b rest = Derives.variable (text "b") 1 (lexer (text "b")) rest refl refl refl

raise :
    (n : ℕ) (e : Node) (ts rest : Left)
    → Derives (table ∷ []) 0 e ts rest
    → Derives (table ∷ []) n e ts rest
raise zero e ts rest d = d
raise (suc n) e ts rest d = Derives.lower n e ts rest (raise n e ts rest d)

abbrev close_a : Left
close_a = mark 41 ∷ []

abbrev behind_plus : Left
behind_plus = name (text "b") ∷ mark 42 ∷ mark 40 ∷ name (text "a") ∷ mark 41 ∷ []

product : Derives (table ∷ []) 1 (binary OpType.mul b a) behind_plus []
unfolding in_level token_to_op_type raise
product =
    Derives.operation 0 (Token.character 42) OpType.mul b a (lexer []) behind_plus
      (mark 40 ∷ name (text "a") ∷ close_a) [] refl refl
      (Derives.lower 0 b behind_plus _ (variable_b _))
      (Derives.grouped a (lexer []) (lexer []) (name (text "a") ∷ close_a) []
        (raise 9 a (name (text "a") ∷ close_a) close_a (variable_a close_a)))

derivation : Derives (table ∷ []) 9 sum (name (text "a") ∷ behind_a) []
unfolding in_level token_to_op_type raise
derivation = seven (
    Derives.operation 1 (Token.character 43) OpType.add a (binary OpType.mul b a) (lexer [])
      (name (text "a") ∷ behind_a) behind_plus [] refl refl
      (raise 2 a (name (text "a") ∷ behind_a) behind_a (variable_a behind_a)) product)
  where
    seven :
        Derives (table ∷ []) 2 sum (name (text "a") ∷ behind_a) []
        → Derives (table ∷ []) 9 sum (name (text "a") ∷ behind_a) []
    seven d = Derives.lower 8 _ _ _ (
        Derives.lower 7 _ _ _ (
          Derives.lower 6 _ _ _ (
            Derives.lower 5 _ _ _
              (Derives.lower 4 _ _ _ (Derives.lower 3 _ _ _ (Derives.lower 2 _ _ _ d))))))

weighs : weight derivation ≡ 3
unfolding weight derivation product raise variable_a variable_b
weighs = refl

parse_expression-derives_example :
    Gives (parse_expression no_floats 5) (parser (name (text "a")) behind_a) sum []
parse_expression-derives_example =
    parse_expression-derives no_floats (table ∷ []) derivation 4 (parser (name (text "a")) behind_a)
      (omega (arith, weighs)) (refl, refl, refl) refl
      (unfold goes_on in_level begins_more token_code in refl)

error_of : Result (Pointer × Parser) → ℕ
error_of (ok (node, p)) = p.error_count
error_of (err e) = 1000

node_of : Result (Pointer × Parser) → Pointer
node_of (ok (node, p)) = node
node_of (err e) = Pointer.null

-- `() b` is b, without an error.
nothing_in_parentheses :
    let r = parse_expression no_floats 3 (parser (mark 40) (mark 41 ∷ name (text "b") ∷ [])) in
    (node_of r ≡ Pointer.to b) × (error_of r ≡ 0)
unfolding node_of parse_expression error_of
nothing_in_parentheses = (refl, refl)

-- `a[-b]` is `a[b]`, without an error.
sign_of_index :
    let r =
      parse_expression no_floats 3
        (parser (name (text "a")) (mark 91 ∷ mark 45 ∷ name (text "b") ∷ mark 93 ∷ [])) in
    (node_of r ≡ Pointer.to (Node.array_subscript (Pointer.to a) (Pointer.to b))) × (error_of r ≡ 0)
unfolding node_of parse_expression error_of
sign_of_index = (refl, refl)

parse_factor-empty_example :
    let p = parser (mark 40) (mark 41 ∷ name (text "b") ∷ []) in
    parse_factor no_floats (parse_expression no_floats 1) 0 p
    ≡ parse_plain no_floats (parse_expression no_floats 1) 0 (consume_token (consume_token p))
parse_factor-empty_example =
    parse_factor-empty no_floats 0 0 (lexer []) (lexer [])
      (parser (mark 40) (mark 41 ∷ name (text "b") ∷ [])) (name (text "b") ∷ []) (refl, refl, refl)
