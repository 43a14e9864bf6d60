-- ===== src/Parser/Operators.antt =====
-- `ParseOp`, `TokenToOpType` and the nine levels of binary operators of src/eople_parse.cpp, from
-- `ParseTerm` to `ParseExpression`.
pub mod Grammar
pub mod Steps
pub mod Factors
pub mod RoundTrip
pub mod Levels
pub mod Empty
use eople.Base.{ℕ, zero, suc, ◌+◌, Bool, true, false, ◌||◌, Option, none, some, ◌==◌, if◌then◌else◌}
use eople.Base.Text.{Text}
use eople.Lexer.Token.{Token}
use eople.Generator.Ast.{OpType}
use eople.Machine.Result.{Result, ok, err, ◌>>=◌, or_fault, assertion, out_of_fuel}
use eople.Parser.Node.{Node, Pointer}
use eople.Parser.State.{
  Parser, Parsed, Action, consume_token, consume_newlines, bump_error, failed, found_null,
  token_code,
}
use eople.Parser.Factor.{parse_factor}

-- `none` is the failed assertion.
unfoldable pub token_to_op_type : Token → Option OpType
token_to_op_type (Token.character c) =
    if c == 43
    then some OpType.add
    else if c == 45
    then some OpType.sub
    else if c == 42
    then some OpType.mul
    else if c == 47
    then some OpType.div
    else if c == 37
    then some OpType.modulo
    else if c == 62
    then some OpType.gt
    else if c == 60
    then some OpType.lt
    else if c == 38
    then some OpType.band
    else if c == 94
    then some OpType.bxor
    else if c == 124
    then some OpType.bor
    else none
token_to_op_type Token.tok_eq = some OpType.eq
token_to_op_type Token.tok_neq = some OpType.neq
token_to_op_type Token.tok_leq = some OpType.leq
token_to_op_type Token.tok_geq = some OpType.geq
token_to_op_type Token.tok_shift_left = some OpType.shl
token_to_op_type Token.tok_shift_right = some OpType.shr
token_to_op_type Token.tok_and = some OpType.and
token_to_op_type Token.tok_or = some OpType.or
token_to_op_type Token.tok_not = some OpType.not
token_to_op_type Token.tok_process_message = some OpType.call
token_to_op_type _ = none

-- The predicates of the nine functions, from `ParseTerm`, the first level, to `ParseExpression`, the
-- ninth.
unfoldable pub in_level : ℕ → Token → Bool
in_level (suc zero) (Token.character c) = (c == 42) || (c == 47) || (c == 37)
in_level (suc (suc zero)) (Token.character c) = (c == 43) || (c == 45)
in_level (suc (suc (suc zero))) Token.tok_shift_left = true
in_level (suc (suc (suc zero))) Token.tok_shift_right = true
in_level (suc (suc (suc (suc zero)))) (Token.character c) = (c == 62) || (c == 60)
in_level (suc (suc (suc (suc zero)))) Token.tok_eq = true
in_level (suc (suc (suc (suc zero)))) Token.tok_neq = true
in_level (suc (suc (suc (suc zero)))) Token.tok_leq = true
in_level (suc (suc (suc (suc zero)))) Token.tok_geq = true
in_level (suc (suc (suc (suc (suc zero))))) (Token.character c) = c == 38
in_level (suc (suc (suc (suc (suc (suc zero)))))) (Token.character c) = c == 94
in_level (suc (suc (suc (suc (suc (suc (suc zero))))))) (Token.character c) = c == 124
in_level (suc (suc (suc (suc (suc (suc (suc (suc zero)))))))) Token.tok_and = true
in_level (suc (suc (suc (suc (suc (suc (suc (suc (suc zero))))))))) Token.tok_or = true
in_level _ _ = false

-- A missing right side; the line has one error already where the side had one.
abbrev pub no_right_side : Parser → Parsed
no_right_side p = if p.last_line == p.last_error_line then found_null p else failed p

-- The loop of `ParseOp`, with the left side so far.
unfoldable pub parse_more : (Token → Bool) → Action → ℕ → Node → Action
unfolding token_to_op_type consume_token consume_newlines bump_error
parse_more predicate argument zero left p = err out_of_fuel
parse_more predicate argument (suc fuel) left p = elim (predicate p.current_token) [
  | false ↦ ok (Pointer.to left, p)
  | true ↦ (do
    op ← or_fault assertion (token_to_op_type p.current_token)
    (right, q) ←
        argument (consume_newlines (consume_token (record p { temp_count = p.temp_count + 1 })))
    (elim right [
      | Pointer.null ↦ no_right_side q
      | Pointer.to r ↦
          parse_more predicate argument fuel (Node.binary_op op (Pointer.to left) (Pointer.to r)) q
    ]))
]

-- `ParseOp`.
unfoldable pub parse_op : (Token → Bool) → Action → ℕ → Action
unfolding parse_more
parse_op predicate argument fuel p = do
  (left, q) ← argument p
  (elim left [
    | Pointer.null ↦ found_null q
    | Pointer.to l ↦ parse_more predicate argument fuel l q
  ])

-- The function of a level; level 0 is `ParseFactor`.
unfoldable pub parse_level : Action → ℕ → ℕ → Action
unfolding in_level parse_op
parse_level factor fuel zero = factor
parse_level factor fuel (suc level) =
    parse_op (in_level (suc level)) (parse_level factor fuel level) fuel

-- `ParseExpression`; the fuel bounds how deep expressions lie in one another and how long loops are.
unfoldable pub parse_expression : (ℕ → Text) → ℕ → Action
unfolding parse_factor parse_level
parse_expression print_float zero p = err out_of_fuel
parse_expression print_float (suc fuel) p =
    parse_level (parse_factor print_float (parse_expression print_float fuel) fuel) fuel 9 p
