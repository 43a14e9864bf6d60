-- ===== src/Parser/State.antt =====
-- `Parser` of inc/eople_parse.h: its state, and the tokens it takes from the lexer.
use eople.Base.{ℕ, ◌+◌, Bool, true, false, List, [], ◌∷◌, ◌==◌, if◌then◌else◌}
use eople.Base.Text.{Text, text}
use eople.Symbols.{SymbolTable, get_table_entry_index}
use eople.Lexer.Token.{Token}
use eople.Lexer.Next.{Lexer}
use eople.Machine.Result.{Result, ok, err, null_pointer}
use eople.Parser.Node.{Pointer}

-- The values of the enumerators; `m_current_token` is a `u32`.
unfoldable pub token_code : Token → ℕ
token_code Token.tok_number_int = 256
token_code Token.tok_number_float = 257
token_code Token.tok_bool = 258
token_code Token.tok_identifier = 259
token_code Token.tok_string = 260
token_code Token.tok_namespace = 261
token_code Token.tok_import = 262
token_code Token.tok_from = 263
token_code Token.tok_struct = 264
token_code Token.tok_function = 265
token_code Token.tok_class = 266
token_code Token.tok_end = 267
token_code Token.tok_if = 268
token_code Token.tok_else = 269
token_code Token.tok_elseif = 270
token_code Token.tok_for = 271
token_code Token.tok_in = 272
token_code Token.tok_to = 273
token_code Token.tok_by = 274
token_code Token.tok_while = 275
token_code Token.tok_when = 276
token_code Token.tok_whenever = 277
token_code Token.tok_return = 278
token_code Token.tok_break = 279
token_code Token.tok_private = 280
token_code Token.tok_const = 281
token_code Token.tok_true = 282
token_code Token.tok_false = 283
token_code Token.tok_and = 284
token_code Token.tok_or = 285
token_code Token.tok_not = 286
token_code Token.tok_eq = 287
token_code Token.tok_neq = 288
token_code Token.tok_leq = 289
token_code Token.tok_geq = 290
token_code Token.tok_add_assign = 291
token_code Token.tok_sub_assign = 292
token_code Token.tok_mul_assign = 293
token_code Token.tok_div_assign = 294
token_code Token.tok_mod_assign = 295
token_code Token.tok_shift_left = 296
token_code Token.tok_shift_right = 297
token_code Token.tok_process_message = 298
token_code Token.tok_struct_call = 299
token_code Token.tok_scope = 300
token_code Token.tok_newline = 301
token_code Token.tok_eof = 302
token_code (Token.character c) = c

-- The counters of the labels of literals, each a static `char` of one function.
pub record Labels : Type 0 where
  pub ints : ℕ
  pub strings : ℕ
  pub arrays : ℕ
  pub dicts : ℕ
  pub keys : ℕ
  pub subscript_keys : ℕ

-- `ahead` are the tokens that the lexer still gives, each with the lexer behind it, and `m_lex` is
-- behind the current one. `scopes` are the symbol tables of the current function and of its contexts,
-- none without a function.
pub record Parser : Type 0 where
  pub lexer : Lexer
  pub current_token : Token
  pub ahead : List (Token × Lexer)
  pub scopes : List SymbolTable
  pub module_symbols : SymbolTable
  pub namespace_stack : List Text
  pub error_count : ℕ
  pub last_line : ℕ
  pub last_error_line : ℕ
  pub temp_count : ℕ
  pub temp_max : ℕ
  pub labels : Labels

-- A parse function: the node, or null, and the parser behind it.
abbrev pub Parsed : Type 0
Parsed = Result (Pointer × Parser)

abbrev pub Action : Type 0
Action = Parser → Parsed

-- The next token; behind the end of the buffer it is `TOK_EOF` again.
unfoldable pub next : List (Token × Lexer) → Parser → Parser
next [] p = record p {
  current_token = Token.tok_eof;
  lexer = record (p.lexer) { rest = []; word = text "EOF" };
}
next ((token, lx) ∷ later) p = record p { current_token = token; lexer = lx; ahead = later }

unfoldable pub consume_token : Parser → Parser
unfolding next
consume_token p = next p.ahead (record p { last_line = p.lexer.line })

abbrev pub is_current : Token → Parser → Bool
is_current token p = token_code p.current_token == token_code token

-- `ConsumeExpected`. The line that it sets is set again by `ConsumeToken`.
unfoldable pub consume_expected : Token → Parser → Bool × Parser
unfolding consume_token token_code
consume_expected token p = if is_current token p then (true, consume_token p) else (false, p)

-- The loop of `ConsumeNewlines` over the tokens that are left.
unfoldable pub skip_newlines : List (Token × Lexer) → Parser → Parser
unfolding consume_token token_code
skip_newlines [] p = if is_current Token.tok_newline p then consume_token p else p
skip_newlines (t ∷ later) p = elim (is_current Token.tok_newline p) [
  | true ↦ skip_newlines later (consume_token p)
  | false ↦ p
]

unfoldable pub consume_newlines : Parser → Parser
unfolding skip_newlines
consume_newlines p = let q = skip_newlines p.ahead p in record q { last_line = q.lexer.line }

unfoldable pub bump_error : Parser → Parser
bump_error p = record p { error_count = p.error_count + 1; last_error_line = p.last_line }

-- An error and no node.
abbrev pub failed : Parser → Parsed
failed p = ok (Pointer.null, bump_error p)

abbrev pub found_null : Parser → Parsed
found_null p = ok (Pointer.null, p)

-- `m_function->symbols.GetTableEntryIndex( name, is_constant )`.
unfoldable pub add_symbol : Text → Bool → Parser → Result (ℕ × Parser)
unfolding get_table_entry_index
add_symbol name is_constant p = elim p.scopes [
  | [] ↦ err null_pointer
  | s ∷ contexts ↦
      let (s', id) = get_table_entry_index s name is_constant false in
      ok (id, record p { scopes = s' ∷ contexts })
]
