-- ===== src/Lexer/Token.antt =====
-- `enum Token` of inc/eople_lex.h, the keyword list of src/eople_lex.cpp and `TokenToString`.
use Prim.Native.String.{String}
use eople.Base.{ℕ, List, [], ◌∷◌, Option, none, some, true, false}
use eople.Base.Text.{Text, text, text_eq}

-- `character c` is the cast of the byte `c`; every other token is an enumerator.
pub data Token : Type 0 where
  tok_number_int tok_number_float tok_bool tok_identifier tok_string : Token
  tok_namespace tok_import tok_from tok_struct tok_function tok_class tok_end tok_if : Token
  tok_else tok_elseif tok_for tok_in tok_to tok_by tok_while tok_when tok_whenever : Token
  tok_return tok_break tok_private tok_const tok_true tok_false tok_and tok_or tok_not : Token
  tok_eq tok_neq tok_leq tok_geq tok_add_assign tok_sub_assign tok_mul_assign : Token
  tok_div_assign tok_mod_assign tok_shift_left tok_shift_right tok_process_message : Token
  tok_struct_call tok_scope tok_newline tok_eof : Token
  character : ℕ → Token

-- `KEYWORD_LIST` with the enumerators from `TOK_NAMESPACE` on, to which the index in it is added.
abbrev pub keyword_list : List (String × Token)
keyword_list =
    ("namespace", Token.tok_namespace)
    ∷ ("import", Token.tok_import)
    ∷ ("from", Token.tok_from)
    ∷ ("struct", Token.tok_struct)
    ∷ ("def", Token.tok_function)
    ∷ ("class", Token.tok_class)
    ∷ ("end", Token.tok_end)
    ∷ ("if", Token.tok_if)
    ∷ ("else", Token.tok_else)
    ∷ ("elif", Token.tok_elseif)
    ∷ ("for", Token.tok_for)
    ∷ ("in", Token.tok_in)
    ∷ ("to", Token.tok_to)
    ∷ ("by", Token.tok_by)
    ∷ ("while", Token.tok_while)
    ∷ ("when", Token.tok_when)
    ∷ ("whenever", Token.tok_whenever)
    ∷ ("return", Token.tok_return)
    ∷ ("break", Token.tok_break)
    ∷ ("private", Token.tok_private)
    ∷ ("const", Token.tok_const)
    ∷ ("true", Token.tok_true)
    ∷ ("false", Token.tok_false)
    ∷ ("and", Token.tok_and)
    ∷ ("or", Token.tok_or)
    ∷ ("not", Token.tok_not)
    ∷ []

-- The linear search for a keyword.
unfoldable pub find_keyword : List (String × Token) → Text → Option Token
unfolding text_eq
find_keyword [] word = none
find_keyword ((keyword, token) ∷ keywords) word = elim (text_eq (text keyword) word) [
  | true ↦ some token
  | false ↦ find_keyword keywords word
]

-- `TokenToString`, with what `GetString` returns. The cast of `TOK_ELSEIF`, which has no case, keeps
-- the low byte of 270.
unfoldable pub token_to_string : Token → Text → Text
token_to_string Token.tok_newline word = text "new line"
token_to_string Token.tok_elseif word = 14 ∷ []
token_to_string (Token.character c) word = c ∷ []
token_to_string _ word = word
