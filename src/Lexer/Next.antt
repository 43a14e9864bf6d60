-- ===== src/Lexer/Next.antt =====
-- `Lexer` and `NextToken` of src/eople_lex.cpp. `strtod` of the C library is a parameter: the bits of
-- the number that a text stands for. The source's last branch for a string is never reached, since
-- the first one takes every quotation mark, and is left out.
use eople.Base.{
  ℕ, zero, suc, ◌+◌, ◌-◌, ◌*◌, ◌%◌, ◌^◌, List, [], ◌∷◌, ◌++◌, Option, none, some, Bool, true, false,
  ◌&&◌, ◌||◌, ltb, ◌==◌, if◌then◌else◌, length, drop,
}
use eople.Base.Text.{Text, text}
use eople.Strings.{convert_raw_string}
use eople.Lexer.Token.{Token, keyword_list, find_keyword}
use eople.Lexer.Scan.{
  is_space, is_digit, is_alpha, skip_space, string_body, digits, skip_line, peek, identifier_tail,
}

-- `m_char` and `m_end` are the bytes between them.
pub record Lexer : Type 0 where
  pub rest : Text
  pub line : ℕ
  pub u64 : ℕ
  pub f64 : ℕ
  pub word : Text

-- A token and the lexer behind it; the exception `std::out_of_range` of `std::stoull`; the end of
-- the model's fuel.
pub data Lexed : Type 0 where
  lexed : Token → Lexer → Lexed
  out_of_range : Lexed
  out_of_fuel : Lexed

pub data Tokens : Type 0 where
  finished : List (Token × Lexer) → Tokens
  threw : Tokens
  unfinished : Tokens

starts_with_bom : Text → Bool
starts_with_bom (a ∷ b ∷ c ∷ cs) = (a == 239) && (b == 187) && (c == 191)
starts_with_bom _ = false

-- `Lexer::Lexer`. The values that the source leaves open are 0 and empty.
unfoldable pub new_lexer : Text → Lexer
unfolding starts_with_bom
new_lexer buffer = record {
  rest = if starts_with_bom buffer then drop 3 buffer else buffer;
  line = 1;
  u64 = 0;
  f64 = 0;
  word = [];
}

-- The number that decimal digits stand for, behind those read before.
unfoldable pub decimal : ℕ → Text → ℕ
decimal n [] = n
decimal n (c ∷ cs) = decimal (10 * n + (c - 48)) cs

-- The tokens of two characters.
abbrev pub pairs : List (ℕ × ℕ × Token)
pairs =
    (61, 61, Token.tok_eq)
    ∷ (33, 61, Token.tok_neq)
    ∷ (60, 61, Token.tok_leq)
    ∷ (62, 61, Token.tok_geq)
    ∷ (43, 61, Token.tok_add_assign)
    ∷ (45, 61, Token.tok_sub_assign)
    ∷ (42, 61, Token.tok_mul_assign)
    ∷ (47, 61, Token.tok_div_assign)
    ∷ (37, 61, Token.tok_mod_assign)
    ∷ (62, 62, Token.tok_shift_right)
    ∷ (60, 60, Token.tok_shift_left)
    ∷ (45, 62, Token.tok_process_message)
    ∷ []

unfoldable pub find_pair : List (ℕ × ℕ × Token) → ℕ → Text → Option Token
find_pair table c [] = none
find_pair [] c (d ∷ cs) = none
find_pair ((a, b, token) ∷ table) c (d ∷ cs) =
    if (c == a) && (d == b) then some token else find_pair table c (d ∷ cs)

-- `PeekTest`.
abbrev pub peek_test : (ℕ → Bool) → Text → Bool
peek_test test [] = false
peek_test test (d ∷ cs) = test d

-- The class of the first character, in the order in which the source tests it.
pub data Start : Type 0 where
  space quote letter digit point field comment : Start
  pair : Token → Start
  other : Start

unfoldable pub start_of : ℕ → Text → Start
unfolding find_pair
start_of c cs =
    if is_space c
    then space
    else if (c == 39) || (c == 34)
    then quote
    else if is_alpha c
    then letter
    else if is_digit c
    then digit
    else if (c == 46) && peek_test is_digit cs
    then point
    else elim (find_pair pairs c cs) [
      | some token ↦ pair token
      | none ↦
          (if (c == 46) && peek_test is_alpha cs then field else if c == 35 then comment else other)
    ]

-- A keyword, or any other identifier.
unfoldable pub classify : Text → Token
unfolding find_keyword
classify word = elim (find_keyword keyword_list word) [
  | some keyword ↦ keyword
  | none ↦ Token.tok_identifier
]

abbrev pub is_eof : Token → Bool
is_eof Token.tok_eof = true
is_eof _ = false

abbrev pub prepend : Token × Lexer → Tokens → Tokens
prepend t (finished later) = finished (t ∷ later)
prepend t threw = threw
prepend t unfinished = unfinished

unfoldable pub tokens_behind : (Lexer → Tokens) → Lexed → Tokens
tokens_behind again (lexed token lx) = elim (is_eof token) [
  | true ↦ finished []
  | false ↦ prepend (token, lx) (again lx)
]
tokens_behind again out_of_range = threw
tokens_behind again out_of_fuel = unfinished

module _ (strtod : Text → ℕ) (beyond : ℕ) where
  float_token : Text → Text → Lexer → Lexed
  float_token word rest lx =
      lexed Token.tok_number_float (record lx { rest = rest; f64 = strtod word; word = word })

  -- A number behind its first digit.
  unfoldable pub lex_number : ℕ → Text → Lexer → Lexed
  unfolding digits decimal float_token
  lex_number c cs lx =
      let (ds, rest) = digits cs in
      let word : Text = c ∷ ds in
      let (fs, rest') = digits (drop 1 rest) in
      let value = decimal 0 word in
      if peek beyond rest == 46
      then float_token (word ++ 46 ∷ fs) rest' lx
      else if ltb value (2 ^ 64)
      then lexed Token.tok_number_int (record lx { rest = rest; u64 = value; word = word })
      else out_of_range

  unfoldable pub lex_word : ℕ → Text → Lexer → Lexed
  unfolding classify identifier_tail
  lex_word c cs lx =
      let (name, rest) = identifier_tail beyond cs in
      let word : Text = c ∷ name in lexed (classify word) (record lx { rest = rest; word = word })

  -- Behind the loop on white space.
  unfoldable pub lex_space : (Lexer → Lexed) → Lexer → Bool × Text → Lexed
  lex_space again lx (true, rest) =
      lexed Token.tok_newline (record lx { rest = rest; line = (lx.line + 1) % 2 ^ 32 })
  lex_space again lx (false, rest) = again (record lx { rest = rest })

  -- A token that begins with `c` and is not preceded by another; `again` is the recursive call.
  unfoldable pub lex_from : (Lexer → Lexed) → Start → ℕ → Text → Lexer → Lexed
  unfolding lex_space skip_space string_body digits skip_line float_token lex_number lex_word
  lex_from again space c cs lx = lex_space again lx (skip_space (c ∷ cs))
  lex_from again quote c cs lx =
      let (body, rest) = string_body c c cs in
      lexed Token.tok_string (record lx { rest = rest; word = convert_raw_string body })
  lex_from again letter c cs lx = lex_word c cs lx
  lex_from again digit c cs lx = lex_number c cs lx
  lex_from again point c cs lx = let (ds, rest) = digits cs in float_token (c ∷ ds) rest lx
  lex_from again (pair token) c cs lx = lexed token (record lx { rest = drop 1 cs })
  lex_from again field c cs lx =
      lexed Token.tok_struct_call (record lx { rest = cs; word = c ∷ [] })
  lex_from again comment c cs lx = again (record lx { rest = skip_line cs })
  lex_from again other c cs lx = lexed (Token.character c) (record lx { rest = cs })

  abbrev pub at_end : Lexer → Lexed
  at_end lx = lexed Token.tok_eof (record lx { word = text "EOF" })

  unfoldable pub lex_step : (Lexer → Lexed) → Text → Lexer → Lexed
  unfolding lex_from start_of
  lex_step again [] lx = at_end lx
  lex_step again (c ∷ cs) lx = lex_from again (start_of c cs) c cs lx

  unfoldable pub lex : ℕ → Lexer → Lexed
  unfolding lex_step
  lex zero lx = out_of_fuel
  lex (suc fuel) lx = lex_step (lex fuel) lx.rest lx

  -- `NextToken`.
  unfoldable pub next_token : Lexer → Lexed
  unfolding lex
  next_token lx = lex (length lx.rest + 1) lx

  -- The tokens that a parser is given up to the end of the buffer, each with the lexer behind it.
  unfoldable pub tokens : ℕ → Lexer → Tokens
  unfolding next_token tokens_behind
  tokens zero lx = unfinished
  tokens (suc fuel) lx = tokens_behind (tokens fuel) (next_token lx)
