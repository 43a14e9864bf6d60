-- ===== src/Lexer/Tests.antt =====
-- Runs of the lexer of src/eople_lex.cpp on small texts.
use eople.Base.{ℕ, ◌≡◌, refl, List, [], ◌∷◌, map, length, ◌+◌, ◌%◌, ◌^◌, arith}
use eople.Base.Text.{Text, text}
use eople.Lexer.Token.{Token, token_to_string}
use eople.Lexer.Next.{Lexer, new_lexer, tokens, finished, start_of, find_pair}
use eople.Lexer.Progress.{Shrinks, tokens-Shrinks}
use eople.Lexer.Lines.{last_line, newlines, tokens-last_line}
use eople.Lexer.RoundTrip.{behind, expected, tokens-expected}
use eople.Lexer.RoundTrip.Lexemes.{Lexeme, word, number, string, operator, mark, line_end}

no_floats : Text → ℕ
no_floats s = 0

abbrev read : Text → List (Token × Lexer)
read s = elim (tokens no_floats 0 (length s + 1) (new_lexer s)) [ finished l ↦ l | _ ↦ [] ]

seen : Text → List Token
unfolding tokens new_lexer
seen s = map (λ t. t.0) (read s)

line_behind : Text → ℕ
unfolding tokens new_lexer last_line
line_behind s = last_line 1 (read s)

seen_assignment :
    seen (text "if x_1 >= 42 # c")
    ≡ Token.tok_if ∷ Token.tok_identifier ∷ Token.tok_geq ∷ Token.tok_number_int ∷ []
unfolding seen
seen_assignment = refl

-- A carriage return and a line feed count as two lines.
line_behind_crlf : line_behind (97 ∷ 13 ∷ 10 ∷ 98 ∷ []) ≡ 3
unfolding line_behind
line_behind_crlf = refl

-- An end of line in a string is not counted.
line_behind_string : line_behind (34 ∷ 10 ∷ 34 ∷ []) ≡ 1
unfolding line_behind
line_behind_string = refl

-- The quotation mark behind an escaped backslash does not end the string.
seen_backslash : seen (34 ∷ 92 ∷ 92 ∷ 34 ∷ 59 ∷ 97 ∷ []) ≡ Token.tok_string ∷ []
unfolding seen
seen_backslash = refl

-- `elif` has no case in `TokenToString`.
token_to_string_elif : token_to_string Token.tok_elseif (text "elif") ≡ 14 ∷ []
unfolding token_to_string
token_to_string_elif = refl

abbrev empty_lexer : Lexer
empty_lexer = record { rest = []; line = 1; u64 = 0; f64 = 0; word = [] }

abbrev sample : List Lexeme
sample =
    word 120 (95 ∷ 49 ∷ [])
    ∷ operator 61 61 Token.tok_eq
    ∷ number 105
    ∷ line_end
    ∷ mark 40
    ∷ string (97 ∷ 34 ∷ 10 ∷ [])
    ∷ []

tokens-expected_example :
    tokens no_floats 0 7 (record empty_lexer { rest = 32 ∷ behind sample })
    ≡ finished (expected empty_lexer sample)
unfolding start_of find_pair
tokens-expected_example =
    tokens-expected no_floats 0 7 empty_lexer sample
      (
        (refl, (refl, (refl, tt))),
        (
          (refl, refl, refl),
          (
            omega arith,
            (tt, ((refl, refl), ((omega arith, (omega arith, (omega arith, tt))), tt))),
          ),
        ),
      )
      (omega arith)

tokens-Shrinks_example :
    Shrinks 6 (tokens no_floats 0 7 (record empty_lexer { rest = text "a == 1" }))
tokens-Shrinks_example =
    tokens-Shrinks no_floats 0 7 (record empty_lexer { rest = text "a == 1" }) (omega arith)

tokens-last_line_example :
    last_line 1 (expected empty_lexer sample)
    ≡ (1 + newlines (expected empty_lexer sample)) % 2 ^ 32
tokens-last_line_example =
    tokens-last_line no_floats 0 7 (record empty_lexer { rest = 32 ∷ behind sample })
      (expected empty_lexer sample) (omega arith) tokens-expected_example
