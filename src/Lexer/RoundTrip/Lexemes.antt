-- ===== src/Lexer/RoundTrip/Lexemes.antt =====
-- Texts of one token each for the lexer of src/eople_lex.cpp, with the token and the lexer behind it.
use eople.Base.{
  ℕ, suc, ◌+◌, ◌%◌, ◌^◌, ◌<◌, ◌≡◌, refl, sym, ap, ◌∙◌, true, false, [], ◌∷◌, ◌++◌, arith, ◌==◌,
  ◌||◌, lt→ltb,
}
use mathlib.Core.List.{append_assoc}
use eople.Base.Text.{Text}
use eople.Strings.Escapes.{escape, escapes, NoBackslash, convert_raw_string-escape}
use eople.Lexer.Token.{Token}
use eople.Lexer.Scan.{is_space, is_digit, is_alpha, skip_space}
use eople.Lexer.Next.{
  Lexer, Lexed, lexed, Start, space, quote, letter, digit, pair, other, start_of, classify, decimal,
  lex_number, lex_word, lex_from, lex_space, lex_step, lex, is_eof, find_pair,
}
use eople.Lexer.RoundTrip.Numerals.{numeral, AllDigits, numeral-IsNumeral}
use eople.Lexer.RoundTrip.Scans.{
  skip_space-stop, digits-stop, AllWord, identifier_tail-stop, string_body-escape,
}

-- A word by its first letter and the rest, a number, a string, two and one characters of an
-- operator, an end of line.
pub data Lexeme : Type 0 where
  word : ℕ → Text → Lexeme
  number : ℕ → Lexeme
  string : Text → Lexeme
  operator : ℕ → ℕ → Token → Lexeme
  mark : ℕ → Lexeme
  line_end : Lexeme

-- The texts that stand for one token: a letter and letters, digits and underscores; 64 bits; a
-- string without a backslash; characters that the lexer's tables know, or do not know.
abbrev pub IsLexeme : Lexeme → Type 0
IsLexeme (word c name) = (is_alpha c ≡ true) × AllWord name
IsLexeme (number n) = n < 2 ^ 64
IsLexeme (string s) = NoBackslash s
IsLexeme (operator c d token) =
    (is_space c ≡ false) × (start_of c (d ∷ []) ≡ pair token) × (is_eof token ≡ false)
IsLexeme (mark c) = (is_space c ≡ false) × (start_of c (32 ∷ []) ≡ other)
IsLexeme line_end = Unit

unfoldable pub show : Lexeme → Text
show (word c name) = c ∷ name
show (number n) = numeral n
show (string s) = 34 ∷ (escape escapes s ++ 34 ∷ [])
show (operator c d token) = c ∷ d ∷ []
show (mark c) = c ∷ []
show line_end = 10 ∷ []

unfoldable pub token_of : Lexeme → Token
token_of (word c name) = classify (c ∷ name)
token_of (number n) = Token.tok_number_int
token_of (string s) = Token.tok_string
token_of (operator c d token) = token
token_of (mark c) = Token.character c
token_of line_end = Token.tok_newline

-- The lexer behind the token, with what it keeps of it.
unfoldable pub after : Lexeme → Text → Lexer → Lexer
after (word c name) rest lx = record lx { rest = rest; word = c ∷ name }
after (number n) rest lx = record lx { rest = rest; u64 = n; word = numeral n }
after (string s) rest lx = record lx { rest = rest; word = s }
after (operator c d token) rest lx = record lx { rest = rest }
after (mark c) rest lx = record lx { rest = rest }
after line_end rest lx = record lx { rest = rest; line = (lx.line + 1) % 2 ^ 32 }

alpha-not_space : (c : ℕ) → is_alpha c ≡ true → is_space c ≡ false
alpha-not_space c h = ground arith

alpha-not_quote : (c : ℕ) → is_alpha c ≡ true → ((c == 39) || (c == 34)) ≡ false
alpha-not_quote c h = ground arith

digit-not_space : (c : ℕ) → is_digit c ≡ true → is_space c ≡ false
digit-not_space c h = ground arith

digit-not_quote : (c : ℕ) → is_digit c ≡ true → ((c == 39) || (c == 34)) ≡ false
digit-not_quote c h = ground arith

digit-not_alpha : (c : ℕ) → is_digit c ≡ true → is_alpha c ≡ false
digit-not_alpha c h = ground arith

start_of-letter : (c : ℕ) (cs : Text) → is_alpha c ≡ true → start_of c cs ≡ letter
unfolding start_of
start_of-letter c cs h = rw (alpha-not_space c h, alpha-not_quote c h, h) refl

start_of-digit : (c : ℕ) (cs : Text) → is_digit c ≡ true → start_of c cs ≡ digit
unfolding start_of
start_of-digit c cs h = rw (digit-not_space c h, digit-not_quote c h, digit-not_alpha c h, h) refl

start_of-32 : (cs : Text) → start_of 32 cs ≡ space
unfolding start_of
start_of-32 cs = refl

start_of-10 : (cs : Text) → start_of 10 cs ≡ space
unfolding start_of
start_of-10 cs = refl

start_of-34 : (cs : Text) → start_of 34 cs ≡ quote
unfolding start_of
start_of-34 cs = refl

skip_space-32 : (cs : Text) → skip_space (32 ∷ cs) ≡ skip_space cs
unfolding skip_space
skip_space-32 cs = refl

skip_space-line_end : (cs : Text) → skip_space (32 ∷ 10 ∷ cs) ≡ (true, cs)
unfolding skip_space
skip_space-line_end cs = refl

abbrev pub reading : Lexer → Text → Lexer
reading lx cs = record lx { rest = cs }

module _ (strtod : Text → ℕ) (beyond : ℕ) where
  abbrev run : ℕ → Lexer → Lexed
  run = lex strtod beyond

  lex-space :
      (fuel : ℕ) (lx : Lexer) (cs : Text)
      → run (suc fuel) (reading lx (32 ∷ cs))
        ≡ lex_space strtod beyond (run fuel) (reading lx (32 ∷ cs)) (skip_space (32 ∷ cs))
  unfolding lex lex_step lex_from
  lex-space fuel lx cs = refl

  lex-first :
      (fuel : ℕ) (lx : Lexer) (c : ℕ) (cs : Text)
      → run (suc fuel) (reading lx (c ∷ cs))
        ≡ lex_from strtod beyond (run fuel) (start_of c cs) c cs (reading lx (c ∷ cs))
  unfolding lex lex_step
  lex-first fuel lx c cs = refl

  lex-behind_space :
      (fuel : ℕ) (lx : Lexer) (c : ℕ) (cs : Text) (s : Start)
      → is_space c ≡ false
      → start_of c cs ≡ s
      → run (suc (suc fuel)) (reading lx (32 ∷ c ∷ cs))
        ≡ lex_from strtod beyond (run fuel) s c cs (reading lx (c ∷ cs))
  unfolding lex_space
  lex-behind_space fuel lx c cs s hc hs =
      rw (lex-space, skip_space-32, skip_space-stop c cs hc, lex-first, hs) refl

  abbrev pub Reads : Lexeme → Type 0
  Reads x =
      (fuel : ℕ) (lx : Lexer) (rest : Text)
      → run (suc (suc fuel)) (reading lx (32 ∷ (show x ++ 32 ∷ rest)))
        ≡ lexed (token_of x) (after x (32 ∷ rest) lx)

  pub word-Reads : (c : ℕ) (name : Text) → is_alpha c ≡ true → AllWord name → Reads (word c name)
  unfolding show token_of after lex_from lex_word
  word-Reads c name hc hn fuel lx rest =
      lex-behind_space fuel lx c (name ++ 32 ∷ rest) letter (alpha-not_space c hc)
        (start_of-letter c (name ++ 32 ∷ rest) hc)
      ∙ (rw (identifier_tail-stop beyond name rest hn) refl)

  pub string-Reads : (s : Text) → NoBackslash s → Reads (string s)
  unfolding show token_of after lex_from
  string-Reads s h fuel lx rest =
      let tail = escape escapes s ++ 34 ∷ 32 ∷ rest in
      let assoc = append_assoc (escape escapes s) (34 ∷ []) (32 ∷ rest) in
      ap (λ t. run (suc (suc fuel)) (reading lx (32 ∷ 34 ∷ t))) assoc
      ∙ lex-behind_space fuel lx 34 tail quote refl (start_of-34 tail)
      ∙ (rw (string_body-escape 34 s (32 ∷ rest) (omega arith) h, convert_raw_string-escape s h)
          refl)

  pub operator-Reads :
      (c d : ℕ) (token : Token)
      → is_space c ≡ false
      → start_of c (d ∷ []) ≡ pair token
      → Reads (operator c d token)
  unfolding show token_of after lex_from
  operator-Reads c d token hc hs fuel lx rest =
      lex-behind_space fuel lx c (d ∷ 32 ∷ rest) (pair token) hc (unfold start_of find_pair in hs)

  pub mark-Reads : (c : ℕ) → is_space c ≡ false → start_of c (32 ∷ []) ≡ other → Reads (mark c)
  unfolding show token_of after lex_from
  mark-Reads c hc hs fuel lx rest =
      lex-behind_space fuel lx c (32 ∷ rest) other hc (unfold start_of find_pair in hs)

  pub line_end-Reads : Reads line_end
  unfolding show token_of after lex_space
  line_end-Reads fuel lx rest = rw (lex-space, skip_space-line_end) refl

  number-value :
      (n c : ℕ) (ds : Text) (lx : Lexer) (rest : Text)
      → AllDigits ds
      → decimal 0 (c ∷ ds) ≡ n
      → n < 2 ^ 64
      → lex_number strtod beyond c (ds ++ 32 ∷ rest) (reading lx (c ∷ (ds ++ 32 ∷ rest)))
        ≡ lexed Token.tok_number_int (record lx { rest = 32 ∷ rest; u64 = n; word = c ∷ ds })
  unfolding lex_number
  number-value n c ds lx rest hd e h = rw (digits-stop ds rest hd, e, lt→ltb n (2 ^ 64) h) refl

  pub number-Reads : (n : ℕ) → n < 2 ^ 64 → Reads (number n)
  unfolding show token_of after lex_from lex_number
  number-Reads n h fuel lx rest =
      let i = numeral-IsNumeral n in
      let cs : Text = i.more ++ 32 ∷ rest in
      let read : run (suc (suc fuel)) (reading lx (32 ∷ i.first ∷ cs))
          ≡ lex_number strtod beyond i.first cs (reading lx (i.first ∷ cs)) =
        lex-behind_space fuel lx i.first cs digit (digit-not_space i.first i.first_digit)
          (start_of-digit i.first cs i.first_digit) in
      ap (λ t. run (suc (suc fuel)) (reading lx (32 ∷ (t ++ 32 ∷ rest)))) i.shape
      ∙ read
      ∙ number-value n i.first i.more lx rest i.more_digits (ap (decimal 0) (sym i.shape) ∙ i.value)
          h
      ∙ ap (λ t. lexed Token.tok_number_int (record lx { rest = 32 ∷ rest; u64 = n; word = t }))
          (sym i.shape)
