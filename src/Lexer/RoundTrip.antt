-- ===== src/Lexer/RoundTrip.antt =====
-- Texts of tokens with spaces between them, and what `Lexer::NextToken` of src/eople_lex.cpp reads
-- from them.
pub mod Numerals
mod Scans
pub mod Lexemes
use eople.Base.{
  ℕ, zero, suc, ◌+◌, ◌<◌, ◌≡◌, refl, ap, ◌∙◌, Bool, true, false, List, [], ◌∷◌, ◌++◌, arith, length,
}
use eople.Base.Text.{Text}
use eople.Lexer.Token.{Token}
use eople.Lexer.Keywords.{classify-Keeps}
use eople.Lexer.Next.{
  Lexer, Lexed, lexed, classify, lex, next_token, tokens, tokens_behind, finished, is_eof, prepend,
  at_end, new_lexer,
}
use Lexemes.{
  Lexeme, word, number, string, operator, mark, line_end, IsLexeme, show, token_of, after, Reads,
  reading, word-Reads, number-Reads, string-Reads, operator-Reads, mark-Reads, line_end-Reads,
}

-- The text behind a first space.
unfoldable pub behind : List Lexeme → Text
behind [] = []
behind (x ∷ xs) = show x ++ 32 ∷ behind xs

unfoldable pub expected : Lexer → List Lexeme → List (Token × Lexer)
expected lx [] = []
expected lx (x ∷ xs) =
    let next = after x (32 ∷ behind xs) lx in (token_of x, next) ∷ expected next xs

abbrev pub AreLexemes : List Lexeme → Type 0
AreLexemes [] = Unit
AreLexemes (x ∷ xs) = IsLexeme x × AreLexemes xs

token_of-not_eof : (x : Lexeme) → IsLexeme x → is_eof (token_of x) ≡ false
unfolding token_of
token_of-not_eof (word c name) h =
    classify-Keeps (λ token. is_eof token ≡ false) (c ∷ name) (ground arith) refl
token_of-not_eof (number n) h = refl
token_of-not_eof (string s) h = refl
token_of-not_eof (operator c d token) (hc, hs, he) = he
token_of-not_eof (mark c) h = refl
token_of-not_eof line_end h = refl

after-reading :
    (x : Lexeme) (rest : Text) (lx : Lexer) → after x rest lx ≡ reading (after x rest lx) rest
unfolding after
after-reading (word c name) rest lx = refl
after-reading (number n) rest lx = refl
after-reading (string s) rest lx = refl
after-reading (operator c d token) rest lx = refl
after-reading (mark c) rest lx = refl
after-reading line_end rest lx = refl

module _ (strtod : Text → ℕ) (beyond : ℕ) where
  all-Reads : (x : Lexeme) → IsLexeme x → Reads strtod beyond x
  all-Reads (word c name) (hc, hn) = word-Reads strtod beyond c name hc hn
  all-Reads (number n) h = number-Reads strtod beyond n h
  all-Reads (string s) h = string-Reads strtod beyond s h
  all-Reads (operator c d token) (hc, hs, he) = operator-Reads strtod beyond c d token hc hs
  all-Reads (mark c) (hc, hs) = mark-Reads strtod beyond c hc hs
  all-Reads line_end h = line_end-Reads strtod beyond

  next_token-lexeme :
      (x : Lexeme) (rest : Text) (lx : Lexer)
      → IsLexeme x
      → next_token strtod beyond (reading lx (32 ∷ (show x ++ 32 ∷ rest)))
        ≡ lexed (token_of x) (after x (32 ∷ rest) lx)
  unfolding next_token
  next_token-lexeme x rest lx h =
      let e : suc (length (show x ++ 32 ∷ rest)) + 1 ≡ suc (suc (length (show x ++ 32 ∷ rest))) =
        omega arith in
      ap (λ n. lex strtod beyond n (reading lx (32 ∷ (show x ++ 32 ∷ rest)))) e
      ∙ all-Reads x h (length (show x ++ 32 ∷ rest)) lx rest

  tokens-end :
      (fuel : ℕ) (lx : Lexer) → tokens strtod beyond (suc fuel) (reading lx (32 ∷ [])) ≡ finished []
  unfolding tokens next_token tokens_behind
  tokens-end fuel lx = refl

  tokens-cons :
      (fuel : ℕ) (lx next : Lexer) (token : Token)
      → next_token strtod beyond lx ≡ lexed token next
      → is_eof token ≡ false
      → tokens strtod beyond (suc fuel) lx ≡ prepend (token, next) (tokens strtod beyond fuel next)
  unfolding tokens tokens_behind
  tokens-cons fuel lx next token h e = rw (h, tokens_behind, e) refl

  -- A text of words, numbers, strings, operators, marks and ends of line with spaces between them
  -- is read as just these, each with its keyword, its number or its string, and each end of line
  -- with the line that follows it.
  pub tokens-expected :
      (fuel : ℕ) (lx : Lexer) (xs : List Lexeme)
      → AreLexemes xs
      → length xs < fuel
      → tokens strtod beyond fuel (reading lx (32 ∷ behind xs)) ≡ finished (expected lx xs)
  unfolding behind expected
  tokens-expected zero lx xs h le = absurd (omega arith)
  tokens-expected (suc fuel) lx [] h le = tokens-end fuel lx
  tokens-expected (suc fuel) lx (x ∷ xs) (hx, h) le =
      let next = after x (32 ∷ behind xs) lx in
      tokens-cons fuel (reading lx (32 ∷ (show x ++ 32 ∷ behind xs))) next (token_of x)
        (next_token-lexeme x (behind xs) lx hx) (token_of-not_eof x hx)
      ∙ ap (λ l. prepend (token_of x, next) (tokens strtod beyond fuel l))
          (after-reading x (32 ∷ behind xs) lx)
      ∙ ap (prepend (token_of x, next)) (tokens-expected fuel next xs h (omega arith))
