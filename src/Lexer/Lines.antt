-- ===== src/Lexer/Lines.antt =====
-- The line counter of the lexer of src/eople_lex.cpp.
use eople.Base.{
  ℕ, zero, suc, ◌+◌, ◌%◌, ◌^◌, ◌<◌, ◌≡◌, refl, Bool, true, false, List, [], ◌∷◌, Option, none, some,
  arith, length, ◌==◌, ltb, if◌then◌else◌,
}
use eople.Base.Text.{Text}
use eople.Lexer.Token.{Token}
use eople.Lexer.Scan.{skip_space, digits, skip_line, peek, identifier_tail}
use eople.Lexer.Keywords.{classify-Keeps}
use eople.Lexer.Next.{
  Lexer, Lexed, lexed, out_of_range, out_of_fuel, decimal, Start, space, quote, letter, digit,
  point, pair, field, comment, other, start_of, find_pair, pairs, classify, lex_number, lex_word,
  lex_from, lex_space, lex_step, is_eof, prepend, tokens_behind, lex, next_token, Tokens, finished,
  threw, unfinished, tokens,
}

abbrev pub is_newline : Token → Bool
is_newline Token.tok_newline = true
is_newline _ = false

abbrev NoNewline : Option Token → Type 0
NoNewline none = Unit
NoNewline (some token) = is_newline token ≡ false

classify-NoNewline : (word : Text) → is_newline (classify word) ≡ false
classify-NoNewline word =
    classify-Keeps (λ token. is_newline token ≡ false) word (ground arith) refl

find_pair-NoNewline : (c : ℕ) (cs : Text) → NoNewline (find_pair pairs c cs)
unfolding find_pair
find_pair-NoNewline c [] = tt
find_pair-NoNewline c (d ∷ cs) = ground arith

-- The line behind a token, in an unsigned 32-bit counter.
abbrev pub counted : ℕ → Token → ℕ
counted line token = if is_newline token then (line + 1) % 2 ^ 32 else line

abbrev pub CountsLine : ℕ → Lexed → Type 0
CountsLine line (lexed token lx) = lx.line ≡ counted line token
CountsLine line _ = Unit

if-CountsLine :
    (line : ℕ) (t : Bool) (l m : Lexed)
    → CountsLine line l
    → CountsLine line m
    → CountsLine line (if t then l else m)
if-CountsLine line true l m hl hm = hl
if-CountsLine line false l m hl hm = hm

pair_start :
    (s q l d p f m : Bool) (o : Option Token) (token : Token)
    → NoNewline o
    → (if s
        then space
        else if q
        then quote
        else if l
        then letter
        else if d
        then digit
        else if p
        then point
        else elim o [
          | some found ↦ pair found
          | none ↦ (if f then field else if m then comment else other)
        ])
      ≡ pair token
    → is_newline token ≡ false
pair_start s q l d p f m none token h e = ground arith
pair_start s q l d p f m (some found) token h e = ground arith

start_of-pair :
    (c : ℕ) (cs : Text) (token : Token) → start_of c cs ≡ pair token → is_newline token ≡ false
unfolding start_of
start_of-pair c cs token =
    pair_start _ _ _ _ _ _ _ (find_pair pairs c cs) token (find_pair-NoNewline c cs)

module _ (strtod : Text → ℕ) (beyond : ℕ) where
  lex_number-CountsLine :
      (c : ℕ) (cs : Text) (lx : Lexer) → CountsLine lx.line (lex_number strtod beyond c cs lx)
  unfolding lex_number
  lex_number-CountsLine c cs lx =
      if-CountsLine lx.line (peek beyond (digits cs).1 == 46) _ _ refl
        (if-CountsLine lx.line (ltb (decimal 0 (c ∷ (digits cs).0)) (2 ^ 64)) _ _ refl tt)

  lex_word-CountsLine :
      (c : ℕ) (cs : Text) (lx : Lexer) → CountsLine lx.line (lex_word strtod beyond c cs lx)
  unfolding lex_word
  lex_word-CountsLine c cs lx = rw (classify-NoNewline (c ∷ (identifier_tail beyond cs).0)) refl

  lex_from-CountsLine :
      (again : Lexer → Lexed) (start : Start) (c : ℕ) (cs : Text) (lx : Lexer)
      → start_of c cs ≡ start
      → ((lx' : Lexer) → CountsLine lx'.line (again lx'))
      → CountsLine lx.line (lex_from strtod beyond again start c cs lx)
  unfolding lex_from lex_space
  lex_from-CountsLine again space c cs lx h ih = go (skip_space (c ∷ cs))
    where
      go : (s : Bool × Text) → CountsLine lx.line (lex_space strtod beyond again lx s)
      go (true, rest) = refl
      go (false, rest) = ih (record lx { rest = rest })
  lex_from-CountsLine again quote c cs lx h ih = refl
  lex_from-CountsLine again letter c cs lx h ih = lex_word-CountsLine c cs lx
  lex_from-CountsLine again digit c cs lx h ih = lex_number-CountsLine c cs lx
  lex_from-CountsLine again point c cs lx h ih = refl
  lex_from-CountsLine again (pair token) c cs lx h ih = rw (start_of-pair c cs token h) refl
  lex_from-CountsLine again field c cs lx h ih = refl
  lex_from-CountsLine again comment c cs lx h ih = ih (record lx { rest = skip_line cs })
  lex_from-CountsLine again other c cs lx h ih = refl

  lex-CountsLine : (fuel : ℕ) (lx : Lexer) → CountsLine lx.line (lex strtod beyond fuel lx)
  unfolding lex lex_step
  lex-CountsLine zero lx = tt
  lex-CountsLine (suc fuel) lx = go lx.rest (lex-CountsLine fuel)
    where
      go :
          (cs : Text)
          → ((lx' : Lexer) → CountsLine lx'.line (lex strtod beyond fuel lx'))
          → CountsLine lx.line (lex_step strtod beyond (lex strtod beyond fuel) cs lx)
      go [] ih = refl
      go (c ∷ cs) ih = lex_from-CountsLine (lex strtod beyond fuel) (start_of c cs) c cs lx refl ih

  next_token-CountsLine : (lx : Lexer) → CountsLine lx.line (next_token strtod beyond lx)
  unfolding next_token
  next_token-CountsLine lx = lex-CountsLine (length lx.rest + 1) lx

-- The line that a parser is at behind each of its tokens, and the ends of line among them.
unfoldable pub last_line : ℕ → List (Token × Lexer) → ℕ
last_line line [] = line
last_line line ((token, lx) ∷ later) = last_line lx.line later

unfoldable pub newlines : List (Token × Lexer) → ℕ
newlines [] = 0
newlines ((token, lx) ∷ later) = (if is_newline token then 1 else 0) + newlines later

-- The tokens read so far account for the line, and the line of each is within 32 bits.
LineInv : ℕ → Tokens → Type 0
LineInv line (finished l) = last_line line l ≡ (line + newlines l) % 2 ^ 32
LineInv line _ = Unit

prepend-LineInv :
    (line : ℕ) (token : Token) (lx : Lexer) (later : Tokens)
    → line < 2 ^ 32
    → lx.line ≡ counted line token
    → LineInv lx.line later
    → LineInv line (prepend (token, lx) later)
unfolding LineInv last_line newlines
prepend-LineInv line token lx (finished l) h e i = ground arith
prepend-LineInv line token lx threw h e i = tt
prepend-LineInv line token lx unfinished h e i = tt

counted-lt : (line : ℕ) (token : Token) → line < 2 ^ 32 → counted line token < 2 ^ 32
counted-lt line token h = ground arith

tokens_behind-LineInv :
    (line : ℕ) (again : Lexer → Tokens) (l : Lexed)
    → line < 2 ^ 32
    → CountsLine line l
    → ((lx : Lexer) → lx.line < 2 ^ 32 → LineInv lx.line (again lx))
    → LineInv line (tokens_behind again l)
unfolding tokens_behind LineInv last_line newlines
tokens_behind-LineInv line again (lexed token lx) h e ih =
    on (is_eof token) _
      (prepend-LineInv line token lx (again lx) h e (ih lx (rw e (counted-lt line token h))))
  where
    on :
        (t : Bool) (l : Tokens)
        → LineInv line l
        → LineInv line (elim t [ true ↦ finished [] | false ↦ l ])
    on true l i = omega arith
    on false l i = i
tokens_behind-LineInv line again out_of_range h e ih = tt
tokens_behind-LineInv line again out_of_fuel h e ih = tt

tokens-LineInv :
    (strtod : Text → ℕ) (beyond fuel : ℕ) (lx : Lexer)
    → lx.line < 2 ^ 32
    → LineInv lx.line (tokens strtod beyond fuel lx)
unfolding tokens LineInv
tokens-LineInv strtod beyond zero lx h = tt
tokens-LineInv strtod beyond (suc fuel) lx h =
    tokens_behind-LineInv lx.line (tokens strtod beyond fuel) (next_token strtod beyond lx) h
      (next_token-CountsLine strtod beyond lx) (λ lx' h'. tokens-LineInv strtod beyond fuel lx' h')

-- The line that the lexer reports behind its last token is the first line and one more for each
-- token for an end of line, in 32 bits: no other token moves it.
pub tokens-last_line :
    (strtod : Text → ℕ) (beyond fuel : ℕ) (lx : Lexer) (l : List (Token × Lexer))
    → lx.line < 2 ^ 32
    → tokens strtod beyond fuel lx ≡ finished l
    → last_line lx.line l ≡ (lx.line + newlines l) % 2 ^ 32
unfolding LineInv
tokens-last_line strtod beyond fuel lx l h e = rw e at (tokens-LineInv strtod beyond fuel lx h)
