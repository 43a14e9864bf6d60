-- ===== src/Lexer/Progress.antt =====
-- How much of the buffer `Lexer::NextToken` of src/eople_lex.cpp takes.
use eople.Base.{
  ℕ, zero, suc, ◌+◌, ◌≤◌, ◌<◌, ◌≡◌, ◌≢◌, refl, ap, Bool, true, false, List, [], ◌∷◌, Option, none,
  some, arith, length, drop, ◌⊎◌, inl, inr, if◌then◌else◌, Bool-cases, length-drop,
}
use eople.Base.Text.{Text}
use eople.Lexer.Token.{Token}
use eople.Lexer.Scan.{is_space, skip_space, string_body, digits, skip_line, identifier_tail}
use eople.Lexer.Next.{
  Lexer, Lexed, lexed, out_of_range, out_of_fuel, Start, space, quote, letter, digit, point, pair,
  field, comment, other, start_of, find_pair, pairs, lex_number, lex_word, lex_from, lex_space,
  lex_step, is_eof, prepend, tokens_behind, lex, next_token, Tokens, finished, threw, unfinished,
  tokens,
}

skip_space-le : (cs : Text) → length (skip_space cs).1 ≤ length cs
unfolding skip_space
skip_space-le [] = omega arith
skip_space-le (c ∷ cs) = ground (arith, skip_space-le cs)

skip_space-lt : (c : ℕ) (cs : Text) → is_space c ≡ true → length (skip_space (c ∷ cs)).1 ≤ length cs
unfolding skip_space
skip_space-lt c cs h = ground (arith, skip_space-le cs)

string_body-le :
    (delim previous : ℕ) (cs : Text) → length (string_body delim previous cs).1 ≤ length cs
unfolding string_body
string_body-le delim previous [] = omega arith
string_body-le delim previous (c ∷ cs) = ground (arith, string_body-le delim c cs)

digits-le : (cs : Text) → length (digits cs).1 ≤ length cs
unfolding digits
digits-le [] = omega arith
digits-le (c ∷ cs) = ground (arith, digits-le cs)

skip_line-le : (cs : Text) → length (skip_line cs) ≤ length cs
unfolding skip_line
skip_line-le [] = omega arith
skip_line-le (c ∷ cs) = ground (arith, skip_line-le cs)

identifier_tail-le : (beyond : ℕ) (cs : Text) → length (identifier_tail beyond cs).1 ≤ length cs
unfolding identifier_tail
identifier_tail-le beyond [] = omega arith
identifier_tail-le beyond (c ∷ []) = ground arith
identifier_tail-le beyond (c ∷ d ∷ cs) =
    ground (arith, identifier_tail-le beyond (d ∷ cs), identifier_tail-le beyond cs)

-- A token that is not the end takes at least one byte, and the fuel does not end.
abbrev pub Advances : ℕ → Lexed → Type 0
Advances n (lexed token lx) = (token ≡ Token.tok_eof) ⊎ (length lx.rest < n)
Advances n out_of_range = Unit
Advances n out_of_fuel = ⊥

Advances-le : {m n : ℕ} (l : Lexed) → m ≤ n → Advances m l → Advances n l
Advances-le (lexed token lx) h (inl e) = inl e
Advances-le (lexed token lx) h (inr lt) = inr (omega arith)
Advances-le out_of_range h a = tt
Advances-le out_of_fuel h a = a

-- The tests behind the first one of `start_of`.
not_space :
    (q l d p f m : Bool) (o : Option Token)
    → (if q then quote else if l then letter else if d then digit else if p then point else elim o [
      | some token ↦ pair token
      | none ↦ (if f then field else if m then comment else other)
    ])
      ≢ space
not_space q l d p f m o h = ground arith

start_of-space : (c : ℕ) (cs : Text) → start_of c cs ≡ space → is_space c ≡ true
unfolding start_of
start_of-space c cs h = elim (Bool-cases (is_space c)) [
  | inl e ↦ e
  | inr e ↦ absurd (not_space _ _ _ _ _ _ (find_pair pairs c cs) (rw e at h))
]

-- What the recursive calls of the lexer are known to do.
abbrev AdvancesBelow : ℕ → (Lexer → Lexed) → Type 0
AdvancesBelow n again = (lx : Lexer) → length lx.rest ≤ n → Advances (length lx.rest) (again lx)

module _ (strtod : Text → ℕ) (beyond : ℕ) where
  lex_space-Advances :
      (again : Lexer → Lexed) (n : ℕ) (s : Bool × Text) (lx : Lexer)
      → length s.1 ≤ n
      → AdvancesBelow n again
      → Advances (suc n) (lex_space strtod beyond again lx s)
  unfolding lex_space
  lex_space-Advances again n (true, rest) lx le ih = inr (omega arith)
  lex_space-Advances again n (false, rest) lx le ih =
      Advances-le _ (omega arith) (ih (record lx { rest = rest }) le)

  lex_number-Advances :
      (c : ℕ) (cs : Text) (lx : Lexer)
      → Advances (suc (length cs)) (lex_number strtod beyond c cs lx)
  unfolding lex_number
  lex_number-Advances c cs lx =
      let whole = digits-le cs in
      let fraction = digits-le (drop 1 (digits cs).1) in
      ground (arith, whole, fraction, length-drop 1 (digits cs).1)

  lex_word-Advances :
      (c : ℕ) (cs : Text) (lx : Lexer) → Advances (suc (length cs)) (lex_word strtod beyond c cs lx)
  unfolding lex_word
  lex_word-Advances c cs lx = inr (omega (arith, identifier_tail-le beyond cs))

  lex_from-Advances :
      (again : Lexer → Lexed) (start : Start) (c : ℕ) (cs : Text) (lx : Lexer)
      → start_of c cs ≡ start
      → AdvancesBelow (length cs) again
      → Advances (suc (length cs)) (lex_from strtod beyond again start c cs lx)
  unfolding lex_from
  lex_from-Advances again space c cs lx h ih =
      lex_space-Advances again (length cs) (skip_space (c ∷ cs)) lx
        (skip_space-lt c cs (start_of-space c cs h)) ih
  lex_from-Advances again quote c cs lx h ih = inr (omega (arith, string_body-le c c cs))
  lex_from-Advances again letter c cs lx h ih = lex_word-Advances c cs lx
  lex_from-Advances again digit c cs lx h ih = lex_number-Advances c cs lx
  lex_from-Advances again point c cs lx h ih = inr (omega (arith, digits-le cs))
  lex_from-Advances again (pair token) c cs lx h ih = inr (omega (arith, length-drop 1 cs))
  lex_from-Advances again field c cs lx h ih = inr (omega arith)
  lex_from-Advances again comment c cs lx h ih =
      let shorter = skip_line-le cs in
      Advances-le _ (omega arith) (ih (record lx { rest = skip_line cs }) shorter)
  lex_from-Advances again other c cs lx h ih = inr (omega arith)

  lex_step-Advances :
      (again : Lexer → Lexed) (cs : Text) (lx : Lexer)
      → ((c : ℕ) (rest : Text) → cs ≡ c ∷ rest → AdvancesBelow (length rest) again)
      → Advances (length cs) (lex_step strtod beyond again cs lx)
  unfolding lex_step
  lex_step-Advances again [] lx ih = inl refl
  lex_step-Advances again (c ∷ cs) lx ih =
      lex_from-Advances again (start_of c cs) c cs lx refl (ih c cs refl)

  lex-Advances :
      (fuel : ℕ) (lx : Lexer)
      → length lx.rest < fuel
      → Advances (length lx.rest) (lex strtod beyond fuel lx)
  unfolding lex
  lex-Advances zero lx h = absurd (omega arith)
  lex-Advances (suc fuel) lx h =
      lex_step-Advances (lex strtod beyond fuel) lx.rest lx
        (λ c cs e lx' le. lex-Advances fuel lx' (omega (arith, ap length e)))

  -- `NextToken` returns or throws on every buffer, and a token other than the end takes at least
  -- one byte of it.
  pub next_token-Advances : (lx : Lexer) → Advances (length lx.rest) (next_token strtod beyond lx)
  unfolding next_token
  next_token-Advances lx = lex-Advances (length lx.rest + 1) lx (omega arith)

-- Each token leaves a shorter rest of the buffer than the one before it.
abbrev pub Shorter : ℕ → List (Token × Lexer) → Type 0
Shorter n [] = Unit
Shorter n ((token, lx) ∷ l) = (length lx.rest < n) × Shorter (length lx.rest) l

-- The run came to its end, a number that throws or the end of the buffer.
abbrev pub Shrinks : ℕ → Tokens → Type 0
Shrinks n unfinished = ⊥
Shrinks n threw = Unit
Shrinks n (finished l) = Shorter n l

prepend-Shrinks :
    (n : ℕ) (token : Token) (lx : Lexer) (later : Tokens)
    → length lx.rest < n
    → Shrinks (length lx.rest) later
    → Shrinks n (prepend (token, lx) later)
prepend-Shrinks n token lx (finished l) lt h = (lt, h)
prepend-Shrinks n token lx threw lt h = tt
prepend-Shrinks n token lx unfinished lt h = h

tokens_behind-Shrinks :
    (n : ℕ) (again : Lexer → Tokens) (l : Lexed)
    → Advances n l
    → ((lx : Lexer) → length lx.rest < n → Shrinks (length lx.rest) (again lx))
    → Shrinks n (tokens_behind again l)
unfolding tokens_behind
tokens_behind-Shrinks n again (lexed token lx) (inl e) ih = rw (e, tokens_behind) tt
tokens_behind-Shrinks n again (lexed token lx) (inr lt) ih =
    if_done n (is_eof token) _ (prepend-Shrinks n token lx (again lx) lt (ih lx lt))
  where
    if_done :
        (n : ℕ) (t : Bool) (l : Tokens)
        → Shrinks n l
        → Shrinks n (elim t [ true ↦ finished [] | false ↦ l ])
    if_done n true l h = tt
    if_done n false l h = h
tokens_behind-Shrinks n again out_of_range a ih = tt
tokens_behind-Shrinks n again out_of_fuel a ih = a

-- With more fuel than the buffer has bytes, the run over the tokens of a buffer comes to an end: it
-- reaches the end of the buffer or a number throws, and where it reaches the end, every token that
-- it found before it took at least one byte.
pub tokens-Shrinks :
    (strtod : Text → ℕ) (beyond fuel : ℕ) (lx : Lexer)
    → length lx.rest < fuel
    → Shrinks (length lx.rest) (tokens strtod beyond fuel lx)
unfolding tokens
tokens-Shrinks strtod beyond zero lx h = absurd (omega arith)
tokens-Shrinks strtod beyond (suc fuel) lx h =
    tokens_behind-Shrinks (length lx.rest) (tokens strtod beyond fuel) (next_token strtod beyond lx)
      (next_token-Advances strtod beyond lx)
      (λ lx' lt. tokens-Shrinks strtod beyond fuel lx' (omega arith))
