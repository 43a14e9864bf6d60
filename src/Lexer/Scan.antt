-- ===== src/Lexer/Scan.antt =====
-- The character loops of `Lexer::NextToken`, each on the bytes from `m_char` to `m_end`: what it
-- takes, and the bytes that are left. `beyond` is the byte that a read at `m_end` finds.
use eople.Base.{ℕ, Bool, true, false, [], ◌∷◌, ◌&&◌, ◌||◌, not, leb, ◌==◌}
use eople.Base.Text.{Text}

-- The classes of <cctype> in the "C" locale, in which no byte above 127 is in a class.
abbrev pub is_space : ℕ → Bool
is_space c = (leb 9 c && leb c 13) || (c == 32)

abbrev pub is_digit : ℕ → Bool
is_digit c = leb 48 c && leb c 57

abbrev pub is_alpha : ℕ → Bool
is_alpha c = (leb 65 c && leb c 90) || (leb 97 c && leb c 122)

abbrev pub is_alnum : ℕ → Bool
is_alnum c = is_alpha c || is_digit c

abbrev pub is_line_end : ℕ → Bool
is_line_end c = (c == 10) || (c == 13)

-- The loop on white space, which stops behind an end of line: whether it met one.
unfoldable pub skip_space : Text → Bool × Text
skip_space [] = (false, [])
skip_space (c ∷ cs) = elim (is_line_end c) [
  | true ↦ (true, cs)
  | false ↦ (elim (is_space c) [ true ↦ skip_space cs | false ↦ (false, c ∷ cs) ])
]

-- A string literal behind its quotation mark `delim`; `previous` is `*(m_char - 1)`. The closing
-- mark is skipped, and so is the end of the buffer.
unfoldable pub string_body : ℕ → ℕ → Text → Text × Text
string_body delim previous [] = ([], [])
string_body delim previous (c ∷ cs) = elim ((previous == 92) || not (c == delim)) [
  | true ↦ (let (body, rest) = string_body delim c cs in (c ∷ body, rest))
  | false ↦ ([], cs)
]

unfoldable pub digits : Text → Text × Text
digits [] = ([], [])
digits (c ∷ cs) = elim (is_digit c) [
  | true ↦ (let (ds, rest) = digits cs in (c ∷ ds, rest))
  | false ↦ ([], c ∷ cs)
]

-- To the end of the line, for a comment.
unfoldable pub skip_line : Text → Text
skip_line [] = []
skip_line (c ∷ cs) = elim (is_line_end c) [ true ↦ c ∷ cs | false ↦ skip_line cs ]

abbrev pub is_word : ℕ → Bool
is_word c = is_alnum c || (c == 95)

module _ (beyond : ℕ) where
  -- `*m_char`.
  abbrev pub peek : Text → ℕ
  peek [] = beyond
  peek (c ∷ cs) = c

  -- An identifier behind its first letter; a `::` in it is taken as two bytes.
  unfoldable pub identifier_tail : Text → Text × Text
  identifier_tail [] = ([], [])
  identifier_tail (c ∷ []) = elim (is_word c) [
    | true ↦ (c ∷ [], [])
    | false ↦ (elim ((c == 58) && (beyond == 58)) [
      | true ↦ (c ∷ beyond ∷ [], [])
      | false ↦ ([], c ∷ [])
    ])
  ]
  identifier_tail (c ∷ d ∷ cs) = elim (is_word c) [
    | true ↦ (let (name, rest) = identifier_tail (d ∷ cs) in (c ∷ name, rest))
    | false ↦ (elim ((c == 58) && (d == 58)) [
      | true ↦ (let (name, rest) = identifier_tail cs in (c ∷ d ∷ name, rest))
      | false ↦ ([], c ∷ d ∷ cs)
    ])
  ]
