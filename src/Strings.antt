-- ===== src/Strings.antt =====
-- `convert_raw_string` of src/utf8.cpp, which the lexer runs on every string literal: eight passes,
-- each of which replaces one escape sequence by its character. A string is the list of its bytes.
pub mod Escapes
pub mod Backslashes
mod Tests
use eople.Base.{ℕ, Bool, true, false, ◌&&◌, List, [], ◌∷◌, ◌==◌, if◌then◌else◌}
use eople.Base.Text.{Text}

abbrev pub backslash : ℕ
backslash = 92

-- `while( (pos = find( "\\c", pos )) != npos ) replace( pos, 2, "r", 1 );` on the bytes from `x` on.
-- The position stays on the byte that was put in, so the search sees it again.
unfoldable pub replace_from : ℕ → ℕ → ℕ → List ℕ → List ℕ
replace_from c r x [] = x ∷ []
replace_from c r x (y ∷ rest) = elim ((x == backslash) && (y == c)) [
  | true ↦ replace_from c r r rest
  | false ↦ x ∷ replace_from c r y rest
]

unfoldable pub replace_all : ℕ → ℕ → Text → Text
unfolding replace_from
replace_all c r [] = []
replace_all c r (x ∷ rest) = replace_from c r x rest

unfoldable pub convert_raw_string : Text → Text
unfolding replace_all
convert_raw_string s =
    let newlines = replace_all 110 10 s in
    let tabs = replace_all 116 9 newlines in
    let returns = replace_all 114 13 tabs in
    let backspaces = replace_all 98 8 returns in
    let feeds = replace_all 102 12 backspaces in
    let backslashes = replace_all 92 92 feeds in
    let quotes = replace_all 39 39 backslashes in replace_all 34 34 quotes
