-- ===== src/Strings/Escapes.antt =====
-- Which texts survive being escaped and read by `convert_raw_string` of src/utf8.cpp.
use eople.Base.{
  ℕ, ◌≡◌, ◌≢◌, refl, sym, ap, ◌∙◌, false, List, [], ◌∷◌, Option, none, some, arith, ◌==◌,
  if◌then◌else◌, Option-cases, Bool-cases, ◌⊎◌, inl, inr,
}
use eople.Base.Text.{Text}
use eople.Strings.{backslash, replace_from, replace_all, convert_raw_string}

-- Bytes and the letters that stand for them behind a backslash.
unfoldable pub letter_of : List (ℕ × ℕ) → ℕ → Option ℕ
letter_of [] x = none
letter_of ((r, c) ∷ table) x = if x == r then some c else letter_of table x

unfoldable pub escape : List (ℕ × ℕ) → Text → Text
escape table [] = []
escape table (x ∷ text) = elim (letter_of table x) [
  | none ↦ x ∷ escape table text
  | some c ↦ backslash ∷ c ∷ escape table text
]

-- The bytes that `convert_raw_string` knows, in the order of its passes, without the backslash.
abbrev pub escapes : List (ℕ × ℕ)
escapes = (10, 110) ∷ (9, 116) ∷ (13, 114) ∷ (8, 98) ∷ (12, 102) ∷ (39, 39) ∷ (34, 34) ∷ []

abbrev pub NoBackslash : Text → Type 0
NoBackslash [] = Unit
NoBackslash (x ∷ text) = (x ≢ backslash) × NoBackslash text

other_byte :
    (c r x : ℕ) (ys : Text) → x ≢ backslash → replace_from c r x ys ≡ x ∷ replace_all c r ys
unfolding replace_all replace_from
other_byte c r x [] h = refl
other_byte c r x (y ∷ ys) h = ground arith

this_escape :
    (c r : ℕ) (ys : Text)
    → r ≢ backslash
    → replace_from c r backslash (c ∷ ys) ≡ r ∷ replace_all c r ys
unfolding replace_from
this_escape c r ys h = ground (arith, other_byte c r r ys h)

other_escape :
    (c r d : ℕ) (ys : Text)
    → d ≢ c
    → d ≢ backslash
    → replace_from c r backslash (d ∷ ys) ≡ backslash ∷ d ∷ replace_all c r ys
unfolding replace_from
other_escape c r d ys h k = ground (arith, other_byte c r d ys k)

-- The letters of a table are neither backslashes nor one given letter.
abbrev pub Avoids : List (ℕ × ℕ) → ℕ → Type 0
Avoids [] c = Unit
Avoids ((r, d) ∷ table) c = (d ≢ c) × (d ≢ backslash) × Avoids table c

pub letter_of-Avoids :
    (table : List (ℕ × ℕ)) (c x d : ℕ)
    → Avoids table c
    → letter_of table x ≡ some d
    → (d ≢ c) × (d ≢ backslash)
unfolding letter_of
letter_of-Avoids [] c x d h e = cc
letter_of-Avoids ((r, q) ∷ table) c x d (n, b, h) e = ground (arith, letter_of-Avoids table c x d h)

pub escape-plain :
    (table : List (ℕ × ℕ)) (x : ℕ) (text : Text)
    → letter_of table x ≡ none
    → escape table (x ∷ text) ≡ x ∷ escape table text
unfolding escape
escape-plain table x text e = rw (e, escape) refl

pub escape-letter :
    (table : List (ℕ × ℕ)) (x d : ℕ) (text : Text)
    → letter_of table x ≡ some d
    → escape table (x ∷ text) ≡ backslash ∷ d ∷ escape table text
unfolding escape
escape-letter table x d text e = rw (e, escape) refl

replace_all-cons : (c r x : ℕ) (ys : Text) → replace_all c r (x ∷ ys) ≡ replace_from c r x ys
unfolding replace_all
replace_all-cons c r x ys = refl

-- A pass for a letter that is not used changes nothing.
pass-none :
    (table : List (ℕ × ℕ)) (c r : ℕ) (text : Text)
    → Avoids table c
    → NoBackslash text
    → replace_all c r (escape table text) ≡ escape table text
unfolding replace_all escape
pass-none table c r [] h n = refl
pass-none table c r (x ∷ text) h (nx, n) = elim (Option-cases (letter_of table x)) [
  | inl e ↦
      let shape = escape-plain table x text e in
      ap (replace_all c r) shape
      ∙ other_byte c r x (escape table text) nx
      ∙ ap (λ t. x ∷ t) (pass-none table c r text h n)
      ∙ sym shape
  | inr (d, e) ↦
      let shape = escape-letter table x d text e in
      let (nc, nb) = letter_of-Avoids table c x d h e in
      ap (replace_all c r) shape
      ∙ other_escape c r d (escape table text) nc nb
      ∙ ap (λ t. backslash ∷ d ∷ t) (pass-none table c r text h n)
      ∙ sym shape
]

letter_of-first : (table : List (ℕ × ℕ)) (r c x : ℕ) → x ≡ r → letter_of ((r, c) ∷ table) x ≡ some c
unfolding letter_of
letter_of-first table r c x h = ground arith

letter_of-later :
    (table : List (ℕ × ℕ)) (r c x : ℕ) → x ≢ r → letter_of ((r, c) ∷ table) x ≡ letter_of table x
unfolding letter_of
letter_of-later table r c x h = ground arith

==-cases : (x r : ℕ) → (x ≡ r) ⊎ (x ≢ r)
==-cases x r = elim (Bool-cases (x == r)) [
  | inl e ↦ inl (ground arith)
  | inr e ↦ inr (differs x r e)
]
  where
    differs : (x r : ℕ) → (x == r) ≡ false → x ≢ r
    differs x r e q = ground arith

-- The pass for the first letter of a table puts its byte back and leaves the rest escaped.
pass-first :
    (table : List (ℕ × ℕ)) (c r : ℕ) (text : Text)
    → Avoids table c
    → r ≢ backslash
    → letter_of table r ≡ none
    → NoBackslash text
    → replace_all c r (escape ((r, c) ∷ table) text) ≡ escape table text
unfolding replace_all escape
pass-first table c r [] h nr fresh n = refl
pass-first table c r (x ∷ text) h nr fresh (nx, n) =
    let all : List (ℕ × ℕ) = (r, c) ∷ table in
    let rest = pass-first table c r text h nr fresh n in
    elim (==-cases x r) [
      | inl e ↦
          ap (replace_all c r) (escape-letter all x c text (letter_of-first table r c x e))
          ∙ this_escape c r (escape all text) nr
          ∙ ap (λ t. r ∷ t) rest
          ∙ ap (λ y. y ∷ escape table text) (sym e)
          ∙ sym (escape-plain table x text (ap (letter_of table) e ∙ fresh))
      | inr ne ↦ (elim (Option-cases (letter_of table x)) [
        | inl e ↦
            ap (replace_all c r) (escape-plain all x text (letter_of-later table r c x ne ∙ e))
            ∙ other_byte c r x (escape all text) nx
            ∙ ap (λ t. x ∷ t) rest
            ∙ sym (escape-plain table x text e)
        | inr (d, e) ↦
            let (nc, nb) = letter_of-Avoids table c x d h e in
            ap (replace_all c r) (escape-letter all x d text (letter_of-later table r c x ne ∙ e))
            ∙ other_escape c r d (escape all text) nc nb
            ∙ ap (λ t. backslash ∷ d ∷ t) rest
            ∙ sym (escape-letter table x d text e)
      ])
    ]

escape-empty : (text : Text) → escape [] text ≡ text
unfolding escape letter_of
escape-empty [] = refl
escape-empty (x ∷ text) = ap (λ t. x ∷ t) (escape-empty text)

-- A text without a backslash, with every line feed, tab, return, backspace, form feed and quotation
-- mark written as its escape sequence, is what `convert_raw_string` makes of it again.
pub convert_raw_string-escape :
    (text : Text) → NoBackslash text → convert_raw_string (escape escapes text) ≡ text
unfolding convert_raw_string
convert_raw_string-escape text n =
    let quote : List (ℕ × ℕ) = (34, 34) ∷ [] in
    let quotes : List (ℕ × ℕ) = (39, 39) ∷ quote in
    let feed : List (ℕ × ℕ) = (12, 102) ∷ quotes in
    let backspace : List (ℕ × ℕ) = (8, 98) ∷ feed in
    let return : List (ℕ × ℕ) = (13, 114) ∷ backspace in
    let tab : List (ℕ × ℕ) = (9, 116) ∷ return in
    let e10 =
      pass-first tab 110 10 text
        (
          omega arith,
          omega arith,
          (
            omega arith,
            omega arith,
            (
              omega arith,
              omega arith,
              (
                omega arith,
                omega arith,
                (omega arith, omega arith, (omega arith, omega arith, tt)),
              ),
            ),
          ),
        )
        (omega arith) (unfold letter_of in refl) n in
    let e9 =
      pass-first return 116 9 text
        (
          omega arith,
          omega arith,
          (
            omega arith,
            omega arith,
            (omega arith, omega arith, (omega arith, omega arith, (omega arith, omega arith, tt))),
          ),
        )
        (omega arith) (unfold letter_of in refl) n in
    let e13 =
      pass-first backspace 114 13 text
        (
          omega arith,
          omega arith,
          (omega arith, omega arith, (omega arith, omega arith, (omega arith, omega arith, tt))),
        )
        (omega arith) (unfold letter_of in refl) n in
    let e8 =
      pass-first feed 98 8 text
        (omega arith, omega arith, (omega arith, omega arith, (omega arith, omega arith, tt)))
        (omega arith) (unfold letter_of in refl) n in
    let e12 =
      pass-first quotes 102 12 text (omega arith, omega arith, (omega arith, omega arith, tt))
        (omega arith) (unfold letter_of in refl) n in
    let slashes =
      pass-none quotes 92 92 text (omega arith, omega arith, (omega arith, omega arith, tt)) n in
    let e39 =
      pass-first quote 39 39 text (omega arith, omega arith, tt) (omega arith)
        (unfold letter_of in refl) n in
    let e34 = pass-first [] 34 34 text tt (omega arith) (unfold letter_of in refl) n in
    rw (e10, e9, e13, e8, e12, slashes, e39, e34) (escape-empty text)
