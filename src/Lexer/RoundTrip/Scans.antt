-- ===== src/Lexer/RoundTrip/Scans.antt =====
-- The character loops of src/eople_lex.cpp on texts behind which a space stands.
use eople.Base.{
  ℕ, ◌≡◌, ◌≢◌, refl, true, false, [], ◌∷◌, ◌++◌, arith, none, Option-cases, ◌⊎◌, inl, inr,
}
use eople.Base.Text.{Text}
use eople.Strings.{backslash}
use eople.Strings.Escapes.{
  letter_of, escape, escapes, NoBackslash, Avoids, letter_of-Avoids, escape-plain, escape-letter,
}
use eople.Lexer.Scan.{is_space, is_word, skip_space, string_body, digits, identifier_tail}
use eople.Lexer.RoundTrip.Numerals.{AllDigits}

pub skip_space-stop :
    (c : ℕ) (cs : Text) → is_space c ≡ false → skip_space (c ∷ cs) ≡ (false, c ∷ cs)
unfolding skip_space
skip_space-stop c cs h = ground arith

pub digits-stop : (ds rest : Text) → AllDigits ds → digits (ds ++ 32 ∷ rest) ≡ (ds, 32 ∷ rest)
unfolding digits
digits-stop [] rest h = refl
digits-stop (d ∷ ds) rest (hd, h) = rw (hd, digits, digits-stop ds rest h) refl

abbrev pub AllWord : Text → Type 0
AllWord [] = Unit
AllWord (c ∷ cs) = (is_word c ≡ true) × AllWord cs

identifier-step :
    (beyond c : ℕ) (cs name rest : Text)
    → is_word c ≡ true
    → identifier_tail beyond cs ≡ (name, rest)
    → identifier_tail beyond (c ∷ cs) ≡ (c ∷ name, rest)
unfolding identifier_tail
identifier-step beyond c [] name rest h e = ground arith
identifier-step beyond c (d ∷ cs) name rest h e = rw (h, identifier_tail, e) refl

identifier-space : (beyond : ℕ) (rest : Text) → identifier_tail beyond (32 ∷ rest) ≡ ([], 32 ∷ rest)
unfolding identifier_tail
identifier-space beyond [] = refl
identifier-space beyond (d ∷ rest) = refl

pub identifier_tail-stop :
    (beyond : ℕ) (name rest : Text)
    → AllWord name
    → identifier_tail beyond (name ++ 32 ∷ rest) ≡ (name, 32 ∷ rest)
identifier_tail-stop beyond [] rest h = identifier-space beyond rest
identifier_tail-stop beyond (c ∷ name) rest (hc, h) =
    identifier-step beyond c (name ++ 32 ∷ rest) name (32 ∷ rest) hc
      (identifier_tail-stop beyond name rest h)

-- What the loop of a string takes as a part of it.
body-step :
    (delim previous c : ℕ) (cs body rest : Text)
    → (previous ≡ backslash) ⊎ (c ≢ delim)
    → string_body delim c cs ≡ (body, rest)
    → string_body delim previous (c ∷ cs) ≡ (c ∷ body, rest)
unfolding string_body
body-step delim previous c cs body rest (inl h) e = ground arith
body-step delim previous c cs body rest (inr h) e = ground arith

body-stop :
    (previous : ℕ) (rest : Text)
    → previous ≢ backslash
    → string_body 34 previous (34 ∷ rest) ≡ ([], rest)
unfolding string_body
body-stop previous rest h = ground arith

escapes-Avoids : Avoids escapes 92
escapes-Avoids = omega arith

plain-ne : (x : ℕ) → letter_of escapes x ≡ none → x ≢ 34
unfolding letter_of
plain-ne x h = ground arith

-- An escaped text is read up to the quotation mark behind it.
pub string_body-escape :
    (previous : ℕ) (text rest : Text)
    → previous ≢ backslash
    → NoBackslash text
    → string_body 34 previous (escape escapes text ++ 34 ∷ rest) ≡ (escape escapes text, rest)
unfolding escape
string_body-escape previous [] rest hp n = body-stop previous rest hp
string_body-escape previous (x ∷ text) rest hp (nx, n) = elim (Option-cases (letter_of escapes x)) [
  | inl e ↦
      rw (escape-plain escapes x text e)
        (body-step 34 previous x _ _ _ (inr (plain-ne x e)) (string_body-escape x text rest nx n))
  | inr (d, e) ↦
      let (_, nd) = letter_of-Avoids escapes 92 x d escapes-Avoids e in
      rw (escape-letter escapes x d text e) (
        body-step 34 previous backslash _ _ _ (inr (omega arith))
          (body-step 34 backslash d _ _ _ (inl refl) (string_body-escape d text rest nd n)))
]
