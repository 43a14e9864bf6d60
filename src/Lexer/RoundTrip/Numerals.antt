-- ===== src/Lexer/RoundTrip/Numerals.antt =====
-- The decimal numerals that `Lexer::NextToken` of src/eople_lex.cpp reads.
use eople.Base.{
  ℕ, zero, suc, ◌+◌, ◌-◌, ◌*◌, ◌/◌, ◌%◌, ◌<◌, ◌≡◌, refl, ap, true, false, [], ◌∷◌, ◌++◌, arith, ltb,
  Bool-cases, inl, inr,
}
use eople.Base.Text.{Text}
use eople.Lexer.Scan.{is_digit}
use eople.Lexer.Next.{decimal}

unfoldable pub numeral_on : ℕ → ℕ → Text
numeral_on zero n = []
numeral_on (suc fuel) n = elim (ltb n 10) [
  | true ↦ (48 + n) ∷ []
  | false ↦ numeral_on fuel (n / 10) ++ (48 + n % 10) ∷ []
]

-- The numeral of a number; it has fewer digits than the fuel.
unfoldable pub numeral : ℕ → Text
unfolding numeral_on
numeral n = numeral_on (n + 1) n

abbrev pub AllDigits : Text → Type 0
AllDigits [] = Unit
AllDigits (c ∷ cs) = (is_digit c ≡ true) × AllDigits cs

AllDigits-append : (cs : Text) (d : ℕ) → AllDigits cs → is_digit d ≡ true → AllDigits (cs ++ d ∷ [])
AllDigits-append [] d h hd = (hd, tt)
AllDigits-append (c ∷ cs) d (hc, h) hd = (hc, AllDigits-append cs d h hd)

decimal-append :
    (m : ℕ) (cs : Text) (d : ℕ) → decimal m (cs ++ d ∷ []) ≡ 10 * decimal m cs + (d - 48)
unfolding decimal
decimal-append m [] d = refl
decimal-append m (c ∷ cs) d = decimal-append (10 * m + (c - 48)) cs d

is_digit-of : (n : ℕ) → n < 10 → is_digit (48 + n) ≡ true
is_digit-of n h = ground arith

-- A text that starts with a digit, goes on with digits and stands for a number.
pub record IsNumeral (n : ℕ) (cs : Text) : Type 0 where
  pub first : ℕ
  pub more : Text
  pub shape : cs ≡ first ∷ more
  pub first_digit : is_digit first ≡ true
  pub more_digits : AllDigits more
  pub value : decimal 0 cs ≡ n

IsNumeral-digit : (n : ℕ) → n < 10 → IsNumeral n ((48 + n) ∷ [])
unfolding decimal
IsNumeral-digit n h = record {
  first = 48 + n;
  more = [];
  shape = refl;
  first_digit = is_digit-of n h;
  more_digits = tt;
  value = omega arith;
}

IsNumeral-append :
    (n : ℕ) (cs : Text) → IsNumeral (n / 10) cs → IsNumeral n (cs ++ (48 + n % 10) ∷ [])
IsNumeral-append n cs i = record {
  first = i.first;
  more = i.more ++ (48 + n % 10) ∷ [];
  shape = ap (λ t. t ++ (48 + n % 10) ∷ []) i.shape;
  first_digit = i.first_digit;
  more_digits =
      AllDigits-append i.more (48 + n % 10) i.more_digits (is_digit-of (n % 10) (omega arith));
  value = omega (arith, decimal-append 0 cs (48 + n % 10), i.value);
}

numeral_on-IsNumeral : (fuel n : ℕ) → n < fuel → IsNumeral n (numeral_on fuel n)
unfolding numeral_on
numeral_on-IsNumeral zero n h = absurd (omega arith)
numeral_on-IsNumeral (suc fuel) n h = elim (Bool-cases (ltb n 10)) [
  | inl e ↦ rw (e, numeral_on) (IsNumeral-digit n (ground arith))
  | inr e ↦
      rw (e, numeral_on)
        (IsNumeral-append n (numeral_on fuel (n / 10))
          (numeral_on-IsNumeral fuel (n / 10) (ground arith)))
]

pub numeral-IsNumeral : (n : ℕ) → IsNumeral n (numeral n)
unfolding numeral
numeral-IsNumeral n = numeral_on-IsNumeral (n + 1) n (omega arith)
