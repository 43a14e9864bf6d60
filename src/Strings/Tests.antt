-- ===== src/Strings/Tests.antt =====
-- `convert_raw_string` of src/utf8.cpp on concrete literals.
use eople.Base.{◌≡◌, refl, [], ◌∷◌, arith, replicate}
use eople.Strings.{backslash, replace_from, replace_all, convert_raw_string}
use eople.Strings.Escapes.{escape, escapes, convert_raw_string-escape}
use eople.Strings.Backslashes.{convert_raw_string-backslashes}

-- An escaped backslash in front of an n is read as a backslash and a line feed.
backslash_n : convert_raw_string (92 ∷ 92 ∷ 110 ∷ []) ≡ 92 ∷ 10 ∷ []
unfolding convert_raw_string replace_all replace_from
backslash_n = refl

convert_raw_string-escape_example :
    convert_raw_string (escape escapes (97 ∷ 10 ∷ 34 ∷ 98 ∷ 9 ∷ [])) ≡ 97 ∷ 10 ∷ 34 ∷ 98 ∷ 9 ∷ []
convert_raw_string-escape_example =
    convert_raw_string-escape (97 ∷ 10 ∷ 34 ∷ 98 ∷ 9 ∷ [])
      (omega arith, (omega arith, (omega arith, (omega arith, (omega arith, tt)))))

convert_raw_string-backslashes_example : convert_raw_string (replicate 4 backslash) ≡ backslash ∷ []
convert_raw_string-backslashes_example = convert_raw_string-backslashes 3
