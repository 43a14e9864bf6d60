-- ===== src/Lexer/Keywords.antt =====
-- The keyword search of src/eople_lex.cpp.
use Prim.Native.String.{String}
use eople.Base.{Bool, true, false, List, [], ◌∷◌, Option, none, some}
use eople.Base.Text.{Text, text, text_eq}
use eople.Lexer.Token.{Token, keyword_list, find_keyword}
use eople.Lexer.Next.{classify}

module _ {ℓ} (P : Token → Type ℓ) where
  abbrev pub OfAll : List (String × Token) → Type ℓ
  OfAll [] = Unit
  OfAll ((keyword, token) ∷ keywords) = P token × OfAll keywords

  abbrev OfSome : Option Token → Type ℓ
  OfSome none = Unit
  OfSome (some token) = P token

  if-OfSome :
      (t : Bool) (o p : Option Token)
      → OfSome o
      → OfSome p
      → OfSome (elim t [ true ↦ o | false ↦ p ])
  if-OfSome true o p ho hp = ho
  if-OfSome false o p ho hp = hp

  find_keyword-OfSome :
      (keywords : List (String × Token)) (word : Text)
      → OfAll keywords
      → OfSome (find_keyword keywords word)
  unfolding find_keyword
  find_keyword-OfSome [] word h = tt
  find_keyword-OfSome ((keyword, token) ∷ keywords) word (h, hs) =
      if-OfSome (text_eq (text keyword) word) (some token) _ h
        (find_keyword-OfSome keywords word hs)

  -- What holds of every keyword and of an identifier holds of the token of a word.
  pub classify-Keeps :
      (word : Text) → OfAll keyword_list → P Token.tok_identifier → P (classify word)
  unfolding classify
  classify-Keeps word h hi =
      on (find_keyword keyword_list word) (find_keyword-OfSome keyword_list word h)
    where
      on :
          (o : Option Token)
          → OfSome o
          → P (elim o [ some keyword ↦ keyword | none ↦ Token.tok_identifier ])
      on none ho = hi
      on (some token) ho = ho
