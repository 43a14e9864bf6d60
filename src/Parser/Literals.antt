-- ===== src/Parser/Literals.antt =====
-- The literals without elements of src/eople_parse.cpp: `ParseFloat`, `ParseInt`, `ParseString`,
-- `ParseBool` and `ParseType`. `snprintf`
-- with `%f` into 32 bytes is a parameter.
use Prim.Native.String.{String}
use eople.Base.{
  ℕ, ◌+◌, ◌-◌, ◌%◌, ◌^◌, Bool, true, false, List, [], ◌∷◌, ◌++◌, Option, none, some, ltb, ◌==◌,
  if◌then◌else◌, ◌&&◌,
}
use eople.Base.Text.{Text, text, text_eq}
use eople.Types.{ValueType}
use eople.Lexer.Token.{Token}
use eople.Lexer.RoundTrip.Numerals.{numeral}
use eople.Machine.Result.{Result, ok, err, ◌>>=◌, overflow}
use eople.Parser.Node.{Node, Pointer}
use eople.Parser.State.{Action, consume_expected, bump_error, add_symbol, failed, found_null}

-- `std::to_string` of a `char`, which is signed, by its bits.
unfoldable pub char_label : Text → ℕ → Text
unfolding numeral
char_label prefix n =
    if ltb n 128 then prefix ++ numeral n else prefix ++ text "-" ++ numeral (256 - n)

-- `count++`.
abbrev pub count_up : ℕ → ℕ
count_up n = (n + 1) % 256

unfoldable pub parse_float : (ℕ → Text) → Bool → Action
unfolding consume_expected add_symbol
parse_float print_float neg p =
    let bits = p.lexer.f64 in
    let number = if neg then (bits + 2 ^ 63) % 2 ^ 64 else bits in
    let label = print_float number in
    let (found, q) = consume_expected Token.tok_number_float p in
    if found
    then (do
      (id, q') ← add_symbol label true q
      ok (Pointer.to (Node.float_literal number id label), q'))
    else found_null p

-- The negation of the smallest `int_t`, which C++ leaves undefined.
abbrev pub negate_word : Bool → ℕ → Result ℕ
negate_word neg word =
    if neg && (word == 2 ^ 63)
    then err overflow
    else ok (if neg then (2 ^ 64 - word) % 2 ^ 64 else word)

unfoldable pub parse_int : Bool → Action
unfolding consume_expected bump_error add_symbol char_label
parse_int neg p =
    let word = p.lexer.u64 in
    let (found, q) = consume_expected Token.tok_number_int p in
    if found
    then (do
      number ← negate_word neg word
      let q₁ = if ltb word (2 ^ 63) then q else bump_error q
      let label = char_label (text "$int") q₁.labels.ints
      (id, q₂) ←
          add_symbol label true
            (record q₁ { labels = record (q₁.labels) { ints = count_up q₁.labels.ints } })
      ok (Pointer.to (Node.int_literal number id label), q₂))
    else found_null p

unfoldable pub parse_string : Action
unfolding consume_expected add_symbol char_label
parse_string p =
    let (found, q) = consume_expected Token.tok_string p in
    let label = char_label (text "$string") q.labels.strings in
    if found
    then (do
      (id, q') ←
          add_symbol label true
            (record q { labels = record (q.labels) { strings = count_up q.labels.strings } })
      ok (Pointer.to (Node.string_literal p.lexer.word id label), q'))
    else found_null p

abbrev bool_node : Bool → Text → Action
bool_node b name p = do
  (id, p') ← add_symbol name true p
  ok (Pointer.to (Node.bool_literal b id name), p')

unfoldable pub parse_bool : Action
unfolding consume_expected add_symbol
parse_bool p =
    let (is_true, q) = consume_expected Token.tok_true p in
    let (is_false, q') = consume_expected Token.tok_false p in
    if is_true
    then bool_node true (text "#true#") q
    else if is_false
    then bool_node false (text "#false#") q'
    else found_null p

-- The names of `type_list`; the value type is found by its position.
abbrev pub type_list : List (String × ValueType)
type_list =
    ("float", ValueType.float)
    ∷ ("int", ValueType.int)
    ∷ ("bool", ValueType.bool)
    ∷ ("string", ValueType.string)
    ∷ ("dict", ValueType.dict)
    ∷ ("struct", ValueType.struct)
    ∷ ("process", ValueType.process)
    ∷ ("function", ValueType.function)
    ∷ ("promise", ValueType.promise)
    ∷ []

unfoldable pub find_type : List (String × ValueType) → Text → Option ValueType
unfolding text_eq
find_type [] name = none
find_type ((word, kind) ∷ types) name = elim (text_eq name (text word)) [
  | true ↦ some kind
  | false ↦ find_type types name
]

unfoldable pub type_node : Text → Action
unfolding find_type add_symbol bump_error
type_node name p = elim (find_type type_list name) [
  | none ↦ failed p
  | some kind ↦ (do
    (id, p') ← add_symbol (name ++ text " type") true p
    ok (Pointer.to (Node.type_literal kind id (name ++ text " type")), p'))
]

unfoldable pub parse_type : Action
unfolding consume_expected type_node bump_error
parse_type p =
    let (colon, q) = consume_expected (Token.character 58) p in
    let (found, q') = consume_expected Token.tok_identifier q in
    if colon then (if found then type_node q.lexer.word q' else failed q) else found_null p
