-- ===== src/Parser/Symbols.antt =====
-- `ParseIdentifier` and `ParseValidIdentifier` of src/eople_parse.cpp, and the search of the contexts.
use eople.Base.{ℕ, ◌-◌, ◌^◌, true, false, List, [], ◌∷◌, ◌==◌, if◌then◌else◌}
use eople.Base.Text.{Text}
use eople.Symbols.{SymbolTable, get_table_entry_index, not_found}
use eople.Lexer.Token.{Token}
use eople.Machine.Result.{Result, ok, err, ◌>>=◌, null_pointer}
use eople.Parser.Node.{Node, Pointer}
use eople.Parser.State.{Parser, Action, consume_expected, bump_error, failed, found_null}

-- The id of the first table that has the name.
unfoldable pub search : List SymbolTable → Text → ℕ
unfolding get_table_entry_index
search [] name = not_found
search (s ∷ contexts) name =
    let id = (get_table_entry_index s name false true).1 in
    let later = search contexts name in if id == not_found then later else id

abbrev pub has_function : List SymbolTable → Result (List SymbolTable)
has_function [] = err null_pointer
has_function (s ∷ contexts) = ok (s ∷ contexts)

-- `ParseValidIdentifier`.
unfoldable pub parse_valid_identifier : Text → Action
unfolding search bump_error
parse_valid_identifier name p = do
  scopes ← has_function p.scopes
  (if search scopes name == not_found
      then failed p
      else ok (Pointer.to (Node.identifier name (search scopes name)), p))

-- The name is looked for and added where it is new, and not in a context.
unfoldable pub declare : Text → Parser → Parser
unfolding search get_table_entry_index
declare name p = elim p.scopes [
  | [] ↦ record p { module_symbols = (get_table_entry_index p.module_symbols name false false).0 }
  | s ∷ contexts ↦
      if search (s ∷ contexts) name == not_found
      then record p { scopes = (get_table_entry_index s name false false).0 ∷ contexts }
      else p
]

-- `-1`, with which the node is built: the variables that the branches set hide the one it reads.
abbrev pub unset_symbol : ℕ
unset_symbol = 2 ^ 64 - 1

-- `ParseIdentifier`.
unfoldable pub parse_identifier : Action
unfolding consume_expected declare
parse_identifier p =
    let name = p.lexer.word in
    let (found, p') = consume_expected Token.tok_identifier p in
    if found
    then ok (Pointer.to (Node.identifier name unset_symbol), declare name p')
    else found_null p
