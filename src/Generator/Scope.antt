-- ===== src/Generator/Scope.antt =====
-- `Node::Function::GetEntryIdForName` and `GetStackIndex` of src/eople_ast.cpp: where the symbols of a
-- function and of the scopes around it lie in the stack frame.
pub mod Slots
mod Tests
use eople.Base.{
  ℕ, zero, suc, ◌+◌, Bool, true, false, List, [], ◌∷◌, ◌++◌, Option, none, some, ltb, ◌==◌,
  if◌then◌else◌, get_elem?,
}
use eople.Base.Text.{Text}
use eople.Types.{Ty}
use eople.Symbols.{
  SymbolTable, TableEntry, not_found, get_table_entry_index, get_register_index, symbol_count,
  table_entry_from_id,
}

-- A function's table for its current specialization, and its scope name. A list of them is a
-- function, its context, the context of that, and so on.
pub record Scope : Type 0 where
  pub symbols : SymbolTable
  pub scope_name : Text

abbrev search : Scope → Text → ℕ
search s key = (get_table_entry_index s.symbols (s.scope_name ++ key) false true).1

-- The entry of a name and how many contexts out it is, from `depth` on; `none` is the failed
-- assertion.
unfoldable pub get_entry_id_for_name : List Scope → Text → ℕ → Option (ℕ × ℕ)
unfolding get_table_entry_index
get_entry_id_for_name [] key depth = none
get_entry_id_for_name (s ∷ contexts) key depth = elim (search s key == not_found) [
  | true ↦ get_entry_id_for_name contexts key (depth + 1)
  | false ↦ some (search s key, depth)
]

-- The loop over the contexts. The `depth` it compares with stays 1: nothing in the loop counts it.
unfoldable pub add_contexts : ℕ → ℕ → ℕ → List Scope → ℕ → ℕ → Option ℕ
unfolding get_register_index symbol_count
add_contexts depth match_depth entry [] stack_index offset = some (stack_index + offset)
add_contexts depth match_depth entry (p ∷ ps) stack_index offset = elim (ltb match_depth depth) [
  | true ↦ add_contexts depth match_depth entry ps stack_index (offset + symbol_count p.symbols)
  | false ↦ (elim (depth == match_depth) [
    | true ↦ (elim (get_register_index p.symbols entry) [
      | some register ↦ add_contexts depth match_depth entry ps register offset
      | none ↦ none
    ])
    | false ↦ add_contexts depth match_depth entry ps stack_index offset
  ])
]

-- `GetStackIndex` once the entry is found.
unfoldable pub stack_index_of : List Scope → ℕ → ℕ → Option ℕ
unfolding get_register_index add_contexts
stack_index_of [] match_depth entry = none
stack_index_of (s ∷ contexts) match_depth entry = elim (match_depth == 0) [
  | true ↦ (elim (get_register_index s.symbols entry) [
    | some register ↦ add_contexts 1 match_depth entry contexts register 0
    | none ↦ none
  ])
  | false ↦ add_contexts 1 match_depth entry contexts 0 0
]

-- `GetStackIndex` of a name. The source starts the depth at 0, except for the array of a subscript,
-- where it leaves it uninitialised.
unfoldable pub get_stack_index : List Scope → ℕ → Text → Option ℕ
unfolding get_entry_id_for_name stack_index_of
get_stack_index scopes depth key = elim (get_entry_id_for_name scopes key depth) [
  | none ↦ none
  | some found ↦ stack_index_of scopes found.1 found.0
]

-- `GetTableEntryForName` and the type of the entry; `none` is the failed assertion.
unfoldable pub get_table_entry_for_name : List Scope → Text → Option TableEntry
unfolding get_table_entry_index table_entry_from_id
get_table_entry_for_name [] key = none
get_table_entry_for_name (s ∷ contexts) key = elim (search s key == not_found) [
  | true ↦ get_table_entry_for_name contexts key
  | false ↦ table_entry_from_id s.symbols (search s key)
]

unfoldable pub get_expression_type : List Scope → Text → Option Ty
unfolding get_table_entry_for_name
get_expression_type scopes key = elim (get_table_entry_for_name scopes key) [
  | none ↦ none
  | some entry ↦ some entry.type_of
]
