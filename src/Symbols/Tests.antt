-- ===== src/Symbols/Tests.antt =====
-- The symbol table of inc/eople_symbol_table.h on concrete tables.
use eople.Base.{ℕ, ◌<◌, ◌≡◌, refl, Bool, true, false, List, [], ◌∷◌, none, some, arith, ltb}
use eople.Base.Text.{Text, text, text_eq}
use eople.Types.{nil_type}
use eople.Symbols.{
  SymbolTable, TableEntry, new_table, find_symbol, get_table_entry_index, convert_to_constant,
  prep_rollback, rollback, find, add_entry, get_register_index, symbol_count, constant_count,
  table_entry_from_id,
}
use eople.Symbols.Wellformed.{
  Wellformed, new_table-Wellformed, get_table_entry_index-Wellformed,
  convert_to_constant-Wellformed,
}
use eople.Symbols.Registers.{get_register_index_inj, get_register_index_range}
use eople.Symbols.Lookup.{get_table_entry_index_again, find_symbol-get_table_entry_index}
use eople.Symbols.Growth.{look_up_all}
use eople.Symbols.Rollback.{rollback-look_up_all}
use eople.Symbols.Stale.{rollback_empty_stale}

-- A table with a variable, and one with a constant behind it.
abbrev one_symbol : SymbolTable
one_symbol = (get_table_entry_index new_table (text "x") false false).0

abbrev two_symbols : SymbolTable
two_symbols = (get_table_entry_index one_symbol (text "k") true false).0

get_table_entry_index-Wellformed_example : Wellformed one_symbol
get_table_entry_index-Wellformed_example =
    get_table_entry_index-Wellformed new_table (text "x") false false new_table-Wellformed
      (omega arith)

two_symbols-Wellformed : Wellformed two_symbols
two_symbols-Wellformed =
    get_table_entry_index-Wellformed one_symbol (text "k") true false
      get_table_entry_index-Wellformed_example
      (unfold get_table_entry_index find_symbol find add_entry text_eq in omega arith)

two_registers :
    (get_register_index two_symbols 0 ≡ some 1)
    × (get_register_index two_symbols 1 ≡ some 0)
    × (symbol_count two_symbols ≡ 2)
unfolding get_table_entry_index find_symbol find add_entry text_eq get_register_index symbol_count
two_registers = (refl, refl, refl)

abbrev converted : SymbolTable
converted = elim (convert_to_constant two_symbols 0) [ none ↦ new_table | some u ↦ u ]

converts : convert_to_constant two_symbols 0 ≡ some converted
unfolding get_table_entry_index find_symbol find add_entry text_eq convert_to_constant
    table_entry_from_id
converts = refl

convert_to_constant-Wellformed_example : Wellformed converted
convert_to_constant-Wellformed_example =
    convert_to_constant-Wellformed two_symbols converted 0 two_symbols-Wellformed converts

get_register_index_inj_example : ◌≡◌ {A = ℕ} 0 0
get_register_index_inj_example =
    get_register_index_inj two_symbols two_symbols-Wellformed 0 0 1 (two_registers.0)
      (two_registers.0)

abbrev x_entry : TableEntry
x_entry = record {
  ident = text "x";
  target_name = [];
  stack_index = 0;
  type_of = nil_type;
  is_constant = false;
}

get_register_index_range_example :
    (1 < symbol_count two_symbols) × (ltb 1 (constant_count two_symbols) ≡ false)
get_register_index_range_example =
    get_register_index_range two_symbols two_symbols-Wellformed 0 1 x_entry
      (unfold get_table_entry_index find_symbol find add_entry text_eq in refl) (two_registers.0)

get_table_entry_index_again_run :
    get_table_entry_index one_symbol (text "x") true true
    ≡ (one_symbol, (get_table_entry_index new_table (text "x") false false).1)
get_table_entry_index_again_run = get_table_entry_index_again new_table (text "x") false true true

find_symbol-get_table_entry_index_run : find_symbol two_symbols (text "x") ≡ some 0
find_symbol-get_table_entry_index_run =
    find_symbol-get_table_entry_index one_symbol (text "k") true false (text "x") 0
      (unfold get_table_entry_index find_symbol find add_entry text_eq in refl)

abbrev since : List (Text × Bool)
since = (text "a", false) ∷ (text "b", true) ∷ []

rollback-look_up_all_example :
    (v : SymbolTable) × (rollback (look_up_all (prep_rollback two_symbols) since) ≡ some v)
    × (v.entries ≡ two_symbols.entries)
    × (v.next_const_reg ≡ two_symbols.next_const_reg)
    × (v.next_var_reg ≡ two_symbols.next_var_reg)
    × ((k : Text) → find_symbol v k ≡ find_symbol two_symbols k)
rollback-look_up_all_example =
    rollback-look_up_all two_symbols since two_symbols-Wellformed
      (unfold get_table_entry_index find_symbol find add_entry text_eq in omega arith)
      (unfold look_up_all prep_rollback get_table_entry_index find_symbol find add_entry text_eq in
        omega arith)
      (unfold symbol_count look_up_all prep_rollback get_table_entry_index find_symbol find
          add_entry text_eq in
        omega arith)

rollback_empty_stale_example :
    (v : SymbolTable) × (rollback
        (get_table_entry_index (prep_rollback new_table) (text "x") false false).0
      ≡ some v)
    × (find_symbol v (text "x") ≡ some 0)
    × (table_entry_from_id v 0 ≡ none)
rollback_empty_stale_example =
    rollback_empty_stale new_table (text "x") false refl refl (omega arith) (omega arith)
