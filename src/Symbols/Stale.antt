-- ===== src/Symbols/Stale.antt =====
-- `Rollback` of inc/eople_symbol_table.h where the mark was set on an empty table.
use eople.Base.{◌<◌, ◌^◌, ◌≡◌, refl, Bool, false, ◌||◌, ◌++◌, [], ◌∷◌, none, some, arith, length}
use eople.Base.Text.{Text, text_eq_refl}
use eople.Symbols.{
  SymbolTable, find, find_symbol, add_entry, get_table_entry_index, prep_rollback, rollback,
  rollback_count, undo, erase_above, pop_back, pop_entries, table_entry_from_id,
}

rollback_count-add_entry :
    (t : SymbolTable) (ident : Text) (c : Bool)
    → t.next_const_reg < 2 ^ 31
    → t.next_var_reg < 2 ^ 31
    → rollback_count (add_entry (prep_rollback t) ident c) ≡ 1
unfolding rollback_count add_entry prep_rollback
rollback_count-add_entry t ident c hc hv = ground arith

-- The table after its first symbol was rolled back.
abbrev stale : SymbolTable → Text → SymbolTable
stale t ident = record t {
  table = (t.scope_name ++ ident, 0) ∷ [];
  entries = [];
  rollback_const_reg = t.next_const_reg;
  rollback_var_reg = t.next_var_reg;
}

undo-add_entry :
    (t : SymbolTable) (ident : Text) (c : Bool)
    → t.entries ≡ []
    → t.table ≡ []
    → undo 1 (add_entry (prep_rollback t) ident c) ≡ some (stale t ident)
unfolding undo add_entry prep_rollback pop_entries pop_back erase_above
undo-add_entry t ident c no_entries no_table = simp (no_entries, no_table)

get_table_entry_index-empty :
    (t : SymbolTable) (ident : Text) (c : Bool)
    → t.table ≡ []
    → get_table_entry_index (prep_rollback t) ident c false
      ≡ (add_entry (prep_rollback t) ident (t.force_constant || c), length t.entries)
unfolding get_table_entry_index find_symbol find prep_rollback
get_table_entry_index-empty t ident c no_table = ground arith

-- A first symbol that is rolled back is not forgotten: the table still finds it, under the id of
-- an entry that is gone.
pub rollback_empty_stale :
    (t : SymbolTable) (ident : Text) (c : Bool)
    → t.entries ≡ []
    → t.table ≡ []
    → t.next_const_reg < 2 ^ 31
    → t.next_var_reg < 2 ^ 31
    → (v : SymbolTable) × (rollback (get_table_entry_index (prep_rollback t) ident c false).0
        ≡ some v)
      × (find_symbol v ident ≡ some 0)
      × (table_entry_from_id v 0 ≡ none)
unfolding rollback find_symbol find table_entry_from_id
rollback_empty_stale t ident c no_entries no_table hc hv = (
  stale t ident,
  rw
      (
        get_table_entry_index-empty t ident c no_table,
        rollback_count-add_entry t ident (t.force_constant || c) hc hv,
      )
      (undo-add_entry t ident (t.force_constant || c) no_entries no_table),
  ground (arith, text_eq_refl (t.scope_name ++ ident)),
  refl,
)
