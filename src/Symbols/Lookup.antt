-- ===== src/Symbols/Lookup.antt =====
-- `GetTableEntryIndex` of inc/eople_symbol_table.h as a dictionary.
use mathlib.Core.List.{append_cancel_left}
use eople.Base.{
  ℕ, ◌≡◌, refl, Bool, false, ◌||◌, ◌++◌, none, some, inl, inr, arith, length, Option-cases,
}
use eople.Base.Text.{Text, text_eq_iff, text_eq_refl}
use eople.Symbols.{SymbolTable, find, find_symbol, add_entry, get_table_entry_index}

-- A symbol that was just added is found under its index.
find_symbol-add_entry :
    (t : SymbolTable) (ident : Text) (c : Bool)
    → find_symbol (add_entry t ident c) ident ≡ some (length t.entries)
unfolding find_symbol add_entry find
find_symbol-add_entry t ident c = ground (arith, text_eq_refl (t.scope_name ++ ident))

get_table_entry_index_found :
    (t : SymbolTable) (ident : Text) (c must : Bool) (i : ℕ)
    → find_symbol t ident ≡ some i
    → get_table_entry_index t ident c must ≡ (t, i)
unfolding get_table_entry_index
get_table_entry_index_found t ident c must i e = rw (e, get_table_entry_index) refl

get_table_entry_index_fresh :
    (t : SymbolTable) (ident : Text) (c : Bool)
    → find_symbol t ident ≡ none
    → get_table_entry_index t ident c false
      ≡ (add_entry t ident (t.force_constant || c), length t.entries)
unfolding get_table_entry_index
get_table_entry_index_fresh t ident c e = rw (e, get_table_entry_index) refl

module _ (t : SymbolTable) (ident : Text) (c : Bool) where
  -- After a symbol was looked up, or added, a second look-up gives the same index and changes
  -- nothing, whatever it asks for.
  pub get_table_entry_index_again :
      (c' must : Bool)
      → let (u, id) = get_table_entry_index t ident c false in
        get_table_entry_index u ident c' must ≡ (u, id)
  get_table_entry_index_again c' must = elim (Option-cases (find_symbol t ident)) [
    | inl e ↦ rw (get_table_entry_index_fresh t ident c e) (
        get_table_entry_index_found _ ident c' must _
          (find_symbol-add_entry t ident (t.force_constant || c)))
    | inr (i, e) ↦
        rw (get_table_entry_index_found t ident c false i e)
          (get_table_entry_index_found t ident c' must i e)
  ]

  find_symbol-add_entry_old :
      (k : Text) (i : ℕ)
      → find_symbol t ident ≡ none
      → find_symbol t k ≡ some i
      → find_symbol (add_entry t ident c) k ≡ some i
  unfolding find_symbol add_entry find
  find_symbol-add_entry_old k i fresh old = ground (
    arith,
    text_eq_iff (t.scope_name ++ k) (t.scope_name ++ ident),
    text_eq_iff k (t.scope_name ++ ident),
    append_cancel_left t.scope_name k ident,
  )

-- Looking a symbol up, or adding it, moves no symbol that the table already has.
pub find_symbol-get_table_entry_index :
    (t : SymbolTable) (ident : Text) (c must : Bool) (k : Text) (i : ℕ)
    → find_symbol t k ≡ some i
    → find_symbol (get_table_entry_index t ident c must).0 k ≡ some i
unfolding get_table_entry_index
find_symbol-get_table_entry_index t ident c must k i old =
    elim (Option-cases (find_symbol t ident)) [
      | inl fresh ↦
          ground (arith, find_symbol-add_entry_old t ident (t.force_constant || c) k i fresh old)
      | inr (j, e) ↦ ground arith
    ]
