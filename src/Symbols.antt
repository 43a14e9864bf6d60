-- ===== src/Symbols.antt =====
-- inc/eople_symbol_table.h: the symbol table of a function and its register allocation.
-- A `size_t` is a number; where the source subtracts one, the wrap-around is written out.
-- The unordered map is an association list in which the newest entry comes first; a key is
-- added only after a search for it has failed, so the order is not seen.
pub mod Wellformed
pub mod Registers
pub mod Lookup
pub mod Growth
pub mod Rollback
pub mod Stale
mod Tests
use eople.Base.{
  ℕ, zero, suc, ◌+◌, ◌-◌, ◌%◌, ◌^◌, Bool, true, false, ◌||◌, not, List, [], ◌∷◌, ◌++◌, Option, none,
  some, ltb, leb, ◌==◌, if◌then◌else◌, length, get_elem?, set,
}
use eople.Base.Text.{Text, text, text_eq}
use eople.Types.{Ty, nil_type}

pub record TableEntry : Type 0 where
  pub ident : Text
  pub target_name : Text
  pub stack_index : ℕ
  pub type_of : Ty
  pub is_constant : Bool

pub record SymbolTable : Type 0 where
  pub table : List (Text × ℕ)
  pub entries : List TableEntry
  pub scope_name : Text
  pub next_const_reg : ℕ
  pub next_var_reg : ℕ
  pub rollback_const_reg : ℕ
  pub rollback_var_reg : ℕ
  pub force_constant : Bool

-- The rollback registers are not initialised by the constructor; 0 stands for what they hold.
abbrev pub new_table : SymbolTable
new_table = record {
  table = [];
  entries = [];
  scope_name = [];
  next_const_reg = 0;
  next_var_reg = 0;
  rollback_const_reg = 0;
  rollback_var_reg = 0;
  force_constant = false;
}

abbrev pub not_found : ℕ
not_found = 0xFFFFFFFF

-- `a - b` on `size_t`.
abbrev pub sub64 : ℕ → ℕ → ℕ
sub64 a b = (a + (2 ^ 64 - b)) % 2 ^ 64

unfoldable pub find : Text → List (Text × ℕ) → Option ℕ
find k [] = none
find k ((j, i) ∷ m) = if text_eq k j then some i else find k m

unfoldable pub has_symbol : Text → SymbolTable → Bool
unfolding find
has_symbol ident t = elim (find ident t.table) [ none ↦ false | some i ↦ true ]

unfoldable pub prep_rollback : SymbolTable → SymbolTable
prep_rollback t = record t {
  rollback_const_reg = t.next_const_reg;
  rollback_var_reg = t.next_var_reg;
}

-- The loop that erases the keys of the entries beyond the last one that is kept.
unfoldable pub erase_above : ℕ → List (Text × ℕ) → List (Text × ℕ)
erase_above last [] = []
erase_above last ((k, i) ∷ m) =
    if ltb last i then erase_above last m else (k, i) ∷ erase_above last m

-- `pop_back`, which has no defined result on an empty vector.
unfoldable pub pop_back : List TableEntry → Option (List TableEntry)
pop_back [] = none
pop_back (e ∷ []) = some []
pop_back (e ∷ f ∷ es) = elim (pop_back (f ∷ es)) [ none ↦ none | some r ↦ some (e ∷ r) ]

unfoldable pub pop_entries : ℕ → List TableEntry → Option (List TableEntry)
unfolding pop_back
pop_entries zero es = some es
pop_entries (suc n) es = elim (pop_back es) [ none ↦ none | some r ↦ pop_entries n r ]

-- The number of symbols since `PrepRollback`, as the bit pattern of an `i32`.
unfoldable pub rollback_count : SymbolTable → ℕ
rollback_count t =
    (sub64 t.next_const_reg t.rollback_const_reg + sub64 t.next_var_reg t.rollback_var_reg) % 2 ^ 32

-- `Rollback` once the count is known. A negative count fails the assertion, since it is converted
-- to `size_t` in the comparison.
unfoldable pub undo : ℕ → SymbolTable → Option SymbolTable
undo count t =
    let size = length t.entries in
    if leb (2 ^ 31) count || ltb size count then none else (elim (pop_entries count t.entries) [
      | none ↦ none
      | some kept ↦ some (record t {
        table = erase_above (sub64 (sub64 size 1) count) t.table;
        entries = kept;
        next_const_reg = t.rollback_const_reg;
        next_var_reg = t.rollback_var_reg;
      })
    ])

unfoldable pub rollback : SymbolTable → Option SymbolTable
rollback t = undo (rollback_count t) t

-- `TableEntryFromId`; `none` is the failed assertion.
unfoldable pub table_entry_from_id : SymbolTable → ℕ → Option TableEntry
table_entry_from_id t id = get_elem? t.entries id

convert_entry : SymbolTable → ℕ → TableEntry → SymbolTable
convert_entry t id e = if e.is_constant then t else (record t {
  next_var_reg =
      if e.stack_index == sub64 t.next_var_reg 1 then sub64 t.next_var_reg 1 else t.next_var_reg;
  entries = set t.entries id (record e { is_constant = true; stack_index = t.next_const_reg });
  next_const_reg = t.next_const_reg + 1;
})

unfoldable pub convert_to_constant : SymbolTable → ℕ → Option SymbolTable
unfolding table_entry_from_id convert_entry
convert_to_constant t id = elim (table_entry_from_id t id) [
  | none ↦ none
  | some e ↦ some (convert_entry t id e)
]

-- The search with the scope in front, then without it.
unfoldable pub find_symbol : SymbolTable → Text → Option ℕ
unfolding find
find_symbol t ident = elim (find (t.scope_name ++ ident) t.table) [
  | some i ↦ some i
  | none ↦ find ident t.table
]

-- The entry that a new symbol gets.
unfoldable pub add_entry : SymbolTable → Text → Bool → SymbolTable
add_entry t ident is_constant = record t {
  entries =
      t.entries
      ++ record {
        ident = t.scope_name ++ ident;
        target_name = [];
        stack_index = if is_constant then t.next_const_reg else t.next_var_reg;
        type_of = nil_type;
        is_constant = is_constant;
      }
        ∷ [];
  table = (t.scope_name ++ ident, length t.entries) ∷ t.table;
  next_const_reg = if is_constant then t.next_const_reg + 1 else t.next_const_reg;
  next_var_reg = if is_constant then t.next_var_reg else t.next_var_reg + 1;
}

unfoldable pub get_table_entry_index : SymbolTable → Text → Bool → Bool → SymbolTable × ℕ
unfolding find_symbol add_entry
get_table_entry_index t ident is_constant must_exist = elim (find_symbol t ident) [
  | some index ↦ (t, index)
  | none ↦
      if must_exist
      then (t, not_found)
      else (add_entry t ident (t.force_constant || is_constant), length t.entries)
]

unfoldable pub set_scope_name : Text → SymbolTable → SymbolTable
set_scope_name name t = record t { scope_name = name ++ text "::" }

unfoldable pub clear_table : SymbolTable → SymbolTable
clear_table t = record t { entries = []; table = []; next_const_reg = 0; next_var_reg = 0 }

unfoldable pub force_constants : Bool → SymbolTable → SymbolTable
force_constants force t = record t { force_constant = force }

-- The register of an entry: the constants stand below the variables.
abbrev pub entry_register : SymbolTable → TableEntry → ℕ
entry_register t e = e.stack_index + (if e.is_constant then 0 else t.next_const_reg)

unfoldable pub get_register_index : SymbolTable → ℕ → Option ℕ
get_register_index t id = elim (get_elem? t.entries id) [
  | none ↦ none
  | some e ↦ some (entry_register t e)
]

unfoldable pub symbol_count : SymbolTable → ℕ
symbol_count t = t.next_const_reg + t.next_var_reg

unfoldable pub constant_count : SymbolTable → ℕ
constant_count t = t.next_const_reg
