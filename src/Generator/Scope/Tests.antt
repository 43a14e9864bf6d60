-- ===== src/Generator/Scope/Tests.antt =====
-- A function in a class, for `GetStackIndex` of src/eople_ast.cpp.
use eople.Base.{ℕ, ◌+◌, ◌<◌, ◌≡◌, refl, false, List, [], ◌∷◌, some, arith}
use eople.Base.Text.{text, text_eq}
use eople.Symbols.{SymbolTable, new_table, symbol_count, get_table_entry_index}
use eople.Symbols.Wellformed.{Wellformed, new_table-Wellformed, get_table_entry_index-Wellformed}
use eople.Generator.Scope.{Scope, stack_index_of, get_stack_index, get_entry_id_for_name}
use eople.Generator.Scope.Slots.{stack_index_of-distinct, get_stack_index-far}

members : SymbolTable
unfolding get_table_entry_index
members = (get_table_entry_index new_table (text "m") false false).0

locals : SymbolTable
unfolding get_table_entry_index
locals = (get_table_entry_index new_table (text "x") false false).0

abbrev function : Scope
function = record { symbols = locals; scope_name = [] }

abbrev class_scope : Scope
class_scope = record { symbols = members; scope_name = [] }

abbrev scopes : List Scope
scopes = function ∷ class_scope ∷ []

members-Wellformed : Wellformed members
unfolding members
members-Wellformed =
    get_table_entry_index-Wellformed new_table (text "m") false false new_table-Wellformed
      (omega arith)

locals-Wellformed : Wellformed locals
unfolding locals
locals-Wellformed =
    get_table_entry_index-Wellformed new_table (text "x") false false new_table-Wellformed
      (omega arith)

get_stack_index_m : get_stack_index scopes 0 (text "m") ≡ some 0
unfolding get_stack_index locals members text_eq
get_stack_index_m = refl

get_stack_index_x : get_stack_index scopes 0 (text "x") ≡ some 1
unfolding get_stack_index locals members text_eq
get_stack_index_x = refl

-- A depth that starts at 1 misses the symbol.
get_stack_index_stray : get_stack_index scopes 1 (text "x") ≡ some 0
unfolding get_stack_index locals members text_eq
get_stack_index_stray = refl

stack_index_of-distinct_example :
    (1 < symbol_count locals + symbol_count members) × ◌≡◌ {A = ℕ} 0 0 × ◌≡◌ {A = ℕ} 0 0
unfolding stack_index_of locals members
stack_index_of-distinct_example =
    stack_index_of-distinct function class_scope 0 0 0 0 1 locals-Wellformed members-Wellformed
      (omega arith) (omega arith) refl refl

-- `m` two contexts out, behind an empty class.
abbrev outer_scopes : List Scope
outer_scopes = function ∷ record { symbols = new_table; scope_name = [] } ∷ class_scope ∷ []

get_stack_index-far_example : get_stack_index outer_scopes 0 (text "m") ≡ some 0
unfolding get_entry_id_for_name locals members text_eq
get_stack_index-far_example = get_stack_index-far outer_scopes (text "m") 0 2 refl (omega arith)
