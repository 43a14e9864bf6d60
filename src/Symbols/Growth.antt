-- ===== src/Symbols/Growth.antt =====
-- What a run of `GetTableEntryIndex` calls adds to the table of inc/eople_symbol_table.h.
use mathlib.Core.List.{append-nil, append_assoc}
use eople.Base.{
  ℕ, ◌+◌, ◌≤◌, ◌≡◌, refl, sym, ap, ◌∙◌, Bool, false, ◌||◌, ◌++◌, List, [], ◌∷◌, inl, inr, arith,
  length, length-append, Option-cases,
}
use eople.Base.Text.{Text}
use eople.Symbols.{SymbolTable, TableEntry, find_symbol, add_entry, get_table_entry_index}
use eople.Symbols.Wellformed.{new_entry}

-- A run of `GetTableEntryIndex` calls, as the parser makes them for the names that it meets.
unfoldable pub look_up_all : SymbolTable → List (Text × Bool) → SymbolTable
look_up_all t [] = t
look_up_all t ((ident, c) ∷ names) = look_up_all (get_table_entry_index t ident c false).0 names

-- All ids of a list of keys are `n` or above.
abbrev pub AllAbove : ℕ → List (Text × ℕ) → Type 0
AllAbove n [] = Unit {0}
AllAbove n ((k, i) ∷ m) = (n ≤ i) × AllAbove n m

-- `u` is `t` with more symbols.
pub record Grown (t u : SymbolTable) (es : List TableEntry) (ps : List (Text × ℕ)) : Type 0 where
  pub entries_eq : u.entries ≡ t.entries ++ es
  pub table_eq : u.table ≡ ps ++ t.table
  pub above : AllAbove (length t.entries) ps
  pub const_le : t.next_const_reg ≤ u.next_const_reg
  pub var_le : t.next_var_reg ≤ u.next_var_reg
  pub total : u.next_const_reg + u.next_var_reg ≡ t.next_const_reg + t.next_var_reg + length es
  pub const_mark : u.rollback_const_reg ≡ t.rollback_const_reg
  pub var_mark : u.rollback_var_reg ≡ t.rollback_var_reg
  pub scope : u.scope_name ≡ t.scope_name

abbrev pub Grows : SymbolTable → SymbolTable → Type 0
Grows t u = (es : List TableEntry) × (ps : List (Text × ℕ)) × Grown t u es ps

Grows-refl : (t : SymbolTable) → Grows t t
Grows-refl t = (
  [],
  [],
  record {
    entries_eq = sym (append-nil t.entries);
    table_eq = refl;
    above = tt;
    const_le = omega arith;
    var_le = omega arith;
    total = omega arith;
    const_mark = refl;
    var_mark = refl;
    scope = refl;
  },
)

AllAbove-append :
    (n : ℕ) (xs ys : List (Text × ℕ)) → AllAbove n xs → AllAbove n ys → AllAbove n (xs ++ ys)
AllAbove-append n [] ys h k = k
AllAbove-append n ((a, i) ∷ xs) ys h k = (h.0, AllAbove-append n xs ys h.1 k)

pub AllAbove-mono : (m n : ℕ) (xs : List (Text × ℕ)) → m ≤ n → AllAbove n xs → AllAbove m xs
AllAbove-mono m n [] h k = tt
AllAbove-mono m n ((a, i) ∷ xs) h k = (omega arith, AllAbove-mono m n xs h k.1)

Grows-add_entry : (t : SymbolTable) (ident : Text) (c : Bool) → Grows t (add_entry t ident c)
unfolding add_entry
Grows-add_entry t ident c = (
  new_entry t ident c ∷ [],
  (t.scope_name ++ ident, length t.entries) ∷ [],
  record {
    entries_eq = refl;
    table_eq = refl;
    above = (omega arith, tt);
    const_le = ground arith;
    var_le = ground arith;
    total = ground arith;
    const_mark = refl;
    var_mark = refl;
    scope = refl;
  },
)

Grows-trans : (t u v : SymbolTable) → Grows t u → Grows u v → Grows t v
Grows-trans t u v (es, ps, g) (fs, qs, h) = (
  es ++ fs,
  qs ++ ps,
  record {
    entries_eq = h.entries_eq ∙ ap (λ xs. xs ++ fs) g.entries_eq ∙ append_assoc t.entries es fs;
    table_eq = h.table_eq ∙ ap (λ m. qs ++ m) g.table_eq ∙ sym (append_assoc qs ps t.table);
    above =
        AllAbove-append (length t.entries) qs ps
          (AllAbove-mono (length t.entries) (length u.entries) qs
            (omega (arith, ap length g.entries_eq, length-append t.entries es)) h.above)
          g.above;
    const_le = omega (arith, g.const_le, h.const_le);
    var_le = omega (arith, g.var_le, h.var_le);
    total = omega (arith, g.total, h.total, length-append es fs);
    const_mark = h.const_mark ∙ g.const_mark;
    var_mark = h.var_mark ∙ g.var_mark;
    scope = h.scope ∙ g.scope;
  },
)

Grows-get_table_entry_index :
    (t : SymbolTable) (ident : Text) (c : Bool) → Grows t (get_table_entry_index t ident c false).0
unfolding get_table_entry_index
Grows-get_table_entry_index t ident c = elim (Option-cases (find_symbol t ident)) [
  | inl e ↦ rw (e, get_table_entry_index) (Grows-add_entry t ident (t.force_constant || c))
  | inr (i, e) ↦ rw (e, get_table_entry_index) (Grows-refl t)
]

pub Grows-look_up_all :
    (t : SymbolTable) (names : List (Text × Bool)) → Grows t (look_up_all t names)
unfolding look_up_all
Grows-look_up_all t [] = Grows-refl t
Grows-look_up_all t ((ident, c) ∷ names) =
    Grows-trans t _ _ (Grows-get_table_entry_index t ident c)
      (Grows-look_up_all (get_table_entry_index t ident c false).0 names)
