-- ===== src/Symbols/Wellformed.antt =====
-- The invariant of inc/eople_symbol_table.h, and its preservation.
use eople.Base.{
  ℕ, ◌+◌, ◌<◌, ◌^◌, ◌≡◌, Bool, true, false, ◌++◌, [], some, arith, length, get_elem?, set, subst,
  if◌then◌else◌, ◌==◌, get_elem?-push, get_elem?-set, get_elem?-lt, ◌||◌, inl, inr, sym, Bool-cases,
  Option-cases,
}
use eople.Base.Text.{Text, text_eq, text_eq_iff}
use eople.Types.{nil_type}
use eople.Symbols.{
  SymbolTable, TableEntry, find, find_symbol, add_entry, get_table_entry_index, convert_to_constant,
  table_entry_from_id, convert_entry, new_table,
}

-- The next free register of an entry's kind.
abbrev pub limit : SymbolTable → Bool → ℕ
limit t is_constant = if is_constant then t.next_const_reg else t.next_var_reg

-- Registers lie below the counters, no two entries of one kind share one, and every key of the
-- table leads to an entry of that name.
pub record Wellformed (t : SymbolTable) : Type 0 where
  pub bounded :
      (i : ℕ) (e : TableEntry)
      → get_elem? t.entries i ≡ some e
      → e.stack_index < limit t e.is_constant
  pub distinct :
      (i j : ℕ) (e f : TableEntry)
      → get_elem? t.entries i ≡ some e
      → get_elem? t.entries j ≡ some f
      → e.is_constant ≡ f.is_constant
      → e.stack_index ≡ f.stack_index
      → i ≡ j
  pub keyed :
      (k : Text) (i : ℕ)
      → find k t.table ≡ some i
      → (e : TableEntry) × (get_elem? t.entries i ≡ some e) × (e.ident ≡ k)
  pub small : t.next_var_reg < 2 ^ 64

-- The entry that `add_entry` appends.
abbrev pub new_entry : SymbolTable → Text → Bool → TableEntry
new_entry t ident c = record {
  ident = t.scope_name ++ ident;
  target_name = [];
  stack_index = if c then t.next_const_reg else t.next_var_reg;
  type_of = nil_type;
  is_constant = c;
}

pub get_elem?-add_entry :
    (t : SymbolTable) (ident : Text) (c : Bool) (i : ℕ)
    → get_elem? (add_entry t ident c).entries i
      ≡ (if i == length t.entries then some (new_entry t ident c) else get_elem? t.entries i)
unfolding add_entry
get_elem?-add_entry t ident c i = get_elem?-push t.entries (new_entry t ident c) i

add_entry-keyed :
    (t : SymbolTable) (ident : Text) (c : Bool)
    → Wellformed t
    → (k : Text) (i : ℕ) → find k (add_entry t ident c).table ≡ some i
    → (e : TableEntry) × (get_elem? (add_entry t ident c).entries i ≡ some e) × (e.ident ≡ k)
unfolding add_entry find
add_entry-keyed t ident c w k i h = elim (Bool-cases (text_eq k (t.scope_name ++ ident))) [
  | inl same ↦ (
    new_entry t ident c,
    ground (arith, get_elem?-push t.entries (new_entry t ident c) i),
    sym ((text_eq_iff k (t.scope_name ++ ident)).0 same),
  )
  | inr other ↦
      let old : find k t.table ≡ some i = ground arith in
      let (e, at, name) = w.keyed k i old in
      (
        e,
        ground
            (arith, get_elem?-push t.entries (new_entry t ident c) i, get_elem?-lt t.entries i at),
        name,
      )
]

pub add_entry-Wellformed :
    (t : SymbolTable) (ident : Text) (c : Bool)
    → Wellformed t
    → t.next_var_reg + 1 < 2 ^ 64
    → Wellformed (add_entry t ident c)
unfolding add_entry
add_entry-Wellformed t ident c w room = record {
  bounded = λ i e h. ground (arith, get_elem?-add_entry t ident c i, w.bounded i e);
  distinct = λ i j e f hi hj k s. ground (
    arith,
    get_elem?-add_entry t ident c i,
    get_elem?-add_entry t ident c j,
    w.bounded i e,
    w.bounded j f,
    w.distinct i j e f,
  );
  keyed = add_entry-keyed t ident c w;
  small = ground arith;
}

-- Looking a symbol up, or adding it, keeps the table well formed.
pub get_table_entry_index-Wellformed :
    (t : SymbolTable) (ident : Text) (c must_exist : Bool)
    → Wellformed t
    → t.next_var_reg + 1 < 2 ^ 64
    → Wellformed (get_table_entry_index t ident c must_exist).0
unfolding get_table_entry_index
get_table_entry_index-Wellformed t ident c true w room = elim (Option-cases (find_symbol t ident)) [
  | inl e ↦ rw (e, get_table_entry_index) w
  | inr (i, e) ↦ rw (e, get_table_entry_index) w
]
get_table_entry_index-Wellformed t ident c false w room =
    elim (Option-cases (find_symbol t ident)) [
      | inl e ↦
          rw (e, get_table_entry_index)
            (add_entry-Wellformed t ident (t.force_constant || c) w room)
      | inr (i, e) ↦ rw (e, get_table_entry_index) w
    ]

-- The entry after its conversion.
abbrev pub converted : SymbolTable → TableEntry → TableEntry
converted t e = record e { is_constant = true; stack_index = t.next_const_reg }

convert_entry-keyed :
    (t : SymbolTable) (id : ℕ) (x : TableEntry)
    → Wellformed t
    → get_elem? t.entries id ≡ some x
    → (k : Text) (i : ℕ) → find k t.table ≡ some i
    → (e : TableEntry) × (get_elem? (set t.entries id (converted t x)) i ≡ some e) × (e.ident ≡ k)
convert_entry-keyed t id x w at k i h =
    let (e, old, name) = w.keyed k i h in
    elim (Bool-cases (id == i)) [
      | inl same ↦ (
        converted t x,
        ground (arith, get_elem?-set t.entries id i (converted t x) at),
        ground arith,
      )
      | inr other ↦ (e, ground (arith, get_elem?-set t.entries id i (converted t x) at), name)
    ]

module _ (t : SymbolTable) (id : ℕ) (x : TableEntry) (w : Wellformed t)
    (at : get_elem? t.entries id ≡ some x) where
  variable-Wellformed : x.is_constant ≡ false → Wellformed (convert_entry t id x)
  unfolding convert_entry
  variable-Wellformed variable =
      rw (variable, convert_entry)
        record {
          bounded = λ i e h. ground (
            arith,
            get_elem?-set t.entries id i (converted t x) at,
            w.bounded i e,
            w.bounded id x at,
            w.distinct i id e x,
            w.small,
          );
          distinct = λ i j e f hi hj k s. ground (
            arith,
            get_elem?-set t.entries id i (converted t x) at,
            get_elem?-set t.entries id j (converted t x) at,
            w.bounded i e,
            w.bounded j f,
            w.distinct i j e f,
          );
          keyed = convert_entry-keyed t id x w at;
          small = ground (arith, w.small);
        }

  convert_entry-Wellformed : Wellformed (convert_entry t id x)
  unfolding convert_entry
  convert_entry-Wellformed = elim (Bool-cases x.is_constant) [
    | inl constant ↦ rw (constant, convert_entry) w
    | inr variable ↦ variable-Wellformed variable
  ]

-- Converting an entry to a constant keeps the table well formed.
pub convert_to_constant-Wellformed :
    (t u : SymbolTable) (id : ℕ) → Wellformed t → convert_to_constant t id ≡ some u → Wellformed u
unfolding convert_to_constant table_entry_from_id
convert_to_constant-Wellformed t u id w h = elim (Option-cases (get_elem? t.entries id)) [
  | inl e ↦ absurd (ground arith)
  | inr (x, at) ↦
      let converts : convert_entry t id x ≡ u = ground arith in
      subst Wellformed converts (convert_entry-Wellformed t id x w at)
]

-- The table of the constructor.
pub new_table-Wellformed : Wellformed new_table
unfolding find_symbol
new_table-Wellformed = record {
  bounded = λ i e h. absurd (cc);
  distinct = λ i j e f h g k s. absurd (cc);
  keyed = λ k i h. absurd (cc);
  small = omega arith;
}
