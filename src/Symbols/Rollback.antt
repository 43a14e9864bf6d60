-- ===== src/Symbols/Rollback.antt =====
-- `PrepRollback` and `Rollback` of inc/eople_symbol_table.h, around a run of look-ups.
use mathlib.Core.List.{append-nil, append_assoc}
use eople.Base.{
  ℕ, zero, suc, ◌+◌, ◌-◌, ◌≤◌, ◌<◌, ◌^◌, ◌≡◌, refl, sym, ap, ◌∙◌, Bool, ◌++◌, List, [], ◌∷◌, Option,
  none, some, inl, inr, arith, length, length-append, Option-cases, Bool-cases, get_elem?-lt,
}
use eople.Base.Text.{Text, text_eq}
use eople.Symbols.{
  SymbolTable, TableEntry, find, find_symbol, prep_rollback, rollback, rollback_count, undo,
  erase_above, pop_back, pop_entries, symbol_count,
}
use eople.Symbols.Wellformed.{Wellformed}
use eople.Symbols.Growth.{look_up_all, AllAbove, AllAbove-mono, Grown, Grows-look_up_all}

pop_back-push : (es : List TableEntry) (e : TableEntry) → pop_back (es ++ e ∷ []) ≡ some es
unfolding pop_back
pop_back-push [] e = refl
pop_back-push (x ∷ []) e = refl
pop_back-push (x ∷ y ∷ es) e = rw (pop_back-push (y ∷ es) e) refl

-- `pop_back` after a run of `pop_back`s.
pop_last : Option (List TableEntry) → Option (List TableEntry)
unfolding pop_back
pop_last none = none
pop_last (some es) = pop_back es

pop_entries-suc :
    (n : ℕ) (es : List TableEntry) → pop_entries (suc n) es ≡ pop_last (pop_entries n es)
unfolding pop_entries pop_last
pop_entries-suc zero es = elim (Option-cases (pop_back es)) [
  | inl e ↦ rw (e, pop_entries) refl
  | inr (r, e) ↦ rw (e, pop_entries) refl
]
pop_entries-suc (suc n) es = elim (Option-cases (pop_back es)) [
  | inl e ↦ rw (e, pop_entries) refl
  | inr (r, e) ↦ rw (e, pop_entries) (pop_entries-suc n r)
]

pop_entries-append : (xs es : List TableEntry) → pop_entries (length es) (xs ++ es) ≡ some xs
unfolding pop_last
pop_entries-append xs [] = rw append-nil (unfold pop_entries in refl)
pop_entries-append xs (e ∷ es) =
    pop_entries-suc (length es) (xs ++ e ∷ es)
    ∙ ap pop_last (
        ap (pop_entries (length es)) (sym (append_assoc xs (e ∷ []) es))
        ∙ pop_entries-append (xs ++ e ∷ []) es)
    ∙ pop_back-push xs e

-- The keys beyond the last kept entry go, and no other key is touched.
erase_above-append :
    (last : ℕ) (ps m : List (Text × ℕ))
    → AllAbove (suc last) ps
    → erase_above last (ps ++ m) ≡ erase_above last m
unfolding erase_above
erase_above-append last [] m h = refl
erase_above-append last ((k, i) ∷ ps) m h = ground (arith, erase_above-append last ps m h.1)

find-erase_above :
    (last : ℕ) (k : Text) (m : List (Text × ℕ))
    → ((i : ℕ) → find k m ≡ some i → i ≤ last)
    → find k (erase_above last m) ≡ find k m
unfolding find erase_above
find-erase_above last k [] h = refl
find-erase_above last k ((j, i) ∷ m) h = elim (Bool-cases (text_eq k j)) [
  | inl same ↦ ground (arith, h i)
  | inr other ↦
      let rest : find k (erase_above last m) ≡ find k m =
        find-erase_above last k m (λ i' e. h i' (rw other e)) in
      ground arith
]

-- A table whose symbols are rolled back to the mark.
abbrev restored : SymbolTable → SymbolTable → SymbolTable
restored t u = record u {
  table = erase_above (length t.entries - 1) u.table;
  entries = t.entries;
  next_const_reg = t.next_const_reg;
  next_var_reg = t.next_var_reg;
}

module _ (t u : SymbolTable) (es : List TableEntry) (ps : List (Text × ℕ))
    (g : Grown (prep_rollback t) u es ps) (few : length u.entries < 2 ^ 31)
    (room : u.next_const_reg + u.next_var_reg < 2 ^ 31) where
  rollback_count-eq : rollback_count u ≡ length es
  unfolding rollback_count prep_rollback
  rollback_count-eq = omega (arith, g.const_mark, g.var_mark, g.total, g.const_le, g.var_le)

  length-entries : length u.entries ≡ length t.entries + length es
  unfolding prep_rollback
  length-entries = ap length g.entries_eq ∙ length-append t.entries es

  popped : pop_entries (length es) u.entries ≡ some t.entries
  unfolding prep_rollback
  popped = rw g.entries_eq (pop_entries-append t.entries es)

  rollback-eq : 0 < length t.entries → rollback u ≡ some (restored t u)
  unfolding rollback undo prep_rollback
  rollback-eq kept =
      rw (rollback_count-eq, popped)
        (ground (arith, rollback_count-eq, length-entries, g.total, g.const_mark, g.var_mark))

  -- A symbol of the table that is rolled back to.
  find-restored :
      Wellformed t
      → 0 < length t.entries
      → (k : Text) → find k (restored t u).table ≡ find k t.table
  unfolding prep_rollback
  find-restored w kept k = rw g.table_eq (
      rw
        (erase_above-append (length t.entries - 1) ps t.table
          (AllAbove-mono (suc (length t.entries - 1)) (length t.entries) ps (omega arith) g.above))
        (find-erase_above (length t.entries - 1) k t.table
          λ i e. let (x, at, _) = w.keyed k i e in omega (arith, get_elem?-lt t.entries i at)))

find_symbol-eq :
    (t v : SymbolTable)
    → v.scope_name ≡ t.scope_name
    → ((k : Text) → find k v.table ≡ find k t.table)
    → (k : Text) → find_symbol v k ≡ find_symbol t k
unfolding find_symbol
find_symbol-eq t v scope same k = ground (arith, scope, same (t.scope_name ++ k), same k)

-- Rolling back a table that held a symbol at the mark undoes the look-ups since then: the
-- entries, both register counters and every symbol are as they were, for as long as the counts
-- fit the source's `i32`.
pub rollback-look_up_all :
    (t : SymbolTable) (names : List (Text × Bool))
    → Wellformed t
    → 0 < length t.entries
    → length (look_up_all (prep_rollback t) names).entries < 2 ^ 31
    → symbol_count (look_up_all (prep_rollback t) names) < 2 ^ 31
    → (v : SymbolTable) × (rollback (look_up_all (prep_rollback t) names) ≡ some v)
      × (v.entries ≡ t.entries)
      × (v.next_const_reg ≡ t.next_const_reg)
      × (v.next_var_reg ≡ t.next_var_reg)
      × ((k : Text) → find_symbol v k ≡ find_symbol t k)
unfolding symbol_count prep_rollback
rollback-look_up_all t names w kept few room =
    let u = look_up_all (prep_rollback t) names in
    let (es, ps, g) = Grows-look_up_all (prep_rollback t) names in
    (
      restored t u,
      rollback-eq t u es ps g few room kept,
      refl,
      refl,
      refl,
      find_symbol-eq t (restored t u) g.scope (find-restored t u es ps g few room w kept),
    )
