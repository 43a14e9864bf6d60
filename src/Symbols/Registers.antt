-- ===== src/Symbols/Registers.antt =====
-- Register allocation of inc/eople_symbol_table.h: what `GetRegisterIndex` gives.
use eople.Base.{ltb, ℕ, ◌<◌, ◌≡◌, some, inl, inr, arith, get_elem?, Option-cases, Bool-cases}
use eople.Symbols.{SymbolTable, TableEntry, get_register_index, symbol_count, constant_count}
use eople.Symbols.Wellformed.{Wellformed}

module _ (t : SymbolTable) (w : Wellformed t) where
  -- In a well-formed table two entries never share a register.
  pub get_register_index_inj :
      (i j r : ℕ) → get_register_index t i ≡ some r → get_register_index t j ≡ some r → i ≡ j
  unfolding get_register_index
  get_register_index_inj i j r hi hj = elim (Option-cases (get_elem? t.entries i)) [
    | inl e ↦ absurd (ground arith)
    | inr (e, at) ↦ (elim (Option-cases (get_elem? t.entries j)) [
      | inl e' ↦ absurd (ground arith)
      | inr (f, at') ↦ ground (arith, w.bounded i e at, w.bounded j f at', w.distinct i j e f)
    ])
  ]

  -- The register of an entry lies below the symbol count, and below the constant count exactly
  -- when the entry is a constant.
  pub get_register_index_range :
      (i r : ℕ) (e : TableEntry)
      → get_elem? t.entries i ≡ some e
      → get_register_index t i ≡ some r
      → (r < symbol_count t) × (ltb r (constant_count t) ≡ e.is_constant)
  unfolding get_register_index symbol_count constant_count
  get_register_index_range i r e at h = elim (Bool-cases e.is_constant) [
    | inl c ↦ ground (arith, w.bounded i e at)
    | inr v ↦ ground (arith, w.bounded i e at)
  ]
