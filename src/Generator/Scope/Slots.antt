-- ===== src/Generator/Scope/Slots.antt =====
-- The frame of nested scopes that `GetStackIndex` of src/eople_ast.cpp lays out.
use eople.Base.{
  ℕ, zero, suc, ◌+◌, ◌<◌, ◌≡◌, refl, sym, ap, ◌∙◌, List, [], ◌∷◌, some, arith, Option-cases, inl,
  inr, get_elem?,
}
use eople.Symbols.{SymbolTable, get_register_index, symbol_count}
use eople.Symbols.Wellformed.{Wellformed}
use eople.Symbols.Registers.{get_register_index_inj, get_register_index_range}
use eople.Generator.Scope.{
  Scope, add_contexts, stack_index_of, get_stack_index, get_entry_id_for_name,
}
use eople.Base.Text.{Text}

-- The symbols of some scopes together.
unfoldable pub total : List Scope → ℕ
total [] = 0
total (s ∷ contexts) = symbol_count s.symbols + total contexts

-- A symbol of the function itself lies above all the contexts.
local_index :
    (entry : ℕ) (ps : List Scope) (index offset : ℕ)
    → add_contexts 1 0 entry ps index offset ≡ some (index + offset + total ps)
unfolding add_contexts total
local_index entry [] index offset = ap some (omega arith)
local_index entry (p ∷ ps) index offset =
    ground (arith, local_index entry ps index (offset + symbol_count p.symbols))

-- From two contexts out on no context is counted and none is asked for its register.
far_index :
    (d entry : ℕ) (ps : List Scope) (index offset : ℕ)
    → 1 < d
    → add_contexts 1 d entry ps index offset ≡ some (index + offset)
unfolding add_contexts
far_index d entry [] index offset h = refl
far_index d entry (p ∷ ps) index offset h = ground (arith, far_index d entry ps index offset h)

stack_index_of-local :
    (s : Scope) (contexts : List Scope) (entry r : ℕ)
    → stack_index_of (s ∷ contexts) 0 entry ≡ some r
    → (q : ℕ) × (get_register_index s.symbols entry ≡ some q) × (r ≡ q + total contexts)
unfolding stack_index_of
stack_index_of-local s contexts entry r h =
    elim (Option-cases (get_register_index s.symbols entry)) [
      | inl e ↦ absurd (ground arith)
      | inr (q, e) ↦ (q, e, ground (arith, local_index entry contexts q 0))
    ]

stack_index_of-context :
    (s p : Scope) (entry : ℕ)
    → stack_index_of (s ∷ p ∷ []) 1 entry ≡ get_register_index p.symbols entry
unfolding stack_index_of add_contexts
stack_index_of-context s p entry = elim (Option-cases (get_register_index p.symbols entry)) [
  | inl e ↦ ground arith
  | inr (q, e) ↦ ground arith
]

register_below :
    (t : SymbolTable) (entry register : ℕ)
    → Wellformed t
    → get_register_index t entry ≡ some register
    → register < symbol_count t
unfolding get_register_index
register_below t entry register w h = elim (Option-cases (get_elem? t.entries entry)) [
  | inl e ↦ absurd (ground arith)
  | inr (found, at) ↦ (get_register_index_range t w entry register found at h).0
]

total_one : (p : Scope) → total (p ∷ []) ≡ symbol_count p.symbols
unfolding total
total_one p = omega arith

-- A function with one context, its class, never has two symbols in one slot of the frame: a stack
-- index belongs to one entry of the function or of the context, and lies below the number of symbols
-- of the two together.
pub stack_index_of-distinct :
    (s p : Scope) (d d' e e' r : ℕ)
    → Wellformed s.symbols
    → Wellformed p.symbols
    → d < 2
    → d' < 2
    → stack_index_of (s ∷ p ∷ []) d e ≡ some r
    → stack_index_of (s ∷ p ∷ []) d' e' ≡ some r
    → (r < symbol_count s.symbols + symbol_count p.symbols) × (d ≡ d') × (e ≡ e')
stack_index_of-distinct s p zero zero e e' r ws wp l l' h h' =
    let (q, at, rq) = stack_index_of-local s (p ∷ []) e r h in
    let (q', at', rq') = stack_index_of-local s (p ∷ []) e' r h' in
    let below = register_below s.symbols e q ws at in
    (
      ground (arith, rq, below, total_one p),
      refl,
      get_register_index_inj s.symbols ws e e' q at (at' ∙ ap some (omega arith)),
    )
stack_index_of-distinct s p zero (suc zero) e e' r ws wp l l' h h' =
    let (q, at, rq) = stack_index_of-local s (p ∷ []) e r h in
    let at' = sym (stack_index_of-context s p e') ∙ h' in
    absurd (omega (arith, rq, register_below p.symbols e' r wp at', total_one p))
stack_index_of-distinct s p (suc zero) zero e e' r ws wp l l' h h' =
    let (q, at, rq) = stack_index_of-local s (p ∷ []) e' r h' in
    let at' = sym (stack_index_of-context s p e) ∙ h in
    absurd (omega (arith, rq, register_below p.symbols e r wp at', total_one p))
stack_index_of-distinct s p (suc zero) (suc zero) e e' r ws wp l l' h h' =
    let at = sym (stack_index_of-context s p e) ∙ h in
    let at' = sym (stack_index_of-context s p e') ∙ h' in
    let below = register_below p.symbols e r wp at in
    (omega (arith, below), refl, get_register_index_inj p.symbols wp e e' r at at')
stack_index_of-distinct s p (suc (suc d)) d' e e' r ws wp l l' h h' = absurd (omega arith)
stack_index_of-distinct s p zero (suc (suc d')) e e' r ws wp l l' h h' = absurd (omega arith)
stack_index_of-distinct s p (suc zero) (suc (suc d')) e e' r ws wp l l' h h' = absurd (omega arith)

-- Every name that is found two or more contexts out has the stack index 0, whichever symbol it is
-- and whatever the scopes: two such names share the slot.
pub get_stack_index-far :
    (scopes : List Scope) (key : Text) (entry d : ℕ)
    → get_entry_id_for_name scopes key 0 ≡ some (entry, d)
    → 1 < d
    → get_stack_index scopes 0 key ≡ some 0
unfolding get_stack_index get_entry_id_for_name stack_index_of
get_stack_index-far [] key entry d found h = absurd (cc)
get_stack_index-far (s ∷ contexts) key entry d found h =
    rw (found, get_stack_index) (ground (arith, far_index d entry contexts 0 0 h))
