-- ===== src/Machine/Messages/Removal.antt =====
-- How `ExecuteProcessMessage` of src/eople_vm.cpp takes a finished block out of its vector.
use eople.Base.{
  ℕ, zero, suc, ◌-◌, ◌<◌, ◌≡◌, refl, sym, ap, ◌∙◌, List, [], ◌∷◌, some, arith, set, length,
  length-set, get_elem?, get_elem?-set, ◌==◌, if◌then◌else◌,
}
use eople.Machine.State.{WhenBlock}
use eople.Machine.Messages.{swap_remove, last?, drop_last}

get_elem?-drop_last :
    (bs : List WhenBlock) (j : ℕ) → suc j < length bs → get_elem? (drop_last bs) j ≡ get_elem? bs j
unfolding drop_last
get_elem?-drop_last [] j h = absurd (omega arith)
get_elem?-drop_last (b ∷ []) j h = absurd (omega arith)
get_elem?-drop_last (b ∷ c ∷ bs) zero h = refl
get_elem?-drop_last (b ∷ c ∷ bs) (suc j) h = get_elem?-drop_last (c ∷ bs) j (omega arith)

length-drop_last : (bs : List WhenBlock) → length (drop_last bs) ≡ length bs - 1
unfolding drop_last
length-drop_last [] = refl
length-drop_last (b ∷ []) = refl
length-drop_last (b ∷ c ∷ bs) = ground (arith, length-drop_last (c ∷ bs))

last?-get_elem? : (bs : List WhenBlock) → last? bs ≡ get_elem? bs (length bs - 1)
unfolding last?
last?-get_elem? [] = refl
last?-get_elem? (b ∷ []) = refl
last?-get_elem? (b ∷ c ∷ bs) =
    let shorter : suc (length bs) - 1 ≡ length bs = omega arith in
    let longer : suc (length bs) ≡ suc (suc (length bs)) - 1 = omega arith in
    last?-get_elem? (c ∷ bs) ∙ ap (get_elem? (c ∷ bs)) shorter ∙ ap (get_elem? (b ∷ c ∷ bs)) longer

some_last : (bs : List WhenBlock) (i : ℕ) → i < length bs → (b : WhenBlock) × (last? bs ≡ some b)
unfolding last?
some_last [] i h = absurd (omega arith)
some_last (b ∷ []) i h = (b, refl)
some_last (b ∷ c ∷ bs) i h = some_last (c ∷ bs) 0 (omega arith)

swap_remove-eq :
    (i : ℕ) (bs : List WhenBlock) {b : WhenBlock}
    → last? bs ≡ some b
    → swap_remove i bs ≡ drop_last (set bs i b)
unfolding swap_remove
swap_remove-eq i bs h = rw (h, swap_remove) refl

some_at :
    (bs : List WhenBlock) (i : ℕ) → i < length bs → (b : WhenBlock) × (get_elem? bs i ≡ some b)
some_at [] i h = absurd (omega arith)
some_at (b ∷ bs) zero h = (b, refl)
some_at (b ∷ bs) (suc i) h = some_at bs i (omega arith)

-- A block that is taken out is the only one to go: there is one block less, the last one stands in
-- its place, and every other stays where it was.
pub get_elem?-swap_remove :
    (i j : ℕ) (bs : List WhenBlock)
    → i < length bs
    → suc j < length bs
    → (length (swap_remove i bs) ≡ length bs - 1)
      × (get_elem? (swap_remove i bs) j
          ≡ (if i == j then get_elem? bs (length bs - 1) else get_elem? bs j))
get_elem?-swap_remove i j bs hi hj =
    let (b, last) = some_last bs i hi in
    let shape = swap_remove-eq i bs last in
    let (old, at) = some_at bs i hi in
    let same = length-set bs i b in
    (
      ap length shape ∙ length-drop_last (set bs i b) ∙ ap (λ n. n - 1) same,
      ap (λ l. get_elem? l j) shape
          ∙ get_elem?-drop_last (set bs i b) j (omega (arith, same))
          ∙ get_elem?-set bs i j b at
          ∙ ap (λ o. if i == j then o else get_elem? bs j) (sym last ∙ last?-get_elem? bs),
    )
