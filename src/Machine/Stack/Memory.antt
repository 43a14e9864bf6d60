-- ===== src/Machine/Stack/Memory.antt =====
-- Ranges of a stack's memory: what `memcpy` in inc/eople_core.h writes, and what it leaves.
use native.Mathlib.Nat.{zero-add}
use Prim.Native.Nat.add
use eople.Base.{
  ℕ, zero, suc, ◌+◌, ◌-◌, ◌≤◌, ◌<◌, ◌≡◌, refl, ap, ◌∙◌, List, [], ◌∷◌, ◌++◌, arith, length,
  get_elem?, take, drop, length-append, length-take, length-drop, get_elem?-append,
}
use eople.Machine.Result.{ok}
use eople.Machine.Object.{Object}
use eople.Machine.Stack.{ProcessStack, splice, segment, write_range}

pub length-splice :
    (at : ℕ) (xs m : List Object) → at + length xs ≤ length m → length (splice at xs m) ≡ length m
unfolding splice
length-splice at xs m h = omega (
  arith,
  length-append (take at m) (xs ++ drop (at + length xs) m),
  length-append xs (drop (at + length xs) m),
  length-take at m,
  length-drop (at + length xs) m,
)

drop-append : (xs ys : List Object) → drop (length xs) (xs ++ ys) ≡ ys
drop-append [] ys = refl
drop-append (x ∷ xs) ys = drop-append xs ys

take-append : (xs ys : List Object) → take (length xs) (xs ++ ys) ≡ xs
take-append [] ys = refl
take-append (x ∷ xs) ys = rw (take-append xs ys) refl

length-take_eq : (at : ℕ) (m : List Object) → at ≤ length m → length (take at m) ≡ at
length-take_eq at m h = omega (arith, length-take at m)

-- What was written is read back.
pub segment-splice :
    (at : ℕ) (xs m : List Object)
    → at + length xs ≤ length m
    → segment at (length xs) (splice at xs m) ≡ xs
unfolding splice
segment-splice at xs m h =
    let front : drop at (take at m ++ (xs ++ drop (at + length xs) m))
        ≡ xs ++ drop (at + length xs) m =
      rw (length-take_eq at m (omega arith)) at
        (drop-append (take at m) (xs ++ drop (at + length xs) m)) in
    rw front (take-append xs (drop (at + length xs) m))

get_elem?-append_left :
    (xs ys : List Object) (i : ℕ) → i < length xs → get_elem? (xs ++ ys) i ≡ get_elem? xs i
get_elem?-append_left [] ys i h = absurd (omega arith)
get_elem?-append_left (x ∷ xs) ys zero h = refl
get_elem?-append_left (x ∷ xs) ys (suc i) h = get_elem?-append_left xs ys i (omega arith)

get_elem?-take :
    (n : ℕ) (xs : List Object) (i : ℕ) → i < n → get_elem? (take n xs) i ≡ get_elem? xs i
get_elem?-take zero xs i h = absurd (omega arith)
get_elem?-take (suc n) [] i h = refl
get_elem?-take (suc n) (x ∷ xs) zero h = refl
get_elem?-take (suc n) (x ∷ xs) (suc i) h = get_elem?-take n xs i (omega arith)

-- Nothing below the range is touched.
pub get_elem?-splice_below :
    (at : ℕ) (xs m : List Object) (i : ℕ)
    → at + length xs ≤ length m
    → i < at
    → get_elem? (splice at xs m) i ≡ get_elem? m i
unfolding splice
get_elem?-splice_below at xs m i h lt =
    get_elem?-append_left (take at m) (xs ++ drop (at + length xs) m) i
      (omega (arith, length-take at m))
    ∙ get_elem?-take at m i lt

get_elem?-drop : (n : ℕ) (xs : List Object) (i : ℕ) → get_elem? (drop n xs) i ≡ get_elem? xs (n + i)
get_elem?-drop zero xs i = rw zero-add refl
get_elem?-drop (suc n) [] i = refl
get_elem?-drop (suc n) (x ∷ xs) i = rw (add.suc n i) (get_elem?-drop n xs i)

-- Nor is anything above it.
pub get_elem?-splice_above :
    (at : ℕ) (xs m : List Object) (i : ℕ)
    → at + length xs ≤ length m
    → at + length xs ≤ i
    → get_elem? (splice at xs m) i ≡ get_elem? m i
unfolding splice
get_elem?-splice_above at xs m i h le =
    let rest = drop (at + length xs) m in
    let k = i - (at + length xs) in
    let split : i ≡ length (take at m) + (length xs + k) = omega (arith, length-take at m) in
    rw split (
      get_elem?-append (take at m) (xs ++ rest) (length xs + k)
      ∙ get_elem?-append xs rest k
      ∙ get_elem?-drop (at + length xs) m k
      ∙ ap (get_elem? m) (omega (arith, length-take at m)))

-- A range that is written is the splice of the memory, if it fits.
pub write_range-eq :
    (at : ℕ) (xs : List Object) (s : ProcessStack)
    → at + length xs ≤ length s.memory
    → write_range at xs s ≡ ok (record s { memory = splice at xs s.memory })
unfolding write_range
write_range-eq at xs s h = ground arith

pub write_range-fits :
    (at : ℕ) (xs : List Object) (s t : ProcessStack)
    → write_range at xs s ≡ ok t
    → at + length xs ≤ length s.memory
unfolding write_range
write_range-fits at xs s t h = ground arith
