-- ===== src/Machine/Binop/Compare.antt =====
-- The comparisons of src/eople_binop.cpp.
use eople.Base.{inl, inr, false, Bool-cases, ◌≢◌, ◌⊎◌, ◌≡◌, refl, ap, Bool, true, arith, ◌||◌, not}
use eople.Base.Int.{ℤ, pos, negsuc, ltb_ℤ, leb_ℤ, eqb_ℤ}
use eople.Machine.Result.{ok}
use eople.Machine.Object.{Object, int_val, put_bool}
use eople.Machine.Binop.{
  Operation, less_than_i, equal_i, greater_than_i, less_equal_i, greater_equal_i, not_equal_i,
}

-- An operation succeeds and writes a Boolean.
abbrev pub Says : Operation → Object → Object → Bool → Type 0
Says f a b v = f a b ≡ ok (put_bool v)

leb_ℤ-or : (a b : ℤ) → leb_ℤ a b ≡ (ltb_ℤ a b || eqb_ℤ a b)
leb_ℤ-or a b = ground arith

leb_ℤ-not : (a b : ℤ) → leb_ℤ b a ≡ not (ltb_ℤ a b)
leb_ℤ-not a b = ground arith

ltb_ℤ-not : (a b : ℤ) → ltb_ℤ b a ≡ not (ltb_ℤ a b || eqb_ℤ a b)
ltb_ℤ-not a b = ground arith

eqb_ℤ-eq : (a b : ℤ) → eqb_ℤ a b ≡ true → a ≡ b
eqb_ℤ-eq (pos m) (pos n) h = ground arith
eqb_ℤ-eq (pos m) (negsuc n) h = ground arith
eqb_ℤ-eq (negsuc m) (pos n) h = ground arith
eqb_ℤ-eq (negsuc m) (negsuc n) h = ground arith

eqb_ℤ-refl : (a b : ℤ) → a ≡ b → eqb_ℤ a b ≡ true
eqb_ℤ-refl a b h = ground arith

eqb_ℤ-cases : (a b : ℤ) → ((eqb_ℤ a b ≡ true) × (a ≡ b)) ⊎ ((eqb_ℤ a b ≡ false) × (a ≢ b))
eqb_ℤ-cases a b = elim (Bool-cases (eqb_ℤ a b)) [
  | inl e ↦ inl (e, eqb_ℤ-eq a b e)
  | inr e ↦ inr (e, λ q. both e (eqb_ℤ-refl a b q))
]
  where
    both : {t : Bool} → t ≡ false → t ≡ true → ⊥
    both f t = cc

-- The six comparisons never fail and agree with one another: `<=` is `<` or `==`, the rest are
-- their negations, and `==` holds only of equal integers.
pub comparisons-agree :
    (a b : Object)
    → (lt : Bool) × (eq : Bool) × Says less_than_i a b lt
      × Says equal_i a b eq
      × Says less_equal_i a b (lt || eq)
      × Says greater_than_i a b (not (lt || eq))
      × Says greater_equal_i a b (not lt)
      × Says not_equal_i a b (not eq)
      × (((eq ≡ true) × (int_val a ≡ int_val b)) ⊎ ((eq ≡ false) × (int_val a ≢ int_val b)))
unfolding less_than_i equal_i greater_than_i less_equal_i greater_equal_i not_equal_i
comparisons-agree a b =
    let m = int_val a in
    let n = int_val b in
    (
      ltb_ℤ m n,
      eqb_ℤ m n,
      refl,
      refl,
      ap (λ v. ok (put_bool v)) (leb_ℤ-or m n),
      ap (λ v. ok (put_bool v)) (ltb_ℤ-not m n),
      ap (λ v. ok (put_bool v)) (leb_ℤ-not m n),
      refl,
      eqb_ℤ-cases m n,
    )
