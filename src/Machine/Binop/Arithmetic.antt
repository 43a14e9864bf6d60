-- ===== src/Machine/Binop/Arithmetic.antt =====
-- The integer instructions of src/eople_binop.cpp against the integers.
use eople.Base.{ℕ, zero, suc, ◌+◌, ◌*◌, ◌<◌, ◌≡◌, false, arith}
use eople.Base.Int.{ℤ, pos, negsuc, pos_part, neg_part, ◌+ℤ◌, ◌*ℤ◌, eqb_ℤ, sub_ℕ}
use eople.Machine.Result.{ok}
use eople.Machine.Object.{Object, int_val}
use eople.Machine.Object.Views.{signed64-word_of}
use eople.Machine.Binop.{div_i, mod_i, int_result, quot, rem}

abbrev pub magnitude : ℤ → ℕ
magnitude z = pos_part z + neg_part z

pub int_val-int_result :
    (z : ℤ) (g : Object → Object) (o : Object) → int_result z ≡ ok g → int_val (g o) ≡ z
unfolding int_result
int_val-int_result z g o h = ground (arith, signed64-word_of z)

-- A quotient and a remainder put together, for each pair of signs.
pos_pos : (m d q r : ℕ) → q * d + r ≡ m → pos q *ℤ pos d +ℤ pos r ≡ pos m
unfolding ◌+ℤ◌ ◌*ℤ◌
pos_pos m d q r e = ground arith

pos_neg : (m n q r : ℕ) → q * suc n + r ≡ m → sub_ℕ 0 q *ℤ negsuc n +ℤ pos r ≡ pos m
unfolding ◌+ℤ◌ ◌*ℤ◌
pos_neg m n zero r e = ground arith
pos_neg m n (suc q) r e = ground arith

neg_pos : (m d q r : ℕ) → q * d + r ≡ suc m → sub_ℕ 0 q *ℤ pos d +ℤ sub_ℕ 0 r ≡ negsuc m
unfolding ◌+ℤ◌ ◌*ℤ◌
neg_pos m d zero r e = ground arith
neg_pos m d (suc q) r e = ground arith

neg_neg : (m n q r : ℕ) → q * suc n + r ≡ suc m → pos q *ℤ negsuc n +ℤ sub_ℕ 0 r ≡ negsuc m
unfolding ◌+ℤ◌ ◌*ℤ◌
neg_neg m n q r e = ground arith

pub quot-rem : (a b : ℤ) → eqb_ℤ b (pos 0) ≡ false → quot a b *ℤ b +ℤ rem a b ≡ a
unfolding quot rem
quot-rem (pos m) (pos n) h = pos_pos m n _ _ (ground arith)
quot-rem (pos m) (negsuc n) h = pos_neg m n _ _ (ground arith)
quot-rem (negsuc m) (pos n) h = neg_pos m n _ _ (ground arith)
quot-rem (negsuc m) (negsuc n) h = neg_neg m n _ _ (ground arith)

rem-small : (a b : ℤ) → eqb_ℤ b (pos 0) ≡ false → magnitude (rem a b) < magnitude b
unfolding rem
rem-small (pos m) b h = ground arith
rem-small (negsuc m) b h = ground arith

div_i-quot :
    (a b o : Object) (g : Object → Object)
    → div_i a b ≡ ok g
    → (eqb_ℤ (int_val b) (pos 0) ≡ false) × (int_val (g o) ≡ quot (int_val a) (int_val b))
unfolding div_i
div_i-quot a b o g h = ground (arith, int_val-int_result (quot (int_val a) (int_val b)) g o)

mod_i-rem :
    (a b o : Object) (g : Object → Object)
    → mod_i a b ≡ ok g
    → int_val (g o) ≡ rem (int_val a) (int_val b)
unfolding mod_i
mod_i-rem a b o g h = ground (arith, int_val-int_result (rem (int_val a) (int_val b)) g o)

-- Where the division and the remainder of the same two objects return, the quotient times the
-- divisor plus the remainder is the dividend, and the remainder is smaller in magnitude than the
-- divisor.
pub div_i-mod_i :
    (a b o p : Object) (g h : Object → Object)
    → div_i a b ≡ ok g
    → mod_i a b ≡ ok h
    → (int_val (g o) *ℤ int_val b +ℤ int_val (h p) ≡ int_val a)
      × (magnitude (int_val (h p)) < magnitude (int_val b))
div_i-mod_i a b o p g h d m =
    let (nonzero, eq) = div_i-quot a b o g d in
    let er = mod_i-rem a b p h m in
    (
      rw (eq, er) (quot-rem (int_val a) (int_val b) nonzero),
      rw er (rem-small (int_val a) (int_val b) nonzero),
    )
