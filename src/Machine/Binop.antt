-- ===== src/Machine/Binop.antt =====
-- src/eople_binop.cpp: arithmetic, bitwise operators, comparisons and Boolean logic. Each reads two
-- operands and writes the third through one member of its union. The string and array
-- instructions of that file are not here.
pub mod Table
pub mod Tags
pub mod Frame
pub mod Arithmetic
pub mod Compare
use Prim.Native.Nat.{bit_and, bit_or, bit_xor}
use eople.Base.{
  ℕ, suc, ◌+◌, ◌-◌, ◌*◌, ◌/◌, ◌%◌, ◌^◌, Bool, true, false, ◌&&◌, ◌||◌, not, ltb, leb, ◌==◌,
  if◌then◌else◌,
}
use eople.Base.Int.{
  ℤ, pos, negsuc, pos_part, neg_part, sub_ℕ, ◌+ℤ◌, ◌-ℤ◌, ◌*ℤ◌, ltb_ℤ, leb_ℤ, eqb_ℤ,
}
use eople.Machine.Result.{Result, ok, err, ◌>>=◌, div_by_zero, overflow, bad_shift}
use eople.Machine.Object.{Object, in_range, int_val, bool_val, is_true, put_int, put_bool, put_word}
use eople.Machine.State.{State, Step, operand, update_operand}

-- The operations on `f64` bit patterns, which the language gives by the machine's floating point.
pub record FloatOps : Type 0 where
  pub add : ℕ → ℕ → ℕ
  pub sub : ℕ → ℕ → ℕ
  pub mul : ℕ → ℕ → ℕ
  pub div : ℕ → ℕ → ℕ
  pub less : ℕ → ℕ → Bool
  pub less_equal : ℕ → ℕ → Bool
  pub equal : ℕ → ℕ → Bool

-- What becomes of the third operand, from the first two.
abbrev pub Operation : Type 0
Operation = Object → Object → Result (Object → Object)

-- The shape that the instructions of the file share.
unfoldable pub three_operands : Operation → State → Step
three_operands f st = do
  op_a ← operand 0 st
  op_b ← operand 1 st
  g ← f op_a op_b
  st' ← update_operand 2 g st
  ok (st', true)

-- A signed result. C++ leaves one that is out of range undefined.
unfoldable pub int_result : ℤ → Result (Object → Object)
int_result z = if in_range z then ok (put_int z) else err overflow

unfoldable pub add_i : Operation
unfolding int_result
add_i a b = int_result (int_val a +ℤ int_val b)

unfoldable pub sub_i : Operation
unfolding int_result
sub_i a b = int_result (int_val a -ℤ int_val b)

unfoldable pub mul_i : Operation
unfolding int_result
mul_i a b = int_result (int_val a *ℤ int_val b)

-- Division towards zero, and the remainder with the sign of the dividend.
unfoldable pub quot : ℤ → ℤ → ℤ
quot (pos a) (pos b) = pos (a / b)
quot (pos a) (negsuc b) = sub_ℕ 0 (a / suc b)
quot (negsuc a) (pos b) = sub_ℕ 0 (suc a / b)
quot (negsuc a) (negsuc b) = pos (suc a / suc b)

unfoldable pub rem : ℤ → ℤ → ℤ
rem (pos a) b = pos (a % (pos_part b + neg_part b))
rem (negsuc a) b = sub_ℕ 0 (suc a % (pos_part b + neg_part b))

unfoldable pub div_i : Operation
unfolding int_result quot
div_i a b =
    if eqb_ℤ (int_val b) (pos 0) then err div_by_zero else int_result (quot (int_val a) (int_val b))

-- Where the quotient does not fit, C++ leaves the remainder undefined too.
unfoldable pub mod_i : Operation
unfolding int_result quot rem
mod_i a b =
    if eqb_ℤ (int_val b) (pos 0)
    then err div_by_zero
    else if in_range (quot (int_val a) (int_val b))
    then int_result (rem (int_val a) (int_val b))
    else err overflow

module _ (fops : FloatOps) where
  unfoldable pub add_f : Operation
  add_f a b = ok (put_word (fops.add a.word b.word))

  unfoldable pub sub_f : Operation
  sub_f a b = ok (put_word (fops.sub a.word b.word))

  unfoldable pub mul_f : Operation
  mul_f a b = ok (put_word (fops.mul a.word b.word))

  unfoldable pub div_f : Operation
  div_f a b = ok (put_word (fops.div a.word b.word))

-- A shift by less than the width; C++11 shifts a number left only if it is not negative and its
-- bits are not lost.
unfoldable pub shift_count : ℤ → Result ℕ
shift_count (pos n) = if ltb n 64 then ok n else err bad_shift
shift_count (negsuc n) = err bad_shift

unfoldable pub shift_left : Operation
unfolding shift_count
shift_left a b = do
  n ← shift_count (int_val b)
  if ltb_ℤ (int_val a) (pos 0) || leb (2 ^ 64) (a.word * 2 ^ n)
      then err overflow
      else ok (put_word (a.word * 2 ^ n))

-- The compilers shift the sign in.
unfoldable pub shift_int : ℤ → ℕ → ℤ
shift_int (pos m) n = pos (m / 2 ^ n)
shift_int (negsuc m) n = negsuc (m / 2 ^ n)

unfoldable pub shift_right : Operation
unfolding shift_count shift_int
shift_right a b = do n ← shift_count (int_val b); ok (put_int (shift_int (int_val a) n))

unfoldable pub b_and : Operation
b_and a b = ok (put_word (bit_and a.word b.word))

unfoldable pub b_xor : Operation
b_xor a b = ok (put_word (bit_xor a.word b.word))

unfoldable pub b_or : Operation
b_or a b = ok (put_word (bit_or a.word b.word))

unfoldable pub greater_than_i : Operation
greater_than_i a b = ok (put_bool (ltb_ℤ (int_val b) (int_val a)))

unfoldable pub less_than_i : Operation
less_than_i a b = ok (put_bool (ltb_ℤ (int_val a) (int_val b)))

unfoldable pub equal_i : Operation
equal_i a b = ok (put_bool (eqb_ℤ (int_val a) (int_val b)))

unfoldable pub not_equal_i : Operation
not_equal_i a b = ok (put_bool (not (eqb_ℤ (int_val a) (int_val b))))

unfoldable pub less_equal_i : Operation
less_equal_i a b = ok (put_bool (leb_ℤ (int_val a) (int_val b)))

unfoldable pub greater_equal_i : Operation
greater_equal_i a b = ok (put_bool (leb_ℤ (int_val b) (int_val a)))

module _ (fops : FloatOps) where
  unfoldable pub greater_than_f : Operation
  greater_than_f a b = ok (put_bool (fops.less b.word a.word))

  unfoldable pub less_than_f : Operation
  less_than_f a b = ok (put_bool (fops.less a.word b.word))

  unfoldable pub equal_f : Operation
  equal_f a b = ok (put_bool (fops.equal a.word b.word))

  unfoldable pub not_equal_f : Operation
  not_equal_f a b = ok (put_bool (not (fops.equal a.word b.word)))

  unfoldable pub less_equal_f : Operation
  less_equal_f a b = ok (put_bool (fops.less_equal a.word b.word))

  unfoldable pub greater_equal_f : Operation
  greater_equal_f a b = ok (put_bool (fops.less_equal b.word a.word))

unfoldable pub logical_and : Operation
logical_and a b = ok (put_bool (is_true a && is_true b))

unfoldable pub logical_or : Operation
logical_or a b = ok (put_bool (is_true a || is_true b))

-- `Store`: the whole object, with its tag.
unfoldable pub store : State → Step
store st = do source ← operand 1 st; st' ← update_operand 0 (λ _. source) st; ok (st', true)
