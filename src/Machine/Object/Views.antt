-- ===== src/Machine/Object/Views.antt =====
-- What the members of the union in inc/eople_object.h read back of one another.
use eople.Base.{ℕ, ◌/◌, ◌<◌, ◌^◌, ◌≡◌, ◌≢◌, Bool, true, false, arith}
use eople.Base.Int.{ℤ, pos, negsuc}
use eople.Machine.Object.{Object, signed64, word_of, in_range, int_val, is_true, put_bool}

pub signed64-word_of : (z : ℤ) → in_range z ≡ true → signed64 (word_of z) ≡ z
unfolding signed64 word_of in_range
signed64-word_of (pos n) h = ground arith
signed64-word_of (negsuc n) h = ground arith

pub word_of-signed64 : (w : ℕ) → w < 2 ^ 64 → word_of (signed64 w) ≡ w
unfolding signed64 word_of
word_of-signed64 w h = ground arith

pub word_of-lt : (z : ℤ) → in_range z ≡ true → word_of z < 2 ^ 64
unfolding word_of in_range
word_of-lt (pos n) h = ground arith
word_of-lt (negsuc n) h = ground arith

pub in_range-signed64 : (w : ℕ) → w < 2 ^ 64 → in_range (signed64 w) ≡ true
unfolding signed64 in_range
in_range-signed64 w h = ground arith

-- Words and the integers in range are one to one.
pub signed64_inj : (v w : ℕ) → v < 2 ^ 64 → w < 2 ^ 64 → signed64 v ≡ signed64 w → v ≡ w
signed64_inj v w hv hw e = ground (arith, word_of-signed64 v, word_of-signed64 w)

-- A Boolean that is written is read back, whatever the word held.
pub is_true-put_bool : (b : Bool) (o : Object) → is_true (put_bool b o) ≡ b
is_true-put_bool true o = ground arith
is_true-put_bool false o = ground arith

pub put_bool-lt : (b : Bool) (o : Object) → o.word < 2 ^ 64 → (put_bool b o).word < 2 ^ 64
put_bool-lt true o h = ground arith
put_bool-lt false o h = ground arith

-- Two objects set to the same Boolean differ as integers wherever the upper halves of the words
-- under them differ.
pub int_val-put_bool_ne :
    (b : Bool) (o p : Object)
    → o.word < 2 ^ 64
    → p.word < 2 ^ 64
    → o.word / 2 ^ 32 ≢ p.word / 2 ^ 32
    → int_val (put_bool b o) ≢ int_val (put_bool b p)
int_val-put_bool_ne b o p ho hp differ e =
    differ (upper b (signed64_inj _ _ (put_bool-lt b o ho) (put_bool-lt b p hp) e))
  where
    upper :
        (b : Bool) → (put_bool b o).word ≡ (put_bool b p).word → o.word / 2 ^ 32 ≡ p.word / 2 ^ 32
    upper true q = ground arith
    upper false q = ground arith
