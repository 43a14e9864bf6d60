-- ===== src/Machine/Object.antt =====
-- inc/eople_object.h. The union is one 64-bit word that its members overlay: pointers and numbers
-- take the whole word, `bool_val` and `jump_offset` its low half, as on the little-endian machines
-- that the build files name. A float is its bit pattern.
pub mod Views
use eople.Base.{
  ℕ, suc, ◌+◌, ◌-◌, ◌*◌, ◌/◌, ◌%◌, ◌^◌, ◌<◌, Bool, not, ltb, ◌==◌, if◌then◌else◌, ◌&&◌,
}
use eople.Base.Int.{ℤ, pos, negsuc}
use eople.Types.{ValueType}

pub record Object : Type 0 where
  pub word : ℕ
  pub object_type : ValueType

-- The integer that a word stands for, and the word of an integer.
unfoldable pub signed64 : ℕ → ℤ
signed64 w = if ltb w (2 ^ 63) then pos w else negsuc (2 ^ 64 - w - 1)

unfoldable pub word_of : ℤ → ℕ
word_of (pos n) = n
word_of (negsuc n) = 2 ^ 64 - n - 1

-- The integers that an `int_t` holds.
unfoldable pub in_range : ℤ → Bool
in_range (pos n) = ltb n (2 ^ 63)
in_range (negsuc n) = ltb n (2 ^ 63)

abbrev pub int_val : Object → ℤ
int_val o = signed64 o.word

-- `bool_t` is a `u32`.
abbrev pub bool_val : Object → ℕ
bool_val o = o.word % 2 ^ 32

abbrev pub is_true : Object → Bool
is_true o = not (bool_val o == 0)

abbrev pub bit : Bool → ℕ
bit b = if b then 1 else 0

-- A write through the union alone, which leaves `object_type` as it is.
abbrev pub put_word : ℕ → Object → Object
put_word w o = record o { word = w }

abbrev pub put_int : ℤ → Object → Object
put_int z o = record o { word = word_of z }

abbrev pub put_low : ℕ → Object → Object
put_low n o = record o { word = o.word / 2 ^ 32 * 2 ^ 32 + n % 2 ^ 32 }

abbrev pub put_bool : Bool → Object → Object
put_bool b o = put_low (bit b) o

-- `Object()`: the union is not initialised, so the word is whatever `garbage` the memory held.
unfoldable pub new_object : ℕ → Object
new_object garbage = record { word = garbage; object_type = ValueType.nil }

-- What `memset` leaves: `ValueType::NIL` is 0.
abbrev pub zeroed : Object
zeroed = record { word = 0; object_type = ValueType.nil }

unfoldable pub set_int : ℤ → Object → Object
set_int val o = record { word = word_of val; object_type = ValueType.int }

unfoldable pub set_float : ℕ → Object → Object
set_float val o = record { word = val; object_type = ValueType.float }

unfoldable pub set_bool : Bool → Object → Object
set_bool val o = record (put_bool val o) { object_type = ValueType.bool }

unfoldable pub set_string : ℕ → Object → Object
set_string val o = record { word = val; object_type = ValueType.string }

-- The one setter that leaves the tag.
unfoldable pub set_type : ℕ → Object → Object
set_type val o = put_word val o

unfoldable pub set_function : ℕ → Object → Object
set_function val o = record { word = val; object_type = ValueType.function }

unfoldable pub set_process : ℕ → Object → Object
set_process val o = record { word = val; object_type = ValueType.process }

unfoldable pub set_promise : ℕ → Object → Object
set_promise val o = record { word = val; object_type = ValueType.promise }

unfoldable pub set_array : ℕ → Object → Object
set_array val o = record { word = val; object_type = ValueType.array }

unfoldable pub set_dict : ℕ → Object → Object
set_dict val o = record { word = val; object_type = ValueType.dict }

-- The builders set a new object, whose memory held `garbage`.
unfoldable pub build_int : ℕ → ℤ → Object
unfolding set_int new_object
build_int garbage val = set_int val (new_object garbage)

unfoldable pub build_float : ℕ → ℕ → Object
unfolding set_float new_object
build_float garbage val = set_float val (new_object garbage)

unfoldable pub build_bool : ℕ → Bool → Object
unfolding set_bool new_object
build_bool garbage val = set_bool val (new_object garbage)

unfoldable pub build_string : ℕ → ℕ → Object
unfolding set_string new_object
build_string garbage val = set_string val (new_object garbage)

unfoldable pub build_type : ℕ → ℕ → Object
unfolding set_type new_object
build_type garbage val = set_type val (new_object garbage)

unfoldable pub build_offset : ℕ → ℕ → Object
unfolding new_object
build_offset garbage offset = put_low offset (new_object garbage)

unfoldable pub build_function : ℕ → ℕ → Object
unfolding set_function new_object
build_function garbage val = set_function val (new_object garbage)

unfoldable pub build_process : ℕ → ℕ → Object
unfolding set_process new_object
build_process garbage val = set_process val (new_object garbage)

unfoldable pub build_promise : ℕ → ℕ → Object
unfolding set_promise new_object
build_promise garbage val = set_promise val (new_object garbage)

unfoldable pub build_array : ℕ → ℕ → Object
unfolding set_array new_object
build_array garbage val = set_array val (new_object garbage)

unfoldable pub build_dict : ℕ → ℕ → Object
unfolding set_dict new_object
build_dict garbage val = set_dict val (new_object garbage)
