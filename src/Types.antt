-- ===== src/Types.antt =====
-- inc/eople_types.h: the value types of the language and the types that are built from them.
use eople.Base.Text.{Text}

-- `ValueType`, in the order of the source.
pub data ValueType : Type 0 where
  nil float int bool string dict struct process function promise array type any : ValueType

-- A `type_t` is a pointer to an interned type: one value here for each type that is interned.
pub data Ty : Type 0 where
  primitive : ValueType → Ty
  process_type : Text → Ty
  function_type : Text → Ty
  promise_type : Ty → Ty
  array_type : Ty → Ty
  kind_type : Ty → Ty
  any_type : Ty

-- `TypeBuilder::GetNilType`.
abbrev pub nil_type : Ty
nil_type = primitive nil
