-- ===== src/Parser/Node.antt =====
-- The expression nodes of inc/eople_ast.h as the parser builds them, without their lines.
use eople.Base.{ℕ, List, Bool}
use eople.Base.Text.{Text}
use eople.Types.{ValueType}
use eople.Generator.Ast.{OpType}

-- A `std::unique_ptr` to a node is `null` or `to` one. The words of the numbers are those of `int_t` and
-- `f64`; a node has the symbol of its name.
mutual
  pub data Node : Type 0 where
    identifier : Text → ℕ → Node
    int_literal float_literal : ℕ → ℕ → Text → Node
    bool_literal : Bool → ℕ → Text → Node
    string_literal : Text → ℕ → Text → Node
    type_literal : ValueType → ℕ → Text → Node
    array_literal : Node → Pointers → Node
    dict_literal : Node → Pointers → Pointers → Node
    binary_op : OpType → Pointer → Pointer → Node
    array_subscript : Pointer → Pointer → Node
    call_node : Pointer → List Text → Pointers → Node
    message_node : Pointer → Node → Node

  pub data Pointer : Type 0 where
    null : Pointer
    to : Node → Pointer

  pub data Pointers : Type 0 where
    none_left : Pointers
    then_also : Pointer → Pointers → Pointers
