-- ===== src/Generator/Ast.antt =====
-- The nodes of inc/eople_ast.h that the generator walks. A node carries the name under which its
-- symbol is registered: the text of a literal, the mangled name of a call. Array and dictionary
-- literals and structures are not here.
use eople.Base.{Bool, Option}
use eople.Base.Text.{Text}
use eople.Types.{Ty}
use eople.Machine.Object.{Object}

pub data OpType : Type 0 where
  add sub mul div modulo gt lt eq neq leq geq shl shr band bxor bor and or not call unknown : OpType

-- A literal has its type and the object that `Object::BuildInt` and its like make of its value. The
-- flag of an identifier is `is_guard`.
mutual
  pub data Expression : Type 0 where
    identifier : Text → Bool → Expression
    literal : Text → Ty → Object → Expression
    binary_op : OpType → Expression → Expression → Expression
    call_of : Text → Text → Expressions → Expression
    message_of : Text → Text → Text → Expressions → Expression
    array_subscript : Text → Expression → Expression

  pub data Expressions : Type 0 where
    done : Expressions
    argument : Expression → Expressions → Expressions

-- `For` has its `ForInit`: the counter and the start, and the end and step that a loop over an array
-- does not have. A block has an identifier
-- and a condition. The else-if blocks of an `if` are pairs of a condition and a body.
mutual
  pub data Statement : Type 0 where
    return_nothing : Statement
    return_of : Expression → Statement
    assign : Text → Expression → Statement
    assign_element : Text → Expression → Expression → Statement
    for_loop : Text → Expression → Option Expression → Option Expression → Statements → Statement
    while_loop : Expression → Statements → Statement
    when_block : Text → Expression → Statements → Statement
    whenever_block : Text → Expression → Statements → Statement
    if_then : Expression → Statements → Branches → Statements → Statement
    call_statement : Text → Text → Expressions → Statement
    message_statement : Text → Text → Text → Expressions → Statement

  pub data Statements : Type 0 where
    nothing : Statements
    followed_by : Statement → Statements → Statements

  pub data Branches : Type 0 where
    no_more : Branches
    else_if : Expression → Statements → Branches → Branches
