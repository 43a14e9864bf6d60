-- ===== src/Lib.antt =====
-- The verification library of the eople language: its lexer, the expressions of its parser, its symbol
-- table, its code generator, and its virtual machine with the processes, messages and locks. Paths are
-- from the root of the repository.
--
-- The lexer turns a buffer into tokens, each with its text, number or line, and the parser turns tokens
-- into trees. The code generator walks the syntax tree and asks the symbol tables of nested scopes for
-- registers. It emits cells of one function pointer and four operands each; a call with more arguments
-- than operands goes on in further cells. The machine runs the cells on the stack of a process:
-- constants, parameters, locals and temporaries lie in one frame, and an operand is an offset into the
-- frame. Processes send each other messages; the cores take them from queues that are guarded by
-- try-locks, a batch for one process at a time, and after each message every when and whenever block of
-- the process is tried.
--
--   Base         shared names, list lemmas, integers and texts over the native numbers
--   Types        inc/eople_types.h: ValueType and the shape of a type
--   Symbols      inc/eople_symbol_table.h: SymbolTable; GetTableEntryIndex is get_table_entry_index,
--                ConvertToConstant is convert_to_constant, Rollback is rollback, and so on
--   Opcodes      inc/eople_core.h and src/eople_vm.cpp: Opcode, OpcodeToInstruction,
--                InstructionToString
--   Code         inc/eople_core.h and src/eople_vmcode_gen.cpp: VMCode, PushOpcode, PushOperand and the
--                argument lists of GenFunctionCall and GenProcessMessage
--   Machine      Object (inc/eople_object.h), Stack and State (inc/eople_core.h), Binop
--                (src/eople_binop.cpp), Flow and Loops (src/eople_control_flow.cpp), Calls, Messages and
--                Exec (inc/eople_vm.h and src/eople_vm.cpp)
--   Scheduler    inc/eople_vm.h and src/eople_vm.cpp: AutoTryLock (Lock), the batches
--                of CoreMain (Batch), SendMessage and the queues of the cores (Queues)
--   Strings      src/utf8.cpp: convert_raw_string
--   Lexer        src/eople_lex.cpp and inc/eople_lex.h: the tokens and keywords (Token), the character
--                loops (Scan), NextToken (Next)
--   Parser       src/eople_parse.cpp and inc/eople_parse.h: the expressions, from the tokens (State) over
--                literals, calls and ParseFactor (Literals, Calls, Elements, Factor) to ParseOp and the
--                levels of operators (Operators)
--   Generator    src/eople_vmcode_gen.cpp: the state and the choice of opcodes (State),
--                GenExpressionTerm and GetType (Expressions), GenStatement and GenWhen (Statements, with
--                the jumps and counts in Jumps), on the nodes of inc/eople_ast.h (Ast); GetStackIndex
--                of src/eople_ast.cpp (Scope); the meaning of expressions apart from the machine
--                (Meaning)
--
-- A function of the source that changes an object is a function from the old state to the new one. A
-- failed assertion, a null pointer that is followed, an access outside the memory of the program and
-- arithmetic that C++ leaves undefined are values of Fault. Pointers into the stack are offsets; where
-- the source keeps an address while other code runs, the model keeps the size of the memory with it, and
-- an access after the memory has grown is a fault: realloc makes a pointer to the old memory invalid
-- even where the memory does not move. In the same way the reference to a whenever block is taken as
-- invalid once its run has registered further blocks, since the model has no capacity of the vector.
-- Pointers to functions and promises are numbers that count from 1, with 0 for null. An object is a
-- 64-bit word and a tag; the 32-bit members of the union leave the upper half of the word. Floating
-- point is a parameter, a record of operations on bit patterns. Memory allocation is taken to succeed.
--
-- Loops and calls run on fuel, one unit for each level of nesting and each round. CopyMessageArgs gets
-- two units for each argument and one more: one pays for reading the argument, the other for a step to a
-- further cell. The loops over cells and the copies of arguments are structural.
--
-- The parser of expressions runs on fuel for nesting and loops, and two units more than an expression
-- has operators and parentheses are enough for it; its nodes carry no lines. The lexer runs on one unit
-- more than the buffer has bytes; a recursive call comes behind at least one byte. What a read at the end
-- of the buffer finds, the number that strtod makes of a text and the text that snprintf makes of a
-- number are parameters. The generator is structural on the tree; the searches of the modules for a
-- function are an interface, a member of Context.
--
-- Not modelled: the statements of the parser, type inference, array and dictionary literals and the
-- walk of the code generator over modules, the standard library, the instructions on strings, arrays and
-- dictionaries, ExecuteConstructor of the machine, the sleeping of idle cores, logging and the
-- read-eval-print loop. The instructions outside the model are a parameter of Exec.
pub mod Base
pub mod Types
pub mod Symbols
pub mod Opcodes
pub mod Code
pub mod Machine
pub mod Scheduler
pub mod Strings
pub mod Lexer
pub mod Parser
pub mod Generator
