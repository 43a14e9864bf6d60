-- ===== src/Code/Arguments.antt =====
-- The argument lists that src/eople_vmcode_gen.cpp writes, as the machine reads them.
use eople.Base.{
  ℕ, ◌+◌, ◌<◌, ◌^◌, ◌≡◌, refl, ap, ◌∙◌, false, List, [], ◌∷◌, ◌++◌, map, Option, some, arith,
  length,
}
use eople.Opcodes.{Opcode, InstructionImpl, opcode_to_instruction}
use eople.Code.{
  VmCode, Emitter, code_of, push_opcode, to_operand, set_operand, push_operands, read_arguments,
  gen_call, gen_function_call, gen_spawn_process, gen_process_message,
}
use eople.Code.Filling.{
  at, push_operand-room, push_operands-cons, push_operands-fill, read_arguments-fill, fill-Keeps,
}

-- All numbers of a list fit an operand.
abbrev pub AllFit : List ℕ → Type 0
AllFit [] = Unit {0}
AllFit (x ∷ xs) = (x < 2 ^ 16) × AllFit xs

map-to_operand : (xs : List ℕ) → AllFit xs → map to_operand xs ≡ xs
map-to_operand [] h = refl
map-to_operand (x ∷ xs) h = ground (arith, map-to_operand xs h.1)

-- Code that is `e`'s with a call behind it: the first cell has the implementation `i` and the
-- operands of `first` in front of position `k`, from which the arguments are read.
pub record IsCall (e e' : Emitter) (i : Option InstructionImpl) (first : VmCode → Type 0) (k : ℕ)
    (arguments : List ℕ) : Type 0 where
  pub cell : VmCode
  pub rest : List VmCode
  pub appended : e'.code ≡ e.code ++ cell ∷ rest
  pub implements : cell.instruction ≡ i
  pub leads : first cell
  pub reads : read_arguments k (length arguments) (cell ∷ rest) ≡ some arguments

-- The cell of a call with its first operand, or its first two.
abbrev pub cell₁ : Opcode → ℕ → VmCode
cell₁ op x = record {
  instruction = opcode_to_instruction op;
  a = to_operand x;
  b = 0;
  c = 0;
  d = 0;
}

abbrev pub cell₂ : Opcode → ℕ → ℕ → VmCode
cell₂ op x y = record (cell₁ op x) { b = to_operand y }

module _ (op : Opcode) (e : Emitter) where
  pub first_operand :
      (x : ℕ)
      → push_operands (x ∷ []) false (push_opcode op e)
        ≡ some (at (e.code ++ cell₁ op x ∷ []) 1 (e.opcode_count + 1))
  unfolding push_opcode code_of set_operand push_operands
  first_operand x = push_operands-cons x [] false _ (
      push_operand-room 0 x (e.opcode_count + 1) false e.code (code_of (opcode_to_instruction op))
        (omega arith) refl)

  pub first_operands :
      (x y : ℕ)
      → push_operands (x ∷ y ∷ []) false (push_opcode op e)
        ≡ some (at (e.code ++ cell₂ op x y ∷ []) 2 (e.opcode_count + 1))
  unfolding push_opcode code_of set_operand push_operands
  first_operands x y =
      push_operands-cons x (y ∷ []) false _ (
        push_operand-room 0 x (e.opcode_count + 1) false e.code (code_of (opcode_to_instruction op))
          (omega arith) refl)
      ∙ push_operands-cons y [] false _
          (push_operand-room 1 y (e.opcode_count + 1) false e.code (cell₁ op x) (omega arith) refl)

abbrev pub Calls :
    Emitter → Option Emitter → Option InstructionImpl → (VmCode → Type 0) → ℕ → List ℕ → Type 0
Calls e r i first k arguments = (e' : Emitter) × (r ≡ some e') × IsCall e e' i first k arguments

gen_call-Calls₁ :
    (op : Opcode) (x : ℕ) (arguments : List ℕ) (e : Emitter)
    → AllFit arguments
    → Calls e
        (gen_call op (x ∷ []) arguments e)
        (opcode_to_instruction op)
        (λ cell. cell.a ≡ to_operand x)
        1
        arguments
unfolding gen_call
gen_call-Calls₁ op x arguments e fit =
    let (e', ran, cells) =
      push_operands-fill arguments e.code (cell₁ op x) 1 (e.opcode_count + 1) (omega arith) in
    let (h, t, shape, same, kept) = fill-Keeps arguments (cell₁ op x) 1 (omega arith) in
    (
      e',
      rw (first_operand op e x, gen_call) ran,
      record {
        cell = h;
        rest = t;
        appended = cells ∙ ap (λ r. e.code ++ r) shape;
        implements = same;
        leads = kept;
        reads =
            rw shape at (read_arguments-fill arguments (cell₁ op x) 1 (omega arith))
            ∙ ap some (map-to_operand arguments fit);
      },
    )

gen_call-Calls₂ :
    (op : Opcode) (x y : ℕ) (arguments : List ℕ) (e : Emitter)
    → AllFit arguments
    → Calls e
        (gen_call op (x ∷ y ∷ []) arguments e)
        (opcode_to_instruction op)
        (λ cell. (cell.a ≡ to_operand x) × (cell.b ≡ to_operand y))
        2
        arguments
unfolding gen_call
gen_call-Calls₂ op x y arguments e fit =
    let (e', ran, cells) =
      push_operands-fill arguments e.code (cell₂ op x y) 2 (e.opcode_count + 1) (omega arith) in
    let (h, t, shape, same, kept) = fill-Keeps arguments (cell₂ op x y) 2 (omega arith) in
    (
      e',
      rw (first_operands op e x y, gen_call) ran,
      record {
        cell = h;
        rest = t;
        appended = cells ∙ ap (λ r. e.code ++ r) shape;
        implements = same;
        leads = kept;
        reads =
            rw shape at (read_arguments-fill arguments (cell₂ op x y) 2 (omega arith))
            ∙ ap some (map-to_operand arguments fit);
      },
    )

module _ (arguments : List ℕ) (e : Emitter) (fit : AllFit arguments) where
  -- A function call is written behind the code, and the machine reads its arguments, however
  -- many, from the second operand on exactly as they were given. Each fits an operand.
  pub gen_function_call-Calls :
      (call : ℕ)
      → Calls e
          (gen_function_call call arguments e)
          (opcode_to_instruction Opcode.function_call)
          (λ cell. cell.a ≡ to_operand call)
          1
          arguments
  unfolding gen_function_call
  gen_function_call-Calls call = gen_call-Calls₁ Opcode.function_call call arguments e fit

  -- A constructor call is written behind the code, and the machine reads its arguments from the
  -- third operand on exactly as they were given. Each fits an operand.
  pub gen_spawn_process-Calls :
      (result call : ℕ)
      → Calls e
          (gen_spawn_process result call arguments e)
          (opcode_to_instruction Opcode.spawn_process)
          (λ cell. (cell.a ≡ to_operand result) × (cell.b ≡ to_operand call))
          2
          arguments
  unfolding gen_spawn_process
  gen_spawn_process-Calls result call =
      gen_call-Calls₂ Opcode.spawn_process result call arguments e fit

  -- A message is written behind the code, and the machine reads its arguments from the third
  -- operand on exactly as they were given. Each fits an operand.
  pub gen_process_message-Calls :
      (process call : ℕ)
      → Calls e
          (gen_process_message process call arguments e)
          (opcode_to_instruction Opcode.process_message)
          (λ cell. (cell.a ≡ to_operand process) × (cell.b ≡ to_operand call))
          2
          arguments
  unfolding gen_process_message
  gen_process_message-Calls process call =
      gen_call-Calls₂ Opcode.process_message process call arguments e fit
