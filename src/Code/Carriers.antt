-- ===== src/Code/Carriers.antt =====
-- The cells that src/eople_vmcode_gen.cpp adds for the arguments that do not fit, seen as
-- instructions: `PushOperand` writes them with the opcode `NOP`.
use eople.Base.{
  ℕ, ◌+◌, ◌≡◌, refl, ◌∙◌, List, ◌∷◌, ◌++◌, none, some, arith, length, get_elem?, get_elem?-append,
}
use eople.Opcodes.{Opcode}
use eople.Code.{VmCode, Emitter, gen_function_call, gen_spawn_process, gen_call, to_operand}
use eople.Code.Filling.{fill, carrier, push_operands-fill, fill-Keeps}
use eople.Code.Arguments.{cell₁, cell₂, first_operand, first_operands}

-- The cell at an index of the code has no implementation.
abbrev pub NullAt : List VmCode → ℕ → Type 0
NullAt code i = (c : VmCode) × (get_elem? code i ≡ some c) × (c.instruction ≡ none)

null_behind :
    (code : List VmCode) (cell : VmCode) (x : ℕ) (xs : List ℕ)
    → NullAt (code ++ cell ∷ fill (carrier x) 1 xs) (length code + 1)
null_behind code cell x xs =
    let (h, t, shape, same, _) = fill-Keeps xs (carrier x) 1 (omega arith) in
    (h, get_elem?-append code _ 1 ∙ rw shape refl, same)

module _ (e : Emitter) where
  -- Behind a function call with four arguments or more stands a cell with a null implementation:
  -- the one that the machine goes on with when the call has returned.
  pub gen_function_call-NullAt :
      (call x y z w : ℕ) (more : List ℕ)
      → (e' : Emitter) × (gen_function_call call (x ∷ y ∷ z ∷ w ∷ more) e ≡ some e')
        × NullAt e'.code (length e.code + 1)
  unfolding gen_function_call gen_call fill
  gen_function_call-NullAt call x y z w more =
      let arguments = x ∷ y ∷ z ∷ w ∷ more in
      let (e', ran, cells) =
        push_operands-fill arguments e.code (cell₁ Opcode.function_call call) 1 (e.opcode_count + 1)
          (omega arith) in
      let full : VmCode = record (cell₁ Opcode.function_call call) {
        b = to_operand x;
        c = to_operand y;
        d = to_operand z;
      } in
      (
        e',
        rw (first_operand Opcode.function_call e call, gen_call) ran,
        rw cells (null_behind e.code full w more),
      )

  -- So it is behind a constructor call with three arguments or more.
  pub gen_spawn_process-NullAt :
      (result call x y z : ℕ) (more : List ℕ)
      → (e' : Emitter) × (gen_spawn_process result call (x ∷ y ∷ z ∷ more) e ≡ some e')
        × NullAt e'.code (length e.code + 1)
  unfolding gen_spawn_process gen_call fill
  gen_spawn_process-NullAt result call x y z more =
      let arguments = x ∷ y ∷ z ∷ more in
      let (e', ran, cells) =
        push_operands-fill arguments e.code (cell₂ Opcode.spawn_process result call) 2
          (e.opcode_count + 1) (omega arith) in
      let full : VmCode = record (cell₂ Opcode.spawn_process result call) {
        c = to_operand x;
        d = to_operand y;
      } in
      (
        e',
        rw (first_operands Opcode.spawn_process e result call, gen_call) ran,
        rw cells (null_behind e.code full z more),
      )
