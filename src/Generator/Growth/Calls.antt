-- ===== src/Generator/Growth/Calls.antt =====
-- The code that the calls and messages of src/eople_vmcode_gen.cpp add behind their arguments.
use eople.Base.{ℕ, ◌≤◌, Bool, true, false, List, [], ◌∷◌, Option, none, some, arith, if◌then◌else◌}
use eople.Base.Text.{Text}
use eople.Types.{ValueType}
use eople.Opcodes.{Opcode, cfunction}
use eople.Code.{
  push_ccall, push_operands, gen_function_call, gen_spawn_process, gen_process_message,
}
use eople.Machine.Result.{Result, ok, err, ◌>>=◌, After, After-bind, After-then}
use eople.Machine.Object.{Object}
use eople.Generator.State.{Context, Callee, Generator, bump_error, emitting, is_process}
use eople.Generator.Expressions.{symbol_to_stack, set_stack_object, write_call, write_message}
use eople.Generator.Growth.{gen_call-Extends, ccall-Extends}
use eople.Generator.Growth.Cells.{
  Grows, size, bump-Grows, Grows-trans, set_stack_object-Grows, emitting-Grows,
}

module _ (cx : Context) where
  -- A call behind the write of its function to a constant.
  written-Grows :
      (n index : ℕ) (o : Object) (f : Generator → Result Generator) (g : Generator)
      → n ≤ size g
      → ((g' : Generator) → n ≤ size g' → After (Grows n g') (f g'))
      → After (Grows n g) (set_stack_object cx index o g >>= f)
  written-Grows n index o f g le h =
      After-then (Grows n g) (Grows n g) (set_stack_object cx index o g) f
        (set_stack_object-Grows cx n index o g)
        (λ g' p. after g' p (f g') (h g' (omega (arith, p.code.longer))))
    where
      after :
          (g' : Generator)
          → Grows n g g'
          → (m : Result Generator) → After (Grows n g') m
          → After (Grows n g) m
      after g' p (ok g'') q = Grows-trans n g g' g'' p q
      after g' p (err e) q = tt

  pub write_call-Grows :
      (n : ℕ) (name mangled : Text) (indices : List ℕ) (g : Generator)
      → n ≤ size g
      → After (Grows n g) (write_call cx name mangled indices g)
  unfolding write_call gen_function_call gen_spawn_process
  write_call-Grows n name mangled indices g le =
      After-bind (Grows n g) (symbol_to_stack cx mangled) _
        (λ call e. found call (cx.get_function name) (cx.get_cfunction name))
    where
      found :
          (call : ℕ) (f : Option Callee) (c : Option ℕ)
          → After (Grows n g) (elim f [
            | some callee ↦
                (set_stack_object cx call
                    (record { word = callee.function; object_type = ValueType.function })
                    g
                  >>= λ g'.
                      if is_process callee.return_type
                      then emitting (gen_spawn_process g'.result_index call indices) g'
                      else emitting (gen_function_call call indices) g')
            | none ↦ (elim c [
              | some target ↦
                  emitting (λ e. push_operands indices true (push_ccall (cfunction target) e)) g
              | none ↦ ok (bump_error g)
            ])
          ])
      found call (some callee) c =
          written-Grows n call _ _ g le (λ g' le'. by_kind g' le' (is_process callee.return_type))
        where
          by_kind :
              (g' : Generator)
              → n ≤ size g'
              → (t : Bool)
              → After (Grows n g') (
                  if t
                  then emitting (gen_spawn_process g'.result_index call indices) g'
                  else emitting (gen_function_call call indices) g')
          by_kind g' le' true =
              emitting-Grows n (gen_spawn_process g'.result_index call indices) g' (λ e' h.
                (gen_call-Extends n Opcode.spawn_process (g'.result_index ∷ call ∷ []) indices
                  g'.emitter e' le' h).0)
          by_kind g' le' false = emitting-Grows n (gen_function_call call indices) g' (λ e' h.
              (gen_call-Extends n Opcode.function_call (call ∷ []) indices g'.emitter e' le' h).0)
      found call none (some target) =
          emitting-Grows n (λ e. push_operands indices true (push_ccall (cfunction target) e)) g
            (λ e' h. (ccall-Extends n (cfunction target) indices g.emitter e' le h).0)
      found call none none = bump-Grows n g

  pub write_message-Grows :
      (n : ℕ) (process name : Text) (call process_index : ℕ) (indices : List ℕ) (g : Generator)
      → n ≤ size g
      → After (Grows n g) (write_message cx process name call process_index indices g)
  unfolding write_message gen_process_message
  write_message-Grows n process name call process_index indices g le =
      found (cx.get_member_function process name)
    where
      found :
          (f : Option Callee)
          → After (Grows n g) (elim f [
            | some callee ↦
                (set_stack_object cx call
                    (record { word = callee.function; object_type = ValueType.function })
                    g
                  >>= λ g'. emitting (gen_process_message process_index call indices) g')
            | none ↦ ok (bump_error g)
          ])
      found (some callee) = written-Grows n call _ _ g le (λ g' le'.
          emitting-Grows n (gen_process_message process_index call indices) g' (λ e' h.
            (gen_call-Extends n Opcode.process_message (process_index ∷ call ∷ []) indices
              g'.emitter e' le' h).0))
      found none = bump-Grows n g
