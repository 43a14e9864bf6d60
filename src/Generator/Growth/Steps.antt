-- ===== src/Generator/Growth/Steps.antt =====
-- Steps that the statements of src/eople_vmcode_gen.cpp share, and how they grow the code.
use eople.Base.{ℕ, ◌≤◌, ◌<◌, Bool, List, Option, none, some, arith}
use eople.Base.Text.{Text}
use eople.Machine.Result.{Result, ok, err, ◌>>=◌, After, After-then}
use eople.Generator.Ast.{Expression}
use eople.Generator.State.{Context, Generator, bump_error}
use eople.Generator.Expressions.{write_call, write_message, gen_expression_term}
use eople.Generator.Jumps.{jump_of_condition}
use eople.Generator.Growth.Cells.{Grows, Grows-refl, Grows-trans, bump-Grows, size, GrowsPair}
use eople.Generator.Growth.Calls.{write_call-Grows, write_message-Grows}
use eople.Generator.Growth.Expressions.{gen_expression_term-Grows}
use eople.Generator.Growth.Jumps.{AllFrom, JumpAt, jump_of_condition-JumpAt, then-Grows}

abbrev pub JumpsFrom : ℕ → Generator → List ℕ × ℕ × Generator → Type 0
JumpsFrom n g r = Grows n g r.2 × AllFrom n r.0 × (n ≤ r.1)

pub jumps-from :
    (n : ℕ) (g g₁ : Generator) (m : Result (List ℕ × ℕ × Generator))
    → Grows n g g₁
    → After (JumpsFrom n g₁) m
    → After (JumpsFrom n g) m
jumps-from n g g₁ (ok r) p (q, all, above) = (Grows-trans n g g₁ r.2 p q, all, above)
jumps-from n g g₁ (err e) p q = tt

-- Two steps in a row.
pub followed-Grows :
    (n : ℕ) (g : Generator) (m : Result Generator) (f : Generator → Result Generator)
    → n ≤ size g
    → After (Grows n g) m
    → ((g₁ : Generator) → n ≤ size g₁ → After (Grows n g₁) (f g₁))
    → After (Grows n g) (m >>= f)
followed-Grows n g m f le h k =
    After-then (Grows n g) (Grows n g) m f h
      (λ g₁ p. then-Grows n g g₁ (f g₁) p (k g₁ (omega (arith, p.code.longer))))

pub followed-JumpsFrom :
    (n : ℕ) (g : Generator) (m : Result Generator) (f : Generator → Result (List ℕ × ℕ × Generator))
    → n ≤ size g
    → After (Grows n g) m
    → ((g₁ : Generator) → n ≤ size g₁ → After (JumpsFrom n g₁) (f g₁))
    → After (JumpsFrom n g) (m >>= f)
followed-JumpsFrom n g m f le h k =
    After-then (Grows n g) (JumpsFrom n g) m f h
      (λ g₁ p. jumps-from n g g₁ (f g₁) p (k g₁ (omega (arith, p.code.longer))))

-- A condition's jump, and what follows it.
pub tested_branch-Grows :
    (n expr_id : ℕ) (g : Generator) (f : ℕ × Generator → Result (List ℕ × ℕ × Generator))
    → n < size g
    → ((jump : ℕ) (g₁ : Generator) → n ≤ size g₁ → n ≤ jump → After (JumpsFrom n g₁) (f (jump, g₁)))
    → After (JumpsFrom n g) (jump_of_condition expr_id g >>= f)
tested_branch-Grows n expr_id g f le k =
    After-then (JumpAt n g) (JumpsFrom n g) (jump_of_condition expr_id g) f
      (jump_of_condition-JumpAt n expr_id g le)
      (λ (jump, g₁) (p, above, below).
        jumps-from n g g₁ (f (jump, g₁)) p (k jump g₁ (omega arith) above))

module _ (cx : Context) (is_ready : Option ℕ) where
  pub term-Grows :
      (n : ℕ) (e : Expression) (is_root : Bool) (g : Generator)
      (f : ℕ × Generator → Result Generator)
      → n ≤ size g
      → ((r : ℕ × Generator) → n ≤ size r.1 → After (Grows n r.1) (f r))
      → After (Grows n g) (gen_expression_term cx is_ready e is_root g >>= f)
  term-Grows n e is_root g f le k =
      After-then (GrowsPair n g) (Grows n g) _ f
        (gen_expression_term-Grows cx is_ready n e is_root g le)
        (λ r p. then-Grows n g r.1 (f r) p (k r (omega (arith, p.code.longer))))

  -- The call of a statement, or the error where an argument has no type.
  pub call-Grows :
      (n : ℕ) (name mangled : Text) (indices : Option (List ℕ)) (g : Generator)
      → n ≤ size g
      → After
          (Grows n g)
          (elim indices [ some is ↦ write_call cx name mangled is g | none ↦ ok (bump_error g) ])
  call-Grows n name mangled (some is) g le = write_call-Grows cx n name mangled is g le
  call-Grows n name mangled none g le = bump-Grows n g

  pub message-Grows :
      (n : ℕ) (process name : Text) (call process_index : ℕ) (indices : Option (List ℕ))
      (g : Generator)
      → n ≤ size g
      → After (Grows n g) (elim indices [
        | some is ↦ write_message cx process name call process_index is g
        | none ↦ ok g
      ])
  message-Grows n process name call process_index (some is) g le =
      write_message-Grows cx n process name call process_index is g le
  message-Grows n process name call process_index none g le = Grows-refl n g
