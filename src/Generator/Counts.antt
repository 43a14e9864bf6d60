-- ===== src/Generator/Counts.antt =====
-- The counts in the cells of the loops of src/eople_vmcode_gen.cpp.
use eople.Base.{
  ℕ, zero, suc, ◌+◌, ◌≡◌, refl, sym, ap, ◌∙◌, false, List, [], ◌∷◌, Option, some, arith, take,
  get_elem?, get_elem?-set_self, get_elem?-push, get_elem?-lt, length-set,
}
use eople.Opcodes.{Opcode, opcode_to_instruction}
use eople.Code.{VmCode, to_operand, code_of, push_opcode}
use eople.Machine.Result.{ok, After, After-bind, After-then, After-ok, After-map}
use eople.Generator.Ast.{Expression, Statements, while_loop}
use eople.Generator.State.{Context, Generator, opcode}
use eople.Generator.Expressions.{gen_expression_term}
use eople.Generator.Jumps.{set_cell, last_op, count_since, set_parts, start_statement}
use eople.Generator.Statements.{gen_statement}
use eople.Generator.Growth.{push_opcode-Extends, push_opcode-length}
use eople.Generator.Growth.Cells.{Grows, size, GrowsPair}
use eople.Generator.Growth.Expressions.{gen_expression_term-Grows}
use eople.Generator.Growth.Jumps.{take-set}
use eople.Generator.Growth.Conditions.{AllTested}
use eople.Generator.Growth.Statements.{gen_statements-Grows}

get_elem?-take {ℓ} :
    {A : Type ℓ} (n : ℕ) (xs : List A) → get_elem? (take (suc n) xs) n ≡ get_elem? xs n
get_elem?-take n [] = refl
get_elem?-take zero (x ∷ xs) = refl
get_elem?-take (suc n) (x ∷ xs) = get_elem?-take n xs

take-less {ℓ} :
    {A : Type ℓ} (n : ℕ) (xs ys : List A)
    → take (suc n) ys ≡ take (suc n) xs
    → take n ys ≡ take n xs
take-less n xs ys h = sym (twice n ys) ∙ ap (take n) h ∙ twice n xs
  where
    twice : {A : Type ℓ} (n : ℕ) (xs : List A) → take n (take (suc n) xs) ≡ take n xs
    twice zero xs = refl
    twice (suc n) [] = refl
    twice (suc n) (x ∷ xs) = ap (λ t. x ∷ t) (twice n xs)

-- A cell that stays.
pub kept_cell :
    (n : ℕ) (g g' : Generator) {cell : VmCode}
    → Grows (suc n) g g'
    → get_elem? g.emitter.code n ≡ some cell
    → get_elem? g'.emitter.code n ≡ some cell
kept_cell n g g' p at =
    sym (get_elem?-take n g'.emitter.code)
    ∙ ap (λ t. get_elem? t n) p.code.kept
    ∙ get_elem?-take n g.emitter.code
    ∙ at

-- The code with one cell written.
abbrev pub Writes : ℕ → VmCode → Generator → Generator → Type 0
Writes i cell g g' =
    (get_elem? g'.emitter.code i ≡ some cell)
    × (size g' ≡ size g)
    × (take i g'.emitter.code ≡ take i g.emitter.code)
    × (g'.emitter.opcode_count ≡ g.emitter.opcode_count)

pub written_cell :
    (n i : ℕ) (f : VmCode → VmCode) (g : Generator) {cell : VmCode}
    → i ≡ n
    → get_elem? g.emitter.code n ≡ some cell
    → After (Writes n (f cell) g) (set_cell i f g)
unfolding set_cell
written_cell n i f g {cell} same at =
    rw (same, set_cell, at)
      (
        get_elem?-set_self g.emitter.code n (f cell) (get_elem?-lt g.emitter.code n at),
        length-set g.emitter.code n (f cell),
        take-set n n g.emitter.code (f cell) (omega arith),
        refl,
      )

-- The cell that `PushOpcode` adds.
new_cell :
    (op : Opcode) (g : Generator)
    → get_elem? (opcode op g).emitter.code (size g) ≡ some (code_of (opcode_to_instruction op))
unfolding push_opcode
new_cell op g =
    ground (arith, get_elem?-push g.emitter.code (code_of (opcode_to_instruction op)) (size g))

module _ (cx : Context) (is_ready : Option ℕ) where
  -- A loop with a condition as it stands in the code: where its parts end, and what its cell says.
  pub record WhileParts (e : Expression) (g g' : Generator) : Type 0 where
    pub cell : VmCode
    pub condition : Generator
    pub register : ℕ
    pub condition_count : ℕ
    pub body_count : ℕ
    pub stands : get_elem? g'.emitter.code (size g) ≡ some cell
    pub implements : cell.instruction ≡ opcode_to_instruction Opcode.while
    pub evaluates :
        gen_expression_term cx is_ready e false (opcode Opcode.while (start_statement g))
        ≡ ok (register, condition)
    pub operand_a : cell.a ≡ to_operand register
    pub operand_b : cell.b ≡ to_operand condition_count
    pub operand_c : cell.c ≡ to_operand body_count
    pub condition_ends : size condition ≡ size g + 1 + condition_count
    pub body_ends : size g' ≡ size condition + body_count
    pub unchanged : take (size g) g'.emitter.code ≡ take (size g) g.emitter.code

  while_parts :
      (e : Expression) (body : Statements) (g : Generator)
      → AllTested cx body
      → After (WhileParts e g) (gen_statement cx is_ready (while_loop e body) g)
  unfolding gen_statement code_of
  while_parts e body g h =
      let n = size g in
      let g₁ = opcode Opcode.while (start_statement g) in
      let more = push_opcode-length Opcode.while g.emitter in
      let first = new_cell Opcode.while (start_statement g) in
      let p₁ = push_opcode-Extends n Opcode.while g.emitter (omega arith) in
      After-bind (WhileParts e g) (gen_expression_term cx is_ready e false g₁) _
        (λ (register, g₂) ran.
          let p₂ =
            After-ok (GrowsPair (suc n) g₁) _
              (gen_expression_term-Grows cx is_ready (suc n) e false g₁ (omega (arith, more)))
              ran in
          After-then (Grows (suc n) g₂) (WhileParts e g) _ _
            (gen_statements-Grows cx is_ready (suc n) body g₂ h
              (omega (arith, more, p₂.code.longer)))
            (λ g₃ p₃.
              let at = kept_cell n g₂ g₃ p₃ (kept_cell n g₁ g₂ p₂ first) in
              After-map
                (Writes n
                  (set_parts register (count_since g₁.emitter.opcode_count g₂)
                    (count_since g₂.emitter.opcode_count g₃)
                    (code_of (opcode_to_instruction Opcode.while)))
                  g₃)
                (WhileParts e g) _
                (λ g' (stands, long, before, counts). record {
                  cell = _;
                  condition = g₂;
                  register = register;
                  condition_count = count_since g₁.emitter.opcode_count g₂;
                  body_count = count_since g₂.emitter.opcode_count g₃;
                  stands = stands;
                  implements = refl;
                  evaluates = ran;
                  operand_a = refl;
                  operand_b = refl;
                  operand_c = refl;
                  condition_ends = omega (arith, more, p₂.code.counted, p₂.code.longer);
                  body_ends = omega (arith, long, p₃.code.counted, p₃.code.longer);
                  unchanged =
                      before
                      ∙ take-less n g₂.emitter.code g₃.emitter.code p₃.code.kept
                      ∙ take-less n g₁.emitter.code g₂.emitter.code p₂.code.kept
                      ∙ p₁.kept;
                })
                (written_cell n (last_op g₁) _ g₃ (omega (arith, more)) at)))

  -- A loop `while` is written behind the code that was there, with its condition and its body one
  -- after the other behind its cell, and the cell names the register of the condition and counts
  -- the cells of each; every condition of an `if` in the body has code of its own.
  pub while_loop-WhileParts :
      (e : Expression) (body : Statements) (g g' : Generator)
      → AllTested cx body
      → gen_statement cx is_ready (while_loop e body) g ≡ ok g'
      → WhileParts e g g'
  while_loop-WhileParts e body g g' h ran =
      After-ok (WhileParts e g) (gen_statement cx is_ready (while_loop e body) g)
        (while_parts e body g h) ran
