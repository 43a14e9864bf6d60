-- ===== src/Generator/Meaning/Sides.antt =====
-- The cell of an operator of src/eople_vmcode_gen.cpp behind the code of its two sides.
use eople.Base.{
  ℕ, suc, ◌+◌, ◌<◌, ◌≤◌, ◌≡◌, ◌^◌, refl, ap, ◌∙◌, sym, subst, Bool, true, false, List, [], ◌∷◌,
  Option, some, arith, length, get_elem?, set, length-set, get_elem?-lt, get_elem?-set_ne,
  get_elem?-set_self, length-append,
}
use eople.Opcodes.{Opcode, Instruction, instruction, opcode_to_instruction}
use eople.Code.{to_operand}
use eople.Machine.Result.{ok}
use eople.Machine.Object.{Object}
use eople.Machine.Stack.{Function}
use eople.Machine.State.{State, CodePtr, function_at}
use eople.Machine.Binop.{FloatOps, Operation, three_operands}
use eople.Machine.Exec.{execute, simple}
use eople.Machine.Loops.{Exec}
use eople.Generator.Ast.{OpType}
use eople.Generator.State.{Generator, choose_opcode}
use eople.Generator.Growth.Cells.{size}
use eople.Generator.Meaning.{Value, kind, apply}
use eople.Generator.Meaning.Operators.{Writes, apply-Implements}
use eople.Generator.Meaning.Cells.{
  operator_cell, target_of, temps_after, Written, get_elem?-take_push,
}
use eople.Generator.Meaning.Runs.{Runs, Runs-append, operator-Runs}
use eople.Generator.Meaning.Parts.{after_operator}
use eople.Generator.Meaning.Computes.{Computes, Fits, start, start-forth}

to_operand-small : (x : ℕ) → x < 2 ^ 16 → to_operand x ≡ x
to_operand-small x h = omega arith

inside {ℓ} :
    {A : Type ℓ} (xs : List A) (i : ℕ) → i < length xs → (x : A) × (get_elem? xs i ≡ some x)
inside [] i h = absurd (omega arith)
inside (x ∷ xs) ℕ.zero h = (x, refl)
inside (x ∷ xs) (suc i) h = inside xs i (omega arith)

module _ (fops : FloatOps) (others : Exec) (fuel : ℕ) (st : State) (fn : ℕ) (f : Function) where
  abbrev one_more : Exec
  one_more = execute fops others (suc fuel)

  abbrev base : ℕ
  base = st.process.stack.stack_base

  target-same :
      (is_root : Bool) (g g₂ : Generator)
      → g₂.result_index ≡ g.result_index
      → target_of is_root (record g₂ { current_temp = g.current_temp }) ≡ target_of is_root g
  target-same true g g₂ h = h
  target-same false g g₂ h = refl

  read_small :
      (memory : List Object) (x : ℕ) (o : Object)
      → x < 2 ^ 16
      → get_elem? memory (base + x) ≡ some o
      → get_elem? memory (base + to_operand x) ≡ some o
  read_small memory x o h e =
      subst (λ y. get_elem? memory (base + y) ≡ some o) (sym (to_operand-small x h)) e

  cell-Runs :
      (c : Opcode) (i : Instruction) (op : Operation) (left right t : ℕ) (p : CodePtr)
      (memory : List Object) (a b old : Object) (write : Object → Object)
      → left < 2 ^ 16
      → right < 2 ^ 16
      → t < 2 ^ 16
      → function_at p.fn st ≡ ok f
      → get_elem? f.code p.at ≡ some (operator_cell c left right t)
      → opcode_to_instruction c ≡ some (instruction i)
      → simple fops i ≡ some (three_operands op)
      → get_elem? memory (base + left) ≡ some a
      → get_elem? memory (base + right) ≡ some b
      → op a b ≡ ok write
      → get_elem? memory (base + t) ≡ some old
      → Runs one_more st p 1 memory (set memory (base + t) (write old))
  cell-Runs c i op left right t p memory a b old write hl hr ht hf hc hi hs ha hb ho was =
      subst (λ q. Runs one_more st p 1 memory (set memory (base + q) (write old)))
        (to_operand-small t ht)
        (operator-Runs fops others fuel st p f (operator_cell c left right t) i op memory a b old
          write hf hc hi hs (read_small memory left a hl ha) (read_small memory right b hr hb) ho
          (read_small memory t old ht was))

  target-low :
      (is_root : Bool) (g : Generator)
      → is_root ≡ false
      → target_of is_root g < temps_after is_root g.current_temp
  target-low true g h = cc
  target-low false g h = omega arith

  temps_after-between :
      (is_root : Bool) (temps n : ℕ)
      → (temps ≤ temps_after is_root temps) × (temps_after is_root temps ≤ temps + (n + 1))
  temps_after-between true temps n = (omega arith, omega arith)
  temps_after-between false temps n = (omega arith, omega arith)

  three-Runs :
      (g g₁ g₂ : Generator) (memory memory₁ memory₂ memory₃ : List Object) (m n : ℕ)
      → size g₁ ≡ size g + m
      → size g₂ ≡ size g₁ + n
      → Runs one_more st (start fn g) m memory memory₁
      → Runs one_more st (start fn g₁) n memory₁ memory₂
      → Runs one_more st (start fn g₂) 1 memory₂ memory₃
      → Runs one_more st (start fn g) (m + n + 1) memory memory₃
  three-Runs g g₁ g₂ memory memory₁ memory₂ memory₃ m n e e' p q r =
      let q' =
        subst (λ s. Runs one_more st s n memory₁ memory₂)
          (sym (start-forth one_more st fn g g₁ m e)) q in
      let both = Runs-append one_more st (start fn g) m n memory memory₁ memory₂ p q' in
      let r' =
        subst (λ s. Runs one_more st s 1 memory₂ memory₃)
          (sym (start-forth one_more st fn g g₂ (m + n) (omega (arith, e, e')))) r in
      Runs-append one_more st (start fn g) (m + n) 1 memory memory₂ memory₃ both r'

  -- An operator whose sides are computed.
  operator-Computes :
      (memory : List Object) (m n : ℕ) (is_root : Bool) (c : Opcode) (i : Instruction)
      (op : Operation) (g g₁ g₂ : Generator) (left right : ℕ) (x y v : Value)
      (l : Computes one_more st fn memory m false g (left, g₁) x)
      (r : Computes one_more st fn l.after n false g₁ (right, g₂) y)
      → function_at fn st ≡ ok f
      → Written f.code (after_operator c left right is_root g g₂).1
      → opcode_to_instruction c ≡ some (instruction i)
      → simple fops i ≡ some (three_operands op)
      → Writes op l.shown.object r.shown.object v
      → base + target_of is_root g < length memory
      → target_of is_root g < 2 ^ 16
      → Computes one_more st fn memory
          (m + n + 1)
          is_root
          g
          (after_operator c left right is_root g g₂)
          v
  operator-Computes memory m n is_root c i op g g₁ g₂ left right x y v l r hf hw hi hs w room
        small =
      let t = target_of is_root (record g₂ { current_temp = g.current_temp }) in
      let et : t ≡ target_of is_root g = target-same is_root g g₂ (r.result ∙ l.result) in
      let cell = operator_cell c left right t in
      let code = get_elem?-take_push _ f.code g₂.emitter.code cell hw in
      let t_small : t < 2 ^ 16 = omega (arith, small, et) in
      let left_kept : get_elem? r.after (base + left) ≡ some l.shown.object =
        r.kept left (l.low refl) (λ e. omega (arith, l.low refl, e)) ∙ l.shown.is_held in
      let (old, was) =
        inside r.after (base + t) (omega (arith, room, et, l.same_size, r.same_size)) in
      let after = set r.after (base + t) (w.write old) in
      let last : Runs one_more st (start fn g₂) 1 r.after after =
        cell-Runs c i op left right t (start fn g₂) r.after l.shown.object r.shown.object old
          w.write l.shown.below r.shown.below t_small hf code hi hs left_kept r.shown.is_held
          w.computes was in
      record {
        steps = l.steps + r.steps + 1;
        after = after;
        longer = omega (arith, l.longer, r.longer, length-append g₂.emitter.code (cell ∷ []));
        runs =
            three-Runs g g₁ g₂ memory l.after r.after after l.steps r.steps l.longer r.longer l.runs
              r.runs last;
        same_size = length-set r.after (base + t) (w.write old) ∙ r.same_size ∙ l.same_size;
        shown = record {
          object = w.write old;
          below = omega (arith, small, et);
          is_held =
              get_elem?-set_self r.after (base + t) (w.write old)
                (get_elem?-lt r.after (base + t) was);
          has = w.shows old;
        };
        low = target-low is_root (record g₂ { current_temp = g.current_temp });
        temps_from = (temps_after-between is_root g.current_temp (m + n)).0;
        temps_to = (temps_after-between is_root g.current_temp (m + n)).1;
        result = r.result ∙ l.result;
        kept = λ q below other.
            get_elem?-set_ne r.after (w.write old) (λ e. other (omega (arith, e, et)))
            ∙ r.kept q (omega (arith, below, l.temps_from))
                (λ e. omega (arith, e, below, l.temps_from))
            ∙ l.kept q below (λ e. omega (arith, e, below));
      }

  pub Fits-right :
      (memory : List Object) (limit m n : ℕ) (g : Generator) (r : ℕ × Generator) (x : Value)
      (l : Computes one_more st fn memory m false g r x)
      → Fits base memory limit (m + n + 1) g
      → Fits base l.after limit n r.1
  Fits-right memory limit m n g r x l fits = record {
    above = omega (arith, fits.above, l.temps_from);
    small = omega (arith, fits.small, l.temps_to);
    room = omega (arith, fits.room, l.temps_to, l.same_size);
    result_small = omega (arith, fits.result_small, l.result);
    result_room = omega (arith, fits.result_room, l.result, l.same_size);
  }

  target-Fits :
      (memory : List Object) (limit n : ℕ) (is_root : Bool) (g : Generator)
      → Fits base memory limit (n + 1) g
      → (base + target_of is_root g < length memory) × (target_of is_root g < 2 ^ 16)
  target-Fits memory limit n true g fits = (fits.result_room, fits.result_small)
  target-Fits memory limit n false g fits = (omega (arith, fits.room), omega (arith, fits.small))

  same_code : (c c' : Opcode) → ◌≡◌ {A = Option Opcode} (some c) (some c') → c ≡ c'
  same_code c c' h = cc

  -- The same for the opcode that the generator picks.
  pub picked-Computes :
      (memory : List Object) (limit m n : ℕ) (is_root : Bool) (op : OpType) (c : Opcode)
      (g g₁ g₂ : Generator) (left right : ℕ) (x y v : Value)
      (l : Computes one_more st fn memory m false g (left, g₁) x)
      (r : Computes one_more st fn l.after n false g₁ (right, g₂) y)
      → apply op x y ≡ some v
      → choose_opcode op (kind x) ≡ some c
      → Fits base memory limit (m + n + 1) g
      → function_at fn st ≡ ok f
      → Written f.code (after_operator c left right is_root g g₂).1
      → Computes one_more st fn memory
          (m + n + 1)
          is_root
          g
          (after_operator c left right is_root g g₂)
          v
  picked-Computes memory limit m n is_root op c g g₁ g₂ left right x y v l r ha hc fits hf hw =
      let (f_op, p, w) =
        apply-Implements fops op x y v l.shown.object r.shown.object ha l.shown.has r.shown.has in
      let same : p.code ≡ c = same_code p.code c (sym p.is_chosen ∙ hc) in
      let (room, small) = target-Fits memory limit (m + n) is_root g fits in
      operator-Computes memory m n is_root c p.implementation f_op g g₁ g₂ left right x y v l r hf
        hw (ap opcode_to_instruction (sym same) ∙ p.stands_for) p.runs_as w room small
