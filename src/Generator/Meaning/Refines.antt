-- ===== src/Generator/Meaning/Refines.antt =====
-- The code that `GenExpressionTerm` of src/eople_vmcode_gen.cpp writes for an expression against what
-- the expression means, when src/eople_control_flow.cpp runs it on the instructions of
-- src/eople_binop.cpp.
use eople.Base.{
  ℕ, suc, ◌+◌, ◌<◌, ◌≡◌, ◌≢◌, ◌^◌, ap, ◌∙◌, sym, subst, Bool, true, false, List, Option, some,
  arith, get_elem?, Option-cases, inl, inr,
}
use eople.Base.Text.{Text}
use eople.Opcodes.{Opcode}
use eople.Machine.Result.{ok, After-ok}
use eople.Machine.Object.{Object}
use eople.Machine.Stack.{Function}
use eople.Machine.State.{State, function_at}
use eople.Machine.Binop.{FloatOps}
use eople.Machine.Exec.{execute}
use eople.Machine.Loops.{Exec, run_counted}
use eople.Generator.Ast.{
  Expression, identifier, literal, binary_op, call_of, message_of, array_subscript,
}
use eople.Generator.State.{Context, Generator, choose_opcode}
use eople.Generator.Expressions.{gen_expression_term}
use eople.Generator.Growth.Cells.{size, GrowsPair}
use eople.Generator.Growth.Expressions.{gen_expression_term-Grows}
use eople.Generator.Meaning.{Value, meaning, Shows, Held, Loaded, operators}
use eople.Generator.Meaning.Operators.{apply-chosen}
use eople.Generator.Meaning.Cells.{target_of, Written, Written-before, take-prefix}
use eople.Generator.Meaning.Runs.{placed}
use eople.Generator.Meaning.Kinds.{
  meaning-parts, value_of-kind, get_type-kind, left_type-kind, Loaded-kept,
}
use eople.Generator.Meaning.Parts.{identifier-slot, literal-slot, after_operator, binary_op-parts}
use eople.Generator.Meaning.Computes.{Computes, Fits, start, start-forth, leaf-Computes, Fits-left}
use eople.Generator.Meaning.Sides.{Fits-right, picked-Computes}

module _ (fops : FloatOps) (others : Exec) (fuel : ℕ) (st : State) (fn : ℕ) (f : Function) where
  abbrev one_more : Exec
  one_more = execute fops others (suc fuel)

  abbrev base : ℕ
  base = st.process.stack.stack_base

  module _ (cx : Context) (is_ready : Option ℕ) (values : Text → Value) where
    Written-parts :
        (c : Opcode) (left right : ℕ) (r : Expression) (is_root : Bool) (g g₁ g₂ : Generator)
        → gen_expression_term cx is_ready r false g₁ ≡ ok (right, g₂)
        → Written f.code (after_operator c left right is_root g g₂).1
        → Written f.code g₁ × Written f.code g₂
    Written-parts c left right r is_root g g₁ g₂ hr hw =
        let w₂ = take-prefix _ f.code g₂.emitter.code _ hw in
        let grows =
          After-ok (GrowsPair (size g₁) g₁) _
            (gen_expression_term-Grows cx is_ready (size g₁) r false g₁ (omega arith)) hr in
        (Written-before f.code g₁ g₂ grows w₂, w₂)

    pub gen_expression_term-Computes :
        (e : Expression) (memory : List Object) (limit : ℕ) (is_root : Bool) (g : Generator)
        (r : ℕ × Generator) (v : Value)
        → Loaded cx values base memory limit e
        → Fits base memory limit (operators e) g
        → meaning values e ≡ some v
        → gen_expression_term cx is_ready e is_root g ≡ ok r
        → function_at fn st ≡ ok f
        → Written f.code r.1
        → Computes one_more st fn memory (operators e) is_root g r v
    unfolding meaning
    gen_expression_term-Computes (identifier name true) memory limit is_root g r v loaded fits hv hg
          hf hw =
        cc
    gen_expression_term-Computes (identifier name false) memory limit is_root g r v loaded fits hv
          hg hf hw =
        let (slot, found, _, held) = loaded in
        let shape : values name ≡ v = cc in
        leaf-Computes one_more st fn memory is_root limit slot g r v fits.above
          (omega (arith, fits.small))
          (subst (λ w. Held base memory limit slot (Shows w)) shape held)
          (identifier-slot cx is_ready name is_root slot g r found hg)
    gen_expression_term-Computes (literal name t o) memory limit is_root g r v loaded fits hv hg hf
          hw =
        let (slot, found, held) = loaded in
        leaf-Computes one_more st fn memory is_root limit slot g r v fits.above
          (omega (arith, fits.small))
          (record {
            object = held.object;
            below = held.below;
            is_held = held.is_held;
            has = subst (Shows v) (sym held.has) (value_of-kind t o v hv).1;
          })
          (literal-slot cx is_ready name t o is_root slot g r found hg)
    gen_expression_term-Computes (binary_op op l r) memory limit is_root g out v
          (loaded_l, loaded_r) fits hv hg hf hw =
        let (x, y, hx, hy, ha) = meaning-parts values op l r v hv in
        let (t, ht, typed) =
          left_type-kind cx values base op l x
            (get_type-kind cx values base memory limit l x loaded_l hx) in
        elim (Option-cases (choose_opcode op t)) [
          | inl nothing ↦ absurd (apply-chosen op x y v ha (sym typed ∙ nothing))
          | inr (c, chosen) ↦
              let (left, g₁, right, g₂, hl, hr, shape) =
                binary_op-parts cx is_ready op t c l r is_root g out ht chosen hg in
              let hw' : Written f.code (after_operator c left right is_root g g₂).1 =
                subst (λ q. Written f.code q.1) shape hw in
              let (w₁, w₂) = Written-parts c left right r is_root g g₁ g₂ hr hw' in
              let cl =
                gen_expression_term-Computes l memory limit false g (left, g₁) x loaded_l
                  (Fits-left base memory limit (operators l) (operators r) g fits) hx hl hf w₁ in
              let cr =
                gen_expression_term-Computes r cl.after limit false g₁ (right, g₂) y
                  (Loaded-kept cx values base memory cl.after limit r
                    (λ i below.
                      cl.kept i (omega (arith, fits.above, below))
                        (λ e. omega (arith, e, below, fits.above)))
                    loaded_r)
                  (Fits-right fops others fuel st fn f memory limit (operators l) (operators r) g
                    (left, g₁) x cl fits)
                  hy hr hf w₂ in
              subst
                (λ q. Computes one_more st fn memory (operators l + operators r + 1) is_root g q v)
                (sym shape)
                (picked-Computes fops others fuel st fn f memory limit (operators l) (operators r)
                  is_root op c g g₁ g₂ left right x y v cl cr ha (sym typed ∙ chosen) fits hf hw')
        ]
    gen_expression_term-Computes (call_of name mangled arguments) memory limit is_root g r v loaded
          fits hv hg hf hw =
        cc
    gen_expression_term-Computes (message_of process name mangled arguments) memory limit is_root g
          r v loaded fits hv hg hf hw =
        cc
    gen_expression_term-Computes (array_subscript name index) memory limit is_root g r v loaded fits
          hv hg hf hw =
        cc

    -- The code that is written for an expression of variables, literals and operators refines its
    -- meaning. Let the frame hold the values of the variables and the literals below the free
    -- temporaries and have room for the temporaries that the operators take, with numbers that fit in
    -- an operand, and let the expression have a value. Then running exactly the cells that the
    -- generator adds, in a function whose code begins with what it has written, succeeds and ends
    -- behind them; the register that the generator returns shows the value; and a register below the
    -- free temporaries that is not the result's keeps its object. Of the state, only the memory of the
    -- stack and the instruction pointer change.
    pub gen_expression_term-refines :
        (e : Expression) (memory : List Object) (limit : ℕ) (is_root : Bool) (g g' : Generator)
        (slot i : ℕ) (v : Value)
        → Loaded cx values base memory limit e
        → Fits base memory limit (operators e) g
        → meaning values e ≡ some v
        → gen_expression_term cx is_ready e is_root g ≡ ok (slot, g')
        → function_at fn st ≡ ok f
        → Written f.code g'
        → i < g.current_temp
        → i ≢ target_of is_root g
        → (steps : ℕ) × (after : List Object) × (size g' ≡ size g + steps)
          × (run_counted one_more (some (start fn g)) steps (placed (start fn g) memory st)
              ≡ ok (placed (start fn g') after st))
          × Held base after (2 ^ 16) slot (Shows v)
          × (get_elem? after (base + i) ≡ get_elem? memory (base + i))
    gen_expression_term-refines e memory limit is_root g g' slot i v loaded fits hv hg hf hw below
          other =
        let c =
          gen_expression_term-Computes e memory limit is_root g (slot, g') v loaded fits hv hg hf
            hw in
        (
          c.steps,
          c.after,
          c.longer,
          c.runs
              ∙ ap (λ p. ok (placed p c.after st))
                  (start-forth one_more st fn g g' c.steps c.longer),
          c.shown,
          c.kept i below other,
        )
