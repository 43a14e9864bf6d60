-- ===== src/Machine/Exec/Visits.antt =====
-- How often `ForI` of src/eople_control_flow.cpp runs a body of straight cells, and for which values
-- of its counter.
use eople.Base.{ℕ, zero, suc, ◌+◌, ◌-◌, ◌^◌, ◌<◌, ◌≡◌, refl, sym, ap, ◌∙◌, true, some, arith}
use eople.Base.Int.{pos, ◌+ℤ◌, ltb_ℤ}
use eople.Machine.Result.{Result, ok, err, ◌>>=◌}
use eople.Machine.Object.{Object, put_int, int_val, in_range}
use eople.Machine.State.{State, CodePtr, ahead, operand, operand_index, update_at, with_ip}
use eople.Machine.Binop.{FloatOps}
use eople.Machine.Loops.{Exec, run_counted, for_round, for_i_rounds, for_i, before}
use eople.Machine.Loops.Counted.{>>=-cong, for_i_rounds-done, for_i_rounds-step, next_fits}
use eople.Opcodes.{Instruction, instruction}
use eople.Machine.Binop.Table.{operation}
use eople.Machine.Exec.{execute, perform, simple, nested}
use eople.Machine.Exec.Straight.{
  Straight, Straight-same, update_at-SamePlace, run_counted-run_until, run_counted-functions,
}

-- The plain reading of `for i = a to b`: the body of `n` cells for each of `count` values of the
-- counter, from `i` up, the counter written before each.
unfoldable pub visit_all : Exec → CodePtr → ℕ → ℕ → ℕ → ℕ → State → Result State
unfolding run_counted
visit_all exec p n counter zero i st = ok st
visit_all exec p n counter (suc count) i st = do
  st₁ ← update_at counter (put_int (pos i)) st
  st₂ ← run_counted exec (some p) n (with_ip (some p) st₁)
  visit_all exec p n counter count (i + 1) st₂

>>=-assoc :
    {A B C : Type 0} (m : Result A) (f : A → Result B) (g : B → Result C)
    → ((m >>= f) >>= g) ≡ (m >>= λ a. f a >>= g)
>>=-assoc (ok a) f g = refl
>>=-assoc (err e) f g = refl

module _ (fops : FloatOps) (others : Exec) (fuel : ℕ) (p : CodePtr) (n counter : ℕ) where
  -- One round, by the instruction pointer and by a counter.
  round-counted :
      (limit i : ℕ) (st : State)
      → n < limit
      → Straight fops n p st
      → for_round
          (execute fops others fuel)
          limit
          (some p)
          (ahead n (some p))
          counter
          (put_int (pos i))
          st
        ≡ (update_at counter (put_int (pos i)) st >>= λ st₁.
            run_counted (execute fops others fuel) (some p) n (with_ip (some p) st₁))
  unfolding for_round
  round-counted limit i st l straight =
      >>=-cong (update_at counter (put_int (pos i)) st) _ _ (λ st₁ e.
        let (_, program) = update_at-SamePlace counter (put_int (pos i)) st st₁ e in
        sym (
          run_counted-run_until fops others fuel n limit p (with_ip (some p) st₁) l
            (Straight-same fops n p st (with_ip (some p) st₁) program straight) refl))

  -- The loop of `ForI` from `a` up to a bound `b` that is an `i64`, with a step of 1.
  rounds-visit_all :
      (count limit a b : ℕ) (st : State)
      → n + count < limit
      → Straight fops n p st
      → b < 2 ^ 63
      → count ≡ b - a
      → for_i_rounds
          (execute fops others fuel)
          limit
          (some p)
          (ahead n (some p))
          counter
          (pos a)
          (pos b)
          (pos 1)
          st
        ≡ visit_all (execute fops others fuel) p n counter count a st
  unfolding visit_all
  rounds-visit_all count zero a b st l straight hb e = absurd (omega arith)
  rounds-visit_all zero (suc limit) a b st l straight hb e =
      for_i_rounds-done (execute fops others fuel) (some p) (ahead n (some p)) counter limit a b st
        (ground arith)
  rounds-visit_all (suc count) (suc limit) a b st l straight hb e =
      let exec : Exec = execute fops others fuel in
      let end = ahead n (some p) in
      let more : ltb_ℤ (pos a) (pos b) ≡ true = ground arith in
      let fits : in_range (pos a +ℤ pos 1) ≡ true = next_fits a b hb (ground arith) in
      let again : State → Result State =
        λ st'. for_i_rounds exec limit (some p) end counter (pos (a + 1)) (pos b) (pos 1) st' in
      for_i_rounds-step exec (some p) end counter limit a b st more fits
      ∙ ap (λ m. m >>= again) (round-counted limit a st (omega arith) straight)
      ∙ >>=-assoc (update_at counter (put_int (pos a)) st) _ again
      ∙ >>=-cong (update_at counter (put_int (pos a)) st) _ _ (λ st₁ e₁.
        >>=-cong (run_counted exec (some p) n (with_ip (some p) st₁)) _ _ (λ st₂ e₂.
          let (_, first) = update_at-SamePlace counter (put_int (pos a)) st st₁ e₁ in
          let straight₁ = Straight-same fops n p st (with_ip (some p) st₁) first straight in
          let later =
            run_counted-functions fops others fuel n p (with_ip (some p) st₁) st₂ straight₁ e₂ in
          rounds-visit_all count limit (a + 1) b st₂ (omega arith)
            (Straight-same fops n p (with_ip (some p) st₁) st₂ later straight₁) hb (ground arith)))

-- The instruction `ForI` with bounds from 0 up, a step of 1 and a body of arithmetic, comparisons,
-- bit operations and stores, on fuel above the cells of the body and the rounds together: it comes
-- to what running the body for a, a + 1, …, b - 1 in this order comes to, a fault of the body
-- included, never runs out of the fuel of its own loop, and goes on behind the body.
pub for_i-visit_all :
    (fops : FloatOps) (others : Exec) (fuel : ℕ) (start p : CodePtr) (n counter a b : ℕ)
    (first last step : Object) (st : State)
    → st.process.ip ≡ some start
    → p ≡ record start { at = start.at + 1 }
    → operand 0 st ≡ ok first
    → operand_index 0 st ≡ ok counter
    → operand 1 st ≡ ok last
    → operand 2 st ≡ ok step
    → operand_index 3 st ≡ ok n
    → int_val first ≡ pos a
    → int_val last ≡ pos b
    → int_val step ≡ pos 1
    → b < 2 ^ 63
    → Straight fops n p st
    → n + (b - a) < fuel
    → execute fops others (suc fuel) (instruction Instruction.for_i) st ≡ (
        visit_all (execute fops others fuel) p n counter (b - a) a st >>= λ st'.
        ok (with_ip (ahead n (some start)) st', true))
unfolding for_i execute perform simple operation nested
for_i-visit_all fops others fuel start p n counter a b first last step st hip hp h0 hc h1 h2 h3 ea
      eb es hb straight l =
    let start_ip : ahead 1 st.process.ip ≡ some p = ap (ahead 1) hip ∙ ap some (sym hp) in
    let here =
      rounds-visit_all fops others fuel p n counter (b - a) fuel a b st l straight hb refl in
    rw (h0, hc, h1, h2, h3, ea, eb, es, start_ip, here)
      (ap
        (λ q. visit_all (execute fops others fuel) p n counter (b - a) a st >>= λ st'.
          ok (with_ip (before (execute fops others fuel) n q) st', true))
        hip)
