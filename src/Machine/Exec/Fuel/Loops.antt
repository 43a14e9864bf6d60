-- ===== src/Machine/Exec/Fuel/Loops.antt =====
-- The instructions of src/eople_control_flow.cpp that run other code, with more fuel.
use eople.Base.{ℕ, zero, suc, refl, Option, if◌then◌else◌}
use eople.Base.Int.{ℤ, pos, ◌+ℤ◌, ltb_ℤ, leb_ℤ}
use eople.Machine.Result.{or_fault, check, null_pointer, overflow}
use eople.Machine.Object.{Object, int_val, is_true, put_int, put_word, in_range}
use eople.Machine.Binop.{FloatOps}
use eople.Machine.State.{
  State, CodePtr, operand, operand_index, update_at, code_at, ahead, advance, with_ip, deref,
}
use eople.Machine.Loops.{
  Exec, run_cell, run_counted, run_until, is_at, Parts, parts_of, run_condition, run_body,
  while_rounds, while, when, run_body_until, whenever, for_round, for_i_rounds, for_i, for_f_rounds,
  for_f,
}
use eople.Machine.Exec.Fuel.Order.{
  Below, Below-refl, Below-bind, Below-same, Below-if, Below-elim, BelowExec,
}

module _ (e e' : Exec) (h : BelowExec e e') where
  pub run_cell-Below :
      (p : Option CodePtr) (st : State) → Below (run_cell e p st) (run_cell e' p st)
  unfolding run_cell
  run_cell-Below p st =
      Below-same (code_at p st) _ _
        (λ cell. Below-same (or_fault null_pointer cell.instruction) _ _ (λ impl. h impl st))

  pub run_counted-Below :
      (start : Option CodePtr) (n : ℕ) (st : State)
      → Below (run_counted e start n st) (run_counted e' start n st)
  unfolding run_counted
  run_counted-Below start zero st = refl
  run_counted-Below start (suc n) st =
      Below-bind (run_cell e start st) (run_cell e' start st) _ _ (run_cell-Below start st)
        (λ (st', _). run_counted-Below (ahead 1 start) n (advance 1 st'))

  pub run_until-Below :
      (fuel : ℕ) (end : Option CodePtr) (st : State)
      → Below (run_until e fuel end st) (run_until e' (suc fuel) end st)
  unfolding run_until
  run_until-Below zero end st = tt
  run_until-Below (suc fuel) end st = Below-elim (is_at st.process.ip end) _ _ _ _ refl (
      Below-bind (run_cell e st.process.ip st) (run_cell e' st.process.ip st) _ _
        (run_cell-Below st.process.ip st) (λ (st', _). run_until-Below fuel end (advance 1 st')))

  run_body-Below : (p : Parts) (st : State) → Below (run_body e p st) (run_body e' p st)
  unfolding run_body
  run_body-Below p st = run_counted-Below p.body_start p.body_count (with_ip p.body_start st)

  run_condition-Below :
      (p : Parts) (st : State) → Below (run_condition e p st) (run_condition e' p st)
  unfolding run_condition
  run_condition-Below p st = run_counted-Below p.condition_start p.condition_count st

  while_rounds-Below :
      (fuel : ℕ) (p : Parts) (st : State)
      → Below (while_rounds e fuel p st) (while_rounds e' (suc fuel) p st)
  unfolding while_rounds
  while_rounds-Below zero p st = tt
  while_rounds-Below (suc fuel) p st = Below-same (deref p.condition st) _ _ (λ condition.
      Below-elim (is_true condition) _ _ _ _
        (Below-bind (run_body e p st) (run_body e' p st) _ _ (run_body-Below p st) (λ st₁.
          Below-bind (run_condition e p (with_ip p.condition_start st₁))
            (run_condition e' p (with_ip p.condition_start st₁)) _ _
            (run_condition-Below p (with_ip p.condition_start st₁))
            (λ st₂. while_rounds-Below fuel p st₂)))
        refl)

  pub while-Below : (fuel : ℕ) (st : State) → Below (while e fuel st) (while e' (suc fuel) st)
  unfolding while
  while-Below fuel st = Below-same (parts_of st) _ _ (λ (p, st₁).
      Below-bind (run_condition e p st₁) (run_condition e' p st₁) _ _ (run_condition-Below p st₁)
        (λ st₂.
          Below-bind (while_rounds e fuel p st₂) (while_rounds e' (suc fuel) p st₂) _ _
            (while_rounds-Below fuel p st₂) (λ st₃. refl)))

  pub when-Below : (st : State) → Below (when e st) (when e' st)
  unfolding when
  when-Below st = Below-same (parts_of st) _ _ (λ (p, st₁).
      Below-bind (run_condition e p st₁) (run_condition e' p st₁) _ _ (run_condition-Below p st₁)
        (λ st₂. Below-same (deref p.condition st₂) _ _ (λ condition.
          Below-if (is_true condition) _ _ _ _
            (Below-bind (run_body e p st₂) (run_body e' p st₂) _ _ (run_body-Below p st₂)
              (λ st₃. refl))
            refl)))

  run_body_until-Below :
      (start : Option CodePtr) (n : ℕ) (st : State)
      → Below (run_body_until e start n st) (run_body_until e' start n st)
  unfolding run_body_until
  run_body_until-Below start zero st = refl
  run_body_until-Below start (suc n) st =
      Below-bind (run_cell e start st) (run_cell e' start st) _ _ (run_cell-Below start st)
        (λ (st', more).
          Below-elim more _ _ _ _ (run_body_until-Below (ahead 1 start) n (advance 1 st'))
            (Below-refl _))

  pub whenever-Below : (st : State) → Below (whenever e st) (whenever e' st)
  unfolding whenever
  whenever-Below st = Below-same (parts_of st) _ _ (λ (p, st₁).
      Below-bind (run_condition e p st₁) (run_condition e' p st₁) _ _ (run_condition-Below p st₁)
        (λ st₂. Below-same (deref p.condition st₂) _ _ (λ condition.
          Below-if (is_true condition) _ _ _ _
            (Below-bind (run_body_until e p.body_start p.body_count (with_ip p.body_start st₂))
              (run_body_until e' p.body_start p.body_count (with_ip p.body_start st₂)) _ _
              (run_body_until-Below p.body_start p.body_count (with_ip p.body_start st₂))
              (λ st₃. Below-refl _))
            refl)))

  for_round-Below :
      (fuel : ℕ) (start_ip end_ip : Option CodePtr) (counter : ℕ) (g : Object → Object) (st : State)
      → Below
          (for_round e fuel start_ip end_ip counter g st)
          (for_round e' (suc fuel) start_ip end_ip counter g st)
  unfolding for_round
  for_round-Below fuel start_ip end_ip counter g st =
      Below-same (update_at counter g st) _ _
        (λ st'. run_until-Below fuel end_ip (with_ip start_ip st'))

  for_i_rounds-Below :
      (fuel : ℕ) (start_ip end_ip : Option CodePtr) (counter : ℕ) (i stop step : ℤ) (st : State)
      → Below
          (for_i_rounds e fuel start_ip end_ip counter i stop step st)
          (for_i_rounds e' (suc fuel) start_ip end_ip counter i stop step st)
  unfolding for_i_rounds
  for_i_rounds-Below zero start_ip end_ip counter i stop step st = tt
  for_i_rounds-Below (suc fuel) start_ip end_ip counter i stop step st =
      Below-elim (if leb_ℤ (pos 0) step then ltb_ℤ i stop else ltb_ℤ stop i) _ _ _ _
        (Below-bind (for_round e fuel start_ip end_ip counter (put_int i) st)
          (for_round e' (suc fuel) start_ip end_ip counter (put_int i) st) _ _
          (for_round-Below fuel start_ip end_ip counter (put_int i) st)
          (λ st'.
            Below-same (check (in_range (i +ℤ step)) overflow) _ _
              (λ _. for_i_rounds-Below fuel start_ip end_ip counter (i +ℤ step) stop step st')))
        refl

  pub for_i-Below : (fuel : ℕ) (st : State) → Below (for_i e fuel st) (for_i e' (suc fuel) st)
  unfolding for_i
  for_i-Below fuel st = Below-same (operand 0 st) _ _ (λ start.
      Below-same (operand_index 0 st) _ _ (λ counter. Below-same (operand 1 st) _ _ (λ stop.
        Below-same (operand 2 st) _ _ (λ step. Below-same (operand_index 3 st) _ _ (λ i_count.
          Below-bind
            (for_i_rounds e fuel (ahead 1 st.process.ip) (ahead i_count (ahead 1 st.process.ip))
              counter (int_val start) (int_val stop) (int_val step) st)
            (for_i_rounds e' (suc fuel) (ahead 1 st.process.ip)
              (ahead i_count (ahead 1 st.process.ip)) counter (int_val start) (int_val stop)
              (int_val step) st)
            _ _
            (for_i_rounds-Below fuel _ _ counter (int_val start) (int_val stop) (int_val step) st)
            (λ st'. refl))))))

  for_f_rounds-Below :
      (fops : FloatOps) (fuel : ℕ) (start_ip end_ip : Option CodePtr) (counter i stop step : ℕ)
      (st : State)
      → Below
          (for_f_rounds e fops fuel start_ip end_ip counter i stop step st)
          (for_f_rounds e' fops (suc fuel) start_ip end_ip counter i stop step st)
  unfolding for_f_rounds
  for_f_rounds-Below fops zero start_ip end_ip counter i stop step st = tt
  for_f_rounds-Below fops (suc fuel) start_ip end_ip counter i stop step st =
      Below-elim (if fops.less_equal 0 step then fops.less i stop else fops.less stop i) _ _ _ _
        (Below-bind (for_round e fuel start_ip end_ip counter (put_word i) st)
          (for_round e' (suc fuel) start_ip end_ip counter (put_word i) st) _ _
          (for_round-Below fuel start_ip end_ip counter (put_word i) st)
          (λ st'.
            for_f_rounds-Below fops fuel start_ip end_ip counter (fops.add i step) stop step st'))
        refl

  pub for_f-Below :
      (fops : FloatOps) (fuel : ℕ) (st : State)
      → Below (for_f e fops fuel st) (for_f e' fops (suc fuel) st)
  unfolding for_f
  for_f-Below fops fuel st = Below-same (operand 0 st) _ _ (λ start.
      Below-same (operand_index 0 st) _ _ (λ counter. Below-same (operand 1 st) _ _ (λ stop.
        Below-same (operand 2 st) _ _ (λ step. Below-same (operand_index 3 st) _ _ (λ i_count.
          Below-bind
            (for_f_rounds e fops fuel (ahead 1 st.process.ip)
              (ahead i_count (ahead 1 st.process.ip)) counter start.word stop.word step.word st)
            (for_f_rounds e' fops (suc fuel) (ahead 1 st.process.ip)
              (ahead i_count (ahead 1 st.process.ip)) counter start.word stop.word step.word st)
            _ _ (for_f_rounds-Below fops fuel _ _ counter start.word stop.word step.word st)
            (λ st'. refl))))))
