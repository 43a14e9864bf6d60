-- ===== src/Machine/Loops/Counted.antt =====
-- The counted runs of src/eople_control_flow.cpp: bodies that are run by counter and bodies that are
-- run by instruction pointer, and how often `ForI` runs its body.
use eople.Base.{ℕ, suc, ◌+◌, ◌^◌, ◌<◌, ◌≡◌, refl, ap, true, false, Option, some, arith}
use eople.Base.Int.{pos, ◌+ℤ◌, ltb_ℤ}
use eople.Machine.Result.{Result, ok, err, ◌>>=◌}
use eople.Machine.Object.{put_int, in_range}
use eople.Machine.State.{State, CodePtr, advance, ahead}
use eople.Machine.Loops.{Exec, run_cell, run_until, is_at, for_round, for_i_rounds}

pub >>=-cong :
    {A B : Type 0} (m : Result A) (f g : A → Result B)
    → ((a : A) → m ≡ ok a → f a ≡ g a)
    → (m >>= f) ≡ (m >>= g)
>>=-cong (ok a) f g h = h a refl
>>=-cong (err e) f g h = refl

pub is_at-here : (p : CodePtr) → is_at (some p) (some (record p { at = p.at + 0 })) ≡ true
unfolding is_at
is_at-here p = ground arith

pub is_at-later :
    (p : CodePtr) (n : ℕ) → is_at (some p) (some (record p { at = p.at + suc n })) ≡ false
unfolding is_at
is_at-later p n = ground arith

pub advance-ip : (n : ℕ) (st : State) → (advance n st).process.ip ≡ ahead n st.process.ip
unfolding advance
advance-ip n st = refl

pub ahead-ahead : (n : ℕ) (p : CodePtr) → ahead n (ahead 1 (some p)) ≡ ahead (suc n) (some p)
ahead-ahead n p =
    let e : p.at + 1 + n ≡ p.at + suc n = omega arith in ap (λ a. some (record p { at = a })) e

pub run_until-end :
    (exec : Exec) (fuel : ℕ) (end : Option CodePtr) (st : State)
    → is_at st.process.ip end ≡ true
    → run_until exec (suc fuel) end st ≡ ok st
unfolding run_until
run_until-end exec fuel end st h = rw (h, run_until) refl

pub run_until-step :
    (exec : Exec) (fuel : ℕ) (end : Option CodePtr) (st : State)
    → is_at st.process.ip end ≡ false
    → run_until exec (suc fuel) end st
      ≡ (run_cell exec st.process.ip st >>= λ r. run_until exec fuel end (advance 1 r.0))
unfolding run_until
run_until-step exec fuel end st h = rw (h, run_until) refl

pub for_i_rounds-done :
    (exec : Exec) (start_ip end_ip : Option CodePtr) (counter fuel a b : ℕ) (st : State)
    → ltb_ℤ (pos a) (pos b) ≡ false
    → for_i_rounds exec (suc fuel) start_ip end_ip counter (pos a) (pos b) (pos 1) st ≡ ok st
unfolding for_i_rounds
for_i_rounds-done exec start_ip end_ip counter fuel a b st h = rw (h, for_i_rounds) refl

pub plus_one : (a : ℕ) → pos a +ℤ pos 1 ≡ pos (a + 1)
unfolding ◌+ℤ◌
plus_one a = ground arith

pub next_fits : (a b : ℕ) → b < 2 ^ 63 → a < b → in_range (pos a +ℤ pos 1) ≡ true
unfolding in_range ◌+ℤ◌
next_fits a b h l = ground arith

pub for_i_rounds-step :
    (exec : Exec) (start_ip end_ip : Option CodePtr) (counter fuel a b : ℕ) (st : State)
    → ltb_ℤ (pos a) (pos b) ≡ true
    → in_range (pos a +ℤ pos 1) ≡ true
    → for_i_rounds exec (suc fuel) start_ip end_ip counter (pos a) (pos b) (pos 1) st ≡ (
        for_round exec fuel start_ip end_ip counter (put_int (pos a)) st >>= λ st'.
        for_i_rounds exec fuel start_ip end_ip counter (pos (a + 1)) (pos b) (pos 1) st')
unfolding for_i_rounds
for_i_rounds-step exec start_ip end_ip counter fuel a b st h hr =
    rw (h, hr, plus_one a, for_i_rounds) refl
