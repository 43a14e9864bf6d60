-- ===== src/Machine/Messages/Blocks.antt =====
-- What becomes of the when and whenever blocks of src/eople_vm.cpp after they ran.
use eople.Base.{
  ℕ, ◌+◌, ◌≡◌, refl, Bool, true, false, Option, none, some, leb, length, length-set, get_elem?,
  get_elem?-set_self, get_elem?-lt,
}
use eople.Machine.Result.{ok, or_fault, wild_access, check, After, After-bind, After-if, After-ok}
use eople.Machine.Object.{Object, is_true, put_bool}
use eople.Machine.Object.Views.{is_true-put_bool}
use eople.Machine.Stack.{capture_closure}
use eople.Machine.State.{State, WhenBlock, update_return_val, function_at, with_ip, deref, ahead}
use eople.Machine.Loops.{Exec, whenever, parts_of, run_condition, run_body_until}
use eople.Machine.Messages.{after_whenever}

or_fault-some : {A : Type 0} (m : Option A) {a : A} → or_fault wild_access m ≡ ok a → m ≡ some a
or_fault-some none h = cc
or_fault-some (some x) h = cc

-- The C result of a process is set to true.
abbrev pub SaysTrue : State → Type 0
SaysTrue st =
    (r : Object) × (get_elem? st.process.stack.memory st.process.stack.stack_top ≡ some r)
    × (is_true r ≡ true)

update_return_val-SaysTrue : (st : State) → After SaysTrue (update_return_val (put_bool true) st)
unfolding update_return_val
update_return_val-SaysTrue st =
    let memory = st.process.stack.memory in
    let top = st.process.stack.stack_top in
    After-bind SaysTrue (or_fault wild_access (get_elem? memory top)) _ (λ o e. (
      put_bool true o,
      get_elem?-set_self memory top _ (get_elem?-lt memory top (or_fault-some _ e)),
      is_true-put_bool true o,
    ))

abbrev WhenTaken : (State × Bool) → Type 0
WhenTaken (st, taken) = taken ≡ true → SaysTrue st

whenever-SaysTrue : (exec : Exec) (st : State) → After WhenTaken (whenever exec st)
unfolding whenever
whenever-SaysTrue exec st = After-bind WhenTaken (parts_of st) _ (λ (p, st₁) _.
    After-bind WhenTaken (run_condition exec p st₁) _ (λ st₂ _.
      After-bind WhenTaken (deref p.condition st₂) _ (λ condition _.
        After-if WhenTaken (is_true condition) _ _
          (λ _.
            After-bind WhenTaken
              (run_body_until exec p.body_start p.body_count (with_ip p.body_start st₂)) _
              (λ st₃ _.
                After-bind WhenTaken
                  (update_return_val (put_bool true)
                    (with_ip (ahead p.body_count p.body_start) st₃))
                  _ (λ st₄ e _. After-ok SaysTrue _ (update_return_val-SaysTrue _) e)))
          (λ _. λ (q : false ≡ true). absurd (cc)))))

KeptBlock : ℕ → State → (State × ℕ) → Type 0
KeptBlock i st (st', next) =
    (next ≡ i + 1) × (length st'.process.whenever_blocks ≡ length st.process.whenever_blocks)

after_whenever-KeptBlock :
    (count i eval : ℕ) (b : WhenBlock) (st : State)
    → SaysTrue st
    → After (KeptBlock i st) (after_whenever count i eval b st)
unfolding after_whenever KeptBlock
after_whenever-KeptBlock count i eval b st (r, er, holds) =
    After-bind (KeptBlock i st)
      (or_fault wild_access (get_elem? st.process.stack.memory st.process.stack.stack_top)) _
      (λ q eq. After-bind (KeptBlock i st) (function_at eval st) _ (λ f _.
        After-if (KeptBlock i st) (is_true q) _ _
          (λ _.
            After-bind (KeptBlock i st)
              (check (leb (length st.process.whenever_blocks) count) wild_access) _
              (λ _ _.
                After-bind (KeptBlock i st) (capture_closure f st.process.stack) _
                  (λ c _. (refl, length-set st.process.whenever_blocks i _))))
          (λ no. absurd (both r q is_true holds no (same r q er (or_fault-some _ eq))))))
  where
    same : (r q : Object) {m : Option Object} → m ≡ some r → m ≡ some q → r ≡ q
    same r q h g = cc

    both : (r q : Object) (p : Object → Bool) → p r ≡ true → p q ≡ false → r ≡ q → ⊥
    both r q p h g e = cc

-- A whenever block whose condition held, and which therefore ran, always stays with its process,
-- also when its body stopped the loop: the number of blocks does not change and the next block is
-- looked at next.
pub whenever-never_removed :
    (exec : Exec) (count i eval : ℕ) (b : WhenBlock) (st st' st'' : State) (next : ℕ)
    → whenever exec st ≡ ok (st', true)
    → after_whenever count i eval b st' ≡ ok (st'', next)
    → (next ≡ i + 1) × (length st''.process.whenever_blocks ≡ length st'.process.whenever_blocks)
unfolding KeptBlock
whenever-never_removed exec count i eval b st st' st'' next h g =
    After-ok (KeptBlock i st') _
      (after_whenever-KeptBlock count i eval b st'
        (After-ok WhenTaken _ (whenever-SaysTrue exec st) h refl))
      g
