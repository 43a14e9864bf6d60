-- ===== src/Machine/Calls/Operands.antt =====
-- The arguments that `CopyMessageArgs` of src/eople_control_flow.cpp takes from the code, against
-- what the code holds for a call.
use eople.Base.{
  ℕ, zero, suc, ◌+◌, ◌*◌, ◌<◌, ◌≤◌, ◌≡◌, refl, sym, ap, ◌∙◌, true, false, List, [], ◌∷◌, Option,
  none, some, arith, ◌==◌, Bool-cases, inl, inr,
}
use eople.Code.{VmCode, operand_at, read_arguments}
use eople.Machine.Result.{Result, ok, err, ◌>>=◌}
use eople.Machine.Object.{Object}
use eople.Machine.Stack.{get_object_at_offset}
use eople.Machine.State.{State, CodePtr, operand, current, advance, ahead, with_ip}
use eople.Machine.Flow.{copy_message_args}
use eople.Machine.Calls.Cells.{cells_from-cons, operand-current}
use eople.Machine.Calls.{cells_from}

-- The objects of the active frame at some offsets.
unfoldable pub load_all : List ℕ → State → Result (List Object)
load_all [] st = ok []
load_all (offset ∷ offsets) st = do
  a ← get_object_at_offset offset st.process.stack
  rest ← load_all offsets st
  ok (a ∷ rest)

load_all-advance :
    (offsets : List ℕ) (st : State) → load_all offsets (advance 1 st) ≡ load_all offsets st
unfolding load_all advance
load_all-advance [] st = refl
load_all-advance (offset ∷ offsets) st = rw (load_all-advance offsets st) refl

-- The arguments, and the state with the instruction pointer on the last cell that was read.
unfoldable pub Copied : ℕ → State → List ℕ → ℕ → ℕ → Type 0
Copied fuel st operands k n =
    (m : ℕ) × (copy_message_args fuel k n st
      ≡ (load_all operands st >>= λ args. ok (advance m st, args)))

none_left : (k n : ℕ) {operands : List ℕ} → read_arguments k (suc n) [] ≡ some operands → ⊥
unfolding read_arguments
none_left k n h = cc

advance-none : (st : State) → advance 0 st ≡ st
unfolding advance
advance-none st = ap (λ ip. with_ip ip st) (go st.process.ip)
  where
    go : (p : Option CodePtr) → ahead 0 p ≡ p
    go none = refl
    go (some p) = ap (λ a. some (record p { at = a })) (omega arith)

copy-moves :
    (fuel k n : ℕ) (st : State)
    → (k == 4) ≡ true
    → copy_message_args (suc fuel) k (suc n) st ≡ copy_message_args fuel 0 (suc n) (advance 1 st)
unfolding copy_message_args
copy-moves fuel k n st h = rw (h, copy_message_args) refl

copy-reads :
    (fuel k n : ℕ) (st : State)
    → (k == 4) ≡ false
    → copy_message_args (suc fuel) k (suc n) st
      ≡ (operand k st >>= λ a. copy_message_args fuel (k + 1) n st >>= λ r. ok (r.0, a ∷ r.1))
unfolding copy_message_args
copy-reads fuel k n st h = rw (h, copy_message_args) refl

read-moves :
    (k n : ℕ) (cell : VmCode) (cells : List VmCode) (operands : List ℕ)
    → (k == 4) ≡ true
    → read_arguments k (suc n) (cell ∷ cells) ≡ some operands
    → read_arguments 0 (suc n) cells ≡ some operands
unfolding read_arguments
read-moves k n cell cells operands h r = rw (h, read_arguments) at r

read-reads :
    (k n : ℕ) (cell : VmCode) (cells : List VmCode) (operands : List ℕ)
    → (k == 4) ≡ false
    → read_arguments k (suc n) (cell ∷ cells) ≡ some operands
    → (rest : List ℕ) × (read_arguments (k + 1) n (cell ∷ cells) ≡ some rest)
      × (operands ≡ operand_at k cell ∷ rest)
unfolding read_arguments
read-reads k n cell cells operands h r = ground arith

advance-advance : (m : ℕ) (st : State) → advance m (advance 1 st) ≡ advance (1 + m) st
unfolding advance
advance-advance m st = ap (λ ip. with_ip ip st) (go st.process.ip)
  where
    go : (p : Option CodePtr) → ahead m (ahead 1 p) ≡ ahead (1 + m) p
    go none = refl
    go (some p) = ap (λ a. some (record p { at = a })) (omega arith)

>>=-ap :
    {A B : Type 0} (m : Result A) (f g : A → Result B)
    → ((a : A) → f a ≡ g a)
    → (m >>= f) ≡ (m >>= g)
>>=-ap (ok a) f g h = h a
>>=-ap (err e) f g h = refl

abbrev pub Loaded : State → List Object → Result (State × List Object)
Loaded st args = ok (st, args)

abbrev cons_arg : Object → State × List Object → Result (State × List Object)
cons_arg a r = ok (r.0, a ∷ r.1)

-- An argument in front of the others, through the two chains.
prefixed :
    (m : Result Object) (l : Result (List Object)) (st : State)
    → (m >>= λ a. (l >>= Loaded st) >>= cons_arg a)
      ≡ ((m >>= λ a. l >>= λ rest. ok (a ∷ rest)) >>= Loaded st)
prefixed (ok a) (ok args) st = refl
prefixed (ok a) (err e) st = refl
prefixed (err e) l st = refl

full_case :
    (fuel k n m : ℕ) (st : State) (operands : List ℕ)
    → (k == 4) ≡ true
    → copy_message_args fuel 0 (suc n) (advance 1 st)
      ≡ (load_all operands (advance 1 st) >>= Loaded (advance m (advance 1 st)))
    → copy_message_args (suc fuel) k (suc n) st
      ≡ (load_all operands st >>= Loaded (advance (1 + m) st))
full_case fuel k n m st operands full e =
    copy-moves fuel k n st full
    ∙ e
    ∙ ap (λ l. l >>= Loaded (advance m (advance 1 st))) (load_all-advance operands st)
    ∙ ap (λ t. load_all operands st >>= Loaded t) (advance-advance m st)

load_all-cons :
    (k : ℕ) (st : State) (cell : VmCode) (others : List ℕ)
    → current st ≡ ok cell
    → load_all (operand_at k cell ∷ others) st
      ≡ (operand k st >>= λ a. load_all others st >>= λ rest. ok (a ∷ rest))
unfolding load_all
load_all-cons k st cell others h =
    ap (λ m. m >>= λ a. load_all others st >>= λ rest. ok (a ∷ rest)) (sym (operand-current k st h))

room_case :
    (fuel k n m : ℕ) (st : State) (cell : VmCode) (operands others : List ℕ)
    → (k == 4) ≡ false
    → current st ≡ ok cell
    → operands ≡ operand_at k cell ∷ others
    → copy_message_args fuel (k + 1) n st ≡ (load_all others st >>= Loaded (advance m st))
    → copy_message_args (suc fuel) k (suc n) st ≡ (load_all operands st >>= Loaded (advance m st))
room_case fuel k n m st cell operands others room here eo e =
    copy-reads fuel k n st room
    ∙ ap (λ c. operand k st >>= λ a. c >>= cons_arg a) e
    ∙ prefixed (operand k st) (load_all others st) (advance m st)
    ∙ ap (λ l. l >>= Loaded (advance m st)) (sym (load_all-cons k st cell others here))
    ∙ ap (λ os. load_all os st >>= Loaded (advance m st)) (sym eo)

no_more :
    (k : ℕ) (cells : List VmCode) (operands : List ℕ)
    → read_arguments k 0 cells ≡ some operands
    → operands ≡ []
unfolding read_arguments
no_more k cells operands h = ground arith

none_case :
    (fuel k : ℕ) (st : State) (operands : List ℕ)
    → operands ≡ []
    → copy_message_args (suc fuel) k zero st ≡ (load_all operands st >>= Loaded (advance 0 st))
unfolding copy_message_args load_all
none_case fuel k st operands e = rw e (ap (λ s. ok (s, [])) (sym (advance-none st)))

pub copy-Copied :
    (fuel k n : ℕ) (st : State) (cells : List VmCode) (operands : List ℕ)
    → cells_from st.process.ip st ≡ ok cells
    → read_arguments k n cells ≡ some operands
    → k ≤ 4
    → 0 < fuel
    → 5 * n + k ≤ 4 * fuel
    → Copied fuel st operands k n
unfolding Copied
copy-Copied zero k n st cells operands hc hr hk hf hm = absurd (omega arith)
copy-Copied (suc fuel) k zero st cells operands hc hr hk hf hm =
    (0, none_case fuel k st operands (no_more k cells operands hr))
copy-Copied (suc fuel) k (suc n) st [] operands hc hr hk hf hm = absurd (none_left k n hr)
copy-Copied (suc fuel) k (suc n) st (cell ∷ cells) operands hc hr hk hf hm =
    elim (Bool-cases (k == 4)) [
      | inl full ↦
          let (_, rest) = cells_from-cons st hc in
          let (m, e) =
            copy-Copied fuel 0 (suc n) (advance 1 st) cells operands rest
              (read-moves k n cell cells operands full hr) (omega arith) (ground arith)
              (ground arith) in
          (1 + m, full_case fuel k n m st operands full e)
      | inr room ↦
          let (others, er, eo) = read-reads k n cell cells operands room hr in
          let (m, e) =
            copy-Copied fuel (k + 1) n st (cell ∷ cells) others hc er (ground arith) (ground arith)
              (ground arith) in
          (m, room_case fuel k n m st cell operands others room (cells_from-cons st hc).0 eo e)
    ]
