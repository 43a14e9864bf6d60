-- ===== src/Generator/Meaning/Computes.antt =====
-- What the code that `GenExpressionTerm` of src/eople_vmcode_gen.cpp writes computes, when
-- src/eople_control_flow.cpp runs it on the instructions of src/eople_binop.cpp: variables, literals
-- and the cells of operators.
use eople.Base.{
  ℕ, ◌+◌, ◌<◌, ◌≤◌, ◌≡◌, ◌≢◌, ◌^◌, refl, ap, sym, subst, Bool, false, List, arith, length,
  get_elem?,
}
use eople.Machine.Result.{ok}
use eople.Machine.Object.{Object}
use eople.Machine.State.{State, CodePtr}
use eople.Machine.Loops.{Exec, run_counted}
use eople.Generator.State.{Generator}
use eople.Generator.Growth.Cells.{size}
use eople.Generator.Meaning.{Value, Shows, Held}
use eople.Generator.Meaning.Cells.{target_of}
use eople.Generator.Meaning.Runs.{placed, forth, Runs}
use eople.Generator.Meaning.Parts.{Silent}

-- The next cell to write is the next one to run.
abbrev pub start : ℕ → Generator → CodePtr
start fn g = record { fn = fn; at = size g }

module _ (exec : Exec) (st : State) (fn : ℕ) where
  -- What the code between two generators computes, from one memory: the value in the register that
  -- the generator names, and nothing else below the temporaries that were free.
  pub record Computes (memory : List Object) (used : ℕ) (is_root : Bool) (g : Generator)
      (r : ℕ × Generator) (v : Value) : Type 0 where
    pub steps : ℕ
    pub after : List Object
    pub longer : size r.1 ≡ size g + steps
    pub runs : Runs exec st (start fn g) steps memory after
    pub same_size : length after ≡ length memory
    pub shown : Held st.process.stack.stack_base after (2 ^ 16) r.0 (Shows v)
    pub low : is_root ≡ false → r.0 < r.1.current_temp
    pub temps_from : g.current_temp ≤ r.1.current_temp
    pub temps_to : r.1.current_temp ≤ g.current_temp + used
    pub result : r.1.result_index ≡ g.result_index
    pub kept :
        (i : ℕ)
        → i < g.current_temp
        → i ≢ target_of is_root g
        → get_elem? after (st.process.stack.stack_base + i)
          ≡ get_elem? memory (st.process.stack.stack_base + i)

  pub start-forth :
      (g g' : Generator) (n : ℕ) → size g' ≡ size g + n → forth n (start fn g) ≡ start fn g'
  start-forth g g' n h = ap (λ a. record { fn = fn; at = a }) (sym h)

  no_run : (p : CodePtr) (memory : List Object) → Runs exec st p 0 memory memory
  unfolding run_counted
  no_run p memory =
      let e : p.at ≡ p.at + 0 = omega arith in
      ap (λ a. ok (placed (record p { at = a }) memory st)) e

  -- A variable or a literal is where it is, and no code runs.
  pub leaf-Computes :
      (memory : List Object) (is_root : Bool) (limit slot : ℕ) (g : Generator) (r : ℕ × Generator)
      (v : Value)
      → limit ≤ g.current_temp
      → g.current_temp ≤ 2 ^ 16
      → Held st.process.stack.stack_base memory limit slot (Shows v)
      → (r.0 ≡ slot) × Silent g r.1
      → Computes memory 0 is_root g r v
  leaf-Computes memory is_root limit slot g r v room small held (at_slot, silent) =
      let same : size r.1 ≡ size g = ap (λ e. length e.code) silent.emitter in
      record {
        steps = 0;
        after = memory;
        longer = omega (arith, same);
        runs = no_run (start fn g) memory;
        same_size = refl;
        shown =
            subst (λ s. Held st.process.stack.stack_base memory (2 ^ 16) s (Shows v)) (sym at_slot)
              (record {
                object = held.object;
                below = omega (arith, held.below);
                is_held = held.is_held;
                has = held.has;
              });
        low = λ not_root. omega (arith, at_slot, held.below, silent.temps);
        temps_from = omega (arith, silent.temps);
        temps_to = omega (arith, silent.temps);
        result = silent.result;
        kept = λ i below other. refl;
      }

-- The frame at `base` has room for the result and for `n` temporaries, all with numbers that fit in an
-- operand, above the registers below `limit`.
pub record Fits (base : ℕ) (memory : List Object) (limit n : ℕ) (g : Generator) : Type 0 where
  pub above : limit ≤ g.current_temp
  pub small : g.current_temp + n ≤ 2 ^ 16
  pub room : base + (g.current_temp + n) ≤ length memory
  pub result_small : g.result_index < 2 ^ 16
  pub result_room : base + g.result_index < length memory

pub Fits-left :
    (base : ℕ) (memory : List Object) (limit m n : ℕ) (g : Generator)
    → Fits base memory limit (m + n + 1) g
    → Fits base memory limit m g
Fits-left base memory limit m n g fits = record {
  above = fits.above;
  small = omega (arith, fits.small);
  room = omega (arith, fits.room);
  result_small = fits.result_small;
  result_room = fits.result_room;
}
