-- ===== src/Machine/Stack/Closures.antt =====
-- `CaptureClosure` and `ApplyClosureState` of inc/eople_core.h.
use eople.Base.{
  inl, inr, ◌⊎◌, ℕ, ◌+◌, ◌-◌, ◌<◌, ◌≤◌, ◌≡◌, refl, ap, ◌∙◌, List, [], ◌∷◌, arith, length, get_elem?,
  length-take, length-drop, drop,
}
use eople.Machine.Result.{ok}
use eople.Machine.Object.{Object}
use eople.Machine.Stack.{
  ProcessStack, Function, ClosureState, capture_closure, apply_closure_state, restore_state,
  closure_count, splice, segment, write_range,
}
use eople.Machine.Stack.Memory.{segment-splice, get_elem?-splice_below, get_elem?-splice_above}

-- Where a function keeps what its closure copies.
abbrev pub closure_start : Function → ProcessStack → ℕ
closure_start f s = s.stack_base + f.parameters_start

module _ (f : Function) (s : ProcessStack) (c : ClosureState) (caught : capture_closure f s ≡ ok c)
    (some_state : 0 < closure_count f) where
  fits : closure_start f s + closure_count f ≤ length s.memory
  unfolding capture_closure
  fits = ground arith

  captured : c ≡ record {
    state = segment (closure_start f s) (closure_count f) s.memory;
    base_offset = s.stack_base;
  }
  unfolding capture_closure
  captured = ground (arith, fits)

  length-state : length c.state ≡ closure_count f
  length-state = rw captured (
      omega (
        arith,
        fits,
        length-take (closure_count f) (drop (closure_start f s) s.memory),
        length-drop (closure_start f s) s.memory,
      ))

  restore_state-eq :
      (at : ℕ) (xs : List Object) (t : ProcessStack)
      → 0 < length xs
      → restore_state at xs t ≡ write_range at xs t
  unfolding restore_state
  restore_state-eq at [] t h = absurd (omega arith)
  restore_state-eq at (x ∷ xs) t h = refl

  applied :
      (t u : ProcessStack)
      → apply_closure_state f c t ≡ ok u
      → (closure_start f s + length c.state ≤ length t.memory)
        × (u.stack_base ≡ s.stack_base)
        × (u.memory ≡ splice (closure_start f s) c.state t.memory)
  unfolding apply_closure_state write_range
  applied t u ran = ground (
    arith,
    captured,
    length-state,
    restore_state-eq (c.base_offset + f.parameters_start) c.state (record t {
      stack_base = c.base_offset;
      stack_top = t.stack_top + c.base_offset - t.stack_base;
      temporaries = t.temporaries + c.base_offset - t.stack_base;
    }),
  )

  outside_kept :
      (t u : ProcessStack) (i : ℕ)
      → apply_closure_state f c t ≡ ok u
      → (i < closure_start f s) ⊎ (closure_start f s + closure_count f ≤ i)
      → get_elem? u.memory i ≡ get_elem? t.memory i
  outside_kept t u i ran (inl lt) =
      let (room, _, written) = applied t u ran in
      rw written (get_elem?-splice_below (closure_start f s) c.state t.memory i room lt)
  outside_kept t u i ran (inr le) =
      let (room, _, written) = applied t u ran in
      rw written (
        get_elem?-splice_above (closure_start f s) c.state t.memory i room
          (omega (arith, length-state)))

  -- A closure that is applied, in whatever state the stack is by then, puts back what was captured:
  -- the parameters, constants and locals of the function are as they were at the capture, at the
  -- same base, and no object outside them is touched.
  pub apply_closure_state-capture :
      (t u : ProcessStack) (i : ℕ)
      → apply_closure_state f c t ≡ ok u
      → (i < closure_start f s) ⊎ (closure_start f s + closure_count f ≤ i)
      → (u.stack_base ≡ s.stack_base)
        × (segment (closure_start f s) (closure_count f) u.memory
            ≡ segment (closure_start f s) (closure_count f) s.memory)
        × (get_elem? u.memory i ≡ get_elem? t.memory i)
  apply_closure_state-capture t u i ran outside =
      let (room, base, written) = applied t u ran in
      (
        base,
        rw (written, ← length-state) (segment-splice (closure_start f s) c.state t.memory room)
            ∙ ap (λ (k : ClosureState). k.state) captured,
        outside_kept t u i ran outside,
      )
