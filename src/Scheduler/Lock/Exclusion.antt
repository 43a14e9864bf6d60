-- ===== src/Scheduler/Lock/Exclusion.antt =====
-- Mutual exclusion of `AutoTryLock` (inc/eople_vm.h).
use eople.Base.{
  ℕ, zero, suc, ◌+◌, ◌≤◌, ◌≡◌, ◌≢◌, refl, sym, ap, ◌∙◌, ◌==◌, false, List, [], ◌∷◌, some, arith,
  get_elem?, get_elem?-set_ne, get_elem?-set_self, get_elem?-lt, set, replicate, Bool-cases, inl,
  inr,
}
use eople.Scheduler.Lock.{
  Phase, TryLock, free_lock, try_lock, lower, Does, LockStep, tries, backs_off, unlocks, Reachable,
  start, after,
}

-- A phase by whether it has raised the counter, and by whether it has the lock.
abbrev raised : Phase → ℕ
raised Phase.idle = 0
raised Phase.backing_off = 1
raised Phase.holding = 1

abbrev held : Phase → ℕ
held Phase.holding = 1
held _ = 0

-- The sum of a weight over the cores.
unfoldable pub total : (Phase → ℕ) → List Phase → ℕ
total w [] = 0
total w (p ∷ ps) = w p + total w ps

total-set :
    (w : Phase → ℕ) (ps : List Phase) (i : ℕ) (p q : Phase)
    → get_elem? ps i ≡ some p
    → total w (set ps i q) + w p ≡ total w ps + w q
unfolding total
total-set w [] i p q h = cc
total-set w (x ∷ ps) zero p q h = let e : x ≡ p = cc in ground (arith, ap w e)
total-set w (x ∷ ps) (suc i) p q h = ground (arith, total-set w ps i p q h)

total-replicate : (w : Phase → ℕ) (n : ℕ) → w Phase.idle ≡ 0 → total w (replicate n Phase.idle) ≡ 0
unfolding total
total-replicate w zero h = refl
total-replicate w (suc n) h = ground (arith, total-replicate w n h)

-- The counter counts the cores that raised it, and at most one of them has the lock.
record Sound (l : TryLock) : Type 0 where
  counts : l.count ≡ total raised l.cores
  exclusive : total held l.cores ≤ 1
  within : total held l.cores ≤ total raised l.cores

total-held-le : (ps : List Phase) → total held ps ≤ total raised ps
unfolding total
total-held-le [] = omega arith
total-held-le (Phase.idle ∷ ps) = ground (arith, total-held-le ps)
total-held-le (Phase.backing_off ∷ ps) = ground (arith, total-held-le ps)
total-held-le (Phase.holding ∷ ps) = ground (arith, total-held-le ps)

step-Sound : {l l' : TryLock} → Sound l → LockStep l l' → Sound l'
unfolding try_lock lower
step-Sound {l = l} s (tries core h) = elim (Bool-cases (l.count == 0)) [
  | inl free ↦ rw free (record {
    counts = ground (arith, s.counts, total-set raised l.cores core _ Phase.holding h);
    exclusive =
        ground
          (arith, s.counts, s.exclusive, s.within, total-set held l.cores core _ Phase.holding h);
    within = total-held-le _;
  })
  | inr busy ↦ rw busy (record {
    counts = ground (arith, s.counts, total-set raised l.cores core _ Phase.backing_off h);
    exclusive =
        ground (
          arith,
          s.counts,
          s.exclusive,
          s.within,
          total-set held l.cores core _ Phase.backing_off h,
        );
    within = total-held-le _;
  })
]
step-Sound {l = l} s (backs_off core h) = record {
  counts = ground (arith, s.counts, total-set raised l.cores core _ Phase.idle h);
  exclusive = ground (arith, s.exclusive, total-set held l.cores core _ Phase.idle h);
  within = total-held-le _;
}
step-Sound {l = l} s (unlocks core h) = record {
  counts = ground (arith, s.counts, total-set raised l.cores core _ Phase.idle h);
  exclusive = ground (arith, s.exclusive, total-set held l.cores core _ Phase.idle h);
  within = total-held-le _;
}

replicate-Sound : (n : ℕ) → Sound (free_lock n)
unfolding free_lock
replicate-Sound n = record {
  counts = sym (total-replicate raised n refl);
  exclusive = ground (arith, total-replicate held n refl);
  within = total-held-le _;
}

Reachable-Sound : (n : ℕ) {l : TryLock} → Reachable n l → Sound l
Reachable-Sound n start = replicate-Sound n
Reachable-Sound n (after r s) = step-Sound (Reachable-Sound n r) s

total-member :
    (w : Phase → ℕ) (ps : List Phase) (i : ℕ) (p : Phase)
    → get_elem? ps i ≡ some p
    → w p ≤ total w ps
unfolding total
total-member w [] i p h = cc
total-member w (x ∷ ps) zero p h = let e : x ≡ p = cc in ground (arith, ap w e)
total-member w (x ∷ ps) (suc i) p h = ground (arith, total-member w ps i p h)

two_holders :
    (l : TryLock) (i j : ℕ) → Sound l → Does l i Phase.holding → Does l j Phase.holding → i ≢ j → ⊥
two_holders l i j s hi hj ne =
    let other : get_elem? (set l.cores i Phase.idle) j ≡ some Phase.holding =
      get_elem?-set_ne l.cores Phase.idle ne ∙ hj in
    ground (
      arith,
      s.exclusive,
      total-set held l.cores i Phase.holding Phase.idle hi,
      total-member held (set l.cores i Phase.idle) j Phase.holding other,
    )

apart : (i j : ℕ) → (i == j) ≡ false → i ≢ j
apart i j h e = ground arith

-- However the cores' operations on a lock interleave, two cores never have it at once.
pub mutual_exclusion :
    (n : ℕ) (l : TryLock) (i j : ℕ)
    → Reachable n l
    → Does l i Phase.holding
    → Does l j Phase.holding
    → i ≡ j
mutual_exclusion n l i j r hi hj = elim (Bool-cases (i == j)) [
  | inl same ↦ ground arith
  | inr differ ↦ absurd (two_holders l i j (Reachable-Sound n r) hi hj (apart i j differ))
]

all_idle :
    (ps : List Phase)
    → ((i : ℕ) (p : Phase) → get_elem? ps i ≡ some p → p ≡ Phase.idle)
    → total raised ps ≡ 0
unfolding total
all_idle [] h = refl
all_idle (p ∷ ps) h = ground (arith, ap raised (h 0 p refl), all_idle ps (λ i q e. h (suc i) q e))

-- After any interleaving that leaves no core holding the lock or backing off, the next core to try
-- gets it: failed attempts leave nothing behind in the counter.
pub try_lock-gets :
    (n : ℕ) (l : TryLock) (core : ℕ)
    → Reachable n l
    → ((i : ℕ) (p : Phase) → Does l i p → p ≡ Phase.idle)
    → Does l core Phase.idle
    → Does (try_lock core l) core Phase.holding
unfolding try_lock
try_lock-gets n l core r idle h =
    let free : l.count ≡ 0 = (Reachable-Sound n r).counts ∙ all_idle l.cores idle in
    ground
      (arith, free, get_elem?-set_self l.cores core Phase.holding (get_elem?-lt l.cores core h))
