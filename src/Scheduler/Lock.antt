-- ===== src/Scheduler/Lock.antt =====
-- `AutoTryLock` of inc/eople_vm.h: one atomic counter, and what each core is doing with it. A core
-- that finds the counter above zero has raised it already, and lowers it again in a step of its
-- own. The counter never exceeds the number of cores, so an `int` holds it.
pub mod Exclusion
use eople.Base.{
  ℕ, zero, suc, ◌+◌, ◌-◌, ◌≡◌, ◌==◌, Bool, true, false, if◌then◌else◌, List, Option, some,
  get_elem?, set, replicate,
}

pub data Phase : Type 0 where
  idle backing_off holding : Phase

pub record TryLock : Type 0 where
  pub count : ℕ
  pub cores : List Phase

-- No core has the lock.
unfoldable pub free_lock : ℕ → TryLock
free_lock n = record { count = 0; cores = replicate n Phase.idle }

-- `got_lock` after `fetch_add( 1 )`, in the constructor and in `try_again`.
unfoldable pub try_lock : ℕ → TryLock → TryLock
try_lock core l = record {
  count = l.count + 1;
  cores = set l.cores core (if l.count == 0 then Phase.holding else Phase.backing_off);
}

-- `--try_lock`, after a failed attempt and in `unlock`.
unfoldable pub lower : ℕ → TryLock → TryLock
lower core l = record { count = l.count - 1; cores = set l.cores core Phase.idle }

abbrev pub Does : TryLock → ℕ → Phase → Type 0
Does l core phase = get_elem? l.cores core ≡ some phase

-- One atomic operation of one core.
pub data LockStep : TryLock → TryLock → Type 0 where
  tries : (core : ℕ) {l : TryLock} → Does l core Phase.idle → LockStep l (try_lock core l)
  backs_off : (core : ℕ) {l : TryLock} → Does l core Phase.backing_off → LockStep l (lower core l)
  unlocks : (core : ℕ) {l : TryLock} → Does l core Phase.holding → LockStep l (lower core l)

-- Any number of operations, in any order of the cores.
pub data Reachable (n : ℕ) : TryLock → Type 0 where
  start : Reachable n (free_lock n)
  after : {l l' : TryLock} → Reachable n l → LockStep l l' → Reachable n l'
