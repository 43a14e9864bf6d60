-- ===== src/Generator/Growth/Cells.antt =====
-- The parts of a growing generator: constants, single cells and their operands.
use eople.Base.{
  ℕ, ◌≤◌, ◌<◌, ◌≡◌, refl, ◌∙◌, Bool, true, false, List, Option, none, some, length, ltb,
  if◌then◌else◌, length-set, set,
}
use eople.Symbols.{sub64}
use eople.Opcodes.{Opcode}
use eople.Code.{Emitter, push_opcode, push_operands}
use eople.Machine.Result.{Result, ok, err, ◌>>=◌, or_fault, After, assertion}
use eople.Machine.Object.{Object}
use eople.Generator.State.{Context, Generator, bump_error, opcode, emitting, operands}
use eople.Generator.Expressions.{set_stack_object}
use eople.Generator.Growth.{
  Extends, Extends-refl, Extends-trans, push_operands-Extends, opcode-operands-Adds,
}

-- What a part of the generator does with the code, and what it leaves alone.
pub record Grows (n : ℕ) (g g' : Generator) : Type 0 where
  pub code : Extends n g.emitter g'.emitter
  pub temps : g'.first_temp ≡ g.first_temp
  pub pool : length g'.constants ≡ length g.constants

abbrev pub size : Generator → ℕ
size g = length g.emitter.code

pub Grows-refl : (n : ℕ) (g : Generator) → Grows n g g
Grows-refl n g = record { code = Extends-refl n g.emitter; temps = refl; pool = refl }

pub bump-Grows : (n : ℕ) (g : Generator) → Grows n g (bump_error g)
bump-Grows n g = record { code = Extends-refl n g.emitter; temps = refl; pool = refl }

pub Grows-trans : (n : ℕ) (g g' g'' : Generator) → Grows n g g' → Grows n g' g'' → Grows n g g''
Grows-trans n g g' g'' p q = record {
  code = Extends-trans n g.emitter g'.emitter g''.emitter p.code q.code;
  temps = q.temps ∙ p.temps;
  pool = q.pool ∙ p.pool;
}

abbrev pub GrowsPair : ℕ → Generator → ℕ × Generator → Type 0
GrowsPair n g r = Grows n g r.1

pub emitting-Grows :
    (n : ℕ) (f : Emitter → Option Emitter) (g : Generator)
    → ((e' : Emitter) → f g.emitter ≡ some e' → Extends n g.emitter e')
    → After (Grows n g) (emitting f g)
unfolding emitting
emitting-Grows n f g h = go (f g.emitter) h
  where
    go :
        (r : Option Emitter)
        → ((e' : Emitter) → r ≡ some e' → Extends n g.emitter e')
        → After (Grows n g) (or_fault assertion r >>= λ e. ok (record g { emitter = e }))
    go none k = tt
    go (some e') k = record { code = k e' refl; temps = refl; pool = refl }

pub set_stack_object-Grows :
    (cx : Context) (n index : ℕ) (o : Object) (g : Generator)
    → After (Grows n g) (set_stack_object cx index o g)
unfolding set_stack_object
set_stack_object-Grows cx n index o g = go (ltb offset (length g.constants))
  where
    offset : ℕ
    offset = sub64 (sub64 index cx.base_stack_offset) cx.first_constant

    go :
        (t : Bool)
        → After
            (Grows n g)
            (if t then ok (record g { constants = set g.constants offset o }) else err assertion)
    go true = record {
      code = Extends-refl n g.emitter;
      temps = refl;
      pool = length-set g.constants offset o;
    }
    go false = tt

-- A cell with its first operands: the code is longer by it.
abbrev pub GrowsMore : ℕ → Generator → Generator → Type 0
GrowsMore n g g' = Grows n g g' × (size g < size g')

pub cell-GrowsMore :
    (n : ℕ) (op : Opcode) (xs : List ℕ) (g : Generator)
    → n ≤ size g
    → After (GrowsMore n g) (operands xs (opcode op g))
unfolding operands emitting
cell-GrowsMore n op xs g le =
    go (push_operands xs false (push_opcode op g.emitter))
      (λ e' h. opcode-operands-Adds n op xs false g.emitter e' le h)
  where
    go :
        (r : Option Emitter)
        → ((e' : Emitter) → r ≡ some e' → Extends n g.emitter e' × (size g < length e'.code))
        → After
            (GrowsMore n g)
            (or_fault assertion r >>= λ e. ok (record (opcode op g) { emitter = e }))
    go none k = tt
    go (some e') k =
        let (grown, more) = k e' refl in (record { code = grown; temps = refl; pool = refl }, more)

pub operands-Grows :
    (n : ℕ) (xs : List ℕ) (g : Generator) → n < size g → After (Grows n g) (operands xs g)
unfolding operands
operands-Grows n xs g le =
    emitting-Grows n (push_operands xs false) g
      (λ e' h. push_operands-Extends n xs false g.emitter e' le h)

-- What comes after a part that grows the code from `g` to `g₁`.
pub from :
    (n : ℕ) (g g₁ : Generator) (m : Result (ℕ × Generator))
    → Grows n g g₁
    → After (GrowsPair n g₁) m
    → After (GrowsPair n g) m
from n g g₁ (ok r) p q = Grows-trans n g g₁ r.1 p q
from n g g₁ (err e) p q = tt

abbrev pub GrowsList : ℕ → Generator → Option (List ℕ) × Generator → Type 0
GrowsList n g r = Grows n g r.1
