-- ===== src/Prelude/Flow.antt =====
-- A Go function body with early returns over a mutable state: `ret` leaves the function with its
-- result, `next` goes on to the following statement, and `blocked` never comes back: it waits for ever on
-- a mutex that the same goroutine holds, or panics on a nil pointer.
pub mod Triple
pub mod Partial
use mathlib.Core.Bool.{Bool}
use mathlib.Core.Option.{Option, none, some}
use open_rgs_go.Prelude.Tests.{if◌then◌else◌}

pub data Flow (R A : Type 0) : Type 0 where
  ret : R → Flow R A
  next : A → Flow R A
  blocked : Flow R A

abbrev pub Body : Type 0 → Type 0 → Type 0 → Type 0
Body S R A = S → Flow R A × S

module _ {S R A : Type 0} where
  abbrev pub pure : A → Body S R A
  pure a s = (next a, s)

  abbrev pub return : R → Body S R A
  return r s = (ret r, s)

  abbrev pub gets : (S → A) → Body S R A
  gets f s = (next (f s), s)

  -- A call whose result and effect are a function of the state.
  abbrev pub call : (S → A × S) → Body S R A
  call f s = let (a, s') = f s in (next a, s')

  -- The value, or an early return in its absence.
  abbrev pub or_return : Option A → R → Body S R A
  or_return none r s = (ret r, s)
  or_return (some a) r s = (next a, s)

-- What the caller of a whole body gets; none where the call never returns.
abbrev pub answer : {R : Type 0} → Flow R R → Option R
answer (ret r) = some r
answer (next r) = some r
answer blocked = none

module _ {S R : Type 0} where
  abbrev pub modify : (S → S) → Body S R (Unit {0})
  modify f s = (next tt, f s)

  -- if c { return r }
  abbrev pub return_if : Bool → R → Body S R (Unit {0})
  return_if c r s = (if c then ret r else next tt, s)

  -- if !ok { undo(); return r }
  abbrev pub undo_unless : Bool → (S → S) → R → Body S R (Unit {0})
  undo_unless ok undo r s = if ok then (next tt, s) else (ret r, undo s)

  abbrev pub run : Body S R R → S → Option R × S
  run m s = let (f, s') = m s in (answer f, s')

module _ {S R A B : Type 0} where
  abbrev pub continue : Flow R A → (A → Body S R B) → Body S R B
  continue (ret r) k s = (ret r, s)
  continue (next a) k s = k a s
  continue blocked k s = (blocked, s)

  infixl 5 ◌>>=◌ ◌>>◌
  abbrev pub ◌>>=◌ : Body S R A → (A → Body S R B) → Body S R B
  ◌>>=◌ m k s = let (f, s') = m s in continue f k s'

  abbrev pub ◌>>◌ : Body S R A → Body S R B → Body S R B
  m >> k = m >>= λ _. k
