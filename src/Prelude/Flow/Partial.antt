-- ===== src/Prelude/Flow/Partial.antt =====
-- Partial correctness of function bodies: as Triple, but a body may block.
use mathlib.Core.Path.{◌≡◌, subst}
use mathlib.Core.Bool.{Bool, true, false}
use mathlib.Core.Option.{Option, none, some}
use open_rgs_go.Prelude.Flow.{
  Flow, ret, next, blocked, Body, pure, or_return, return_if, undo_unless, continue, answer, run,
  ◌>>=◌,
}
use open_rgs_go.Prelude.Flow.Triple.{Ends, Triple}

abbrev pub Allows : {S R A : Type 0} → (R → Type 0) → (A → S → Type 0) → Flow R A × S → Type 0
Allows E Q (ret r, s) = E r
Allows E Q (next a, s) = Q a s
Allows E Q (blocked, s) = Unit

pub record Partial {S R A : Type 0} (P : S → Type 0) (E : R → Type 0) (Q : A → S → Type 0)
    (m : Body S R A) : Type 0 where
  pub at : (s : S) → P s → Allows E Q (m s)

Allows-continue :
    {S R A B : Type 0} (E : R → Type 0) (Q : A → S → Type 0) (Z : B → S → Type 0)
    (k : A → Body S R B) (f : Flow R A) (s : S)
    → Allows E Q (f, s)
    → ((a : A) → Partial (Q a) E Z (k a))
    → Allows E Z (continue f k s)
Allows-continue E Q Z k (ret r) s h t = h
Allows-continue E Q Z k (next a) s h t = (t a).at s h
Allows-continue E Q Z k blocked s h t = h

module _ {S R : Type 0} {P : S → Type 0} {E : R → Type 0} where
  pub Partial-bind :
      {A B : Type 0} {Q : A → S → Type 0} {Z : B → S → Type 0} {m : Body S R A} {k : A → Body S R B}
      → Partial P E Q m
      → ((a : A) → Partial (Q a) E Z (k a))
      → Partial P E Z (m >>= k)
  Partial-bind {Q} {Z} {m} {k} t u = record {
    at = λ s p. Allows-continue E Q Z k (m s).0 (m s).1 (t.at s p) u;
  }

  pub Partial-pure : {A : Type 0} (a : A) → Partial P E (λ _. P) (pure a)
  Partial-pure a = record { at = λ s p. p }

  pub Partial-return_if : (c : Bool) (r : R) → E r → Partial P E (λ _. P) (return_if c r)
  Partial-return_if true r h = record { at = λ s p. h }
  Partial-return_if false r h = record { at = λ s p. p }

  pub Partial-or_return :
      {A : Type 0} (o : Option A) (r : R) → E r → Partial P E (λ _. P) (or_return o r)
  Partial-or_return none r h = record { at = λ s p. h }
  Partial-or_return (some a) r h = record { at = λ s p. p }

  pub Partial-undo_unless :
      (ok : Bool) (undo : S → S) (r : R) → E r → Partial P E (λ _. P) (undo_unless ok undo r)
  Partial-undo_unless true undo r h = record { at = λ s p. p }
  Partial-undo_unless false undo r h = record { at = λ s p. h }

-- What holds of every run holds of those that do not block.
Allows-of_Ends :
    {S R A : Type 0} (E : R → Type 0) (Q : A → S → Type 0) (f : Flow R A) (s : S)
    → Ends (λ r _. E r) Q (f, s)
    → Allows E Q (f, s)
Allows-of_Ends E Q (ret r) s h = h
Allows-of_Ends E Q (next a) s h = h
Allows-of_Ends E Q blocked s h = absurd h

pub Partial-of_Triple :
    {S R A : Type 0} {P : S → Type 0} {E : R → Type 0} {Q : A → S → Type 0} {m : Body S R A}
    → Triple P (λ r _. E r) Q m
    → Partial P E Q m
Partial-of_Triple {E} {Q} {m} t = record {
  at = λ s p. Allows-of_Ends E Q (m s).0 (m s).1 (t.at s p);
}

answered :
    {S R : Type 0} (E : R → Type 0) (f : Flow R R) (s : S) (r : R)
    → Allows E (λ r _. E r) (f, s)
    → answer f ≡ some r
    → E r
answered E (ret r') s r h e = let same : r' ≡ r = cc e in subst E same h
answered E (next r') s r h e = let same : r' ≡ r = cc e in subst E same h
answered E blocked s r h e = absurd (cc e)

-- What the caller gets, if the call returns.
pub run-allows :
    {S R : Type 0} {P : S → Type 0} {E : R → Type 0} (m : Body S R R)
    → Partial P E (λ r _. E r) m
    → (s : S) → P s
    → (r : R) → (run m s).0 ≡ some r
    → E r
run-allows {E} m t s p r e = answered E (m s).0 (m s).1 r (t.at s p) e
