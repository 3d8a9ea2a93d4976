-- ===== src/Prelude/Flow/Triple.antt =====
-- Total correctness of function bodies: from a state with `P` the body returns a result and a state
-- with `E`, or goes on with a value and a state with `Q`; it does not block.
use mathlib.Core.Path.{◌≡◌, refl, subst}
use mathlib.Core.Bool.{Bool, true, false, not}
use mathlib.Core.Option.{Option, none, some}
use open_rgs_go.Prelude.Flow.{
  Flow, ret, next, blocked, Body, pure, or_return, modify, return_if, continue, answer, run, ◌>>=◌,
}

abbrev pub Ends : {S R A : Type 0} → (R → S → Type 0) → (A → S → Type 0) → Flow R A × S → Type 0
Ends E Q (ret r, s) = E r s
Ends E Q (next a, s) = Q a s
Ends E Q (blocked, s) = ⊥

pub record Triple {S R A : Type 0} (P : S → Type 0) (E : R → S → Type 0) (Q : A → S → Type 0)
    (m : Body S R A) : Type 0 where
  pub at : (s : S) → P s → Ends E Q (m s)

Ends-continue :
    {S R A B : Type 0} (E : R → S → Type 0) (Q : A → S → Type 0) (Z : B → S → Type 0)
    (k : A → Body S R B) (f : Flow R A) (s : S)
    → Ends E Q (f, s)
    → ((a : A) → Triple (Q a) E Z (k a))
    → Ends E Z (continue f k s)
Ends-continue E Q Z k (ret r) s h t = h
Ends-continue E Q Z k (next a) s h t = (t a).at s h
Ends-continue E Q Z k blocked s h t = h

Ends-weaken :
    {S R A : Type 0} (E : R → S → Type 0) (Q Q' : A → S → Type 0)
    → ((a : A) (s : S) → Q a s → Q' a s)
    → (f : Flow R A) (s : S) → Ends E Q (f, s)
    → Ends E Q' (f, s)
Ends-weaken E Q Q' after (ret r) s h = h
Ends-weaken E Q Q' after (next a) s h = after a s h
Ends-weaken E Q Q' after blocked s h = h

module _ {S R : Type 0} {P : S → Type 0} {E : R → S → Type 0} where
  pub Triple-bind :
      {A B : Type 0} {Q : A → S → Type 0} {Z : B → S → Type 0} {m : Body S R A} {k : A → Body S R B}
      → Triple P E Q m
      → ((a : A) → Triple (Q a) E Z (k a))
      → Triple P E Z (m >>= k)
  Triple-bind {Q} {Z} {m} {k} t u = record {
    at = λ s p. Ends-continue E Q Z k (m s).0 (m s).1 (t.at s p) u;
  }

  pub Triple-pure :
      {A : Type 0} {Q : A → S → Type 0} (a : A) → ((s : S) → P s → Q a s) → Triple P E Q (pure a)
  Triple-pure a h = record { at = h }

  pub Triple-modify :
      {Q : Unit {0} → S → Type 0} (f : S → S)
      → ((s : S) → P s → Q tt (f s))
      → Triple P E Q (modify f)
  Triple-modify f h = record { at = h }

  pub Triple-return_if :
      (c : Bool) (r : R)
      → ((s : S) → P s → c ≡ true → E r s)
      → Triple P E (λ _ s. P s × (c ≡ false)) (return_if c r)
  Triple-return_if true r h = record { at = λ s p. h s p refl }
  Triple-return_if false r h = record { at = λ s p. (p, refl) }

  -- An early return under a condition, where the rest does not need that it failed.
  pub Triple-guard :
      (c : Bool) (r : R) → ((s : S) → P s → E r s) → Triple P E (λ _. P) (return_if c r)
  Triple-guard true r h = record { at = h }
  Triple-guard false r h = record { at = λ s p. p }

  pub Triple-or_return :
      {A : Type 0} (o : Option A) (r : R)
      → ((s : S) → P s → E r s)
      → Triple P E (λ a s. P s × (o ≡ some a)) (or_return o r)
  Triple-or_return none r h = record { at = h }
  Triple-or_return (some a) r h = record { at = λ s p. (p, refl) }

-- A call that is known to succeed.
pub Triple-require :
    {S R : Type 0} {E : R → S → Type 0} {Q : S → Type 0} (ok : Bool) (r : R)
    → Triple (λ s. (ok ≡ true) × Q s) E (λ _. Q) (return_if (not ok) r)
Triple-require true r = record { at = λ s p. p.1 }
Triple-require false r = record { at = λ s p. absurd (cc p.0) }

-- A fact about the values, which holds in every state.
pub Triple-given :
    {S R A : Type 0} {P : S → Type 0} {E : R → S → Type 0} {Q : A → S → Type 0} {F : Type 0}
    {m : Body S R A}
    → (F → Triple P E Q m)
    → Triple (λ s. P s × F) E Q m
Triple-given t = record { at = λ s p. (t p.1).at s p.0 }

-- Under a weaker condition and with a weaker conclusion.
pub Triple-weaken :
    {S R A : Type 0} {P P' : S → Type 0} {E : R → S → Type 0} {Q Q' : A → S → Type 0}
    {m : Body S R A}
    → ((s : S) → P' s → P s)
    → ((a : A) (s : S) → Q a s → Q' a s)
    → Triple P E Q m
    → Triple P' E Q' m
Triple-weaken {E} {Q} {Q'} {m} before after t = record {
  at = λ s p. Ends-weaken E Q Q' after (m s).0 (m s).1 (t.at s (before s p));
}

-- A value that is known to be there.
pub Triple-or_return-some :
    {S R A : Type 0} {E : R → S → Type 0} {Q : A → S → Type 0} (o : Option A) (r : R)
    → Triple (λ s. (a : A) × (o ≡ some a) × Q a s) E Q (or_return o r)
Triple-or_return-some none r = record { at = λ s p. absurd (cc p.1) }
Triple-or_return-some {Q} (some a) r = record {
  at = λ s p. let e : p.0 ≡ a = cc p.1 in subst (λ x. Q x s) e p.2;
}

-- The whole function answers, and its answer and the state at the end have `E`.
abbrev pub Answers : {S R : Type 0} → (R → S → Type 0) → Option R × S → Type 0
Answers {R} E (o, s) = (r : R) × (o ≡ some r) × E r s

Ends-answer :
    {S R : Type 0} (E : R → S → Type 0) (f : Flow R R) (s : S)
    → Ends E E (f, s)
    → Answers E (answer f, s)
Ends-answer E (ret r) s h = (r, refl, h)
Ends-answer E (next r) s h = (r, refl, h)
Ends-answer E blocked s h = absurd h

pub run-Answers :
    {S R : Type 0} {P : S → Type 0} {E : R → S → Type 0} (m : Body S R R)
    → Triple P E E m
    → (s : S) → P s
    → Answers E (run m s)
run-Answers {E} m t s p = Ends-answer E (m s).0 (m s).1 (t.at s p)
