-- ===== src/Config/Progress.antt =====
-- Any sequence of proposals, approvals and applications, on a service that keeps its state in memory.
use Prim.Native.String.{◌++◌ as ◌+ˢ◌}
use text.Mathlib.TextLemmas.{append_cancel_left}
use open_rgs_go.Prelude.{
  ℕ, ◌+◌, ◌≤◌, String, ◌≡◌, ◌≢◌, refl, sym, ap, ◌∙◌, true, false, Bool-cases, inl, inr, some, arith,
  eq_iff, ◌=ˢ◌,
}
use open_rgs_go.Prelude.Decimal.{format_int, format_int-injective}
use open_rgs_go.Prelude.Dict.{Dict, lookup, insert, lookup-insert}
use open_rgs_go.Journal.Sound.{IsSound}
use open_rgs_go.Config.State.{
  status_proposed, status_approved, status_applied, ConfigChange, Config, ConfigEnv,
}
use open_rgs_go.Config.Methods.{key_for}
use open_rgs_go.Config.Changes.{approved, applied}
use open_rgs_go.Config.Proposals.{next_id}

-- One step of a change: its approval, or its application once it was approved.
pub data Step (old new : ConfigChange) : Type 0 where
  approves :
      old.status ≡ status_proposed → (by at : String) → new ≡ approved by at old → Step old new
  applies : old.status ≡ status_approved → (by at : String) → new ≡ applied by at old → Step old new

pub data Steps : ConfigChange → ConfigChange → Type 0 where
  done : (c : ConfigChange) → Steps c c
  more : (a b c : ConfigChange) → Step a b → Steps b c → Steps a c

pub Steps-trans : (a b c : ConfigChange) → Steps a b → Steps b c → Steps a c
Steps-trans a b c (done _) g = g
Steps-trans a b c (more _ x _ s f) g = more a x c s (Steps-trans x b c f g)

-- No step leaves an applied change.
pub Steps-applied :
    (old new : ConfigChange) → Steps old new → old.status ≡ status_applied → new ≡ old
Steps-applied old new (done _) is = refl
Steps-applied old new (more _ x _ (approves from by at e) f) is = absurd (cc (sym from ∙ is))
Steps-applied old new (more _ x _ (applies from by at e) f) is = absurd (cc (sym from ∙ is))

pub Steps-approved :
    (old new : ConfigChange)
    → Steps old new
    → old.status ≡ status_approved
    → new.status ≡ status_applied
    → (by : String) × (at : String) × (new ≡ applied by at old)
Steps-approved old new (done _) from to = absurd (cc (sym from ∙ to))
Steps-approved old new (more _ x _ (approves is by at e) f) from to = absurd (cc (sym from ∙ is))
Steps-approved old new (more _ x _ (applies is by at e) f) from to =
    (by, at, Steps-applied x new f (ap (λ c. c.status) e) ∙ e)

-- A change that was proposed and is applied was approved in between, and is otherwise as proposed.
pub Steps-proposed :
    (old new : ConfigChange)
    → Steps old new
    → old.status ≡ status_proposed
    → new.status ≡ status_applied
    → (approver : String) × (approved_at : String) × (by : String) × (at : String) × (new
        ≡ applied by at (approved approver approved_at old))
Steps-proposed old new (done _) from to = absurd (cc (sym from ∙ to))
Steps-proposed old new (more _ x _ (applies is by at e) f) from to = absurd (cc (sym from ∙ is))
Steps-proposed old new (more _ x _ (approves is approver approved_at e) f) from to =
    let (by, at, h) = Steps-approved x new f (ap (λ c. c.status) e) to in
    (approver, approved_at, by, at, h ∙ ap (λ c. applied by at c) e)

-- Every change of `from` is in `to`, some steps further.
abbrev pub Carries : Dict ConfigChange → Dict ConfigChange → Type 0
Carries from to =
    (id : String) (old : ConfigChange)
    → lookup id from ≡ some old
    → (new : ConfigChange) × (lookup id to ≡ some new) × Steps old new

pub Carries-refl : (d : Dict ConfigChange) → Carries d d
Carries-refl d id old e = (old, e, done old)

pub Carries-trans : (a b c : Dict ConfigChange) → Carries a b → Carries b c → Carries a c
Carries-trans a b c f g id old e =
    let (mid, e₁, s₁) = f id old e in
    let (new, e₂, s₂) = g id mid e₁ in (new, e₂, Steps-trans old mid new s₁ s₂)

pub insert-Carries :
    (id : String) (c : ConfigChange) (d : Dict ConfigChange)
    → ((old : ConfigChange) → lookup id d ≡ some old → Steps old c)
    → Carries d (insert id c d)
insert-Carries id c d h j old e = elim (Bool-cases (id =ˢ j)) [
  | inl same ↦
      let eq : id ≡ j = ground (arith, same, eq_iff id j) in
      (c, ground (arith, lookup-insert id j c d, same), h old (ap (λ k. lookup k d) eq ∙ e))
  | inr other ↦ (old, ground (arith, lookup-insert id j c d, other, e), done old)
]

-- The current value of a key is what an applied change of that key proposed.
abbrev pub IsBacked : Dict ConfigChange → Dict String → Type 0
IsBacked changes values =
    (key value : String)
    → lookup key values ≡ some value
    → (id : String) × (c : ConfigChange) × (lookup id changes ≡ some c)
      × (c.status ≡ status_applied)
      × (key_for c.config_namespace c.config_key ≡ key)
      × (c.proposed_value ≡ value)

-- Ids are given out by number.
abbrev pub IsNumbered : ℕ → Dict ConfigChange → Type 0
IsNumbered n changes =
    (id : String) (c : ConfigChange)
    → lookup id changes ≡ some c
    → (k : ℕ) × (k ≤ n) × (id ≡ "cfg-" +ˢ format_int k)

-- A service that keeps its state in memory, between two requests.
pub record IsSettled (env : ConfigEnv) (s : Config env.Db) : Type 0 where
  pub sound : IsSound env.journal_env s.journal
  pub cached : s.disable_in_memory_cache ≡ false
  pub numbered : IsNumbered s.next_change_id s.changes
  pub backed : IsBacked s.changes s.current_values

pub Carries-IsBacked :
    (from to : Dict ConfigChange) (values : Dict String)
    → Carries from to
    → IsBacked from values
    → IsBacked to values
Carries-IsBacked from to values f backed key value e =
    let (id, c, there, is, k, v) = backed key value e in
    let (new, there', steps) = f id c there in
    let same : new ≡ c = Steps-applied c new steps is in (id, c, there' ∙ ap some same, is, k, v)

pub IsNumbered-insert :
    (n m : ℕ) (id : String) (c : ConfigChange) (d : Dict ConfigChange)
    → n ≤ m
    → ((k : ℕ) × (k ≤ m) × (id ≡ "cfg-" +ˢ format_int k))
    → IsNumbered n d
    → IsNumbered m (insert id c d)
IsNumbered-insert n m id c d h own numbered j found e = elim (Bool-cases (id =ˢ j)) [
  | inl same ↦ let (k, le, is) = own in (k, le, sym (the_same same) ∙ is)
  | inr other ↦
      let (k, le, is) = numbered j found (ground (arith, lookup-insert id j c d, other, e)) in
      (k, omega (arith, le), is)
]
  where
    the_same : (id =ˢ j) ≡ true → id ≡ j
    the_same same = ground (arith, same, eq_iff id j)

-- No change is there under the next id.
pub next_id-fresh :
    (env : ConfigEnv) (s : Config env.Db)
    → IsNumbered s.next_change_id s.changes
    → (old : ConfigChange) → lookup (next_id env s) s.changes ≢ some old
next_id-fresh env s numbered old e =
    let (k, le, is) = numbered (next_id env s) old e in
    let same : s.next_change_id + 1 ≡ k =
      format_int-injective (s.next_change_id + 1) k
        (append_cancel_left "cfg-" (format_int (s.next_change_id + 1)) (format_int k) is) in
    omega (arith, le, same)
