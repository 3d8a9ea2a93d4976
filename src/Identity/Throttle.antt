-- ===== src/Identity/Throttle.antt =====
-- What the login limits of identity_grpc.go promise, on a service without a database.
use mathlib.Core.Path.{subst}
use open_rgs_go.Prelude.{
  ℕ, suc, ◌+◌, ◌-◌, ◌≤◌, ◌<◌, String, ◌≡◌, refl, sym, ap, ◌∙◌, Bool, true, false, Option, none,
  some, List, [], ◌∷◌, arith, ltb, leb, if_both,
}
use open_rgs_go.Prelude.Int64.{le64}
use open_rgs_go.Prelude.Dict.{lookup, lookup_or, insert, lookup-insert_self}
use open_rgs_go.Prelude.Pages.{length}
use open_rgs_go.Proto.{ActorType}
use open_rgs_go.Identity.State.{LoginRateWindow, Identity, IdentityEnv}
use open_rgs_go.Identity.Limits.{
  login_rate_key, lock_key, current_window, counted, count_attempt, rate_limit_exceeded, is_locked,
  check_locked, count_failure, record_failure,
}

-- Every attempt comes before the window that starts at the given time is over.
pub data AllWithin (start width : ℕ) : List ℕ → Type 0 where
  none_left : AllWithin start width []
  within :
      (t : ℕ) (ts : List ℕ)
      → t - start < width
      → AllWithin start width ts
      → AllWithin start width (t ∷ ts)

module _ (env : IdentityEnv) (actor_id : String) (actor_type : ActorType) where
  abbrev pass : Option Bool → ℕ → ℕ
  pass none n = n
  pass (some true) n = n
  pass (some false) n = suc n

  -- How many of the attempts at the given times are let through.
  unfoldable pub admitted : List ℕ → Identity env.Db → ℕ
  unfolding rate_limit_exceeded
  admitted [] s = 0
  admitted (t ∷ ts) s =
      let (over, s') = rate_limit_exceeded env t actor_id actor_type s in pass over (admitted ts s')

  -- The state after failures at the given times.
  unfoldable pub fail_all : List ℕ → Identity env.Db → Identity env.Db
  unfolding record_failure
  fail_all [] s = s
  fail_all (t ∷ ts) s = fail_all ts (record_failure env t actor_id actor_type s).1

  abbrev rate_key : String
  rate_key = login_rate_key actor_id actor_type

  -- The state after an attempt that makes the window of this actor `w`.
  abbrev attempted : LoginRateWindow → Identity env.Db → Identity env.Db
  attempted w s = record s { login_rates = insert rate_key w s.login_rates }

  attempt-step :
      (t : ℕ) (s : Identity env.Db) (w : LoginRateWindow)
      → s.journal.db ≡ none
      → le64 s.login_rate_max 0 ≡ false
      → current_window t s.login_rate_window (lookup rate_key s.login_rates) ≡ w
      → rate_limit_exceeded env t actor_id actor_type s
        ≡ (some (ltb s.login_rate_max (w.count + 1)), attempted (counted w) s)
  unfolding rate_limit_exceeded count_attempt
  attempt-step t s w offline limited e = ground (arith, offline, limited, e)

  same_window :
      (t width : ℕ) (w : LoginRateWindow)
      → t - w.start < width
      → current_window t width (some w) ≡ w
  unfolding current_window
  same_window t width w h = ground (arith, h)

  pass_le :
      (max count n : ℕ) → n ≤ max - (count + 1) → pass (some (ltb max (count + 1))) n ≤ max - count
  pass_le max count n h = ground (arith, h)

  admitted-le :
      (ts : List ℕ) (s : Identity env.Db) (w : LoginRateWindow)
      → s.journal.db ≡ none
      → le64 s.login_rate_max 0 ≡ false
      → lookup rate_key s.login_rates ≡ some w
      → AllWithin w.start s.login_rate_window ts
      → admitted ts s ≤ s.login_rate_max - w.count
  unfolding admitted
  admitted-le [] s w offline limited there none_left = omega arith
  admitted-le (t ∷ ts) s w offline limited there (within _ _ h rest) =
      let after = attempted (counted w) s in
      let step =
        attempt-step t s w offline limited (
          ap (current_window t s.login_rate_window) there
          ∙ same_window t s.login_rate_window w h) in
      subst
        (λ (x : Option Bool × Identity env.Db).
          pass x.0 (admitted ts x.1) ≤ s.login_rate_max - w.count)
        (sym step)
        (pass_le s.login_rate_max w.count (admitted ts after) (
          admitted-le ts after (counted w) offline limited
            (lookup-insert_self rate_key (counted w) s.login_rates) rest))

  -- Where attempts are limited, and an attempt starts a new window: of this attempt and of any others
  -- that come before the window is over, no more than the limit are let through.
  pub admitted-le_limit :
      (t : ℕ) (ts : List ℕ) (s : Identity env.Db)
      → s.journal.db ≡ none
      → le64 s.login_rate_max 0 ≡ false
      → current_window t s.login_rate_window (lookup rate_key s.login_rates)
        ≡ record { start = t; count = 0 }
      → AllWithin t s.login_rate_window ts
      → admitted (t ∷ ts) s ≤ s.login_rate_max
  unfolding admitted
  admitted-le_limit t ts s offline limited opens rest =
      let w : LoginRateWindow = record { start = t; count = 0 } in
      let after = attempted (counted w) s in
      subst (λ (x : Option Bool × Identity env.Db). pass x.0 (admitted ts x.1) ≤ s.login_rate_max)
        (sym (attempt-step t s w offline limited opens))
        (omega (
          arith,
          pass_le s.login_rate_max 0 (admitted ts after) (
              admitted-le ts after (counted w) offline limited
                (lookup-insert_self rate_key (counted w) s.login_rates) rest),
        ))

  abbrev account : String
  account = lock_key actor_id actor_type

  abbrev failures : Identity env.Db → ℕ
  failures s = lookup_or 0 account s.failed_attempts

  failure-step :
      (t : ℕ) (s : Identity env.Db)
      → s.journal.db ≡ none
      → (record_failure env t actor_id actor_type s).1 ≡ count_failure env t actor_id actor_type s
  unfolding record_failure
  failure-step t s offline = ground (arith, offline)

  -- What a failure leaves, and how the count grows.
  record Counted (n : ℕ) (start s : Identity env.Db) : Type 0 where
    offline : s.journal.db ≡ none
    limit : s.max_failures ≡ start.max_failures
    ttl : s.lockout_ttl ≡ start.lockout_ttl
    count : failures s ≡ failures start + n

  count-Counted :
      (t : ℕ) (s : Identity env.Db)
      → s.journal.db ≡ none
      → Counted 1 s (count_failure env t actor_id actor_type s)
  unfolding count_failure lookup_or
  count-Counted t s offline =
      if_both (Counted 1 s) (leb s.max_failures (failures s + 1)) _ _
        (λ _. record { offline = offline; limit = refl; ttl = refl; count = added })
        (λ _. record { offline = offline; limit = refl; ttl = refl; count = added })
    where
      added :
          lookup_or 0 account (insert account (failures s + 1) s.failed_attempts) ≡ failures s + 1
      added = ground (arith, lookup-insert_self account (failures s + 1) s.failed_attempts)

  fail_all-Counted :
      (ts : List ℕ) (s : Identity env.Db)
      → s.journal.db ≡ none
      → Counted (length ts) s (fail_all ts s)
  unfolding fail_all length
  fail_all-Counted [] s offline = record {
    offline = offline;
    limit = refl;
    ttl = refl;
    count = omega arith;
  }
  fail_all-Counted (t ∷ ts) s offline =
      let s₁ = (record_failure env t actor_id actor_type s).1 in
      let first : Counted 1 s s₁ =
        subst (Counted 1 s) (sym (failure-step t s offline)) (count-Counted t s offline) in
      let rest = fail_all-Counted ts s₁ first.offline in
      record {
        offline = rest.offline;
        limit = rest.limit ∙ first.limit;
        ttl = rest.ttl ∙ first.ttl;
        count = omega (arith, rest.count, first.count);
      }

  locked-step :
      (last now : ℕ) (s : Identity env.Db)
      → s.journal.db ≡ none
      → s.max_failures ≤ failures s + 1
      → now < last + s.lockout_ttl
      → check_locked env now actor_id actor_type (count_failure env last actor_id actor_type s)
        ≡ some true
  unfolding check_locked is_locked count_failure
  locked-step last now s offline enough early = ground (
    arith,
    offline,
    enough,
    early,
    lookup-insert_self account (last + s.lockout_ttl) s.locked_until,
  )

  -- After as many failures of an actor as are allowed, with no success between them, whenever they
  -- came, the actor is locked until the lockout time has passed since the last of them.
  pub check_locked-failures :
      (ts : List ℕ) (last now : ℕ) (s : Identity env.Db)
      → s.journal.db ≡ none
      → s.max_failures ≤ length ts + 1
      → now < last + s.lockout_ttl
      → check_locked env now actor_id actor_type
          (record_failure env last actor_id actor_type (fail_all ts s)).1
        ≡ some true
  check_locked-failures ts last now s offline enough early =
      let s₀ = fail_all ts s in
      let before = fail_all-Counted ts s offline in
      ap (check_locked env now actor_id actor_type) (failure-step last s₀ before.offline)
      ∙ locked-step last now s₀ before.offline (omega (arith, before.limit, before.count, enough))
          (omega (arith, before.ttl, early))
