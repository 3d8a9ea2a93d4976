-- ===== src/Identity/Limits.antt =====
-- The methods of IdentityService that limit logins: the rate of the attempts, the lock after failures
-- and the check of the credentials. `none` stands for an error of the database.
use Prim.Native.String.{◌++◌ as ◌+ˢ◌}
use open_rgs_go.Prelude.{
  ℕ, ◌+◌, ◌-◌, ◌*◌, String, Bool, true, false, not, ◌&&◌, Option, none, some, ltb, leb, ◌=ˢ◌,
  if◌then◌else◌,
}
use open_rgs_go.Prelude.Int64.{le64, lt64}
use open_rgs_go.Prelude.Dict.{Dict, lookup, lookup_or, insert, erase}
use open_rgs_go.Proto.{ActorType, actor_unspecified, player, operator, service, actor_type_name}
use open_rgs_go.Actor.{Resolved, actor, refused}
use open_rgs_go.Journal.{Journal}
use open_rgs_go.Ledger.Env.{failed, no_rows, row}
use open_rgs_go.Identity.State.{LoginRateWindow, Identity, IdentityEnv, minute}

module _ {Db : Type 0} where
  unfoldable pub set_lockout_policy : ℕ → ℕ → Identity Db → Identity Db
  set_lockout_policy max_failures ttl s = record s {
    max_failures = if le64 max_failures 0 then 5 else max_failures;
    lockout_ttl = if le64 ttl 0 then 15 * minute else ttl;
  }

  unfoldable pub set_login_rate_limit : ℕ → ℕ → Identity Db → Identity Db
  set_login_rate_limit max_attempts window s = record s {
    login_rate_max = if lt64 max_attempts 0 then 0 else max_attempts;
    login_rate_window = if le64 window 0 then minute else window;
  }

  -- The state with another state of its database.
  abbrev with_db : Db → Identity Db → Identity Db
  with_db d s = let j : Journal Db = record s.journal { db = some d } in record s { journal = j }

unfoldable pub authorize_identity_admin : Resolved → Option String
authorize_identity_admin (refused reason) = some reason
authorize_identity_admin (actor a) = elim a.actor_type [
  | operator ↦ none
  | service ↦ none
  | player ↦ some "unauthorized actor type"
  | actor_unspecified ↦ some "unauthorized actor type"
]

unfoldable pub lock_key : String → ActorType → String
unfolding actor_type_name
lock_key actor_id actor_type = actor_type_name actor_type +ˢ "|" +ˢ actor_id

unfoldable pub login_rate_key : String → ActorType → String
unfolding lock_key
login_rate_key actor_id actor_type = "login_rate|" +ˢ lock_key actor_id actor_type

-- The window that an attempt falls into: a new one, where there is none or it is over. A clock that
-- went back is within the window.
unfoldable pub current_window : ℕ → ℕ → Option LoginRateWindow → LoginRateWindow
current_window now width none = record { start = now; count = 0 }
current_window now width (some w) =
    if leb width (now - w.start) then record { start = now; count = 0 } else w

abbrev pub counted : LoginRateWindow → LoginRateWindow
counted w = record w { count = w.count + 1 }

module _ (env : IdentityEnv) (now : ℕ) (actor_id : String) (actor_type : ActorType) where
  abbrev type_name : String
  type_name = actor_type_name actor_type

  -- The attempt in memory: its window, and whether it is one too many.
  unfoldable pub count_attempt : Identity env.Db → Bool × Identity env.Db
  unfolding login_rate_key current_window
  count_attempt s =
      let key = login_rate_key actor_id actor_type in
      let w = counted (current_window now s.login_rate_window (lookup key s.login_rates)) in
      (ltb s.login_rate_max w.count, record s { login_rates = insert key w s.login_rates })

  unfoldable pub rate_limit_exceeded : Identity env.Db → Option Bool × Identity env.Db
  unfolding count_attempt
  rate_limit_exceeded s = if le64 s.login_rate_max 0 then (some false, s) else elim s.journal.db [
    | none ↦ let (over, s') = count_attempt s in (some over, s')
    | some d ↦ elim (env.upsert_rate d actor_id type_name (env.seconds s.login_rate_window)) [
      | none ↦ (none, s)
      | some (attempts, d') ↦ (some (ltb s.login_rate_max attempts), with_db d' s)
    ]
  ]

  -- lockedUntil.After(now), where a missing entry is the zero time
  unfoldable pub is_locked : Dict ℕ → Bool
  unfolding lock_key
  is_locked until = elim (lookup (lock_key actor_id actor_type) until) [
    | none ↦ false
    | some t ↦ ltb now t
  ]

  unfoldable pub check_locked : Identity env.Db → Option Bool
  unfolding is_locked
  check_locked s = elim s.journal.db [
    | none ↦ some (is_locked s.locked_until)
    | some d ↦ elim (env.query_locked_until d actor_id type_name) [
      | failed ↦ none
      | no_rows ↦ some false
      | row t ↦ some (ltb now t)
    ]
  ]

  -- One more failure in memory, and the lock from the last one that is allowed on.
  unfoldable pub count_failure : Identity env.Db → Identity env.Db
  unfolding lock_key
  count_failure s =
      let k = lock_key actor_id actor_type in
      let n = lookup_or 0 k s.failed_attempts + 1 in
      let failures = insert k n s.failed_attempts in
      if leb s.max_failures n
      then record s {
        failed_attempts = failures;
        locked_until = insert k (now + s.lockout_ttl) s.locked_until;
      }
      else record s { failed_attempts = failures }

  -- Whether the account is locked by this failure.
  unfoldable pub record_failure : Identity env.Db → Option Bool × Identity env.Db
  unfolding check_locked count_failure is_locked
  record_failure s = elim s.journal.db [
    | none ↦
        let s' = count_failure s in
        (some (not (is_locked s.locked_until) && is_locked s'.locked_until), s')
    | some d ↦ elim (check_locked s) [
      | none ↦ (none, s)
      | some was_locked ↦
          let (ok, d') =
            env.upsert_failure d actor_id type_name s.max_failures (env.seconds s.lockout_ttl) in
          let s' = with_db d' s in
          if ok
          then (
            elim (check_locked s') [
              | none ↦ none
              | some now_locked ↦ some (not was_locked && now_locked)
            ],
            s',
          )
          else (none, s')
    ]
  ]

  -- True where the returned error is nil.
  unfoldable pub reset_failures : Identity env.Db → Bool × Identity env.Db
  unfolding lock_key
  reset_failures s = elim s.journal.db [
    | none ↦
        let k = lock_key actor_id actor_type in
        (
          true,
          record s {
            failed_attempts = erase k s.failed_attempts;
            locked_until = erase k s.locked_until;
          },
        )
    | some d ↦ let (ok, d') = env.upsert_reset d actor_id type_name in (ok, with_db d' s)
  ]

  unfoldable pub verify_credentials : String → Identity env.Db → Option Bool
  verify_credentials secret s = elim s.journal.db [
    | none ↦ some (elim actor_type [
      | player ↦ secret =ˢ "1234"
      | operator ↦ secret =ˢ "operator-pass"
      | service ↦ false
      | actor_unspecified ↦ false
    ])
    | some d ↦ elim (env.query_credentials d actor_id type_name) [
      | failed ↦ none
      | no_rows ↦ some false
      | row (hash, status) ↦ some (status =ˢ "active" && env.compare_hash_and_password hash secret)
    ]
  ]
