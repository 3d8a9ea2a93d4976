-- ===== src/Ledger/Methods.antt =====
-- The unexported methods of LedgerService (ledger_grpc.go) that read the clock, the caller's
-- context, the audit store or the database. `now` is the clock's reading, which is taken to be one
-- and the same throughout a request, and `ctx` is the actor that the context carries.
use open_rgs_go.Prelude.{
  ℕ, ◌+◌, ◌/◌, String, Bool, true, false, Option, none, some, ltb, leb, ◌=ˢ◌, if◌then◌else◌,
}
use open_rgs_go.Prelude.Dict.{lookup_or, insert, erase}
use open_rgs_go.Proto.{
  RequestMeta, ResponseMeta, ResultCode, player, operator, service, actor_unspecified, Actor,
  actor_type_name, request_id_of,
}
use open_rgs_go.Actor.{Resolved, actor, refused, meta_actor}
use open_rgs_go.Audit.{Event, Result, appended, corrupt_chain, append, denied}
use open_rgs_go.Ledger.State.{Ledger, LedgerAccount, nanoseconds_per_second}
use open_rgs_go.Ledger.Env.{LedgerEnv, failed, no_rows, row}
use open_rgs_go.Ledger.Books.{
  store_account, get_or_create_account, new_account, next_audit_id_locked,
}

-- `authorize` answers with the reason of a refusal.
unfoldable pub authorize_actor : String → Resolved → Option String
authorize_actor account_id (refused reason) = some reason
authorize_actor account_id (actor a) = elim a.actor_type [
  | operator ↦ none
  | service ↦ none
  | player ↦ if account_id =ˢ a.actor_id then none else some "player cannot access another account"
  | actor_unspecified ↦ some "unauthorized actor type"
]

abbrev pub actor_id_or_system : Option Actor → String
actor_id_or_system none = "system"
actor_id_or_system (some a) = a.actor_id

abbrev pub actor_type_or_service : Option Actor → String
actor_type_or_service none = "service"
actor_type_or_service (some a) = actor_type_name a.actor_type

module _ (env : LedgerEnv) (now : ℕ) where
  unfoldable pub response_meta : Option RequestMeta → ResultCode → String → ResponseMeta
  response_meta meta code denial = record {
    request_id = request_id_of meta;
    result_code = code;
    denial_reason = denial;
    server_time = env.format_time now;
  }

  unfoldable pub audit_event :
      Option RequestMeta
      → String
      → String
      → String
      → String
      → String
      → String
      → Result
      → String
      → Event
  unfolding actor_type_name
  audit_event meta id object_type object_id action before after result reason = record {
    audit_id = id;
    occurred_at = now;
    recorded_at = now;
    actor_id = actor_id_or_system (meta_actor meta);
    actor_type = actor_type_or_service (meta_actor meta);
    auth_context = "";
    object_type = object_type;
    object_id = object_id;
    action = action;
    before = before;
    after = after;
    result = result;
    reason = reason;
    partition_day = env.partition_day now;
    hash_prev = "";
    hash_curr = "";
  }

  -- The insertion into the database; true where there is no database.
  unfoldable pub insert_audit : Event → Ledger env.Db → Bool × Ledger env.Db
  insert_audit ev s = elim s.db [
    | none ↦ (true, s)
    | some d ↦ let (ok, d') = env.insert_audit_event d ev in (ok, record s { db = some d' })
  ]

  -- `AuditStore.Append` on a store that is not nil
  unfoldable pub store_event : Event → Ledger env.Db → Bool × Ledger env.Db
  unfolding append
  store_event ev s = elim s.audit_store [
    | none ↦ (false, s)
    | some store ↦ elim (append env.hashing store ev) [
      | appended _ store' ↦ (true, record s { audit_store = some store' })
      | corrupt_chain ↦ (false, s)
    ]
  ]

  -- True where `appendAudit` returns a nil error.
  unfoldable pub append_audit :
      Option RequestMeta
      → String
      → String
      → String
      → String
      → String
      → Result
      → String
      → Ledger env.Db
      → Bool × Ledger env.Db
  unfolding next_audit_id_locked audit_event insert_audit store_event
  append_audit meta object_type object_id action before after result reason s = elim s.audit_store [
    | none ↦ (false, s)
    | some _ ↦
        let (id, s₁) = next_audit_id_locked s in
        let ev = audit_event meta id object_type object_id action before after result reason in
        let (ok, s₂) = insert_audit ev s₁ in if ok then store_event ev s₂ else (false, s₂)
  ]

  unfoldable pub audit_denied :
      Option RequestMeta → String → String → String → String → Ledger env.Db → Ledger env.Db
  unfolding append_audit
  audit_denied meta object_type object_id action reason s =
      (append_audit meta object_type object_id action "{}" "{}" denied reason s).1

  -- none where the query fails
  unfoldable pub eft_locked : String → Ledger env.Db → Option Bool
  eft_locked account_id s = elim s.db [
    | none ↦ some (ltb now (lookup_or 0 account_id s.eft_fraud_locked_until))
    | some d ↦ elim (env.query_lockout d account_id) [
      | failed ↦ none
      | no_rows ↦ some false
      | row until ↦ some (ltb now until)
    ]
  ]

  -- The count of failures goes up, and at the limit the account is locked.
  unfoldable pub count_eft_failure : String → Ledger env.Db → Ledger env.Db
  count_eft_failure account_id s =
      let failures = lookup_or 0 account_id s.eft_fraud_failures + 1 in
      let s' = record s { eft_fraud_failures = insert account_id failures s.eft_fraud_failures } in
      if leb s.eft_fraud_max_failures failures
      then record s' {
        eft_fraud_locked_until =
            insert account_id (now + s.eft_fraud_lockout_ttl) s.eft_fraud_locked_until;
      }
      else s'

  unfoldable pub record_eft_failure : String → Ledger env.Db → Bool × Ledger env.Db
  unfolding count_eft_failure
  record_eft_failure account_id s = if account_id =ˢ "" then (true, s) else elim s.db [
    | none ↦ (true, count_eft_failure account_id s)
    | some d ↦
        let (ok, d') =
          env.upsert_eft_failure d account_id s.eft_fraud_max_failures
            (s.eft_fraud_lockout_ttl / nanoseconds_per_second) in
        (ok, record s { db = some d' })
  ]

  unfoldable pub reset_eft_failures : String → Ledger env.Db → Bool × Ledger env.Db
  reset_eft_failures account_id s = if account_id =ˢ "" then (true, s) else elim s.db [
    | none ↦ (
      true,
      record s {
        eft_fraud_failures = erase account_id s.eft_fraud_failures;
        eft_fraud_locked_until = erase account_id s.eft_fraud_locked_until;
      },
    )
    | some d ↦ let (ok, d') = env.upsert_eft_reset d account_id in (ok, record s { db = some d' })
  ]

  -- `mutationAccountState`: none where the query fails
  unfoldable pub mutation_account_state :
      String → String → Ledger env.Db → Option LedgerAccount × Ledger env.Db
  unfolding get_or_create_account store_account
  mutation_account_state account_id default_currency s = elim s.db [
    | none ↦ let (acct, s') = get_or_create_account account_id default_currency s in (some acct, s')
    | some d ↦ elim (env.query_balance d account_id) [
      | failed ↦ (none, s)
      | no_rows ↦
          let acct = new_account account_id default_currency in
          (some acct, store_account account_id acct s)
      | row (available, pending, currency) ↦
          let acct : LedgerAccount = record {
            id = account_id;
            currency = currency;
            available = available;
            pending = pending;
          } in
          (some acct, store_account account_id acct s)
    ]
  ]
