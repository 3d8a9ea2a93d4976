-- ===== src/Journal.antt =====
-- What the services of internal/platform/server have in common: an audit store with its counter, and
-- a database handle. Each service writes out its own `appendAudit`, which differs from the others in
-- the prefix of the event ids and in the type of the audited object; here it is one function of
-- these two, and each service has its instance.
use Prim.Native.String.{◌++◌ as ◌+ˢ◌}
use open_rgs_go.Prelude.{ℕ, ◌+◌, String, Bool, true, false, Option, none, some, if◌then◌else◌}
use open_rgs_go.Prelude.Decimal.{format_int}
use open_rgs_go.Prelude.Flow.{Body, ret, next}
use open_rgs_go.Proto.{Actor, RequestMeta, ResponseMeta, ResultCode, actor_type_name, request_id_of}
use open_rgs_go.Actor.{meta_actor}
use open_rgs_go.Audit.{
  Event, Hashing, InMemoryStore, Result, denied, appended, corrupt_chain, append,
  new_in_memory_store,
}
pub mod Sound

-- The audit store, the count of audit ids given out, and the database; none where a pointer is nil.
pub record Journal (Db : Type 0) : Type 0 where
  pub store : Option InMemoryStore
  pub next_id : ℕ
  pub db : Option Db

unfoldable pub new_journal : {Db : Type 0} → Option Db → Journal Db
new_journal handle = record { store = some new_in_memory_store; next_id = 0; db = handle }

-- The hash functions, the format of a day, and the insertion of an event into the database.
pub record JournalEnv (Db : Type 0) : Type 0 where
  pub hashing : Hashing
  pub partition_day : ℕ → String
  pub insert_event : Db → Event → Bool × Db

abbrev actor_id_of : Option Actor → String
actor_id_of none = "system"
actor_id_of (some a) = a.actor_id

abbrev actor_type_of : Option Actor → String
actor_type_of none = "service"
actor_type_of (some a) = actor_type_name a.actor_type

-- What a service's events have in common.
pub record Subject : Type 0 where
  pub id_prefix : String
  pub object_type : String

module _ {Db : Type 0} (env : JournalEnv Db) (now : ℕ) (subject : Subject) where
  unfoldable pub journal_event :
      Option RequestMeta → ℕ → String → String → String → String → Result → String → Event
  unfolding actor_type_name
  journal_event meta id object_id action before after result reason = record {
    audit_id = subject.id_prefix +ˢ format_int id;
    occurred_at = now;
    recorded_at = now;
    actor_id = actor_id_of (meta_actor meta);
    actor_type = actor_type_of (meta_actor meta);
    auth_context = "";
    object_type = subject.object_type;
    object_id = object_id;
    action = action;
    before = before;
    after = after;
    result = result;
    reason = reason;
    partition_day = env.partition_day now;
    hash_prev = "";
    hash_curr = "";
  }

  -- The event goes into the database, where there is one, and then into the store.
  unfoldable pub insert_event : Event → Journal Db → Bool × Journal Db
  insert_event ev j = elim j.db [
    | none ↦ (true, j)
    | some d ↦ let (ok, d') = env.insert_event d ev in (ok, record j { db = some d' })
  ]

  unfoldable pub keep_event : Event → Journal Db → Bool × Journal Db
  unfolding append
  keep_event ev j = elim j.store [
    | none ↦ (false, j)
    | some store ↦ elim (append env.hashing store ev) [
      | appended _ store' ↦ (true, record j { store = some store' })
      | corrupt_chain ↦ (false, j)
    ]
  ]

  -- True where `appendAudit` returns a nil error.
  unfoldable pub record_event :
      Option RequestMeta
      → String
      → String
      → String
      → String
      → Result
      → String
      → Journal Db
      → Bool × Journal Db
  unfolding journal_event insert_event keep_event
  record_event meta object_id action before after result reason j = elim j.store [
    | none ↦ (false, j)
    | some _ ↦
        let ev = journal_event meta (j.next_id + 1) object_id action before after result reason in
        let (ok, j') = insert_event ev (record j { next_id = j.next_id + 1 }) in
        if ok then keep_event ev j' else (false, j')
  ]

-- A service's state has a journal.
pub record Host (S Db : Type 0) : Type 0 where
  pub journal : S → Journal Db
  pub with_journal : Journal Db → S → S

module _ {S Db : Type 0} (host : Host S Db) (env : JournalEnv Db) (now : ℕ)
    (subject : Subject) where
  unfoldable pub audit :
      Option RequestMeta → String → String → String → String → Result → String → S → Bool × S
  audit meta object_id action before after result reason s =
      let (ok, j) =
        record_event env now subject meta object_id action before after result reason
          (host.journal s) in
      (ok, host.with_journal j s)

  -- if reason != "" { _ = s.appendAudit(…, audit.ResultDenied, reason); return r(reason) }
  unfoldable pub refuse_with :
      {R : Type 0}
      → (String → R)
      → Option RequestMeta
      → String
      → String
      → Option String
      → Body S R (Unit {0})
  unfolding audit
  refuse_with r meta object_id action none s = (next tt, s)
  refuse_with r meta object_id action (some reason) s =
      (ret (r reason), (audit meta object_id action "{}" "{}" denied reason s).1)

unfoldable pub meta_of : (ℕ → String) → ℕ → Option RequestMeta → ResultCode → String → ResponseMeta
meta_of format_time now meta code denial = record {
  request_id = request_id_of meta;
  result_code = code;
  denial_reason = denial;
  server_time = format_time now;
}
