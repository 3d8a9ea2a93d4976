-- ===== src/Wagering/Methods.antt =====
-- The unexported methods of WageringService. `now` is the reading of the service's clock, taken to
-- be one and the same throughout a request.
use Prim.Native.String.{◌++◌ as ◌+ˢ◌}
use open_rgs_go.Prelude.{
  ℕ, ◌+◌, String, Bool, true, false, not, ◌&&◌, Option, none, some, List, ◌=ˢ◌, if◌then◌else◌,
}
use open_rgs_go.Prelude.Dict.{Dict, lookup, insert}
use open_rgs_go.Prelude.Decimal.{format_int}
use open_rgs_go.Proto.{
  RequestMeta, ResponseMeta, ResultCode, player, operator, service, actor_unspecified,
  request_id_of,
}
use open_rgs_go.Actor.{Resolved, actor, refused, meta_actor}
use open_rgs_go.Audit.{Event, Result, appended, corrupt_chain, append}
use open_rgs_go.Ledger.Env.{failed, no_rows, row}
use open_rgs_go.Ledger.Methods.{actor_id_or_system, actor_type_or_service}
use open_rgs_go.Ledger.Persist.{Loaded, load_failed, mismatch, not_found, found, join}
use open_rgs_go.Wagering.State.{
  Wager, WagerResponse, Wagering, WageringEnv, Operation, place, settle, cancel, operation_name,
}

unfoldable pub authorize_place : String → Resolved → Option String
authorize_place player_id (refused reason) = some reason
authorize_place player_id (actor a) = elim a.actor_type [
  | operator ↦ none
  | service ↦ none
  | player ↦
      if a.actor_id =ˢ player_id then none else some "player cannot place wager for another player"
  | actor_unspecified ↦ some "unauthorized actor type"
]

unfoldable pub authorize_settlement : Resolved → Option String
authorize_settlement (refused reason) = some reason
authorize_settlement (actor a) = elim a.actor_type [
  | operator ↦ none
  | service ↦ none
  | player ↦ some "unauthorized actor type"
  | actor_unspecified ↦ some "unauthorized actor type"
]

module _ {Db : Type 0} where
  unfoldable pub db_enabled : Wagering Db → Bool
  db_enabled s = elim s.db [ none ↦ false | some _ ↦ true ]

  -- `useInMemoryCache` and `useInMemoryWagerMirror` have one body.
  unfoldable pub use_in_memory : Wagering Db → Bool
  unfolding db_enabled
  use_in_memory s = not (db_enabled s && s.disable_in_mem_cache)

  -- `wall` is the reading of the system's clock in nanoseconds.
  unfoldable pub next_wager_id_locked : ℕ → Wagering Db → String × Wagering Db
  next_wager_id_locked wall s = (
    "wager-" +ˢ (format_int wall +ˢ ("-" +ˢ format_int (s.next_wager_id + 1))),
    record s { next_wager_id = s.next_wager_id + 1 },
  )

  unfoldable pub next_audit_id_locked : Wagering Db → String × Wagering Db
  next_audit_id_locked s = (
    "wagering-audit-" +ˢ format_int (s.next_audit_id + 1),
    record s { next_audit_id = s.next_audit_id + 1 },
  )

  unfoldable pub replies : Operation → Wagering Db → Dict WagerResponse
  replies place s = s.place_by_idempotency
  replies settle s = s.settle_by_idempotency
  replies cancel s = s.cancel_by_idempotency

  unfoldable pub with_replies : Operation → Dict WagerResponse → Wagering Db → Wagering Db
  with_replies place d s = record s { place_by_idempotency = d }
  with_replies settle d s = record s { settle_by_idempotency = d }
  with_replies cancel d s = record s { cancel_by_idempotency = d }

  unfoldable pub cached_reply : Operation → String → Wagering Db → Option WagerResponse
  unfolding use_in_memory replies
  cached_reply op key s = if use_in_memory s then lookup key (replies op s) else none

  unfoldable pub cache_reply : Operation → String → WagerResponse → Wagering Db → Wagering Db
  unfolding use_in_memory replies with_replies
  cache_reply op key r s =
      if use_in_memory s then with_replies op (insert key r (replies op s)) s else s

  -- s.wagers[w.WagerId] = …, where the mirror is in use
  unfoldable pub mirror_wager : Wager → Wagering Db → Wagering Db
  unfolding use_in_memory
  mirror_wager w s =
      if use_in_memory s then record s { wagers = insert w.wager_id w s.wagers } else s

  unfoldable pub mirrored : String → Wagering Db → Option Wager
  unfolding use_in_memory
  mirrored wager_id s = if use_in_memory s then lookup wager_id s.wagers else none

module _ (env : WageringEnv) (now : ℕ) where
  unfoldable pub response_meta : Option RequestMeta → ResultCode → String → ResponseMeta
  response_meta meta code denial = record {
    request_id = request_id_of meta;
    result_code = code;
    denial_reason = denial;
    server_time = env.format_time now;
  }

  unfoldable pub audit_event :
      Option RequestMeta → String → String → String → String → String → Result → String → Event
  audit_event meta id object_id action before after result reason = record {
    audit_id = id;
    occurred_at = now;
    recorded_at = now;
    actor_id = actor_id_or_system (meta_actor meta);
    actor_type = actor_type_or_service (meta_actor meta);
    auth_context = "";
    object_type = "wager";
    object_id = object_id;
    action = action;
    before = before;
    after = after;
    result = result;
    reason = reason;
    partition_day = env.partition_day now;
    hash_prev = "";
    hash_curr = "";
  }

  -- The insertion into the database; true where there is no database.
  unfoldable pub insert_audit : Event → Wagering env.Db → Bool × Wagering env.Db
  insert_audit ev s = elim s.db [
    | none ↦ (true, s)
    | some d ↦ let (ok, d') = env.insert_audit_event d ev in (ok, record s { db = some d' })
  ]

  unfoldable pub store_event : Event → Wagering env.Db → Bool × Wagering env.Db
  unfolding append
  store_event ev s = elim s.audit_store [
    | none ↦ (false, s)
    | some store ↦ elim (append env.hashing store ev) [
      | appended _ store' ↦ (true, record s { audit_store = some store' })
      | corrupt_chain ↦ (false, s)
    ]
  ]

  -- True where `appendAudit` returns a nil error.
  unfoldable pub append_audit :
      Option RequestMeta
      → String
      → String
      → String
      → String
      → Result
      → String
      → Wagering env.Db
      → Bool × Wagering env.Db
  unfolding next_audit_id_locked audit_event insert_audit store_event
  append_audit meta object_id action before after result reason s = elim s.audit_store [
    | none ↦ (false, s)
    | some _ ↦
        let (id, s₁) = next_audit_id_locked s in
        let ev = audit_event meta id object_id action before after result reason in
        let (ok, s₂) = insert_audit ev s₁ in if ok then store_event ev s₂ else (false, s₂)
  ]

  unfoldable pub hash_wagering_request : List String → String
  unfolding join
  hash_wagering_request parts = env.sha256_hex (join parts)

  -- True where the returned error is nil.
  unfoldable pub persist_wager : Wager → Wagering env.Db → Bool × Wagering env.Db
  persist_wager w s = elim s.db [
    | none ↦ (true, s)
    | some d ↦ let (ok, d') = env.upsert_wager d w in (ok, record s { db = some d' })
  ]

  unfoldable pub load_idempotency_response :
      Operation → String → String → String → Wagering env.Db → Loaded WagerResponse
  unfolding operation_name
  load_idempotency_response op scope idem request_hash s = elim s.db [
    | none ↦ not_found
    | some d ↦ elim (env.query_idempotency d (operation_name op) scope idem) [
      | failed ↦ load_failed
      | no_rows ↦ not_found
      | row (stored_hash, payload) ↦
          if stored_hash =ˢ request_hash
          then elim (env.unmarshal_response payload) [ none ↦ load_failed | some r ↦ found r ]
          else mismatch
    ]
  ]

  insert_response :
      Option String
      → Operation
      → String
      → String
      → String
      → env.Db
      → Wagering env.Db
      → Bool × Wagering env.Db
  insert_response none op scope idem request_hash d s = (false, s)
  insert_response (some payload) op scope idem request_hash d s =
      let (ok, d') = env.insert_idempotency d (operation_name op) scope idem request_hash payload in
      (ok, record s { db = some d' })

  -- True where the returned error is nil.
  unfoldable pub persist_idempotency_response :
      Operation
      → String
      → String
      → String
      → WagerResponse
      → Wagering env.Db
      → Bool × Wagering env.Db
  unfolding insert_response
  persist_idempotency_response op scope idem request_hash resp s = elim s.db [
    | none ↦ (true, s)
    | some d ↦ insert_response (env.marshal_response resp) op scope idem request_hash d s
  ]
