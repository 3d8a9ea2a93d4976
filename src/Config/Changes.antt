-- ===== src/Config/Changes.antt =====
-- ProposeConfigChange, ApproveConfigChange and ApplyConfigChange of config_grpc.go.
use open_rgs_go.Prelude.{
  ℕ, String, not, ◌||◌, Option, none, some, [], ◌∷◌, ◌++◌, ◌=ˢ◌, if◌then◌else◌,
}
use open_rgs_go.Prelude.Dict.{lookup, insert}
use open_rgs_go.Prelude.Flow.{
  Body, next, blocked, pure, return, call, modify, or_return, return_if, run, ◌>>=◌, ◌>>◌,
}
use open_rgs_go.Proto.{
  Actor, RequestMeta, ResultCode, code_ok, code_denied, code_invalid, code_error,
}
use open_rgs_go.Actor.{TokenActor, meta_actor, resolve_actor}
use open_rgs_go.Audit.{success}
use open_rgs_go.Journal.{refuse_with}
use open_rgs_go.Ledger.Env.{Query, failed, no_rows, row}
use open_rgs_go.Config.State.{
  ChangeStatus, status_proposed, status_approved, status_applied, ConfigChange, ProposeRequest,
  DecisionRequest, ChangeResponse, ChangeRow, Config, ConfigEnv, config_host, change_subject,
}
use open_rgs_go.Config.Rows.{change_of_row}
use open_rgs_go.Config.Methods.{
  same_status, key_for, authorize, next_change_id_locked, write_through, config_meta, append_audit,
  persist_config_change, persist_current_value, current_value,
}

-- meta.Actor.ActorId, which panics where a pointer is nil
abbrev pub actor_id_or_panic : {S R : Type 0} → Option Actor → Body S R String
actor_id_or_panic none s = (blocked, s)
actor_id_or_panic (some a) s = (next a.actor_id, s)

abbrev pub new_change : ProposeRequest → String → String → String → String → ConfigChange
new_change req id previous proposer at = record {
  change_id = id;
  config_namespace = req.config_namespace;
  config_key = req.config_key;
  proposed_value = req.proposed_value;
  previous_value = previous;
  reason = req.reason;
  status = status_proposed;
  proposer_id = proposer;
  approver_id = "";
  applied_by = "";
  created_at = at;
  approved_at = "";
  applied_at = "";
}

abbrev pub with_status : ChangeStatus → ConfigChange → ConfigChange
with_status status c = record c { status = status }

abbrev pub approved : String → String → ConfigChange → ConfigChange
approved by at c = record c { status = status_approved; approver_id = by; approved_at = at }

abbrev pub applied : String → String → ConfigChange → ConfigChange
applied by at c = record c { status = status_applied; applied_by = by; applied_at = at }

module _ {Db : Type 0} where
  -- A change is in the map, and in the order of the history.
  unfoldable pub keep_change : String → ConfigChange → Config Db → Config Db
  keep_change id c s =
      if s.disable_in_memory_cache
      then s
      else record s { changes = insert id c s.changes; change_order = s.change_order ++ (id ∷ []) }

  -- What getConfigChange found, if the service remembers it.
  unfoldable pub remember_change : String → ConfigChange → Config Db → Config Db
  remember_change id c s =
      if s.disable_in_memory_cache then s else record s { changes = insert id c s.changes }

  unfoldable pub set_current_value : ConfigChange → Config Db → Config Db
  unfolding key_for
  set_current_value c s = if s.disable_in_memory_cache then s else record s {
    current_values =
        insert (key_for c.config_namespace c.config_key) c.proposed_value s.current_values;
  }

module _ (env : ConfigEnv) (now : ℕ) (ctx : Option TokenActor) where
  abbrev pub fail : Option RequestMeta → ResultCode → String → ChangeResponse
  fail meta code reason = record { meta = config_meta env now meta code reason; change = none }

  abbrev pub answer_with : Option RequestMeta → ConfigChange → ChangeResponse
  answer_with meta c = record { meta = config_meta env now meta code_ok ""; change = some c }

  unfoldable pub refuse :
      Option RequestMeta → String → String → Body (Config env.Db) ChangeResponse (Unit {0})
  unfolding refuse_with authorize
  refuse meta object_id action =
      refuse_with config_host env.journal_env now change_subject (fail meta code_denied) meta
        object_id action (authorize (resolve_actor env.normalize ctx meta))

  -- The audit of a step on a change.
  unfoldable pub audit_change :
      Option RequestMeta
      → String
      → String
      → String
      → ConfigChange
      → String
      → Body (Config env.Db) ChangeResponse (Unit {0})
  unfolding append_audit
  audit_change meta id action before c reason = do
    audited ← call (
        append_audit env now change_subject meta id action before (env.marshal_change c) success
          reason)
    return_if (not audited) (fail meta code_error "audit unavailable")

  unfoldable pub persist :
      Option RequestMeta → ConfigChange → Body (Config env.Db) ChangeResponse (Unit {0})
  unfolding persist_config_change
  persist meta c = do
    persisted ← call (persist_config_change env now c)
    return_if (not persisted) (fail meta code_error "persistence unavailable")

  -- The current value, or an early return where the database fails.
  unfoldable pub read_current : ProposeRequest → Body (Config env.Db) ChangeResponse String
  unfolding current_value
  read_current req s =
      or_return (current_value env now req.config_namespace req.config_key s)
        (fail req.meta code_error "persistence unavailable") s

  -- The audit of a proposal, its row in the database, and the change in the map.
  unfoldable pub submit_change :
      ProposeRequest → ConfigChange → Body (Config env.Db) ChangeResponse ChangeResponse
  unfolding audit_change persist keep_change
  submit_change req change = do
    audit_change req.meta change.change_id "propose_config_change" "{}" change req.reason
    persist req.meta change
    modify (keep_change change.change_id change)
    pure (answer_with req.meta change)

  -- The proposal of a change with the given id.
  unfoldable pub propose_as :
      ProposeRequest → String → Body (Config env.Db) ChangeResponse ChangeResponse
  unfolding read_current submit_change
  propose_as req id = do
    curr ← read_current req
    proposer ← actor_id_or_panic (meta_actor req.meta)
    submit_change req (new_change req id curr proposer (env.format_time now))

  unfoldable pub propose_body : ProposeRequest → Body (Config env.Db) ChangeResponse ChangeResponse
  unfolding refuse next_change_id_locked propose_as
  propose_body req = do
    return_if (req.config_namespace =ˢ "" || req.config_key =ˢ "" || req.proposed_value =ˢ "")
        (fail none code_invalid "config_namespace, config_key and proposed_value are required")
    refuse req.meta "" "propose_config_change"
    id ← call next_change_id_locked
    propose_as req id

  unfoldable pub propose_config_change :
      Option ProposeRequest → Config env.Db → Option ChangeResponse × Config env.Db
  unfolding propose_body
  propose_config_change none = run (
      return
        (fail none code_invalid "config_namespace, config_key and proposed_value are required"))
  propose_config_change (some req) = run (propose_body req)

  unfoldable pub queried_change :
      Option RequestMeta
      → String
      → Query ChangeRow
      → Body (Config env.Db) ChangeResponse ConfigChange
  unfolding change_of_row remember_change
  queried_change meta id failed = return (fail meta code_error "persistence unavailable")
  queried_change meta id no_rows = return (fail meta code_invalid "change not found")
  queried_change meta id (row r) =
      let c = change_of_row env r in modify (remember_change id c) >> pure c

  unfoldable pub found_change :
      Option RequestMeta
      → String
      → Option ConfigChange
      → Option env.Db
      → Body (Config env.Db) ChangeResponse ConfigChange
  unfolding queried_change
  found_change meta id (some c) db = pure c
  found_change meta id none none = return (fail meta code_invalid "change not found")
  found_change meta id none (some d) = queried_change meta id (env.query_change d id)

  -- The change, from the map or else from the database.
  unfoldable pub find_change :
      Option RequestMeta → String → Body (Config env.Db) ChangeResponse ConfigChange
  unfolding found_change
  find_change meta id s = found_change meta id (lookup id s.changes) s.journal.db s

  -- The end of an approval, of the change as it was and as it is.
  unfoldable pub finish_approval :
      DecisionRequest
      → ConfigChange
      → ConfigChange
      → Body (Config env.Db) ChangeResponse ChangeResponse
  unfolding audit_change persist
  finish_approval req change change' = do
    audit_change req.meta change'.change_id "approve_config_change" (env.marshal_change change)
        change' req.reason
    persist req.meta change'
    pure (answer_with req.meta change')

  unfoldable pub approve_body : DecisionRequest → Body (Config env.Db) ChangeResponse ChangeResponse
  unfolding refuse find_change same_status write_through finish_approval
  approve_body req = do
    return_if (req.change_id =ˢ "") (fail none code_invalid "change_id is required")
    refuse req.meta req.change_id "approve_config_change"
    change ← find_change req.meta req.change_id
    return_if (not (same_status change.status status_proposed))
        (fail req.meta code_denied "change is not in proposed state")
    modify (write_through req.change_id (with_status status_approved change))
    approver ← actor_id_or_panic (meta_actor req.meta)
    let change' = approved approver (env.format_time now) change
    modify (write_through req.change_id change')
    finish_approval req change change'

  unfoldable pub approve_config_change :
      Option DecisionRequest → Config env.Db → Option ChangeResponse × Config env.Db
  unfolding approve_body
  approve_config_change none = run (return (fail none code_invalid "change_id is required"))
  approve_config_change (some req) = run (approve_body req)

  -- The end of an application: the current value, the audit and the database.
  unfoldable pub finish_application :
      DecisionRequest
      → ConfigChange
      → ConfigChange
      → Body (Config env.Db) ChangeResponse ChangeResponse
  unfolding set_current_value audit_change persist persist_current_value
  finish_application req change change' = do
    modify (set_current_value change')
    audit_change req.meta change'.change_id "apply_config_change" (env.marshal_change change)
        change' req.reason
    persist req.meta change'
    kept ← call (
        persist_current_value env now change'.config_namespace change'.config_key
          change'.proposed_value change'.applied_by)
    return_if (not kept) (fail req.meta code_error "persistence unavailable")
    pure (answer_with req.meta change')

  unfoldable pub apply_body : DecisionRequest → Body (Config env.Db) ChangeResponse ChangeResponse
  unfolding refuse find_change same_status write_through finish_application
  apply_body req = do
    return_if (req.change_id =ˢ "") (fail none code_invalid "change_id is required")
    refuse req.meta req.change_id "apply_config_change"
    change ← find_change req.meta req.change_id
    return_if (not (same_status change.status status_approved))
        (fail req.meta code_denied "change is not approved")
    modify (write_through req.change_id (with_status status_applied change))
    by ← actor_id_or_panic (meta_actor req.meta)
    let change' = applied by (env.format_time now) change
    modify (write_through req.change_id change')
    finish_application req change change'

  unfoldable pub apply_config_change :
      Option DecisionRequest → Config env.Db → Option ChangeResponse × Config env.Db
  unfolding apply_body
  apply_config_change none = run (return (fail none code_invalid "change_id is required"))
  apply_config_change (some req) = run (apply_body req)
