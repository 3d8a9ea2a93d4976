-- ===== src/Config/Branches.antt =====
-- ApproveConfigChange and ApplyConfigChange on a service that keeps its state in memory: one equation
-- for each branch.
use open_rgs_go.Prelude.{
  ℕ, String, ◌≡◌, true, false, Option, none, some, arith, ◌=ˢ◌, if◌then◌else◌,
}
use open_rgs_go.Prelude.Dict.{lookup, insert, insert-insert, lookup-insert_self}
use open_rgs_go.Proto.{Actor, RequestMeta, code_denied, code_invalid}
use open_rgs_go.Actor.{TokenActor, resolve_actor, meta_actor}
use open_rgs_go.Audit.{Result, success, denied}
use open_rgs_go.Journal.{record_event, refuse_with, audit}
use open_rgs_go.Journal.Sound.{IsSound, record_event-IsSound}
use open_rgs_go.Config.State.{
  status_proposed, status_approved, status_applied, ConfigChange, DecisionRequest, Config,
  ConfigEnv, change_subject,
}
use open_rgs_go.Config.Methods.{
  authorize, same_status, write_through, append_audit, persist_config_change, with_db, key_for,
  persist_current_value,
}
use open_rgs_go.Config.Changes.{
  fail, answer_with, with_status, approved, applied, refuse, find_change, found_change,
  approve_body, approve_config_change, apply_body, apply_config_change, finish_approval,
  finish_application, audit_change, persist, set_current_value,
}
use open_rgs_go.Config.Holds.{written}

module _ (env : ConfigEnv) (now : ℕ) (ctx : Option TokenActor) where
  -- The state after the journal took one event about a change.
  abbrev pub journaled :
      Option RequestMeta
      → String
      → String
      → String
      → String
      → Result
      → String
      → Config env.Db
      → Config env.Db
  journaled meta id action before after result reason s = record s {
    journal =
        (record_event env.journal_env now change_subject meta id action before after result reason
          s.journal).1;
  }

  -- The change is written, and its value is current where the service keeps values in memory.
  abbrev pub with_value : String → ConfigChange → Config env.Db → Config env.Db
  with_value id c s = record (written id c s) {
    current_values =
        if s.disable_in_memory_cache
        then s.current_values
        else insert (key_for c.config_namespace c.config_key) c.proposed_value s.current_values;
  }

  module _ (req : DecisionRequest) (s : Config env.Db) (asked : (req.change_id =ˢ "") ≡ false)
      (allowed : authorize (resolve_actor env.normalize ctx req.meta) ≡ none)
      (sound : IsSound env.journal_env s.journal) where
    pub approve-decides :
        (c : ConfigChange) (a : Actor)
        → lookup req.change_id s.changes ≡ some c
        → c.status ≡ status_proposed
        → meta_actor req.meta ≡ some a
        → let new = approved a.actor_id (env.format_time now) c in
          approve_config_change env now ctx (some req) s ≡ (
            some (answer_with env now ctx req.meta new),
            journaled req.meta c.change_id "approve_config_change"
                (env.marshal_change c)
                (env.marshal_change new)
                success
                req.reason
                (written req.change_id new s),
          )
    unfolding approve_config_change approve_body refuse refuse_with find_change found_change
        same_status write_through finish_approval audit_change append_audit audit persist
        persist_config_change with_db
    approve-decides c a there is named =
        let new = approved a.actor_id (env.format_time now) c in
        let mid = with_status status_approved c in
        let (j, done, after) =
          record_event-IsSound env.journal_env now change_subject req.meta c.change_id
            "approve_config_change" (env.marshal_change c) (env.marshal_change new) success
            req.reason s.journal sound in
        ground (
          arith,
          asked,
          allowed,
          there,
          is,
          named,
          sound.offline,
          lookup-insert_self req.change_id mid s.changes,
          insert-insert req.change_id new mid s.changes,
          done,
          after.offline,
        )

    pub apply-decides :
        (c : ConfigChange) (a : Actor)
        → lookup req.change_id s.changes ≡ some c
        → c.status ≡ status_approved
        → meta_actor req.meta ≡ some a
        → let new = applied a.actor_id (env.format_time now) c in
          apply_config_change env now ctx (some req) s ≡ (
            some (answer_with env now ctx req.meta new),
            journaled req.meta c.change_id "apply_config_change"
                (env.marshal_change c)
                (env.marshal_change new)
                success
                req.reason
                (with_value req.change_id new s),
          )
    unfolding apply_config_change apply_body refuse refuse_with find_change found_change same_status
        write_through finish_application audit_change append_audit audit persist
        persist_config_change persist_current_value with_db set_current_value
    apply-decides c a there is named =
        let new = applied a.actor_id (env.format_time now) c in
        let mid = with_status status_applied c in
        let (j, done, after) =
          record_event-IsSound env.journal_env now change_subject req.meta c.change_id
            "apply_config_change" (env.marshal_change c) (env.marshal_change new) success req.reason
            s.journal sound in
        ground (
          arith,
          asked,
          allowed,
          there,
          is,
          named,
          sound.offline,
          lookup-insert_self req.change_id mid s.changes,
          insert-insert req.change_id new mid s.changes,
          done,
          after.offline,
        )

    pub approve-unknown :
        lookup req.change_id s.changes ≡ none
        → approve_config_change env now ctx (some req) s
          ≡ (some (fail env now ctx req.meta code_invalid "change not found"), s)
    unfolding approve_config_change approve_body refuse refuse_with find_change found_change
    approve-unknown there = ground (arith, asked, allowed, there, sound.offline)

    pub apply-unknown :
        lookup req.change_id s.changes ≡ none
        → apply_config_change env now ctx (some req) s
          ≡ (some (fail env now ctx req.meta code_invalid "change not found"), s)
    unfolding apply_config_change apply_body refuse refuse_with find_change found_change
    apply-unknown there = ground (arith, asked, allowed, there, sound.offline)

    pub approve-too_late :
        (c : ConfigChange)
        → lookup req.change_id s.changes ≡ some c
        → same_status c.status status_proposed ≡ false
        → approve_config_change env now ctx (some req) s
          ≡ (some (fail env now ctx req.meta code_denied "change is not in proposed state"), s)
    unfolding approve_config_change approve_body refuse refuse_with find_change found_change
    approve-too_late c there is = ground (arith, asked, allowed, there, is)

    pub apply-too_late :
        (c : ConfigChange)
        → lookup req.change_id s.changes ≡ some c
        → same_status c.status status_approved ≡ false
        → apply_config_change env now ctx (some req) s
          ≡ (some (fail env now ctx req.meta code_denied "change is not approved"), s)
    unfolding apply_config_change apply_body refuse refuse_with find_change found_change
    apply-too_late c there is = ground (arith, asked, allowed, there, is)

  module _ (req : DecisionRequest) (s : Config env.Db) where
    pub approve-no_id :
        (req.change_id =ˢ "") ≡ true
        → approve_config_change env now ctx (some req) s
          ≡ (some (fail env now ctx none code_invalid "change_id is required"), s)
    unfolding approve_config_change approve_body
    approve-no_id asked = ground (arith, asked)

    pub apply-no_id :
        (req.change_id =ˢ "") ≡ true
        → apply_config_change env now ctx (some req) s
          ≡ (some (fail env now ctx none code_invalid "change_id is required"), s)
    unfolding apply_config_change apply_body
    apply-no_id asked = ground (arith, asked)

    pub approve-denies :
        (reason : String)
        → (req.change_id =ˢ "") ≡ false
        → authorize (resolve_actor env.normalize ctx req.meta) ≡ some reason
        → approve_config_change env now ctx (some req) s ≡ (
          some (fail env now ctx req.meta code_denied reason),
          journaled req.meta req.change_id "approve_config_change" "{}" "{}" denied reason s,
        )
    unfolding approve_config_change approve_body refuse refuse_with audit
    approve-denies reason asked refused = ground (arith, asked, refused)

    pub apply-denies :
        (reason : String)
        → (req.change_id =ˢ "") ≡ false
        → authorize (resolve_actor env.normalize ctx req.meta) ≡ some reason
        → apply_config_change env now ctx (some req) s ≡ (
          some (fail env now ctx req.meta code_denied reason),
          journaled req.meta req.change_id "apply_config_change" "{}" "{}" denied reason s,
        )
    unfolding apply_config_change apply_body refuse refuse_with audit
    apply-denies reason asked refused = ground (arith, asked, refused)
