-- ===== src/Config/Submissions.antt =====
-- ProposeConfigChange on a service that keeps its state in memory: the whole of what each answer
-- comes with.
use open_rgs_go.Prelude.{
  ℕ, ◌+◌, String, ◌≡◌, refl, Bool, Bool-cases, true, false, ◌||◌, inl, inr, Option, none, some, [],
  ◌∷◌, ◌++◌, arith, ◌=ˢ◌, if◌then◌else◌,
}
use open_rgs_go.Prelude.Dict.{lookup_or, insert}
use open_rgs_go.Proto.{Actor, code_denied, code_invalid}
use open_rgs_go.Actor.{TokenActor, resolve_actor, meta_actor}
use open_rgs_go.Audit.{success, denied}
use open_rgs_go.Journal.{refuse_with, audit}
use open_rgs_go.Journal.Sound.{IsSound, record_event-IsSound}
use open_rgs_go.Config.State.{
  ConfigChange, ProposeRequest, ChangeResponse, Config, ConfigEnv, change_subject,
}
use open_rgs_go.Config.Methods.{
  authorize, append_audit, persist_config_change, with_db, key_for, current_value,
  next_change_id_locked,
}
use open_rgs_go.Config.Changes.{
  fail, answer_with, refuse, new_change, keep_change, read_current, submit_change, propose_as,
  propose_body, propose_config_change, audit_change, persist,
}
use open_rgs_go.Config.Proposals.{next_id}
use open_rgs_go.Config.Branches.{journaled}

abbrev pub is_incomplete : ProposeRequest → Bool
is_incomplete req = req.config_namespace =ˢ "" || req.config_key =ˢ "" || req.proposed_value =ˢ ""

module _ (env : ConfigEnv) (now : ℕ) (ctx : Option TokenActor) (req : ProposeRequest)
    (s : Config env.Db) where
  -- The proposed change, which remembers the current value of its key.
  abbrev pub proposal_of : Actor → ConfigChange
  proposal_of a =
      new_change req (next_id env s)
        (lookup_or "" (key_for req.config_namespace req.config_key) s.current_values) a.actor_id
        (env.format_time now)

  abbrev pub numbered : Config env.Db
  numbered = record s { next_change_id = s.next_change_id + 1 }

  -- The change is there under the next id, as the latest of the history, where the service keeps
  -- changes in memory.
  abbrev pub with_proposal : ConfigChange → Config env.Db
  with_proposal c = if s.disable_in_memory_cache then numbered else record numbered {
    changes = insert (next_id env s) c s.changes;
    change_order = s.change_order ++ (next_id env s ∷ []);
  }

  -- What a proposal comes to: the answer, none for a panic, and the state.
  pub data Submission (run : Option ChangeResponse × Config env.Db) : Type 0 where
    incomplete :
        is_incomplete req ≡ true
        → run ≡ (
          some (
              fail env now ctx none code_invalid
                "config_namespace, config_key and proposed_value are required"),
          s,
        )
        → Submission run
    denies :
        is_incomplete req ≡ false
        → (reason : String) → authorize (resolve_actor env.normalize ctx req.meta) ≡ some reason
        → run ≡ (
          some (fail env now ctx req.meta code_denied reason),
          journaled env now ctx req.meta "" "propose_config_change" "{}" "{}" denied reason s,
        )
        → Submission run
    panics :
        is_incomplete req ≡ false
        → authorize (resolve_actor env.normalize ctx req.meta) ≡ none
        → meta_actor req.meta ≡ none
        → run ≡ (none, numbered)
        → Submission run
    proposes :
        is_incomplete req ≡ false
        → authorize (resolve_actor env.normalize ctx req.meta) ≡ none
        → (a : Actor) → meta_actor req.meta ≡ some a
        → run ≡ (
          some (answer_with env now ctx req.meta (proposal_of a)),
          journaled env now ctx req.meta
              (next_id env s)
              "propose_config_change"
              "{}"
              (env.marshal_change (proposal_of a))
              success
              req.reason
              (with_proposal (proposal_of a)),
        )
        → Submission run

  propose-incomplete :
      is_incomplete req ≡ true
      → propose_config_change env now ctx (some req) s ≡ (
        some (
            fail env now ctx none code_invalid
              "config_namespace, config_key and proposed_value are required"),
        s,
      )
  unfolding propose_config_change propose_body
  propose-incomplete bad = rw (bad, if◌then◌else◌) refl

  module _ (complete : is_incomplete req ≡ false) where
    propose-denies :
        (reason : String)
        → authorize (resolve_actor env.normalize ctx req.meta) ≡ some reason
        → propose_config_change env now ctx (some req) s ≡ (
          some (fail env now ctx req.meta code_denied reason),
          journaled env now ctx req.meta "" "propose_config_change" "{}" "{}" denied reason s,
        )
    unfolding propose_config_change propose_body refuse refuse_with audit
    propose-denies reason refused = ground (arith, complete, refused)

    module _ (allowed : authorize (resolve_actor env.normalize ctx req.meta) ≡ none)
        (sound : IsSound env.journal_env s.journal) where
      propose-panics :
          meta_actor req.meta ≡ none
          → propose_config_change env now ctx (some req) s ≡ (none, numbered)
      unfolding propose_config_change propose_body refuse refuse_with next_change_id_locked
          propose_as read_current current_value
      propose-panics unnamed = ground (arith, complete, allowed, unnamed, sound.offline)

      propose-proposes :
          (a : Actor)
          → meta_actor req.meta ≡ some a
          → propose_config_change env now ctx (some req) s ≡ (
            some (answer_with env now ctx req.meta (proposal_of a)),
            journaled env now ctx req.meta
                (next_id env s)
                "propose_config_change"
                "{}"
                (env.marshal_change (proposal_of a))
                success
                req.reason
                (with_proposal (proposal_of a)),
          )
      unfolding propose_config_change propose_body refuse refuse_with next_change_id_locked
          propose_as read_current current_value submit_change audit_change append_audit audit
          persist persist_config_change with_db keep_change
      propose-proposes a named =
          let new = proposal_of a in
          let (j, done, after) =
            record_event-IsSound env.journal_env now change_subject req.meta (next_id env s)
              "propose_config_change" "{}" (env.marshal_change new) success req.reason s.journal
              sound in
          ground (arith, complete, allowed, named, sound.offline, done, after.offline)

-- ProposeConfigChange without a database and with a chained audit store, whatever the
-- request and the rest of the state: each branch of its
-- answer and the whole state after it, the audit event included. An incomplete request changes
-- nothing; the refusal of a caller who is neither operator nor service is audited and changes
-- nothing else; a caller whom the request does not name makes it panic with the number of the change
-- used up; else the change is proposed in the caller's name under the next id, with the current
-- value of its key as the previous value, it is the latest of the history (unless the service keeps
-- nothing in memory), it is audited, and nothing else is different.
pub propose_config_change-Submission :
    (env : ConfigEnv) (now : ℕ) (ctx : Option TokenActor) (req : ProposeRequest) (s : Config env.Db)
    → IsSound env.journal_env s.journal
    → Submission env now ctx req s (propose_config_change env now ctx (some req) s)
propose_config_change-Submission env now ctx req s sound = elim (Bool-cases (is_incomplete req)) [
  | inl bad ↦ incomplete bad (propose-incomplete env now ctx req s bad)
  | inr complete ↦ by_caller complete (authorize (resolve_actor env.normalize ctx req.meta)) refl
]
  where
    by_caller :
        is_incomplete req ≡ false
        → (o : Option String) → authorize (resolve_actor env.normalize ctx req.meta) ≡ o
        → Submission env now ctx req s (propose_config_change env now ctx (some req) s)
    by_caller complete (some reason) refused =
        denies complete reason refused (propose-denies env now ctx req s complete reason refused)
    by_caller complete none allowed = by_actor (meta_actor req.meta) refl
      where
        by_actor :
            (o : Option Actor)
            → meta_actor req.meta ≡ o
            → Submission env now ctx req s (propose_config_change env now ctx (some req) s)
        by_actor none e =
            panics complete allowed e (propose-panics env now ctx req s complete allowed sound e)
        by_actor (some a) e =
            proposes complete allowed a e
              (propose-proposes env now ctx req s complete allowed sound a e)
