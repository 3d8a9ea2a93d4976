-- ===== src/Config/Decisions.antt =====
-- ApproveConfigChange and ApplyConfigChange on a service that keeps its state in memory.
use open_rgs_go.Prelude.{
  ℕ, String, ◌≡◌, ◌≢◌, refl, true, false, not, Option, none, some, arith, ◌=ˢ◌,
}
use open_rgs_go.Prelude.Dict.{lookup, insert}
use open_rgs_go.Prelude.Flow.{Body, modify, return_if, pure, ◌>>=◌, ◌>>◌}
use open_rgs_go.Prelude.Flow.Triple.{
  Triple, Triple-bind, Triple-return_if, Triple-guard, Triple-pure, Triple-require, Triple-given,
  Answers, run-Answers,
}
use open_rgs_go.Proto.{Actor, code_ok, code_denied, code_invalid, code_error}
use open_rgs_go.Actor.{TokenActor, resolve_actor, meta_actor}
use open_rgs_go.Journal.{meta_of}
use open_rgs_go.Journal.Sound.{IsSound}
use open_rgs_go.Config.State.{
  ChangeStatus, status_unspecified, status_proposed, status_approved, status_applied,
  status_rejected, ConfigChange, DecisionRequest, ChangeResponse, Config, ConfigEnv,
}
use open_rgs_go.Config.Methods.{same_status, key_for, authorize}
use open_rgs_go.Config.Changes.{
  fail, answer_with, refuse, find_change, with_status, approved, applied, finish_approval,
  finish_application, set_current_value, approve_body, approve_config_change, apply_body,
  apply_config_change,
}
use open_rgs_go.Config.Holds.{
  Holding, Holding-refl, Holding-step, written, refuse-Triple, audit_change-Triple, persist-Triple,
  find_change-Triple, mark-Triple, persist_current_value-Triple,
}

pub same_status-proposed :
    (a : ChangeStatus) → same_status a status_proposed ≡ true → a ≡ status_proposed
unfolding same_status
same_status-proposed status_proposed h = refl
same_status-proposed status_unspecified h = absurd (cc h)
same_status-proposed status_approved h = absurd (cc h)
same_status-proposed status_applied h = absurd (cc h)
same_status-proposed status_rejected h = absurd (cc h)

pub same_status-approved :
    (a : ChangeStatus) → same_status a status_approved ≡ true → a ≡ status_approved
unfolding same_status
same_status-approved status_approved h = refl
same_status-approved status_unspecified h = absurd (cc h)
same_status-approved status_proposed h = absurd (cc h)
same_status-approved status_applied h = absurd (cc h)
same_status-approved status_rejected h = absurd (cc h)

-- A refusal that leaves the state as it was; or the change is there with the status `from`, the
-- caller may decide on it, and it is answered as `change` makes it, and the state is as `effect`
-- makes it.
pub data Decision (env : ConfigEnv) (ctx : Option TokenActor) (req : DecisionRequest)
    (from : ChangeStatus) (change : ConfigChange → ConfigChange)
    (effect : ConfigChange → Config env.Db → Config env.Db) (start : Config env.Db)
    (r : ChangeResponse) (s : Config env.Db) : Type 0 where
  refused :
      r.meta.result_code ≢ code_ok
      → Holding env start s
      → Decision env ctx req from change effect start r s
  decided :
      r.meta.result_code ≡ code_ok
      → (c : ConfigChange) → lookup req.change_id start.changes ≡ some c
      → c.status ≡ from
      → authorize (resolve_actor env.normalize ctx req.meta) ≡ none
      → r.change ≡ some (change c)
      → Holding env (effect (change c) start) s
      → Decision env ctx req from change effect start r s

module _ (env : ConfigEnv) (now : ℕ) (ctx : Option TokenActor) (start : Config env.Db)
    (req : DecisionRequest) (a : Actor) (named : meta_actor req.meta ≡ some a)
    (change : ConfigChange → ConfigChange) (effect : ConfigChange → Config env.Db → Config env.Db)
    (from : ChangeStatus)
    (same : (status : ChangeStatus) → same_status status from ≡ true → status ≡ from) where
  abbrev pub End : ChangeResponse → Config env.Db → Type 0
  End r s = Decision env ctx req from change effect start r s

  -- The checks that both handlers begin with, before the steps on the change.
  checked-Triple :
      (action reason : String)
      (steps : ConfigChange → Body (Config env.Db) ChangeResponse ChangeResponse)
      → ((c : ConfigChange)
          → lookup req.change_id start.changes ≡ some c
          → c.status ≡ from
          → authorize (resolve_actor env.normalize ctx req.meta) ≡ none
          → Triple (Holding env start) End End (steps c))
      → Triple (Holding env start) End End (
          return_if
            (req.change_id =ˢ "")
            (fail env now ctx none code_invalid "change_id is required")
          >> (refuse env now ctx req.meta req.change_id action
              >> (find_change env now ctx req.meta req.change_id >>= λ c.
                  return_if
                    (not (same_status c.status from))
                    (fail env now ctx req.meta code_denied reason)
                  >> steps c)))
  unfolding meta_of
  checked-Triple action reason steps h =
      Triple-bind
        (Triple-guard (req.change_id =ˢ "")
          (fail env now ctx none code_invalid "change_id is required")
          (λ s p. refused (λ e. cc e) p))
        λ _.
          Triple-bind
            (refuse-Triple env now ctx start req.meta req.change_id action
              (λ s why p. refused (λ e. cc e) p))
            λ _. Triple-given λ allowed.
              Triple-bind
                (find_change-Triple env now ctx start req.meta req.change_id
                  (λ s p. refused (λ e. cc e) p))
                λ c. Triple-given λ there.
                  Triple-bind
                    (Triple-return_if (not (same_status c.status from))
                      (fail env now ctx req.meta code_denied reason)
                      (λ s p _. refused (λ e. cc e) p))
                    λ _. Triple-given λ is. h c there (same c.status (ground (arith, is))) allowed

  finish-Triple :
      (c : ConfigChange)
      → lookup req.change_id start.changes ≡ some c
      → c.status ≡ from
      → authorize (resolve_actor env.normalize ctx req.meta) ≡ none
      → Triple
          (Holding env (effect (change c) start))
          End
          End
          (pure (answer_with env now ctx req.meta (change c)))
  unfolding meta_of
  finish-Triple c there is allowed =
      Triple-pure (answer_with env now ctx req.meta (change c))
        λ s p. decided refl c there is allowed refl p

module _ (env : ConfigEnv) (now : ℕ) (ctx : Option TokenActor) (start : Config env.Db)
    (req : DecisionRequest) (a : Actor) (named : meta_actor req.meta ≡ some a) where
  abbrev pub approval : ConfigChange → ConfigChange
  approval = approved a.actor_id (env.format_time now)

  abbrev Approval : ChangeResponse → Config env.Db → Type 0
  Approval =
      End env now ctx start req a named approval (written req.change_id) status_proposed
        same_status-proposed

  abbrev by_approver : ConfigChange → String → ConfigChange
  by_approver c by = approved by (env.format_time now) c

  approve-Triple : Triple (Holding env start) Approval Approval (approve_body env now ctx req)
  unfolding approve_body finish_approval
  approve-Triple =
      checked-Triple env now ctx start req a named approval (written req.change_id) status_proposed
        same_status-proposed "approve_config_change" "change is not in proposed state" _
        λ c there is allowed.
          mark-Triple env {E = Approval} start req.meta a req.change_id c
            (with_status status_approved c) (by_approver c)
            (λ by. finish_approval env now ctx req c (by_approver c by)) named there
            (Triple-bind
              (audit_change-Triple env now ctx (written req.change_id (approval c) start) req.meta
                c.change_id "approve_config_change" (env.marshal_change c) (approval c) req.reason)
              λ _.
                Triple-bind
                  (persist-Triple env now ctx (written req.change_id (approval c) start) req.meta
                    (approval c))
                  λ _.
                    finish-Triple env now ctx start req a named approval (written req.change_id)
                      status_proposed same_status-proposed c there is allowed)

  abbrev pub application : ConfigChange → ConfigChange
  application = applied a.actor_id (env.format_time now)

  abbrev by_operator : ConfigChange → String → ConfigChange
  by_operator c by = applied by (env.format_time now) c

  -- The change is written, and its value is current.
  abbrev pub applied_state : ConfigChange → Config env.Db → Config env.Db
  applied_state c s = record (written req.change_id c s) {
    current_values =
        insert (key_for c.config_namespace c.config_key) c.proposed_value s.current_values;
  }

  abbrev Application : ChangeResponse → Config env.Db → Type 0
  Application =
      End env now ctx start req a named application applied_state status_approved
        same_status-approved

  set-Triple :
      {E : ChangeResponse → Config env.Db → Type 0} (c : ConfigChange)
      → start.disable_in_memory_cache ≡ false
      → Triple
          (Holding env (written req.change_id c start))
          E
          (λ _. Holding env (applied_state c start))
          (modify (set_current_value c))
  unfolding set_current_value
  set-Triple c cached = record {
    at = λ s p.
        Holding-step env (set_current_value c) (written req.change_id c start) s
          (applied_state c start) (λ j. ground (arith, cached)) p;
  }

  apply-Triple :
      start.disable_in_memory_cache ≡ false
      → Triple (Holding env start) Application Application (apply_body env now ctx req)
  unfolding apply_body finish_application
  apply-Triple cached =
      checked-Triple env now ctx start req a named application applied_state status_approved
        same_status-approved "apply_config_change" "change is not approved" _
        λ c there is allowed.
          mark-Triple env {E = Application} start req.meta a req.change_id c
            (with_status status_applied c) (by_operator c)
            (λ by. finish_application env now ctx req c (by_operator c by)) named there
            (Triple-bind (set-Triple (application c) cached) λ _.
              Triple-bind
                (audit_change-Triple env now ctx (applied_state (application c) start) req.meta
                  c.change_id "apply_config_change" (env.marshal_change c) (application c)
                  req.reason)
                λ _.
                  Triple-bind
                    (persist-Triple env now ctx (applied_state (application c) start) req.meta
                      (application c))
                    λ _.
                      Triple-bind
                        (persist_current_value-Triple env now (applied_state (application c) start)
                          c.config_namespace c.config_key c.proposed_value a.actor_id)
                        λ ok.
                          Triple-bind
                            (Triple-require ok
                              (fail env now ctx req.meta code_error "persistence unavailable"))
                            λ _.
                              finish-Triple env now ctx start req a named application applied_state
                                status_approved same_status-approved c there is allowed)

  -- ApproveConfigChange, for a request that names its actor, always answers, and either refuses and
  -- changes nothing but the audit store, or the change was proposed, the caller is an operator or a
  -- service, and the change is now approved in the caller's name and nothing but the journal is different
  -- besides.
  pub approve_config_change-Decision :
      IsSound env.journal_env start.journal
      → Answers
          (Decision env ctx req status_proposed approval (written req.change_id) start)
          (approve_config_change env now ctx (some req) start)
  unfolding approve_config_change
  approve_config_change-Decision sound =
      run-Answers (approve_body env now ctx req) approve-Triple start (Holding-refl env start sound)

  -- ApplyConfigChange, for a request that names its actor, always answers, and either refuses and
  -- changes nothing but the audit store, or the change was approved, the caller is an operator or a
  -- service, the change is now applied in the caller's name, the value it proposed is the current
  -- value of its key, and nothing but the journal is different besides.
  pub apply_config_change-Decision :
      IsSound env.journal_env start.journal
      → start.disable_in_memory_cache ≡ false
      → Answers
          (Decision env ctx req status_approved application applied_state start)
          (apply_config_change env now ctx (some req) start)
  unfolding apply_config_change
  apply_config_change-Decision sound cached =
      run-Answers (apply_body env now ctx req) (apply-Triple cached) start
        (Holding-refl env start sound)
