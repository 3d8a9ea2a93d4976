-- ===== src/Config/Rulings.antt =====
-- ApproveConfigChange and ApplyConfigChange on a service that keeps its state in memory: the whole
-- of what each answer comes with.
use open_rgs_go.Prelude.{
  ℕ, String, ◌≡◌, ◌≢◌, refl, Bool-cases, true, false, inl, inr, Option, none, some, arith, ◌=ˢ◌,
  eq_iff,
}
use open_rgs_go.Prelude.Dict.{lookup, insert}
use open_rgs_go.Proto.{Actor, code_denied, code_invalid}
use open_rgs_go.Actor.{TokenActor, resolve_actor, meta_actor}
use open_rgs_go.Audit.{success, denied}
use open_rgs_go.Journal.Sound.{IsSound}
use open_rgs_go.Config.State.{
  ChangeStatus, status_proposed, status_approved, status_applied, ConfigChange, DecisionRequest,
  ChangeResponse, Config, ConfigEnv,
}
use open_rgs_go.Config.Methods.{authorize, same_status}
use open_rgs_go.Config.Changes.{
  fail, answer_with, with_status, approved, applied, approve_config_change, apply_config_change,
}
use open_rgs_go.Config.Holds.{written}
use open_rgs_go.Config.Decisions.{same_status-proposed, same_status-approved}
use open_rgs_go.Config.Unnamed.{approve_config_change-unnamed, apply_config_change-unnamed}
use open_rgs_go.Config.Branches.{
  journaled, with_value, approve-no_id, approve-denies, approve-unknown, approve-too_late,
  approve-decides, apply-no_id, apply-denies, apply-unknown, apply-too_late, apply-decides,
}

module _ (env : ConfigEnv) (now : ℕ) (ctx : Option TokenActor) where
  -- What a decision comes to: the answer, none for a panic, and the state. Each case but the last
  -- two leaves every change as it was, and only a refusal of the caller is in the journal. `decide`
  -- is the change in the name of its decider, and `effect` the state with it.
  pub data Ruling (req : DecisionRequest) (action : String) (from to : ChangeStatus) (why : String)
      (decide : String → ConfigChange → ConfigChange)
      (effect : ConfigChange → Config env.Db → Config env.Db) (start : Config env.Db)
      (run : Option ChangeResponse × Config env.Db) : Type 0 where
    no_id :
        req.change_id ≡ ""
        → run ≡ (some (fail env now ctx none code_invalid "change_id is required"), start)
        → Ruling req action from to why decide effect start run
    denies :
        req.change_id ≢ ""
        → (reason : String) → authorize (resolve_actor env.normalize ctx req.meta) ≡ some reason
        → run ≡ (
          some (fail env now ctx req.meta code_denied reason),
          journaled env now ctx req.meta req.change_id action "{}" "{}" denied reason start,
        )
        → Ruling req action from to why decide effect start run
    unknown :
        req.change_id ≢ ""
        → authorize (resolve_actor env.normalize ctx req.meta) ≡ none
        → lookup req.change_id start.changes ≡ none
        → run ≡ (some (fail env now ctx req.meta code_invalid "change not found"), start)
        → Ruling req action from to why decide effect start run
    too_late :
        req.change_id ≢ ""
        → authorize (resolve_actor env.normalize ctx req.meta) ≡ none
        → (c : ConfigChange) → lookup req.change_id start.changes ≡ some c
        → c.status ≢ from
        → run ≡ (some (fail env now ctx req.meta code_denied why), start)
        → Ruling req action from to why decide effect start run
    panics :
        req.change_id ≢ ""
        → authorize (resolve_actor env.normalize ctx req.meta) ≡ none
        → (c : ConfigChange) → lookup req.change_id start.changes ≡ some c
        → c.status ≡ from
        → meta_actor req.meta ≡ none
        → run
          ≡ (none, record start { changes = insert req.change_id (with_status to c) start.changes })
        → Ruling req action from to why decide effect start run
    decides :
        req.change_id ≢ ""
        → authorize (resolve_actor env.normalize ctx req.meta) ≡ none
        → (c : ConfigChange) → lookup req.change_id start.changes ≡ some c
        → c.status ≡ from
        → (a : Actor) → meta_actor req.meta ≡ some a
        → run ≡ (
          some (answer_with env now ctx req.meta (decide a.actor_id c)),
          journaled env now ctx req.meta c.change_id action
              (env.marshal_change c)
              (env.marshal_change (decide a.actor_id c))
              success
              req.reason
              (effect (decide a.actor_id c) start),
        )
        → Ruling req action from to why decide effect start run

  module _ (req : DecisionRequest) (action : String) (from to : ChangeStatus) (why : String)
      (decide : String → ConfigChange → ConfigChange)
      (effect : ConfigChange → Config env.Db → Config env.Db) (start : Config env.Db)
      (run : Option ChangeResponse × Config env.Db)
      (same : (status : ChangeStatus) → same_status status from ≡ true → status ≡ from)
      (self : same_status from from ≡ true) where
    abbrev Ends : Type 0
    Ends = Ruling req action from to why decide effect start run

    shown : (req.change_id =ˢ "") ≡ false → req.change_id ≢ ""
    shown asked e = ground (arith, asked, e, eq_iff req.change_id "")

    -- A ruling is made of its six cases.
    made_of :
        ((req.change_id =ˢ "") ≡ true
          → run ≡ (some (fail env now ctx none code_invalid "change_id is required"), start))
        → ((reason : String)
            → (req.change_id =ˢ "") ≡ false
            → authorize (resolve_actor env.normalize ctx req.meta) ≡ some reason
            → run ≡ (
              some (fail env now ctx req.meta code_denied reason),
              journaled env now ctx req.meta req.change_id action "{}" "{}" denied reason start,
            ))
        → ((req.change_id =ˢ "") ≡ false
            → authorize (resolve_actor env.normalize ctx req.meta) ≡ none
            → (lookup req.change_id start.changes ≡ none
                → run ≡ (some (fail env now ctx req.meta code_invalid "change not found"), start))
              × ((c : ConfigChange)
                  → lookup req.change_id start.changes ≡ some c
                  → (same_status c.status from ≡ false
                      → run ≡ (some (fail env now ctx req.meta code_denied why), start))
                    × (c.status ≡ from
                        → (meta_actor req.meta ≡ none
                            → run ≡ (
                              none,
                              record start {
                                changes = insert req.change_id (with_status to c) start.changes;
                              },
                            ))
                          × ((a : Actor)
                              → meta_actor req.meta ≡ some a
                              → run ≡ (
                                some (answer_with env now ctx req.meta (decide a.actor_id c)),
                                journaled env now ctx req.meta c.change_id action
                                    (env.marshal_change c)
                                    (env.marshal_change (decide a.actor_id c))
                                    success
                                    req.reason
                                    (effect (decide a.actor_id c) start),
                              )))))
        → Ends
    made_of empty refuses checks = elim (Bool-cases (req.change_id =ˢ "")) [
      | inl e ↦ no_id (ground (arith, e, eq_iff req.change_id "")) (empty e)
      | inr asked ↦ by_caller asked (authorize (resolve_actor env.normalize ctx req.meta)) refl
    ]
      where
        by_caller :
            (req.change_id =ˢ "") ≡ false
            → (o : Option String) → authorize (resolve_actor env.normalize ctx req.meta) ≡ o
            → Ends
        by_caller asked (some reason) refused =
            denies (shown asked) reason refused (refuses reason asked refused)
        by_caller asked none allowed = by_change (lookup req.change_id start.changes) refl
          where
            by_change : (o : Option ConfigChange) → lookup req.change_id start.changes ≡ o → Ends
            by_change none e = unknown (shown asked) allowed e ((checks asked allowed).0 e)
            by_change (some c) e =
                let (late, decision) = (checks asked allowed).1 c e in
                elim (Bool-cases (same_status c.status from)) [
                  | inl is ↦ by_actor (same c.status is) (meta_actor req.meta) refl
                  | inr other ↦
                      too_late (shown asked) allowed c e (λ h. ground (arith, other, h, self))
                        (late other)
                ]
              where
                by_actor : c.status ≡ from → (o : Option Actor) → meta_actor req.meta ≡ o → Ends
                by_actor is none named =
                    panics (shown asked) allowed c e is named
                      ((((checks asked allowed).1 c e).1 is).0 named)
                by_actor is (some a) named =
                    decides (shown asked) allowed c e is a named
                      ((((checks asked allowed).1 c e).1 is).1 a named)

  -- ApproveConfigChange without a database and with a chained audit store, whatever the
  -- request and the rest of the state: each branch of its
  -- answer and the whole state after it, the audit event included. A request without an id, of an
  -- unknown change or of one that is not proposed changes nothing; the refusal of a caller who is
  -- neither operator nor service is audited and changes nothing else; a caller whom the request does
  -- not name makes it panic with the change marked as approved; else the change is approved in the
  -- caller's name and audited with what it was and what it is, and nothing else is different.
  pub approve_config_change-Ruling :
      (req : DecisionRequest) (s : Config env.Db)
      → IsSound env.journal_env s.journal
      → Ruling req "approve_config_change" status_proposed status_approved
          "change is not in proposed state"
          (λ by c. approved by (env.format_time now) c)
          (written req.change_id)
          s
          (approve_config_change env now ctx (some req) s)
  unfolding same_status
  approve_config_change-Ruling req s sound =
      made_of req _ _ _ _ _ _ s _ same_status-proposed refl (approve-no_id env now ctx req s)
        (approve-denies env now ctx req s)
        λ asked allowed. (
          approve-unknown env now ctx req s asked allowed sound,
          λ c there. (
            approve-too_late env now ctx req s asked allowed sound c there,
            λ is. (
              λ unnamed.
                  approve_config_change-unnamed env now ctx s req c asked allowed unnamed there is,
              λ a named. approve-decides env now ctx req s asked allowed sound c a there is named,
            ),
          ),
        )

  -- ApplyConfigChange without a database and with a chained audit store, whatever the
  -- request and the rest of the state: each branch of its
  -- answer and the whole state after it, the audit event included. A request without an id, of an
  -- unknown change or of one that is not approved changes nothing; the refusal of a caller who is
  -- neither operator nor service is audited and changes nothing else; a caller whom the request does
  -- not name makes it panic with the change marked as applied and no value set; else the change is
  -- applied in the caller's name, its value is current (unless the service keeps nothing in memory),
  -- it is audited with what it was and what it is, and nothing else is different.
  pub apply_config_change-Ruling :
      (req : DecisionRequest) (s : Config env.Db)
      → IsSound env.journal_env s.journal
      → Ruling req "apply_config_change" status_approved status_applied "change is not approved"
          (λ by c. applied by (env.format_time now) c)
          (with_value env now ctx req.change_id)
          s
          (apply_config_change env now ctx (some req) s)
  unfolding same_status
  apply_config_change-Ruling req s sound =
      made_of req _ _ _ _ _ _ s _ same_status-approved refl (apply-no_id env now ctx req s)
        (apply-denies env now ctx req s)
        λ asked allowed. (
          apply-unknown env now ctx req s asked allowed sound,
          λ c there. (
            apply-too_late env now ctx req s asked allowed sound c there,
            λ is. (
              λ unnamed.
                  apply_config_change-unnamed env now ctx s req c asked allowed unnamed there is,
              λ a named. apply-decides env now ctx req s asked allowed sound c a there is named,
            ),
          ),
        )
