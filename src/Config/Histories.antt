-- ===== src/Config/Histories.antt =====
-- Any sequence of proposals, approvals and applications, on a service that keeps its state in memory.
use mathlib.Core.Path.{subst}
use open_rgs_go.Prelude.{
  ℕ, ◌+◌, String, ◌≡◌, refl, sym, ap, ◌∙◌, false, Bool-cases, inl, inr, Option, some, List, [], ◌∷◌,
  arith, eq_iff, ◌=ˢ◌,
}
use open_rgs_go.Prelude.Dict.{Dict, lookup, insert, lookup-insert, lookup-insert_self}
use open_rgs_go.Proto.{Actor, RequestMeta}
use open_rgs_go.Actor.{TokenActor, meta_actor}
use open_rgs_go.Config.State.{
  status_proposed, status_approved, status_applied, ConfigChange, ProposeRequest, DecisionRequest,
  ChangeResponse, Config, ConfigEnv,
}
use open_rgs_go.Config.Methods.{key_for}
use open_rgs_go.Config.Changes.{
  approved, applied, propose_config_change, approve_config_change, apply_config_change,
}
use open_rgs_go.Config.Holds.{Holding, written}
use open_rgs_go.Config.Decisions.{
  Decision, refused, decided, approval, application, applied_state, approve_config_change-Decision,
  apply_config_change-Decision,
}
use open_rgs_go.Config.Proposals.{
  Proposal, proposal, proposed_state, next_id, propose_config_change-Proposal,
}
use open_rgs_go.Config.Progress.{
  Step, approves, applies, Steps, done, more, Carries, Carries-refl, Carries-trans, insert-Carries,
  IsBacked, IsNumbered, IsSettled, Carries-IsBacked, IsNumbered-insert, next_id-fresh,
  Steps-proposed, Steps-applied,
}

pub data ChangeRequest : Type 0 where
  proposing : ProposeRequest → ChangeRequest
  approving : DecisionRequest → ChangeRequest
  applying : DecisionRequest → ChangeRequest

abbrev meta_of_request : ChangeRequest → Option RequestMeta
meta_of_request (proposing req) = req.meta
meta_of_request (approving req) = req.meta
meta_of_request (applying req) = req.meta

-- A request that names its actor, when it comes and with which token.
pub record ChangeArrival : Type 0 where
  pub at : ℕ
  pub caller : Option TokenActor
  pub request : ChangeRequest
  pub who : Actor
  pub named : meta_actor (meta_of_request request) ≡ some who

-- The state after a request keeps every change, some steps further, and is settled again.
pub record Outcome (env : ConfigEnv) (start s : Config env.Db) : Type 0 where
  pub carried : Carries start.changes s.changes
  pub settled : IsSettled env s

module _ (env : ConfigEnv) where
  -- A state that is `end` but for its journal is settled as `end` is.
  Holding-Outcome :
      (start end s : Config env.Db)
      → Carries start.changes end.changes
      → end.disable_in_memory_cache ≡ false
      → IsNumbered end.next_change_id end.changes
      → IsBacked end.changes end.current_values
      → Holding env end s
      → Outcome env start s
  Holding-Outcome start end s carried cached numbered backed h =
      subst (Outcome env start) (sym h.same) (record {
        carried = carried;
        settled = record { sound = h.sound; cached = cached; numbered = numbered; backed = backed };
      })

  same-Outcome :
      (start s : Config env.Db) → IsSettled env start → Holding env start s → Outcome env start s
  same-Outcome start s p h =
      Holding-Outcome start start s (Carries-refl start.changes) p.cached p.numbered p.backed h

  module _ (now : ℕ) (ctx : Option TokenActor) (start : Config env.Db) (p : IsSettled env start)
      (r : ChangeResponse) (s : Config env.Db) (a : Actor) where
    Proposal-Outcome :
        (req : ProposeRequest) (named : meta_actor req.meta ≡ some a)
        → Proposal env now ctx start req a named p.cached r s
        → Outcome env start s
    Proposal-Outcome req named (Proposal.refused bad h) = same-Outcome start s p h
    Proposal-Outcome req named (Proposal.proposed good allowed answer h) =
        let c = proposal env now ctx start req a named p.cached in
        let id = next_id env start in
        let carried =
          insert-Carries id c start.changes
            (λ old e. absurd (next_id-fresh env start p.numbered old e)) in
        Holding-Outcome start (proposed_state env c start) s carried p.cached
          (IsNumbered-insert start.next_change_id (start.next_change_id + 1) id c start.changes
            (omega arith) (start.next_change_id + 1, omega arith, refl) p.numbered)
          (Carries-IsBacked start.changes (insert id c start.changes) start.current_values carried
            p.backed)
          h

    module _ (req : DecisionRequest) (named : meta_actor req.meta ≡ some a) where
      -- A change that is written over the one that was there.
      written-Carries :
          (old new : ConfigChange)
          → lookup req.change_id start.changes ≡ some old
          → Step old new
          → Carries start.changes (insert req.change_id new start.changes)
      written-Carries old new there step = insert-Carries req.change_id new start.changes λ old' e.
          let same : old ≡ old' = ground (arith, there, e) in
          subst (λ x. Steps x new) same (more old new new step (done new))

      written-IsNumbered :
          (old new : ConfigChange)
          → lookup req.change_id start.changes ≡ some old
          → IsNumbered start.next_change_id (insert req.change_id new start.changes)
      written-IsNumbered old new there =
          IsNumbered-insert start.next_change_id start.next_change_id req.change_id new
            start.changes (omega arith) (p.numbered req.change_id old there) p.numbered

      approval-Outcome :
          Decision env ctx req status_proposed
            (approval env now ctx start req a named)
            (written req.change_id)
            start
            r
            s
          → Outcome env start s
      approval-Outcome (refused bad h) = same-Outcome start s p h
      approval-Outcome (decided good c there is allowed answer h) =
          let new = approval env now ctx start req a named c in
          let carried =
            written-Carries c new there (approves is a.actor_id (env.format_time now) refl) in
          Holding-Outcome start (written req.change_id new start) s carried p.cached
            (written-IsNumbered c new there)
            (Carries-IsBacked start.changes (insert req.change_id new start.changes)
              start.current_values carried p.backed)
            h

      applied-IsBacked :
          (changes : Dict ConfigChange) (values : Dict String) (c : ConfigChange)
          → lookup req.change_id changes ≡ some c
          → c.status ≡ status_applied
          → IsBacked changes values
          → IsBacked changes
              (insert (key_for c.config_namespace c.config_key) c.proposed_value values)
      applied-IsBacked changes values c there is backed key value e =
          let k = key_for c.config_namespace c.config_key in
          let at = lookup-insert k key c.proposed_value values in
          elim (Bool-cases (k =ˢ key)) [
            | inl same ↦ (
              req.change_id,
              c,
              there,
              is,
              ground (arith, same, eq_iff k key),
              ground (arith, at, same, e),
            )
            | inr other ↦ backed key value (ground (arith, at, other, e))
          ]

      application-Outcome :
          Decision env ctx req status_approved
            (application env now ctx start req a named)
            (applied_state env now ctx start req a named)
            start
            r
            s
          → Outcome env start s
      application-Outcome (refused bad h) = same-Outcome start s p h
      application-Outcome (decided good c there is allowed answer h) =
          let new = application env now ctx start req a named c in
          let changes = insert req.change_id new start.changes in
          let carried =
            written-Carries c new there (applies is a.actor_id (env.format_time now) refl) in
          Holding-Outcome start (applied_state env now ctx start req a named new start) s carried
            p.cached (written-IsNumbered c new there)
            (applied-IsBacked changes start.current_values new
              (lookup-insert_self req.change_id new start.changes) refl
              (Carries-IsBacked start.changes changes start.current_values carried p.backed))
            h

  unfoldable pub decide : ℕ → Option TokenActor → ChangeRequest → Config env.Db → Config env.Db
  unfolding propose_config_change approve_config_change apply_config_change
  decide now ctx (proposing req) s = (propose_config_change env now ctx (some req) s).1
  decide now ctx (approving req) s = (approve_config_change env now ctx (some req) s).1
  decide now ctx (applying req) s = (apply_config_change env now ctx (some req) s).1

  unfoldable pub decide_all : List ChangeArrival → Config env.Db → Config env.Db
  unfolding decide
  decide_all [] s = s
  decide_all (x ∷ rest) s = decide_all rest (decide x.at x.caller x.request s)

  decide-Outcome :
      (now : ℕ) (ctx : Option TokenActor) (q : ChangeRequest) (a : Actor)
      → meta_actor (meta_of_request q) ≡ some a
      → (s : Config env.Db) → IsSettled env s
      → Outcome env s (decide now ctx q s)
  unfolding decide
  decide-Outcome now ctx (proposing req) a named s p =
      let (r, _, end) = propose_config_change-Proposal env now ctx s req a named p.cached p.sound in
      Proposal-Outcome now ctx s p r _ a req named end
  decide-Outcome now ctx (approving req) a named s p =
      let (r, _, end) = approve_config_change-Decision env now ctx s req a named p.sound in
      approval-Outcome now ctx s p r _ a req named end
  decide-Outcome now ctx (applying req) a named s p =
      let (r, _, end) = apply_config_change-Decision env now ctx s req a named p.sound p.cached in
      application-Outcome now ctx s p r _ a req named end

  decide_all-Outcome :
      (arrivals : List ChangeArrival) (s : Config env.Db)
      → IsSettled env s
      → Outcome env s (decide_all arrivals s)
  unfolding decide_all
  decide_all-Outcome [] s p = record { carried = Carries-refl s.changes; settled = p }
  decide_all-Outcome (x ∷ rest) s p =
      let s₁ = decide x.at x.caller x.request s in
      let first = decide-Outcome x.at x.caller x.request x.who x.named s p in
      let then = decide_all-Outcome rest s₁ first.settled in
      record {
        carried =
            Carries-trans s.changes s₁.changes (decide_all rest s₁).changes first.carried
              then.carried;
        settled = then.settled;
      }

  -- Over any sequence of proposals, approvals and applications that name their actors, a settled
  -- service stays settled: the current value of each key is the value that an applied change of that
  -- key proposed, and the ids of the changes are numbers that were given out.
  pub decide_all-IsSettled :
      (arrivals : List ChangeArrival) (s : Config env.Db)
      → IsSettled env s
      → IsSettled env (decide_all arrivals s)
  decide_all-IsSettled arrivals s p = (decide_all-Outcome arrivals s p).settled

  -- Over such a sequence, every change stays there, and only moves on by approval and application.
  pub decide_all-Carries :
      (arrivals : List ChangeArrival) (s : Config env.Db)
      → IsSettled env s
      → Carries s.changes (decide_all arrivals s).changes
  decide_all-Carries arrivals s p = (decide_all-Outcome arrivals s p).carried

  -- Over such a sequence, a change that was proposed before and is applied after was approved in
  -- between, and is otherwise as it was proposed.
  pub decide_all-approved :
      (arrivals : List ChangeArrival) (s : Config env.Db)
      → IsSettled env s
      → (id : String) (old new : ConfigChange) → lookup id s.changes ≡ some old
      → lookup id (decide_all arrivals s).changes ≡ some new
      → old.status ≡ status_proposed
      → new.status ≡ status_applied
      → (approver : String) × (approved_at : String) × (by : String) × (at : String) × (new
          ≡ applied by at (approved approver approved_at old))
  decide_all-approved arrivals s p id old new there found from to =
      let (new', found', steps) = (decide_all-Outcome arrivals s p).carried id old there in
      let same : new' ≡ new = ground (arith, found, found') in
      Steps-proposed old new (subst (Steps old) same steps) from to

  -- Over such a sequence, a change that is applied stays exactly as it is.
  pub decide_all-final :
      (arrivals : List ChangeArrival) (s : Config env.Db)
      → IsSettled env s
      → (id : String) (c : ConfigChange) → lookup id s.changes ≡ some c
      → c.status ≡ status_applied
      → lookup id (decide_all arrivals s).changes ≡ some c
  decide_all-final arrivals s p id c there is =
      let (new, found, steps) = (decide_all-Outcome arrivals s p).carried id c there in
      found ∙ ap some (Steps-applied c new steps is)
