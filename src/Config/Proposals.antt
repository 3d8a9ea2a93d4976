-- ===== src/Config/Proposals.antt =====
-- ProposeConfigChange on a service that keeps its state in memory.
use Prim.Native.String.{◌++◌ as ◌+ˢ◌}
use mathlib.Core.Path.{subst}
use open_rgs_go.Prelude.{
  ℕ, ◌+◌, String, ◌≡◌, ◌≢◌, refl, sym, ap, false, ◌||◌, Option, none, some, [], ◌∷◌, ◌++◌, arith,
  ◌=ˢ◌,
}
use open_rgs_go.Prelude.Decimal.{format_int}
use open_rgs_go.Prelude.Dict.{lookup_or, insert}
use open_rgs_go.Prelude.Flow.{call, modify, or_return, ◌>>=◌}
use open_rgs_go.Prelude.Flow.Triple.{
  Ends, Triple, Triple-bind, Triple-guard, Triple-pure, Triple-given, Answers, run-Answers,
}
use open_rgs_go.Proto.{Actor, code_ok, code_invalid, code_error}
use open_rgs_go.Actor.{TokenActor, resolve_actor, meta_actor}
use open_rgs_go.Journal.{meta_of}
use open_rgs_go.Journal.Sound.{IsSound}
use open_rgs_go.Config.State.{ConfigChange, ProposeRequest, ChangeResponse, Config, ConfigEnv}
use open_rgs_go.Config.Methods.{key_for, authorize, next_change_id_locked, current_value}
use open_rgs_go.Config.Changes.{
  fail, answer_with, new_change, keep_change, read_current, submit_change, propose_as,
  actor_id_or_panic, propose_body, propose_config_change,
}
use open_rgs_go.Config.Holds.{
  Holding, Holding-refl, Holding-step, refuse-Triple, audit_change-Triple, persist-Triple,
  actor-Triple,
}

module _ (env : ConfigEnv) where
  -- The id of the next change.
  abbrev pub next_id : Config env.Db → String
  next_id s = "cfg-" +ˢ format_int (s.next_change_id + 1)

  abbrev numbered : Config env.Db → Config env.Db
  numbered s = record s { next_change_id = s.next_change_id + 1 }

  -- The change is there under the next id, as the latest of the history.
  abbrev pub proposed_state : ConfigChange → Config env.Db → Config env.Db
  proposed_state c s = record s {
    next_change_id = s.next_change_id + 1;
    changes = insert (next_id s) c s.changes;
    change_order = s.change_order ++ (next_id s ∷ []);
  }

module _ (env : ConfigEnv) (now : ℕ) (ctx : Option TokenActor) (start : Config env.Db)
    (req : ProposeRequest) (a : Actor) (named : meta_actor req.meta ≡ some a)
    (cached : start.disable_in_memory_cache ≡ false) where
  -- The proposed change, which remembers the current value.
  abbrev pub proposal : ConfigChange
  proposal =
      new_change req (next_id env start)
        (lookup_or "" (key_for req.config_namespace req.config_key) start.current_values) a.actor_id
        (env.format_time now)

  -- A refusal that leaves the state as it was, or the proposal of a caller who may make it.
  pub data Proposal (r : ChangeResponse) (s : Config env.Db) : Type 0 where
    refused : r.meta.result_code ≢ code_ok → Holding env start s → Proposal r s
    proposed :
        r.meta.result_code ≡ code_ok
        → authorize (resolve_actor env.normalize ctx req.meta) ≡ none
        → r.change ≡ some proposal
        → Holding env (proposed_state env proposal start) s
        → Proposal r s

  number-Triple :
      Triple
        (Holding env start)
        Proposal
        (λ id s. Holding env (numbered env start) s × (id ≡ next_id env start))
        (call next_change_id_locked)
  unfolding next_change_id_locked
  number-Triple = record {
    at = λ s p. (
      Holding-step env (numbered env) start s (numbered env start) (λ j. refl) p,
      ap (next_id env) p.same,
    );
  }

  keep-Triple :
      Triple
        (Holding env (numbered env start))
        Proposal
        (λ _. Holding env (proposed_state env proposal start))
        (modify (keep_change (next_id env start) proposal))
  unfolding keep_change
  keep-Triple = record {
    at = λ s p.
        Holding-step env (keep_change (next_id env start) proposal) (numbered env start) s
          (proposed_state env proposal start) (λ j. ground (arith, cached)) p;
  }

  abbrev current : String
  current = lookup_or "" (key_for req.config_namespace req.config_key) start.current_values

  module _ (allowed : authorize (resolve_actor env.normalize ctx req.meta) ≡ none) where
    submit-Triple :
        Triple
          (Holding env (numbered env start))
          Proposal
          Proposal
          (submit_change env now ctx req proposal)
    unfolding submit_change meta_of
    submit-Triple =
        Triple-bind
          (audit_change-Triple env now ctx (numbered env start) req.meta (next_id env start)
            "propose_config_change" "{}" proposal req.reason)
          λ _. Triple-bind (persist-Triple env now ctx (numbered env start) req.meta proposal) λ _.
            Triple-bind keep-Triple λ _.
              Triple-pure (answer_with env now ctx req.meta proposal)
                λ s p. proposed refl allowed refl p

    -- What follows the number, from the current value on.
    named-Triple : Triple (Holding env (numbered env start)) Proposal Proposal (
        actor_id_or_panic (meta_actor req.meta) >>= λ by.
        submit_change env now ctx req
          (new_change req (next_id env start) current by (env.format_time now)))
    named-Triple =
        actor-Triple env (meta_actor req.meta) a
          (λ by.
            submit_change env now ctx req
              (new_change req (next_id env start) current by (env.format_time now)))
          named submit-Triple

    as-Triple :
        Triple
          (Holding env (numbered env start))
          Proposal
          Proposal
          (propose_as env now ctx req (next_id env start))
    unfolding propose_as read_current current_value
    as-Triple = record {
      at = λ s p.
          let e : current_value env now req.config_namespace req.config_key s ≡ some current =
            ground (
              arith,
              p.sound.offline,
              ap (λ x. lookup_or "" (key_for req.config_namespace req.config_key) x.current_values)
                  p.same,
            ) in
          subst
            (λ o. Ends Proposal Proposal (
              (or_return o (fail env now ctx req.meta code_error "persistence unavailable")
                  >>= λ curr. actor_id_or_panic (meta_actor req.meta) >>= λ by.
                      submit_change env now ctx req
                        (new_change req (next_id env start) curr by (env.format_time now)))
                s))
            (sym e) (named-Triple.at s p);
    }

  propose-Triple : Triple (Holding env start) Proposal Proposal (propose_body env now ctx req)
  unfolding propose_body meta_of
  propose-Triple =
      Triple-bind
        (Triple-guard
          (req.config_namespace =ˢ "" || req.config_key =ˢ "" || req.proposed_value =ˢ "")
          (fail env now ctx none code_invalid
            "config_namespace, config_key and proposed_value are required")
          (λ s p. refused (λ e. cc e) p))
        λ _.
          Triple-bind
            (refuse-Triple env now ctx start req.meta "" "propose_config_change"
              (λ s why p. refused (λ e. cc e) p))
            λ _. Triple-given λ allowed.
              Triple-bind {k = propose_as env now ctx req} number-Triple λ id. Triple-given λ e.
                subst
                  (λ id.
                    Triple (Holding env (numbered env start)) Proposal Proposal
                      (propose_as env now ctx req id))
                  (sym e) (as-Triple allowed)

-- ProposeConfigChange, for a request that names its actor, always answers, and either refuses and
-- changes nothing but the audit store, or the caller is an operator or a service, and the change is
-- there under the next id, as the latest of the history, proposed in the caller's name, with the
-- current value of its key as the previous value, and nothing but the journal is different besides.
pub propose_config_change-Proposal :
    (env : ConfigEnv) (now : ℕ) (ctx : Option TokenActor) (start : Config env.Db)
    (req : ProposeRequest) (a : Actor)
    → (named : meta_actor req.meta ≡ some a) → (cached : start.disable_in_memory_cache ≡ false)
    → IsSound env.journal_env start.journal
    → Answers
        (Proposal env now ctx start req a named cached)
        (propose_config_change env now ctx (some req) start)
unfolding propose_config_change
propose_config_change-Proposal env now ctx start req a named cached sound =
    run-Answers (propose_body env now ctx req) (propose-Triple env now ctx start req a named cached)
      start (Holding-refl env start sound)
