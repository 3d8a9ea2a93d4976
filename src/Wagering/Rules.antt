-- ===== src/Wagering/Rules.antt =====
-- Rules for the steps of the wagering handlers on a service without a database.
use mathlib.Core.Path.{subst}
use open_rgs_go.Prelude.{
  ℕ, String, ◌≡◌, refl, sym, ap, Bool, true, false, not, Option, none, some, arith,
}
use open_rgs_go.Prelude.Dict.{Dict, lookup, insert}
use open_rgs_go.Prelude.Flow.{Body, call, modify, return_if}
use open_rgs_go.Prelude.Flow.Triple.{Ends, Triple, Triple-bind, Triple-pure, Triple-guard}
use open_rgs_go.Proto.{RequestMeta, code_denied, code_invalid, code_error}
use open_rgs_go.Actor.{TokenActor}
use open_rgs_go.Audit.{InMemoryStore, Result}
use open_rgs_go.Wagering.State.{
  Wager, Wagering, WageringEnv, WagerResponse, Operation, place, settle, cancel,
}
use open_rgs_go.Wagering.Methods.{
  append_audit, replies, with_replies, cached_reply, cache_reply, use_in_memory,
  load_idempotency_response, persist_wager, persist_idempotency_response, mirrored,
}
use open_rgs_go.Wagering.Handlers.{
  refuse, fail, replay_reply, replay_cached, replay_loaded, take_mirrored, fetch_wager, take_wager,
  conclude, ok_response,
}

abbrev pub offline : {Db : Type 0} → Wagering Db → Wagering Db
offline s = record s { db = none }

offline-eq : {Db : Type 0} (s : Wagering Db) → s.db ≡ none → s ≡ offline s
offline-eq s h = λ i. record s { db = h i }

pub offline-Triple :
    {Db R A : Type 0} {P : Wagering Db → Type 0} {E : R → Wagering Db → Type 0}
    {Q : A → Wagering Db → Type 0} (m : Body (Wagering Db) R A)
    → ((s : Wagering Db) → P s → s.db ≡ none)
    → ((s : Wagering Db) → P (offline s) → Ends E Q (m (offline s)))
    → Triple P E Q m
offline-Triple {P} {E} {Q} m off h = record {
  at = λ s p.
      let e = offline-eq s (off s p) in subst (λ t. Ends E Q (m t)) (sym e) (h s (subst P e p));
}

-- No database, and the wagers and the replies as given.
pub record Holds {Db : Type 0} (op : Operation) (wagers : Dict Wager) (given : Dict WagerResponse)
    (s : Wagering Db) : Type 0 where
  pub off : s.db ≡ none
  pub kept : s.wagers ≡ wagers
  pub replied : replies op s ≡ given

-- An audited event changes the audit store and its counter alone.
pub append_audit-offline :
    (env : WageringEnv) (now : ℕ) (meta : Option RequestMeta)
    (object_id action before after : String) (result : Result) (reason : String)
    (s : Wagering env.Db)
    → (store : Option InMemoryStore) × (n : ℕ) × (ok : Bool) × (append_audit env now meta object_id
          action before after result reason
          (offline s)
        ≡ (ok, record (offline s) { audit_store = store; next_audit_id = n }))
unfolding append_audit
append_audit-offline env now meta object_id action before after result reason s =
    let r = append_audit env now meta object_id action before after result reason (offline s) in
    (r.1.audit_store, r.1.next_audit_id, r.0, ground arith)

replies_audit :
    {Db : Type 0} (op : Operation) (s : Wagering Db) (store : Option InMemoryStore) (n : ℕ)
    → replies op (record s { audit_store = store; next_audit_id = n }) ≡ replies op s
unfolding replies
replies_audit place s store n = refl
replies_audit settle s store n = refl
replies_audit cancel s store n = refl

cached-Holds :
    {Db : Type 0} (op : Operation) (wagers : Dict Wager) (given : Dict WagerResponse) (key : String)
    (r : WagerResponse) (s : Wagering Db)
    → Holds op wagers given (offline s)
    → Holds op wagers (insert key r given) (cache_reply op key r (offline s))
unfolding cache_reply use_in_memory replies with_replies
cached-Holds place wagers given key r s p = record {
  off = refl;
  kept = p.kept;
  replied = ap (insert key r) p.replied;
}
cached-Holds settle wagers given key r s p = record {
  off = refl;
  kept = p.kept;
  replied = ap (insert key r) p.replied;
}
cached-Holds cancel wagers given key r s p = record {
  off = refl;
  kept = p.kept;
  replied = ap (insert key r) p.replied;
}

-- A step that is known to have succeeded.
passed-Triple :
    {S R : Type 0} {H : S → Type 0} {E : R → S → Type 0} (ok : Bool) (r : R)
    → Triple (λ s. (ok ≡ true) × H s) E (λ _. H) (return_if (not ok) r)
passed-Triple true r = record { at = λ s p. p.1 }
passed-Triple false r = record { at = λ s p. absurd (cc p.0) }

module _ (env : WageringEnv) (now : ℕ) (ctx : Option TokenActor) (op : Operation)
    (wagers : Dict Wager) (given : Dict WagerResponse) where
  pub audited-Holds :
      (s : Wagering env.Db) (store : Option InMemoryStore) (n : ℕ)
      → Holds op wagers given s
      → Holds op wagers given (record s { audit_store = store; next_audit_id = n })
  audited-Holds s store n h = record {
    off = h.off;
    kept = h.kept;
    replied = rw (replies_audit op s store n) h.replied;
  }

module _ (env : WageringEnv) (now : ℕ) (ctx : Option TokenActor) (op : Operation)
    (wagers : Dict Wager) (given : Dict WagerResponse)
    {E : WagerResponse → Wagering env.Db → Type 0} where
  pub refuse-Triple :
      (meta : Option RequestMeta) (object_id action : String) (o : Option String)
      → ((s : Wagering env.Db) (reason : String)
          → Holds op wagers given s
          → E (fail env now ctx meta code_denied reason) s)
      → Triple
          (Holds op wagers given)
          E
          (λ _. Holds op wagers given)
          (refuse env now ctx meta object_id action o)
  unfolding refuse
  refuse-Triple meta object_id action none h = record { at = λ s p. p }
  refuse-Triple meta object_id action (some reason) h =
      offline-Triple _ (λ s p. p.off)
        λ s p.
          let (store, n, ok, e) =
            append_audit-offline env now meta object_id action "{}" "{}" Result.denied reason s in
          rw e (h _ reason (audited-Holds env now ctx op wagers given (offline s) store n p))

  pub replay_reply-Triple :
      (meta : Option RequestMeta) (key scope idem hash : String)
      → ((s : Wagering env.Db) (prev : WagerResponse)
          → Holds op wagers given s
          → lookup key given ≡ some prev
          → E prev s)
      → Triple
          (Holds op wagers given)
          E
          (λ _. Holds op wagers given)
          (replay_reply env now ctx op meta key scope idem hash)
  unfolding replay_reply replay_cached cached_reply use_in_memory load_idempotency_response
      replay_loaded
  replay_reply-Triple meta key scope idem hash h =
      offline-Triple (replay_reply env now ctx op meta key scope idem hash) (λ s p. p.off)
        λ s p. by_cache (lookup key (replies op (offline s))) s p refl
    where
      by_cache :
          (o : Option WagerResponse) (s : Wagering env.Db)
          → Holds op wagers given (offline s)
          → lookup key (replies op (offline s)) ≡ o
          → Ends E
              (λ _. Holds op wagers given)
              (replay_cached env now ctx op meta key scope idem hash o (offline s))
      by_cache none s p e = p
      by_cache (some prev) s p e =
          h (offline s) prev p (subst (λ d. lookup key d ≡ some prev) p.replied e)

  -- The wager is the map's.
  pub take_wager-Triple :
      (meta : Option RequestMeta) (wager_id : String)
      → ((s : Wagering env.Db)
          → Holds op wagers given s
          → E (fail env now ctx meta code_invalid "wager not found") s)
      → Triple
          (Holds op wagers given)
          E
          (λ taken s.
            Holds op wagers given s × (lookup wager_id wagers ≡ some taken.0) × (taken.1 ≡ true))
          (take_wager env now ctx meta wager_id)
  unfolding take_wager take_mirrored mirrored fetch_wager use_in_memory
  take_wager-Triple meta wager_id h =
      offline-Triple (take_wager env now ctx meta wager_id) (λ s p. p.off)
        λ s p. by_mirror (lookup wager_id (offline s).wagers) s p refl
    where
      by_mirror :
          (o : Option Wager) (s : Wagering env.Db)
          → Holds op wagers given (offline s)
          → lookup wager_id (offline s).wagers ≡ o
          → Ends E
              (λ taken s.
                Holds op wagers given s
                × (lookup wager_id wagers ≡ some taken.0)
                × (taken.1 ≡ true))
              (take_mirrored env now ctx meta wager_id o (offline s))
      by_mirror none s p e = h (offline s) p
      by_mirror (some w) s p e = (p, subst (λ d. lookup wager_id d ≡ some w) p.kept e, refl)

  -- Without a database only the audit can fail, after the wager and the reply were written.
  pub conclude-Triple :
      (meta : Option RequestMeta) (object_id action key scope idem hash before : String) (w : Wager)
      → ((s : Wagering env.Db)
          → Holds op wagers (insert key (ok_response env now ctx meta w) given) s
          → E (ok_response env now ctx meta w) s)
      → ((s : Wagering env.Db)
          → Holds op wagers (insert key (ok_response env now ctx meta w) given) s
          → E (fail env now ctx meta code_error "audit unavailable") s)
      → Triple
          (Holds op wagers given)
          E
          E
          (conclude env now ctx op meta object_id action key scope idem hash before w)
  unfolding conclude persist_wager persist_idempotency_response cache_reply use_in_memory
  conclude-Triple meta object_id action key scope idem hash before w done unaudited =
      let resp = ok_response env now ctx meta w in
      let H = Holds op wagers (insert key resp given) in
      let lost = fail env now ctx meta code_error "persistence unavailable" in
      Triple-bind {Q = λ _. H}
        (offline-Triple (modify (cache_reply op key resp)) (λ s p. p.off)
          (λ s p. cached-Holds op wagers given key resp s p))
        λ _.
          Triple-bind {Q = λ ok s. (ok ≡ true) × H s}
            (offline-Triple (call (persist_wager env now w)) (λ s p. p.off) (λ s p. (refl, p)))
            λ stored. Triple-bind {Q = λ _. H} (passed-Triple stored lost) λ _.
              Triple-bind {Q = λ ok s. (ok ≡ true) × H s}
                (offline-Triple
                  (call (persist_idempotency_response env now op scope idem hash resp))
                  (λ s p. p.off) (λ s p. (refl, p)))
                λ kept. Triple-bind {Q = λ _. H} (passed-Triple kept lost) λ _.
                  Triple-bind {Q = λ _. H}
                    (offline-Triple
                      (call (
                        append_audit env now meta object_id action before (env.marshal_wager w)
                          Result.success ""))
                      (λ s p. p.off)
                      λ s p.
                        let (store, n, ok, e) =
                          append_audit-offline env now meta object_id action before
                            (env.marshal_wager w) Result.success "" s in
                        rw e (
                          audited-Holds env now ctx op wagers (insert key resp given) (offline s)
                            store n p))
                    λ audited.
                      Triple-bind (Triple-guard (not audited) _ unaudited)
                        λ _. Triple-pure resp done
