-- ===== src/Ledger/Connected.antt =====
-- The steps of the handlers of ledger_grpc.go under the mutex and with a database: they keep both, and
-- storing a reply in the database (ledger_postgres.go) takes the mutex again.
use mathlib.Core.Path.{subst}
use open_rgs_go.Prelude.{
  ℕ, String, ◌≡◌, ◌≢◌, refl, sym, ◌∙◌, Bool, true, false, not, Option, none, some, List, arith,
  ◌=ˢ◌,
}
use open_rgs_go.Prelude.Flow.Partial.{
  Allows, Partial, Partial-bind, Partial-pure, Partial-return_if, Partial-or_return,
  Partial-undo_unless,
}
use open_rgs_go.Prelude.Flow.{Flow, next, call, modify, return_if, ◌>>◌}
use open_rgs_go.Proto.{RequestMeta, ResultCode, code_ok, code_error, code_invalid}
use open_rgs_go.Audit.{Result, success}
use open_rgs_go.Actor.{TokenActor}
use open_rgs_go.Ledger.State.{Ledger, LedgerAccount, LedgerPosting, LedgerTransaction}
use open_rgs_go.Ledger.Env.{LedgerEnv}
use open_rgs_go.Ledger.Books.{
  db_enabled, store_account, get_or_create_account, append_transaction, next_tx_id, add_postings,
  next_audit_id_locked,
}
use open_rgs_go.Ledger.Methods.{
  append_audit, insert_audit, store_event, mutation_account_state, response_meta,
}
use open_rgs_go.Ledger.Persist.{
  get_idempotency_ttl, persist_idempotency_response, insert_response, persist_ledger_mutation,
}
use open_rgs_go.Ledger.Steps.{Replies, fail, cache_reply}
use open_rgs_go.Ledger.Mutation.{
  Movement, movement_postings, movement_transaction, undo_movement, apply_side, keep_reply,
  post_movement,
}
use open_rgs_go.Ledger.Handlers.{take_account}
use open_rgs_go.Ledger.Contract.{ReplyLaws}

-- A handler that holds the mutex and has a database.
abbrev pub IsLocked : {Db : Type 0} → Ledger Db → Type 0
IsLocked s = (s.mu ≡ true) × (db_enabled s ≡ true)

module _ (env : LedgerEnv) (now : ℕ) where
  IsLocked-call :
      {R A : Type 0} {E : R → Type 0} (f : Ledger env.Db → A × Ledger env.Db)
      → ((s : Ledger env.Db) → ((f s).1.mu ≡ s.mu) × (db_enabled (f s).1 ≡ db_enabled s))
      → Partial IsLocked E (λ _. IsLocked) (call f)
  IsLocked-call f h = record { at = λ s p. ((h s).0 ∙ p.0, (h s).1 ∙ p.1) }

  IsLocked-modify :
      {R : Type 0} {E : R → Type 0} (f : Ledger env.Db → Ledger env.Db)
      → ((s : Ledger env.Db) → ((f s).mu ≡ s.mu) × (db_enabled (f s) ≡ db_enabled s))
      → Partial IsLocked E (λ _. IsLocked) (modify f)
  IsLocked-modify f h = record { at = λ s p. ((h s).0 ∙ p.0, (h s).1 ∙ p.1) }

  store_account-IsLocked :
      (id : String) (acct : LedgerAccount) (s : Ledger env.Db)
      → ((store_account id acct s).mu ≡ s.mu)
        × (db_enabled (store_account id acct s) ≡ db_enabled s)
  unfolding store_account db_enabled
  store_account-IsLocked id acct s = (ground arith, ground arith)

  append_transaction-IsLocked :
      (tx : LedgerTransaction) (s : Ledger env.Db)
      → ((append_transaction tx s).mu ≡ s.mu)
        × (db_enabled (append_transaction tx s) ≡ db_enabled s)
  unfolding append_transaction db_enabled
  append_transaction-IsLocked tx s = (ground arith, ground arith)

  add_postings-IsLocked :
      (id : String) (ps : List LedgerPosting) (s : Ledger env.Db)
      → ((add_postings id ps s).1.mu ≡ s.mu) × (db_enabled (add_postings id ps s).1 ≡ db_enabled s)
  unfolding add_postings db_enabled
  add_postings-IsLocked id ps s = (ground arith, ground arith)

  mutation_account_state-IsLocked :
      (id currency : String) (s : Ledger env.Db)
      → ((mutation_account_state env now id currency s).1.mu ≡ s.mu)
        × (db_enabled (mutation_account_state env now id currency s).1 ≡ db_enabled s)
  unfolding mutation_account_state get_or_create_account store_account db_enabled
  mutation_account_state-IsLocked id currency s = (ground arith, ground arith)

  persist_ledger_mutation-IsLocked :
      (tx : LedgerTransaction) (ps : List LedgerPosting) (status idem : String) (s : Ledger env.Db)
      → ((persist_ledger_mutation env tx ps status idem s).1.mu ≡ s.mu)
        × (db_enabled (persist_ledger_mutation env tx ps status idem s).1 ≡ db_enabled s)
  unfolding persist_ledger_mutation db_enabled
  persist_ledger_mutation-IsLocked tx ps status idem s = (ground arith, ground arith)

  append_audit-IsLocked :
      (meta : Option RequestMeta) (type id action before after : String) (result : Result)
      (reason : String) (s : Ledger env.Db)
      → ((append_audit env now meta type id action before after result reason s).1.mu ≡ s.mu)
        × (db_enabled (append_audit env now meta type id action before after result reason s).1
            ≡ db_enabled s)
  unfolding append_audit insert_audit store_event next_audit_id_locked db_enabled
  append_audit-IsLocked meta type id action before after result reason s =
      (ground arith, ground arith)

stored_at :
    (env : LedgerEnv) {R : Type 0} (k : Replies env.Db R) (scope idem hash : String) (resp : R)
    (E : R → Type 0) (s : Ledger env.Db)
    → IsLocked s
    → Allows E
        (λ ok s. ok ≡ false)
        (persist_idempotency_response env k.marshal scope idem hash (k.code_of resp) resp s)
unfolding persist_idempotency_response insert_response get_idempotency_ttl db_enabled
stored_at env {R} k scope idem hash resp E s p = by_db s.db refl
  where
    Goal : Flow R Bool × Ledger env.Db → Type 0
    Goal = Allows E (λ ok s. ok ≡ false)

    by_payload :
        (d : env.Db) (o : Option String)
        → Goal (insert_response env o scope idem hash (k.code_of resp) d s)
    by_payload d none = refl
    by_payload d (some payload) = rw p.0 tt

    after : Option env.Db → Flow R Bool × Ledger env.Db
    after o = elim o [
      | none ↦ (next true, s)
      | some d ↦ insert_response env (k.marshal resp) scope idem hash (k.code_of resp) d s
    ]

    by_db : (o : Option env.Db) → s.db ≡ o → Goal (after s.db)
    by_db none e = absurd (ground (arith, e, p.1))
    by_db (some d) e = subst (λ o. Goal (after o)) (sym e) (by_payload d (k.marshal resp))

module _ (env : LedgerEnv) (now : ℕ) (ctx : Option TokenActor) {R : Type 0} (k : Replies env.Db R)
    (laws : ReplyLaws k) where
  abbrev pub Fails : R → Type 0
  Fails r = k.code_of r ≢ code_ok

  pub fail-Fails :
      (meta : Option RequestMeta) (code : ResultCode) (reason : String)
      → code ≢ code_ok
      → Fails (fail env now ctx k meta code reason)
  unfolding response_meta
  fail-Fails meta code reason bad e =
      bad (sym (laws.code_of_meta (response_meta env now meta code reason)) ∙ e)

  pub take_account-IsLocked :
      (meta : Option RequestMeta) (account_id currency : String)
      → Partial IsLocked Fails (λ _. IsLocked) (take_account env now ctx k meta account_id currency)
  unfolding take_account
  take_account-IsLocked meta account_id currency =
      Partial-bind
        (IsLocked-call env now (mutation_account_state env now account_id currency)
          (mutation_account_state-IsLocked env now account_id currency))
        λ state.
          Partial-bind
            (Partial-or_return state (fail env now ctx k meta code_error "persistence unavailable")
              (fail-Fails meta code_error "persistence unavailable" (λ e. cc e)))
            λ acct.
              Partial-bind
                (Partial-return_if (not (acct.currency =ˢ currency))
                  (fail env now ctx k meta code_invalid "currency mismatch for account")
                  (fail-Fails meta code_invalid "currency mismatch for account" (λ e. cc e)))
                λ _. Partial-pure acct

  audited-IsLocked :
      (m : Movement) (acct moved : LedgerAccount)
      → Partial IsLocked Fails
          (λ _. IsLocked)
          (call (
            append_audit env now m.meta "ledger_account" m.account_id m.action
              (env.marshal_account acct)
              (env.marshal_account moved)
              success
              m.reason))
  audited-IsLocked m acct moved =
      IsLocked-call env now
        (append_audit env now m.meta "ledger_account" m.account_id m.action
          (env.marshal_account acct) (env.marshal_account moved) success m.reason)
        (append_audit-IsLocked env now m.meta "ledger_account" m.account_id m.action
          (env.marshal_account acct) (env.marshal_account moved) success m.reason)

  pub post_movement-IsLocked :
      (m : Movement) (idem : String) (acct : LedgerAccount)
      → Partial IsLocked Fails (λ _. IsLocked) (post_movement env now ctx k m idem acct)
  unfolding post_movement next_tx_id
  post_movement-IsLocked m idem acct =
      let moved = apply_side m.side m.amount acct in
      let ps = movement_postings now m in
      Partial-bind (IsLocked-call env now next_tx_id (λ s. (refl, refl))) λ id.
        let tx = movement_transaction env now id m in
        Partial-bind
          (IsLocked-call env now (add_postings id ps) (add_postings-IsLocked env now id ps))
          λ balanced.
            Partial-bind
              (Partial-return_if (not balanced)
                (fail env now ctx k m.meta code_error "unbalanced postings")
                (fail-Fails m.meta code_error "unbalanced postings" (λ e. cc e)))
              λ _.
                Partial-bind
                  (IsLocked-modify env now (store_account m.account_id moved)
                    (store_account-IsLocked env now m.account_id moved))
                  λ _.
                    Partial-bind
                      (IsLocked-modify env now (append_transaction tx)
                        (append_transaction-IsLocked env now tx))
                      λ _. Partial-bind (audited-IsLocked m acct moved) λ audited.
                        Partial-bind
                          (Partial-undo_unless audited (undo_movement env now m id moved)
                            (fail env now ctx k m.meta code_error "audit unavailable")
                            (fail-Fails m.meta code_error "audit unavailable" (λ e. cc e)))
                          λ _.
                            Partial-bind
                              (IsLocked-call env now
                                (persist_ledger_mutation env tx ps "accepted" idem)
                                (persist_ledger_mutation-IsLocked env now tx ps "accepted" idem))
                              λ stored.
                                Partial-bind
                                  (Partial-undo_unless stored (undo_movement env now m id moved)
                                    (fail env now ctx k m.meta code_error "persistence unavailable")
                                    (fail-Fails m.meta code_error "persistence unavailable"
                                      (λ e. cc e)))
                                  λ _. Partial-pure (moved, tx)

  -- The reply is never stored: its record needs the mutex again.
  pub keep_reply-IsLocked :
      (meta : Option RequestMeta) (key scope idem hash : String) (resp : R)
      → Partial IsLocked Fails (λ _ _. ⊥) (keep_reply env now ctx k meta key scope idem hash resp)
  unfolding keep_reply
  keep_reply-IsLocked meta key scope idem hash resp =
      Partial-bind {Q = λ ok s. ok ≡ false} stored λ ok. require ok
    where
      stored :
          Partial IsLocked Fails
            (λ ok s. ok ≡ false)
            (persist_idempotency_response env k.marshal scope idem hash (k.code_of resp) resp)
      stored = record { at = λ s p. stored_at env k scope idem hash resp Fails s p }

      require :
          (ok : Bool)
          → Partial
              (λ _. ok ≡ false)
              Fails
              (λ _ _. ⊥)
              (return_if (not ok) (fail env now ctx k meta code_error "persistence unavailable")
                >> modify (cache_reply k key resp))
      require true = record { at = λ s p. absurd (cc p) }
      require false = record {
        at = λ s p. fail-Fails meta code_error "persistence unavailable" (λ e. cc e);
      }
