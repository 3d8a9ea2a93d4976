-- ===== src/Ledger/Rules.antt =====
-- Rules for the steps of the handlers without a database, for any precondition `P` and any
-- postcondition `E` of an early return.
use open_rgs_go.Prelude.{
  ℕ, ◌+◌, ◌<◌, String, ◌≡◌, refl, sym, Bool, true, false, inl, inr, Option, none, some, ◌=ˢ◌, not,
  if◌then◌else◌,
}
use mathlib.Core.Path.{subst}
use open_rgs_go.Prelude.Int64.{two64}
use open_rgs_go.Prelude.Dict.{lookup, insert}
use open_rgs_go.Prelude.Flow.{Flow, blocked, Body, ret, next, call}
use open_rgs_go.Prelude.Flow.Triple.{
  Ends, Triple, Triple-bind, Triple-guard, Triple-return_if, Triple-pure, Triple-or_return-some,
}
use open_rgs_go.Proto.{
  RequestMeta, code_denied, code_invalid, code_error, Money, idempotency, invalid_amount,
}
use open_rgs_go.Actor.{TokenActor, resolve_actor}
use open_rgs_go.Audit.{InMemoryStore}
use open_rgs_go.Ledger.State.{
  Ledger, LedgerAccount, LedgerTransaction, LedgerTransactionType, DepositResponse,
}
use open_rgs_go.Ledger.Env.{LedgerEnv}
use open_rgs_go.Ledger.Books.{tx_id, new_account}
use open_rgs_go.Ledger.Methods.{authorize_actor, audit_denied, eft_locked, mutation_account_state}
use open_rgs_go.Ledger.Persist.{load_idempotency_response, persist_idempotency_response}
use open_rgs_go.Ledger.Steps.{
  Replies, fail, refuse, check_actor, refuse_locked, check_unlocked, take_amount, admit,
  cached_reply, replay_cached, replay_reply, replay_transaction, cache_reply, with_lock,
  unlock_after,
}
use open_rgs_go.Ledger.Mutation.{Movement, post_movement, keep_reply}
use open_rgs_go.Ledger.Handlers.{take_account}
use open_rgs_go.Ledger.Offline.{
  offline, offline-eq, audited, mutation_account_state_new, mutation_account_state_old,
}
use open_rgs_go.Ledger.Posting.{
  posted, undone, moved_account, new_transaction, post_movement-offline,
}

-- A body that is followed without a database.
pub offline-Triple :
    {Db R A : Type 0} {P : Ledger Db → Type 0} {E : R → Ledger Db → Type 0}
    {Q : A → Ledger Db → Type 0} (m : Body (Ledger Db) R A)
    → ((s : Ledger Db) → P s → s.db ≡ none)
    → ((s : Ledger Db) → P (offline s) → Ends E Q (m (offline s)))
    → Triple P E Q m
offline-Triple {P} {E} {Q} m off h = record {
  at = λ s p.
      let e = offline-eq s (off s p) in subst (λ t. Ends E Q (m t)) (sym e) (h s (subst P e p));
}

module _ {Db R : Type 0} {P : Ledger Db → Type 0} {E : R → Ledger Db → Type 0} where
  pub take_amount-Triple :
      (o : Option Money) (r : R)
      → ((s : Ledger Db) → P s → E r s)
      → Triple P E (λ m s. P s × (o ≡ some m) × (invalid_amount (some m) ≡ false)) (take_amount o r)
  unfolding take_amount
  take_amount-Triple none r h = record { at = h }
  take_amount-Triple (some m) r h =
      Triple-bind (Triple-return_if (invalid_amount (some m)) r (λ s p _. h s p))
        λ _. Triple-pure m (λ s q. (q.0, refl, q.1))

-- What the state-independent checks establish.
pub record Admitted (env : LedgerEnv) (ctx : Option TokenActor) (meta : Option RequestMeta)
    (account_id : String) (amount : Option Money) (m : Money) : Type 0 where
  pub authorized : authorize_actor account_id (resolve_actor env.normalize ctx meta) ≡ none
  pub present : amount ≡ some m
  pub valid : invalid_amount (some m) ≡ false
  pub keyed : (idempotency meta =ˢ "") ≡ false

module _ (env : LedgerEnv) (now : ℕ) (ctx : Option TokenActor) {R : Type 0} (k : Replies env.Db R)
    {P : Ledger env.Db → Type 0} {E : R → Ledger env.Db → Type 0} (meta : Option RequestMeta)
    (account_id action : String) where
  pub refuse-Triple :
      (o : Option String)
      → ((s : Ledger env.Db) (reason : String)
          → P s
          → E
              (fail env now ctx k meta code_denied reason)
              (audit_denied env now meta "ledger_account" account_id action reason s))
      → Triple P E (λ _ s. P s × (o ≡ none)) (refuse env now ctx k meta account_id action o)
  unfolding refuse
  refuse-Triple none h = record { at = λ s p. (p, refl) }
  refuse-Triple (some reason) h = record { at = λ s p. h s reason p }

  pub check_unlocked-Triple :
      ((s : Ledger env.Db)
        → P s
        → E (fail env now ctx k meta code_error "persistence unavailable") s)
      → ((s : Ledger env.Db) (reason : String)
          → P s
          → E
              (fail env now ctx k meta code_denied reason)
              (audit_denied env now meta "ledger_account" account_id action reason s))
      → Triple P E
          (λ _ s. P s × (eft_locked env now account_id s ≡ some false))
          (check_unlocked env now ctx k meta account_id action)
  unfolding check_unlocked
  check_unlocked-Triple h₁ h₂ = record {
    at = λ s p. by_lock (eft_locked env now account_id s) s p refl;
  }
    where
      by_lock :
          (o : Option Bool) (s : Ledger env.Db)
          → P s
          → eft_locked env now account_id s ≡ o
          → Ends E
              (λ _ s. P s × (eft_locked env now account_id s ≡ some false))
              (refuse_locked env now ctx k meta account_id action o s)
      by_lock none s p e = h₁ s p
      by_lock (some true) s p e = h₂ s "eft account locked" p
      by_lock (some false) s p e = (p, e)

module _ (env : LedgerEnv) (now : ℕ) (ctx : Option TokenActor) {R : Type 0} (k : Replies env.Db R)
    {P : Ledger env.Db → Type 0} {E : R → Ledger env.Db → Type 0} (meta : Option RequestMeta)
    (account_id action : String) where
  pub admit-Triple :
      (amount : Option Money) (invalid : String)
      → ((s : Ledger env.Db) (reason : String)
          → P s
          → E (fail env now ctx k meta code_invalid reason) s)
      → ((s : Ledger env.Db) (reason : String)
          → P s
          → E
              (fail env now ctx k meta code_denied reason)
              (audit_denied env now meta "ledger_account" account_id action reason s))
      → Triple P E
          (λ m s. P s × Admitted env ctx meta account_id amount m)
          (admit env now ctx k meta account_id amount action invalid)
  unfolding admit check_actor
  admit-Triple amount invalid h₁ h₂ =
      Triple-bind (refuse-Triple env now ctx k meta account_id action _ h₂) λ _.
        Triple-bind (take_amount-Triple amount _ (λ s q. h₁ s invalid q.0)) λ m.
          Triple-bind (Triple-return_if _ _ (λ s q _. h₁ s "idempotency_key is required" q.0.0))
            λ _. Triple-pure m λ s q. (
              q.0.0.0,
              record { authorized = q.0.0.1; present = q.0.1; valid = q.0.2; keyed = q.1 },
            )

  pub replay_reply-Triple :
      (key scope idem hash : String)
      → ((s : Ledger env.Db) → P s → s.db ≡ none)
      → ((s : Ledger env.Db) (prev : R) → P s → cached_reply k key s ≡ some prev → E prev s)
      → Triple P E (λ _. P) (replay_reply env now ctx k meta key scope idem hash)
  unfolding replay_reply load_idempotency_response
  replay_reply-Triple key scope idem hash off h =
      offline-Triple (replay_reply env now ctx k meta key scope idem hash) off
        λ s p. by_cache (cached_reply k key (offline s)) s p refl
    where
      by_cache :
          (o : Option R) (s : Ledger env.Db)
          → P (offline s)
          → cached_reply k key (offline s) ≡ o
          → Ends E (λ _. P) (replay_cached env now ctx k meta key scope idem hash o (offline s))
      by_cache none s p e = p
      by_cache (some prev) s p e = h (offline s) prev p e

  pub take_account-Triple :
      (currency : String) {Q : LedgerAccount → Ledger env.Db → Type 0}
      → ((s : Ledger env.Db) → P s → s.db ≡ none)
      → ((s : Ledger env.Db) (acct : LedgerAccount)
          → P s
          → lookup account_id s.accounts ≡ some acct
          → Q acct s)
      → ((s : Ledger env.Db)
          → P s
          → lookup account_id s.accounts ≡ none
          → Q (new_account account_id currency) (record s {
            accounts = insert account_id (new_account account_id currency) s.accounts;
          }))
      → ((s : Ledger env.Db) (acct : LedgerAccount) (reason : String)
          → Q acct s
          → E (fail env now ctx k meta code_invalid reason) s)
      → Triple P E Q (take_account env now ctx k meta account_id currency)
  unfolding take_account
  take_account-Triple currency {Q} off old new wrong =
      Triple-bind
        (offline-Triple (call (mutation_account_state env now account_id currency)) off
          λ s p. by_lookup (lookup account_id s.accounts) s p refl)
        λ o.
          Triple-bind
            (Triple-or_return-some o (fail env now ctx k meta code_error "persistence unavailable"))
            λ acct.
              Triple-bind
                (Triple-guard (not (acct.currency =ˢ currency)) _
                  (λ s q. wrong s acct "currency mismatch for account" q))
                λ _. Triple-pure acct (λ s q. q)
    where
      by_lookup :
          (o : Option LedgerAccount) (s : Ledger env.Db)
          → P (offline s)
          → lookup account_id s.accounts ≡ o
          → Ends {R = R} E
              (λ o s. (a : LedgerAccount) × (o ≡ some a) × Q a s)
              (call (mutation_account_state env now account_id currency) (offline s))
      by_lookup none s p e =
          rw (mutation_account_state_new env now account_id currency s e)
            (new_account account_id currency, refl, new (offline s) p e)
      by_lookup (some acct) s p e =
          rw (mutation_account_state_old env now account_id currency s acct e)
            (acct, refl, old (offline s) acct p e)

  pub post_movement-Triple :
      (m : Movement) (idem : String) (acct : LedgerAccount)
      {Q : LedgerAccount × LedgerTransaction → Ledger env.Db → Type 0}
      → ((s : Ledger env.Db) → P s → s.db ≡ none)
      → ((s : Ledger env.Db)
          → P s
          → (lookup (tx_id (s.next_transaction_id + 1)) s.postings_by_tx ≡ none)
            × (acct.available < two64))
      → ((s : Ledger env.Db) (store : Option InMemoryStore) (n : ℕ)
          → P s
          → Q
              (moved_account env now m acct s, new_transaction env now m acct s)
              (audited (posted env now m acct s) store n))
      → ((s : Ledger env.Db) (store : Option InMemoryStore) (n : ℕ)
          → P s
          → E
              (fail env now ctx k m.meta code_error "audit unavailable")
              (audited (undone env now m acct s) store n))
      → Triple P E Q (post_movement env now ctx k m idem acct)
  post_movement-Triple m idem acct {Q} off ready done undo = offline-Triple _ off λ s p.
      let (fresh, range) = ready (offline s) p in
      let (store, n, outcome) = post_movement-offline env now m acct s ctx k idem fresh range in
      elim outcome [
        | inl e ↦ rw e (done (offline s) store n p)
        | inr e ↦ rw e (undo (offline s) store n p)
      ]

  pub keep_reply-Triple :
      (key scope idem hash : String) (resp : R) {Q : Unit {0} → Ledger env.Db → Type 0}
      → ((s : Ledger env.Db) → P s → s.db ≡ none)
      → ((s : Ledger env.Db) → P s → Q tt (k.with_cached (insert key resp (k.cached s)) s))
      → Triple P E Q (keep_reply env now ctx k meta key scope idem hash resp)
  unfolding keep_reply persist_idempotency_response cache_reply
  keep_reply-Triple key scope idem hash resp {Q} off h =
      offline-Triple (keep_reply env now ctx k meta key scope idem hash resp) off
        λ s p. h (offline s) p

module _ (env : LedgerEnv) (now : ℕ) (ctx : Option TokenActor) (k : Replies env.Db DepositResponse)
    {P : Ledger env.Db → Type 0} {E : DepositResponse → Ledger env.Db → Type 0} where
  pub replay_transaction-Triple :
      (meta : Option RequestMeta) (account_id : String) (type : LedgerTransactionType)
      (idem currency key : String)
      → ((s : Ledger env.Db) → P s → s.db ≡ none)
      → Triple P E
          (λ _. P)
          (replay_transaction env now ctx k meta account_id type idem currency key)
  unfolding replay_transaction
  replay_transaction-Triple meta account_id type idem currency key off =
      offline-Triple (replay_transaction env now ctx k meta account_id type idem currency key) off
        λ s p. p

-- The body of a handler under the mutex.
pub with_lock-Triple :
    {Db R : Type 0} {P P' : Ledger Db → Type 0} {E E' : R → Ledger Db → Type 0}
    (m : Body (Ledger Db) R R)
    → ((s : Ledger Db) → P s → (s.mu ≡ false) × P' (record s { mu = true }))
    → Triple P' E' E' m
    → ((s : Ledger Db) (r : R) → E' r s → E r (record s { mu = false }))
    → Triple P E E (with_lock m)
unfolding with_lock
with_lock-Triple {Db} {R} {P'} {E} {E'} m enter t leave = record {
  at = λ s p.
      let (free, q) = enter s p in
      rw (free, if◌then◌else◌)
        (by_end (m (record s { mu = true })).0 (m (record s { mu = true })).1 (t.at _ q));
}
  where
    by_end : (f : Flow R R) (s : Ledger Db) → Ends E' E' (f, s) → Ends E E (f, unlock_after f s)
    by_end (ret r) s h = leave s r h
    by_end (next r) s h = leave s r h
    by_end blocked s h = h
