-- ===== src/Ledger/Contract.antt =====
-- What a mutating handler promises without a database, and the rules by which its last steps keep
-- the promise.
use open_rgs_go.Prelude.{
  ℕ, String, ◌≡◌, ◌≢◌, refl, sym, ap, ◌∙◌, ◌⊎◌, Bool, true, false, inl, inr, Option, none, some,
  arith, ◌=ˢ◌, ltb, eq_iff,
}
use mathlib.Core.Path.{subst}
use open_rgs_go.Prelude.Dict.{
  Dict, lookup, lookup_or, insert, erase, lookup-insert_self, lookup-erase_self, lookup-insert,
}
use open_rgs_go.Proto.{RequestMeta, ResponseMeta, ResultCode, code_ok, code_denied}
use open_rgs_go.Actor.{TokenActor}
use open_rgs_go.Audit.{InMemoryStore, denied}
use open_rgs_go.Ledger.State.{Ledger, LedgerAccount}
use open_rgs_go.Ledger.Env.{LedgerEnv}
use open_rgs_go.Ledger.Books.{new_account}
use open_rgs_go.Ledger.Methods.{
  response_meta, audit_denied, eft_locked, reset_eft_failures, record_eft_failure,
}
use open_rgs_go.Ledger.Steps.{Replies, fail}
use open_rgs_go.Ledger.Mutation.{Movement}
use open_rgs_go.Ledger.Offline.{offline, offline-eq, audited, append_audit-offline}
use open_rgs_go.Ledger.Posting.{posted, undone}
use open_rgs_go.Ledger.Reconcile.{
  balance_in, balance_in-insert, IsCustomer, Reconciled, rewrite-Reconciled, create-Reconciled,
  movement-Reconciled,
}

-- The replies that are kept are those of `start`.
abbrev pub SameReplies : {Db : Type 0} → Ledger Db → Ledger Db → Type 0
SameReplies start s =
    (s.deposit_by_idempotency ≡ start.deposit_by_idempotency)
    × (s.withdraw_by_idempotency ≡ start.withdraw_by_idempotency)
    × (s.to_account_by_idempotency ≡ start.to_account_by_idempotency)
    × (s.to_device_by_idempotency ≡ start.to_device_by_idempotency)

-- The map of replies stands apart from the rest of the state.
pub record ReplyLaws {Db R : Type 0} (k : Replies Db R) : Type 0 where
  pub code_of_meta : (m : ResponseMeta) → k.code_of (k.of_meta m) ≡ m.result_code
  pub cached_put : (d : Dict R) (s : Ledger Db) → k.cached (k.with_cached d s) ≡ d
  pub cached_mu : (b : Bool) (s : Ledger Db) → k.cached (record s { mu = b }) ≡ k.cached s
  pub cached_failures :
      (f l : Dict ℕ) (s : Ledger Db)
      → k.cached (record s { eft_fraud_failures = f; eft_fraud_locked_until = l }) ≡ k.cached s
  pub cached_same : (start s : Ledger Db) → SameReplies start s → k.cached s ≡ k.cached start
  pub put_db : (d : Dict R) (s : Ledger Db) → (k.with_cached d s).db ≡ s.db
  pub put_mu : (d : Dict R) (s : Ledger Db) → (k.with_cached d s).mu ≡ s.mu
  pub put_accounts : (d : Dict R) (s : Ledger Db) → (k.with_cached d s).accounts ≡ s.accounts
  pub put_postings :
      (d : Dict R) (s : Ledger Db) → (k.with_cached d s).postings_by_tx ≡ s.postings_by_tx
  pub put_next :
      (d : Dict R) (s : Ledger Db) → (k.with_cached d s).next_transaction_id ≡ s.next_transaction_id

-- No database, the mutex as given, and reconciled books.
pub record InOrder {Db : Type 0} (held : Bool) (s : Ledger Db) : Type 0 where
  pub no_db : s.db ≡ none
  pub mutex : s.mu ≡ held
  pub books : Reconciled s.next_transaction_id s.accounts s.postings_by_tx

-- Every balance is what it was in `start`.
abbrev pub SameBalances : Dict LedgerAccount → Dict LedgerAccount → Type 0
SameBalances start accounts = (a : String) → balance_in a accounts ≡ balance_in a start

-- Before the movement.
pub record Working {Db : Type 0} (start : Ledger Db) (held : Bool) (s : Ledger Db) : Type 0 where
  pub order : InOrder held s
  pub same : SameBalances start.accounts s.accounts
  pub replies : SameReplies start s

-- At the end, with the response `r`: the books are in order, an accepted request's response is
-- kept under its key, the account is not locked, and either the same response was kept under the key
-- before and the balances are as they were (a replay), or they are changed as `effect` says; any other response leaves the balances as they were.
pub record Settled {Db R : Type 0} (k : Replies Db R) (now : ℕ) (account_id key : String)
    (start : Ledger Db) (effect : Dict LedgerAccount → Type 0) (held : Bool) (r : R) (s : Ledger Db)
    : Type 0 where
  pub order : InOrder held s
  pub kept : k.code_of r ≡ code_ok → lookup key (k.cached s) ≡ some r
  pub unlocked :
      k.code_of r ≡ code_ok → ltb now (lookup_or 0 account_id s.eft_fraud_locked_until) ≡ false
  pub same : k.code_of r ≢ code_ok → SameBalances start.accounts s.accounts
  pub moved :
      k.code_of r ≡ code_ok
      → (SameBalances start.accounts s.accounts × (lookup key (k.cached start) ≡ some r))
        ⊎ effect s.accounts

module _ (env : LedgerEnv) (now : ℕ) where
  -- An audited refusal changes the audit store and its counter alone.
  pub audit_denied_offline :
      (meta : Option RequestMeta) (account_id action reason : String) (s : Ledger env.Db)
      → s.db ≡ none
      → (store : Option InMemoryStore) × (n : ℕ) × (audit_denied env now meta "ledger_account"
            account_id action reason s
          ≡ audited s store n)
  unfolding audit_denied
  audit_denied_offline meta account_id action reason s h =
      let (store, n, ok, e) =
        append_audit-offline env now meta "ledger_account" account_id action "{}" "{}" denied reason
          s in
      (
        store,
        n,
        subst
            (λ t.
              audit_denied env now meta "ledger_account" account_id action reason t
              ≡ audited t store n)
            (sym (offline-eq s h)) (ap (λ p. p.1) e),
      )

  pub audit_denied-Working :
      (start : Ledger env.Db) (held : Bool) (meta : Option RequestMeta)
      (account_id action reason : String) (s : Ledger env.Db)
      → Working start held s
      → Working start held (audit_denied env now meta "ledger_account" account_id action reason s)
  audit_denied-Working start held meta account_id action reason s w =
      let (store, n, e) = audit_denied_offline meta account_id action reason s w.order.no_db in
      rw e (record {
        order = record { no_db = w.order.no_db; mutex = w.order.mutex; books = w.order.books };
        same = w.same;
        replies = w.replies;
      })

  -- A counted failure changes the two maps of failures alone.
  pub record_eft_failure-offline :
      (account_id : String) (s : Ledger env.Db)
      → (f l : Dict ℕ) × (record_eft_failure env now account_id (offline s)
          ≡ (true, record (offline s) { eft_fraud_failures = f; eft_fraud_locked_until = l }))
  unfolding record_eft_failure
  record_eft_failure-offline account_id s =
      let t = (record_eft_failure env now account_id (offline s)).1 in
      (t.eft_fraud_failures, t.eft_fraud_locked_until, ground arith)

  pub reset_eft_failures_offline :
      (account_id : String) (s : Ledger env.Db)
      → (account_id =ˢ "") ≡ false
      → s.db ≡ none
      → (reset_eft_failures env now account_id s).1 ≡ record s {
        eft_fraud_failures = erase account_id s.eft_fraud_failures;
        eft_fraud_locked_until = erase account_id s.eft_fraud_locked_until;
      }
  unfolding reset_eft_failures
  reset_eft_failures_offline account_id s named h = ground (arith, named, h)

module _ (env : LedgerEnv) (now : ℕ) (ctx : Option TokenActor) {R : Type 0} (k : Replies env.Db R)
    (laws : ReplyLaws k) (account_id key : String) (start : Ledger env.Db)
    (effect : Dict LedgerAccount → Type 0) (held : Bool) where
  -- A failure response.
  pub fail-Settled :
      (meta : Option RequestMeta) (code : ResultCode) (reason : String) (s : Ledger env.Db)
      → code ≢ code_ok
      → Working start held s
      → Settled k now account_id key start effect held (fail env now ctx k meta code reason) s
  unfolding response_meta
  fail-Settled meta code reason s bad w =
      let e : k.code_of (fail env now ctx k meta code reason) ≡ code =
        laws.code_of_meta (response_meta env now meta code reason) in
      record {
        order = w.order;
        kept = λ h. absurd (bad (sym e ∙ h));
        unlocked = λ h. absurd (bad (sym e ∙ h));
        same = λ _. w.same;
        moved = λ h. absurd (bad (sym e ∙ h));
      }

  -- The refusal of a request is audited.
  pub denied-Settled :
      (meta : Option RequestMeta) (action : String) (s : Ledger env.Db) (reason : String)
      → Working start held s
      → Settled k now account_id key start effect held
          (fail env now ctx k meta code_denied reason)
          (audit_denied env now meta "ledger_account" account_id action reason s)
  denied-Settled meta action s reason w =
      fail-Settled meta code_denied reason _ (λ e. cc e)
        (audit_denied-Working env now start held meta account_id action reason s w)

  pub put-InOrder :
      (r : R) (s : Ledger env.Db)
      → InOrder held s
      → InOrder held (k.with_cached (insert key r (k.cached s)) s)
  put-InOrder r s o =
      let d = insert key r (k.cached s) in
      record {
        no_db = laws.put_db d s ∙ o.no_db;
        mutex = laws.put_mu d s ∙ o.mutex;
        books = rw (laws.put_next d s, laws.put_accounts d s, laws.put_postings d s) o.books;
      }

  -- The reply that was given before to the key.
  pub replay-Settled :
      (s : Ledger env.Db) (prev : R)
      → Working start held s
      → eft_locked env now account_id s ≡ some false
      → lookup key (k.cached s) ≡ some prev
      → Settled k now account_id key start effect held prev s
  unfolding eft_locked
  replay-Settled s prev w free e = record {
    order = w.order;
    kept = λ _. e;
    unlocked = λ _. ground (arith, w.order.no_db, free);
    same = λ _. w.same;
    moved = λ _. inl (w.same, ap (lookup key) (sym (laws.cached_same start s w.replies)) ∙ e);
  }

-- The account at hand, with the balance that the books show.
pub record Taken {Db : Type 0} (start : Ledger Db) (held : Bool) (account_id : String)
    (acct : LedgerAccount) (s : Ledger Db) : Type 0 where
  pub working : Working start held s
  pub current : acct.available ≡ balance_in account_id s.accounts

-- After the reply was kept.
pub record Replied {Db R : Type 0} (k : Replies Db R) (key : String)
    (effect : Dict LedgerAccount → Type 0) (held : Bool) (r : R) (s : Ledger Db) : Type 0 where
  pub order : InOrder held s
  pub effective : effect s.accounts
  pub kept : lookup key (k.cached s) ≡ some r

module _ (env : LedgerEnv) (start : Ledger env.Db) (held : Bool) (account_id : String)
    (s : Ledger env.Db) (w : Working start held s) where
  pub old-Taken :
      (acct : LedgerAccount)
      → lookup account_id s.accounts ≡ some acct
      → Taken start held account_id acct s
  unfolding balance_in
  old-Taken acct e = record { working = w; current = ground (arith, e) }

  pub new-Taken :
      (currency : String)
      → lookup account_id s.accounts ≡ none
      → Taken start held account_id
          (new_account account_id currency)
          (record s { accounts = insert account_id (new_account account_id currency) s.accounts })
  unfolding balance_in
  new-Taken currency e = record {
    working = record {
      order = record {
        no_db = w.order.no_db;
        mutex = w.order.mutex;
        books = create-Reconciled w.order.books account_id currency e;
      };
      same = λ b. ground (
        arith,
        lookup-insert account_id b (new_account account_id currency) s.accounts,
        eq_iff account_id b,
        w.same b,
      );
      replies = w.replies;
    };
    current =
        ground (arith, lookup-insert_self account_id (new_account account_id currency) s.accounts);
  }

module _ (env : LedgerEnv) (now : ℕ) (start : Ledger env.Db) (held : Bool) (m : Movement)
    (acct : LedgerAccount) (s : Ledger env.Db) (t : Taken start held m.account_id acct s)
    (store : Option InMemoryStore) (n : ℕ) where
  pub posted-InOrder :
      ((a : String) → IsCustomer a → m.other ≢ a)
      → InOrder held (audited (posted env now m acct s) store n)
  posted-InOrder house = record {
    no_db = refl;
    mutex = t.working.order.mutex;
    books = movement-Reconciled t.working.order.books now m acct house t.current;
  }

  pub undone-Working : Working start held (audited (undone env now m acct s) store n)
  undone-Working = record {
    order = record {
      no_db = refl;
      mutex = t.working.order.mutex;
      books = rewrite-Reconciled t.working.order.books m.account_id acct t.current;
    };
    same = λ b. ground (
      arith,
      balance_in-insert m.account_id b acct s.accounts,
      eq_iff m.account_id b,
      t.working.same b,
      t.current,
    );
    replies = t.working.replies;
  }

module _ (env : LedgerEnv) (now : ℕ) (ctx : Option TokenActor) {R : Type 0} (k : Replies env.Db R)
    (laws : ReplyLaws k) (account_id key : String) (effect : Dict LedgerAccount → Type 0)
    (held : Bool) where
  pub put-Replied :
      (r : R) (s : Ledger env.Db)
      → InOrder held s
      → effect s.accounts
      → Replied k key effect held r (k.with_cached (insert key r (k.cached s)) s)
  put-Replied r s o moved = record {
    order = put-InOrder env now ctx k laws account_id key s effect held r s o;
    effective = rw (laws.put_accounts (insert key r (k.cached s)) s) moved;
    kept =
        rw (laws.cached_put (insert key r (k.cached s)) s) (lookup-insert_self key r (k.cached s));
  }

  -- Clearing the failures after an accepted request.
  pub clear-Settled :
      (start : Ledger env.Db) (r : R) (s : Ledger env.Db)
      → (account_id =ˢ "") ≡ false
      → k.code_of r ≡ code_ok
      → Replied k key effect held r s
      → Settled k now account_id key start effect held r (reset_eft_failures env now account_id s).1
  unfolding lookup_or
  clear-Settled start r s named ok p =
      let failures = erase account_id s.eft_fraud_failures in
      let locks = erase account_id s.eft_fraud_locked_until in
      rw (reset_eft_failures_offline env now account_id s named p.order.no_db) (record {
        order = record { no_db = p.order.no_db; mutex = p.order.mutex; books = p.order.books };
        kept = λ _. rw (laws.cached_failures failures locks s) p.kept;
        unlocked = λ _. ground (arith, lookup-erase_self account_id s.eft_fraud_locked_until);
        same = λ bad. absurd (bad ok);
        moved = λ _. inr p.effective;
      })
