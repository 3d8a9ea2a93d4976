-- ===== src/Ledger/Settles.antt =====
-- Deposit, Withdraw, TransferToAccount and TransferToDevice without a database keep the contract
-- of Ledger/Contract.
use open_rgs_go.Prelude.{
  ℕ, ◌+◌, String, ◌≡◌, ◌≢◌, refl, sym, Bool, true, false, not, Option, some, arith, ◌=ˢ◌,
}
use mathlib.Core.Path.{subst}
use open_rgs_go.Prelude.Dict.{Dict, insert}
use open_rgs_go.Prelude.Flow.{Body, call, pure, ◌>>=◌, ◌>>◌}
use open_rgs_go.Prelude.Flow.Triple.{
  Triple, Triple-bind, Triple-pure, Triple-modify, Triple-return_if,
}
use open_rgs_go.Proto.{RequestMeta, code_ok, code_invalid, code_error}
use open_rgs_go.Actor.{TokenActor}
use open_rgs_go.Ledger.State.{
  Ledger, LedgerAccount, LedgerTransaction, LedgerTransactionType, DepositResponse,
}
use open_rgs_go.Ledger.Env.{LedgerEnv}
use open_rgs_go.Ledger.Books.{use_in_memory}
use open_rgs_go.Ledger.Methods.{record_eft_failure, audit_denied, eft_locked}
use open_rgs_go.Ledger.Steps.{
  Replies, fail, check_unlocked, replay_reply, replay_transaction, cached_reply,
}
use open_rgs_go.Ledger.Mutation.{Movement, apply_side, post_movement, keep_reply, clear_failures}
use open_rgs_go.Ledger.Handlers.{deny_overdraft, take_account}
use open_rgs_go.Ledger.Reconcile.{balance_in-lt, IsCustomer}
use open_rgs_go.Ledger.Rules.{
  offline-Triple, check_unlocked-Triple, replay_reply-Triple, replay_transaction-Triple,
  take_account-Triple, post_movement-Triple, keep_reply-Triple,
}
use open_rgs_go.Ledger.Contract.{
  ReplyLaws, InOrder, Working, Settled, Taken, Replied, audit_denied-Working,
  record_eft_failure-offline, fail-Settled, denied-Settled, replay-Settled, old-Taken, new-Taken,
  posted-InOrder, undone-Working, put-InOrder, put-Replied, clear-Settled,
}

module _ (env : LedgerEnv) (now : ℕ) (ctx : Option TokenActor) {R : Type 0} (k : Replies env.Db R)
    (laws : ReplyLaws k) (meta : Option RequestMeta) (account_id key scope idem hash : String)
    (start : Ledger env.Db) (effect : Dict LedgerAccount → Type 0) (held : Bool) where
  abbrev End : R → Ledger env.Db → Type 0
  End = Settled k now account_id key start effect held

  pub unlocked-Triple :
      (action : String)
      → Triple
          (Working start held)
          End
          (λ _ s. Working start held s × (eft_locked env now account_id s ≡ some false))
          (check_unlocked env now ctx k meta account_id action)
  unlocked-Triple action =
      check_unlocked-Triple env now ctx k meta account_id action
        (λ s w.
          fail-Settled env now ctx k laws account_id key start effect held meta code_error _ s
            (λ e. cc e) w)
        (λ s reason w.
          denied-Settled env now ctx k laws account_id key start effect held meta action s reason w)

  abbrev Free : Ledger env.Db → Type 0
  Free s = Working start held s × (eft_locked env now account_id s ≡ some false)

  pub replay-Triple :
      Triple Free End (λ _. Free) (replay_reply env now ctx k meta key scope idem hash)
  unfolding cached_reply use_in_memory
  replay-Triple =
      replay_reply-Triple env now ctx k meta account_id "" key scope idem hash
        (λ s w. w.0.order.no_db)
        (λ s prev w e.
          replay-Settled env now ctx k laws account_id key start effect held s prev w.0 w.1
            (ground (arith, w.0.order.no_db, e)))

  pub account-Triple :
      (currency : String)
      → Triple Free End
          (Taken start held account_id)
          (take_account env now ctx k meta account_id currency)
  account-Triple currency =
      take_account-Triple env now ctx k meta account_id "" currency (λ s w. w.0.order.no_db)
        (λ s acct w e. old-Taken env start held account_id s w.0 acct e)
        (λ s w e. new-Taken env start held account_id s w.0 currency e)
        (λ s acct reason t.
          fail-Settled env now ctx k laws account_id key start effect held meta code_invalid reason
            s (λ e. cc e) t.working)

  pub clear-Triple :
      (r : R)
      → (account_id =ˢ "") ≡ false
      → k.code_of r ≡ code_ok
      → Triple
          (Replied k key effect held r)
          End
          (λ _. End r)
          (clear_failures env now ctx k account_id)
  unfolding clear_failures
  clear-Triple r named ok =
      Triple-modify _
        λ s p. clear-Settled env now ctx k laws account_id key effect held start r s named ok p

  pub kept-Triple :
      (r : R)
      → Triple
          (λ s. InOrder held s × effect s.accounts)
          End
          (λ _. Replied k key effect held r)
          (keep_reply env now ctx k meta key scope idem hash r)
  kept-Triple r =
      keep_reply-Triple env now ctx k meta account_id "" key scope idem hash r (λ s o. o.0.no_db)
        (λ s o. put-Replied env now ctx k laws account_id key effect held r s o.0 o.1)

  -- The movement of a request.
  pub movement-Triple :
      (m : Movement) (acct : LedgerAccount) (same_account : m.account_id ≡ account_id)
      → ((a : String) → IsCustomer a → m.other ≢ a)
      → ((s : Ledger env.Db)
          → Taken start held account_id acct s
          → effect (insert m.account_id (apply_side m.side m.amount acct) s.accounts))
      → Triple
          (Taken start held account_id acct)
          End
          (λ _ s. InOrder held s × effect s.accounts)
          (post_movement env now ctx k m idem acct)
  movement-Triple m acct e house moves =
      post_movement-Triple env now ctx k meta account_id "" m idem acct
        (λ s t. t.working.order.no_db)
        (λ s t. (
          t.working.order.books.fresh (s.next_transaction_id + 1) (omega arith),
          rw t.current (balance_in-lt t.working.order.books account_id),
        ))
        (λ s store n t. (
          posted-InOrder env now start held m acct s
              (subst (λ a. Taken start held a acct s) (sym e) t) store n house,
          moves s t,
        ))
        (λ s store n t.
          fail-Settled env now ctx k laws account_id key start effect held m.meta code_error _ _
            (λ q. cc q)
            (undone-Working env now start held m acct s
              (subst (λ a. Taken start held a acct s) (sym e) t) store n))

  counted-Triple :
      (acct : LedgerAccount)
      → Triple
          (Taken start held account_id acct)
          End
          (λ counted s. (counted ≡ true) × Working start held s)
          (call (record_eft_failure env now account_id))
  counted-Triple acct =
      offline-Triple (call (record_eft_failure env now account_id)) (λ s t. t.working.order.no_db)
        λ s t.
          let (f, l, e) = record_eft_failure-offline env now account_id s in
          let o = t.working.order in
          rw e (
            refl,
            record {
              order = record { no_db = o.no_db; mutex = o.mutex; books = o.books };
              same = t.working.same;
              replies = t.working.replies;
            },
          )

  refused-Triple :
      (resp : R)
      → k.code_of resp ≢ code_ok
      → Triple
          (Working start held)
          End
          (λ _. End resp)
          (keep_reply env now ctx k meta key scope idem hash resp)
  refused-Triple resp bad =
      keep_reply-Triple env now ctx k meta account_id "" key scope idem hash resp
        (λ s w. w.order.no_db)
        λ s w. record {
          order = put-InOrder env now ctx k laws account_id key start effect held resp s w.order;
          kept = λ e. absurd (bad e);
          unlocked = λ e. absurd (bad e);
          moved = λ e. absurd (bad e);
          same = λ _. rw (laws.put_accounts (insert key resp (k.cached s)) s) w.same;
        }

  -- The refusal of a request that the balance does not cover.
  pub deny-Triple :
      (action : String) (acct : LedgerAccount) (resp : R)
      → k.code_of resp ≢ code_ok
      → Triple
          (Taken start held account_id acct)
          End
          End
          (deny_overdraft env now ctx k meta account_id action key scope idem hash resp)
  unfolding deny_overdraft
  deny-Triple action acct resp bad = Triple-bind (counted-Triple acct) λ counted.
      Triple-bind
        (Triple-return_if (not counted)
          (fail env now ctx k meta code_error "persistence unavailable")
          (λ s p e. absurd (ground (arith, p.0, e))))
        λ _.
          Triple-bind
            (Triple-modify
              (audit_denied env now meta "ledger_account" account_id action "insufficient balance")
              (λ s p.
                audit_denied-Working env now start held meta account_id action
                  "insufficient balance" s p.0.1))
            λ _. Triple-bind (refused-Triple resp bad) λ _. Triple-pure resp (λ s p. p)

  -- An accepted movement, its reply, and the clearing of the failures.
  pub accept-Triple :
      (m : Movement) (acct : LedgerAccount) (resp : LedgerAccount × LedgerTransaction → R)
      → m.account_id ≡ account_id
      → ((a : String) → IsCustomer a → m.other ≢ a)
      → ((s : Ledger env.Db)
          → Taken start held account_id acct s
          → effect (insert m.account_id (apply_side m.side m.amount acct) s.accounts))
      → (account_id =ˢ "") ≡ false
      → ((p : LedgerAccount × LedgerTransaction) → k.code_of (resp p) ≡ code_ok)
      → Triple (Taken start held account_id acct) End End (
          post_movement env now ctx k m idem acct >>= λ p.
          keep_reply env now ctx k meta key scope idem hash (resp p)
          >> (clear_failures env now ctx k account_id >> pure (resp p)))
  accept-Triple m acct resp e house moves named ok =
      Triple-bind (movement-Triple m acct e house moves) λ p.
        Triple-bind (kept-Triple (resp p))
          λ _. Triple-bind (clear-Triple (resp p) named (ok p)) λ _. Triple-pure (resp p) (λ s q. q)

-- From the lock to the account, for the three handlers that look for the transaction in the
-- database.
module _ (env : LedgerEnv) (now : ℕ) (ctx : Option TokenActor) (k : Replies env.Db DepositResponse)
    (laws : ReplyLaws k) (meta : Option RequestMeta) (account_id key scope idem hash : String)
    (start : Ledger env.Db) (effect : Dict LedgerAccount → Type 0) (held : Bool) where
  pub opening-Triple :
      (action currency : String) (type : LedgerTransactionType)
      (rest : LedgerAccount → Body (Ledger env.Db) DepositResponse DepositResponse)
      → let E = Settled k now account_id key start effect held in
        ((acct : LedgerAccount) → Triple (Taken start held account_id acct) E E (rest acct))
        → Triple (Working start held) E E (
            check_unlocked env now ctx k meta account_id action
            >> (replay_reply env now ctx k meta key scope idem hash
                >> (replay_transaction env now ctx k meta account_id type idem currency key
                    >> (take_account env now ctx k meta account_id currency >>= rest))))
  opening-Triple action currency type rest h =
      Triple-bind
        (unlocked-Triple env now ctx k laws meta account_id key scope idem hash start effect held
          action)
        λ _.
          Triple-bind
            (replay-Triple env now ctx k laws meta account_id key scope idem hash start effect held)
            λ _.
              Triple-bind
                (replay_transaction-Triple env now ctx k meta account_id type idem currency key
                  (λ s w. w.0.order.no_db))
                λ _.
                  Triple-bind
                    (account-Triple env now ctx k laws meta account_id key scope idem hash start
                      effect held currency)
                    h
