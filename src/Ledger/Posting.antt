-- ===== src/Ledger/Posting.antt =====
-- `post_movement` without a database: it either posts the movement, or leaves balances, postings
-- and transactions as they were.
use open_rgs_go.Prelude.{
  ℕ, ◌+◌, ◌<◌, String, ◌≡◌, ◌≢◌, refl, ap, ◌∙◌, ◌⊎◌, Option, none, List, [], ◌∷◌, ◌++◌, arith,
}
use open_rgs_go.Prelude.Int64.{two64}
use open_rgs_go.Prelude.Dict.{
  Dict, lookup, lookup_or, insert, erase-insert_new, insert-insert, lookup-insert_self,
}
use open_rgs_go.Prelude.Flow.{ret, next}
use open_rgs_go.Proto.{code_error}
use open_rgs_go.Actor.{TokenActor}
use open_rgs_go.Audit.{InMemoryStore, success}
use open_rgs_go.Ledger.State.{Ledger, LedgerAccount, LedgerTransaction}
use open_rgs_go.Ledger.Env.{LedgerEnv}
use open_rgs_go.Ledger.Books.{
  drop_last, tx_id, next_tx_id, add_postings, store_account, append_transaction, delete_postings,
  rollback_last_transaction, rolled_back,
}
use open_rgs_go.Ledger.Persist.{persist_ledger_mutation}
use open_rgs_go.Ledger.Steps.{Replies, fail}
use open_rgs_go.Ledger.Mutation.{
  Movement, movement_postings, apply_side, movement_transaction, undo_movement, post_movement,
}
use open_rgs_go.Ledger.Offline.{
  offline, audited, append_audit-offline, movement_postings-balanced, apply_side_undo,
  drop_last-append,
}

abbrev pub history : {Db : Type 0} → String → Ledger Db → List LedgerTransaction
history account_id s = lookup_or [] account_id s.transactions_by_acct

-- Taking back the transaction that was appended last.
rolled_back-nonempty :
    (account_id : String) (txs : List LedgerTransaction) (d : Dict (List LedgerTransaction))
    → lookup_or [] account_id d ≡ txs
    → txs ≢ []
    → rolled_back account_id d ≡ insert account_id (drop_last txs) d
unfolding rolled_back
rolled_back-nonempty account_id [] d e h = absurd (h refl)
rolled_back-nonempty account_id (tx ∷ txs) d e h = ground (arith, e)

append-ne-nil : {A : Type 0} (xs : List A) (x : A) → (xs ++ (x ∷ [])) ≢ []
append-ne-nil [] x e = cc
append-ne-nil (y ∷ ys) x e = cc

rollback_offline :
    (account_id : String) (txs : List LedgerTransaction) (tx : LedgerTransaction)
    (d : Dict (List LedgerTransaction))
    → rolled_back account_id (insert account_id (txs ++ (tx ∷ [])) d) ≡ insert account_id txs d
unfolding lookup_or
rollback_offline account_id txs tx d =
    let txs' = txs ++ (tx ∷ []) in
    rolled_back-nonempty account_id txs' (insert account_id txs' d)
      (ground (arith, lookup-insert_self account_id txs' d)) (append-ne-nil txs tx)
    ∙ ap (λ l. insert account_id l (insert account_id txs' d)) (drop_last-append txs tx)
    ∙ insert-insert account_id txs txs' d

module _ (env : LedgerEnv) (now : ℕ) (m : Movement) (acct : LedgerAccount) (s : Ledger env.Db) where
  abbrev pub new_id : String
  new_id = tx_id (s.next_transaction_id + 1)

  abbrev pub moved_account : LedgerAccount
  moved_account = apply_side m.side m.amount acct

  abbrev pub new_transaction : LedgerTransaction
  new_transaction = movement_transaction env now new_id m

  -- The state after a posted movement, but for the audit store.
  abbrev pub posted : Ledger env.Db
  posted = record (offline s) {
    next_transaction_id = s.next_transaction_id + 1;
    postings_by_tx = insert new_id (movement_postings now m) s.postings_by_tx;
    accounts = insert m.account_id moved_account s.accounts;
    transactions_by_acct =
        insert m.account_id (history m.account_id s ++ (new_transaction ∷ []))
          s.transactions_by_acct;
  }

  -- The state after a movement that was undone, but for the audit store.
  abbrev pub undone : Ledger env.Db
  undone = record (offline s) {
    next_transaction_id = s.next_transaction_id + 1;
    accounts = insert m.account_id acct s.accounts;
    transactions_by_acct = insert m.account_id (history m.account_id s) s.transactions_by_acct;
  }

  undo_posted :
      (store : Option InMemoryStore) (n : ℕ)
      → lookup new_id s.postings_by_tx ≡ none
      → acct.available < two64
      → undo_movement env now m new_id moved_account (audited posted store n)
        ≡ audited undone store n
  unfolding undo_movement store_account delete_postings rollback_last_transaction
  undo_posted store n fresh range = ground (
    arith,
    erase-insert_new new_id (movement_postings now m) s.postings_by_tx,
    insert-insert m.account_id acct moved_account s.accounts,
    rollback_offline m.account_id (history m.account_id s) new_transaction s.transactions_by_acct,
    apply_side_undo m.side m.amount acct,
  )

  pub post_movement-offline :
      (ctx : Option TokenActor) {R : Type 0} (k : Replies env.Db R) (idem : String)
      → lookup new_id s.postings_by_tx ≡ none
      → acct.available < two64
      → (store : Option InMemoryStore) × (n : ℕ) × ((post_movement env now ctx k m idem acct
              (offline s)
            ≡ (next (moved_account, new_transaction), audited posted store n))
          ⊎ (post_movement env now ctx k m idem acct (offline s) ≡ (
            ret (fail env now ctx k m.meta code_error "audit unavailable"),
            audited undone store n,
          )))
  unfolding post_movement next_tx_id add_postings store_account append_transaction
      persist_ledger_mutation lookup_or
  post_movement-offline ctx k idem fresh range =
      let (store, n, ok, e) =
        append_audit-offline env now m.meta "ledger_account" m.account_id m.action
          (env.marshal_account acct) (env.marshal_account moved_account) success m.reason posted in
      (
        store,
        n,
        ground (arith, e, fresh, undo_posted store n fresh range, movement_postings-balanced now m),
      )
