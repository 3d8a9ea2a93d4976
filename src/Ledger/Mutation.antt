-- ===== src/Ledger/Mutation.antt =====
-- What the four mutating handlers of ledger_grpc.go do once the account is at hand: the postings,
-- the balance, the transaction record, the audit event and the database, with the undoing of all
-- of it when the audit or the database fails; then the reply. The source writes these statements
-- out in each handler (Deposit 568-613, Withdraw 713-763, TransferToDevice 851-905 and
-- TransferToAccount 1000-1045); a `Movement` holds what differs.
use open_rgs_go.Prelude.{ℕ, String, not, Option, List, [], ◌∷◌}
use open_rgs_go.Prelude.Int64.{◌+64◌, ◌-64◌}
use open_rgs_go.Prelude.Flow.{Body, pure, call, modify, return_if, undo_unless, ◌>>=◌, ◌>>◌}
use open_rgs_go.Proto.{RequestMeta, code_error, money}
use open_rgs_go.Actor.{TokenActor}
use open_rgs_go.Audit.{success}
use open_rgs_go.Ledger.State.{
  Ledger, LedgerAccount, LedgerPosting, LedgerTransaction, LedgerTransactionType,
}
use open_rgs_go.Ledger.Env.{LedgerEnv}
use open_rgs_go.Ledger.Books.{
  store_account, append_transaction, rollback_last_transaction, next_tx_id, add_postings,
  delete_postings,
}
use open_rgs_go.Ledger.Methods.{append_audit, reset_eft_failures}
use open_rgs_go.Ledger.Persist.{persist_ledger_mutation, persist_idempotency_response}
use open_rgs_go.Ledger.Steps.{Replies, fail, cache_reply}

-- The direction of a movement, seen from the account.
pub data Side : Type 0 where
  money_in money_out : Side

pub record Movement : Type 0 where
  pub meta : Option RequestMeta
  pub account_id : String
  pub other : String  -- the other account of the two postings
  pub side : Side
  pub amount : ℕ
  pub currency : String
  pub transaction_type : LedgerTransactionType
  pub authorization_id : String
  pub description : String
  pub action : String
  pub reason : String  -- of the audit event

-- The posting debited stands first.
unfoldable pub movement_postings : ℕ → Movement → List LedgerPosting
movement_postings now m = elim m.side [
  | money_in ↦ posting m.other "debit" ∷ posting m.account_id "credit" ∷ []
  | money_out ↦ posting m.account_id "debit" ∷ posting m.other "credit" ∷ []
]
  where
    posting : String → String → LedgerPosting
    posting account direction = record {
      account_id = account;
      direction = direction;
      amount = m.amount;
      currency = m.currency;
      created_at = now;
    }

unfoldable pub apply_side : Side → ℕ → LedgerAccount → LedgerAccount
apply_side money_in amount acct = record acct { available = acct.available +64 amount }
apply_side money_out amount acct = record acct { available = acct.available -64 amount }

abbrev pub opposite : Side → Side
opposite money_in = money_out
opposite money_out = money_in

module _ (env : LedgerEnv) (now : ℕ) where
  unfoldable pub movement_transaction : String → Movement → LedgerTransaction
  movement_transaction id m = record {
    transaction_id = id;
    account_id = m.account_id;
    transaction_type = m.transaction_type;
    amount = money m.amount m.currency;
    occurred_at = env.format_time now;
    authorization_id = m.authorization_id;
    description = m.description;
  }

  -- acct.available -= amount (or +=); delete(s.postingsByTx, txID); s.rollbackLastTransaction(…)
  unfoldable pub undo_movement : Movement → String → LedgerAccount → Ledger env.Db → Ledger env.Db
  unfolding store_account delete_postings rollback_last_transaction apply_side
  undo_movement m id moved s = rollback_last_transaction m.account_id (
      delete_postings id
        (store_account m.account_id (apply_side (opposite m.side) m.amount moved) s))

module _ (env : LedgerEnv) (now : ℕ) (ctx : Option TokenActor) {R : Type 0}
    (k : Replies env.Db R) where
  -- The account after the movement, and the transaction.
  unfoldable pub post_movement :
      Movement → String → LedgerAccount → Body (Ledger env.Db) R (LedgerAccount × LedgerTransaction)
  unfolding movement_postings apply_side movement_transaction undo_movement add_postings next_tx_id
      append_transaction
  post_movement m idem acct = do
    id ← call next_tx_id
    balanced ← call (add_postings id (movement_postings now m))
    return_if (not balanced) (fail env now ctx k m.meta code_error "unbalanced postings")
    let moved = apply_side m.side m.amount acct
    let tx = movement_transaction env now id m
    modify (store_account m.account_id moved)
    modify (append_transaction tx)
    audited ← call (
        append_audit env now m.meta "ledger_account" m.account_id m.action
          (env.marshal_account acct) (env.marshal_account moved) success m.reason)
    undo_unless audited (undo_movement env now m id moved)
        (fail env now ctx k m.meta code_error "audit unavailable")
    stored ← call (persist_ledger_mutation env tx (movement_postings now m) "accepted" idem)
    undo_unless stored (undo_movement env now m id moved)
        (fail env now ctx k m.meta code_error "persistence unavailable")
    pure (moved, tx)

  -- The reply is stored in the database and in the cache.
  unfoldable pub keep_reply :
      Option RequestMeta → String → String → String → String → R → Body (Ledger env.Db) R (Unit {0})
  unfolding cache_reply
  keep_reply meta key scope idem request_hash resp = do
    stored ←
        persist_idempotency_response env k.marshal scope idem request_hash (k.code_of resp) resp
    return_if (not stored) (fail env now ctx k meta code_error "persistence unavailable")
    modify (cache_reply k key resp)

  -- _ = s.resetEFTFailures(ctx, req.AccountId)
  unfoldable pub clear_failures : String → Body (Ledger env.Db) R (Unit {0})
  clear_failures account_id = modify (λ s. (reset_eft_failures env now account_id s).1)
