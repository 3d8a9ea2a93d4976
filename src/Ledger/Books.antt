-- ===== src/Ledger/Books.antt =====
-- The unexported methods of LedgerService (ledger_grpc.go) over accounts, transactions, postings
-- and identifiers, none of which reaches outside the service's own maps.
use Prim.Native.String.{◌++◌ as ◌+ˢ◌}
use open_rgs_go.Prelude.{
  ℕ, ◌+◌, String, Bool, true, false, not, ◌&&◌, Option, none, some, List, [], ◌∷◌, ◌++◌, ◌==◌, ◌=ˢ◌,
  if◌then◌else◌,
}
use open_rgs_go.Prelude.Int64.{◌+64◌, ◌-64◌}
use open_rgs_go.Prelude.Dict.{Dict, lookup, lookup_or, insert, erase}
use open_rgs_go.Prelude.Decimal.{format_int}
use open_rgs_go.Ledger.State.{Ledger, LedgerAccount, LedgerPosting, LedgerTransaction}

-- One posting's effect on the running total of `isBalanced`; none for an unknown direction.
unfoldable pub add_posting : ℕ → LedgerPosting → Option ℕ
add_posting total p =
    if p.direction =ˢ "credit"
    then some (total +64 p.amount)
    else if p.direction =ˢ "debit"
    then some (total -64 p.amount)
    else none

unfoldable pub is_balanced_from : ℕ → List LedgerPosting → Bool
unfolding add_posting
is_balanced_from total [] = total == 0
is_balanced_from total (p ∷ ps) = elim (add_posting total p) [
  | none ↦ false
  | some t ↦ is_balanced_from t ps
]

unfoldable pub is_balanced : List LedgerPosting → Bool
unfolding is_balanced_from
is_balanced = is_balanced_from 0

-- txs[:len(txs)-1], and the empty slice as it is
unfoldable pub drop_last {ℓ} : {A : Type ℓ} → List A → List A
drop_last [] = []
drop_last (x ∷ xs) = elim xs [ [] ↦ [] | _ ∷ _ ↦ x ∷ drop_last xs ]

-- The map after `rollbackLastTransaction`.
unfoldable pub rolled_back : String → Dict (List LedgerTransaction) → Dict (List LedgerTransaction)
unfolding drop_last
rolled_back account_id d = elim (lookup_or [] account_id d) [
  | [] ↦ d
  | tx ∷ txs ↦ insert account_id (drop_last (tx ∷ txs)) d
]

abbrev pub new_account : String → String → LedgerAccount
new_account account_id currency = record {
  id = account_id;
  currency = currency;
  available = 0;
  pending = 0;
}

unfoldable pub tx_id : ℕ → String
tx_id n = "tx-" +ˢ format_int n

module _ {Db : Type 0} where
  unfoldable pub db_enabled : Ledger Db → Bool
  db_enabled s = elim s.db [ none ↦ false | some _ ↦ true ]

  -- `useInMemoryIdempotencyCache` and `useInMemoryStateMirror` have one body.
  unfoldable pub use_in_memory : Ledger Db → Bool
  unfolding db_enabled
  use_in_memory s = not (db_enabled s && s.disable_in_mem_idem_cache)

  unfoldable pub account_balance : String → Ledger Db → Option (ℕ × ℕ × String)
  account_balance account_id s = elim (lookup account_id s.accounts) [
    | none ↦ none
    | some acct ↦ some (acct.available, acct.pending, acct.currency)
  ]

  -- What a write through the pointer to an account does: the map holds the same account, unless
  -- the mirror is off.
  unfoldable pub store_account : String → LedgerAccount → Ledger Db → Ledger Db
  unfolding use_in_memory
  store_account account_id acct s =
      if use_in_memory s then record s { accounts = insert account_id acct s.accounts } else s

  unfoldable pub get_or_create_account : String → String → Ledger Db → LedgerAccount × Ledger Db
  unfolding store_account
  get_or_create_account account_id currency s = elim (lookup account_id s.accounts) [
    | some acct ↦ (acct, s)
    | none ↦ (
      new_account account_id currency,
      store_account account_id (new_account account_id currency) s,
    )
  ]

  unfoldable pub append_transaction : LedgerTransaction → Ledger Db → Ledger Db
  unfolding use_in_memory
  append_transaction tx s =
      if use_in_memory s
      then record s {
        transactions_by_acct =
            insert tx.account_id (lookup_or [] tx.account_id s.transactions_by_acct ++ (tx ∷ []))
              s.transactions_by_acct;
      }
      else s

  unfoldable pub rollback_last_transaction : String → Ledger Db → Ledger Db
  unfolding use_in_memory
  rollback_last_transaction account_id s =
      if use_in_memory s
      then record s { transactions_by_acct = rolled_back account_id s.transactions_by_acct }
      else s

  unfoldable pub next_tx_id : Ledger Db → String × Ledger Db
  unfolding tx_id
  next_tx_id s = (
    tx_id (s.next_transaction_id + 1),
    record s { next_transaction_id = s.next_transaction_id + 1 },
  )

  unfoldable pub next_transfer_id_locked : Ledger Db → String × Ledger Db
  next_transfer_id_locked s = (
    "tr-" +ˢ format_int (s.next_transfer_id + 1),
    record s { next_transfer_id = s.next_transfer_id + 1 },
  )

  unfoldable pub next_audit_id_locked : Ledger Db → String × Ledger Db
  next_audit_id_locked s = (
    "audit-" +ˢ format_int (s.next_audit_id + 1),
    record s { next_audit_id = s.next_audit_id + 1 },
  )

  unfoldable pub add_postings : String → List LedgerPosting → Ledger Db → Bool × Ledger Db
  unfolding use_in_memory is_balanced
  add_postings id ps s =
      if is_balanced ps
      then (
        true,
        if use_in_memory s
            then record s {
              postings_by_tx = insert id (lookup_or [] id s.postings_by_tx ++ ps) s.postings_by_tx;
            }
            else s,
      )
      else (false, s)

  -- delete(s.postingsByTx, txID)
  unfoldable pub delete_postings : String → Ledger Db → Ledger Db
  delete_postings id s = record s { postings_by_tx = erase id s.postings_by_tx }
