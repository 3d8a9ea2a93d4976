-- ===== src/Ledger/Persist.antt =====
-- internal/platform/server/ledger_postgres.go: idempotency records and the database transaction of
-- a mutation. Columns that the database or the wall clock fills (received_at, recorded_at) and
-- those that the code always leaves empty are not modelled.
use Prim.Native.String.{◌++◌ as ◌+ˢ◌}
use text.Mathlib.Text.{starts_with}
use open_rgs_go.Prelude.{
  ℕ, zero, suc, ◌*◌, String, Bool, true, false, Option, none, some, List, [], ◌∷◌, ◌++◌, ◌=ˢ◌,
  if◌then◌else◌,
}
use open_rgs_go.Prelude.Flow.{Body, next, blocked, pure, modify, ◌>>=◌, ◌>>◌}
use open_rgs_go.Prelude.Int64.{◌-64◌}
use open_rgs_go.Proto.{ResultCode, Money}
use open_rgs_go.Ledger.State.{Ledger, LedgerPosting, LedgerTransaction, nanoseconds_per_second}
use open_rgs_go.Ledger.Env.{
  LedgerEnv, failed, no_rows, row, Statement, ensure_account, insert_transaction, insert_posting,
  adjust_balance,
}

unfoldable pub idem_scope : String → String → String
idem_scope account_id op = account_id +ˢ ("|" +ˢ op)

-- strings.Join(parts, "|")
unfoldable pub join : List String → String
join [] = ""
join (p ∷ ps) = elim ps [ [] ↦ p | _ ∷ _ ↦ p +ˢ ("|" +ˢ join ps) ]

abbrev account_type_of : String → String
account_type_of account_id =
    if starts_with account_id "device_escrow"
    then "device_escrow"
    else if account_id =ˢ "operator_liability"
    then "operator_liability"
    else "player_cashless"

abbrev player_of : String → String
player_of account_id =
    if starts_with account_id "device_escrow"
    then ""
    else if account_id =ˢ "operator_liability"
    then ""
    else account_id

abbrev amount_of : Option Money → ℕ
amount_of none = 0
amount_of (some m) = m.amount_minor

-- The loops of persistLedgerMutation over the postings, statement by statement.
module _ (to_upper : String → String) where
  unfoldable pub ensure_ledger_account : String → String → Statement
  ensure_ledger_account account_id currency =
      ensure_account account_id (player_of account_id) (account_type_of account_id)
        (to_upper currency)

  unfoldable pub ensure_statements : List LedgerPosting → List Statement
  unfolding ensure_ledger_account
  ensure_statements [] = []
  ensure_statements (p ∷ ps) = ensure_ledger_account p.account_id p.currency ∷ ensure_statements ps

  unfoldable pub posting_statements : String → List LedgerPosting → List Statement
  posting_statements id [] = []
  posting_statements id (p ∷ ps) =
      insert_posting id p.account_id p.direction p.amount (to_upper p.currency)
      ∷ posting_statements id ps

-- The change of an account's balance by a posting.
unfoldable pub posting_delta : LedgerPosting → ℕ
posting_delta p = if p.direction =ˢ "debit" then 0 -64 p.amount else p.amount

unfoldable pub adjust_statements : List LedgerPosting → List Statement
unfolding posting_delta
adjust_statements [] = []
adjust_statements (p ∷ ps) = adjust_balance p.account_id (posting_delta p) ∷ adjust_statements ps

abbrev is_nil : List LedgerPosting → Bool
is_nil [] = true
is_nil (_ ∷ _) = false

-- The answer of loadIdempotencyResponse.
pub data Loaded (R : Type 0) : Type 0 where
  load_failed : Loaded R
  mismatch : Loaded R
  not_found : Loaded R
  found : R → Loaded R

module _ (env : LedgerEnv) where
  unfoldable pub hash_request : List String → String
  unfolding join
  hash_request parts = env.sha256 (join parts)

  unfoldable pub mutation_statements :
      LedgerTransaction → List LedgerPosting → String → String → List Statement
  unfolding ensure_statements posting_statements adjust_statements
  mutation_statements tx postings status idem_key =
      ensure_statements env.to_upper postings
      ++ (insert_transaction tx status idem_key
            (elim tx.amount [ none ↦ env.to_upper "" | some m ↦ env.to_upper m.currency ])
          ∷ posting_statements env.to_upper tx.transaction_id postings)
      ++ adjust_statements postings

  -- True where the returned error is nil.
  unfoldable pub persist_ledger_mutation :
      LedgerTransaction
      → List LedgerPosting
      → String
      → String
      → Ledger env.Db
      → Bool × Ledger env.Db
  unfolding mutation_statements
  persist_ledger_mutation tx postings status idem_key s = elim s.db [
    | none ↦ (true, s)
    | some d ↦
        if is_nil postings
        then (true, s)
        else let (ok, d') =
            env.exec_transaction d (mutation_statements tx postings status idem_key) in
          (ok, record s { db = some d' })
  ]

  -- `getIdempotencyTTL` takes the service's mutex. A lifetime that is not positive stands for a day.
  module _ {R : Type 0} where
    unfoldable pub get_idempotency_ttl : Body (Ledger env.Db) R ℕ
    get_idempotency_ttl s = if s.mu then (blocked, s) else (
      next (elim s.idempotency_ttl [ zero ↦ 86400 * nanoseconds_per_second | suc n ↦ suc n ]),
      s,
    )

  module _ {R : Type 0} where
    unfoldable pub load_idempotency_response :
        (String → Option R) → String → String → String → Ledger env.Db → Loaded R
    load_idempotency_response unmarshal scope idem_key request_hash s = elim s.db [
      | none ↦ not_found
      | some d ↦ elim (env.query_idempotency d scope idem_key) [
        | failed ↦ load_failed
        | no_rows ↦ not_found
        | row (stored_hash, payload) ↦
            if stored_hash =ˢ request_hash
            then elim (unmarshal payload) [ none ↦ load_failed | some r ↦ found r ]
            else mismatch
      ]
    ]

    unfoldable pub insert_response :
        Option String → String → String → String → ResultCode → env.Db → Body (Ledger env.Db) R Bool
    unfolding get_idempotency_ttl
    insert_response none scope idem_key request_hash code d = pure false
    insert_response (some payload) scope idem_key request_hash code d = do
      ttl ← get_idempotency_ttl
      let answer = env.insert_idempotency d scope idem_key request_hash payload code ttl
      modify (λ s. record s { db = some answer.1 })
      pure answer.0

    -- True where the returned error is nil.
    unfoldable pub persist_idempotency_response :
        (R → Option String)
        → String
        → String
        → String
        → ResultCode
        → R
        → Body (Ledger env.Db) R Bool
    unfolding insert_response
    persist_idempotency_response marshal scope idem_key request_hash code resp s = elim s.db [
      | none ↦ (next true, s)
      | some d ↦ insert_response (marshal resp) scope idem_key request_hash code d s
    ]
