-- ===== src/Ledger/Balance.antt =====
-- GetBalance of ledger_grpc.go.
use open_rgs_go.Prelude.{ℕ, String, Option, none, some, ◌=ˢ◌}
use open_rgs_go.Prelude.Flow.{Body, return, return_if, run, ret, next, ◌>>◌}
use open_rgs_go.Proto.{
  RequestMeta, ResponseMeta, code_ok, code_denied, code_invalid, code_error, money,
}
use open_rgs_go.Actor.{TokenActor, resolve_actor}
use open_rgs_go.Ledger.State.{Ledger, GetBalanceRequest, GetBalanceResponse}
use open_rgs_go.Ledger.Env.{LedgerEnv, failed, no_rows, row}
use open_rgs_go.Ledger.Books.{account_balance}
use open_rgs_go.Ledger.Methods.{response_meta, authorize_actor, audit_denied}
use open_rgs_go.Ledger.Steps.{with_lock}

abbrev pub bare_balance : ResponseMeta → GetBalanceResponse
bare_balance m = record {
  meta = m;
  account_id = "";
  available_balance = none;
  pending_balance = none;
}

module _ (env : LedgerEnv) (now : ℕ) (ctx : Option TokenActor) where
  abbrev pub balance_response : Option RequestMeta → String → ℕ × ℕ × String → GetBalanceResponse
  balance_response meta account_id (available, pending, currency) = record {
    meta = response_meta env now meta code_ok "";
    account_id = account_id;
    available_balance = money available currency;
    pending_balance = money pending currency;
  }

  -- The balance in memory, and zero US dollars for an account that is not there.
  unfoldable pub balance_or_zero : Option (ℕ × ℕ × String) → ℕ × ℕ × String
  balance_or_zero none = (0, 0, "USD")
  balance_or_zero (some b) = b

  -- The database's answer takes precedence.
  unfoldable pub read_balance : String → Ledger env.Db → Option (ℕ × ℕ × String)
  unfolding account_balance balance_or_zero
  read_balance account_id s = elim s.db [
    | none ↦ some (balance_or_zero (account_balance account_id s))
    | some d ↦ elim (env.query_balance d account_id) [
      | failed ↦ none
      | no_rows ↦ some (balance_or_zero (account_balance account_id s))
      | row b ↦ some b
    ]
  ]

  unfoldable pub report_balance :
      GetBalanceRequest
      → Option (ℕ × ℕ × String)
      → Body (Ledger env.Db) GetBalanceResponse GetBalanceResponse
  report_balance req none =
      return (bare_balance (response_meta env now req.meta code_error "persistence unavailable"))
  report_balance req (some b) = return (balance_response req.meta req.account_id b)

  -- A refusal is audited and answered.
  unfoldable pub check_reader :
      GetBalanceRequest → Option String → Body (Ledger env.Db) GetBalanceResponse (Unit {0})
  check_reader req none s = (next tt, s)
  check_reader req (some reason) s = (
    ret (bare_balance (response_meta env now req.meta code_denied reason)),
    audit_denied env now req.meta "ledger_account" req.account_id "get_balance" reason s,
  )

  unfoldable pub get_balance_body :
      GetBalanceRequest → Body (Ledger env.Db) GetBalanceResponse GetBalanceResponse
  unfolding check_reader report_balance read_balance
  get_balance_body req = do
    return_if (req.account_id =ˢ "")
        (bare_balance (response_meta env now none code_invalid "account_id is required"))
    check_reader req (authorize_actor req.account_id (resolve_actor env.normalize ctx req.meta))
    with_lock (λ s. report_balance req (read_balance req.account_id s) s)

  unfoldable pub get_balance :
      Option GetBalanceRequest → Ledger env.Db → Option GetBalanceResponse × Ledger env.Db
  unfolding get_balance_body
  get_balance none =
      run (return (bare_balance (response_meta env now none code_invalid "account_id is required")))
  get_balance (some req) = run (get_balance_body req)
