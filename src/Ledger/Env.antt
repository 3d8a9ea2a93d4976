-- ===== src/Ledger/Env.antt =====
-- What the ledger takes from outside the repository: PostgreSQL (each field over `Db` is one SQL
-- statement of ledger_grpc.go, ledger_postgres.go or audit_postgres.go, by what it answers),
-- protojson, encoding/json, crypto/sha256 and the formats of package time.
use open_rgs_go.Prelude.{ℕ, String, Bool, Option, List}
use open_rgs_go.Proto.{ResultCode}
use open_rgs_go.Audit.{Event, Hashing}
use open_rgs_go.Ledger.State.{
  LedgerAccount, LedgerTransaction, LedgerTransactionType, DepositResponse,
  TransferToDeviceResponse,
}

-- The answer of `QueryRow(…).Scan(…)`: an error, sql.ErrNoRows or the row.
pub data Query (A : Type 0) : Type 0 where
  failed : Query A
  no_rows : Query A
  row : A → Query A

-- The statements of one database transaction of persistLedgerMutation.
pub data Statement : Type 0 where
  ensure_account : String → String → String → String → Statement
  insert_transaction : LedgerTransaction → String → String → String → Statement
  insert_posting : String → String → String → ℕ → String → Statement
  adjust_balance : String → ℕ → Statement

pub record LedgerEnv : Type 1 where
  pub Db : Type 0
  pub hashing : Hashing
  pub normalize : String → String  -- ToUpper of TrimSpace
  pub to_upper : String → String
  pub format_time : ℕ → String  -- RFC3339Nano
  pub partition_day : ℕ → String  -- "2006-01-02"
  pub sha256 : String → String
  pub marshal_account : LedgerAccount → String
  pub marshal_response : DepositResponse → Option String
  pub unmarshal_response : String → Option DepositResponse
  pub marshal_device_response : TransferToDeviceResponse → Option String
  pub unmarshal_device_response : String → Option TransferToDeviceResponse
  pub query_lockout : Db → String → Query ℕ
  pub upsert_eft_failure : Db → String → ℕ → ℕ → Bool × Db
  pub upsert_eft_reset : Db → String → Bool × Db
  pub insert_audit_event : Db → Event → Bool × Db
  pub query_balance : Db → String → Query (ℕ × ℕ × String)
  pub query_transaction : Db → String → LedgerTransactionType → String → Query LedgerTransaction
  pub query_transactions : Db → String → ℕ → ℕ → Option (List LedgerTransaction)
  pub query_idempotency : Db → String → String → Query (String × String)
  pub insert_idempotency : Db → String → String → String → String → ResultCode → ℕ → Bool × Db
  pub exec_transaction : Db → List Statement → Bool × Db
