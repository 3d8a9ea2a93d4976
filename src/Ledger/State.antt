-- ===== src/Ledger/State.antt =====
-- The state and the messages of internal/platform/server/ledger_grpc.go. Amounts are int64 bit
-- patterns (Prelude.Int64), times are nanoseconds, and the zero time is 0.
use open_rgs_go.Prelude.{ℕ, ◌*◌, String, Bool, false, Option, some, List, []}
use open_rgs_go.Prelude.Dict.{Dict}
use open_rgs_go.Proto.{ResponseMeta, RequestMeta, Money}
use open_rgs_go.Audit.{InMemoryStore, new_in_memory_store}

pub record LedgerAccount : Type 0 where
  pub id : String
  pub currency : String
  pub available : ℕ
  pub pending : ℕ

pub record LedgerPosting : Type 0 where
  pub account_id : String
  pub direction : String
  pub amount : ℕ
  pub currency : String
  pub created_at : ℕ

pub data LedgerTransactionType : Type 0 where
  type_unspecified type_deposit type_withdrawal type_transfer_to_device : LedgerTransactionType
  type_transfer_to_account type_gameplay_debit type_gameplay_credit : LedgerTransactionType
  type_manual_adjustment : LedgerTransactionType

pub record LedgerTransaction : Type 0 where
  pub transaction_id : String
  pub account_id : String
  pub transaction_type : LedgerTransactionType
  pub amount : Option Money
  pub occurred_at : String
  pub authorization_id : String
  pub description : String

pub record DepositRequest : Type 0 where
  pub meta : Option RequestMeta
  pub account_id : String
  pub amount : Option Money
  pub authorization_id : String

pub record WithdrawRequest : Type 0 where
  pub meta : Option RequestMeta
  pub account_id : String
  pub amount : Option Money

-- The message has the fields of WithdrawRequest.
abbrev pub TransferToAccountRequest : Type 0
TransferToAccountRequest = WithdrawRequest

pub record TransferToDeviceRequest : Type 0 where
  pub meta : Option RequestMeta
  pub account_id : String
  pub device_id : String
  pub requested_amount : Option Money

pub record DepositResponse : Type 0 where
  pub meta : ResponseMeta
  pub transaction : Option LedgerTransaction
  pub available_balance : Option Money

-- The messages WithdrawResponse and TransferToAccountResponse have the fields of DepositResponse.
abbrev pub WithdrawResponse : Type 0
WithdrawResponse = DepositResponse

abbrev pub TransferToAccountResponse : Type 0
TransferToAccountResponse = DepositResponse

pub data TransferStatus : Type 0 where
  status_unspecified status_accepted status_partial status_unresolved status_denied : TransferStatus

pub record TransferToDeviceResponse : Type 0 where
  pub meta : ResponseMeta
  pub transfer_id : String
  pub transfer_status : TransferStatus
  pub transferred_amount : Option Money
  pub available_balance : Option Money
  pub unresolved_reason : String

pub record GetBalanceRequest : Type 0 where
  pub meta : Option RequestMeta
  pub account_id : String

pub record GetBalanceResponse : Type 0 where
  pub meta : ResponseMeta
  pub account_id : String
  pub available_balance : Option Money
  pub pending_balance : Option Money

-- LedgerService over the state `Db` of its database; `db` is none where the handle is nil.
pub record Ledger (Db : Type 0) : Type 0 where
  pub audit_store : Option InMemoryStore
  pub mu : Bool  -- the mutex is held
  pub accounts : Dict LedgerAccount
  pub transactions_by_acct : Dict (List LedgerTransaction)
  pub postings_by_tx : Dict (List LedgerPosting)
  pub deposit_by_idempotency : Dict DepositResponse
  pub withdraw_by_idempotency : Dict WithdrawResponse
  pub to_device_by_idempotency : Dict TransferToDeviceResponse
  pub to_account_by_idempotency : Dict TransferToAccountResponse
  pub next_transaction_id : ℕ
  pub next_transfer_id : ℕ
  pub next_audit_id : ℕ
  pub eft_fraud_failures : Dict ℕ
  pub eft_fraud_locked_until : Dict ℕ
  pub eft_fraud_max_failures : ℕ
  pub eft_fraud_lockout_ttl : ℕ
  pub db : Option Db
  pub idempotency_ttl : ℕ
  pub disable_in_mem_idem_cache : Bool

abbrev pub nanoseconds_per_second : ℕ
nanoseconds_per_second = 1000000000

unfoldable pub new_ledger_service : {Db : Type 0} → Option Db → Ledger Db
new_ledger_service handle = record {
  audit_store = some new_in_memory_store;
  mu = false;
  accounts = [];
  transactions_by_acct = [];
  postings_by_tx = [];
  deposit_by_idempotency = [];
  withdraw_by_idempotency = [];
  to_device_by_idempotency = [];
  to_account_by_idempotency = [];
  next_transaction_id = 0;
  next_transfer_id = 0;
  next_audit_id = 0;
  eft_fraud_failures = [];
  eft_fraud_locked_until = [];
  eft_fraud_max_failures = 5;
  eft_fraud_lockout_ttl = 900 * nanoseconds_per_second;
  db = handle;
  idempotency_ttl = 86400 * nanoseconds_per_second;
  disable_in_mem_idem_cache = false;
}
