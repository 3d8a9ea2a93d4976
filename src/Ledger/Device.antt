-- ===== src/Ledger/Device.antt =====
-- TransferToDevice of ledger_grpc.go: it moves what the balance covers of the requested amount.
use open_rgs_go.Prelude.{ℕ, String, Option, none, some, [], ◌∷◌, ◌||◌, ◌=ˢ◌, if◌then◌else◌}
use open_rgs_go.Prelude.Int64.{lt64, le64}
use open_rgs_go.Prelude.Decimal.{format_int}
use open_rgs_go.Prelude.Flow.{Body, pure, return, call, return_if, run, ◌>>=◌, ◌>>◌}
use open_rgs_go.Proto.{RequestMeta, code_ok, code_denied, code_invalid, Money, money, idempotency}
use open_rgs_go.Actor.{TokenActor}
use open_rgs_go.Ledger.State.{
  Ledger, LedgerAccount, TransferToDeviceRequest, TransferToDeviceResponse, TransferStatus,
  status_accepted, status_partial, status_denied,
}
use open_rgs_go.Ledger.Env.{LedgerEnv}
use open_rgs_go.Ledger.Books.{next_transfer_id_locked}
use open_rgs_go.Ledger.Methods.{response_meta}
use open_rgs_go.Ledger.Persist.{idem_scope, hash_request}
use open_rgs_go.Ledger.Steps.{
  to_device_replies, with_lock, admit, fail, check_unlocked, replay_reply,
}
use open_rgs_go.Ledger.Mutation.{post_movement, keep_reply, clear_failures}
use open_rgs_go.Ledger.Handlers.{reply_key, to_device_movement, take_account, deny_overdraft}

-- The amount that is transferred.
unfoldable pub covered : ℕ → ℕ → ℕ
covered available requested = if lt64 available requested then available else requested

abbrev pub device_status : ℕ → ℕ → TransferStatus
device_status available requested =
    if lt64 available requested then status_partial else status_accepted

abbrev pub device_reason : ℕ → ℕ → String
device_reason available requested =
    if lt64 available requested then "requested amount exceeds available balance" else ""

module _ (env : LedgerEnv) (now : ℕ) (ctx : Option TokenActor) where
  abbrev pub empty_account_response : Option RequestMeta → LedgerAccount → TransferToDeviceResponse
  empty_account_response meta acct = record {
    meta = response_meta env now meta code_denied "insufficient balance";
    transfer_id = "";
    transfer_status = status_denied;
    transferred_amount = money 0 acct.currency;
    available_balance = money acct.available acct.currency;
    unresolved_reason = "";
  }

  abbrev pub device_response :
      Option RequestMeta → String → ℕ → LedgerAccount → LedgerAccount → TransferToDeviceResponse
  device_response meta id requested acct moved = record {
    meta = response_meta env now meta code_ok "";
    transfer_id = id;
    transfer_status = device_status acct.available requested;
    transferred_amount = money (covered acct.available requested) acct.currency;
    available_balance = money moved.available moved.currency;
    unresolved_reason = device_reason acct.available requested;
  }

  unfoldable pub transfer_funds :
      TransferToDeviceRequest
      → Money
      → String
      → String
      → String
      → String
      → LedgerAccount
      → Body (Ledger env.Db) TransferToDeviceResponse TransferToDeviceResponse
  unfolding covered deny_overdraft
  transfer_funds req amount key scope idem hash acct =
      let k = to_device_replies env in
      if le64 acct.available 0
      then deny_overdraft env now ctx k req.meta req.account_id "transfer_to_device" key scope idem
          hash (empty_account_response req.meta acct)
      else (do
        let requested = amount.amount_minor
        posted ←
            post_movement env now ctx k
              (to_device_movement req (covered acct.available requested) amount.currency
                (device_reason acct.available requested))
              idem acct
        id ← call next_transfer_id_locked
        let resp = device_response req.meta id requested acct posted.0
        keep_reply env now ctx k req.meta key scope idem hash resp
        clear_failures env now ctx k req.account_id
        pure resp)

  unfoldable pub to_device_locked :
      TransferToDeviceRequest
      → Money
      → String
      → Body (Ledger env.Db) TransferToDeviceResponse TransferToDeviceResponse
  unfolding idem_scope hash_request reply_key take_account transfer_funds
  to_device_locked req amount idem = do
    let k = to_device_replies env
    let key = reply_key req.account_id "|to_device|" idem
    let scope = idem_scope req.account_id "transfer_to_device"
    let hash =
        hash_request env
          (scope ∷ req.device_id ∷ amount.currency ∷ format_int amount.amount_minor ∷ [])
    check_unlocked env now ctx k req.meta req.account_id "transfer_to_device"
    replay_reply env now ctx k req.meta key scope idem hash
    acct ← take_account env now ctx k req.meta req.account_id amount.currency
    transfer_funds req amount key scope idem hash acct

  unfoldable pub transfer_to_device_body :
      TransferToDeviceRequest
      → Body (Ledger env.Db) TransferToDeviceResponse TransferToDeviceResponse
  unfolding to_device_locked
  transfer_to_device_body req = do
    let k = to_device_replies env
    return_if (req.account_id =ˢ "" || req.device_id =ˢ "")
        (fail env now ctx k none code_invalid "account_id and device_id are required")
    amount ←
        admit env now ctx k req.meta req.account_id req.requested_amount "transfer_to_device"
          "requested_amount must be > 0 and currency provided"
    with_lock (to_device_locked req amount (idempotency req.meta))

  unfoldable pub transfer_to_device :
      Option TransferToDeviceRequest
      → Ledger env.Db
      → Option TransferToDeviceResponse × Ledger env.Db
  unfolding transfer_to_device_body
  transfer_to_device none = run (
      return (
        fail env now ctx (to_device_replies env) none code_invalid
          "account_id and device_id are required"))
  transfer_to_device (some req) = run (transfer_to_device_body req)
