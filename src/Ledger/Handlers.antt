-- ===== src/Ledger/Handlers.antt =====
-- Deposit, Withdraw, TransferToDevice and TransferToAccount of ledger_grpc.go. A handler answers
-- none where the call never returns. A nil request and an empty account id are answered alike.
use Prim.Native.String.{◌++◌ as ◌+ˢ◌}
use open_rgs_go.Prelude.{ℕ, String, not, Option, none, some, [], ◌∷◌, ◌=ˢ◌, if◌then◌else◌}
use open_rgs_go.Prelude.Int64.{lt64}
use open_rgs_go.Prelude.Decimal.{format_int}
use open_rgs_go.Prelude.Flow.{
  Body, pure, return, call, or_return, modify, return_if, run, ◌>>=◌, ◌>>◌,
}
use open_rgs_go.Proto.{
  RequestMeta, code_ok, code_denied, code_invalid, code_error, Money, money, idempotency,
}
use open_rgs_go.Actor.{TokenActor}
use open_rgs_go.Ledger.State.{
  Ledger, LedgerAccount, LedgerTransaction, DepositRequest, WithdrawRequest,
  TransferToAccountRequest, TransferToDeviceRequest, DepositResponse, WithdrawResponse,
  TransferToAccountResponse, type_deposit, type_withdrawal, type_transfer_to_device,
  type_transfer_to_account,
}
use open_rgs_go.Ledger.Env.{LedgerEnv}
use open_rgs_go.Ledger.Methods.{
  response_meta, mutation_account_state, record_eft_failure, audit_denied,
}
use open_rgs_go.Ledger.Persist.{idem_scope, hash_request}
use open_rgs_go.Ledger.Steps.{
  Replies, deposit_replies, withdraw_replies, to_account_replies, with_lock, admit, fail,
  check_unlocked, replay_reply, replay_transaction,
}
use open_rgs_go.Ledger.Mutation.{
  Movement, money_in, money_out, post_movement, keep_reply, clear_failures,
}

-- The key of a handler's map of replies.
unfoldable pub reply_key : String → String → String → String
reply_key account_id op idem = account_id +ˢ (op +ˢ idem)

abbrev pub deposit_movement : DepositRequest → Money → Movement
deposit_movement req amount = record {
  meta = req.meta;
  account_id = req.account_id;
  other = "operator_liability";
  side = money_in;
  amount = amount.amount_minor;
  currency = amount.currency;
  transaction_type = type_deposit;
  authorization_id = req.authorization_id;
  description = "deposit accepted";
  action = "deposit";
  reason = "";
}

abbrev pub withdraw_movement : WithdrawRequest → Money → Movement
withdraw_movement req amount = record {
  meta = req.meta;
  account_id = req.account_id;
  other = "operator_liability";
  side = money_out;
  amount = amount.amount_minor;
  currency = amount.currency;
  transaction_type = type_withdrawal;
  authorization_id = "";
  description = "withdrawal accepted";
  action = "withdraw";
  reason = "";
}

abbrev pub to_account_movement : TransferToAccountRequest → Money → Movement
to_account_movement req amount = record {
  meta = req.meta;
  account_id = req.account_id;
  other = "device_escrow";
  side = money_in;
  amount = amount.amount_minor;
  currency = amount.currency;
  transaction_type = type_transfer_to_account;
  authorization_id = "";
  description = "transfer to account";
  action = "transfer_to_account";
  reason = "";
}

-- `transfer` is the part of the requested amount that the balance covers.
abbrev pub to_device_movement : TransferToDeviceRequest → ℕ → String → String → Movement
to_device_movement req transfer currency reason = record {
  meta = req.meta;
  account_id = req.account_id;
  other = "device_escrow:" +ˢ req.device_id;
  side = money_out;
  amount = transfer;
  currency = currency;
  transaction_type = type_transfer_to_device;
  authorization_id = "";
  description = "transfer to device";
  action = "transfer_to_device";
  reason = reason;
}

module _ (env : LedgerEnv) (now : ℕ) (ctx : Option TokenActor) where
  unfoldable pub ok_response :
      Option RequestMeta → LedgerAccount × LedgerTransaction → DepositResponse
  ok_response meta (acct, tx) = record {
    meta = response_meta env now meta code_ok "";
    transaction = some tx;
    available_balance = money acct.available acct.currency;
  }

  -- `mutationAccountState`, and the comparison of the currencies.
  unfoldable pub take_account :
      {R : Type 0}
      → Replies env.Db R
      → Option RequestMeta
      → String
      → String
      → Body (Ledger env.Db) R LedgerAccount
  take_account k meta account_id currency = do
    state ← call (mutation_account_state env now account_id currency)
    acct ← or_return state (fail env now ctx k meta code_error "persistence unavailable")
    return_if (not (acct.currency =ˢ currency))
        (fail env now ctx k meta code_invalid "currency mismatch for account")
    pure acct

  -- Under the mutex: the replay of an earlier reply, or the movement and its reply.
  unfoldable pub deposit_locked :
      DepositRequest → Money → String → Body (Ledger env.Db) DepositResponse DepositResponse
  unfolding idem_scope hash_request reply_key take_account ok_response
  deposit_locked req amount idem = do
    let k = deposit_replies env
    let key = reply_key req.account_id "|deposit|" idem
    let scope = idem_scope req.account_id "deposit"
    let hash =
        hash_request env
          (scope ∷ amount.currency ∷ format_int amount.amount_minor ∷ req.authorization_id ∷ [])
    check_unlocked env now ctx k req.meta req.account_id "deposit"
    replay_reply env now ctx k req.meta key scope idem hash
    replay_transaction env now ctx k req.meta req.account_id type_deposit idem amount.currency key
    acct ← take_account k req.meta req.account_id amount.currency
    posted ← post_movement env now ctx k (deposit_movement req amount) idem acct
    let resp = ok_response req.meta posted
    keep_reply env now ctx k req.meta key scope idem hash resp
    clear_failures env now ctx k req.account_id
    pure resp

  unfoldable pub deposit_body :
      DepositRequest → Body (Ledger env.Db) DepositResponse DepositResponse
  unfolding deposit_locked
  deposit_body req = do
    let k = deposit_replies env
    return_if (req.account_id =ˢ "") (fail env now ctx k none code_invalid "account_id is required")
    amount ←
        admit env now ctx k req.meta req.account_id req.amount "deposit"
          "amount must be > 0 and currency provided"
    with_lock (deposit_locked req amount (idempotency req.meta))

  unfoldable pub deposit :
      Option DepositRequest → Ledger env.Db → Option DepositResponse × Ledger env.Db
  unfolding deposit_body
  deposit none =
      run
        (return (fail env now ctx (deposit_replies env) none code_invalid "account_id is required"))
  deposit (some req) = run (deposit_body req)

  abbrev pub overdrawn_response : Option RequestMeta → LedgerAccount → WithdrawResponse
  overdrawn_response meta acct = record {
    meta = response_meta env now meta code_denied "insufficient balance";
    transaction = none;
    available_balance = money acct.available acct.currency;
  }

  -- The refusal of a request that the balance does not cover: the failure is counted, audited and
  -- answered, and the answer is kept.
  unfoldable pub deny_overdraft :
      {R : Type 0}
      → Replies env.Db R
      → Option RequestMeta
      → String
      → String
      → String
      → String
      → String
      → String
      → R
      → Body (Ledger env.Db) R R
  deny_overdraft k meta account_id action key scope idem hash resp = do
    counted ← call (record_eft_failure env now account_id)
    return_if (not counted) (fail env now ctx k meta code_error "persistence unavailable")
    modify (audit_denied env now meta "ledger_account" account_id action "insufficient balance")
    keep_reply env now ctx k meta key scope idem hash resp
    pure resp

  unfoldable pub withdraw_funds :
      WithdrawRequest
      → Money
      → String
      → String
      → String
      → String
      → LedgerAccount
      → Body (Ledger env.Db) WithdrawResponse WithdrawResponse
  unfolding ok_response deny_overdraft
  withdraw_funds req amount key scope idem hash acct =
      let k = withdraw_replies env in
      if lt64 acct.available amount.amount_minor
      then deny_overdraft k req.meta req.account_id "withdraw" key scope idem hash
          (overdrawn_response req.meta acct)
      else (do
        posted ← post_movement env now ctx k (withdraw_movement req amount) idem acct
        let resp = ok_response req.meta posted
        keep_reply env now ctx k req.meta key scope idem hash resp
        clear_failures env now ctx k req.account_id
        pure resp)

  unfoldable pub withdraw_locked :
      WithdrawRequest → Money → String → Body (Ledger env.Db) WithdrawResponse WithdrawResponse
  unfolding idem_scope hash_request reply_key take_account withdraw_funds
  withdraw_locked req amount idem = do
    let k = withdraw_replies env
    let key = reply_key req.account_id "|withdraw|" idem
    let scope = idem_scope req.account_id "withdraw"
    let hash = hash_request env (scope ∷ amount.currency ∷ format_int amount.amount_minor ∷ [])
    check_unlocked env now ctx k req.meta req.account_id "withdraw"
    replay_reply env now ctx k req.meta key scope idem hash
    replay_transaction env now ctx k req.meta req.account_id type_withdrawal idem amount.currency
        key
    acct ← take_account k req.meta req.account_id amount.currency
    withdraw_funds req amount key scope idem hash acct

  unfoldable pub withdraw_body :
      WithdrawRequest → Body (Ledger env.Db) WithdrawResponse WithdrawResponse
  unfolding withdraw_locked
  withdraw_body req = do
    let k = withdraw_replies env
    return_if (req.account_id =ˢ "") (fail env now ctx k none code_invalid "account_id is required")
    amount ←
        admit env now ctx k req.meta req.account_id req.amount "withdraw"
          "amount must be > 0 and currency provided"
    with_lock (withdraw_locked req amount (idempotency req.meta))

  unfoldable pub withdraw :
      Option WithdrawRequest → Ledger env.Db → Option WithdrawResponse × Ledger env.Db
  unfolding withdraw_body
  withdraw none =
      run (
        return (fail env now ctx (withdraw_replies env) none code_invalid "account_id is required"))
  withdraw (some req) = run (withdraw_body req)

  unfoldable pub to_account_locked :
      TransferToAccountRequest
      → Money
      → String
      → Body (Ledger env.Db) TransferToAccountResponse TransferToAccountResponse
  unfolding idem_scope hash_request reply_key take_account ok_response
  to_account_locked req amount idem = do
    let k = to_account_replies env
    let key = reply_key req.account_id "|to_account|" idem
    let scope = idem_scope req.account_id "transfer_to_account"
    let hash = hash_request env (scope ∷ amount.currency ∷ format_int amount.amount_minor ∷ [])
    check_unlocked env now ctx k req.meta req.account_id "transfer_to_account"
    replay_reply env now ctx k req.meta key scope idem hash
    replay_transaction env now ctx k req.meta req.account_id type_transfer_to_account idem
        amount.currency key
    acct ← take_account k req.meta req.account_id amount.currency
    posted ← post_movement env now ctx k (to_account_movement req amount) idem acct
    let resp = ok_response req.meta posted
    keep_reply env now ctx k req.meta key scope idem hash resp
    clear_failures env now ctx k req.account_id
    pure resp

  unfoldable pub transfer_to_account_body :
      TransferToAccountRequest
      → Body (Ledger env.Db) TransferToAccountResponse TransferToAccountResponse
  unfolding to_account_locked
  transfer_to_account_body req = do
    let k = to_account_replies env
    return_if (req.account_id =ˢ "") (fail env now ctx k none code_invalid "account_id is required")
    amount ←
        admit env now ctx k req.meta req.account_id req.amount "transfer_to_account"
          "amount must be > 0 and currency provided"
    with_lock (to_account_locked req amount (idempotency req.meta))

  unfoldable pub transfer_to_account :
      Option TransferToAccountRequest
      → Ledger env.Db
      → Option TransferToAccountResponse × Ledger env.Db
  unfolding transfer_to_account_body
  transfer_to_account none = run (
      return (fail env now ctx (to_account_replies env) none code_invalid "account_id is required"))
  transfer_to_account (some req) = run (transfer_to_account_body req)
