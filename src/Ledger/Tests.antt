-- ===== src/Ledger/Tests.antt =====
-- A sample service without a database, and the theorems about the ledger at concrete requests.
use open_rgs_go.Prelude.{ℕ, String, ◌≡◌, refl, sym, ap, ◌∙◌, Bool, true, Option, none, some, arith}
use open_rgs_go.Prelude.Decimal.{format_int}
use open_rgs_go.Proto.{
  RequestMeta, ResponseMeta, Actor, code_unspecified, operator, player, Money, code_ok, idempotency,
}
use open_rgs_go.Audit.{Hashing}
use open_rgs_go.Ledger.State.{
  Ledger, DepositRequest, WithdrawRequest, TransferToDeviceRequest, DepositResponse,
  new_ledger_service,
}
use open_rgs_go.Ledger.Env.{LedgerEnv, no_rows}
use open_rgs_go.Ledger.Handlers.{deposit, reply_key}
use open_rgs_go.Prelude.Flow.Triple.{Answers}
use text.Mathlib.Text.{starts_with}
use text.Mathlib.TextPositions.{starts_with-append}
use open_rgs_go.Ledger.Handlers.{
  withdraw, withdraw_body, withdraw_locked, withdraw_funds, transfer_to_account,
  transfer_to_account_body, to_account_locked,
}
use open_rgs_go.Ledger.Device.{
  transfer_to_device, transfer_to_device_body, to_device_locked, transfer_funds, covered,
}
use open_rgs_go.Ledger.State.{TransferToDeviceResponse}
use open_rgs_go.Ledger.Steps.{bare_response, bare_device_response}
use open_rgs_go.Ledger.Effect.{Credited, Debited, Drained}
use open_rgs_go.Ledger.Outcomes.{
  Outcome, deposit-Outcome, withdraw-Outcome, transfer_to_account-Outcome,
  transfer_to_device-Outcome,
}
use open_rgs_go.Ledger.Once.{
  deposit_once, withdraw_once, transfer_to_account_once, transfer_to_device_once,
}
use open_rgs_go.Ledger.Reconcile.{IsCustomer, balance_in, net_books}
use open_rgs_go.Ledger.Authority.{MayUse, authorize_actor-MayUse}
use open_rgs_go.Ledger.Balance.{balance_response, get_balance}
use open_rgs_go.Ledger.Report.{get_balance-net_books}
use open_rgs_go.Ledger.State.{GetBalanceRequest}
use open_rgs_go.Ledger.Reachable.{Reachable, started, after_deposit, balance_in-net_books}
use open_rgs_go.Prelude.Int64.{◌+64◌, ◌-64◌}
use open_rgs_go.Prelude.Dict.{lookup, insert, erase, lookup_or}
use open_rgs_go.Prelude.Decimal.{digit, format_int}
use open_rgs_go.Proto.{same_actor_type, actor_type_name, invalid_amount}
use open_rgs_go.Actor.{actor, actor_type_from_string, resolve_actor}
use open_rgs_go.Audit.{
  result_text, new_in_memory_store, last_event, compute_hash, seal, intact, append,
}
use open_rgs_go.Ledger.State.{}
use open_rgs_go.Ledger.Books.{
  add_posting, is_balanced_from, is_balanced, drop_last, rolled_back, tx_id, db_enabled,
  use_in_memory, account_balance, store_account, get_or_create_account, append_transaction,
  rollback_last_transaction, next_tx_id, next_transfer_id_locked, next_audit_id_locked,
  add_postings, delete_postings,
}
use open_rgs_go.Ledger.Methods.{
  authorize_actor, response_meta, audit_event, insert_audit, store_event, append_audit,
  audit_denied, eft_locked, count_eft_failure, record_eft_failure, reset_eft_failures,
  mutation_account_state,
}
use open_rgs_go.Ledger.Persist.{
  idem_scope, join, ensure_ledger_account, ensure_statements, posting_statements, posting_delta,
  adjust_statements, hash_request, mutation_statements, persist_ledger_mutation,
  get_idempotency_ttl, load_idempotency_response, insert_response, persist_idempotency_response,
}
use open_rgs_go.Ledger.Steps.{
  unlock_after, with_lock, cache_reply, cached_reply, take_amount, refuse, check_actor, admit,
  refuse_locked, check_unlocked, replay_loaded, replay_cached, replay_reply, replay_transaction,
}
use open_rgs_go.Ledger.Mutation.{
  movement_postings, apply_side, movement_transaction, undo_movement, post_movement, keep_reply,
  clear_failures,
}
use open_rgs_go.Ledger.Handlers.{
  reply_key, ok_response, take_account, deposit_locked, deposit_body, deny_overdraft,
}

abbrev sample_hashing : Hashing
sample_hashing = record {
  sha256_hex = λ text. text;
  hex = λ text. text;
  format_time = λ n. format_int n;
}

abbrev sample_env : LedgerEnv
sample_env = record {
  Db = Bool;
  hashing = sample_hashing;
  normalize = λ text. text;
  to_upper = λ text. text;
  format_time = λ n. format_int n;
  partition_day = λ n. "day";
  sha256 = λ text. text;
  marshal_account = λ a. a.id;
  marshal_response = λ r. some r.meta.request_id;
  unmarshal_response = λ text. none;
  marshal_device_response = λ r. some r.meta.request_id;
  unmarshal_device_response = λ text. none;
  query_lockout = λ d a. no_rows;
  upsert_eft_failure = λ d a n m. (true, d);
  upsert_eft_reset = λ d a. (true, d);
  insert_audit_event = λ d e. (true, d);
  query_balance = λ d a. no_rows;
  query_transaction = λ d a t i. no_rows;
  query_transactions = λ d a l o. none;
  query_idempotency = λ d sc i. no_rows;
  insert_idempotency = λ d sc i h p c t. (true, d);
  exec_transaction = λ d statements. (true, d);
}

abbrev cashier : String → Option RequestMeta
cashier key = some (record {
  request_id = "r1";
  idempotency_key = key;
  actor = some (record { actor_id = "cashier"; actor_type = operator });
})

abbrev cents : ℕ → Option Money
cents n = some (record { amount_minor = n; currency = "USD" })

abbrev sample_deposit : DepositRequest
sample_deposit = record {
  meta = cashier "k1";
  account_id = "alice";
  amount = cents 500;
  authorization_id = "auth";
}

abbrev sample_withdrawal : WithdrawRequest
sample_withdrawal = record { meta = cashier "k2"; account_id = "alice"; amount = cents 200 }

abbrev sample_transfer : TransferToDeviceRequest
sample_transfer = record {
  meta = cashier "k3";
  account_id = "alice";
  device_id = "slot7";
  requested_amount = cents 900;
}

abbrev fresh_service : Ledger Bool
fresh_service = new_ledger_service none

abbrev funded : Ledger Bool
funded = (deposit sample_env 10 none (some sample_deposit) fresh_service).1

funded-Reachable : Reachable sample_env funded
funded-Reachable = after_deposit 10 none (some sample_deposit) started

abbrev reply_of : {R : Type 0} → R → Option R → R
reply_of r none = r
reply_of r (some x) = x

abbrev no_meta : ResponseMeta
no_meta = record {
  request_id = "";
  result_code = code_unspecified;
  denial_reason = "";
  server_time = "";
}

abbrev deposit_reply : DepositResponse
deposit_reply =
    reply_of (bare_response no_meta)
      (deposit sample_env 10 none (some sample_deposit) fresh_service).0

deposit_accepted :
    (deposit sample_env 10 none (some sample_deposit) fresh_service ≡ (some deposit_reply, funded))
    × (deposit_reply.meta.result_code ≡ code_ok)
unfolding ◌+64◌ ◌-64◌ lookup insert erase lookup_or digit format_int same_actor_type actor_type_name
    invalid_amount actor_type_from_string resolve_actor result_text new_in_memory_store last_event
    compute_hash seal intact append new_ledger_service add_posting is_balanced_from is_balanced
    drop_last rolled_back tx_id db_enabled use_in_memory account_balance store_account
    get_or_create_account append_transaction rollback_last_transaction next_tx_id
    next_transfer_id_locked next_audit_id_locked add_postings delete_postings authorize_actor
    response_meta audit_event insert_audit store_event append_audit audit_denied eft_locked
    count_eft_failure record_eft_failure reset_eft_failures mutation_account_state idem_scope join
    ensure_ledger_account ensure_statements posting_statements posting_delta adjust_statements
    hash_request mutation_statements persist_ledger_mutation get_idempotency_ttl
    load_idempotency_response insert_response persist_idempotency_response unlock_after with_lock
    cache_reply cached_reply take_amount refuse check_actor admit refuse_locked check_unlocked
    replay_loaded replay_cached replay_reply replay_transaction movement_postings apply_side
    movement_transaction undo_movement post_movement keep_reply clear_failures reply_key ok_response
    take_account deposit_locked deposit_body deposit deny_overdraft
deposit_accepted = (refl, refl)

deposit_once_example :
    deposit sample_env 30 none (some sample_deposit) funded ≡ (some deposit_reply, funded)
deposit_once_example =
    deposit_once sample_env 10 30 none fresh_service funded started (omega arith) sample_deposit
      deposit_reply deposit_accepted.0 deposit_accepted.1

deposit-Outcome_example :
    Answers
      (λ r s'.
        Outcome sample_env none sample_deposit.meta "alice" sample_deposit.amount
          (Credited "alice" fresh_service.accounts)
          fresh_service.accounts
          s'.accounts
          (lookup
            (reply_key "alice" "|deposit|" (idempotency sample_deposit.meta))
            fresh_service.deposit_by_idempotency)
          (lookup
            (reply_key "alice" "|deposit|" (idempotency sample_deposit.meta))
            s'.deposit_by_idempotency)
          r
          r.meta.result_code)
      (deposit sample_env 10 none (some sample_deposit) fresh_service)
deposit-Outcome_example = deposit-Outcome sample_env 10 none fresh_service started sample_deposit

abbrev withdrawn : Ledger Bool
withdrawn = (withdraw sample_env 20 none (some sample_withdrawal) funded).1

abbrev withdraw_reply : DepositResponse
withdraw_reply =
    reply_of (bare_response no_meta) (withdraw sample_env 20 none (some sample_withdrawal) funded).0

withdraw_accepted :
    (withdraw sample_env 20 none (some sample_withdrawal) funded ≡ (some withdraw_reply, withdrawn))
    × (withdraw_reply.meta.result_code ≡ code_ok)
unfolding ◌+64◌ ◌-64◌ lookup insert erase lookup_or digit format_int same_actor_type actor_type_name
    invalid_amount actor_type_from_string resolve_actor result_text new_in_memory_store last_event
    compute_hash seal intact append new_ledger_service add_posting is_balanced_from is_balanced
    drop_last rolled_back tx_id db_enabled use_in_memory account_balance store_account
    get_or_create_account append_transaction rollback_last_transaction next_tx_id
    next_transfer_id_locked next_audit_id_locked add_postings delete_postings authorize_actor
    response_meta audit_event insert_audit store_event append_audit audit_denied eft_locked
    count_eft_failure record_eft_failure reset_eft_failures mutation_account_state idem_scope join
    ensure_ledger_account ensure_statements posting_statements posting_delta adjust_statements
    hash_request mutation_statements persist_ledger_mutation get_idempotency_ttl
    load_idempotency_response insert_response persist_idempotency_response unlock_after with_lock
    cache_reply cached_reply take_amount refuse check_actor admit refuse_locked check_unlocked
    replay_loaded replay_cached replay_reply replay_transaction movement_postings apply_side
    movement_transaction undo_movement post_movement keep_reply clear_failures reply_key ok_response
    take_account deposit_locked deposit_body deposit deny_overdraft withdraw withdraw_body
    withdraw_locked withdraw_funds
withdraw_accepted = (refl, refl)

withdraw_once_example :
    withdraw sample_env 30 none (some sample_withdrawal) withdrawn
    ≡ (some withdraw_reply, withdrawn)
withdraw_once_example =
    withdraw_once sample_env 20 30 none funded withdrawn funded-Reachable (omega arith)
      sample_withdrawal withdraw_reply withdraw_accepted.0 withdraw_accepted.1

withdraw-Outcome_example :
    Answers
      (λ r s'.
        Outcome sample_env none sample_withdrawal.meta "alice" sample_withdrawal.amount
          (Debited "alice" funded.accounts)
          funded.accounts
          s'.accounts
          (lookup
            (reply_key "alice" "|withdraw|" (idempotency sample_withdrawal.meta))
            funded.withdraw_by_idempotency)
          (lookup
            (reply_key "alice" "|withdraw|" (idempotency sample_withdrawal.meta))
            s'.withdraw_by_idempotency)
          r
          r.meta.result_code)
      (withdraw sample_env 20 none (some sample_withdrawal) funded)
withdraw-Outcome_example =
    withdraw-Outcome sample_env 20 none funded funded-Reachable sample_withdrawal

abbrev returned : Ledger Bool
returned = (transfer_to_account sample_env 20 none (some sample_withdrawal) funded).1

abbrev transfer_to_account_reply : DepositResponse
transfer_to_account_reply =
    reply_of (bare_response no_meta)
      (transfer_to_account sample_env 20 none (some sample_withdrawal) funded).0

transfer_to_account_accepted :
    (transfer_to_account sample_env 20 none (some sample_withdrawal) funded
      ≡ (some transfer_to_account_reply, returned))
    × (transfer_to_account_reply.meta.result_code ≡ code_ok)
unfolding ◌+64◌ ◌-64◌ lookup insert erase lookup_or digit format_int same_actor_type actor_type_name
    invalid_amount actor_type_from_string resolve_actor result_text new_in_memory_store last_event
    compute_hash seal intact append new_ledger_service add_posting is_balanced_from is_balanced
    drop_last rolled_back tx_id db_enabled use_in_memory account_balance store_account
    get_or_create_account append_transaction rollback_last_transaction next_tx_id
    next_transfer_id_locked next_audit_id_locked add_postings delete_postings authorize_actor
    response_meta audit_event insert_audit store_event append_audit audit_denied eft_locked
    count_eft_failure record_eft_failure reset_eft_failures mutation_account_state idem_scope join
    ensure_ledger_account ensure_statements posting_statements posting_delta adjust_statements
    hash_request mutation_statements persist_ledger_mutation get_idempotency_ttl
    load_idempotency_response insert_response persist_idempotency_response unlock_after with_lock
    cache_reply cached_reply take_amount refuse check_actor admit refuse_locked check_unlocked
    replay_loaded replay_cached replay_reply replay_transaction movement_postings apply_side
    movement_transaction undo_movement post_movement keep_reply clear_failures reply_key ok_response
    take_account deposit_locked deposit_body deposit deny_overdraft transfer_to_account
    transfer_to_account_body to_account_locked
transfer_to_account_accepted = (refl, refl)

transfer_to_account_once_example :
    transfer_to_account sample_env 30 none (some sample_withdrawal) returned
    ≡ (some transfer_to_account_reply, returned)
transfer_to_account_once_example =
    transfer_to_account_once sample_env 20 30 none funded returned funded-Reachable (omega arith)
      sample_withdrawal transfer_to_account_reply transfer_to_account_accepted.0
      transfer_to_account_accepted.1

transfer_to_account-Outcome_example :
    Answers
      (λ r s'.
        Outcome sample_env none sample_withdrawal.meta "alice" sample_withdrawal.amount
          (Credited "alice" funded.accounts)
          funded.accounts
          s'.accounts
          (lookup
            (reply_key "alice" "|to_account|" (idempotency sample_withdrawal.meta))
            funded.to_account_by_idempotency)
          (lookup
            (reply_key "alice" "|to_account|" (idempotency sample_withdrawal.meta))
            s'.to_account_by_idempotency)
          r
          r.meta.result_code)
      (transfer_to_account sample_env 20 none (some sample_withdrawal) funded)
transfer_to_account-Outcome_example =
    transfer_to_account-Outcome sample_env 20 none funded funded-Reachable sample_withdrawal

abbrev transferred : Ledger Bool
transferred = (transfer_to_device sample_env 20 none (some sample_transfer) funded).1

abbrev transfer_to_device_reply : TransferToDeviceResponse
transfer_to_device_reply =
    reply_of (bare_device_response no_meta)
      (transfer_to_device sample_env 20 none (some sample_transfer) funded).0

transfer_to_device_accepted :
    (transfer_to_device sample_env 20 none (some sample_transfer) funded
      ≡ (some transfer_to_device_reply, transferred))
    × (transfer_to_device_reply.meta.result_code ≡ code_ok)
unfolding ◌+64◌ ◌-64◌ lookup insert erase lookup_or digit format_int same_actor_type actor_type_name
    invalid_amount actor_type_from_string resolve_actor result_text new_in_memory_store last_event
    compute_hash seal intact append new_ledger_service add_posting is_balanced_from is_balanced
    drop_last rolled_back tx_id db_enabled use_in_memory account_balance store_account
    get_or_create_account append_transaction rollback_last_transaction next_tx_id
    next_transfer_id_locked next_audit_id_locked add_postings delete_postings authorize_actor
    response_meta audit_event insert_audit store_event append_audit audit_denied eft_locked
    count_eft_failure record_eft_failure reset_eft_failures mutation_account_state idem_scope join
    ensure_ledger_account ensure_statements posting_statements posting_delta adjust_statements
    hash_request mutation_statements persist_ledger_mutation get_idempotency_ttl
    load_idempotency_response insert_response persist_idempotency_response unlock_after with_lock
    cache_reply cached_reply take_amount refuse check_actor admit refuse_locked check_unlocked
    replay_loaded replay_cached replay_reply replay_transaction movement_postings apply_side
    movement_transaction undo_movement post_movement keep_reply clear_failures reply_key ok_response
    take_account deposit_locked deposit_body deposit deny_overdraft transfer_to_device
    transfer_to_device_body to_device_locked transfer_funds covered
transfer_to_device_accepted = (refl, refl)

transfer_to_device_once_example :
    transfer_to_device sample_env 30 none (some sample_transfer) transferred
    ≡ (some transfer_to_device_reply, transferred)
transfer_to_device_once_example =
    transfer_to_device_once sample_env 20 30 none funded transferred funded-Reachable (omega arith)
      sample_transfer transfer_to_device_reply transfer_to_device_accepted.0
      transfer_to_device_accepted.1

transfer_to_device-Outcome_example :
    Answers
      (λ r s'.
        Outcome sample_env none sample_transfer.meta "alice" sample_transfer.requested_amount
          (Drained "alice" funded.accounts)
          funded.accounts
          s'.accounts
          (lookup
            (reply_key "alice" "|to_device|" (idempotency sample_transfer.meta))
            funded.to_device_by_idempotency)
          (lookup
            (reply_key "alice" "|to_device|" (idempotency sample_transfer.meta))
            s'.to_device_by_idempotency)
          r
          r.meta.result_code)
      (transfer_to_device sample_env 20 none (some sample_transfer) funded)
transfer_to_device-Outcome_example =
    transfer_to_device-Outcome sample_env 20 none funded funded-Reachable sample_transfer

alice-IsCustomer : IsCustomer "alice"
alice-IsCustomer = record {
  not_liability = λ e. absurd (cc e);
  not_escrow = λ e. absurd (cc e);
  not_device = λ device e.
      let escrow : starts_with "alice" "device_escrow:" ≡ true =
        ap (λ t. starts_with t "device_escrow:") (sym e)
        ∙ starts_with-append "device_escrow:" device in
      absurd (cc escrow);
}

balance_in-net_books_example :
    balance_in "alice" funded.accounts ≡ net_books "alice" funded.postings_by_tx
balance_in-net_books_example =
    balance_in-net_books sample_env funded "alice" funded-Reachable alice-IsCustomer

authorize_actor-MayUse_example :
    (a : Actor) × (actor (record { actor_id = "alice"; actor_type = player }) ≡ actor a)
    × MayUse "alice" a
unfolding authorize_actor
authorize_actor-MayUse_example =
    authorize_actor-MayUse "alice" (actor (record { actor_id = "alice"; actor_type = player })) refl

abbrev sample_query : GetBalanceRequest
sample_query = record { meta = cashier ""; account_id = "alice" }

get_balance-net_books_example :
    (pending : ℕ) × (currency : String) × (get_balance sample_env 30 none (some sample_query) funded
      ≡ (
        some (
            balance_response sample_env 30 none
              (cashier "")
              "alice"
              (net_books "alice" funded.postings_by_tx, pending, currency)),
        funded,
      ))
unfolding authorize_actor resolve_actor same_actor_type
get_balance-net_books_example =
    get_balance-net_books sample_env 30 none funded sample_query funded-Reachable alice-IsCustomer
      refl refl

-- A service with a database that takes every statement and has no rows.
abbrev connected_service : Ledger Bool
connected_service = new_ledger_service (some true)

-- It does not return.
deposit-waits : (deposit sample_env 10 none (some sample_deposit) connected_service).0 ≡ none
unfolding ◌+64◌ ◌-64◌ lookup insert erase lookup_or digit format_int same_actor_type actor_type_name
    invalid_amount actor_type_from_string resolve_actor result_text new_in_memory_store last_event
    compute_hash seal intact append new_ledger_service add_posting is_balanced_from is_balanced
    drop_last rolled_back tx_id db_enabled use_in_memory account_balance store_account
    get_or_create_account append_transaction rollback_last_transaction next_tx_id
    next_transfer_id_locked next_audit_id_locked add_postings delete_postings authorize_actor
    response_meta audit_event insert_audit store_event append_audit audit_denied eft_locked
    count_eft_failure record_eft_failure reset_eft_failures mutation_account_state idem_scope join
    ensure_ledger_account ensure_statements posting_statements posting_delta adjust_statements
    hash_request mutation_statements persist_ledger_mutation get_idempotency_ttl
    load_idempotency_response insert_response persist_idempotency_response unlock_after with_lock
    cache_reply cached_reply take_amount refuse check_actor admit refuse_locked check_unlocked
    replay_loaded replay_cached replay_reply replay_transaction movement_postings apply_side
    movement_transaction undo_movement post_movement keep_reply clear_failures reply_key ok_response
    take_account deposit_locked deposit_body deposit deny_overdraft
deposit-waits = refl
