-- ===== src/Ledger/Steps.antt =====
-- The steps that Deposit, Withdraw, TransferToDevice and TransferToAccount of ledger_grpc.go have
-- in common before they touch an account. The source writes them out in each handler; here they
-- are functions of the response type `R` and of what differs between the handlers.
use open_rgs_go.Prelude.{ℕ, String, Bool, true, false, Option, none, some, ◌=ˢ◌, if◌then◌else◌}
use open_rgs_go.Prelude.Dict.{Dict, lookup, insert}
use open_rgs_go.Prelude.Flow.{Flow, Body, ret, next, blocked, pure, return, return_if, ◌>>=◌, ◌>>◌}
use open_rgs_go.Proto.{
  RequestMeta, ResponseMeta, ResultCode, code_ok, code_denied, code_invalid, code_error, Money,
  money, invalid_amount, idempotency,
}
use open_rgs_go.Actor.{TokenActor, resolve_actor}
use open_rgs_go.Ledger.State.{
  Ledger, LedgerTransaction, LedgerTransactionType, DepositResponse, TransferToDeviceResponse,
  status_unspecified,
}
use open_rgs_go.Ledger.Env.{LedgerEnv, failed, no_rows, row}
use open_rgs_go.Ledger.Books.{use_in_memory}
use open_rgs_go.Ledger.Methods.{response_meta, authorize_actor, audit_denied, eft_locked}
use open_rgs_go.Ledger.Persist.{
  Loaded, load_failed, mismatch, not_found, found, load_idempotency_response,
}

-- A handler's response type: the response with nothing but its meta, the map of the replies that
-- were given, and protojson.
pub record Replies (Db R : Type 0) : Type 0 where
  pub of_meta : ResponseMeta → R
  pub cached : Ledger Db → Dict R
  pub with_cached : Dict R → Ledger Db → Ledger Db
  pub marshal : R → Option String
  pub unmarshal : String → Option R
  pub code_of : R → ResultCode

abbrev pub bare_response : ResponseMeta → DepositResponse
bare_response m = record { meta = m; transaction = none; available_balance = none }

abbrev pub bare_device_response : ResponseMeta → TransferToDeviceResponse
bare_device_response m = record {
  meta = m;
  transfer_id = "";
  transfer_status = status_unspecified;
  transferred_amount = none;
  available_balance = none;
  unresolved_reason = "";
}

module _ (env : LedgerEnv) where
  abbrev pub deposit_replies : Replies env.Db DepositResponse
  deposit_replies = record {
    of_meta = bare_response;
    cached = λ s. s.deposit_by_idempotency;
    with_cached = λ d s. record s { deposit_by_idempotency = d };
    marshal = env.marshal_response;
    unmarshal = env.unmarshal_response;
    code_of = λ r. r.meta.result_code;
  }

  abbrev pub withdraw_replies : Replies env.Db DepositResponse
  withdraw_replies = record {
    of_meta = bare_response;
    cached = λ s. s.withdraw_by_idempotency;
    with_cached = λ d s. record s { withdraw_by_idempotency = d };
    marshal = env.marshal_response;
    unmarshal = env.unmarshal_response;
    code_of = λ r. r.meta.result_code;
  }

  abbrev pub to_account_replies : Replies env.Db DepositResponse
  to_account_replies = record {
    of_meta = bare_response;
    cached = λ s. s.to_account_by_idempotency;
    with_cached = λ d s. record s { to_account_by_idempotency = d };
    marshal = env.marshal_response;
    unmarshal = env.unmarshal_response;
    code_of = λ r. r.meta.result_code;
  }

  abbrev pub to_device_replies : Replies env.Db TransferToDeviceResponse
  to_device_replies = record {
    of_meta = bare_device_response;
    cached = λ s. s.to_device_by_idempotency;
    with_cached = λ d s. record s { to_device_by_idempotency = d };
    marshal = env.marshal_device_response;
    unmarshal = env.unmarshal_device_response;
    code_of = λ r. r.meta.result_code;
  }

module _ {Db R : Type 0} where
  unfoldable pub unlock_after : Flow R R → Ledger Db → Ledger Db
  unlock_after (ret _) s = record s { mu = false }
  unlock_after (next _) s = record s { mu = false }
  unlock_after blocked s = s

  -- s.mu.Lock(); defer s.mu.Unlock(); …
  unfoldable pub with_lock : Body (Ledger Db) R R → Body (Ledger Db) R R
  unfolding unlock_after
  with_lock m s =
      if s.mu
      then (blocked, s)
      else let (f, s') = m (record s { mu = true }) in (f, unlock_after f s')

  -- The write into the map of replies, where the cache is in use.
  unfoldable pub cache_reply : Replies Db R → String → R → Ledger Db → Ledger Db
  unfolding use_in_memory
  cache_reply k key r s = if use_in_memory s then k.with_cached (insert key r (k.cached s)) s else s

  unfoldable pub cached_reply : Replies Db R → String → Ledger Db → Option R
  unfolding use_in_memory
  cached_reply k key s = if use_in_memory s then lookup key (k.cached s) else none

  -- A present and valid amount.
  unfoldable pub take_amount : Option Money → R → Body (Ledger Db) R Money
  take_amount none r = return r
  take_amount (some m) r = return_if (invalid_amount (some m)) r >> pure m

module _ (env : LedgerEnv) (now : ℕ) (ctx : Option TokenActor) {R : Type 0}
    (k : Replies env.Db R) where
  abbrev pub fail : Option RequestMeta → ResultCode → String → R
  fail meta code reason = k.of_meta (response_meta env now meta code reason)

  -- A refusal is audited and answered.
  unfoldable pub refuse :
      Option RequestMeta → String → String → Option String → Body (Ledger env.Db) R (Unit {0})
  refuse meta account_id action none s = (next tt, s)
  refuse meta account_id action (some reason) s = (
    ret (fail meta code_denied reason),
    audit_denied env now meta "ledger_account" account_id action reason s,
  )

  unfoldable pub check_actor :
      Option RequestMeta → String → String → Body (Ledger env.Db) R (Unit {0})
  unfolding refuse
  check_actor meta account_id action =
      refuse meta account_id action
        (authorize_actor account_id (resolve_actor env.normalize ctx meta))

  -- The checks that need no state: the actor, the amount and the key.
  unfoldable pub admit :
      Option RequestMeta → String → Option Money → String → String → Body (Ledger env.Db) R Money
  unfolding check_actor take_amount
  admit meta account_id amount action invalid = do
    check_actor meta account_id action
    m ← take_amount amount (fail meta code_invalid invalid)
    return_if (idempotency meta =ˢ "") (fail meta code_invalid "idempotency_key is required")
    pure m

  unfoldable pub refuse_locked :
      Option RequestMeta → String → String → Option Bool → Body (Ledger env.Db) R (Unit {0})
  unfolding refuse
  refuse_locked meta account_id action none =
      return (fail meta code_error "persistence unavailable")
  refuse_locked meta account_id action (some locked) =
      refuse meta account_id action (if locked then some "eft account locked" else none)

  unfoldable pub check_unlocked :
      Option RequestMeta → String → String → Body (Ledger env.Db) R (Unit {0})
  unfolding refuse_locked
  check_unlocked meta account_id action s =
      refuse_locked meta account_id action (eft_locked env now account_id s) s

  -- The reply that was given to the key before, from the cache or from the database.
  unfoldable pub replay_loaded :
      Option RequestMeta → String → Loaded R → Body (Ledger env.Db) R (Unit {0})
  unfolding cache_reply
  replay_loaded meta key not_found s = (next tt, s)
  replay_loaded meta key mismatch s =
      (ret (fail meta code_invalid "idempotency_key reused with different request"), s)
  replay_loaded meta key load_failed s = (ret (fail meta code_error "persistence unavailable"), s)
  replay_loaded meta key (found r) s = (ret r, cache_reply k key r s)

  unfoldable pub replay_cached :
      Option RequestMeta
      → String
      → String
      → String
      → String
      → Option R
      → Body (Ledger env.Db) R (Unit {0})
  unfolding replay_loaded
  replay_cached meta key scope idem request_hash (some prev) s = (ret prev, s)
  replay_cached meta key scope idem request_hash none s =
      replay_loaded meta key (load_idempotency_response env k.unmarshal scope idem request_hash s) s

  unfoldable pub replay_reply :
      Option RequestMeta → String → String → String → String → Body (Ledger env.Db) R (Unit {0})
  unfolding cached_reply replay_cached
  replay_reply meta key scope idem request_hash s =
      replay_cached meta key scope idem request_hash (cached_reply k key s) s

-- The transaction that the database already holds under the key (Deposit, Withdraw and
-- TransferToAccount; TransferToDevice has no such step).
module _ (env : LedgerEnv) (now : ℕ) (ctx : Option TokenActor)
    (k : Replies env.Db DepositResponse) where
  replayed_balance :
      Option RequestMeta → String → String → LedgerTransaction → env.Db → Option DepositResponse
  replayed_balance meta account_id currency tx d = elim (env.query_balance d account_id) [
    | failed ↦ none
    | no_rows ↦ some (record {
      meta = response_meta env now meta code_ok "";
      transaction = some tx;
      available_balance = money 0 currency;
    })
    | row (available, _, stored) ↦ some (record {
      meta = response_meta env now meta code_ok "";
      transaction = some tx;
      available_balance = money available stored;
    })
  ]

  unfoldable pub replay_transaction :
      Option RequestMeta
      → String
      → LedgerTransactionType
      → String
      → String
      → String
      → Body (Ledger env.Db) DepositResponse (Unit {0})
  unfolding replayed_balance cache_reply
  replay_transaction meta account_id type idem currency key s = elim s.db [
    | none ↦ (next tt, s)
    | some d ↦ elim (env.query_transaction d account_id type idem) [
      | failed ↦ (ret (fail env now ctx k meta code_error "persistence unavailable"), s)
      | no_rows ↦ (next tt, s)
      | row tx ↦ elim (replayed_balance meta account_id currency tx d) [
        | none ↦ (ret (fail env now ctx k meta code_error "persistence unavailable"), s)
        | some r ↦ (ret r, cache_reply k key r s)
      ]
    ]
  ]
