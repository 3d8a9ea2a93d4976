-- ===== src/Ledger/Outcomes.antt =====
-- What a mutating handler has done when it answers, read off from the contract.
use mathlib.Core.Path.{subst}
use open_rgs_go.Prelude.{ℕ, String, ◌≡◌, ◌≢◌, refl, ◌⊎◌, inl, inr, Bool, Option, some}
use open_rgs_go.Prelude.Dict.{Dict, lookup}
use open_rgs_go.Prelude.Flow.Triple.{Answers}
use open_rgs_go.Proto.{
  RequestMeta, ResultCode, code_unspecified, code_ok, code_denied, code_invalid, code_error, Money,
  idempotency,
}
use open_rgs_go.Actor.{TokenActor}
use open_rgs_go.Ledger.State.{
  Ledger, LedgerAccount, DepositRequest, WithdrawRequest, TransferToDeviceRequest,
}
use open_rgs_go.Ledger.Env.{LedgerEnv}
use open_rgs_go.Ledger.Steps.{Replies}
use open_rgs_go.Ledger.Handlers.{reply_key, deposit, withdraw, transfer_to_account}
use open_rgs_go.Ledger.Device.{transfer_to_device}
use open_rgs_go.Ledger.Rules.{Admitted}
use open_rgs_go.Ledger.Contract.{SameBalances}
use open_rgs_go.Ledger.Effect.{Paid, Credited, Debited, Drained}
use open_rgs_go.Ledger.Guarantees.{
  Fulfilled, deposit-Fulfilled, withdraw-Fulfilled, transfer_to_account-Fulfilled,
  transfer_to_device-Fulfilled,
}
use open_rgs_go.Ledger.Reachable.{Reachable, Reachable-InOrder}

ok-cases : (c : ResultCode) → (c ≡ code_ok) ⊎ (c ≢ code_ok)
ok-cases code_ok = inl refl
ok-cases code_unspecified = inr (λ e. cc e)
ok-cases code_denied = inr (λ e. cc e)
ok-cases code_invalid = inr (λ e. cc e)
ok-cases code_error = inr (λ e. cc e)

-- A refusal or a failure that leaves every balance as it was; or an acceptance of an admitted
-- request: the response was kept under the key before the call and every balance is as it was, or it
-- has the effect. After an acceptance the response is kept under the key.
pub data Outcome {R : Type 0} (env : LedgerEnv) (ctx : Option TokenActor)
    (meta : Option RequestMeta) (account_id : String) (amount : Option Money)
    (effect : ℕ → Dict LedgerAccount → Type 0) (start accounts : Dict LedgerAccount)
    (before after : Option R) (r : R) (code : ResultCode) : Type 0 where
  not_done :
      code ≢ code_ok
      → SameBalances start accounts
      → Outcome env ctx meta account_id amount effect start accounts before after r code
  replayed :
      code ≡ code_ok
      → (m : Money) → Admitted env ctx meta account_id amount m
      → before ≡ some r
      → after ≡ some r
      → SameBalances start accounts
      → Outcome env ctx meta account_id amount effect start accounts before after r code
  done :
      code ≡ code_ok
      → after ≡ some r
      → (m : Money) → Admitted env ctx meta account_id amount m
      → effect m.amount_minor accounts
      → Outcome env ctx meta account_id amount effect start accounts before after r code

module _ {env : LedgerEnv} {now : ℕ} {ctx : Option TokenActor} {R : Type 0} {k : Replies env.Db R}
    {meta : Option RequestMeta} {account_id key : String} {start : Ledger env.Db}
    {effect : ℕ → Dict LedgerAccount → Type 0} {nameless : Bool} {amount : Option Money} where
  outcome :
      {r : R} {s : Ledger env.Db}
      → Fulfilled env now ctx k meta account_id key start (Paid amount effect) nameless amount r s
      → Outcome env ctx meta account_id amount effect start.accounts s.accounts
          (lookup key (k.cached start))
          (lookup key (k.cached s))
          r
          (k.code_of r)
  outcome {r} {s} f = elim (ok-cases (k.code_of r)) [
    | inr bad ↦ not_done bad (f.settled.same bad)
    | inl ok ↦
        let (named, m, admitted) = f.admitted ok in
        elim (f.settled.moved ok) [
          | inl same ↦ replayed ok m admitted same.1 (f.settled.kept ok) same.0
          | inr (m', given, moved) ↦
              let same_amount : m' ≡ m = cc (given, admitted.present) in
              done ok (f.settled.kept ok) m admitted
                (subst (λ x. effect x.amount_minor s.accounts) same_amount moved)
        ]
  ]

module _ (env : LedgerEnv) (now : ℕ) (ctx : Option TokenActor) (s : Ledger env.Db)
    (reachable : Reachable env s) where
  -- On a reachable state without a database Deposit always returns. A response that is not OK leaves every
  -- balance as it was; an OK response answers an authorized request with a valid amount and a key, is
  -- kept under the key after the call, and either it is the response
  -- that was kept under the key before and every balance is as it was, or the account is credited the
  -- amount (modulo 2 ^ 64) and no other balance changes.
  pub deposit-Outcome :
      (req : DepositRequest)
      → Answers
          (λ r s'.
            Outcome env ctx req.meta req.account_id req.amount
              (Credited req.account_id s.accounts)
              s.accounts
              s'.accounts
              (lookup
                (reply_key req.account_id "|deposit|" (idempotency req.meta))
                s.deposit_by_idempotency)
              (lookup
                (reply_key req.account_id "|deposit|" (idempotency req.meta))
                s'.deposit_by_idempotency)
              r
              r.meta.result_code)
          (deposit env now ctx (some req) s)
  deposit-Outcome req =
      let (r, e, f) = deposit-Fulfilled env now ctx s (Reachable-InOrder env s reachable) req in
      (r, e, outcome f)

  -- On a reachable state without a database Withdraw always returns. A response that is not OK leaves every
  -- balance as it was; an OK response answers an authorized request with a valid amount and a key, is
  -- kept under the key after the call, and either it is the response
  -- that was kept under the key before and every balance is as it was, or the account's balance was at
  -- least the amount (as int64 values), the account is debited it and no other balance changes.
  pub withdraw-Outcome :
      (req : WithdrawRequest)
      → Answers
          (λ r s'.
            Outcome env ctx req.meta req.account_id req.amount
              (Debited req.account_id s.accounts)
              s.accounts
              s'.accounts
              (lookup
                (reply_key req.account_id "|withdraw|" (idempotency req.meta))
                s.withdraw_by_idempotency)
              (lookup
                (reply_key req.account_id "|withdraw|" (idempotency req.meta))
                s'.withdraw_by_idempotency)
              r
              r.meta.result_code)
          (withdraw env now ctx (some req) s)
  withdraw-Outcome req =
      let (r, e, f) = withdraw-Fulfilled env now ctx s (Reachable-InOrder env s reachable) req in
      (r, e, outcome f)

  -- On a reachable state without a database TransferToAccount always returns. A response that is not OK leaves every
  -- balance as it was; an OK response answers an authorized request with a valid amount and a key, is
  -- kept under the key after the call, and either it is the response
  -- that was kept under the key before and every balance is as it was, or the account is credited
  -- the amount (modulo 2 ^ 64) and no other balance changes.
  pub transfer_to_account-Outcome :
      (req : WithdrawRequest)
      → Answers
          (λ r s'.
            Outcome env ctx req.meta req.account_id req.amount
              (Credited req.account_id s.accounts)
              s.accounts
              s'.accounts
              (lookup
                (reply_key req.account_id "|to_account|" (idempotency req.meta))
                s.to_account_by_idempotency)
              (lookup
                (reply_key req.account_id "|to_account|" (idempotency req.meta))
                s'.to_account_by_idempotency)
              r
              r.meta.result_code)
          (transfer_to_account env now ctx (some req) s)
  transfer_to_account-Outcome req =
      let (r, e, f) =
        transfer_to_account-Fulfilled env now ctx s (Reachable-InOrder env s reachable) req in
      (r, e, outcome f)

  -- On a reachable state without a database TransferToDevice always returns. A response that is not OK leaves every
  -- balance as it was; an OK response answers an authorized request with a valid amount and a key, is
  -- kept under the key after the call, and either it is the response
  -- that was kept under the key before and every balance is as it was, or the account's balance was
  -- positive, the account is debited the smaller of the balance and the amount, and no other balance
  -- changes.
  pub transfer_to_device-Outcome :
      (req : TransferToDeviceRequest)
      → Answers
          (λ r s'.
            Outcome env ctx req.meta req.account_id req.requested_amount
              (Drained req.account_id s.accounts)
              s.accounts
              s'.accounts
              (lookup
                (reply_key req.account_id "|to_device|" (idempotency req.meta))
                s.to_device_by_idempotency)
              (lookup
                (reply_key req.account_id "|to_device|" (idempotency req.meta))
                s'.to_device_by_idempotency)
              r
              r.meta.result_code)
          (transfer_to_device env now ctx (some req) s)
  transfer_to_device-Outcome req =
      let (r, e, f) =
        transfer_to_device-Fulfilled env now ctx s (Reachable-InOrder env s reachable) req in
      (r, e, outcome f)
