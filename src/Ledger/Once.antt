-- ===== src/Ledger/Once.antt =====
-- An accepted request that is sent again, as after a lost answer, is not done again.
use mathlib.Core.Path.{subst}
use open_rgs_go.Prelude.{ℕ, ◌≤◌, String, ◌≡◌, Bool, false, Option, some, ltb, arith}
use open_rgs_go.Prelude.Dict.{Dict, lookup_or}
use open_rgs_go.Prelude.Flow.Triple.{Answers}
use open_rgs_go.Proto.{RequestMeta, Money, code_ok}
use open_rgs_go.Actor.{TokenActor}
use open_rgs_go.Ledger.State.{
  Ledger, LedgerAccount, DepositRequest, WithdrawRequest, TransferToDeviceRequest, DepositResponse,
  TransferToDeviceResponse,
}
use open_rgs_go.Ledger.Env.{LedgerEnv}
use open_rgs_go.Ledger.Steps.{Replies}
use open_rgs_go.Ledger.Handlers.{deposit, withdraw, transfer_to_account}
use open_rgs_go.Ledger.Device.{transfer_to_device}
use open_rgs_go.Ledger.Guarantees.{
  Fulfilled, deposit-Fulfilled, withdraw-Fulfilled, transfer_to_account-Fulfilled,
  transfer_to_device-Fulfilled, DepositFulfilled, WithdrawFulfilled, TransferToAccountFulfilled,
  TransferToDeviceFulfilled,
}
use open_rgs_go.Ledger.Reachable.{Reachable, Reachable-InOrder}
use open_rgs_go.Ledger.Repeats.{
  deposit-again, withdraw-again, transfer_to_account-again, transfer_to_device-again,
}

-- The response and the state that a run is known to give have what every answer has.
answered :
    {S R : Type 0} (E : R → S → Type 0) (run : Option R × S) (r : R) (s : S)
    → Answers E run
    → run ≡ (some r, s)
    → E r s
answered E run r s a e =
    let (r', same, h) = subst (λ p. Answers E p) e a in
    let back : r' ≡ r = cc same in subst (λ x. E x s) back h

module _ {env : LedgerEnv} {now : ℕ} {ctx : Option TokenActor} {R : Type 0} {k : Replies env.Db R}
    {meta : Option RequestMeta} {account_id key : String} {start : Ledger env.Db}
    {effect : Dict LedgerAccount → Type 0} {nameless : Bool} {amount : Option Money} {r : R}
    {s : Ledger env.Db}
    (f : Fulfilled env now ctx k meta account_id key start effect nameless amount r s)
    (ok : k.code_of r ≡ code_ok) where
  still_unlocked :
      (later : ℕ)
      → now ≤ later
      → ltb later (lookup_or 0 account_id s.eft_fraud_locked_until) ≡ false
  still_unlocked later h = ground (arith, f.settled.unlocked ok)

module _ (env : LedgerEnv) (now later : ℕ) (ctx : Option TokenActor) (s s' : Ledger env.Db)
    (reachable : Reachable env s) (in_time : now ≤ later) where
  -- When Deposit, on a reachable state without a database, has answered a request with OK, the
  -- same request from the same caller, sent next and not before it by the clock, gets the same
  -- response and changes nothing of the state.
  pub deposit_once :
      (req : DepositRequest) (r : DepositResponse)
      → deposit env now ctx (some req) s ≡ (some r, s')
      → r.meta.result_code ≡ code_ok
      → deposit env later ctx (some req) s' ≡ (some r, s')
  deposit_once req r e ok =
      let order = Reachable-InOrder env s reachable in
      let f : DepositFulfilled env now ctx s order req r s' =
        answered (DepositFulfilled env now ctx s order req) _ r s'
          (deposit-Fulfilled env now ctx s order req) e in
      let (named, m, admitted) = f.admitted ok in
      deposit-again env later ctx s' f.settled.order req m r named admitted
        (still_unlocked f ok later in_time) (f.settled.kept ok)

  -- When Withdraw, on a reachable state without a database, has answered a request with OK, the
  -- same request from the same caller, sent next and not before it by the clock, gets the same
  -- response and changes nothing of the state.
  pub withdraw_once :
      (req : WithdrawRequest) (r : DepositResponse)
      → withdraw env now ctx (some req) s ≡ (some r, s')
      → r.meta.result_code ≡ code_ok
      → withdraw env later ctx (some req) s' ≡ (some r, s')
  withdraw_once req r e ok =
      let order = Reachable-InOrder env s reachable in
      let f : WithdrawFulfilled env now ctx s order req r s' =
        answered (WithdrawFulfilled env now ctx s order req) _ r s'
          (withdraw-Fulfilled env now ctx s order req) e in
      let (named, m, admitted) = f.admitted ok in
      withdraw-again env later ctx s' f.settled.order req m r named admitted
        (still_unlocked f ok later in_time) (f.settled.kept ok)

  -- When TransferToAccount, on a reachable state without a database, has answered a request with OK, the
  -- same request from the same caller, sent next and not before it by the clock, gets the same
  -- response and changes nothing of the state.
  pub transfer_to_account_once :
      (req : WithdrawRequest) (r : DepositResponse)
      → transfer_to_account env now ctx (some req) s ≡ (some r, s')
      → r.meta.result_code ≡ code_ok
      → transfer_to_account env later ctx (some req) s' ≡ (some r, s')
  transfer_to_account_once req r e ok =
      let order = Reachable-InOrder env s reachable in
      let f : TransferToAccountFulfilled env now ctx s order req r s' =
        answered (TransferToAccountFulfilled env now ctx s order req) _ r s'
          (transfer_to_account-Fulfilled env now ctx s order req) e in
      let (named, m, admitted) = f.admitted ok in
      transfer_to_account-again env later ctx s' f.settled.order req m r named admitted
        (still_unlocked f ok later in_time) (f.settled.kept ok)

  -- When TransferToDevice, on a reachable state without a database, has answered a request with OK, the
  -- same request from the same caller, sent next and not before it by the clock, gets the same
  -- response and changes nothing of the state.
  pub transfer_to_device_once :
      (req : TransferToDeviceRequest) (r : TransferToDeviceResponse)
      → transfer_to_device env now ctx (some req) s ≡ (some r, s')
      → r.meta.result_code ≡ code_ok
      → transfer_to_device env later ctx (some req) s' ≡ (some r, s')
  transfer_to_device_once req r e ok =
      let order = Reachable-InOrder env s reachable in
      let f : TransferToDeviceFulfilled env now ctx s order req r s' =
        answered (TransferToDeviceFulfilled env now ctx s order req) _ r s'
          (transfer_to_device-Fulfilled env now ctx s order req) e in
      let (named, m, admitted) = f.admitted ok in
      transfer_to_device-again env later ctx s' f.settled.order req m r named admitted
        (still_unlocked f ok later in_time) (f.settled.kept ok)
