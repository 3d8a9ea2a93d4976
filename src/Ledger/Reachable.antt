-- ===== src/Ledger/Reachable.antt =====
-- The states that a service without a database reaches by its mutating handlers, and the books of
-- every such state.
use open_rgs_go.Prelude.{ℕ, ◌≡◌, refl, String, false, Option, none, some}
use open_rgs_go.Prelude.Dict.{lookup}
use open_rgs_go.Actor.{TokenActor}
use open_rgs_go.Ledger.State.{
  Ledger, DepositRequest, WithdrawRequest, TransferToDeviceRequest, new_ledger_service,
}
use open_rgs_go.Ledger.Env.{LedgerEnv}
use open_rgs_go.Ledger.Handlers.{deposit, withdraw, transfer_to_account}
use open_rgs_go.Ledger.Device.{transfer_to_device}
use open_rgs_go.Ledger.Reconcile.{IsCustomer, balance_in, net_books}
use open_rgs_go.Ledger.Contract.{InOrder}
use open_rgs_go.Ledger.Guarantees.{
  deposit-Fulfilled, withdraw-Fulfilled, transfer_to_account-Fulfilled,
  transfer_to_device-Fulfilled,
}

-- A new service, and what any request at any time makes of a state.
pub data Reachable (env : LedgerEnv) : Ledger env.Db → Type 0 where
  started : Reachable env (new_ledger_service none)
  after_deposit :
      (now : ℕ) (ctx : Option TokenActor) (req : Option DepositRequest) {s : Ledger env.Db}
      → Reachable env s
      → Reachable env (deposit env now ctx req s).1
  after_withdraw :
      (now : ℕ) (ctx : Option TokenActor) (req : Option WithdrawRequest) {s : Ledger env.Db}
      → Reachable env s
      → Reachable env (withdraw env now ctx req s).1
  after_transfer_to_account :
      (now : ℕ) (ctx : Option TokenActor) (req : Option WithdrawRequest) {s : Ledger env.Db}
      → Reachable env s
      → Reachable env (transfer_to_account env now ctx req s).1
  after_transfer_to_device :
      (now : ℕ) (ctx : Option TokenActor) (req : Option TransferToDeviceRequest) {s : Ledger env.Db}
      → Reachable env s
      → Reachable env (transfer_to_device env now ctx req s).1

started-InOrder : (env : LedgerEnv) → InOrder {Db = env.Db} false (new_ledger_service none)
unfolding new_ledger_service balance_in net_books lookup
started-InOrder env = record {
  no_db = refl;
  mutex = refl;
  books = record { fresh = λ n h. refl; range = λ a acct h. absurd (cc h); balanced = λ a c. refl };
}

module _ (env : LedgerEnv) (now : ℕ) (ctx : Option TokenActor) {s : Ledger env.Db}
    (order : InOrder false s) where
  deposit-InOrder : (req : Option DepositRequest) → InOrder false (deposit env now ctx req s).1
  unfolding deposit
  deposit-InOrder none = order
  deposit-InOrder (some req) = (deposit-Fulfilled env now ctx s order req).2.settled.order

  withdraw-InOrder : (req : Option WithdrawRequest) → InOrder false (withdraw env now ctx req s).1
  unfolding withdraw
  withdraw-InOrder none = order
  withdraw-InOrder (some req) = (withdraw-Fulfilled env now ctx s order req).2.settled.order

  to_account-InOrder :
      (req : Option WithdrawRequest) → InOrder false (transfer_to_account env now ctx req s).1
  unfolding transfer_to_account
  to_account-InOrder none = order
  to_account-InOrder (some req) =
      (transfer_to_account-Fulfilled env now ctx s order req).2.settled.order

  to_device-InOrder :
      (req : Option TransferToDeviceRequest)
      → InOrder false (transfer_to_device env now ctx req s).1
  unfolding transfer_to_device
  to_device-InOrder none = order
  to_device-InOrder (some req) =
      (transfer_to_device-Fulfilled env now ctx s order req).2.settled.order

module _ (env : LedgerEnv) where
  pub Reachable-InOrder : (s : Ledger env.Db) → Reachable env s → InOrder false s
  Reachable-InOrder _ started = started-InOrder env
  Reachable-InOrder _ (after_deposit now ctx req {s} r) =
      deposit-InOrder env now ctx (Reachable-InOrder s r) req
  Reachable-InOrder _ (after_withdraw now ctx req {s} r) =
      withdraw-InOrder env now ctx (Reachable-InOrder s r) req
  Reachable-InOrder _ (after_transfer_to_account now ctx req {s} r) =
      to_account-InOrder env now ctx (Reachable-InOrder s r) req
  Reachable-InOrder _ (after_transfer_to_device now ctx req {s} r) =
      to_device-InOrder env now ctx (Reachable-InOrder s r) req

-- In every state that a service without a database reaches by Deposit, Withdraw,
-- TransferToAccount and TransferToDevice, whatever the requests and whichever of them fail, the
-- balance of an account that is none of the house's own ("operator_liability", "device_escrow",
-- "device_escrow:…") is the net of the postings on it, modulo 2 ^ 64.
pub balance_in-net_books :
    (env : LedgerEnv) (s : Ledger env.Db) (account_id : String)
    → Reachable env s
    → IsCustomer account_id
    → balance_in account_id s.accounts ≡ net_books account_id s.postings_by_tx
balance_in-net_books env s account_id r customer =
    (Reachable-InOrder env s r).books.balanced account_id customer
