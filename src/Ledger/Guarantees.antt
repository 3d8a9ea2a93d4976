-- ===== src/Ledger/Guarantees.antt =====
-- What Deposit, Withdraw, TransferToAccount and TransferToDevice promise their callers, on a
-- service without a database whose books are in order.
use open_rgs_go.Prelude.{
  ℕ, String, ◌≡◌, ◌≢◌, refl, sym, ◌∙◌, Bool, true, false, Option, some, arith, ◌=ˢ◌, ◌||◌,
}
use open_rgs_go.Prelude.Dict.{Dict}
use open_rgs_go.Prelude.Flow.{Body, run, return_if, ◌>>=◌, ◌>>◌}
use open_rgs_go.Prelude.Flow.Triple.{Triple, Triple-bind, Triple-return_if, Answers, run-Answers}
use open_rgs_go.Proto.{
  RequestMeta, ResultCode, code_ok, code_invalid, code_denied, Money, idempotency,
}
use open_rgs_go.Actor.{TokenActor}
use open_rgs_go.Ledger.State.{
  Ledger, LedgerAccount, DepositRequest, DepositResponse, WithdrawRequest, TransferToDeviceRequest,
  TransferToDeviceResponse,
}
use open_rgs_go.Ledger.Env.{LedgerEnv}
use open_rgs_go.Ledger.Methods.{response_meta}
use open_rgs_go.Ledger.Steps.{
  Replies, fail, admit, with_lock, deposit_replies, withdraw_replies, to_account_replies,
  to_device_replies,
}
use open_rgs_go.Ledger.Handlers.{
  reply_key, deposit, withdraw, transfer_to_account, deposit_locked, withdraw_locked,
  to_account_locked,
}
use open_rgs_go.Ledger.Device.{transfer_to_device, to_device_locked}
use open_rgs_go.Ledger.Rules.{Admitted, admit-Triple, with_lock-Triple}
use open_rgs_go.Ledger.Contract.{ReplyLaws, InOrder, Working, Settled, denied-Settled}
use open_rgs_go.Ledger.Accepts.{
  deposit_replies-laws, withdraw_replies-laws, to_account_replies-laws, to_device_replies-laws,
  deposit_locked-Triple, withdraw_locked-Triple, to_account_locked-Triple,
}
use open_rgs_go.Ledger.Effect.{Paid, Credited, Debited, Drained}
use open_rgs_go.Ledger.AcceptsDevice.{to_device_locked-Triple}

-- The response and state at the end of a mutating handler: it is settled, and an accepted request
-- was admitted.
pub record Fulfilled (env : LedgerEnv) (now : ℕ) (ctx : Option TokenActor) {R : Type 0}
    (k : Replies env.Db R) (meta : Option RequestMeta) (account_id key : String)
    (start : Ledger env.Db) (effect : Dict LedgerAccount → Type 0) (nameless : Bool)
    (amount : Option Money) (r : R) (s : Ledger env.Db) : Type 0 where
  pub settled : Settled k now account_id key start effect false r s
  pub admitted :
      k.code_of r ≡ code_ok
      → (nameless ≡ false) × (m : Money) × Admitted env ctx meta account_id amount m

-- The checks in front of the lock, and the part under it.
module _ (env : LedgerEnv) (now : ℕ) (ctx : Option TokenActor) {R : Type 0} (k : Replies env.Db R)
    (laws : ReplyLaws k) (meta : Option RequestMeta) (account_id key : String)
    (start : Ledger env.Db) (effect : Dict LedgerAccount → Type 0) where
  refused-Fulfilled :
      (nameless : Bool) (amount : Option Money) (r : R) (s : Ledger env.Db)
      → k.code_of r ≢ code_ok
      → Settled k now account_id key start effect false r s
      → Fulfilled env now ctx k meta account_id key start effect nameless amount r s
  refused-Fulfilled nameless amount r s bad settled = record {
    settled = settled;
    admitted = λ e. absurd (bad e);
  }

  early-Fulfilled :
      (nameless : Bool) (amount : Option Money) (r : R) (s : Ledger env.Db)
      → k.code_of r ≢ code_ok
      → Working start false s
      → Fulfilled env now ctx k meta account_id key start effect nameless amount r s
  early-Fulfilled nameless amount r s bad w = refused-Fulfilled nameless amount r s bad (record {
    order = w.order;
    kept = λ e. absurd (bad e);
    unlocked = λ e. absurd (bad e);
    moved = λ e. absurd (bad e);
    same = λ _. w.same;
  })

  unlock-Settled :
      (r : R) (s : Ledger env.Db)
      → Settled k now account_id key start effect true r s
      → Settled k now account_id key start effect false r (record s { mu = false })
  unlock-Settled r s t = record {
    order = record { no_db = t.order.no_db; mutex = refl; books = t.order.books };
    kept = λ e. rw (laws.cached_mu false s) (t.kept e);
    unlocked = t.unlocked;
    same = t.same;
    moved = t.moved;
  }

  fail_code-ne-ok :
      (code : ResultCode) (reason : String)
      → code ≢ code_ok
      → k.code_of (fail env now ctx k meta code reason) ≢ code_ok
  unfolding response_meta
  fail_code-ne-ok code reason bad e =
      bad (sym (laws.code_of_meta (response_meta env now meta code reason)) ∙ e)

  guarded-Triple :
      (nameless : Bool) (r : R) (amount : Option Money) (action invalid : String)
      (locked : Money → Body (Ledger env.Db) R R)
      → k.code_of r ≢ code_ok
      → (nameless ≡ false
          → (m : Money) → amount ≡ some m
          → Triple
              (Working start true)
              (Settled k now account_id key start effect true)
              (Settled k now account_id key start effect true)
              (locked m))
      → Triple
          (Working start false)
          (Fulfilled env now ctx k meta account_id key start effect nameless amount)
          (Fulfilled env now ctx k meta account_id key start effect nameless amount)
          (return_if nameless r
            >> (admit env now ctx k meta account_id amount action invalid >>= λ m.
                with_lock (locked m)))
  guarded-Triple nameless r amount action invalid locked bad h =
      Triple-bind (Triple-return_if nameless r (λ s w _. early-Fulfilled nameless amount r s bad w))
        λ _.
          Triple-bind
            (admit-Triple env now ctx k meta account_id action amount invalid
              (λ s reason p.
                early-Fulfilled nameless amount _ s
                  (fail_code-ne-ok code_invalid reason (λ e. cc e)) p.0)
              (λ s reason p.
                refused-Fulfilled nameless amount _ _
                  (fail_code-ne-ok code_denied reason (λ e. cc e))
                  (denied-Settled env now ctx k laws account_id key start effect false meta action s
                    reason p.0)))
            λ m. record {
              at = λ s p.
                  (with_lock-Triple {P = Working start false}
                      {E = λ r' s'.
                        Fulfilled env now ctx k meta account_id key start effect nameless amount r'
                          s'}
                      (locked m)
                      (λ s' w. (
                        w.order.mutex,
                        record {
                          order = record {
                            no_db = w.order.no_db;
                            mutex = refl;
                            books = w.order.books;
                          };
                          same = w.same;
                          replies = w.replies;
                        },
                      ))
                      (h p.0.1 m p.1.present)
                      (λ s' r' t. record {
                        settled = unlock-Settled r' s' t;
                        admitted = λ _. (p.0.1, m, p.1);
                      })).at
                    s p.0.0;
            }

  -- What the caller sees: the call returns, and its response and state are as promised.
  pub Fulfilled-run :
      (nameless : Bool) (amount : Option Money) (body : Body (Ledger env.Db) R R)
      → Triple
          (Working start false)
          (Fulfilled env now ctx k meta account_id key start effect nameless amount)
          (Fulfilled env now ctx k meta account_id key start effect nameless amount)
          body
      → (s : Ledger env.Db) → Working start false s
      → Answers
          (Fulfilled env now ctx k meta account_id key start effect nameless amount)
          (run body s)
  Fulfilled-run nameless amount body t s w = run-Answers body t s w

unnamed : (a b : Bool) → (a || b) ≡ false → a ≡ false
unnamed a b h = ground (arith, h)

module _ (env : LedgerEnv) (now : ℕ) (ctx : Option TokenActor) (s : Ledger env.Db)
    (order : InOrder false s) where
  starting : Working s false s
  starting = record { order = order; same = λ a. refl; replies = (refl, refl, refl, refl) }

  abbrev pub DepositFulfilled : DepositRequest → DepositResponse → Ledger env.Db → Type 0
  DepositFulfilled req =
      Fulfilled env now ctx (deposit_replies env) req.meta req.account_id
        (reply_key req.account_id "|deposit|" (idempotency req.meta)) s
        (Paid req.amount (Credited req.account_id s.accounts)) (req.account_id =ˢ "") req.amount

  pub deposit-Fulfilled :
      (req : DepositRequest) → Answers (DepositFulfilled req) (deposit env now ctx (some req) s)
  unfolding deposit response_meta
  deposit-Fulfilled req =
      Fulfilled-run env now ctx (deposit_replies env) (deposit_replies-laws env) req.meta
        req.account_id _ s _ _ _ _
        (guarded-Triple env now ctx (deposit_replies env) (deposit_replies-laws env) req.meta
          req.account_id _ s _ (req.account_id =ˢ "") _ req.amount "deposit" _
          (λ m. deposit_locked env now ctx req m (idempotency req.meta)) (λ e. cc e)
          (λ named m given. deposit_locked-Triple env now ctx s req m _ named given))
        s starting

  abbrev pub WithdrawFulfilled : WithdrawRequest → DepositResponse → Ledger env.Db → Type 0
  WithdrawFulfilled req =
      Fulfilled env now ctx (withdraw_replies env) req.meta req.account_id
        (reply_key req.account_id "|withdraw|" (idempotency req.meta)) s
        (Paid req.amount (Debited req.account_id s.accounts)) (req.account_id =ˢ "") req.amount

  pub withdraw-Fulfilled :
      (req : WithdrawRequest) → Answers (WithdrawFulfilled req) (withdraw env now ctx (some req) s)
  unfolding withdraw response_meta
  withdraw-Fulfilled req =
      Fulfilled-run env now ctx (withdraw_replies env) (withdraw_replies-laws env) req.meta
        req.account_id _ s _ _ _ _
        (guarded-Triple env now ctx (withdraw_replies env) (withdraw_replies-laws env) req.meta
          req.account_id _ s _ (req.account_id =ˢ "") _ req.amount "withdraw" _
          (λ m. withdraw_locked env now ctx req m (idempotency req.meta)) (λ e. cc e)
          (λ named m given. withdraw_locked-Triple env now ctx s req m _ named given))
        s starting

  abbrev pub TransferToAccountFulfilled : WithdrawRequest → DepositResponse → Ledger env.Db → Type 0
  TransferToAccountFulfilled req =
      Fulfilled env now ctx (to_account_replies env) req.meta req.account_id
        (reply_key req.account_id "|to_account|" (idempotency req.meta)) s
        (Paid req.amount (Credited req.account_id s.accounts)) (req.account_id =ˢ "") req.amount

  pub transfer_to_account-Fulfilled :
      (req : WithdrawRequest)
      → Answers (TransferToAccountFulfilled req) (transfer_to_account env now ctx (some req) s)
  unfolding transfer_to_account response_meta
  transfer_to_account-Fulfilled req =
      Fulfilled-run env now ctx (to_account_replies env) (to_account_replies-laws env) req.meta
        req.account_id _ s _ _ _ _
        (guarded-Triple env now ctx (to_account_replies env) (to_account_replies-laws env) req.meta
          req.account_id _ s _ (req.account_id =ˢ "") _ req.amount "transfer_to_account" _
          (λ m. to_account_locked env now ctx req m (idempotency req.meta)) (λ e. cc e)
          (λ named m given. to_account_locked-Triple env now ctx s req m _ named given))
        s starting

  abbrev pub TransferToDeviceFulfilled :
      TransferToDeviceRequest → TransferToDeviceResponse → Ledger env.Db → Type 0
  TransferToDeviceFulfilled req =
      Fulfilled env now ctx (to_device_replies env) req.meta req.account_id
        (reply_key req.account_id "|to_device|" (idempotency req.meta)) s
        (Paid req.requested_amount (Drained req.account_id s.accounts))
        (req.account_id =ˢ "" || req.device_id =ˢ "") req.requested_amount

  pub transfer_to_device-Fulfilled :
      (req : TransferToDeviceRequest)
      → Answers (TransferToDeviceFulfilled req) (transfer_to_device env now ctx (some req) s)
  unfolding transfer_to_device response_meta
  transfer_to_device-Fulfilled req =
      Fulfilled-run env now ctx (to_device_replies env) (to_device_replies-laws env) req.meta
        req.account_id _ s _ _ _ _
        (guarded-Triple env now ctx (to_device_replies env) (to_device_replies-laws env) req.meta
          req.account_id _ s _ (req.account_id =ˢ "" || req.device_id =ˢ "") _ req.requested_amount
          "transfer_to_device" _ (λ m. to_device_locked env now ctx req m (idempotency req.meta))
          (λ e. cc e)
          (λ named m given.
            to_device_locked-Triple env now ctx s req m _
              (unnamed (req.account_id =ˢ "") (req.device_id =ˢ "") named) given))
        s starting
