-- ===== src/Ledger/AcceptsDevice.antt =====
-- TransferToDevice, without a database, keeps the contract of Ledger/Contract.
use open_rgs_go.Prelude.{
  ℕ, String, ◌≡◌, refl, true, false, inl, inr, Option, some, Bool-cases, ◌=ˢ◌,
}
use open_rgs_go.Prelude.Int64.{le64}
use open_rgs_go.Prelude.Dict.{Dict}
use open_rgs_go.Prelude.Flow.{call}
use open_rgs_go.Prelude.Flow.Triple.{Triple, Triple-bind, Triple-pure}
use open_rgs_go.Proto.{Money}
use open_rgs_go.Actor.{TokenActor}
use open_rgs_go.Ledger.State.{Ledger, LedgerAccount, TransferToDeviceRequest}
use open_rgs_go.Ledger.Env.{LedgerEnv}
use open_rgs_go.Ledger.Books.{next_transfer_id_locked}
use open_rgs_go.Ledger.Methods.{response_meta}
use open_rgs_go.Ledger.Steps.{to_device_replies}
use open_rgs_go.Ledger.Handlers.{reply_key, to_device_movement}
use open_rgs_go.Ledger.Device.{
  covered, device_reason, device_response, empty_account_response, transfer_funds, to_device_locked,
}
use open_rgs_go.Ledger.Contract.{InOrder, Working, Settled, Taken}
use open_rgs_go.Ledger.Effect.{Drained, Paid, start_balance, drain-Changes}
use open_rgs_go.Ledger.Settles.{
  unlocked-Triple, replay-Triple, account-Triple, movement-Triple, kept-Triple, clear-Triple,
  deny-Triple,
}
use open_rgs_go.Ledger.Accepts.{to_device_replies-laws}

transfer_id-Triple :
    {Db R : Type 0} {E : R → Ledger Db → Type 0} (effect : Dict LedgerAccount → Type 0)
    → Triple
        (λ s. InOrder true s × effect s.accounts)
        E
        (λ _ s. InOrder true s × effect s.accounts)
        (call next_transfer_id_locked)
unfolding next_transfer_id_locked
transfer_id-Triple effect = record {
  at = λ s o. (record { no_db = o.0.no_db; mutex = o.0.mutex; books = o.0.books }, o.1);
}

module _ (env : LedgerEnv) (now : ℕ) (ctx : Option TokenActor) (start : Ledger env.Db) where
  transfer_funds-Triple :
      (req : TransferToDeviceRequest) (amount : Money) (key scope idem hash : String)
      (acct : LedgerAccount)
      → (req.account_id =ˢ "") ≡ false
      → req.requested_amount ≡ some amount
      → let E =
          Settled
            (to_device_replies env)
            now
            req.account_id
            key
            start
            (Paid req.requested_amount (Drained req.account_id start.accounts))
            true in
        Triple
          (Taken start true req.account_id acct)
          E
          E
          (transfer_funds env now ctx req amount key scope idem hash acct)
  unfolding transfer_funds response_meta
  transfer_funds-Triple req amount key scope idem hash acct named given =
      let k = to_device_replies env in
      let effect = Paid req.requested_amount (Drained req.account_id start.accounts) in
      let laws = to_device_replies-laws env in
      let requested = amount.amount_minor in
      elim (Bool-cases (le64 acct.available 0)) [
        | inl empty ↦ rw empty (
            deny-Triple env now ctx k laws req.meta req.account_id key scope idem hash start effect
              true "transfer_to_device" acct (empty_account_response env now ctx req.meta acct)
              (λ e. cc e))
        | inr funded ↦ rw funded (
            Triple-bind
              (movement-Triple env now ctx k laws req.meta req.account_id key scope idem hash start
                effect true
                (to_device_movement req (covered acct.available requested) amount.currency
                  (device_reason acct.available requested))
                acct refl (λ a c. c.not_device req.device_id)
                (λ s t. (
                  amount,
                  given,
                  (
                    rw (← start_balance start true req.account_id acct s t) funded,
                    drain-Changes start true req.account_id acct s t requested,
                  ),
                )))
              λ p. Triple-bind (transfer_id-Triple effect) λ id.
                Triple-bind
                  (kept-Triple env now ctx k laws req.meta req.account_id key scope idem hash start
                    effect true (device_response env now ctx req.meta id requested acct p.0))
                  λ _.
                    Triple-bind
                      (clear-Triple env now ctx k laws req.meta req.account_id key scope idem hash
                        start effect true
                        (device_response env now ctx req.meta id requested acct p.0) named refl)
                      λ _. Triple-pure _ (λ s q. q))
      ]

  pub to_device_locked-Triple :
      (req : TransferToDeviceRequest) (amount : Money) (idem : String)
      → (req.account_id =ˢ "") ≡ false
      → req.requested_amount ≡ some amount
      → let E =
          Settled
            (to_device_replies env)
            now
            req.account_id
            (reply_key req.account_id "|to_device|" idem)
            start
            (Paid req.requested_amount (Drained req.account_id start.accounts))
            true in
        Triple (Working start true) E E (to_device_locked env now ctx req amount idem)
  unfolding to_device_locked
  to_device_locked-Triple req amount idem named given =
      let k = to_device_replies env in
      let effect = Paid req.requested_amount (Drained req.account_id start.accounts) in
      let laws = to_device_replies-laws env in
      Triple-bind
        (unlocked-Triple env now ctx k laws req.meta req.account_id _ "" idem "" start effect true
          "transfer_to_device")
        λ _.
          Triple-bind
            (replay-Triple env now ctx k laws req.meta req.account_id _ _ idem _ start effect true)
            λ _.
              Triple-bind
                (account-Triple env now ctx k laws req.meta req.account_id _ "" idem "" start effect
                  true amount.currency)
                λ acct. transfer_funds-Triple req amount _ _ idem _ acct named given
