-- ===== src/Ledger/Accepts.antt =====
-- The four mutating handlers, without a database, keep the contract of Ledger/Contract.
use open_rgs_go.Prelude.{
  ℕ, String, ◌≡◌, refl, true, false, inl, inr, Option, some, Bool-cases, ◌=ˢ◌,
}
use open_rgs_go.Prelude.Int64.{lt64}
use open_rgs_go.Prelude.Flow.Triple.{Triple}
use open_rgs_go.Proto.{Money}
use open_rgs_go.Actor.{TokenActor}
use open_rgs_go.Ledger.State.{
  Ledger, LedgerAccount, DepositRequest, WithdrawRequest, TransferToAccountRequest,
}
use open_rgs_go.Ledger.Env.{LedgerEnv}
use open_rgs_go.Ledger.Steps.{
  deposit_replies, withdraw_replies, to_account_replies, to_device_replies,
}
use open_rgs_go.Ledger.Handlers.{
  reply_key, deposit_locked, deposit_movement, ok_response, to_account_locked, to_account_movement,
  withdraw_funds, withdraw_locked, withdraw_movement, overdrawn_response,
}
use open_rgs_go.Ledger.Methods.{response_meta}
use open_rgs_go.Ledger.Contract.{ReplyLaws, Working, Settled, Taken}
use open_rgs_go.Ledger.Effect.{
  Credited, Debited, Paid, credit-Credited, debit-Changes, start_balance,
}
use open_rgs_go.Ledger.Settles.{deny-Triple, accept-Triple, opening-Triple}

module _ (env : LedgerEnv) where
  pub deposit_replies-laws : ReplyLaws (deposit_replies env)
  deposit_replies-laws = record {
    code_of_meta = λ m. refl;
    cached_put = λ d s. refl;
    cached_mu = λ b s. refl;
    cached_failures = λ f l s. refl;
    cached_same = λ start s same. same.0;
    put_db = λ d s. refl;
    put_mu = λ d s. refl;
    put_accounts = λ d s. refl;
    put_postings = λ d s. refl;
    put_next = λ d s. refl;
  }

  pub withdraw_replies-laws : ReplyLaws (withdraw_replies env)
  withdraw_replies-laws = record {
    code_of_meta = λ m. refl;
    cached_put = λ d s. refl;
    cached_mu = λ b s. refl;
    cached_failures = λ f l s. refl;
    cached_same = λ start s same. same.1;
    put_db = λ d s. refl;
    put_mu = λ d s. refl;
    put_accounts = λ d s. refl;
    put_postings = λ d s. refl;
    put_next = λ d s. refl;
  }

  pub to_account_replies-laws : ReplyLaws (to_account_replies env)
  to_account_replies-laws = record {
    code_of_meta = λ m. refl;
    cached_put = λ d s. refl;
    cached_mu = λ b s. refl;
    cached_failures = λ f l s. refl;
    cached_same = λ start s same. same.2;
    put_db = λ d s. refl;
    put_mu = λ d s. refl;
    put_accounts = λ d s. refl;
    put_postings = λ d s. refl;
    put_next = λ d s. refl;
  }

  pub to_device_replies-laws : ReplyLaws (to_device_replies env)
  to_device_replies-laws = record {
    code_of_meta = λ m. refl;
    cached_put = λ d s. refl;
    cached_mu = λ b s. refl;
    cached_failures = λ f l s. refl;
    cached_same = λ start s same. same.3;
    put_db = λ d s. refl;
    put_mu = λ d s. refl;
    put_accounts = λ d s. refl;
    put_postings = λ d s. refl;
    put_next = λ d s. refl;
  }

module _ (env : LedgerEnv) (now : ℕ) (ctx : Option TokenActor) (start : Ledger env.Db) where
  pub deposit_locked-Triple :
      (req : DepositRequest) (amount : Money) (idem : String)
      → (req.account_id =ˢ "") ≡ false
      → req.amount ≡ some amount
      → let E =
          Settled
            (deposit_replies env)
            now
            req.account_id
            (reply_key req.account_id "|deposit|" idem)
            start
            (Paid req.amount (Credited req.account_id start.accounts))
            true in
        Triple (Working start true) E E (deposit_locked env now ctx req amount idem)
  unfolding deposit_locked ok_response response_meta
  deposit_locked-Triple req amount idem named given =
      let k = deposit_replies env in
      let effect = Paid req.amount (Credited req.account_id start.accounts) in
      let laws = deposit_replies-laws env in
      opening-Triple env now ctx k laws req.meta req.account_id _ _ idem _ start effect true
        "deposit" _ _ _
        λ acct.
          accept-Triple env now ctx k laws req.meta req.account_id _ _ idem _ start effect true
            (deposit_movement req amount) acct (ok_response env now ctx req.meta) refl
            (λ a c. c.not_liability)
            (λ s t. (
              amount,
              given,
              credit-Credited start true req.account_id acct s t amount.amount_minor,
            ))
            named (λ p. refl)

  pub to_account_locked-Triple :
      (req : TransferToAccountRequest) (amount : Money) (idem : String)
      → (req.account_id =ˢ "") ≡ false
      → req.amount ≡ some amount
      → let E =
          Settled
            (to_account_replies env)
            now
            req.account_id
            (reply_key req.account_id "|to_account|" idem)
            start
            (Paid req.amount (Credited req.account_id start.accounts))
            true in
        Triple (Working start true) E E (to_account_locked env now ctx req amount idem)
  unfolding to_account_locked ok_response response_meta
  to_account_locked-Triple req amount idem named given =
      let k = to_account_replies env in
      let effect = Paid req.amount (Credited req.account_id start.accounts) in
      let laws = to_account_replies-laws env in
      opening-Triple env now ctx k laws req.meta req.account_id _ _ idem _ start effect true
        "transfer_to_account" _ _ _
        λ acct.
          accept-Triple env now ctx k laws req.meta req.account_id _ _ idem _ start effect true
            (to_account_movement req amount) acct (ok_response env now ctx req.meta) refl
            (λ a c. c.not_escrow)
            (λ s t. (
              amount,
              given,
              credit-Credited start true req.account_id acct s t amount.amount_minor,
            ))
            named (λ p. refl)

  withdraw_funds-Triple :
      (req : WithdrawRequest) (amount : Money) (key scope idem hash : String) (acct : LedgerAccount)
      → (req.account_id =ˢ "") ≡ false
      → req.amount ≡ some amount
      → let E =
          Settled
            (withdraw_replies env)
            now
            req.account_id
            key
            start
            (Paid req.amount (Debited req.account_id start.accounts))
            true in
        Triple
          (Taken start true req.account_id acct)
          E
          E
          (withdraw_funds env now ctx req amount key scope idem hash acct)
  unfolding withdraw_funds ok_response response_meta
  withdraw_funds-Triple req amount key scope idem hash acct named given =
      let k = withdraw_replies env in
      let effect = Paid req.amount (Debited req.account_id start.accounts) in
      let laws = withdraw_replies-laws env in
      elim (Bool-cases (lt64 acct.available amount.amount_minor)) [
        | inl short ↦ rw short (
            deny-Triple env now ctx k laws req.meta req.account_id key scope idem hash start effect
              true "withdraw" acct (overdrawn_response env now ctx req.meta acct) (λ e. cc e))
        | inr enough ↦ rw enough (
            accept-Triple env now ctx k laws req.meta req.account_id key scope idem hash start
              effect true (withdraw_movement req amount) acct (ok_response env now ctx req.meta)
              refl (λ a c. c.not_liability)
              (λ s t. (
                amount,
                given,
                (
                  rw (← start_balance start true req.account_id acct s t) enough,
                  debit-Changes start true req.account_id acct s t amount.amount_minor,
                ),
              ))
              named (λ p. refl))
      ]

  pub withdraw_locked-Triple :
      (req : WithdrawRequest) (amount : Money) (idem : String)
      → (req.account_id =ˢ "") ≡ false
      → req.amount ≡ some amount
      → let E =
          Settled
            (withdraw_replies env)
            now
            req.account_id
            (reply_key req.account_id "|withdraw|" idem)
            start
            (Paid req.amount (Debited req.account_id start.accounts))
            true in
        Triple (Working start true) E E (withdraw_locked env now ctx req amount idem)
  unfolding withdraw_locked
  withdraw_locked-Triple req amount idem named given =
      let k = withdraw_replies env in
      let effect = Paid req.amount (Debited req.account_id start.accounts) in
      opening-Triple env now ctx k (withdraw_replies-laws env) req.meta req.account_id _ _ idem _
        start effect true "withdraw" _ _ _
        λ acct. withdraw_funds-Triple req amount _ _ idem _ acct named given
