-- ===== src/Ledger/Effect.antt =====
-- What an accepted request does to the balances.
use mathlib.Core.Path.{subst}
use open_rgs_go.Prelude.{ℕ, String, ◌≡◌, sym, Bool, false, Option, some, arith, ◌=ˢ◌, if◌then◌else◌}
use open_rgs_go.Prelude.Int64.{◌+64◌, ◌-64◌, lt64, le64}
use open_rgs_go.Prelude.Dict.{Dict, insert}
use open_rgs_go.Proto.{Money}
use open_rgs_go.Ledger.State.{Ledger, LedgerAccount}
use open_rgs_go.Ledger.Mutation.{money_in, money_out, apply_side}
use open_rgs_go.Ledger.Device.{covered}
use open_rgs_go.Ledger.Reconcile.{balance_in, balance_in-insert}
use open_rgs_go.Ledger.Contract.{Taken}

-- The account's balance is changed by `f`, and no other is.
abbrev pub Changes : String → (ℕ → ℕ) → Dict LedgerAccount → Dict LedgerAccount → Type 0
Changes account_id f start accounts =
    (a : String)
    → balance_in a accounts
      ≡ (if account_id =ˢ a then f (balance_in account_id start) else balance_in a start)

abbrev pub Credited : String → Dict LedgerAccount → ℕ → Dict LedgerAccount → Type 0
Credited account_id start amount = Changes account_id (λ b. b +64 amount) start

-- The balance covered the amount.
abbrev pub Debited : String → Dict LedgerAccount → ℕ → Dict LedgerAccount → Type 0
Debited account_id start amount accounts =
    (lt64 (balance_in account_id start) amount ≡ false)
    × Changes account_id (λ b. b -64 amount) start accounts

-- The balance was positive, and what it covered of the amount was moved.
abbrev pub Drained : String → Dict LedgerAccount → ℕ → Dict LedgerAccount → Type 0
Drained account_id start amount accounts =
    (le64 (balance_in account_id start) 0 ≡ false)
    × Changes account_id (λ b. b -64 covered b amount) start accounts

-- The effect at the amount of the request.
abbrev pub Paid : Option Money → (ℕ → Dict LedgerAccount → Type 0) → Dict LedgerAccount → Type 0
Paid amount effect accounts = (m : Money) × (amount ≡ some m) × effect m.amount_minor accounts

module _ {Db : Type 0} (start : Ledger Db) (held : Bool) (account_id : String)
    (acct : LedgerAccount) (s : Ledger Db) (t : Taken start held account_id acct s) where
  pub credit-Credited :
      (amount : ℕ)
      → Credited account_id start.accounts amount
          (insert account_id (apply_side money_in amount acct) s.accounts)
  unfolding apply_side
  credit-Credited amount a = ground (
    arith,
    balance_in-insert account_id a (apply_side money_in amount acct) s.accounts,
    t.current,
    t.working.same account_id,
    t.working.same a,
  )

  pub debit-Changes :
      (amount : ℕ)
      → Changes account_id
          (λ b. b -64 amount)
          start.accounts
          (insert account_id (apply_side money_out amount acct) s.accounts)
  unfolding apply_side
  debit-Changes amount a = ground (
    arith,
    balance_in-insert account_id a (apply_side money_out amount acct) s.accounts,
    t.current,
    t.working.same account_id,
    t.working.same a,
  )

  pub start_balance : acct.available ≡ balance_in account_id start.accounts
  start_balance = ground (arith, t.current, t.working.same account_id)

  pub drain-Changes :
      (amount : ℕ)
      → Changes account_id
          (λ b. b -64 covered b amount)
          start.accounts
          (insert account_id (apply_side money_out (covered acct.available amount) acct) s.accounts)
  drain-Changes amount =
      subst
        (λ n.
          Changes account_id (λ b. b -64 covered b amount) start.accounts
            (insert account_id (apply_side money_out (covered n amount) acct) s.accounts))
        (sym start_balance)
        (λ a. debit-Changes (covered (balance_in account_id start.accounts) amount) a)
