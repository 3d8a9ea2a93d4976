-- ===== src/Ledger/Report.antt =====
-- What GetBalance reports on a service without a database.
use open_rgs_go.Prelude.{
  ℕ, String, ◌≡◌, refl, ap, ◌∙◌, Bool, false, Option, none, some, arith, ◌=ˢ◌, if◌then◌else◌,
}
use open_rgs_go.Actor.{TokenActor, resolve_actor}
use open_rgs_go.Ledger.State.{Ledger, GetBalanceRequest}
use open_rgs_go.Ledger.Env.{LedgerEnv}
use open_rgs_go.Ledger.Books.{account_balance}
use open_rgs_go.Ledger.Methods.{authorize_actor}
use open_rgs_go.Ledger.Reconcile.{IsCustomer, balance_in, net_books}
use open_rgs_go.Ledger.Reachable.{Reachable, Reachable-InOrder, balance_in-net_books}
use open_rgs_go.Ledger.Repeats.{with_lock-ret}
use open_rgs_go.Ledger.Balance.{
  balance_response, balance_or_zero, read_balance, report_balance, check_reader, get_balance,
}

module _ (env : LedgerEnv) (now : ℕ) (ctx : Option TokenActor) where
  balance_or_zero-balance_in :
      (account_id : String) (s : Ledger env.Db)
      → (balance_or_zero env now ctx (account_balance account_id s)).0
        ≡ balance_in account_id s.accounts
  unfolding balance_or_zero account_balance balance_in
  balance_or_zero-balance_in account_id s = ground arith

  read_balance-balance_in :
      (account_id : String) (s : Ledger env.Db)
      → s.db ≡ none
      → (pending : ℕ) × (currency : String) × (read_balance env now ctx account_id s
          ≡ some (balance_in account_id s.accounts, pending, currency))
  unfolding read_balance
  read_balance-balance_in account_id s off =
      let b = balance_or_zero env now ctx (account_balance account_id s) in
      (b.1, b.2, rw off (ap (λ n. some (n, b.1, b.2)) (balance_or_zero-balance_in account_id s)))

  -- On a reachable state without a database GetBalance answers a caller who may use a customer's
  -- account with OK and the net of the postings on the account as its available balance, modulo
  -- 2 ^ 64, and changes nothing of the state.
  pub get_balance-net_books :
      (s : Ledger env.Db) (req : GetBalanceRequest)
      → Reachable env s
      → IsCustomer req.account_id
      → (req.account_id =ˢ "") ≡ false
      → authorize_actor req.account_id (resolve_actor env.normalize ctx req.meta) ≡ none
      → (pending : ℕ) × (currency : String) × (get_balance env now ctx (some req) s ≡ (
        some (
            balance_response env now ctx req.meta req.account_id
              (net_books req.account_id s.postings_by_tx, pending, currency)),
        s,
      ))
  unfolding get_balance check_reader report_balance
  get_balance-net_books s req reachable customer named authorized =
      let order = Reachable-InOrder env s reachable in
      let (pending, currency, e) =
        read_balance-balance_in req.account_id (record s { mu = Bool.true }) order.no_db in
      let net = balance_in-net_books env s req.account_id reachable customer in
      let report =
        ap (report_balance env now ctx req) (e ∙ ap (λ n. some (n, pending, currency)) net) in
      (
        pending,
        currency,
        rw
            (
              named,
              if◌then◌else◌,
              authorized,
              with_lock-ret s order _
                  (λ t.
                    report_balance env now ctx req (read_balance env now ctx req.account_id t) t)
                  (ap (λ f. f (record s { mu = Bool.true })) report),
            )
            refl,
      )
