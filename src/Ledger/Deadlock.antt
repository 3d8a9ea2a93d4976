-- ===== src/Ledger/Deadlock.antt =====
-- The mutex of LedgerService: Deposit on a service with a database. Storing its reply waits for the
-- mutex that the handler itself holds.
use open_rgs_go.Prelude.{ℕ, String, ◌≡◌, ◌≢◌, true, Option, none, some}
use open_rgs_go.Prelude.Dict.{lookup}
use open_rgs_go.Prelude.Flow.{Flow}
use open_rgs_go.Prelude.Flow.Triple.{Triple-weaken}
use open_rgs_go.Prelude.Flow.Partial.{Partial, Partial-of_Triple}
use open_rgs_go.Proto.{RequestMeta, ResultCode, code_ok, code_denied, code_invalid, idempotency}
use open_rgs_go.Actor.{TokenActor}
use open_rgs_go.Ledger.State.{Ledger, DepositRequest, DepositResponse}
use open_rgs_go.Ledger.Env.{LedgerEnv}
use open_rgs_go.Ledger.Steps.{Replies, fail, deposit_replies, admit}
use open_rgs_go.Ledger.Handlers.{reply_key}
use open_rgs_go.Ledger.Rules.{admit-Triple}
use open_rgs_go.Ledger.Accepts.{deposit_replies-laws}
use open_rgs_go.Ledger.Connected.{Fails, fail-Fails}

module _ (env : LedgerEnv) (now : ℕ) (ctx : Option TokenActor) (req : DepositRequest)
    (d : env.Db) where
  abbrev k : Replies env.Db DepositResponse
  k = deposit_replies env

  abbrev idem : String
  idem = idempotency req.meta

  abbrev key : String
  key = reply_key req.account_id "|deposit|" idem

  -- With the database in the state `d`, and no reply kept in memory.
  record IsFresh (s : Ledger env.Db) : Type 0 where
    online : s.db ≡ some d
    unkept : lookup key s.deposit_by_idempotency ≡ none

  abbrev Bad : DepositResponse → Type 0
  Bad = Fails env now ctx k (deposit_replies-laws env)

  bad_fail :
      (meta : Option RequestMeta) (code : ResultCode) (reason : String)
      → code ≢ code_ok
      → Bad (fail env now ctx k meta code reason)
  bad_fail = fail-Fails env now ctx k (deposit_replies-laws env)

  admitted :
      (invalid : String)
      → Partial IsFresh Bad
          (λ _. IsFresh)
          (admit env now ctx k req.meta req.account_id req.amount "deposit" invalid)
  admitted invalid = Partial-of_Triple (
      Triple-weaken (λ s p. p) (λ _ s p. p.0)
        (admit-Triple env now ctx k req.meta req.account_id "deposit" req.amount invalid
          (λ s reason p. bad_fail req.meta code_invalid reason (λ e. cc e))
          (λ s reason p. bad_fail req.meta code_denied reason (λ e. cc e))))

  abbrev Held : Ledger env.Db → Type 0
  Held s = IsFresh s × (s.mu ≡ true)
