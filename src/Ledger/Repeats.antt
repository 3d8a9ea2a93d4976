-- ===== src/Ledger/Repeats.antt =====
-- A repeated request: the handlers answer it from the map of replies.
use open_rgs_go.Prelude.{
  ℕ, String, ◌≡◌, refl, sym, ap, ◌∙◌, Bool, true, false, Option, none, some, arith, ◌=ˢ◌, ltb,
  if◌then◌else◌, ◌||◌,
}
use open_rgs_go.Prelude.Dict.{lookup, lookup_or}
use open_rgs_go.Prelude.Flow.{ret, next, Body, run, return_if, ◌>>=◌, ◌>>◌}
use open_rgs_go.Proto.{RequestMeta, Money, idempotency}
use open_rgs_go.Actor.{TokenActor}
use open_rgs_go.Ledger.State.{
  Ledger, DepositRequest, WithdrawRequest, TransferToDeviceRequest, DepositResponse,
  TransferToDeviceResponse,
}
use open_rgs_go.Ledger.Env.{LedgerEnv}
use open_rgs_go.Ledger.Books.{use_in_memory}
use open_rgs_go.Ledger.Methods.{eft_locked}
use open_rgs_go.Ledger.Steps.{
  Replies, admit, check_actor, refuse, take_amount, check_unlocked, refuse_locked, replay_reply,
  replay_cached, cached_reply, with_lock, unlock_after, deposit_replies, withdraw_replies,
  to_account_replies, to_device_replies,
}
use open_rgs_go.Ledger.Handlers.{
  reply_key, deposit, deposit_locked, withdraw, withdraw_locked, transfer_to_account,
  to_account_locked,
}
use open_rgs_go.Ledger.Device.{transfer_to_device, to_device_locked}
use open_rgs_go.Ledger.Accepts.{
  deposit_replies-laws, withdraw_replies-laws, to_account_replies-laws, to_device_replies-laws,
}
use open_rgs_go.Ledger.Rules.{Admitted}
use open_rgs_go.Ledger.Contract.{ReplyLaws, InOrder}

module _ (env : LedgerEnv) (now : ℕ) (ctx : Option TokenActor) {R : Type 0} (k : Replies env.Db R)
    (meta : Option RequestMeta) (account_id : String) (s : Ledger env.Db) where
  -- The checks in front of the lock pass again.
  admit-next :
      (amount : Option Money) (action invalid : String) (m : Money)
      → Admitted env ctx meta account_id amount m
      → admit env now ctx k meta account_id amount action invalid s ≡ (next m, s)
  unfolding admit check_actor refuse take_amount
  admit-next amount action invalid m a =
      rw (a.authorized, a.present, take_amount, a.valid, a.keyed) refl

  check_unlocked-next :
      (action : String)
      → s.db ≡ none
      → ltb now (lookup_or 0 account_id s.eft_fraud_locked_until) ≡ false
      → check_unlocked env now ctx k meta account_id action s ≡ (next tt, s)
  unfolding check_unlocked eft_locked refuse_locked refuse
  check_unlocked-next action off free = rw (off, free) refl

  in_memory : s.db ≡ none → use_in_memory s ≡ true
  unfolding use_in_memory
  in_memory off = ground (arith, off)

  replay_reply-ret :
      (key scope idem hash : String) (r : R)
      → s.db ≡ none
      → lookup key (k.cached s) ≡ some r
      → replay_reply env now ctx k meta key scope idem hash s ≡ (ret r, s)
  unfolding replay_reply cached_reply replay_cached
  replay_reply-ret key scope idem hash r off kept = rw (in_memory off, kept) refl

-- A body that, under the mutex, returns and leaves the state as it is.
module _ {Db : Type 0} (s : Ledger Db) (order : InOrder false s) where
  abbrev pub held : Ledger Db
  held = record s { mu = true }

  unlocked_again : record held { mu = false } ≡ s
  unlocked_again = sym (λ i. record s { mu = order.mutex i })

  pub with_lock-ret :
      {R : Type 0} (r : R) (m : Body (Ledger Db) R R)
      → m held ≡ (ret r, held)
      → with_lock m s ≡ (ret r, s)
  unfolding with_lock unlock_after
  with_lock-ret r m e =
      let unlocks : with_lock m s ≡ (ret r, record held { mu = false }) =
        rw (order.mutex, e, if◌then◌else◌) refl in
      unlocks ∙ ap (λ t. (ret r, t)) unlocked_again

-- The whole of a handler that has replied to the same request before.
module _ (env : LedgerEnv) (now : ℕ) (ctx : Option TokenActor) {R : Type 0} (k : Replies env.Db R)
    (laws : ReplyLaws k) (meta : Option RequestMeta) (account_id : String) (s : Ledger env.Db)
    (order : InOrder false s) where
  opening-ret :
      (action key scope idem hash : String) (r : R) (rest : Body (Ledger env.Db) R R)
      → ltb now (lookup_or 0 account_id s.eft_fraud_locked_until) ≡ false
      → lookup key (k.cached s) ≡ some r
      → (check_unlocked env now ctx k meta account_id action
            >> (replay_reply env now ctx k meta key scope idem hash >> rest))
          (held s order)
        ≡ (ret r, (held s order))
  opening-ret action key scope idem hash r rest free kept =
      rw
        (
          check_unlocked-next env now ctx k meta account_id (held s order) action order.no_db free,
          replay_reply-ret env now ctx k meta account_id (held s order) key scope idem hash r
              order.no_db (ap (lookup key) (laws.cached_mu true s) ∙ kept),
        )
        refl

  pub guarded-ret :
      (nameless : Bool) (bad r : R) (amount : Option Money) (action invalid : String) (m : Money)
      (locked : Money → Body (Ledger env.Db) R R)
      → nameless ≡ false
      → Admitted env ctx meta account_id amount m
      → locked m (held s order) ≡ (ret r, (held s order))
      → run
          (return_if nameless bad
            >> (admit env now ctx k meta account_id amount action invalid >>= λ m.
                with_lock (locked m)))
          s
        ≡ (some r, s)
  guarded-ret nameless bad r amount action invalid m locked named admitted e =
      rw
        (
          named,
          if◌then◌else◌,
          admit-next env now ctx k meta account_id s amount action invalid m admitted,
          with_lock-ret s order r (locked m) e,
        )
        refl

module _ (env : LedgerEnv) (now : ℕ) (ctx : Option TokenActor) (s : Ledger env.Db)
    (order : InOrder false s) where
  pub deposit-again :
      (req : DepositRequest) (m : Money) (r : DepositResponse)
      → (req.account_id =ˢ "") ≡ false
      → Admitted env ctx req.meta req.account_id req.amount m
      → ltb now (lookup_or 0 req.account_id s.eft_fraud_locked_until) ≡ false
      → lookup
          (reply_key req.account_id "|deposit|" (idempotency req.meta))
          s.deposit_by_idempotency
        ≡ some r
      → deposit env now ctx (some req) s ≡ (some r, s)
  unfolding deposit deposit_locked
  deposit-again req m r named admitted free kept =
      guarded-ret env now ctx (deposit_replies env) (deposit_replies-laws env) req.meta
        req.account_id s order _ _ r req.amount _ _ m
        (λ m. deposit_locked env now ctx req m (idempotency req.meta)) named admitted
        (opening-ret env now ctx (deposit_replies env) (deposit_replies-laws env) req.meta
          req.account_id s order "deposit" _ _ _ _ r _ free kept)

  pub withdraw-again :
      (req : WithdrawRequest) (m : Money) (r : DepositResponse)
      → (req.account_id =ˢ "") ≡ false
      → Admitted env ctx req.meta req.account_id req.amount m
      → ltb now (lookup_or 0 req.account_id s.eft_fraud_locked_until) ≡ false
      → lookup
          (reply_key req.account_id "|withdraw|" (idempotency req.meta))
          s.withdraw_by_idempotency
        ≡ some r
      → withdraw env now ctx (some req) s ≡ (some r, s)
  unfolding withdraw withdraw_locked
  withdraw-again req m r named admitted free kept =
      guarded-ret env now ctx (withdraw_replies env) (withdraw_replies-laws env) req.meta
        req.account_id s order _ _ r req.amount _ _ m
        (λ m. withdraw_locked env now ctx req m (idempotency req.meta)) named admitted
        (opening-ret env now ctx (withdraw_replies env) (withdraw_replies-laws env) req.meta
          req.account_id s order "withdraw" _ _ _ _ r _ free kept)

  pub transfer_to_account-again :
      (req : WithdrawRequest) (m : Money) (r : DepositResponse)
      → (req.account_id =ˢ "") ≡ false
      → Admitted env ctx req.meta req.account_id req.amount m
      → ltb now (lookup_or 0 req.account_id s.eft_fraud_locked_until) ≡ false
      → lookup
          (reply_key req.account_id "|to_account|" (idempotency req.meta))
          s.to_account_by_idempotency
        ≡ some r
      → transfer_to_account env now ctx (some req) s ≡ (some r, s)
  unfolding transfer_to_account to_account_locked
  transfer_to_account-again req m r named admitted free kept =
      guarded-ret env now ctx (to_account_replies env) (to_account_replies-laws env) req.meta
        req.account_id s order _ _ r req.amount _ _ m
        (λ m. to_account_locked env now ctx req m (idempotency req.meta)) named admitted
        (opening-ret env now ctx (to_account_replies env) (to_account_replies-laws env) req.meta
          req.account_id s order "transfer_to_account" _ _ _ _ r _ free kept)

  pub transfer_to_device-again :
      (req : TransferToDeviceRequest) (m : Money) (r : TransferToDeviceResponse)
      → (req.account_id =ˢ "" || req.device_id =ˢ "") ≡ false
      → Admitted env ctx req.meta req.account_id req.requested_amount m
      → ltb now (lookup_or 0 req.account_id s.eft_fraud_locked_until) ≡ false
      → lookup
          (reply_key req.account_id "|to_device|" (idempotency req.meta))
          s.to_device_by_idempotency
        ≡ some r
      → transfer_to_device env now ctx (some req) s ≡ (some r, s)
  unfolding transfer_to_device to_device_locked
  transfer_to_device-again req m r named admitted free kept =
      guarded-ret env now ctx (to_device_replies env) (to_device_replies-laws env) req.meta
        req.account_id s order _ _ r req.requested_amount _ _ m
        (λ m. to_device_locked env now ctx req m (idempotency req.meta)) named admitted
        (opening-ret env now ctx (to_device_replies env) (to_device_replies-laws env) req.meta
          req.account_id s order "transfer_to_device" _ _ _ _ r _ free kept)
