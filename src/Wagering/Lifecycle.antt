-- ===== src/Wagering/Lifecycle.antt =====
-- SettleWager and CancelWager without a database: a wager is closed once.
use open_rgs_go.Prelude.{
  ℕ, String, ◌≡◌, ◌≢◌, refl, ap, ◌∙◌, Bool, true, false, not, Option, none, some, arith, eq_iff,
}
use open_rgs_go.Prelude.Dict.{Dict, lookup, insert, lookup-insert}
use open_rgs_go.Prelude.Flow.{modify, return_if, ◌>>◌}
use open_rgs_go.Prelude.Flow.Triple.{
  Triple, Triple-bind, Triple-return_if, Triple-guard, Triple-modify, Answers, run-Answers,
}
use open_rgs_go.Proto.{RequestMeta, ResultCode, code_ok, code_denied, code_invalid, idempotency}
use open_rgs_go.Actor.{TokenActor}
use open_rgs_go.Wagering.State.{
  Wager, Wagering, WageringEnv, WagerResponse, Operation, place, settle, cancel, SettleWagerRequest,
  CancelWagerRequest,
}
use open_rgs_go.Wagering.Methods.{replies, response_meta}
use open_rgs_go.Wagering.Handlers.{
  reply_key, is_pending, refuse, replay_reply, settled, canceled, fail, close_wager, write_wager,
  conclude, settle_wager, cancel_wager,
}
use open_rgs_go.Wagering.Rules.{
  Holds, refuse-Triple, replay_reply-Triple, take_wager-Triple, conclude-Triple,
}

-- What closing the wager `wager_id` has done to the wagers when it answers.
pub data Closing (wager_id key : String) (closed : Wager → Wager) (wagers : Dict Wager)
    (given : Dict WagerResponse) (r : WagerResponse) (wagers' : Dict Wager) : Type 0 where
  not_closed :
      r.meta.result_code ≢ code_ok
      → wagers' ≡ wagers
      → Closing wager_id key closed wagers given r wagers'
  replayed :
      lookup key given ≡ some r
      → wagers' ≡ wagers
      → Closing wager_id key closed wagers given r wagers'
  closed_now :
      (w : Wager)
      → lookup wager_id wagers ≡ some w
      → is_pending w.status ≡ true
      → wagers' ≡ insert wager_id (closed w) wagers
      → Closing wager_id key closed wagers given r wagers'

replies_wagers :
    {Db : Type 0} (op : Operation) (d : Dict Wager) (s : Wagering Db)
    → replies op (record s { wagers = d }) ≡ replies op s
unfolding replies
replies_wagers place d s = refl
replies_wagers settle d s = refl
replies_wagers cancel d s = refl

pending_status : (w : Wager) → not (is_pending w.status) ≡ false → is_pending w.status ≡ true
pending_status w h = ground (arith, h)

module _ (env : WageringEnv) (now : ℕ) (ctx : Option TokenActor) (op : Operation)
    (meta : Option RequestMeta) (wager_id key : String) (closed : Wager → Wager)
    (wagers : Dict Wager) (given : Dict WagerResponse) where
  abbrev pub End : WagerResponse → Wagering env.Db → Type 0
  End r s = Closing wager_id key closed wagers given r s.wagers

  refused :
      (of : Option RequestMeta) (code : ResultCode) (reason : String) (s : Wagering env.Db)
      → code ≢ code_ok
      → Holds op wagers given s
      → End (fail env now ctx of code reason) s
  unfolding response_meta
  refused of code reason s bad p = not_closed bad p.kept

  -- The wager that was found pending is written back closed.
  write_wager-Triple :
      (w : Wager) (shared : Bool) {E : WagerResponse → Wagering env.Db → Type 0}
      → Triple
          (λ s. Holds op wagers given s × (shared ≡ true))
          E
          (λ _. Holds op (insert wager_id (closed w) wagers) given)
          (modify (write_wager shared wager_id (closed w)))
  unfolding write_wager
  write_wager-Triple w true = Triple-modify _ λ s p. record {
    off = p.0.off;
    kept = ap (insert wager_id (closed w)) p.0.kept;
    replied = replies_wagers op (insert wager_id (closed w) s.wagers) s ∙ p.0.replied;
  }
  write_wager-Triple w false = Triple-modify _ λ s p. absurd (cc p.1)

  pub close_wager-Triple :
      (action idem hash : String)
      → Triple
          (Holds op wagers given)
          End
          End
          (close_wager env now ctx op meta action key wager_id idem hash closed)
  unfolding close_wager
  close_wager-Triple action idem hash =
      Triple-bind
        (take_wager-Triple env now ctx op wagers given meta wager_id
          (λ s p. refused meta code_invalid "wager not found" s (λ e. cc e) p))
        λ taken.
          Triple-bind
            (Triple-return_if (not (is_pending taken.0.status)) _
              (λ s p e. refused meta code_invalid "wager is not pending" s (λ e. cc e) p.0))
            λ _. closing taken.0 taken.1
    where
      Pending : Wager → Bool → Wagering env.Db → Type 0
      Pending w shared s =
          (Holds op wagers given s × (lookup wager_id wagers ≡ some w) × (shared ≡ true))
          × (not (is_pending w.status) ≡ false)

      closing :
          (w : Wager) (shared : Bool)
          → Triple (Pending w shared) End End (
              modify (write_wager shared wager_id (closed w))
              >> conclude env now ctx op meta wager_id action key wager_id idem hash
                  (env.marshal_wager w)
                  (closed w))
      closing w shared = record {
        at = λ s p.
            (Triple-bind {P = λ s. Holds op wagers given s × (shared ≡ true)}
                (write_wager-Triple w shared)
                λ _.
                  conclude-Triple env now ctx op (insert wager_id (closed w) wagers) given meta
                    wager_id action key wager_id idem hash (env.marshal_wager w) (closed w)
                    (λ s' q. closed_now w p.0.1 (pending_status w p.1) q.kept)
                    (λ s' q. closed_now w p.0.1 (pending_status w p.1) q.kept)).at
              s (p.0.0, p.0.2);
      }

  -- The checks in front.
  guarded-Triple :
      (bad keyless : Bool) (invalid action idem hash : String) (refusal : Option String)
      → Triple (Holds op wagers given) End End (
          return_if bad (fail env now ctx meta code_invalid invalid)
          >> (return_if keyless (fail env now ctx meta code_invalid "idempotency_key is required")
              >> (refuse env now ctx meta wager_id action refusal
                  >> (replay_reply env now ctx op meta key wager_id idem hash
                      >> close_wager env now ctx op meta action key wager_id idem hash closed))))
  guarded-Triple bad keyless invalid action idem hash refusal =
      Triple-bind (Triple-guard bad _ (λ s p. refused meta code_invalid invalid s (λ e. cc e) p))
        λ _.
          Triple-bind
            (Triple-guard keyless _
              (λ s p. refused meta code_invalid "idempotency_key is required" s (λ e. cc e) p))
            λ _.
              Triple-bind
                (refuse-Triple env now ctx op wagers given meta wager_id action refusal
                  (λ s reason p. refused meta code_denied reason s (λ e. cc e) p))
                λ _.
                  Triple-bind
                    (replay_reply-Triple env now ctx op wagers given meta key wager_id idem hash
                      (λ s prev p e. replayed e p.kept))
                    λ _. close_wager-Triple action idem hash

module _ (env : WageringEnv) (now : ℕ) (ctx : Option TokenActor) (s : Wagering env.Db)
    (off : s.db ≡ none) where
  -- Without a database SettleWager always returns. It leaves the wagers as they were, and answers
  -- with what is not OK or with the reply that it has kept under the request's key; or it found the
  -- wager pending, and settles this wager with the request's payout and outcome and changes no other.
  pub settle_wager-Closing :
      (req : SettleWagerRequest)
      → Answers
          (λ r s'.
            Closing req.wager_id
              (reply_key settle req.wager_id (idempotency req.meta))
              (settled req (env.format_time now))
              s.wagers
              s.settle_by_idempotency
              r
              s'.wagers)
          (settle_wager env now ctx (some req) s)
  unfolding settle_wager replies
  settle_wager-Closing req =
      run-Answers _
        (guarded-Triple env now ctx settle req.meta req.wager_id _
          (settled req (env.format_time now)) s.wagers s.settle_by_idempotency _ _ _ "settle_wager"
          (idempotency req.meta) _ _)
        s (record { off = off; kept = refl; replied = refl })

  -- Without a database CancelWager always returns. It leaves the wagers as they were, and answers
  -- with what is not OK or with the reply that it has kept under the request's key; or it found the
  -- wager pending, and cancels this wager with the request's reason and changes no other.
  pub cancel_wager-Closing :
      (req : CancelWagerRequest)
      → Answers
          (λ r s'.
            Closing req.wager_id
              (reply_key cancel req.wager_id (idempotency req.meta))
              (canceled req (env.format_time now))
              s.wagers
              s.cancel_by_idempotency
              r
              s'.wagers)
          (cancel_wager env now ctx (some req) s)
  unfolding cancel_wager replies
  cancel_wager-Closing req =
      run-Answers _
        (guarded-Triple env now ctx cancel req.meta req.wager_id _
          (canceled req (env.format_time now)) s.wagers s.cancel_by_idempotency _ _ _ "cancel_wager"
          (idempotency req.meta) _ _)
        s (record { off = off; kept = refl; replied = refl })

closed_stays :
    {wager_id key : String} {closed : Wager → Wager} {wagers : Dict Wager}
    {given : Dict WagerResponse} {r : WagerResponse} {wagers' : Dict Wager} (id : String)
    (w : Wager)
    → lookup id wagers ≡ some w
    → is_pending w.status ≡ false
    → Closing wager_id key closed wagers given r wagers'
    → lookup id wagers' ≡ some w
closed_stays id w e done (not_closed _ same) = ap (lookup id) same ∙ e
closed_stays id w e done (replayed _ same) = ap (lookup id) same ∙ e
closed_stays {wager_id} {closed} {wagers} id w e done (closed_now v there pending same) =
    ap (lookup id) same
    ∙ ground (
      arith,
      lookup-insert wager_id id (closed v) wagers,
      eq_iff wager_id id,
      e,
      done,
      there,
      pending,
    )

-- Without a database, a wager that is not pending (settled or canceled) stays exactly as it is when
-- any request to SettleWager or any request to CancelWager is answered.
pub closed_wager-final :
    (env : WageringEnv) (now later : ℕ) (ctx other : Option TokenActor) (s : Wagering env.Db)
    (id : String) (w : Wager) (first : SettleWagerRequest) (second : CancelWagerRequest)
    → s.db ≡ none
    → lookup id s.wagers ≡ some w
    → is_pending w.status ≡ false
    → (lookup id (settle_wager env now ctx (some first) s).1.wagers ≡ some w)
      × (lookup id (cancel_wager env later other (some second) s).1.wagers ≡ some w)
closed_wager-final env now later ctx other s id w first second off e done = (
  closed_stays id w e done (settle_wager-Closing env now ctx s off first).2,
  closed_stays id w e done (cancel_wager-Closing env later other s off second).2,
)
