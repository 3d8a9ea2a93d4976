-- ===== src/Wagering/Handlers.antt =====
-- PlaceWager, SettleWager and CancelWager of wagering_grpc.go. The statements that the three
-- handlers share are written once, as functions of the operation.
use Prim.Native.String.{◌++◌ as ◌+ˢ◌}
use open_rgs_go.Prelude.{
  ℕ, String, Bool, true, false, not, ◌||◌, Option, none, some, [], ◌∷◌, ◌=ˢ◌, if◌then◌else◌,
}
use open_rgs_go.Prelude.Dict.{insert}
use open_rgs_go.Prelude.Decimal.{format_int}
use open_rgs_go.Prelude.Flow.{
  Body, ret, next, pure, return, call, modify, return_if, run, ◌>>=◌, ◌>>◌,
}
use open_rgs_go.Proto.{
  RequestMeta, ResultCode, code_ok, code_denied, code_invalid, code_error, Money, invalid_amount,
  idempotency,
}
use open_rgs_go.Actor.{TokenActor, resolve_actor}
use open_rgs_go.Audit.{success, denied}
use open_rgs_go.Ledger.Env.{failed, no_rows, row}
use open_rgs_go.Ledger.Persist.{Loaded, load_failed, mismatch, not_found, found}
use open_rgs_go.Wagering.State.{
  Wager, WagerStatus, status_unspecified, status_pending, status_settled, status_canceled,
  PlaceWagerRequest, SettleWagerRequest, CancelWagerRequest, WagerResponse, Operation, place,
  settle, cancel, operation_name, Wagering, WageringEnv,
}
use open_rgs_go.Wagering.Methods.{
  authorize_place, authorize_settlement, next_wager_id_locked, cached_reply, cache_reply,
  mirror_wager, mirrored, response_meta, append_audit, hash_wagering_request, persist_wager,
  load_idempotency_response, persist_idempotency_response,
}

unfoldable pub is_pending : WagerStatus → Bool
is_pending status_pending = true
is_pending status_unspecified = false
is_pending status_settled = false
is_pending status_canceled = false

-- GetCurrency and GetAmountMinor, which answer for a nil message too.
abbrev amount_text : Option Money → String
amount_text none = format_int 0
amount_text (some m) = format_int m.amount_minor

abbrev currency_of : Option Money → String
currency_of none = ""
currency_of (some m) = m.currency

-- The key of an operation's map of replies; `scope` is the player's id or the wager's.
unfoldable pub reply_key : Operation → String → String → String
reply_key op scope idem = scope +ˢ ("|" +ˢ (operation_name op +ˢ ("|" +ˢ idem)))

abbrev pub settled : SettleWagerRequest → String → Wager → Wager
settled req at w = record w {
  status = status_settled;
  payout = req.payout;
  outcome_ref = req.outcome_ref;
  settled_at = at;
}

abbrev pub canceled : CancelWagerRequest → String → Wager → Wager
canceled req at w = record w {
  status = status_canceled;
  cancel_reason = req.reason;
  canceled_at = at;
}

-- A write through the pointer to a wager: it reaches the map where the pointer was taken from it.
unfoldable pub write_wager : Bool → String → Wager → {Db : Type 0} → Wagering Db → Wagering Db
write_wager shared wager_id w s =
    if shared then record s { wagers = insert wager_id w s.wagers } else s

module _ (env : WageringEnv) (now : ℕ) (ctx : Option TokenActor) where
  abbrev pub fail : Option RequestMeta → ResultCode → String → WagerResponse
  fail meta code reason = record { meta = response_meta env now meta code reason; wager = none }

  -- A refusal is audited and answered.
  unfoldable pub refuse :
      Option RequestMeta
      → String
      → String
      → Option String
      → Body (Wagering env.Db) WagerResponse (Unit {0})
  refuse meta object_id action none s = (next tt, s)
  refuse meta object_id action (some reason) s = (
    ret (fail meta code_denied reason),
    (append_audit env now meta object_id action "{}" "{}" denied reason s).1,
  )

  unfoldable pub replay_loaded :
      Operation
      → Option RequestMeta
      → String
      → Loaded WagerResponse
      → Body (Wagering env.Db) WagerResponse (Unit {0})
  unfolding cache_reply mirror_wager
  replay_loaded op meta key not_found s = (next tt, s)
  replay_loaded op meta key mismatch s =
      (ret (fail meta code_invalid "idempotency_key reused with different request"), s)
  replay_loaded op meta key load_failed s =
      (ret (fail meta code_error "persistence unavailable"), s)
  replay_loaded op meta key (found r) s = (
    ret r,
    elim r.wager [
      | none ↦ cache_reply op key r s
      | some w ↦ mirror_wager w (cache_reply op key r s)
    ],
  )

  unfoldable pub replay_cached :
      Operation
      → Option RequestMeta
      → String
      → String
      → String
      → String
      → Option WagerResponse
      → Body (Wagering env.Db) WagerResponse (Unit {0})
  unfolding replay_loaded
  replay_cached op meta key scope idem request_hash (some prev) s = (ret prev, s)
  replay_cached op meta key scope idem request_hash none s =
      replay_loaded op meta key (load_idempotency_response env now op scope idem request_hash s) s

  -- The reply that was given to the key before, from the cache or from the database.
  unfoldable pub replay_reply :
      Operation
      → Option RequestMeta
      → String
      → String
      → String
      → String
      → Body (Wagering env.Db) WagerResponse (Unit {0})
  unfolding cached_reply replay_cached
  replay_reply op meta key scope idem request_hash s =
      replay_cached op meta key scope idem request_hash (cached_reply op key s) s

  -- The wager from the database; the map gets a clone of it.
  unfoldable pub fetch_wager :
      Option RequestMeta → String → Body (Wagering env.Db) WagerResponse (Wager × Bool)
  unfolding mirror_wager
  fetch_wager meta wager_id s = elim s.db [
    | none ↦ (ret (fail meta code_invalid "wager not found"), s)
    | some d ↦ elim (env.query_wager d wager_id) [
      | failed ↦ (ret (fail meta code_error "persistence unavailable"), s)
      | no_rows ↦ (ret (fail meta code_invalid "wager not found"), s)
      | row w ↦ (next (w, false), mirror_wager w s)
    ]
  ]

  unfoldable pub take_mirrored :
      Option RequestMeta
      → String
      → Option Wager
      → Body (Wagering env.Db) WagerResponse (Wager × Bool)
  unfolding fetch_wager
  take_mirrored meta wager_id (some w) s = (next (w, true), s)
  take_mirrored meta wager_id none s = fetch_wager meta wager_id s

  -- The wager, and whether the pointer to it is the map's.
  unfoldable pub take_wager :
      Option RequestMeta → String → Body (Wagering env.Db) WagerResponse (Wager × Bool)
  unfolding mirrored take_mirrored
  take_wager meta wager_id s = take_mirrored meta wager_id (mirrored wager_id s) s

  abbrev pub ok_response : Option RequestMeta → Wager → WagerResponse
  ok_response meta w = record { meta = response_meta env now meta code_ok ""; wager = some w }

  -- From the reply to the end of a handler.
  unfoldable pub conclude :
      Operation
      → Option RequestMeta
      → String
      → String
      → String
      → String
      → String
      → String
      → String
      → Wager
      → Body (Wagering env.Db) WagerResponse WagerResponse
  unfolding cache_reply persist_wager persist_idempotency_response append_audit
  conclude op meta object_id action key scope idem request_hash before w = do
    let resp = ok_response meta w
    modify (cache_reply op key resp)
    stored ← call (persist_wager env now w)
    return_if (not stored) (fail meta code_error "persistence unavailable")
    kept ← call (persist_idempotency_response env now op scope idem request_hash resp)
    return_if (not kept) (fail meta code_error "persistence unavailable")
    audited ←
        call (append_audit env now meta object_id action before (env.marshal_wager w) success "")
    return_if (not audited) (fail meta code_error "audit unavailable")
    pure resp

  unfoldable pub place_wager_body :
      ℕ → PlaceWagerRequest → Body (Wagering env.Db) WagerResponse WagerResponse
  unfolding authorize_place refuse hash_wagering_request replay_reply next_wager_id_locked
      mirror_wager conclude reply_key
  place_wager_body wall req = do
    return_if (req.player_id =ˢ "" || req.game_id =ˢ "" || invalid_amount req.stake)
        (fail req.meta code_invalid "player_id, game_id, and valid stake are required")
    return_if (idempotency req.meta =ˢ "")
        (fail req.meta code_invalid "idempotency_key is required")
    refuse req.meta "" "place_wager"
        (authorize_place req.player_id (resolve_actor env.normalize ctx req.meta))
    let idem = idempotency req.meta
    let key = reply_key place req.player_id idem
    let hash =
        hash_wagering_request env now (
          "place"
          ∷ req.player_id
          ∷ req.game_id
          ∷ currency_of req.stake
          ∷ amount_text req.stake
          ∷ [])
    replay_reply place req.meta key req.player_id idem hash
    id ← call (next_wager_id_locked wall)
    let w : Wager = record {
      wager_id = id;
      player_id = req.player_id;
      game_id = req.game_id;
      stake = req.stake;
      status = status_pending;
      payout = none;
      outcome_ref = "";
      placed_at = env.format_time now;
      settled_at = "";
      canceled_at = "";
      cancel_reason = "";
    }
    modify (mirror_wager w)
    conclude place req.meta id "place_wager" key req.player_id idem hash "{}" w

  unfoldable pub place_wager :
      ℕ → Option PlaceWagerRequest → Wagering env.Db → Option WagerResponse × Wagering env.Db
  unfolding place_wager_body
  place_wager wall none =
      run (return (fail none code_invalid "player_id, game_id, and valid stake are required"))
  place_wager wall (some req) = run (place_wager_body wall req)

  -- SettleWager and CancelWager from the look-up of the wager to the end.
  unfoldable pub close_wager :
      Operation
      → Option RequestMeta
      → String
      → String
      → String
      → String
      → String
      → (Wager → Wager)
      → Body (Wagering env.Db) WagerResponse WagerResponse
  unfolding take_wager write_wager conclude
  close_wager op meta action key wager_id idem hash closed = do
    taken ← take_wager meta wager_id
    return_if (not (is_pending taken.0.status)) (fail meta code_invalid "wager is not pending")
    modify (write_wager taken.1 wager_id (closed taken.0))
    conclude op meta wager_id action key wager_id idem hash (env.marshal_wager taken.0)
        (closed taken.0)

  unfoldable pub settle_wager_body :
      SettleWagerRequest → Body (Wagering env.Db) WagerResponse WagerResponse
  unfolding authorize_settlement refuse hash_wagering_request replay_reply close_wager reply_key
  settle_wager_body req = do
    return_if (req.wager_id =ˢ "" || req.outcome_ref =ˢ "" || invalid_amount req.payout)
        (fail req.meta code_invalid "wager_id, outcome_ref, and valid payout are required")
    return_if (idempotency req.meta =ˢ "")
        (fail req.meta code_invalid "idempotency_key is required")
    refuse req.meta req.wager_id "settle_wager"
        (authorize_settlement (resolve_actor env.normalize ctx req.meta))
    let idem = idempotency req.meta
    let key = reply_key settle req.wager_id idem
    let hash = hash_wagering_request env now (
        "settle"
        ∷ req.wager_id
        ∷ currency_of req.payout
        ∷ amount_text req.payout
        ∷ req.outcome_ref
        ∷ [])
    replay_reply settle req.meta key req.wager_id idem hash
    close_wager settle req.meta "settle_wager" key req.wager_id idem hash
        (settled req (env.format_time now))

  unfoldable pub settle_wager :
      Option SettleWagerRequest → Wagering env.Db → Option WagerResponse × Wagering env.Db
  unfolding settle_wager_body
  settle_wager none =
      run (return (fail none code_invalid "wager_id, outcome_ref, and valid payout are required"))
  settle_wager (some req) = run (settle_wager_body req)

  unfoldable pub cancel_wager_body :
      CancelWagerRequest → Body (Wagering env.Db) WagerResponse WagerResponse
  unfolding authorize_settlement refuse hash_wagering_request replay_reply close_wager reply_key
  cancel_wager_body req = do
    return_if (req.wager_id =ˢ "" || req.reason =ˢ "")
        (fail req.meta code_invalid "wager_id and reason are required")
    return_if (idempotency req.meta =ˢ "")
        (fail req.meta code_invalid "idempotency_key is required")
    refuse req.meta req.wager_id "cancel_wager"
        (authorize_settlement (resolve_actor env.normalize ctx req.meta))
    let idem = idempotency req.meta
    let key = reply_key cancel req.wager_id idem
    let hash = hash_wagering_request env now ("cancel" ∷ req.wager_id ∷ req.reason ∷ [])
    replay_reply cancel req.meta key req.wager_id idem hash
    close_wager cancel req.meta "cancel_wager" key req.wager_id idem hash
        (canceled req (env.format_time now))

  unfoldable pub cancel_wager :
      Option CancelWagerRequest → Wagering env.Db → Option WagerResponse × Wagering env.Db
  unfolding cancel_wager_body
  cancel_wager none = run (return (fail none code_invalid "wager_id and reason are required"))
  cancel_wager (some req) = run (cancel_wager_body req)
