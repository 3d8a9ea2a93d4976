-- ===== src/Examples.antt =====
-- The theorems about the audit chain, the caller's identity and the wagers at concrete inputs.
use open_rgs_go.Prelude.{ℕ, String, ◌≡◌, refl, ◌⊎◌, Bool, true, Option, none, some, [], ◌∷◌, ◌++◌}
use open_rgs_go.Prelude.Dict.{lookup}
use open_rgs_go.Prelude.Decimal.{format_int}
use open_rgs_go.Prelude.Flow.Triple.{Answers}
use open_rgs_go.Proto.{RequestMeta, Actor, operator, player, Money, same_actor_type}
use open_rgs_go.Actor.{TokenActor, meta_actor, actor_type_from_string, resolve_actor}
use open_rgs_go.Actor.Authority.{IsComplete, resolve_actor-token}
use open_rgs_go.Audit.{
  Event, Hashing, InMemoryStore, success, appended, append, seal, new_in_memory_store,
}
use open_rgs_go.Audit.Chain.{IsChained, append-IsChained, new_store-IsChained}
use open_rgs_go.Ledger.Env.{no_rows}
use open_rgs_go.Wagering.State.{
  Wager, Wagering, WageringEnv, status_pending, new_wagering_service, settle, cancel,
  SettleWagerRequest, CancelWagerRequest,
}
use open_rgs_go.Wagering.Handlers.{
  settle_wager, cancel_wager, settled, canceled, reply_key, is_pending,
}
use open_rgs_go.Wagering.Lifecycle.{
  Closing, settle_wager-Closing, cancel_wager-Closing, closed_wager-final,
}

abbrev hashing : Hashing
hashing = record { sha256_hex = λ text. text; hex = λ text. text; format_time = λ n. format_int n }

abbrev event : Event
event = record {
  audit_id = "audit-1";
  occurred_at = 10;
  recorded_at = 10;
  actor_id = "cashier";
  actor_type = "ACTOR_TYPE_OPERATOR";
  auth_context = "";
  object_type = "ledger_account";
  object_id = "alice";
  action = "deposit";
  before = "{}";
  after = "{}";
  result = success;
  reason = "";
  partition_day = "day";
  hash_prev = "";
  hash_curr = "";
}

append-IsChained_example :
    (s' : InMemoryStore) × (append hashing new_in_memory_store event
      ≡ appended (seal hashing new_in_memory_store.last event) s')
    × (s'.events ≡ new_in_memory_store.events ++ (seal hashing new_in_memory_store.last event ∷ []))
    × IsChained hashing s'
append-IsChained_example =
    append-IsChained hashing new_in_memory_store event (new_store-IsChained hashing)

abbrev alice : Actor
alice = record { actor_id = "alice"; actor_type = player }

abbrev alice_token : TokenActor
alice_token = record { id = "alice"; type = "PLAYER" }

resolve_actor-token_example :
    (alice ≡ record {
      actor_id = alice_token.id;
      actor_type = actor_type_from_string (λ text. text) alice_token.type;
    })
    × IsComplete alice
    × ((meta_actor none ≡ none) ⊎ (meta_actor none ≡ some alice))
unfolding resolve_actor same_actor_type
resolve_actor-token_example = resolve_actor-token (λ text. text) alice_token none alice refl

abbrev env : WageringEnv
env = record {
  Db = Bool;
  hashing = hashing;
  normalize = λ text. text;
  format_time = λ n. format_int n;
  partition_day = λ n. "day";
  sha256_hex = λ text. text;
  marshal_wager = λ w. w.wager_id;
  marshal_response = λ r. some r.meta.request_id;
  unmarshal_response = λ text. none;
  insert_audit_event = λ d e. (true, d);
  upsert_wager = λ d w. (true, d);
  query_wager = λ d id. no_rows;
  query_idempotency = λ d op scope idem. no_rows;
  insert_idempotency = λ d op scope idem h p. (true, d);
}

abbrev cashier : String → Option RequestMeta
cashier key = some (record {
  request_id = "r1";
  idempotency_key = key;
  actor = some (record { actor_id = "cashier"; actor_type = operator });
})

abbrev cents : ℕ → Option Money
cents n = some (record { amount_minor = n; currency = "USD" })

abbrev placed : Wager
placed = record {
  wager_id = "w1";
  player_id = "alice";
  game_id = "dice";
  stake = cents 100;
  status = status_pending;
  payout = none;
  outcome_ref = "";
  placed_at = "5";
  settled_at = "";
  canceled_at = "";
  cancel_reason = "";
}

abbrev win : SettleWagerRequest
win = record { meta = cashier "k1"; wager_id = "w1"; payout = cents 300; outcome_ref = "win" }

abbrev void : CancelWagerRequest
void = record { meta = cashier "k2"; wager_id = "w1"; reason = "void" }

abbrev open_book : Wagering Bool
open_book = record (new_wagering_service none) { wagers = ("w1", placed) ∷ [] }

abbrev closed_book : Wagering Bool
closed_book = record (new_wagering_service none) { wagers = ("w1", settled win "8" placed) ∷ [] }

settle_wager-Closing_example :
    Answers
      (λ r s'.
        Closing "w1"
          (reply_key settle "w1" "k1")
          (settled win (env.format_time 10))
          open_book.wagers
          open_book.settle_by_idempotency
          r
          s'.wagers)
      (settle_wager env 10 none (some win) open_book)
unfolding new_wagering_service
settle_wager-Closing_example = settle_wager-Closing env 10 none open_book refl win

cancel_wager-Closing_example :
    Answers
      (λ r s'.
        Closing "w1"
          (reply_key cancel "w1" "k2")
          (canceled void (env.format_time 10))
          open_book.wagers
          open_book.cancel_by_idempotency
          r
          s'.wagers)
      (cancel_wager env 10 none (some void) open_book)
unfolding new_wagering_service
cancel_wager-Closing_example = cancel_wager-Closing env 10 none open_book refl void

closed_wager-final_example :
    (lookup "w1" (settle_wager env 10 none (some win) closed_book).1.wagers
      ≡ some (settled win "8" placed))
    × (lookup "w1" (cancel_wager env 20 none (some void) closed_book).1.wagers
        ≡ some (settled win "8" placed))
unfolding new_wagering_service lookup is_pending
closed_wager-final_example =
    closed_wager-final env 10 20 none none closed_book "w1" (settled win "8" placed) win void refl
      refl refl
