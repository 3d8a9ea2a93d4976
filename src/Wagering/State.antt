-- ===== src/Wagering/State.antt =====
-- The state and the messages of internal/platform/server/wagering_grpc.go, and what the service
-- takes from outside the repository. Each handler holds the mutex from the checks of its request to
-- its end, and no method takes it again, so the mutex is left out.
use open_rgs_go.Prelude.{ℕ, String, Bool, false, Option, some, []}
use open_rgs_go.Prelude.Dict.{Dict}
use open_rgs_go.Proto.{ResponseMeta, RequestMeta, Money}
use open_rgs_go.Audit.{Event, Hashing, InMemoryStore, new_in_memory_store}
use open_rgs_go.Ledger.Env.{Query}

pub data WagerStatus : Type 0 where
  status_unspecified status_pending status_settled status_canceled : WagerStatus

pub record Wager : Type 0 where
  pub wager_id : String
  pub player_id : String
  pub game_id : String
  pub stake : Option Money
  pub status : WagerStatus
  pub payout : Option Money
  pub outcome_ref : String
  pub placed_at : String
  pub settled_at : String
  pub canceled_at : String
  pub cancel_reason : String

pub record PlaceWagerRequest : Type 0 where
  pub meta : Option RequestMeta
  pub player_id : String
  pub game_id : String
  pub stake : Option Money

pub record SettleWagerRequest : Type 0 where
  pub meta : Option RequestMeta
  pub wager_id : String
  pub payout : Option Money
  pub outcome_ref : String

pub record CancelWagerRequest : Type 0 where
  pub meta : Option RequestMeta
  pub wager_id : String
  pub reason : String

-- PlaceWagerResponse, SettleWagerResponse and CancelWagerResponse have the same fields.
pub record WagerResponse : Type 0 where
  pub meta : ResponseMeta
  pub wager : Option Wager

pub data Operation : Type 0 where
  place settle cancel : Operation

-- The text under which an operation's replies are kept.
unfoldable pub operation_name : Operation → String
operation_name place = "place"
operation_name settle = "settle"
operation_name cancel = "cancel"

-- WageringService over the state `Db` of its database; `db` is none where the handle is nil.
pub record Wagering (Db : Type 0) : Type 0 where
  pub audit_store : Option InMemoryStore
  pub wagers : Dict Wager
  pub place_by_idempotency : Dict WagerResponse
  pub settle_by_idempotency : Dict WagerResponse
  pub cancel_by_idempotency : Dict WagerResponse
  pub next_wager_id : ℕ
  pub next_audit_id : ℕ
  pub db : Option Db
  pub disable_in_mem_cache : Bool

unfoldable pub new_wagering_service : {Db : Type 0} → Option Db → Wagering Db
new_wagering_service handle = record {
  audit_store = some new_in_memory_store;
  wagers = [];
  place_by_idempotency = [];
  settle_by_idempotency = [];
  cancel_by_idempotency = [];
  next_wager_id = 0;
  next_audit_id = 0;
  db = handle;
  disable_in_mem_cache = false;
}

-- PostgreSQL (each field over `Db` is one SQL statement, by what it answers), protojson,
-- encoding/json, crypto/sha256 and the formats of package time.
pub record WageringEnv : Type 1 where
  pub Db : Type 0
  pub hashing : Hashing
  pub normalize : String → String  -- ToUpper of TrimSpace
  pub format_time : ℕ → String  -- RFC3339Nano
  pub partition_day : ℕ → String  -- "2006-01-02"
  pub sha256_hex : String → String
  pub marshal_wager : Wager → String
  pub marshal_response : WagerResponse → Option String
  pub unmarshal_response : String → Option WagerResponse
  pub insert_audit_event : Db → Event → Bool × Db
  pub upsert_wager : Db → Wager → Bool × Db
  pub query_wager : Db → String → Query Wager
  pub query_idempotency : Db → String → String → String → Query (String × String)
  pub insert_idempotency : Db → String → String → String → String → String → Bool × Db
