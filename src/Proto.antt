-- ===== src/Proto.antt =====
-- The messages of api/proto/rgs/v1/common.proto and the Money message of ledger.proto, as the Go
-- code uses them (gen/rgs/v1). A pointer to a message is an `Option`; a proto string is never nil.
-- The request's Source is read by no code modelled here and is left out.
use open_rgs_go.Prelude.{ℕ, String, Bool, true, false, ◌||◌, Option, none, some, ◌=ˢ◌}
use open_rgs_go.Prelude.Int64.{le64}

pub data ActorType : Type 0 where
  actor_unspecified player operator service : ActorType

pub record Actor : Type 0 where
  pub actor_id : String
  pub actor_type : ActorType

pub record RequestMeta : Type 0 where
  pub request_id : String
  pub idempotency_key : String
  pub actor : Option Actor

pub data ResultCode : Type 0 where
  code_unspecified code_ok code_denied code_invalid code_error : ResultCode

pub record ResponseMeta : Type 0 where
  pub request_id : String
  pub result_code : ResultCode
  pub denial_reason : String
  pub server_time : String

-- `amount_minor` is the bit pattern of an int64.
pub record Money : Type 0 where
  pub amount_minor : ℕ
  pub currency : String

unfoldable pub same_actor_type : ActorType → ActorType → Bool
same_actor_type actor_unspecified actor_unspecified = true
same_actor_type player player = true
same_actor_type operator operator = true
same_actor_type service service = true
same_actor_type _ _ = false

-- `actorType.String()` of the generated enum
unfoldable pub actor_type_name : ActorType → String
actor_type_name actor_unspecified = "ACTOR_TYPE_UNSPECIFIED"
actor_type_name player = "ACTOR_TYPE_PLAYER"
actor_type_name operator = "ACTOR_TYPE_OPERATOR"
actor_type_name service = "ACTOR_TYPE_SERVICE"

abbrev pub request_id_of : Option RequestMeta → String
request_id_of none = ""
request_id_of (some m) = m.request_id

abbrev pub idempotency : Option RequestMeta → String
idempotency none = ""
idempotency (some m) = m.idempotency_key

unfoldable pub invalid_amount : Option Money → Bool
invalid_amount none = true
invalid_amount (some m) = le64 m.amount_minor 0 || m.currency =ˢ ""

abbrev pub money : ℕ → String → Option Money
money amount currency = some (record { amount_minor = amount; currency = currency })
