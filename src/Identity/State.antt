-- ===== src/Identity/State.antt =====
-- The state of internal/platform/server/identity_grpc.go, and what its login limits take from outside
-- the repository. A time is in nanoseconds, a duration an int64 bit pattern.
use open_rgs_go.Prelude.{ℕ, String, Bool, Option, [], if◌then◌else◌}
use open_rgs_go.Prelude.Int64.{le64}
use open_rgs_go.Prelude.Dict.{Dict}
use open_rgs_go.Proto.{Actor, ActorType, RequestMeta, ResponseMeta}
use open_rgs_go.Journal.{Journal, JournalEnv, Host, Subject, new_journal}
use open_rgs_go.Ledger.Env.{Query}

pub record IdentitySession : Type 0 where
  pub refresh_token : String
  pub actor_id : String
  pub actor_type : ActorType
  pub expires_at : ℕ
  pub revoked : Bool

pub record LoginRateWindow : Type 0 where
  pub start : ℕ
  pub count : ℕ

-- IdentityService over the state `Db` of its database, without its signer and its observers. A
-- window that was never started is not in the map.
pub record Identity (Db : Type 0) : Type 0 where
  pub journal : Journal Db
  pub refresh_sessions : Dict IdentitySession
  pub failed_attempts : Dict ℕ
  pub locked_until : Dict ℕ
  pub access_ttl : ℕ
  pub refresh_ttl : ℕ
  pub lockout_ttl : ℕ
  pub max_failures : ℕ
  pub login_rate_max : ℕ
  pub login_rate_window : ℕ
  pub login_rates : Dict LoginRateWindow

abbrev pub minute : ℕ
minute = 60000000000

unfoldable pub new_identity_service : {Db : Type 0} → ℕ → ℕ → Option Db → Identity Db
new_identity_service access_ttl refresh_ttl handle = record {
  journal = new_journal handle;
  refresh_sessions = [];
  failed_attempts = [];
  locked_until = [];
  access_ttl = if le64 access_ttl 0 then 900000000000 else access_ttl;
  refresh_ttl = if le64 refresh_ttl 0 then 86400000000000 else refresh_ttl;
  lockout_ttl = 900000000000;
  max_failures = 5;
  login_rate_max = 60;
  login_rate_window = minute;
  login_rates = [];
}

-- A row of identity_sessions.
pub record IdentitySessionRow : Type 0 where
  pub refresh_token : String
  pub actor_id : String
  pub actor_type : String
  pub expires_at : ℕ
  pub revoked : Bool

-- RefreshTokenRequest
pub record TokenRequest : Type 0 where
  pub meta : Option RequestMeta
  pub refresh_token : String

pub record SessionToken : Type 0 where
  pub access_token : String
  pub refresh_token : String
  pub token_type : String
  pub expires_at : String
  pub actor : Option Actor

-- RefreshTokenResponse
pub record TokenResponse : Type 0 where
  pub meta : ResponseMeta
  pub token : Option SessionToken

-- PostgreSQL by what its statements answer, bcrypt, the seconds of a duration, json.Marshal of the
-- snapshot of a session, and SignActor of the signer (an actor's id and type, now and the lifetime).
pub record IdentityEnv : Type 1 where
  pub Db : Type 0
  pub journal_env : JournalEnv Db
  pub normalize : String → String  -- ToUpper of TrimSpace
  pub seconds : ℕ → ℕ
  pub compare_hash_and_password : String → String → Bool
  pub upsert_rate : Db → String → String → ℕ → Option (ℕ × Db)
  pub query_locked_until : Db → String → String → Query ℕ
  pub upsert_failure : Db → String → String → ℕ → ℕ → Bool × Db
  pub upsert_reset : Db → String → String → Bool × Db
  pub format_time : ℕ → String  -- RFC3339Nano
  pub marshal_session : IdentitySession → String
  pub sign_actor : String → String → ℕ → ℕ → Option (String × ℕ)
  pub query_session : Db → String → Query IdentitySessionRow
  pub revoke_session : Db → String → Bool × Db
  pub rotate_session : Db → String → IdentitySession → Bool × Db
  pub query_credentials : Db → String → String → Query (String × String)

abbrev pub identity_host : {Db : Type 0} → Host (Identity Db) Db
identity_host = record { journal = λ s. s.journal; with_journal = λ j s. record s { journal = j } }

abbrev pub identity_subject : Subject
identity_subject = record { id_prefix = "identity-audit-"; object_type = "identity_session" }
