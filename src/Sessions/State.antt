-- ===== src/Sessions/State.antt =====
-- The state and the messages of internal/platform/server/sessions_grpc.go, and what the service takes
-- from outside the repository. Times are nanoseconds, and a duration is an int64 bit pattern. Each
-- handler holds the mutex from the checks of its request to its end, so the mutex is left out.
use open_rgs_go.Prelude.{ℕ, String, Bool, false, ◌&&◌, Option, [], ◌=ˢ◌, true}
use open_rgs_go.Prelude.Dict.{Dict}
use open_rgs_go.Proto.{ResponseMeta, RequestMeta}
use open_rgs_go.Journal.{Journal, JournalEnv, Host, Subject, new_journal}
use open_rgs_go.Ledger.Env.{Query}

pub data SessionState : Type 0 where
  state_unspecified state_active state_ended state_expired : SessionState

pub record PlayerSession : Type 0 where
  pub session_id : String
  pub player_id : String
  pub device_id : String
  pub state : SessionState
  pub started_at : String
  pub last_seen_at : String
  pub ended_at : String
  pub expires_at : String
  pub end_reason : String

unfoldable pub is_active : SessionState → Bool
is_active state_active = true
is_active state_unspecified = false
is_active state_ended = false
is_active state_expired = false

unfoldable pub same_state : SessionState → SessionState → Bool
same_state state_unspecified state_unspecified = true
same_state state_active state_active = true
same_state state_ended state_ended = true
same_state state_expired state_expired = true
same_state _ _ = false

-- proto.Equal of two sessions
unfoldable pub same_session : PlayerSession → PlayerSession → Bool
unfolding same_state
same_session a b =
    a.session_id =ˢ b.session_id
    && a.player_id =ˢ b.player_id
    && a.device_id =ˢ b.device_id
    && same_state a.state b.state
    && a.started_at =ˢ b.started_at
    && a.last_seen_at =ˢ b.last_seen_at
    && a.ended_at =ˢ b.ended_at
    && a.expires_at =ˢ b.expires_at
    && a.end_reason =ˢ b.end_reason

-- `session_timeout_seconds` is an int32 bit pattern.
pub record StartSessionRequest : Type 0 where
  pub meta : Option RequestMeta
  pub player_id : String
  pub device_id : String
  pub session_timeout_seconds : ℕ

pub record EndSessionRequest : Type 0 where
  pub meta : Option RequestMeta
  pub session_id : String
  pub reason : String

pub record GetSessionRequest : Type 0 where
  pub meta : Option RequestMeta
  pub session_id : String

-- StartSessionResponse, EndSessionResponse and GetSessionResponse have the same fields.
pub record SessionResponse : Type 0 where
  pub meta : ResponseMeta
  pub session : Option PlayerSession

-- SessionsService over the state `Db` of its database.
pub record Sessions (Db : Type 0) : Type 0 where
  pub journal : Journal Db
  pub sessions : Dict PlayerSession
  pub default_timeout : ℕ
  pub disable_in_memory_cache : Bool

abbrev pub hour : ℕ
hour = 3600000000000

unfoldable pub new_sessions_service : {Db : Type 0} → Option Db → Sessions Db
new_sessions_service handle = record {
  journal = new_journal handle;
  sessions = [];
  default_timeout = hour;
  disable_in_memory_cache = false;
}

-- The arguments of the statement that writes a session, and the row that comes back: a column of type
-- timestamptz is written as a text and read as a time.
pub record SessionArguments : Type 0 where
  pub session_id : String
  pub player_id : String
  pub device_id : String
  pub state : String
  pub started_at : String
  pub last_seen_at : String
  pub ended_at : String
  pub expires_at : String
  pub end_reason : String

pub record SessionRow : Type 0 where
  pub session_id : String
  pub player_id : String
  pub device_id : String
  pub state : String
  pub started_at : ℕ
  pub last_seen_at : ℕ
  pub ended_at : Option ℕ
  pub expires_at : ℕ
  pub end_reason : String

-- PostgreSQL, json.Marshal, crypto/rand aside (its token is an argument of StartSession), and the
-- formats of package time.
pub record SessionsEnv : Type 1 where
  pub Db : Type 0
  pub journal_env : JournalEnv Db
  pub normalize : String → String  -- ToUpper of TrimSpace
  pub format_time : ℕ → String  -- RFC3339Nano
  pub parse_time : String → Option ℕ
  pub marshal_session : PlayerSession → String
  pub trim_space : String → String
  pub system_time : ℕ  -- time.Now(), which nonEmptyTime reads
  pub upsert_session : Db → SessionArguments → Bool × Db
  pub query_session : Db → String → Query SessionRow

abbrev pub sessions_host : {Db : Type 0} → Host (Sessions Db) Db
sessions_host = record { journal = λ s. s.journal; with_journal = λ j s. record s { journal = j } }

abbrev pub sessions_subject : Subject
sessions_subject = record { id_prefix = "sessions-audit-"; object_type = "player_session" }
