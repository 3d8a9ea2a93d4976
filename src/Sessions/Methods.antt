-- ===== src/Sessions/Methods.antt =====
-- The methods of SessionsService that its three handlers call, and its setters.
use open_rgs_go.Prelude.{
  ℕ, ◌*◌, ◌%◌, String, Bool, true, false, Option, none, some, ltb, ◌=ˢ◌, if◌then◌else◌,
}
use open_rgs_go.Prelude.Int32.{positive32}
use open_rgs_go.Prelude.Int64.{two64, lt64, le64}
use open_rgs_go.Prelude.Dict.{lookup, insert}
use open_rgs_go.Proto.{
  RequestMeta, ResponseMeta, ResultCode, player, operator, service, actor_unspecified,
}
use open_rgs_go.Actor.{Resolved, actor, refused}
use open_rgs_go.Audit.{Result}
use open_rgs_go.Journal.{Journal, audit, meta_of}
use open_rgs_go.Ledger.Env.{failed, no_rows, row}
use open_rgs_go.Sessions.State.{
  PlayerSession, SessionState, SessionArguments, SessionRow, state_unspecified, state_active,
  state_ended, state_expired, is_active, same_session, StartSessionRequest, Sessions, SessionsEnv,
  sessions_host, sessions_subject, hour,
}

module _ {Db : Type 0} where
  unfoldable pub set_disable_in_memory_cache : Bool → Sessions Db → Sessions Db
  set_disable_in_memory_cache disable s = record s { disable_in_memory_cache = disable }

  unfoldable pub set_default_timeout : ℕ → Sessions Db → Sessions Db
  set_default_timeout timeout s =
      if le64 timeout 0 then s else record s { default_timeout = timeout }

  -- The lifetime that a request asks for, at most a day.
  unfoldable pub timeout_for_request : StartSessionRequest → Sessions Db → ℕ
  timeout_for_request req s = capped (
      positive (
        if positive32 req.session_timeout_seconds
        then (req.session_timeout_seconds * 1000000000) % two64
        else s.default_timeout))
    where
      positive : ℕ → ℕ
      positive timeout = if le64 timeout 0 then hour else timeout

      capped : ℕ → ℕ
      capped timeout = if lt64 (24 * hour) timeout then 24 * hour else timeout

unfoldable pub authorize_start : String → Resolved → Option String
authorize_start player_id (refused reason) = some reason
authorize_start player_id (actor a) = elim a.actor_type [
  | operator ↦ none
  | service ↦ none
  | player ↦ if a.actor_id =ˢ player_id then none else some "player actor must match player_id"
  | actor_unspecified ↦ some "unauthorized actor type"
]

unfoldable pub authorize_access : PlayerSession → Resolved → Option String
authorize_access sess (refused reason) = some reason
authorize_access sess (actor a) = elim a.actor_type [
  | operator ↦ none
  | service ↦ none
  | player ↦
      if a.actor_id =ˢ sess.player_id then none else some "player actor unauthorized for session"
  | actor_unspecified ↦ some "unauthorized actor type"
]

unfoldable pub session_state_to_db : SessionState → String
session_state_to_db state_active = "ACTIVE"
session_state_to_db state_ended = "ENDED"
session_state_to_db state_expired = "EXPIRED"
session_state_to_db state_unspecified = "UNSPECIFIED"

unfoldable pub session_state_from_db : String → SessionState
session_state_from_db raw =
    if raw =ˢ "ACTIVE"
    then state_active
    else if raw =ˢ "ENDED"
    then state_ended
    else if raw =ˢ "EXPIRED"
    then state_expired
    else state_unspecified

module _ (env : SessionsEnv) where
  unfoldable pub non_empty_time : String → String
  non_empty_time v = if env.trim_space v =ˢ "" then env.format_time env.system_time else v

  -- What upsertSessionInDB sends.
  unfoldable pub session_arguments : PlayerSession → SessionArguments
  unfolding session_state_to_db non_empty_time
  session_arguments sess = record {
    session_id = sess.session_id;
    player_id = sess.player_id;
    device_id = sess.device_id;
    state = session_state_to_db sess.state;
    started_at = non_empty_time sess.started_at;
    last_seen_at = non_empty_time sess.last_seen_at;
    ended_at = sess.ended_at;
    expires_at = non_empty_time sess.expires_at;
    end_reason = sess.end_reason;
  }

  -- What getSessionFromDB makes of a row.
  unfoldable pub session_of_row : SessionRow → PlayerSession
  unfolding session_state_from_db
  session_of_row r = record {
    session_id = r.session_id;
    player_id = r.player_id;
    device_id = r.device_id;
    state = session_state_from_db r.state;
    started_at = env.format_time r.started_at;
    last_seen_at = env.format_time r.last_seen_at;
    ended_at = elim r.ended_at [ none ↦ "" | some t ↦ env.format_time t ];
    expires_at = env.format_time r.expires_at;
    end_reason = r.end_reason;
  }

module _ (env : SessionsEnv) (now : ℕ) where
  abbrev pub session_meta : Option RequestMeta → ResultCode → String → ResponseMeta
  session_meta = meta_of env.format_time now

  unfoldable pub append_audit :
      Option RequestMeta
      → String
      → String
      → String
      → String
      → Result
      → String
      → Sessions env.Db
      → Bool × Sessions env.Db
  unfolding audit
  append_audit = audit sessions_host env.journal_env now sessions_subject

  -- none where the query fails; some none where there is no such session
  unfoldable pub load_session : String → Sessions env.Db → Option (Option PlayerSession)
  unfolding session_of_row
  load_session session_id s = elim s.journal.db [
    | none ↦ some (if s.disable_in_memory_cache then none else lookup session_id s.sessions)
    | some d ↦ elim (env.query_session d session_id) [
      | failed ↦ none
      | no_rows ↦ some none
      | row r ↦ some (some (session_of_row env r))
    ]
  ]

  -- True where the returned error is nil.
  unfoldable pub persist_session : PlayerSession → Sessions env.Db → Bool × Sessions env.Db
  unfolding session_arguments
  persist_session sess s = elim s.journal.db [
    | none ↦
        if s.disable_in_memory_cache
        then (false, s)
        else (true, record s { sessions = insert sess.session_id sess s.sessions })
    | some d ↦
        let (ok, d') = env.upsert_session d (session_arguments env sess) in
        let j : Journal env.Db = record s.journal { db = some d' } in (ok, record s { journal = j })
  ]

  abbrev end_reason_or : String → String → String
  end_reason_or old new = if old =ˢ "" then new else old

  -- The time when the session expires; now, where it is not to be read.
  abbrev expiry : PlayerSession → ℕ
  expiry sess = elim (env.parse_time sess.expires_at) [ none ↦ now | some t ↦ t ]

  unfoldable pub expired : PlayerSession → PlayerSession
  expired sess = record sess {
    state = state_expired;
    ended_at = env.format_time now;
    end_reason = end_reason_or sess.end_reason "session timeout";
  }

  -- What a look at the session makes of it.
  unfoldable pub touched : PlayerSession → PlayerSession
  unfolding is_active expired
  touched sess =
      if is_active sess.state
      then (if ltb (expiry sess) now
          then expired sess
          else record sess { last_seen_at = env.format_time now })
      else sess

  unfoldable pub keep_touched :
      Bool → PlayerSession → Sessions env.Db → Option PlayerSession × Sessions env.Db
  unfolding persist_session
  keep_touched true new s = (some new, s)
  keep_touched false new s =
      let (ok, s') = persist_session new s in (if ok then some new else none, s')

  -- none where the session cannot be stored
  unfoldable pub touch_and_expire_session :
      PlayerSession → Sessions env.Db → Option PlayerSession × Sessions env.Db
  unfolding touched same_session keep_touched
  touch_and_expire_session sess = keep_touched (same_session (touched sess) sess) (touched sess)
