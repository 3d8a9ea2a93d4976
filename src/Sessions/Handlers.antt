-- ===== src/Sessions/Handlers.antt =====
-- StartSession, EndSession and GetSession of sessions_grpc.go.
use Prim.Native.String.{◌++◌ as ◌+ˢ◌}
use open_rgs_go.Prelude.{
  ℕ, ◌+◌, String, Bool, not, ◌&&◌, ◌||◌, Option, none, some, ◌=ˢ◌, if◌then◌else◌,
}
use open_rgs_go.Prelude.Flow.{Body, pure, return, call, or_return, return_if, run, ◌>>=◌, ◌>>◌}
use open_rgs_go.Proto.{RequestMeta, ResultCode, code_ok, code_denied, code_invalid, code_error}
use open_rgs_go.Actor.{TokenActor, resolve_actor}
use open_rgs_go.Audit.{success}
use open_rgs_go.Journal.{refuse_with}
use open_rgs_go.Sessions.State.{
  PlayerSession, state_active, state_ended, is_active, StartSessionRequest, EndSessionRequest,
  GetSessionRequest, SessionResponse, Sessions, SessionsEnv, sessions_host, sessions_subject,
}
use open_rgs_go.Sessions.Methods.{
  authorize_start, authorize_access, timeout_for_request, session_meta, append_audit, load_session,
  persist_session, touch_and_expire_session,
}

abbrev is_some : {A : Type 0} → Option A → Bool
is_some none = Bool.false
is_some (some _) = Bool.true

abbrev pub ended : String → String → PlayerSession → PlayerSession
ended reason at sess = record sess {
  state = state_ended;
  ended_at = at;
  end_reason = if reason =ˢ "" then "ended by actor" else reason;
}

module _ (env : SessionsEnv) (now : ℕ) (ctx : Option TokenActor) where
  abbrev pub fail : Option RequestMeta → ResultCode → String → SessionResponse
  fail meta code reason = record { meta = session_meta env now meta code reason; session = none }

  abbrev pub answer_with : Option RequestMeta → PlayerSession → SessionResponse
  answer_with meta sess = record {
    meta = session_meta env now meta code_ok "";
    session = some sess;
  }

  unfoldable pub refuse :
      Option RequestMeta
      → String
      → String
      → Option String
      → Body (Sessions env.Db) SessionResponse (Unit {0})
  unfolding refuse_with
  refuse meta =
      refuse_with sessions_host env.journal_env now sessions_subject (fail meta code_denied) meta

  -- The audit of what was done, and the answer.
  unfoldable pub conclude :
      Option RequestMeta
      → String
      → String
      → String
      → PlayerSession
      → String
      → Body (Sessions env.Db) SessionResponse SessionResponse
  unfolding append_audit
  conclude meta session_id action before sess reason = do
    audited ← call (
        append_audit env now meta session_id action before (env.marshal_session sess) success
          reason)
    return_if (not audited) (fail meta code_error "audit unavailable")
    pure (answer_with meta sess)

  unfoldable pub found_session :
      Option RequestMeta
      → Option (Option PlayerSession)
      → Body (Sessions env.Db) SessionResponse PlayerSession
  found_session meta none = return (fail meta code_error "persistence unavailable")
  found_session meta (some none) = return (fail meta code_invalid "session not found")
  found_session meta (some (some sess)) = pure sess

  -- The session, if it is there.
  unfoldable pub find_session :
      Option RequestMeta → String → Body (Sessions env.Db) SessionResponse PlayerSession
  unfolding load_session found_session
  find_session meta session_id s = found_session meta (load_session env now session_id s) s

  abbrev pub new_session : String → StartSessionRequest → ℕ → PlayerSession
  new_session token req timeout = record {
    session_id = "sess-" +ˢ token;
    player_id = req.player_id;
    device_id = req.device_id;
    state = state_active;
    started_at = env.format_time now;
    last_seen_at = env.format_time now;
    ended_at = "";
    expires_at = env.format_time (now + timeout);
    end_reason = "";
  }

  -- `token` is what crypto/rand gives, none where it fails.
  unfoldable pub create_session :
      Option String → StartSessionRequest → Body (Sessions env.Db) SessionResponse SessionResponse
  unfolding timeout_for_request persist_session conclude
  create_session token req s =
      (do
        return_if (not (is_some s.journal.db) && s.disable_in_memory_cache)
            (fail req.meta code_error "persistence unavailable")
        raw ← or_return token (fail req.meta code_error "failed to create session id")
        let sess = new_session raw req (timeout_for_request req s)
        stored ← call (persist_session env now sess)
        return_if (not stored) (fail req.meta code_error "persistence unavailable")
        conclude req.meta sess.session_id "start_session" "{}" sess "")
        s

  unfoldable pub start_session_body :
      Option String → StartSessionRequest → Body (Sessions env.Db) SessionResponse SessionResponse
  unfolding authorize_start refuse create_session
  start_session_body token req = do
    return_if (req.player_id =ˢ "" || req.device_id =ˢ "")
        (fail none code_invalid "player_id and device_id are required")
    refuse req.meta "" "start_session"
        (authorize_start req.player_id (resolve_actor env.normalize ctx req.meta))
    create_session token req

  unfoldable pub start_session :
      Option String
      → Option StartSessionRequest
      → Sessions env.Db
      → Option SessionResponse × Sessions env.Db
  unfolding start_session_body
  start_session token none =
      run (return (fail none code_invalid "player_id and device_id are required"))
  start_session token (some req) = run (start_session_body token req)

  -- An active session is ended and stored; any other stays as it is.
  unfoldable pub close_session :
      EndSessionRequest → PlayerSession → Body (Sessions env.Db) SessionResponse PlayerSession
  unfolding is_active persist_session
  close_session req sess =
      if is_active sess.state
      then (do
        let sess' = ended req.reason (env.format_time now) sess
        stored ← call (persist_session env now sess')
        return_if (not stored) (fail req.meta code_error "persistence unavailable")
        pure sess')
      else pure sess

  unfoldable pub end_session_body :
      EndSessionRequest → Body (Sessions env.Db) SessionResponse SessionResponse
  unfolding find_session authorize_access refuse close_session conclude
  end_session_body req = do
    return_if (req.session_id =ˢ "") (fail none code_invalid "session_id is required")
    sess ← find_session req.meta req.session_id
    refuse req.meta req.session_id "end_session"
        (authorize_access sess (resolve_actor env.normalize ctx req.meta))
    sess' ← close_session req sess
    conclude req.meta req.session_id "end_session" (env.marshal_session sess) sess' req.reason

  unfoldable pub end_session :
      Option EndSessionRequest → Sessions env.Db → Option SessionResponse × Sessions env.Db
  unfolding end_session_body
  end_session none = run (return (fail none code_invalid "session_id is required"))
  end_session (some req) = run (end_session_body req)

  unfoldable pub look_at_session :
      GetSessionRequest → PlayerSession → Body (Sessions env.Db) SessionResponse PlayerSession
  unfolding touch_and_expire_session
  look_at_session req sess = do
    looked ← call (touch_and_expire_session env now sess)
    or_return looked (fail req.meta code_error "persistence unavailable")

  unfoldable pub get_session_body :
      GetSessionRequest → Body (Sessions env.Db) SessionResponse SessionResponse
  unfolding find_session authorize_access refuse look_at_session conclude
  get_session_body req = do
    return_if (req.session_id =ˢ "") (fail none code_invalid "session_id is required")
    sess ← find_session req.meta req.session_id
    refuse req.meta req.session_id "get_session"
        (authorize_access sess (resolve_actor env.normalize ctx req.meta))
    sess' ← look_at_session req sess
    conclude req.meta req.session_id "get_session" "{}" sess' ""

  unfoldable pub get_session :
      Option GetSessionRequest → Sessions env.Db → Option SessionResponse × Sessions env.Db
  unfolding get_session_body
  get_session none = run (return (fail none code_invalid "session_id is required"))
  get_session (some req) = run (get_session_body req)
