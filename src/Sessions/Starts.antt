-- ===== src/Sessions/Starts.antt =====
-- StartSession on a service that keeps its sessions in memory, and the lifetimes it gives.
use Prim.Native.String.{◌++◌ as ◌+ˢ◌}
use mathlib.Core.Path.{subst}
use open_rgs_go.Prelude.{
  ℕ, ◌*◌, ◌<◌, ◌≤◌, String, ◌≡◌, ◌≢◌, refl, sym, not, Option, none, some, arith,
}
use open_rgs_go.Prelude.Int64.{IsPositive}
use open_rgs_go.Prelude.Dict.{Dict, insert}
use open_rgs_go.Prelude.Flow.{call, return_if, ◌>>=◌, ◌>>◌}
use open_rgs_go.Prelude.Flow.Triple.{
  Triple, Triple-bind, Triple-return_if, Triple-guard, Triple-or_return, Answers, run-Answers,
}
use open_rgs_go.Proto.{RequestMeta, ResultCode, code_ok, code_denied, code_invalid, code_error}
use open_rgs_go.Actor.{TokenActor, resolve_actor}
use open_rgs_go.Journal.{meta_of}
use open_rgs_go.Sessions.State.{
  PlayerSession, SessionResponse, Sessions, SessionsEnv, StartSessionRequest, hour,
}
use open_rgs_go.Sessions.Methods.{authorize_start, persist_session, timeout_for_request}
use open_rgs_go.Sessions.Handlers.{
  fail, new_session, conclude, create_session, start_session_body, start_session,
}
use open_rgs_go.Sessions.Visits.{
  IsIdle, Holding, Updated, refuse-Triple, conclude-Triple, persist_session-Triple,
}
use open_rgs_go.Sessions.Lifecycle.{Updated-insert}

-- A lifetime that StartSession may give.
pub record IsLifetime (t : ℕ) : Type 0 where
  pub above : 0 < t
  pub at_most : t ≤ 24 * hour

-- Whatever a request asks for, a session lives for more than no time and for at most a day.
pub timeout_for_request-IsLifetime :
    {Db : Type 0} (req : StartSessionRequest) (s : Sessions Db)
    → IsPositive s.default_timeout
    → IsLifetime (timeout_for_request req s)
unfolding timeout_for_request
timeout_for_request-IsLifetime req s timed = record {
  above = ground (arith, timed.above, timed.below);
  at_most = ground (arith, timed.above, timed.below);
}

module _ (env : SessionsEnv) (now : ℕ) (ctx : Option TokenActor) (start : Dict PlayerSession)
    (token : Option String) (req : StartSessionRequest) where
  -- A refusal that leaves the sessions as they were; or the caller may start the session, and it is
  -- stored under a new id with a lifetime of its own, while every other session is as it was.
  pub data Start (r : SessionResponse) (sessions : Dict PlayerSession) : Type 0 where
    refused : r.meta.result_code ≢ code_ok → sessions ≡ start → Start r sessions
    started :
        r.meta.result_code ≡ code_ok
        → (raw : String) → token ≡ some raw
        → (t : ℕ) → IsLifetime t
        → authorize_start req.player_id (resolve_actor env.normalize ctx req.meta) ≡ none
        → r.session ≡ some (new_session env now ctx raw req t)
        → Updated ("sess-" +ˢ raw) (new_session env now ctx raw req t) start sessions
        → Start r sessions

  abbrev End : SessionResponse → Sessions env.Db → Type 0
  End r s = IsIdle env s × Start r s.sessions

  fail-End :
      (of : Option RequestMeta) (code : ResultCode) (reason : String) (s : Sessions env.Db)
      → code ≢ code_ok
      → Holding env start s
      → End (fail env now ctx of code reason) s
  unfolding meta_of
  fail-End of code reason s bad p = (p.idle, refused bad p.same)

  module _
      (allowed : authorize_start req.player_id (resolve_actor env.normalize ctx req.meta)
        ≡ none) where
    announce-Triple :
        (raw : String) (t : ℕ)
        → token ≡ some raw
        → IsLifetime t
        → let new = new_session env now ctx raw req t in
          Triple
            (Holding env (insert new.session_id new start))
            End
            End
            (conclude env now ctx req.meta new.session_id "start_session" "{}" new "")
    unfolding meta_of
    announce-Triple raw t e lifetime =
        let new = new_session env now ctx raw req t in
        conclude-Triple env now ctx (insert new.session_id new start) {E = End} req.meta
          new.session_id "start_session" "{}" new ""
          (λ s h. (
            h.idle,
            started refl raw e t lifetime allowed refl (
                subst (λ d. Updated new.session_id new start d) (sym h.same)
                  (Updated-insert new.session_id new start refl)),
          ))

    store-Triple :
        (raw : String) (t : ℕ)
        → token ≡ some raw
        → IsLifetime t
        → let new = new_session env now ctx raw req t in
          Triple (Holding env start) End End (
            call (persist_session env now new) >>= λ ok.
            return_if (not ok) (fail env now ctx req.meta code_error "persistence unavailable")
            >> conclude env now ctx req.meta new.session_id "start_session" "{}" new "")
    store-Triple raw t e lifetime =
        Triple-bind (persist_session-Triple env now ctx start (new_session env now ctx raw req t))
          λ ok.
            Triple-bind
              (Triple-return_if (not ok)
                (fail env now ctx req.meta code_error "persistence unavailable")
                (λ s p e. absurd (ground (arith, p.0, e))))
              λ _. record { at = λ s q. (announce-Triple raw t e lifetime).at s q.0.1 }

    create-Triple : Triple (Holding env start) End End (create_session env now ctx token req)
    unfolding create_session
    create-Triple = record {
      at = λ s p.
          let lifetime = timeout_for_request-IsLifetime req s p.idle.timed in
          (Triple-bind {E = End} {Z = End}
              (Triple-guard _ (fail env now ctx req.meta code_error "persistence unavailable")
                (λ s' q. fail-End req.meta code_error "persistence unavailable" s' (λ e. cc e) q))
              λ _.
                Triple-bind
                  (Triple-or_return token
                    (fail env now ctx req.meta code_error "failed to create session id")
                    (λ s' q.
                      fail-End req.meta code_error "failed to create session id" s' (λ e. cc e) q))
                  λ raw. record {
                    at = λ s' q.
                        (store-Triple raw (timeout_for_request req s) q.1 lifetime).at s' q.0;
                  }).at
            s p;
    }

  start-Triple : Triple (Holding env start) End End (start_session_body env now ctx token req)
  unfolding start_session_body
  start-Triple =
      Triple-bind
        (Triple-guard _ _ (λ s p.
          fail-End none code_invalid "player_id and device_id are required" s (λ e. cc e) p))
        λ _.
          Triple-bind
            (refuse-Triple env now ctx start req.meta "" "start_session"
              (authorize_start req.player_id (resolve_actor env.normalize ctx req.meta))
              (λ s why q _. fail-End req.meta code_denied why s (λ e. cc e) q))
            λ _. record { at = λ s p. (create-Triple p.1).at s p.0 }

-- StartSession always answers, and either refuses and keeps every session, or the caller may start
-- the session and the service stores it under the new id, active, with a lifetime of at most a day,
-- and keeps every other session.
pub start_session-Start :
    (env : SessionsEnv) (now : ℕ) (ctx : Option TokenActor) (token : Option String)
    (req : StartSessionRequest) (s : Sessions env.Db)
    → IsIdle env s
    → Answers
        (λ r s'. IsIdle env s' × Start env now ctx s.sessions token req r s'.sessions)
        (start_session env now ctx token (some req) s)
unfolding start_session
start_session-Start env now ctx token req s idle =
    run-Answers (start_session_body env now ctx token req)
      (start-Triple env now ctx s.sessions token req) s (record { idle = idle; same = refl })
