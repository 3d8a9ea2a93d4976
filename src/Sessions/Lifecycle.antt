-- ===== src/Sessions/Lifecycle.antt =====
-- GetSession and EndSession on a service that keeps its sessions in memory.
use mathlib.Core.Path.{subst}
use open_rgs_go.Prelude.{
  ℕ, String, ◌≡◌, ◌≢◌, refl, sym, ap, ◌∙◌, Bool, true, false, not, Bool-cases, inl, inr, Option,
  none, some, arith, eq_iff, ◌=ˢ◌, if◌then◌else◌,
}
use open_rgs_go.Prelude.Dict.{Dict, lookup, insert, lookup-insert}
use open_rgs_go.Prelude.Flow.{Body, call, return_if, or_return, ◌>>=◌, ◌>>◌}
use open_rgs_go.Prelude.Flow.Triple.{
  Ends, Triple, Triple-bind, Triple-return_if, Triple-guard, Triple-pure, Answers, run-Answers,
}
use open_rgs_go.Proto.{RequestMeta, ResultCode, code_ok, code_denied, code_invalid, code_error}
use open_rgs_go.Actor.{TokenActor, resolve_actor}
use open_rgs_go.Journal.{meta_of}
use open_rgs_go.Sessions.State.{
  PlayerSession, SessionResponse, Sessions, SessionsEnv, GetSessionRequest, EndSessionRequest,
  is_active, same_session,
}
use open_rgs_go.Sessions.Methods.{
  authorize_access, persist_session, touch_and_expire_session, touched, expired, keep_touched,
}
use open_rgs_go.Sessions.Handlers.{
  fail, look_at_session, refuse, find_session, conclude, close_session, ended, get_session,
  end_session, get_session_body, end_session_body,
}
use open_rgs_go.Sessions.Visits.{
  IsIdle, Holding, Updated, refuse-Triple, conclude-Triple, find_session-Triple,
  persist_session-Triple, same_session-eq,
}

-- A refusal that leaves the sessions as they were; or the session was there, the caller may use it,
-- and it is answered and stored as `change` makes it, while every other session is as it was.
pub data Visit (env : SessionsEnv) (ctx : Option TokenActor) (meta : Option RequestMeta)
    (id : String) (change : PlayerSession → PlayerSession) (start : Dict PlayerSession)
    (r : SessionResponse) (sessions : Dict PlayerSession) : Type 0 where
  refused :
      r.meta.result_code ≢ code_ok
      → sessions ≡ start
      → Visit env ctx meta id change start r sessions
  visited :
      r.meta.result_code ≡ code_ok
      → (sess : PlayerSession) → lookup id start ≡ some sess
      → authorize_access sess (resolve_actor env.normalize ctx meta) ≡ none
      → r.session ≡ some (change sess)
      → Updated id (change sess) start sessions
      → Visit env ctx meta id change start r sessions

pub Updated-insert :
    (id : String) (new : PlayerSession) (start : Dict PlayerSession)
    → new.session_id ≡ id
    → Updated id new start (insert new.session_id new start)
Updated-insert id new start e j = rw (← e) (lookup-insert new.session_id j new start)

Updated-same :
    (id : String) (new sess : PlayerSession) (start : Dict PlayerSession)
    → new ≡ sess
    → lookup id start ≡ some sess
    → Updated id new start start
Updated-same id new sess start same there j = ground (arith, same, there, eq_iff id j)

-- What EndSession makes of a session.
unfoldable pub closed_by : EndSessionRequest → String → PlayerSession → PlayerSession
closed_by req at sess = if is_active sess.state then ended req.reason at sess else sess

own_id :
    (env : SessionsEnv) (start : Dict PlayerSession) (id : String) (sess : PlayerSession)
    (s : Sessions env.Db)
    → lookup id start ≡ some sess
    → Holding env start s
    → sess.session_id ≡ id
own_id env start id sess s there p = p.idle.filed id sess (ap (lookup id) p.same ∙ there)

module _ (env : SessionsEnv) (now : ℕ) (ctx : Option TokenActor) (start : Dict PlayerSession)
    (meta : Option RequestMeta) (id : String) (change : PlayerSession → PlayerSession) where
  abbrev pub End : SessionResponse → Sessions env.Db → Type 0
  End r s = IsIdle env s × Visit env ctx meta id change start r s.sessions

  fail-End :
      (of : Option RequestMeta) (code : ResultCode) (reason : String) (s : Sessions env.Db)
      → code ≢ code_ok
      → Holding env start s
      → End (fail env now ctx of code reason) s
  unfolding meta_of
  fail-End of code reason s bad p = (p.idle, refused bad p.same)

  -- The session at hand, and the state after its change was stored.
  abbrev pub Changed : PlayerSession → PlayerSession → Sessions env.Db → Type 0
  Changed sess new s =
      (new ≡ change sess) × IsIdle env s × Updated id (change sess) start s.sessions

  stored-Changed :
      (sess new : PlayerSession) (s : Sessions env.Db)
      → new ≡ change sess
      → new.session_id ≡ id
      → Holding env (insert new.session_id new start) s
      → Changed sess new s
  stored-Changed sess new s e own p = (
    e,
    p.idle,
    subst (λ x. Updated id x start s.sessions) e
        (subst (λ d. Updated id new start d) (sym p.same) (Updated-insert id new start own)),
  )

  same-Changed :
      (sess new : PlayerSession) (s : Sessions env.Db)
      → new ≡ change sess
      → new ≡ sess
      → lookup id start ≡ some sess
      → Holding env start s
      → Changed sess new s
  same-Changed sess new s e same there p = (
    e,
    p.idle,
    subst (λ x. Updated id x start s.sessions) e
        (subst (λ d. Updated id new start d) (sym p.same)
          (Updated-same id new sess start same there)),
  )

  conclude-End :
      (sess new : PlayerSession) (action before reason : String)
      → lookup id start ≡ some sess
      → authorize_access sess (resolve_actor env.normalize ctx meta) ≡ none
      → Triple (Changed sess new) End End (conclude env now ctx meta id action before new reason)
  unfolding meta_of
  conclude-End sess new action before reason there allowed = record {
    at = λ s p.
        (conclude-Triple env now ctx s.sessions meta id action before new reason (λ s' q. (
          q.idle,
          visited refl sess there allowed (ap some p.0)
              (subst (λ d. Updated id (change sess) start d) (sym q.same) p.2),
        ))).at
          s (record { idle = p.1; same = refl });
  }

  -- From the checks of a handler to its answer, for any step that changes the session.
  visit-Triple :
      (nameless : Bool) (missing action : String) (before : PlayerSession → String)
      (reason : String)
      (step : PlayerSession → Body (Sessions env.Db) SessionResponse PlayerSession)
      → ((sess : PlayerSession)
          → lookup id start ≡ some sess
          → sess.session_id ≡ id
          → Triple (Holding env start) End (Changed sess) (step sess))
      → Triple (Holding env start) End End (
          return_if nameless (fail env now ctx none code_invalid missing)
          >> (find_session env now ctx meta id >>= λ sess.
              refuse env now ctx meta id action
                (authorize_access sess (resolve_actor env.normalize ctx meta))
              >> (step sess >>= λ new.
                  conclude env now ctx meta id action (before sess) new reason)))
  visit-Triple nameless missing action before reason step h =
      Triple-bind
        (Triple-guard nameless _ (λ s p. fail-End none code_invalid missing s (λ e. cc e) p))
        λ _.
          Triple-bind
            (find_session-Triple env now ctx start meta id
              (λ s p. fail-End meta code_invalid "session not found" s (λ e. cc e) p))
            λ sess. record {
              at = λ s p.
                  (Triple-bind
                      (refuse-Triple env now ctx start meta id action
                        (authorize_access sess (resolve_actor env.normalize ctx meta))
                        (λ s' why q _. fail-End meta code_denied why s' (λ e. cc e) q))
                      λ _. record {
                        at = λ s' q.
                            (Triple-bind (h sess p.1 (own_id env start id sess s p.1 p.0))
                                λ new. conclude-End sess new action (before sess) reason p.1 q.1).at
                              s' q.0;
                      }).at
                    s p.0;
            }

touched_id :
    (env : SessionsEnv) (now : ℕ) (sess : PlayerSession)
    → (touched env now sess).session_id ≡ sess.session_id
unfolding touched expired
touched_id env now sess = ground arith

module _ (env : SessionsEnv) (now : ℕ) (ctx : Option TokenActor) (start : Dict PlayerSession)
    (req : GetSessionRequest) where
  abbrev Touches : SessionResponse → Sessions env.Db → Type 0
  Touches = End env now ctx start req.meta req.session_id (touched env now)

  abbrev Touched : PlayerSession → PlayerSession → Sessions env.Db → Type 0
  Touched = Changed env now ctx start req.meta req.session_id (touched env now)

  kept-Triple :
      (sess : PlayerSession) (same : Bool)
      → lookup req.session_id start ≡ some sess
      → sess.session_id ≡ req.session_id
      → same_session (touched env now sess) sess ≡ same
      → Triple (Holding env start) Touches (Touched sess) (
          call (keep_touched env now same (touched env now sess)) >>= λ looked.
          or_return looked (fail env now ctx req.meta code_error "persistence unavailable"))
  unfolding keep_touched
  kept-Triple sess true there own e = record {
    at = λ s p.
        same-Changed env now ctx start req.meta req.session_id (touched env now) sess
          (touched env now sess) s refl (same_session-eq (touched env now sess) sess e) there p;
  }
  kept-Triple sess false there own e = record {
    at = λ s p.
        let new = touched env now sess in
        let s' = (persist_session env now new s).1 in
        let stored = (persist_session-Triple env now ctx start {E = Touches} new).at s p in
        subst
          (λ ok. Ends Touches (Touched sess) (
            or_return (if ok then some new else none)
              (fail env now ctx req.meta code_error "persistence unavailable") s'))
          (sym stored.0)
          (stored-Changed env now ctx start req.meta req.session_id (touched env now) sess new s'
            refl (touched_id env now sess ∙ own) stored.1);
  }

  touch-Triple :
      (sess : PlayerSession)
      → lookup req.session_id start ≡ some sess
      → sess.session_id ≡ req.session_id
      → Triple (Holding env start) Touches (Touched sess) (look_at_session env now ctx req sess)
  unfolding look_at_session touch_and_expire_session
  touch-Triple sess there own =
      kept-Triple sess (same_session (touched env now sess) sess) there own refl

close-Triple :
    (env : SessionsEnv) (now : ℕ) (ctx : Option TokenActor) (start : Dict PlayerSession)
    (req : EndSessionRequest) (sess : PlayerSession)
    → lookup req.session_id start ≡ some sess
    → sess.session_id ≡ req.session_id
    → let change = closed_by req (env.format_time now) in
      Triple
        (Holding env start)
        (End env now ctx start req.meta req.session_id change)
        (Changed env now ctx start req.meta req.session_id change sess)
        (close_session env now ctx req sess)
unfolding close_session closed_by
close-Triple env now ctx start req sess there own =
    let id = req.session_id in
    let change = closed_by req (env.format_time now) in
    let new = ended req.reason (env.format_time now) sess in
    elim (Bool-cases (is_active sess.state)) [
      | inl active ↦
          rw (active, if◌then◌else◌)
            (Triple-bind (persist_session-Triple env now ctx start new) λ ok.
              Triple-bind
                (Triple-return_if (not ok)
                  (fail env now ctx req.meta code_error "persistence unavailable")
                  (λ s p e. absurd (ground (arith, p.0, e))))
                λ _. Triple-pure new λ s p.
                  stored-Changed env now ctx start req.meta id change sess new s
                    (ground (arith, active)) own p.0.1)
      | inr closed ↦
          rw (closed, if◌then◌else◌)
            (Triple-pure sess λ s p.
              same-Changed env now ctx start req.meta id change sess sess s (ground (arith, closed))
                refl there p)
    ]

module _ (env : SessionsEnv) (now : ℕ) (ctx : Option TokenActor) (s : Sessions env.Db)
    (idle : IsIdle env s) where
  -- GetSession always answers, and either refuses and keeps every session, or the session that was
  -- asked for is there, the caller may use it, and the service answers and stores it as `touched`
  -- makes it and keeps every other session.
  pub get_session-Visit :
      (req : GetSessionRequest)
      → Answers
          (λ r s'.
            IsIdle env s'
            × Visit env ctx req.meta req.session_id (touched env now) s.sessions r s'.sessions)
          (get_session env now ctx (some req) s)
  unfolding get_session get_session_body
  get_session-Visit req =
      run-Answers (get_session_body env now ctx req)
        (visit-Triple env now ctx s.sessions req.meta req.session_id (touched env now)
          (req.session_id =ˢ "") "session_id is required" "get_session" (λ _. "{}") ""
          (look_at_session env now ctx req) (touch-Triple env now ctx s.sessions req))
        s (record { idle = idle; same = refl })

  -- EndSession always answers, and either refuses and keeps every session, or the session that was
  -- asked for is there, the caller may use it, and the service answers and stores it ended, if it was
  -- active, and as it was, if not, and keeps every other session.
  pub end_session-Visit :
      (req : EndSessionRequest)
      → Answers
          (λ r s'.
            IsIdle env s'
            × Visit env ctx req.meta req.session_id
                (closed_by req (env.format_time now))
                s.sessions
                r
                s'.sessions)
          (end_session env now ctx (some req) s)
  unfolding end_session end_session_body
  end_session-Visit req =
      run-Answers (end_session_body env now ctx req)
        (visit-Triple env now ctx s.sessions req.meta req.session_id
          (closed_by req (env.format_time now)) (req.session_id =ˢ "") "session_id is required"
          "end_session" env.marshal_session req.reason (close_session env now ctx req)
          (close-Triple env now ctx s.sessions req))
        s (record { idle = idle; same = refl })
