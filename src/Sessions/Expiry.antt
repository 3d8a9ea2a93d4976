-- ===== src/Sessions/Expiry.antt =====
-- A session that was started and is then looked at.
use Prim.Native.String.{◌++◌ as ◌+ˢ◌}
use mathlib.Core.Path.{subst}
use open_rgs_go.Prelude.{
  ℕ, ◌+◌, String, ◌≡◌, ◌≢◌, refl, sym, ap, ◌∙◌, ltb, Option, none, some, arith, if◌then◌else◌,
  Bool-cases, inl, inr, true, false, ◌||◌, ◌=ˢ◌,
}
use open_rgs_go.Prelude.Dict.{Dict, lookup, insert, lookup-insert_self}
use open_rgs_go.Prelude.Flow.Triple.{Answers}
use open_rgs_go.Proto.{code_ok, code_denied, code_invalid}
use open_rgs_go.Actor.{TokenActor, resolve_actor}
use open_rgs_go.Audit.{success}
use open_rgs_go.Journal.{Journal, refuse_with, audit, meta_of}
use open_rgs_go.Journal.Sound.{record_event-IsSound}
use open_rgs_go.Sessions.State.{
  PlayerSession, SessionResponse, Sessions, SessionsEnv, StartSessionRequest, GetSessionRequest,
  is_active, state_active, state_expired, sessions_subject,
}
use open_rgs_go.Sessions.Methods.{
  touched, expired, timeout_for_request, authorize_start, persist_session, append_audit,
}
use open_rgs_go.Sessions.Handlers.{
  start_session, start_session_body, create_session, get_session, new_session, refuse, conclude,
  fail, answer_with,
}
use open_rgs_go.Sessions.Visits.{IsIdle}
use open_rgs_go.Sessions.Lifecycle.{Visit, refused, visited, get_session-Visit}
use open_rgs_go.Sessions.Starts.{Start, start_session-Start}

-- The state a look at a session shows, before and after its deadline.
touched-state :
    (env : SessionsEnv) (now : ℕ) (sess : PlayerSession) (deadline : ℕ)
    → sess.state ≡ state_active
    → env.parse_time sess.expires_at ≡ some deadline
    → (touched env now sess).state ≡ (if ltb deadline now then state_expired else state_active)
unfolding touched expired is_active
touched-state env now sess deadline active e = ground (arith, active, e)

-- A run that answers both ways answers OK both ways.
same_answer :
    {S : Type 0} (run : Option SessionResponse × S) (r r' : SessionResponse) (s : S)
    → run ≡ (some r, s)
    → run.0 ≡ some r'
    → r.meta.result_code ≡ code_ok
    → r'.meta.result_code ≡ code_ok
same_answer run r r' s e e' ok =
    let same : r' ≡ r = cc (e', ap (λ p. p.0) e) in ap (λ x. x.meta.result_code) same ∙ ok

-- What StartSession does once its checks have passed.
module _ (env : SessionsEnv) (now : ℕ) (ctx : Option TokenActor) (raw : String)
    (req : StartSessionRequest) (s : Sessions env.Db) (idle : IsIdle env s) where
  -- The session that is started: it ends when the time that the request asks for, or else the
  -- service's own, has passed.
  abbrev pub fresh_session : PlayerSession
  fresh_session = new_session env now ctx raw req (timeout_for_request req s)

  start_session-starts :
      (req.player_id =ˢ "" || req.device_id =ˢ "") ≡ false
      → authorize_start req.player_id (resolve_actor env.normalize ctx req.meta) ≡ none
      → (j : Journal env.Db) × (start_session env now ctx (some raw) (some req) s ≡ (
        some (answer_with env now ctx req.meta fresh_session),
        record s {
          sessions = insert fresh_session.session_id fresh_session s.sessions;
          journal = j;
        },
      ))
  unfolding start_session start_session_body refuse refuse_with create_session persist_session
      conclude append_audit audit
  start_session-starts complete allowed =
      let (j, done, after) =
        record_event-IsSound env.journal_env now sessions_subject req.meta fresh_session.session_id
          "start_session" "{}" (env.marshal_session fresh_session) success "" s.journal
          idle.sound in
      (j, ground (arith, complete, allowed, idle.sound.offline, idle.cached, done))

  -- An accepted request passed the checks.
  start_session-there :
      (r : SessionResponse) (s' : Sessions env.Db)
      → start_session env now ctx (some raw) (some req) s ≡ (some r, s')
      → r.meta.result_code ≡ code_ok
      → s'.sessions ≡ insert fresh_session.session_id fresh_session s.sessions
  unfolding start_session start_session_body refuse refuse_with audit meta_of
  start_session-there r s' e ok = elim (Bool-cases (req.player_id =ˢ "" || req.device_id =ˢ "")) [
    | inl empty ↦ absurd (incomplete empty)
    | inr complete ↦
        by_caller complete
          (authorize_start req.player_id (resolve_actor env.normalize ctx req.meta)) refl
  ]
    where
      incomplete : (req.player_id =ˢ "" || req.device_id =ˢ "") ≡ true → ⊥
      incomplete empty = absurd (
          cc (
            same_answer _ r
              (fail env now ctx none code_invalid "player_id and device_id are required") s' e
              (ground (arith, empty)) ok))

      by_caller :
          (req.player_id =ˢ "" || req.device_id =ˢ "") ≡ false
          → (o : Option String)
          → authorize_start req.player_id (resolve_actor env.normalize ctx req.meta) ≡ o
          → s'.sessions ≡ insert fresh_session.session_id fresh_session s.sessions
      by_caller complete (some reason) why = absurd (
          cc (
            same_answer _ r (fail env now ctx req.meta code_denied reason) s' e
              (ground (arith, complete, why)) ok))
      by_caller complete none allowed =
          let (j, e') = start_session-starts complete allowed in ap (λ p. p.1.sessions) (sym e ∙ e')

module _ (env : SessionsEnv) (now later : ℕ) (ctx₁ ctx₂ : Option TokenActor) (raw : String)
    (req : StartSessionRequest) (get : GetSessionRequest) (s : Sessions env.Db) where
  -- When the session of the request is over.
  abbrev pub deadline : ℕ
  deadline = now + timeout_for_request req s

  -- A refusal, or an answer with the player's session, which carries the deadline, is active up to it
  -- and expired after it.
  pub data Expires (r : SessionResponse) : Type 0 where
    refusal : r.meta.result_code ≢ code_ok → Expires r
    shown :
        r.meta.result_code ≡ code_ok
        → (sess : PlayerSession) → r.session ≡ some sess
        → sess.player_id ≡ req.player_id
        → sess.expires_at ≡ env.format_time deadline
        → sess.state ≡ (if ltb deadline later then state_expired else state_active)
        → Expires r

  visited-Expires :
      (r : SessionResponse) (old sessions : Dict PlayerSession)
      → env.parse_time (env.format_time deadline) ≡ some deadline
      → lookup get.session_id old
        ≡ some (new_session env now ctx₁ raw req (timeout_for_request req s))
      → Visit env ctx₂ get.meta get.session_id (touched env later) old r sessions
      → Expires r
  unfolding touched expired is_active
  visited-Expires r old sessions parses there (refused bad same) = refusal bad
  visited-Expires r old sessions parses there (visited good sess there' allowed answer u) =
      let new = new_session env now ctx₁ raw req (timeout_for_request req s) in
      let e : sess ≡ new = ground (arith, there, there') in
      shown good (touched env later sess) answer (ground (arith, ap (λ x. x.player_id) e))
        (ground (arith, ap (λ x. x.expires_at) e))
        (touched-state env later sess deadline (ap (λ x. x.state) e)
          (ap (λ x. env.parse_time x.expires_at) e ∙ parses))

  -- Where the deadline parses back to itself: once StartSession has answered OK, GetSession for the
  -- new session's id, at whatever time, answers, and either refuses or shows the session with the
  -- deadline that is the start plus the time that the request asks for (the service's own where it
  -- asks for none, at most a day), active up to that deadline and expired after it.
  pub start_session-get_session-Expires :
      (s' : Sessions env.Db) (r : SessionResponse)
      → IsIdle env s
      → env.parse_time (env.format_time deadline) ≡ some deadline
      → get.session_id ≡ "sess-" +ˢ raw
      → start_session env now ctx₁ (some raw) (some req) s ≡ (some r, s')
      → r.meta.result_code ≡ code_ok
      → Answers (λ r' _. Expires r') (get_session env later ctx₂ (some get) s')
  start_session-get_session-Expires s' r idle parses asked e ok =
      let new = fresh_session env now ctx₁ raw req s idle in
      let there : lookup get.session_id s'.sessions ≡ some new =
        ap (λ id. lookup id s'.sessions) asked
        ∙ ap (lookup new.session_id) (start_session-there env now ctx₁ raw req s idle r s' e ok)
        ∙ lookup-insert_self new.session_id new s.sessions in
      let (r₀, e₀, end) =
        subst
          (λ p.
            Answers
              (λ r s'. IsIdle env s' × Start env now ctx₁ s.sessions (some raw) req r s'.sessions)
              p)
          e (start_session-Start env now ctx₁ (some raw) req s idle) in
      let (r', done, visit) = get_session-Visit env later ctx₂ s' end.0 get in
      (r', done, visited-Expires r' s'.sessions _ parses there visit.1)
