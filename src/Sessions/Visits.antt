-- ===== src/Sessions/Visits.antt =====
-- What the handlers of sessions_grpc.go do to the sessions, on a service that keeps them in memory.
use mathlib.Core.Path.{subst}
use open_rgs_go.Prelude.{
  ℕ, String, ◌≡◌, refl, sym, ap, true, false, not, Option, none, some, arith, eq_iff, ◌=ˢ◌,
  if◌then◌else◌,
}
use open_rgs_go.Prelude.Int64.{IsPositive}
use open_rgs_go.Prelude.Dict.{Dict, lookup, insert, lookup-insert}
use open_rgs_go.Prelude.Flow.{call}
use open_rgs_go.Prelude.Flow.Triple.{Ends, Triple, Triple-bind, Triple-return_if, Triple-pure}
use open_rgs_go.Proto.{RequestMeta, code_denied, code_invalid, code_error}
use open_rgs_go.Actor.{TokenActor}
use open_rgs_go.Audit.{Result}
use open_rgs_go.Journal.{Journal}
use open_rgs_go.Journal.Sound.{IsSound, audit-Triple, refuse_with-Triple}
use open_rgs_go.Sessions.State.{
  PlayerSession, SessionResponse, Sessions, SessionsEnv, sessions_host, sessions_subject,
  same_session, same_state, SessionState, state_unspecified, state_active, state_ended,
  state_expired,
}
use open_rgs_go.Sessions.Methods.{append_audit, load_session, persist_session}
use open_rgs_go.Sessions.Handlers.{fail, answer_with, refuse, conclude, find_session, found_session}

-- Every session is filed under its own id.
abbrev pub IsFiled : Dict PlayerSession → Type 0
IsFiled sessions =
    (id : String) (sess : PlayerSession) → lookup id sessions ≡ some sess → sess.session_id ≡ id

pub IsFiled-insert :
    (sess : PlayerSession) (sessions : Dict PlayerSession)
    → IsFiled sessions
    → IsFiled (insert sess.session_id sess sessions)
IsFiled-insert sess sessions filed id found e = ground (
  arith,
  lookup-insert sess.session_id id sess sessions,
  eq_iff sess.session_id id,
  filed id found,
  e,
)

-- A service that keeps its sessions in memory, between two requests.
pub record IsIdle (env : SessionsEnv) (s : Sessions env.Db) : Type 0 where
  pub sound : IsSound env.journal_env s.journal
  pub cached : s.disable_in_memory_cache ≡ false
  pub filed : IsFiled s.sessions
  pub timed : IsPositive s.default_timeout

-- The sessions are as given.
pub record Holding (env : SessionsEnv) (start : Dict PlayerSession) (s : Sessions env.Db)
    : Type 0 where
  pub idle : IsIdle env s
  pub same : s.sessions ≡ start

-- The session under `id` is `new`, and every other is as it was.
abbrev pub Updated : String → PlayerSession → Dict PlayerSession → Dict PlayerSession → Type 0
Updated id new start sessions =
    (j : String) → lookup j sessions ≡ (if id =ˢ j then some new else lookup j start)

same_state-eq : (a b : SessionState) → same_state a b ≡ true → a ≡ b
unfolding same_state
same_state-eq state_unspecified state_unspecified h = refl
same_state-eq state_active state_active h = refl
same_state-eq state_ended state_ended h = refl
same_state-eq state_expired state_expired h = refl
same_state-eq state_unspecified state_active h = absurd (cc h)
same_state-eq state_unspecified state_ended h = absurd (cc h)
same_state-eq state_unspecified state_expired h = absurd (cc h)
same_state-eq state_active state_unspecified h = absurd (cc h)
same_state-eq state_active state_ended h = absurd (cc h)
same_state-eq state_active state_expired h = absurd (cc h)
same_state-eq state_ended state_unspecified h = absurd (cc h)
same_state-eq state_ended state_active h = absurd (cc h)
same_state-eq state_ended state_expired h = absurd (cc h)
same_state-eq state_expired state_unspecified h = absurd (cc h)
same_state-eq state_expired state_active h = absurd (cc h)
same_state-eq state_expired state_ended h = absurd (cc h)

pub same_session-eq : (a b : PlayerSession) → same_session a b ≡ true → a ≡ b
unfolding same_session
same_session-eq a b h =
    let e₁ : a.session_id ≡ b.session_id = ground (arith, h, eq_iff a.session_id b.session_id) in
    let e₂ : a.player_id ≡ b.player_id = ground (arith, h, eq_iff a.player_id b.player_id) in
    let e₃ : a.device_id ≡ b.device_id = ground (arith, h, eq_iff a.device_id b.device_id) in
    let e₄ : a.state ≡ b.state = same_state-eq a.state b.state (ground (arith, h)) in
    let e₅ : a.started_at ≡ b.started_at = ground (arith, h, eq_iff a.started_at b.started_at) in
    let e₆ : a.last_seen_at ≡ b.last_seen_at =
      ground (arith, h, eq_iff a.last_seen_at b.last_seen_at) in
    let e₇ : a.ended_at ≡ b.ended_at = ground (arith, h, eq_iff a.ended_at b.ended_at) in
    let e₈ : a.expires_at ≡ b.expires_at = ground (arith, h, eq_iff a.expires_at b.expires_at) in
    let e₉ : a.end_reason ≡ b.end_reason = ground (arith, h, eq_iff a.end_reason b.end_reason) in
    λ i. record {
      session_id = e₁ i;
      player_id = e₂ i;
      device_id = e₃ i;
      state = e₄ i;
      started_at = e₅ i;
      last_seen_at = e₆ i;
      ended_at = e₇ i;
      expires_at = e₈ i;
      end_reason = e₉ i;
    }

module _ (env : SessionsEnv) (start : Dict PlayerSession) where
  abbrev pub Kept : Sessions env.Db → Type 0
  Kept = Holding env start

  pub Holding-journal :
      (s : Sessions env.Db) (j : Journal env.Db)
      → Kept s
      → IsSound env.journal_env j
      → Kept (record s { journal = j })
  Holding-journal s j h sound = record {
    idle = record {
      sound = sound;
      cached = h.idle.cached;
      filed = h.idle.filed;
      timed = h.idle.timed;
    };
    same = h.same;
  }

module _ (env : SessionsEnv) (now : ℕ) (ctx : Option TokenActor) (start : Dict PlayerSession)
    {E : SessionResponse → Sessions env.Db → Type 0} where
  pub refuse-Triple :
      (meta : Option RequestMeta) (object_id action : String) (o : Option String)
      → ((s : Sessions env.Db) (reason : String)
          → Holding env start s
          → o ≡ some reason
          → E (fail env now ctx meta code_denied reason) s)
      → Triple
          (Holding env start)
          E
          (λ _ s. Holding env start s × (o ≡ none))
          (refuse env now ctx meta object_id action o)
  unfolding refuse
  refuse-Triple meta object_id action o h =
      refuse_with-Triple sessions_host env.journal_env now sessions_subject (λ s p. p.idle.sound)
        (λ s j p sound. Holding-journal env start s j p sound) _ meta object_id action o h

  pub conclude-Triple :
      (meta : Option RequestMeta) (session_id action before : String) (sess : PlayerSession)
      (reason : String)
      → ((s : Sessions env.Db) → Holding env start s → E (answer_with env now ctx meta sess) s)
      → Triple
          (Holding env start)
          E
          E
          (conclude env now ctx meta session_id action before sess reason)
  unfolding conclude append_audit
  conclude-Triple meta session_id action before sess reason h =
      Triple-bind
        (audit-Triple sessions_host env.journal_env now sessions_subject (λ s p. p.idle.sound)
          (λ s j p sound. Holding-journal env start s j p sound) meta session_id action before
          (env.marshal_session sess) Result.success reason)
        λ ok.
          Triple-bind
            (Triple-return_if (not ok) (fail env now ctx meta code_error "audit unavailable")
              (λ s p e. absurd (ground (arith, p.0, e))))
            λ _. Triple-pure (answer_with env now ctx meta sess) (λ s p. h s p.0.1)

  pub find_session-Triple :
      (meta : Option RequestMeta) (session_id : String)
      → ((s : Sessions env.Db)
          → Holding env start s
          → E (fail env now ctx meta code_invalid "session not found") s)
      → Triple
          (Holding env start)
          E
          (λ sess s. Holding env start s × (lookup session_id start ≡ some sess))
          (find_session env now ctx meta session_id)
  unfolding find_session load_session
  find_session-Triple meta session_id h = record {
    at = λ s p.
        subst (λ o. Ends E Found (found_session env now ctx meta o s)) (sym (loaded s p))
          (by_lookup s p (lookup session_id start) refl);
  }
    where
      Found : PlayerSession → Sessions env.Db → Type 0
      Found sess s = Holding env start s × (lookup session_id start ≡ some sess)

      loaded :
          (s : Sessions env.Db)
          → Holding env start s
          → load_session env now session_id s ≡ some (lookup session_id start)
      loaded s p =
          ground (arith, p.idle.sound.offline, p.idle.cached, ap (lookup session_id) p.same)

      by_lookup :
          (s : Sessions env.Db)
          → Holding env start s
          → (o : Option PlayerSession) → lookup session_id start ≡ o
          → Ends E Found (found_session env now ctx meta (some o) s)
      by_lookup s p none e = h s p
      by_lookup s p (some sess) e = (p, e)

  -- A session that was read from the map goes back into it.
  pub persist_session-Triple :
      (sess : PlayerSession)
      → Triple
          (Holding env start)
          E
          (λ ok s. (ok ≡ true) × Holding env (insert sess.session_id sess start) s)
          (call (persist_session env now sess))
  unfolding persist_session
  persist_session-Triple sess = record { at = λ s p. stored s p }
    where
      placed :
          (s : Sessions env.Db)
          → Holding env start s
          → Holding env
              (insert sess.session_id sess start)
              (record s { sessions = insert sess.session_id sess s.sessions })
      placed s p = record {
        idle = record {
          sound = p.idle.sound;
          cached = p.idle.cached;
          filed = IsFiled-insert sess s.sessions p.idle.filed;
          timed = p.idle.timed;
        };
        same = ap (insert sess.session_id sess) p.same;
      }

      stored :
          (s : Sessions env.Db)
          → Holding env start s
          → ((persist_session env now sess s).0 ≡ true)
            × Holding env (insert sess.session_id sess start) (persist_session env now sess s).1
      stored s p =
          let e : persist_session env now sess s
              ≡ (true, record s { sessions = insert sess.session_id sess s.sessions }) =
            ground (arith, p.idle.sound.offline, p.idle.cached) in
          rw e (refl, placed s p)
