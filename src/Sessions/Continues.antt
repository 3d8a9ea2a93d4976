-- ===== src/Sessions/Continues.antt =====
-- What StartSession, EndSession and GetSession can make of a session.
use open_rgs_go.Prelude.{
  ℕ, String, ◌≡◌, ◌≢◌, refl, ap, ◌∙◌, true, false, ltb, Option, arith, ◌=ˢ◌, eq_iff, if◌then◌else◌,
  if_both,
}
use open_rgs_go.Actor.{TokenActor}
use open_rgs_go.Sessions.State.{
  PlayerSession, SessionsEnv, StartSessionRequest, EndSessionRequest, is_active, state_unspecified,
}
use open_rgs_go.Sessions.Methods.{touched, expired}
use open_rgs_go.Sessions.Handlers.{new_session}
use open_rgs_go.Sessions.Lifecycle.{closed_by}

-- An active session has no reason for its end, and one that is over has one.
pub record IsCoherent (sess : PlayerSession) : Type 0 where
  pub going : is_active sess.state ≡ true → sess.end_reason ≡ ""
  pub over : is_active sess.state ≡ false → sess.end_reason ≢ ""
  pub specified : sess.state ≢ state_unspecified

over-IsCoherent :
    (sess : PlayerSession)
    → is_active sess.state ≡ false
    → sess.state ≢ state_unspecified
    → sess.end_reason ≢ ""
    → IsCoherent sess
over-IsCoherent sess closed specified reason = record {
  going = λ active. absurd (ground (arith, active, closed));
  over = λ _. reason;
  specified = specified;
}

reason_or_lem : (old new : String) → new ≢ "" → (if old =ˢ "" then new else old) ≢ ""
reason_or_lem old new h =
    if_both (λ x. x ≢ "") (old =ˢ "") new old (λ _. h) (λ e k. ground (arith, e, k, eq_iff old ""))

pub touched-IsCoherent :
    (env : SessionsEnv) (now : ℕ) (sess : PlayerSession)
    → IsCoherent sess
    → IsCoherent (touched env now sess)
unfolding touched expired is_active
touched-IsCoherent env now sess c =
    if_both IsCoherent (is_active sess.state) _ sess
      (λ _.
        if_both IsCoherent (ltb _ now) _ _
          (λ _.
            over-IsCoherent _ refl (λ e. cc e)
              (reason_or_lem sess.end_reason "session timeout" (λ e. cc e)))
          (λ _. record { going = c.going; over = c.over; specified = c.specified }))
      (λ _. c)

pub closed_by-IsCoherent :
    (req : EndSessionRequest) (at : String) (sess : PlayerSession)
    → IsCoherent sess
    → IsCoherent (closed_by req at sess)
unfolding closed_by is_active
closed_by-IsCoherent req at sess c =
    if_both IsCoherent (is_active sess.state) _ sess
      (λ _.
        over-IsCoherent _ refl (λ e. cc e) (reason_or_lem req.reason "ended by actor" (λ e. cc e)))
      (λ _. c)

pub new_session-IsCoherent :
    (env : SessionsEnv) (now : ℕ) (ctx : Option TokenActor) (raw : String)
    (req : StartSessionRequest) (t : ℕ)
    → IsCoherent (new_session env now ctx raw req t)
unfolding is_active
new_session-IsCoherent env now ctx raw req t = record {
  going = λ _. refl;
  over = λ closed. absurd (cc closed);
  specified = λ e. cc e;
}

-- What a session may become: it keeps its player, device, start and deadline, and stays as it is once
-- it is over.
pub record Continues (old new : PlayerSession) : Type 0 where
  pub player : new.player_id ≡ old.player_id
  pub device : new.device_id ≡ old.device_id
  pub start : new.started_at ≡ old.started_at
  pub deadline : new.expires_at ≡ old.expires_at
  pub final : is_active old.state ≡ false → new ≡ old

pub Continues-refl : (sess : PlayerSession) → Continues sess sess
Continues-refl sess = record {
  player = refl;
  device = refl;
  start = refl;
  deadline = refl;
  final = λ _. refl;
}

pub Continues-trans : (a b c : PlayerSession) → Continues a b → Continues b c → Continues a c
Continues-trans a b c f g = record {
  player = g.player ∙ f.player;
  device = g.device ∙ f.device;
  start = g.start ∙ f.start;
  deadline = g.deadline ∙ f.deadline;
  final = λ closed.
      g.final (ap (λ sess. is_active sess.state) (f.final closed) ∙ closed) ∙ f.final closed;
}

-- A session that is still active may change in its other fields.
active-Continues :
    (old new : PlayerSession)
    → is_active old.state ≡ true
    → new.player_id ≡ old.player_id
    → new.device_id ≡ old.device_id
    → new.started_at ≡ old.started_at
    → new.expires_at ≡ old.expires_at
    → Continues old new
active-Continues old new active player device start deadline = record {
  player = player;
  device = device;
  start = start;
  deadline = deadline;
  final = λ closed. absurd (ground (arith, active, closed));
}

pub touched-Continues :
    (env : SessionsEnv) (now : ℕ) (sess : PlayerSession) → Continues sess (touched env now sess)
unfolding touched expired
touched-Continues env now sess =
    if_both (Continues sess) (is_active sess.state) _ sess
      (λ active.
        if_both (Continues sess) (ltb _ now) _ _
          (λ _. active-Continues sess _ active refl refl refl refl)
          (λ _. active-Continues sess _ active refl refl refl refl))
      (λ _. Continues-refl sess)

pub closed_by-Continues :
    (req : EndSessionRequest) (at : String) (sess : PlayerSession)
    → Continues sess (closed_by req at sess)
unfolding closed_by
closed_by-Continues req at sess =
    if_both (Continues sess) (is_active sess.state) _ sess
      (λ active. active-Continues sess _ active refl refl refl refl) (λ _. Continues-refl sess)
