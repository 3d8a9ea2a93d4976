-- ===== src/Identity/Logout.antt =====
-- Logout of identity_grpc.go.
use open_rgs_go.Prelude.{ℕ, String, Bool, true, not, Option, none, some, ◌=ˢ◌, if◌then◌else◌}
use open_rgs_go.Prelude.Dict.{erase}
use open_rgs_go.Prelude.Flow.{Body, pure, return, call, or_return, return_if, run, ◌>>=◌, ◌>>◌}
use open_rgs_go.Proto.{
  RequestMeta, ResponseMeta, ResultCode, code_ok, code_denied, code_invalid, code_error,
}
use open_rgs_go.Actor.{meta_actor}
use open_rgs_go.Audit.{success}
use open_rgs_go.Journal.{Journal, refuse_with, meta_of}
use open_rgs_go.Identity.State.{
  IdentitySession, Identity, IdentityEnv, identity_host, identity_subject,
}
use open_rgs_go.Identity.Tokens.{no_actor, other_actor, append_audit, find_session}

pub record LogoutRequest : Type 0 where
  pub meta : Option RequestMeta
  pub refresh_token : String

pub record LogoutResponse : Type 0 where
  pub meta : ResponseMeta

module _ (env : IdentityEnv) (now : ℕ) where
  abbrev pub logout_answer : Option RequestMeta → ResultCode → String → LogoutResponse
  logout_answer meta code reason = record { meta = meta_of env.format_time now meta code reason }

  unfoldable pub stored_session :
      LogoutRequest → Body (Identity env.Db) LogoutResponse (Option IdentitySession)
  unfolding find_session
  stored_session req s =
      or_return (find_session env now req.refresh_token s)
        (logout_answer req.meta code_error "persistence unavailable") s

  -- if the actor is not the session's { s.auditDenied(…); return … }
  unfoldable pub deny_other :
      LogoutRequest → IdentitySession → Body (Identity env.Db) LogoutResponse (Unit {0})
  unfolding refuse_with other_actor
  deny_other req sess =
      refuse_with identity_host env.journal_env now identity_subject
        (logout_answer req.meta code_denied) req.meta req.refresh_token "identity_logout"
        (if other_actor sess (meta_actor req.meta) then some "actor mismatch with token" else none)

  -- In the database the session is marked, in memory it is taken away.
  unfoldable pub revoke_session : String → Identity env.Db → Bool × Identity env.Db
  revoke_session token s = elim s.journal.db [
    | none ↦ (true, record s { refresh_sessions = erase token s.refresh_sessions })
    | some d ↦
        let (ok, d') = env.revoke_session d token in
        let j : Journal env.Db = record s.journal { db = some d' } in (ok, record s { journal = j })
  ]

  -- From the session that was found on.
  unfoldable pub close_session :
      LogoutRequest → IdentitySession → Body (Identity env.Db) LogoutResponse LogoutResponse
  unfolding deny_other revoke_session append_audit
  close_session req sess = do
    deny_other req sess
    stored ← call (revoke_session req.refresh_token)
    return_if (not stored) (logout_answer req.meta code_error "persistence unavailable")
    audited ← call (
        append_audit env now req.meta req.refresh_token "identity_logout" (env.marshal_session sess)
          (env.marshal_session (record sess { revoked = true })) success "")
    return_if (not audited) (logout_answer req.meta code_error "audit unavailable")
    pure (logout_answer req.meta code_ok "")

  unfoldable pub logout_found :
      LogoutRequest → Option IdentitySession → Body (Identity env.Db) LogoutResponse LogoutResponse
  unfolding close_session
  logout_found req none = return (logout_answer req.meta code_denied "refresh token not found")
  logout_found req (some sess) = close_session req sess

  unfoldable pub logout_body : LogoutRequest → Body (Identity env.Db) LogoutResponse LogoutResponse
  unfolding no_actor stored_session logout_found
  logout_body req = do
    return_if (req.refresh_token =ˢ "")
        (logout_answer none code_invalid "refresh_token is required")
    return_if (no_actor (meta_actor req.meta))
        (logout_answer req.meta code_invalid "actor is required")
    found ← stored_session req
    logout_found req found

  unfoldable pub logout :
      Option LogoutRequest → Identity env.Db → Option LogoutResponse × Identity env.Db
  unfolding logout_body
  logout none = run (return (logout_answer none code_invalid "refresh_token is required"))
  logout (some req) = run (logout_body req)
