-- ===== src/Identity/Tokens.antt =====
-- RefreshToken of identity_grpc.go.
use open_rgs_go.Prelude.{
  ℕ, ◌+◌, String, Bool, true, false, not, ◌||◌, Option, none, some, ltb, ◌=ˢ◌, if◌then◌else◌,
}
use open_rgs_go.Prelude.Dict.{lookup, insert, erase}
use open_rgs_go.Prelude.Flow.{
  Body, pure, return, call, modify, or_return, return_if, run, ◌>>=◌, ◌>>◌,
}
use open_rgs_go.Proto.{
  Actor, actor_unspecified, RequestMeta, ResultCode, code_ok, code_denied, code_invalid, code_error,
  actor_type_name, same_actor_type,
}
use open_rgs_go.Actor.{meta_actor, actor_type_from_string}
use open_rgs_go.Audit.{Result, success}
use open_rgs_go.Journal.{Journal, audit, refuse_with, meta_of}
use open_rgs_go.Ledger.Env.{failed, no_rows, row}
use open_rgs_go.Identity.State.{
  IdentitySession, IdentitySessionRow, TokenRequest, TokenResponse, Identity, IdentityEnv,
  identity_host, identity_subject,
}

-- The request names no actor, or an incomplete one.
unfoldable pub no_actor : Option Actor → Bool
unfolding same_actor_type
no_actor none = true
no_actor (some a) = a.actor_id =ˢ "" || same_actor_type a.actor_type actor_unspecified

unfoldable pub other_actor : IdentitySession → Option Actor → Bool
unfolding same_actor_type
other_actor sess none = true
other_actor sess (some a) =
    not (sess.actor_id =ˢ a.actor_id) || not (same_actor_type sess.actor_type a.actor_type)

module _ (env : IdentityEnv) (now : ℕ) where
  abbrev pub fail : Option RequestMeta → ResultCode → String → TokenResponse
  fail meta code reason = record {
    meta = meta_of env.format_time now meta code reason;
    token = none;
  }

  unfoldable pub append_audit :
      Option RequestMeta
      → String
      → String
      → String
      → String
      → Result
      → String
      → Identity env.Db
      → Bool × Identity env.Db
  unfolding audit
  append_audit = audit identity_host env.journal_env now identity_subject

  -- if c { s.auditDenied(…, reason); return … }
  unfoldable pub deny_if :
      Bool → TokenRequest → String → String → Body (Identity env.Db) TokenResponse (Unit {0})
  unfolding refuse_with
  deny_if c req action reason =
      refuse_with identity_host env.journal_env now identity_subject (fail req.meta code_denied)
        req.meta req.refresh_token action (if c then some reason else none)

  unfoldable pub session_of_row : IdentitySessionRow → IdentitySession
  unfolding actor_type_from_string
  session_of_row r = record {
    refresh_token = r.refresh_token;
    actor_id = r.actor_id;
    actor_type = actor_type_from_string env.normalize r.actor_type;
    expires_at = r.expires_at;
    revoked = r.revoked;
  }

  -- The session of a token, none where there is none; none where the query fails.
  unfoldable pub find_session : String → Identity env.Db → Option (Option IdentitySession)
  unfolding session_of_row
  find_session token s = elim s.journal.db [
    | none ↦ some (lookup token s.refresh_sessions)
    | some d ↦ elim (env.query_session d token) [
      | failed ↦ none
      | no_rows ↦ some none
      | row r ↦ some (some (session_of_row r))
    ]
  ]

  unfoldable pub load_session :
      TokenRequest → Body (Identity env.Db) TokenResponse (Option IdentitySession)
  unfolding find_session
  load_session req s =
      or_return (find_session req.refresh_token s)
        (fail req.meta code_error "persistence unavailable") s

  -- The session, if it is neither revoked nor over.
  unfoldable pub usable : Option IdentitySession → Option IdentitySession
  usable none = none
  usable (some sess) = if sess.revoked || not (ltb now sess.expires_at) then none else some sess

  unfoldable pub rotated :
      TokenRequest → IdentitySession → String → Identity env.Db → IdentitySession
  rotated req sess raw s = record {
    refresh_token = raw;
    actor_id = sess.actor_id;
    actor_type = sess.actor_type;
    expires_at = now + s.refresh_ttl;
    revoked = false;
  }

  -- The old token is replaced by the new one.
  unfoldable pub rotate_session :
      String → IdentitySession → Identity env.Db → Bool × Identity env.Db
  rotate_session old new s = elim s.journal.db [
    | none ↦ (
      true,
      record s { refresh_sessions = insert new.refresh_token new (erase old s.refresh_sessions) },
    )
    | some d ↦
        let (ok, d') = env.rotate_session d old new in
        let j : Journal env.Db = record s.journal { db = some d' } in (ok, record s { journal = j })
  ]

  -- In memory the new token goes again, where its audit fails.
  unfoldable pub forget_unaudited : Bool → String → Identity env.Db → Identity env.Db
  forget_unaudited audited raw s = if audited then s else elim s.journal.db [
    | none ↦ record s { refresh_sessions = erase raw s.refresh_sessions }
    | some _ ↦ s
  ]

  abbrev pub token_answer : TokenRequest → IdentitySession → String → ℕ → TokenResponse
  token_answer req new access expiry = record {
    meta = meta_of env.format_time now req.meta code_ok "";
    token = some (record {
      access_token = access;
      refresh_token = new.refresh_token;
      token_type = "Bearer";
      expires_at = env.format_time expiry;
      actor = some (record { actor_id = new.actor_id; actor_type = new.actor_type });
    });
  }

  -- From the new session on.
  unfoldable pub replace_session :
      TokenRequest
      → IdentitySession
      → IdentitySession
      → String
      → ℕ
      → Body (Identity env.Db) TokenResponse TokenResponse
  unfolding rotate_session append_audit forget_unaudited
  replace_session req sess new access expiry = do
    stored ← call (rotate_session req.refresh_token new)
    return_if (not stored) (fail req.meta code_error "persistence unavailable")
    audited ← call (
        append_audit req.meta new.refresh_token "identity_refresh" (env.marshal_session sess)
          (env.marshal_session new) success "")
    modify (forget_unaudited audited new.refresh_token)
    return_if (not audited) (fail req.meta code_error "audit unavailable")
    pure (token_answer req new access expiry)

  -- From the session that was found on; `token` is what crypto/rand gives, none where it fails.
  unfoldable pub refresh_session :
      Option String
      → TokenRequest
      → IdentitySession
      → Body (Identity env.Db) TokenResponse TokenResponse
  unfolding deny_if other_actor actor_type_name rotated replace_session
  refresh_session token req sess s =
      (do
        deny_if (other_actor sess (meta_actor req.meta)) req "identity_refresh"
            "actor mismatch with token"
        signed ←
            or_return
              (env.sign_actor sess.actor_id (actor_type_name sess.actor_type) now s.access_ttl)
              (fail req.meta code_error "failed to sign token")
        raw ← or_return token (fail req.meta code_error "failed to create refresh token")
        replace_session req sess (rotated req sess raw s) signed.0 signed.1)
        s

  -- A session that may be refreshed, or a refusal.
  unfoldable pub refresh_found :
      Option String
      → TokenRequest
      → Option IdentitySession
      → Body (Identity env.Db) TokenResponse TokenResponse
  unfolding deny_if refresh_session
  refresh_found token req none =
      deny_if true req "identity_refresh" "invalid refresh token"
      >> return (fail req.meta code_denied "invalid refresh token")
  refresh_found token req (some sess) = refresh_session token req sess

  unfoldable pub refresh_body :
      Option String → TokenRequest → Body (Identity env.Db) TokenResponse TokenResponse
  unfolding no_actor load_session usable refresh_found
  refresh_body token req = do
    return_if (req.refresh_token =ˢ "") (fail none code_invalid "refresh_token is required")
    return_if (no_actor (meta_actor req.meta)) (fail req.meta code_invalid "actor is required")
    found ← load_session req
    refresh_found token req (usable found)

  unfoldable pub refresh_token :
      Option String → Option TokenRequest → Identity env.Db → Option TokenResponse × Identity env.Db
  unfolding refresh_body
  refresh_token token none = run (return (fail none code_invalid "refresh_token is required"))
  refresh_token token (some req) = run (refresh_body token req)
