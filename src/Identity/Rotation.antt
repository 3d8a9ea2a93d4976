-- ===== src/Identity/Rotation.antt =====
-- RefreshToken of identity_grpc.go on a service that keeps its sessions in memory.
use mathlib.Core.Path.{subst}
use open_rgs_go.Prelude.{
  ℕ, ◌<◌, String, ◌≡◌, ◌≢◌, refl, sym, ap, ◌∙◌, Bool, true, false, not, Option, none, some, arith,
  ltb, ◌=ˢ◌, if◌then◌else◌, if_both, ◌||◌,
}
use open_rgs_go.Prelude.Dict.{Dict, lookup, insert, erase}
use open_rgs_go.Prelude.Flow.{call, modify, return, or_return}
use open_rgs_go.Prelude.Flow.Triple.{
  Ends, Triple, Triple-bind, Triple-guard, Triple-pure, Triple-require, Triple-given, Triple-weaken,
  Triple-or_return, Answers, run-Answers,
}
use open_rgs_go.Proto.{
  RequestMeta, ResultCode, code_ok, code_denied, code_invalid, code_error, actor_type_name,
}
use open_rgs_go.Actor.{meta_actor}
use open_rgs_go.Audit.{success}
use open_rgs_go.Journal.{meta_of}
use open_rgs_go.Journal.Sound.{IsSound, audit-Triple, refuse_with-Triple}
use open_rgs_go.Identity.State.{
  IdentitySession, TokenRequest, TokenResponse, Identity, IdentityEnv, identity_host,
  identity_subject,
}
use open_rgs_go.Identity.Tokens.{
  fail, no_actor, other_actor, append_audit, deny_if, find_session, load_session, usable, rotated,
  rotate_session, forget_unaudited, token_answer, replace_session, refresh_session, refresh_found,
  refresh_body, refresh_token,
}

module _ (env : IdentityEnv) (now : ℕ) (token : Option String) (req : TokenRequest)
    (start : Dict IdentitySession) where
  -- A refusal that keeps the sessions; or the token's session was alive and the named actor's, and
  -- it is replaced by one of the same actor under the fresh token.
  pub data Rotation (r : TokenResponse) (sessions : Dict IdentitySession) : Type 0 where
    refused : r.meta.result_code ≢ code_ok → sessions ≡ start → Rotation r sessions
    rotates :
        (sess : IdentitySession)
        → lookup req.refresh_token start ≡ some sess
        → sess.revoked ≡ false
        → now < sess.expires_at
        → other_actor sess (meta_actor req.meta) ≡ false
        → (raw : String) → token ≡ some raw
        → (new : IdentitySession) → new.refresh_token ≡ raw
        → new.actor_id ≡ sess.actor_id
        → new.actor_type ≡ sess.actor_type
        → new.revoked ≡ false
        → (access : String) (expiry : ℕ) → r ≡ token_answer env now req new access expiry
        → sessions ≡ insert raw new (erase req.refresh_token start)
        → Rotation r sessions

  -- The sessions are as given, and every event is taken.
  record Held (sessions : Dict IdentitySession) (s : Identity env.Db) : Type 0 where
    sound : IsSound env.journal_env s.journal
    same : s.refresh_sessions ≡ sessions

  abbrev End : TokenResponse → Identity env.Db → Type 0
  End r s = IsSound env.journal_env s.journal × Rotation r s.refresh_sessions

  fail-End :
      (of : Option RequestMeta) (code : ResultCode) (reason : String) (s : Identity env.Db)
      → code ≢ code_ok
      → Held start s
      → End (fail env now of code reason) s
  unfolding meta_of
  fail-End of code reason s bad p = (p.sound, refused bad p.same)

  deny-Triple :
      (c : Bool) (action reason : String)
      → Triple
          (Held start)
          End
          (λ _ s. Held start s × (c ≡ false))
          (deny_if env now c req action reason)
  unfolding deny_if
  deny-Triple c action reason =
      Triple-weaken (λ s p. p) (λ _ s q. (q.0, ground (arith, q.1)))
        (refuse_with-Triple identity_host env.journal_env now identity_subject (λ s p. p.sound)
          (λ s j p sound. record { sound = sound; same = p.same })
          (fail env now req.meta code_denied) req.meta req.refresh_token action
          (if c then some reason else none)
          (λ s why p _. fail-End req.meta code_denied why s (λ e. cc e) p))

  rotate-Triple :
      (new : IdentitySession)
      → Triple
          (Held start)
          End
          (λ ok s.
            (ok ≡ true) × Held (insert new.refresh_token new (erase req.refresh_token start)) s)
          (call (rotate_session env now req.refresh_token new))
  unfolding rotate_session
  rotate-Triple new = record {
    at = λ s p.
        let sessions = insert new.refresh_token new (erase req.refresh_token s.refresh_sessions) in
        let e : rotate_session env now req.refresh_token new s
            ≡ (true, record s { refresh_sessions = sessions }) =
          ground (arith, p.sound.offline) in
        subst
          (λ (x : Bool × Identity env.Db).
            (x.0 ≡ true) × Held (insert new.refresh_token new (erase req.refresh_token start)) x.1)
          (sym e)
          (
            refl,
            record {
              sound = p.sound;
              same = ap (λ d. insert new.refresh_token new (erase req.refresh_token d)) p.same;
            },
          );
  }

  -- Nothing is forgotten where the audit was taken.
  keep-Triple :
      (sessions : Dict IdentitySession) (audited : Bool) (raw : String)
      → Triple
          (λ s. (audited ≡ true) × Held sessions s)
          End
          (λ _ s. (audited ≡ true) × Held sessions s)
          (modify (forget_unaudited env now audited raw))
  unfolding forget_unaudited
  keep-Triple sessions true raw = record { at = λ s p. p }
  keep-Triple sessions false raw = record { at = λ s p. absurd (cc p.0) }

  module _ (sess : IdentitySession) (there : lookup req.refresh_token start ≡ some sess)
      (alive : sess.revoked ≡ false) (early : now < sess.expires_at) where
    replace-Triple :
        (raw : String) (new : IdentitySession) (access : String) (expiry : ℕ)
        → other_actor sess (meta_actor req.meta) ≡ false
        → token ≡ some raw
        → new.refresh_token ≡ raw
        → new.actor_id ≡ sess.actor_id
        → new.actor_type ≡ sess.actor_type
        → new.revoked ≡ false
        → Triple (Held start) End End (replace_session env now req sess new access expiry)
    unfolding replace_session append_audit
    replace-Triple raw new access expiry actor drawn own id type fresh =
        let sessions = insert new.refresh_token new (erase req.refresh_token start) in
        Triple-bind (rotate-Triple new) λ stored.
          Triple-bind
            (Triple-require stored (fail env now req.meta code_error "persistence unavailable"))
            λ _.
              Triple-bind
                (audit-Triple identity_host env.journal_env now identity_subject {P = Held sessions}
                  (λ s p. p.sound) (λ s j p sound. record { sound = sound; same = p.same }) req.meta
                  new.refresh_token "identity_refresh" (env.marshal_session sess)
                  (env.marshal_session new) success "")
                λ audited. Triple-bind (keep-Triple sessions audited new.refresh_token) λ _.
                  Triple-bind
                    (Triple-require audited (fail env now req.meta code_error "audit unavailable"))
                    λ _. Triple-pure (token_answer env now req new access expiry) λ s p. (
                      p.sound,
                      rotates sess there alive early actor raw drawn new own id type fresh access
                          expiry refl
                          (p.same ∙ ap (λ k. insert k new (erase req.refresh_token start)) own),
                    )

    refresh_session-Triple : Triple (Held start) End End (refresh_session env now token req sess)
    unfolding refresh_session rotated
    refresh_session-Triple = record {
      at = λ s p.
          (Triple-bind {E = End} {Z = End}
              (deny-Triple (other_actor sess (meta_actor req.meta)) "identity_refresh"
                "actor mismatch with token")
              λ _. Triple-given λ actor.
                Triple-bind
                  (Triple-or_return
                    (env.sign_actor sess.actor_id (actor_type_name sess.actor_type) now
                      s.access_ttl)
                    (fail env now req.meta code_error "failed to sign token")
                    (λ s q. fail-End req.meta code_error "failed to sign token" s (λ e. cc e) q))
                  λ signed. Triple-given λ _.
                    Triple-bind
                      (Triple-or_return token
                        (fail env now req.meta code_error "failed to create refresh token")
                        (λ s q.
                          fail-End req.meta code_error "failed to create refresh token" s
                            (λ e. cc e) q))
                      λ raw. Triple-given λ drawn.
                        replace-Triple raw (rotated env now req sess raw s) signed.0 signed.1 actor
                          drawn refl refl refl refl).at
            s p;
    }

  invalid-Triple : Triple (Held start) End End (refresh_found env now token req none)
  unfolding refresh_found
  invalid-Triple =
      Triple-bind {k = λ _. return (fail env now req.meta code_denied "invalid refresh token")}
        (deny-Triple true "identity_refresh" "invalid refresh token")
        λ _. Triple-given λ e. absurd (cc e)

  found-Triple :
      (o : Option IdentitySession)
      → lookup req.refresh_token start ≡ o
      → Triple (Held start) End End (refresh_found env now token req (usable env now o))
  unfolding refresh_found usable
  found-Triple none e = invalid-Triple
  found-Triple (some sess) e =
      if_both (λ o. Triple (Held start) End End (refresh_found env now token req o))
        (sess.revoked || not (ltb now sess.expires_at)) none (some sess) (λ _. invalid-Triple)
        (λ good. refresh_session-Triple sess e (ground (arith, good)) (ground (arith, good)))

  refresh-Triple : Triple (Held start) End End (refresh_body env now token req)
  unfolding refresh_body load_session find_session
  refresh-Triple =
      Triple-bind
        (Triple-guard (req.refresh_token =ˢ "")
          (fail env now none code_invalid "refresh_token is required")
          (λ s p. fail-End none code_invalid "refresh_token is required" s (λ e. cc e) p))
        λ _.
          Triple-bind
            (Triple-guard (no_actor (meta_actor req.meta))
              (fail env now req.meta code_invalid "actor is required")
              (λ s p. fail-End req.meta code_invalid "actor is required" s (λ e. cc e) p))
            λ _. Triple-bind loaded λ found. Triple-given λ e.
              subst
                (λ o.
                  Triple (Held start) End End (refresh_found env now token req (usable env now o)))
                (sym e) (found-Triple (lookup req.refresh_token start) refl)
    where
      loaded :
          Triple
            (Held start)
            End
            (λ found s. Held start s × (found ≡ lookup req.refresh_token start))
            (load_session env now req)
      loaded = record {
        at = λ s p.
            let e : find_session env now req.refresh_token s
                ≡ some (lookup req.refresh_token start) =
              ground (arith, p.sound.offline, ap (lookup req.refresh_token) p.same) in
            subst
              (λ o.
                Ends End (λ found s. Held start s × (found ≡ lookup req.refresh_token start))
                  (or_return o (fail env now req.meta code_error "persistence unavailable") s))
              (sym e) (p, refl);
      }

-- RefreshToken without a database always answers, and either refuses and keeps every refresh session,
-- or the token's session was there, neither revoked nor over, and the actor's whom the request names;
-- the session is taken away and one of the same actor is there under the fresh token, which is the
-- one that the answer carries.
pub refresh_token-Rotation :
    (env : IdentityEnv) (now : ℕ) (token : Option String) (req : TokenRequest) (s : Identity env.Db)
    → IsSound env.journal_env s.journal
    → Answers
        (λ r s'.
          IsSound env.journal_env s'.journal
          × Rotation env now token req s.refresh_sessions r s'.refresh_sessions)
        (refresh_token env now token (some req) s)
unfolding refresh_token
refresh_token-Rotation env now token req s sound =
    run-Answers (refresh_body env now token req)
      (refresh-Triple env now token req s.refresh_sessions) s
      (record { sound = sound; same = refl })
