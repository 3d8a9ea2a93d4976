-- ===== src/Identity/Departures.antt =====
-- Logout of identity_grpc.go on a service that keeps its sessions in memory.
use mathlib.Core.Path.{subst}
use open_rgs_go.Prelude.{
  ℕ, String, ◌≡◌, ◌≢◌, refl, sym, ap, Bool, true, false, Option, none, some, arith, ◌=ˢ◌,
  if◌then◌else◌,
}
use open_rgs_go.Prelude.Dict.{Dict, lookup, erase, lookup-erase_self}
use open_rgs_go.Prelude.Flow.{call, or_return}
use open_rgs_go.Prelude.Flow.Triple.{
  Ends, Triple, Triple-bind, Triple-guard, Triple-pure, Triple-require, Triple-given, Triple-weaken,
  Answers, run-Answers,
}
use open_rgs_go.Proto.{RequestMeta, ResultCode, code_ok, code_denied, code_invalid, code_error}
use open_rgs_go.Actor.{meta_actor}
use open_rgs_go.Audit.{success}
use open_rgs_go.Journal.{meta_of}
use open_rgs_go.Journal.Sound.{IsSound, audit-Triple, refuse_with-Triple}
use open_rgs_go.Identity.State.{
  IdentitySession, Identity, IdentityEnv, identity_host, identity_subject,
}
use open_rgs_go.Identity.Tokens.{no_actor, other_actor, append_audit, find_session}
use open_rgs_go.Identity.Logout.{
  LogoutRequest, LogoutResponse, logout_answer, stored_session, deny_other, revoke_session,
  close_session, logout_found, logout_body, logout,
}

module _ (env : IdentityEnv) (now : ℕ) (req : LogoutRequest) (start : Dict IdentitySession) where
  -- A refusal that keeps the sessions; or the token had a session of the named actor, and now it has
  -- none.
  pub data Departure (r : LogoutResponse) (sessions : Dict IdentitySession) : Type 0 where
    stays : r.meta.result_code ≢ code_ok → sessions ≡ start → Departure r sessions
    departs :
        (sess : IdentitySession)
        → lookup req.refresh_token start ≡ some sess
        → other_actor sess (meta_actor req.meta) ≡ false
        → r ≡ logout_answer env now req.meta code_ok ""
        → sessions ≡ erase req.refresh_token start
        → lookup req.refresh_token sessions ≡ none
        → Departure r sessions

  -- The sessions are as given, and every event is taken.
  record Held (sessions : Dict IdentitySession) (s : Identity env.Db) : Type 0 where
    sound : IsSound env.journal_env s.journal
    same : s.refresh_sessions ≡ sessions

  abbrev End : LogoutResponse → Identity env.Db → Type 0
  End r s = IsSound env.journal_env s.journal × Departure r s.refresh_sessions

  fail-End :
      (of : Option RequestMeta) (code : ResultCode) (reason : String) (s : Identity env.Db)
      → code ≢ code_ok
      → Held start s
      → End (logout_answer env now of code reason) s
  unfolding meta_of
  fail-End of code reason s bad p = (p.sound, stays bad p.same)

  deny-Triple :
      (sess : IdentitySession)
      → Triple
          (Held start)
          End
          (λ _ s. Held start s × (other_actor sess (meta_actor req.meta) ≡ false))
          (deny_other env now req sess)
  unfolding deny_other
  deny-Triple sess =
      Triple-weaken (λ s p. p) (λ _ s q. (q.0, ground (arith, q.1)))
        (refuse_with-Triple identity_host env.journal_env now identity_subject (λ s p. p.sound)
          (λ s j p sound. record { sound = sound; same = p.same })
          (logout_answer env now req.meta code_denied) req.meta req.refresh_token "identity_logout"
          (if other_actor sess (meta_actor req.meta)
            then some "actor mismatch with token"
            else none)
          (λ s why p _. fail-End req.meta code_denied why s (λ e. cc e) p))

  revoke-Triple :
      Triple
        (Held start)
        End
        (λ ok s. (ok ≡ true) × Held (erase req.refresh_token start) s)
        (call (revoke_session env now req.refresh_token))
  unfolding revoke_session
  revoke-Triple = record {
    at = λ s p.
        let e : revoke_session env now req.refresh_token s
            ≡ (true, record s { refresh_sessions = erase req.refresh_token s.refresh_sessions }) =
          ground (arith, p.sound.offline) in
        subst
          (λ (x : Bool × Identity env.Db). (x.0 ≡ true) × Held (erase req.refresh_token start) x.1)
          (sym e) (refl, record { sound = p.sound; same = ap (erase req.refresh_token) p.same });
  }

  found-Triple :
      (o : Option IdentitySession)
      → lookup req.refresh_token start ≡ o
      → Triple (Held start) End End (logout_found env now req o)
  unfolding logout_found close_session append_audit
  found-Triple none e = record {
    at = λ s p. fail-End req.meta code_denied "refresh token not found" s (λ e. cc e) p;
  }
  found-Triple (some sess) e =
      let sessions = erase req.refresh_token start in
      Triple-bind (deny-Triple sess) λ _. Triple-given λ actor. Triple-bind revoke-Triple λ stored.
        Triple-bind
          (Triple-require stored
            (logout_answer env now req.meta code_error "persistence unavailable"))
          λ _.
            Triple-bind
              (audit-Triple identity_host env.journal_env now identity_subject {P = Held sessions}
                (λ s p. p.sound) (λ s j p sound. record { sound = sound; same = p.same }) req.meta
                req.refresh_token "identity_logout" (env.marshal_session sess)
                (env.marshal_session (record sess { revoked = true })) success "")
              λ audited.
                Triple-bind
                  (Triple-require audited
                    (logout_answer env now req.meta code_error "audit unavailable"))
                  λ _. Triple-pure (logout_answer env now req.meta code_ok "") λ s p. (
                    p.sound,
                    departs sess e actor refl p.same (
                        subst (λ d. lookup req.refresh_token d ≡ none) (sym p.same)
                          (lookup-erase_self req.refresh_token start)),
                  )

  logout-Triple : Triple (Held start) End End (logout_body env now req)
  unfolding logout_body stored_session find_session
  logout-Triple =
      Triple-bind
        (Triple-guard (req.refresh_token =ˢ "")
          (logout_answer env now none code_invalid "refresh_token is required")
          (λ s p. fail-End none code_invalid "refresh_token is required" s (λ e. cc e) p))
        λ _.
          Triple-bind
            (Triple-guard (no_actor (meta_actor req.meta))
              (logout_answer env now req.meta code_invalid "actor is required")
              (λ s p. fail-End req.meta code_invalid "actor is required" s (λ e. cc e) p))
            λ _. Triple-bind loaded λ found. Triple-given λ e.
              subst (λ o. Triple (Held start) End End (logout_found env now req o)) (sym e)
                (found-Triple (lookup req.refresh_token start) refl)
    where
      loaded :
          Triple
            (Held start)
            End
            (λ found s. Held start s × (found ≡ lookup req.refresh_token start))
            (stored_session env now req)
      loaded = record {
        at = λ s p.
            let e : find_session env now req.refresh_token s
                ≡ some (lookup req.refresh_token start) =
              ground (arith, p.sound.offline, ap (lookup req.refresh_token) p.same) in
            subst
              (λ o.
                Ends End (λ found s. Held start s × (found ≡ lookup req.refresh_token start))
                  (or_return o (logout_answer env now req.meta code_error "persistence unavailable")
                    s))
              (sym e) (p, refl);
      }

-- Logout without a database always answers, and either refuses and keeps every refresh session, or
-- the token had a session of the actor whom the request names; the answer is then OK, that token's
-- session is taken away, and nothing is left under the token.
pub logout-Departure :
    (env : IdentityEnv) (now : ℕ) (req : LogoutRequest) (s : Identity env.Db)
    → IsSound env.journal_env s.journal
    → Answers
        (λ r s'.
          IsSound env.journal_env s'.journal
          × Departure env now req s.refresh_sessions r s'.refresh_sessions)
        (logout env now (some req) s)
unfolding logout
logout-Departure env now req s sound =
    run-Answers (logout_body env now req) (logout-Triple env now req s.refresh_sessions) s
      (record { sound = sound; same = refl })
