-- ===== src/Sessions/Histories.antt =====
-- Any sequence of requests to a service that keeps its sessions in memory.
use Prim.Native.String.{◌++◌ as ◌+ˢ◌}
use mathlib.Core.Path.{subst}
use open_rgs_go.Prelude.{
  ℕ, String, ◌≡◌, sym, ap, ◌∙◌, false, Bool-cases, inl, inr, Option, none, some, List, [], ◌∷◌,
  arith, ◌=ˢ◌, eq_iff,
}
use open_rgs_go.Prelude.Dict.{Dict, lookup}
use open_rgs_go.Proto.{RequestMeta}
use open_rgs_go.Actor.{TokenActor}
use open_rgs_go.Sessions.State.{
  PlayerSession, SessionResponse, Sessions, SessionsEnv, StartSessionRequest, EndSessionRequest,
  GetSessionRequest, is_active,
}
use open_rgs_go.Sessions.Methods.{touched}
use open_rgs_go.Sessions.Handlers.{start_session, get_session, end_session, new_session}
use open_rgs_go.Sessions.Visits.{IsIdle, Updated}
use open_rgs_go.Sessions.Lifecycle.{
  Visit, refused, visited, closed_by, get_session-Visit, end_session-Visit,
}
use open_rgs_go.Sessions.Starts.{Start, start_session-Start}
use open_rgs_go.Sessions.Continues.{
  IsCoherent, Continues, touched-IsCoherent, closed_by-IsCoherent, new_session-IsCoherent,
  Continues-refl, Continues-trans, touched-Continues, closed_by-Continues,
}

-- A request, with the token that crypto/rand gives to StartSession.
pub data SessionRequest : Type 0 where
  starting : Option String → StartSessionRequest → SessionRequest
  ending : EndSessionRequest → SessionRequest
  getting : GetSessionRequest → SessionRequest

-- A request, when it comes and who sends it.
pub record Arrival : Type 0 where
  pub at : ℕ
  pub caller : Option TokenActor
  pub request : SessionRequest

Updated-lookup :
    (P : PlayerSession → Type 0) (id : String) (new : PlayerSession)
    (start sessions : Dict PlayerSession)
    → Updated id new start sessions
    → (j : String) (found : PlayerSession) → lookup j sessions ≡ some found
    → (id ≡ j → P new)
    → (lookup j start ≡ some found → P found)
    → P found
Updated-lookup P id new start sessions u j found e own other = elim (Bool-cases (id =ˢ j)) [
  | inl same ↦
      let h : new ≡ found = ground (arith, u j, same, e) in
      subst P h (own (ground (arith, same, eq_iff id j)))
  | inr different ↦ other (ground (arith, u j, different, e))
]

Updated-follows :
    (P : PlayerSession → Type 0) (id : String) (new : PlayerSession)
    (start sessions : Dict PlayerSession)
    → Updated id new start sessions
    → (j : String) (old : PlayerSession) → lookup j start ≡ some old
    → (id ≡ j → P new)
    → P old
    → (found : PlayerSession) × (lookup j sessions ≡ some found) × P found
Updated-follows P id new start sessions u j old e own kept = elim (Bool-cases (id =ˢ j)) [
  | inl same ↦ (new, ground (arith, u j, same), own (ground (arith, same, eq_iff id j)))
  | inr different ↦ (old, ground (arith, u j, different, e), kept)
]

-- Every session is coherent.
abbrev pub AllCoherent : Dict PlayerSession → Type 0
AllCoherent sessions =
    (id : String) (sess : PlayerSession) → lookup id sessions ≡ some sess → IsCoherent sess

-- A service that keeps its sessions in memory, with sessions that make sense.
pub record IsSettled (env : SessionsEnv) (s : Sessions env.Db) : Type 0 where
  pub idle : IsIdle env s
  pub coherent : AllCoherent s.sessions

-- The sessions after a request, given those before.
pub record Follows (from to : Dict PlayerSession) : Type 0 where
  pub kept :
      (id : String) (old : PlayerSession)
      → lookup id from ≡ some old
      → (new : PlayerSession) × (lookup id to ≡ some new) × Continues old new
  pub coherent : AllCoherent from → AllCoherent to

Follows-refl : (d : Dict PlayerSession) → Follows d d
Follows-refl d = record { kept = λ id old e. (old, e, Continues-refl old); coherent = λ all. all }

Follows-trans : (a b c : Dict PlayerSession) → Follows a b → Follows b c → Follows a c
Follows-trans a b c f g = record {
  kept = λ id old e.
      let (mid, e₁, h₁) = f.kept id old e in
      let (new, e₂, h₂) = g.kept id mid e₁ in (new, e₂, Continues-trans old mid new h₁ h₂);
  coherent = λ all. g.coherent (f.coherent all);
}

module _ (env : SessionsEnv) (ctx : Option TokenActor) (start sessions : Dict PlayerSession)
    (r : SessionResponse) where
  Visit-Follows :
      (meta : Option RequestMeta) (id : String) (change : PlayerSession → PlayerSession)
      → ((sess : PlayerSession) → Continues sess (change sess))
      → ((sess : PlayerSession) → IsCoherent sess → IsCoherent (change sess))
      → Visit env ctx meta id change start r sessions
      → Follows start sessions
  Visit-Follows meta id change continues coherent (refused bad same) =
      subst (Follows start) (sym same) (Follows-refl start)
  Visit-Follows meta id change continues coherent (visited good sess there allowed answer u) =
      record {
        kept = λ j old e.
            Updated-follows (Continues old) id (change sess) start sessions u j old e
              (λ same.
                let h : sess ≡ old = ground (arith, there, e, ap (λ k. lookup k start) same) in
                subst (λ x. Continues x (change sess)) h (continues sess))
              (Continues-refl old);
        coherent = λ all j found e.
            Updated-lookup IsCoherent id (change sess) start sessions u j found e
              (λ _. coherent sess (all id sess there)) (all j found);
      }

  -- No session is there yet under the id that a token gives.
  Start-Follows :
      (now : ℕ) (token : Option String) (req : StartSessionRequest)
      → ((raw : String) → token ≡ some raw → lookup ("sess-" +ˢ raw) start ≡ none)
      → Start env now ctx start token req r sessions
      → Follows start sessions
  Start-Follows now token req fresh (Start.refused bad same) =
      subst (Follows start) (sym same) (Follows-refl start)
  Start-Follows now token req fresh (Start.started good raw e t lifetime allowed answer u) =
      record {
        kept = λ j old there.
            Updated-follows (Continues old) ("sess-" +ˢ raw) (new_session env now ctx raw req t)
              start sessions u j old there
              (λ same. absurd (ground (arith, there, fresh raw e, ap (λ k. lookup k start) same)))
              (Continues-refl old);
        coherent = λ all j found h.
            Updated-lookup IsCoherent ("sess-" +ˢ raw) (new_session env now ctx raw req t) start
              sessions u j found h (λ _. new_session-IsCoherent env now ctx raw req t)
              (all j found);
      }

module _ (env : SessionsEnv) where
  unfoldable pub serve : ℕ → Option TokenActor → SessionRequest → Sessions env.Db → Sessions env.Db
  unfolding start_session end_session get_session
  serve now ctx (starting token req) s = (start_session env now ctx token (some req) s).1
  serve now ctx (ending req) s = (end_session env now ctx (some req) s).1
  serve now ctx (getting req) s = (get_session env now ctx (some req) s).1

  unfoldable pub serve_all : List Arrival → Sessions env.Db → Sessions env.Db
  unfolding serve
  serve_all [] s = s
  serve_all (a ∷ rest) s = serve_all rest (serve a.at a.caller a.request s)

  -- No session is there yet under the id that the token of the request gives.
  abbrev pub IsFresh : SessionRequest → Sessions env.Db → Type 0
  IsFresh (starting token req) s =
      (raw : String) → token ≡ some raw → lookup ("sess-" +ˢ raw) s.sessions ≡ none
  IsFresh (ending req) s = Unit {0}
  IsFresh (getting req) s = Unit {0}

  -- And so at each request of a sequence.
  abbrev pub AllFresh : List Arrival → Sessions env.Db → Type 0
  AllFresh [] s = Unit {0}
  AllFresh (a ∷ rest) s = IsFresh a.request s × AllFresh rest (serve a.at a.caller a.request s)

  serve-Follows :
      (now : ℕ) (ctx : Option TokenActor) (q : SessionRequest) (s : Sessions env.Db)
      → IsIdle env s
      → IsFresh q s
      → IsIdle env (serve now ctx q s) × Follows s.sessions (serve now ctx q s).sessions
  unfolding serve
  serve-Follows now ctx (starting token req) s idle fresh =
      let (r, _, done) = start_session-Start env now ctx token req s idle in
      (done.0, Start-Follows env ctx s.sessions _ r now token req fresh done.1)
  serve-Follows now ctx (ending req) s idle fresh =
      let (r, _, done) = end_session-Visit env now ctx s idle req in
      (
        done.0,
        Visit-Follows env ctx s.sessions _ r req.meta req.session_id
            (closed_by req (env.format_time now)) (closed_by-Continues req (env.format_time now))
            (closed_by-IsCoherent req (env.format_time now)) done.1,
      )
  serve-Follows now ctx (getting req) s idle fresh =
      let (r, _, done) = get_session-Visit env now ctx s idle req in
      (
        done.0,
        Visit-Follows env ctx s.sessions _ r req.meta req.session_id (touched env now)
            (touched-Continues env now) (touched-IsCoherent env now) done.1,
      )

  serve_all-Follows :
      (arrivals : List Arrival) (s : Sessions env.Db)
      → IsIdle env s
      → AllFresh arrivals s
      → IsIdle env (serve_all arrivals s) × Follows s.sessions (serve_all arrivals s).sessions
  unfolding serve_all
  serve_all-Follows [] s idle fresh = (idle, Follows-refl s.sessions)
  serve_all-Follows (a ∷ rest) s idle fresh =
      let (idle₁, f₁) = serve-Follows a.at a.caller a.request s idle fresh.0 in
      let (idle₂, f₂) = serve_all-Follows rest (serve a.at a.caller a.request s) idle₁ fresh.1 in
      (idle₂, Follows-trans s.sessions _ _ f₁ f₂)

  -- Over any sequence of StartSession, EndSession and GetSession requests of any callers, with tokens
  -- that give no id in use, every session stays there with its player, its device, its start and its
  -- deadline.
  pub serve_all-Continues :
      (arrivals : List Arrival) (s : Sessions env.Db)
      → IsIdle env s
      → AllFresh arrivals s
      → (id : String) (old : PlayerSession) → lookup id s.sessions ≡ some old
      → (new : PlayerSession) × (lookup id (serve_all arrivals s).sessions ≡ some new)
        × Continues old new
  serve_all-Continues arrivals s idle fresh = (serve_all-Follows arrivals s idle fresh).1.kept

  -- Over such a sequence, a session that has ended or expired stays exactly as it is.
  pub serve_all-closed :
      (arrivals : List Arrival) (s : Sessions env.Db)
      → IsIdle env s
      → AllFresh arrivals s
      → (id : String) (sess : PlayerSession) → lookup id s.sessions ≡ some sess
      → is_active sess.state ≡ false
      → lookup id (serve_all arrivals s).sessions ≡ some sess
  serve_all-closed arrivals s idle fresh id sess there closed =
      let (new, found, continues) = serve_all-Continues arrivals s idle fresh id sess there in
      found ∙ ap some (continues.final closed)

  -- Over such a sequence, every session is coherent: an active one has no reason for its end, one that has ended or
  -- expired has such a reason, and no state is unspecified.
  pub serve_all-IsSettled :
      (arrivals : List Arrival) (s : Sessions env.Db)
      → IsSettled env s
      → AllFresh arrivals s
      → IsSettled env (serve_all arrivals s)
  serve_all-IsSettled arrivals s settled fresh =
      let (idle, follows) = serve_all-Follows arrivals s settled.idle fresh in
      record { idle = idle; coherent = follows.coherent settled.coherent }
