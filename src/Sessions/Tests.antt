-- ===== src/Sessions/Tests.antt =====
-- The theorems about the sessions at concrete inputs.
use Prim.Native.String.{◌++◌ as ◌+ˢ◌}
use mathlib.Core.Path.{subst}
use open_rgs_go.Prelude.{
  ℕ, String, ◌≡◌, refl, sym, ap, true, Option, none, some, List, [], ◌∷◌, arith, ◌=ˢ◌, eq_iff,
  if◌then◌else◌,
}
use open_rgs_go.Prelude.Dict.{lookup}
use open_rgs_go.Prelude.Decimal.{format_int, read_int, read_int-format_int}
use open_rgs_go.Prelude.Flow.Triple.{Answers}
use open_rgs_go.Proto.{RequestMeta, operator, code_ok, same_actor_type}
use open_rgs_go.Actor.{resolve_actor}
use open_rgs_go.Audit.{Hashing, append, new_in_memory_store}
use open_rgs_go.Journal.{
  new_journal, refuse_with, audit, record_event, insert_event, keep_event, meta_of,
}
use open_rgs_go.Journal.Sound.{new_journal-IsSound}
use open_rgs_go.Ledger.Env.{row, no_rows}
use open_rgs_go.Sessions.State.{
  PlayerSession, SessionResponse, SessionArguments, SessionRow, Sessions, SessionsEnv,
  StartSessionRequest, EndSessionRequest, GetSessionRequest, is_active, state_active, state_ended,
  new_sessions_service,
}
use open_rgs_go.Sessions.Methods.{
  authorize_start, append_audit, touched, timeout_for_request, persist_session, load_session,
}
use open_rgs_go.Sessions.Handlers.{
  start_session, end_session, get_session, new_session, start_session_body, create_session, refuse,
  conclude,
}
use open_rgs_go.Sessions.Visits.{IsIdle}
use open_rgs_go.Sessions.Lifecycle.{Visit, closed_by, get_session-Visit, end_session-Visit}
use open_rgs_go.Sessions.Starts.{
  IsLifetime, Start, start_session-Start, timeout_for_request-IsLifetime,
}
use open_rgs_go.Sessions.Continues.{IsCoherent, Continues}
use open_rgs_go.Sessions.Histories.{
  Arrival, starting, ending, getting, IsSettled, AllFresh, serve_all, serve_all-Continues,
  serve_all-closed, serve_all-IsSettled,
}
use open_rgs_go.Sessions.Expiry.{Expires, start_session-get_session-Expires}
use open_rgs_go.Sessions.Stored.{
  HasTimes, Writes, CastsToNull, null, not_null, load_session-persist_session,
}

abbrev hashing : Hashing
hashing = record { sha256_hex = λ text. text; hex = λ text. text; format_time = λ n. format_int n }

-- The columns of a row, from the texts that were sent.
abbrev columns : SessionArguments → SessionRow
columns a = record {
  session_id = a.session_id;
  player_id = a.player_id;
  device_id = a.device_id;
  state = a.state;
  started_at = read_int a.started_at;
  last_seen_at = read_int a.last_seen_at;
  ended_at = if a.ended_at =ˢ "" then none else some (read_int a.ended_at);
  expires_at = read_int a.expires_at;
  end_reason = a.end_reason;
}

-- A database of at most one row.
abbrev env : SessionsEnv
env = record {
  Db = Option SessionArguments;
  journal_env = record {
    hashing = hashing;
    partition_day = λ n. "day";
    insert_event = λ d e. (true, d);
  };
  normalize = λ text. text;
  format_time = λ n. format_int n;
  parse_time = λ text. some (read_int text);
  marshal_session = λ sess. sess.session_id;
  trim_space = λ text. text;
  system_time = 0;
  upsert_session = λ d a. (true, some a);
  query_session = λ d id. elim d [
    | none ↦ no_rows
    | some a ↦ if a.session_id =ˢ id then row (columns a) else no_rows
  ];
}

abbrev cashier : Option RequestMeta
cashier = some (record {
  request_id = "r1";
  idempotency_key = "";
  actor = some (record { actor_id = "cashier"; actor_type = operator });
})

abbrev start_request : StartSessionRequest
start_request = record {
  meta = cashier;
  player_id = "alice";
  device_id = "d1";
  session_timeout_seconds = 60;
}

abbrev end_request : EndSessionRequest
end_request = record { meta = cashier; session_id = "sess-t1"; reason = "done" }

abbrev get_request : GetSessionRequest
get_request = record { meta = cashier; session_id = "sess-t1" }

abbrev open_session : PlayerSession
open_session = record {
  session_id = "sess-t1";
  player_id = "alice";
  device_id = "d1";
  state = state_active;
  started_at = "5";
  last_seen_at = "5";
  ended_at = "";
  expires_at = "65";
  end_reason = "";
}

abbrev fresh_service : Sessions env.Db
fresh_service = new_sessions_service none

abbrev busy_service : Sessions env.Db
busy_service = record (new_sessions_service none) { sessions = ("sess-t1", open_session) ∷ [] }

fresh-IsIdle : IsIdle env fresh_service
unfolding new_sessions_service lookup new_journal
fresh-IsIdle = record {
  sound = new_journal-IsSound env.journal_env;
  cached = refl;
  filed = λ id sess e. absurd (cc e);
  timed = record { above = omega arith; below = omega arith };
}

busy-IsIdle : IsIdle env busy_service
unfolding new_sessions_service lookup new_journal
busy-IsIdle = record {
  sound = new_journal-IsSound env.journal_env;
  cached = refl;
  filed = λ id sess e. ground (arith, e, eq_iff "sess-t1" id);
  timed = record { above = omega arith; below = omega arith };
}

timeout_for_request-IsLifetime_example :
    IsLifetime (timeout_for_request start_request fresh_service)
timeout_for_request-IsLifetime_example =
    timeout_for_request-IsLifetime start_request fresh_service fresh-IsIdle.timed

start_session-Start_example :
    Answers
      (λ r s'.
        IsIdle env s'
        × Start env 5 none fresh_service.sessions (some "t1") start_request r s'.sessions)
      (start_session env 5 none (some "t1") (some start_request) fresh_service)
start_session-Start_example =
    start_session-Start env 5 none (some "t1") start_request fresh_service fresh-IsIdle

get_session-Visit_example :
    Answers
      (λ r s'.
        IsIdle env s'
        × Visit env none cashier "sess-t1" (touched env 70) busy_service.sessions r s'.sessions)
      (get_session env 70 none (some get_request) busy_service)
get_session-Visit_example = get_session-Visit env 70 none busy_service busy-IsIdle get_request

end_session-Visit_example :
    Answers
      (λ r s'.
        IsIdle env s'
        × Visit env none cashier "sess-t1"
            (closed_by end_request (env.format_time 10))
            busy_service.sessions
            r
            s'.sessions)
      (end_session env 10 none (some end_request) busy_service)
end_session-Visit_example = end_session-Visit env 10 none busy_service busy-IsIdle end_request

-- Alice's session is ended, another is started, and hers is looked at.
abbrev arrivals : List Arrival
arrivals =
    record { at = 8; caller = none; request = starting (some "t2") start_request }
    ∷ record { at = 10; caller = none; request = ending end_request }
    ∷ record { at = 80; caller = none; request = getting get_request }
    ∷ []

some_inj : {a b : String} → some a ≡ some b → a ≡ b
some_inj e = cc e

arrivals-AllFresh : AllFresh env arrivals busy_service
unfolding new_sessions_service lookup
arrivals-AllFresh = (
  (λ raw e. subst (λ x. lookup ("sess-" +ˢ x) busy_service.sessions ≡ none) (some_inj e) refl),
  (tt, (tt, tt)),
)

open-IsCoherent : IsCoherent open_session
unfolding is_active
open-IsCoherent = record {
  going = λ _. refl;
  over = λ closed. absurd (cc closed);
  specified = λ e. cc e;
}

busy-IsSettled : IsSettled env busy_service
unfolding new_sessions_service lookup
busy-IsSettled = record {
  idle = busy-IsIdle;
  coherent = λ id sess e.
      let same : open_session ≡ sess = ground (arith, e) in subst IsCoherent same open-IsCoherent;
}

serve_all-Continues_example :
    (new : PlayerSession) × (lookup "sess-t1" (serve_all env arrivals busy_service).sessions
      ≡ some new)
    × Continues open_session new
unfolding new_sessions_service lookup
serve_all-Continues_example =
    serve_all-Continues env arrivals busy_service busy-IsIdle arrivals-AllFresh "sess-t1"
      open_session refl

abbrev ended_service : Sessions env.Db
ended_service = record (new_sessions_service none) {
  sessions = ("sess-t1", record open_session { state = state_ended; end_reason = "done" }) ∷ [];
}

ended-IsIdle : IsIdle env ended_service
unfolding new_sessions_service lookup new_journal
ended-IsIdle = record {
  sound = new_journal-IsSound env.journal_env;
  cached = refl;
  filed = λ id sess e. ground (arith, e, eq_iff "sess-t1" id);
  timed = record { above = omega arith; below = omega arith };
}

ended-AllFresh : AllFresh env arrivals ended_service
unfolding new_sessions_service lookup
ended-AllFresh = (
  (λ raw e. subst (λ x. lookup ("sess-" +ˢ x) ended_service.sessions ≡ none) (some_inj e) refl),
  (tt, (tt, tt)),
)

serve_all-closed_example :
    lookup "sess-t1" (serve_all env arrivals ended_service).sessions
    ≡ some (record open_session { state = state_ended; end_reason = "done" })
unfolding new_sessions_service lookup is_active
serve_all-closed_example =
    serve_all-closed env arrivals ended_service ended-IsIdle ended-AllFresh "sess-t1"
      (record open_session { state = state_ended; end_reason = "done" }) refl refl

serve_all-IsSettled_example : IsSettled env (serve_all env arrivals busy_service)
serve_all-IsSettled_example =
    serve_all-IsSettled env arrivals busy_service busy-IsSettled arrivals-AllFresh

-- The answer to the start of the session.
abbrev answer : SessionResponse
answer = record {
  meta = record { request_id = "r1"; result_code = code_ok; denial_reason = ""; server_time = "5" };
  session = some (new_session env 5 none "t1" start_request 60000000000);
}

abbrev started_service : Sessions env.Db
started_service = (start_session env 5 none (some "t1") (some start_request) fresh_service).1

start-answer :
    start_session env 5 none (some "t1") (some start_request) fresh_service
    ≡ (some answer, started_service)
unfolding start_session start_session_body authorize_start refuse create_session refuse_with
    resolve_actor same_actor_type timeout_for_request persist_session conclude append_audit audit
    record_event insert_event keep_event new_sessions_service new_journal append meta_of
    new_in_memory_store format_int
start-answer = refl

start_session-get_session-Expires_example :
    Answers
      (λ r' _. Expires env 5 70 none none "t1" start_request get_request fresh_service r')
      (get_session env 70 none (some get_request) started_service)
unfolding new_sessions_service timeout_for_request
start_session-get_session-Expires_example =
    start_session-get_session-Expires env 5 70 none none "t1" start_request get_request
      fresh_service started_service answer fresh-IsIdle (ap some (read_int-format_int 60000000005))
      refl start-answer refl

abbrev online_service : Sessions env.Db
online_service = new_sessions_service (some none)

-- A session whose times PostgreSQL keeps as they are.
abbrev round_session : PlayerSession
round_session = record open_session {
  started_at = "5000";
  last_seen_at = "5000";
  expires_at = "65000";
}

abbrev stored_service : Sessions env.Db
stored_service = (persist_session env 5 round_session online_service).1

round-HasTimes : HasTimes env round_session
unfolding read_int format_int
round-HasTimes = record {
  started = record { shown = λ e. cc e; time = 5000; micros = refl; parses = refl; formats = refl };
  seen = record { shown = λ e. cc e; time = 5000; micros = refl; parses = refl; formats = refl };
  ended = λ shown. absurd (shown refl);
  expires = record {
    shown = λ e. cc e;
    time = 65000;
    micros = refl;
    parses = refl;
    formats = refl;
  };
}

columns-ended_at :
    (text : String) (o : Option ℕ)
    → CastsToNull env text o
    → (if text =ˢ "" then none else some (read_int text)) ≡ o
columns-ended_at text none (null e) = ground (arith, e, eq_iff text "")
columns-ended_at text (some _) (not_null shown t casts) =
    ground (arith, shown, casts.0, eq_iff text "")

columns-Writes : (a : SessionArguments) (r : SessionRow) → Writes env a r → columns a ≡ r
columns-Writes a r w =
    let started : read_int a.started_at ≡ r.started_at = cc w.started_at.0 in
    let seen : read_int a.last_seen_at ≡ r.last_seen_at = cc w.last_seen_at.0 in
    let expires : read_int a.expires_at ≡ r.expires_at = cc w.expires_at.0 in
    λ i. record {
      session_id = sym w.session_id i;
      player_id = sym w.player_id i;
      device_id = sym w.device_id i;
      state = sym w.state i;
      started_at = started i;
      last_seen_at = seen i;
      ended_at = columns-ended_at a.ended_at r.ended_at w.ended_at i;
      expires_at = expires i;
      end_reason = sym w.end_reason i;
    }

load_session-persist_session_example :
    load_session env 6 "sess-t1" stored_service ≡ some (some round_session)
unfolding new_sessions_service new_journal persist_session
load_session-persist_session_example =
    load_session-persist_session env
      (λ d d' a r w e.
        ground (arith, e, eq_iff a.session_id a.session_id, ap row (columns-Writes a r w)))
      6 round_session online_service stored_service none refl round-HasTimes refl
