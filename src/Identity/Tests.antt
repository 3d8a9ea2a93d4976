-- ===== src/Identity/Tests.antt =====
-- The theorems about the identity service at concrete inputs.
use open_rgs_go.Prelude.{
  Option, false, ◌≤◌, ◌≡◌, refl, Bool, true, none, some, [], ◌∷◌, arith, ◌=ˢ◌,
}
use open_rgs_go.Prelude.Dict.{lookup}
use open_rgs_go.Prelude.Decimal.{format_int}
use open_rgs_go.Prelude.Pages.{length}
use open_rgs_go.Prelude.Flow.Triple.{Answers}
use open_rgs_go.Proto.{player, RequestMeta}
use open_rgs_go.Journal.{new_journal}
use open_rgs_go.Journal.Sound.{IsSound, new_journal-IsSound}
use open_rgs_go.Ledger.Env.{no_rows}
use open_rgs_go.Identity.State.{Identity, IdentityEnv, TokenRequest, new_identity_service}
use open_rgs_go.Identity.Limits.{current_window, check_locked, record_failure}
use open_rgs_go.Identity.Tokens.{refresh_token}
use open_rgs_go.Identity.Logout.{LogoutRequest, logout}
use open_rgs_go.Identity.Departures.{Departure, logout-Departure}
use open_rgs_go.Identity.Rotation.{Rotation, refresh_token-Rotation}
use open_rgs_go.Identity.Throttle.{
  within, none_left, admitted, admitted-le_limit, fail_all, check_locked-failures,
}

abbrev env : IdentityEnv
env = record {
  Db = Bool;
  journal_env = record {
    hashing = record {
      sha256_hex = λ text. text;
      hex = λ text. text;
      format_time = λ n. format_int n;
    };
    partition_day = λ n. "day";
    insert_event = λ d e. (true, d);
  };
  normalize = λ text. text;
  seconds = λ n. n;
  compare_hash_and_password = λ hash secret. hash =ˢ secret;
  upsert_rate = λ d id type width. none;
  query_locked_until = λ d id type. no_rows;
  upsert_failure = λ d id type limit ttl. (true, d);
  upsert_reset = λ d id type. (true, d);
  format_time = λ n. format_int n;
  marshal_session = λ sess. sess.refresh_token;
  sign_actor = λ id type now ttl. some (id, now);
  query_session = λ d token. no_rows;
  revoke_session = λ d token. (true, d);
  rotate_session = λ d old next. (true, d);
  query_credentials = λ d id type. no_rows;
}

-- Two attempts are allowed in a window of 100, and two failures before a lock of 50.
abbrev strict_service : Identity env.Db
strict_service = record (new_identity_service 0 0 none) {
  max_failures = 2;
  lockout_ttl = 50;
  login_rate_max = 2;
  login_rate_window = 100;
}

admitted-le_limit_example : admitted env "alice" player (10 ∷ 20 ∷ 30 ∷ []) strict_service ≤ 2
unfolding new_identity_service new_journal lookup current_window
admitted-le_limit_example =
    admitted-le_limit env "alice" player 10 (20 ∷ 30 ∷ []) strict_service refl refl refl
      (within 20 (30 ∷ []) (omega arith) (within 30 [] (omega arith) none_left))

check_locked-failures_example :
    check_locked env 60 "alice" player
      (record_failure env 20 "alice" player
        (fail_all env "alice" player (10 ∷ []) strict_service)).1
    ≡ some true
unfolding new_identity_service new_journal length
check_locked-failures_example =
    check_locked-failures env "alice" player (10 ∷ []) 20 60 strict_service refl (omega arith)
      (omega arith)

abbrev alice : Option RequestMeta
alice = some (record {
  request_id = "r1";
  idempotency_key = "";
  actor = some (record { actor_id = "alice"; actor_type = player });
})

abbrev refresh : TokenRequest
refresh = record { meta = alice; refresh_token = "t1" }

abbrev logged_in : Identity env.Db
logged_in = record strict_service {
  refresh_sessions =
      (
        "t1",
        record {
          refresh_token = "t1";
          actor_id = "alice";
          actor_type = player;
          expires_at = 100;
          revoked = false;
        },
      )
      ∷ [];
}

refresh_token-Rotation_example :
    Answers
      (λ r s'.
        IsSound env.journal_env s'.journal
        × Rotation env 5 (some "t2") refresh logged_in.refresh_sessions r s'.refresh_sessions)
      (refresh_token env 5 (some "t2") (some refresh) logged_in)
unfolding new_identity_service
refresh_token-Rotation_example =
    refresh_token-Rotation env 5 (some "t2") refresh logged_in (new_journal-IsSound env.journal_env)

abbrev leaving : LogoutRequest
leaving = record { meta = alice; refresh_token = "t1" }

logout-Departure_example :
    Answers
      (λ r s'.
        IsSound env.journal_env s'.journal
        × Departure env 5 leaving logged_in.refresh_sessions r s'.refresh_sessions)
      (logout env 5 (some leaving) logged_in)
unfolding new_identity_service
logout-Departure_example =
    logout-Departure env 5 leaving logged_in (new_journal-IsSound env.journal_env)

logout-forgets : (logout env 5 (some leaving) logged_in).1.refresh_sessions ≡ []
unfolding logout new_identity_service new_journal lookup open_rgs_go.Journal.record_event
    open_rgs_go.Audit.new_in_memory_store open_rgs_go.Prelude.Dict.erase
logout-forgets = refl
