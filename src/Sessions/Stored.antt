-- ===== src/Sessions/Stored.antt =====
-- A session that is written to the database and read again.
use open_rgs_go.Prelude.{
  ℕ, ◌%◌, String, ◌≡◌, ◌≢◌, refl, sym, true, Bool-cases, inl, inr, Option, none, some, arith, ◌=ˢ◌,
  eq_iff,
}
use open_rgs_go.Ledger.Env.{row}
use open_rgs_go.Sessions.State.{
  PlayerSession, SessionState, SessionArguments, SessionRow, Sessions, SessionsEnv,
  state_unspecified, state_active, state_ended, state_expired,
}
use open_rgs_go.Sessions.Methods.{
  session_state_to_db, session_state_from_db, session_arguments, session_of_row, non_empty_time,
  persist_session, load_session,
}

-- A state that is written to its column is the state that is read from it.
session_state_from_db-session_state_to_db :
    (state : SessionState) → session_state_from_db (session_state_to_db state) ≡ state
unfolding session_state_from_db session_state_to_db
session_state_from_db-session_state_to_db state_unspecified = refl
session_state_from_db-session_state_to_db state_active = refl
session_state_from_db-session_state_to_db state_ended = refl
session_state_from_db-session_state_to_db state_expired = refl

module _ (env : SessionsEnv) where
  -- A time as RFC3339Nano writes it, of whole microseconds, which is what a timestamptz can keep.
  pub record IsTime (text : String) : Type 0 where
    pub shown : env.trim_space text ≢ ""
    pub time : ℕ
    pub micros : time % 1000 ≡ 0
    pub parses : env.parse_time text ≡ some time
    pub formats : env.format_time time ≡ text

  pub record HasTimes (sess : PlayerSession) : Type 0 where
    pub started : IsTime sess.started_at
    pub seen : IsTime sess.last_seen_at
    pub ended : sess.ended_at ≢ "" → IsTime sess.ended_at
    pub expires : IsTime sess.expires_at

  -- A text casts to a time of whole microseconds.
  abbrev pub CastsTo : String → ℕ → Type 0
  CastsTo text time = (env.parse_time text ≡ some time) × (time % 1000 ≡ 0)

  -- NULLIF(text, '')::timestamptz
  pub data CastsToNull (text : String) : Option ℕ → Type 0 where
    null : text ≡ "" → CastsToNull text none
    not_null : text ≢ "" → (time : ℕ) → CastsTo text time → CastsToNull text (some time)

  -- The row that the statement with these arguments writes, where the casts need no rounding.
  pub record Writes (a : SessionArguments) (r : SessionRow) : Type 0 where
    pub session_id : r.session_id ≡ a.session_id
    pub player_id : r.player_id ≡ a.player_id
    pub device_id : r.device_id ≡ a.device_id
    pub state : r.state ≡ a.state
    pub started_at : CastsTo a.started_at r.started_at
    pub last_seen_at : CastsTo a.last_seen_at r.last_seen_at
    pub ended_at : CastsToNull a.ended_at r.ended_at
    pub expires_at : CastsTo a.expires_at r.expires_at
    pub end_reason : r.end_reason ≡ a.end_reason

  sent-time : (text : String) → (t : IsTime text) → CastsTo (non_empty_time env text) t.time
  unfolding non_empty_time
  sent-time text t = (ground (arith, t.shown, t.parses, eq_iff (env.trim_space text) ""), t.micros)

  ended_time :
      (text : String)
      → (text ≢ "" → IsTime text)
      → (o : Option ℕ) × CastsToNull text o
        × ((elim o [ none ↦ "" | some t ↦ env.format_time t ]) ≡ text)
  ended_time text t = elim (Bool-cases (text =ˢ "")) [
    | inl empty ↦ let e : text ≡ "" = ground (arith, empty, eq_iff text "") in (none, null e, sym e)
    | inr shown ↦
        let given : text ≢ "" = λ e. ground (arith, shown, e, eq_iff text "") in
        let time = t given in
        (some time.time, not_null given time.time (time.parses, time.micros), time.formats)
  ]

  session-roundtrip :
      (sess : PlayerSession)
      → HasTimes sess
      → (r : SessionRow) × Writes (session_arguments env sess) r × (session_of_row env r ≡ sess)
  unfolding session_of_row session_arguments
  session-roundtrip sess times =
      let (ended_at, casts, shown) = ended_time sess.ended_at times.ended in
      (
        record {
          session_id = sess.session_id;
          player_id = sess.player_id;
          device_id = sess.device_id;
          state = session_state_to_db sess.state;
          started_at = times.started.time;
          last_seen_at = times.seen.time;
          ended_at = ended_at;
          expires_at = times.expires.time;
          end_reason = sess.end_reason;
        },
        record {
          session_id = refl;
          player_id = refl;
          device_id = refl;
          state = refl;
          started_at = sent-time sess.started_at times.started;
          last_seen_at = sent-time sess.last_seen_at times.seen;
          ended_at = casts;
          expires_at = sent-time sess.expires_at times.expires;
          end_reason = refl;
        },
        λ i. record {
          session_id = sess.session_id;
          player_id = sess.player_id;
          device_id = sess.device_id;
          state = session_state_from_db-session_state_to_db sess.state i;
          started_at = times.started.formats i;
          last_seen_at = times.seen.formats i;
          ended_at = shown i;
          expires_at = times.expires.formats i;
          end_reason = sess.end_reason;
        },
      )

  -- Where PostgreSQL gives back, by its id, the row that a statement wrote, as it does where every
  -- time is of whole microseconds: a session with such times that was stored is the session that is
  -- read under its id, whatever the service keeps in memory.
  pub load_session-persist_session :
      ((d d' : env.Db) (a : SessionArguments) (r : SessionRow)
        → Writes a r
        → env.upsert_session d a ≡ (true, d')
        → env.query_session d' a.session_id ≡ row r)
      → (now : ℕ) (sess : PlayerSession) (s s' : Sessions env.Db) (d : env.Db)
      → s.journal.db ≡ some d
      → HasTimes sess
      → persist_session env now sess s ≡ (true, s')
      → load_session env now sess.session_id s' ≡ some (some sess)
  unfolding persist_session load_session
  load_session-persist_session keeps now sess s s' d online times stored =
      let a = session_arguments env sess in
      let d' = (env.upsert_session d a).1 in
      let (r, writes, back) = session-roundtrip sess times in
      let ok : env.upsert_session d a ≡ (true, d') = ground (arith, online, stored) in
      let kept : s'.journal.db ≡ some d' = ground (arith, online, stored) in
      let there : env.query_session d' sess.session_id ≡ row r = keeps d d' a r writes ok in
      ground (arith, kept, there, back)
