-- ===== src/Audit.antt =====
-- internal/platform/audit: the hash chain of audit events (chain.go, model.go, store.go). Times are
-- numbers of nanoseconds. SHA-256, the hexadecimal print of bytes and the time format are
-- parameters: the chain rests on no law of theirs.
pub mod Chain
use Prim.Native.String.{◌++◌}
use open_rgs_go.Prelude.{ℕ, String, List, [], ◌∷◌, Option, none, some, ◌=ˢ◌, if◌then◌else◌}
use open_rgs_go.Prelude

pub data Result : Type 0 where
  success denied error : Result

-- The text of a `Result`.
unfoldable pub result_text : Result → String
result_text success = "success"
result_text denied = "denied"
result_text error = "error"

pub record Event : Type 0 where
  pub audit_id : String
  pub occurred_at : ℕ
  pub recorded_at : ℕ
  pub actor_id : String
  pub actor_type : String
  pub auth_context : String
  pub object_type : String
  pub object_id : String
  pub action : String
  pub before : String
  pub after : String
  pub result : Result
  pub reason : String
  pub partition_day : String
  pub hash_prev : String
  pub hash_curr : String

pub record Hashing : Type 0 where
  pub sha256_hex : String → String  -- hex.EncodeToString of sha256
  pub hex : String → String  -- the verb %x
  pub format_time : ℕ → String  -- "2006-01-02T15:04:05.999999999Z" in UTC

pub record InMemoryStore : Type 0 where
  pub events : List Event
  pub last : String

unfoldable pub new_in_memory_store : InMemoryStore
new_in_memory_store = record { events = []; last = "GENESIS" }

unfoldable pub last_event : List Event → Option Event
last_event [] = none
last_event (e ∷ es) = elim (last_event es) [ none ↦ some e | some l ↦ some l ]

pub data Appended : Type 0 where
  appended : Event → InMemoryStore → Appended
  corrupt_chain : Appended

module _ (h : Hashing) where
  unfoldable pub compute_hash : String → Event → String
  unfolding result_text
  compute_hash prev e = h.sha256_hex (
      prev
      ++ "|"
      ++ e.audit_id
      ++ "|"
      ++ h.format_time e.recorded_at
      ++ "|"
      ++ e.actor_id
      ++ "|"
      ++ e.action
      ++ "|"
      ++ result_text e.result
      ++ "|"
      ++ h.hex e.before
      ++ "|"
      ++ h.hex e.after)

  -- The event as it is stored, linked behind `last`.
  unfoldable pub seal : String → Event → Event
  seal last e = record e { hash_prev = last; hash_curr = compute_hash last e }

  -- The hash of a stored event, computed again.
  unfoldable pub intact : Event → Prelude.Bool
  intact e = compute_hash e.hash_prev e =ˢ e.hash_curr

  unfoldable pub append : InMemoryStore → Event → Appended
  unfolding seal intact last_event
  append s e =
      let e' = seal s.last e in
      let s' : InMemoryStore = record {
        events = Prelude.◌++◌ s.events (e' ∷ []);
        last = e'.hash_curr;
      } in
      elim (last_event s.events) [
        | none ↦ appended e' s'
        | some prev ↦ if intact prev then appended e' s' else corrupt_chain
      ]
