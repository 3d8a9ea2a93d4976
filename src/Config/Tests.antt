-- ===== src/Config/Tests.antt =====
-- The theorems about the configuration at concrete inputs.
use open_rgs_go.Prelude.{
  String, ◌≡◌, refl, ap, Bool, true, false, Option, none, some, List, [], ◌∷◌, arith, eq_iff,
}
use open_rgs_go.Prelude.Dict.{lookup, insert}
use open_rgs_go.Prelude.Decimal.{format_int, read_int, read_int-format_int}
use open_rgs_go.Prelude.Pages.{length}
use open_rgs_go.Prelude.Flow.Triple.{Answers}
use open_rgs_go.Proto.{RequestMeta, Actor, operator, same_actor_type}
use open_rgs_go.Actor.{TokenActor, resolve_actor, actor_type_from_string}
use open_rgs_go.Audit.{Hashing, new_in_memory_store, compute_hash}
use open_rgs_go.Journal.{new_journal, record_event}
use open_rgs_go.Journal.Sound.{new_journal-IsSound}
use open_rgs_go.Ledger.Env.{no_rows}
use open_rgs_go.Config.State.{
  ConfigChange, status_proposed, status_approved, status_applied, DownloadLibraryEntry,
  action_activate, ProposeRequest, DecisionRequest, HistoryRequest, RecordRequest, Config,
  ConfigEnv,
}
use open_rgs_go.Config.Methods.{authorize}
use open_rgs_go.Config.Changes.{
  approved, applied, with_status, propose_config_change, approve_config_change, apply_config_change,
}
use open_rgs_go.Config.Listings.{history_of, record_download_library_change}
use open_rgs_go.Config.Holds.{written}
use open_rgs_go.Config.Branches.{with_value}
use open_rgs_go.Config.Rulings.{Ruling, approve_config_change-Ruling, apply_config_change-Ruling}
use open_rgs_go.Config.Submissions.{Submission, propose_config_change-Submission}
use open_rgs_go.Config.Progress.{Carries, IsSettled}
use open_rgs_go.Config.Histories.{
  ChangeArrival, proposing, approving, applying, decide_all, decide_all-IsSettled,
  decide_all-Carries, decide_all-approved, decide_all-final,
}
use open_rgs_go.Config.Paging.{read_history, read_history-whole}
use open_rgs_go.Config.Unnamed.{approve_config_change-unnamed, apply_config_change-unnamed}
use open_rgs_go.Config.Signatures.{Recording, record_download_library_change-Recording}

abbrev hashing : Hashing
hashing = record { sha256_hex = λ text. text; hex = λ text. text; format_time = λ n. format_int n }

abbrev env : ConfigEnv
env = record {
  Db = Bool;
  journal_env = record {
    hashing = hashing;
    partition_day = λ n. "day";
    insert_event = λ d e. (true, d);
  };
  normalize = λ text. text;
  trim_space = λ text. text;
  format_time = λ n. format_int n;
  atoi = λ text. some (read_int text);
  hmac_base64 = λ secret text. secret;
  marshal_change = λ c. c.change_id;
  marshal_entry = λ e. e.entry_id;
  upsert_change = λ d c. (true, d);
  upsert_value = λ d config_namespace key value by. (true, d);
  upsert_entry = λ d e. (true, d);
  query_value = λ d config_namespace key. no_rows;
  query_change = λ d id. no_rows;
  query_history = λ d filter size start. some [];
  query_entries = λ d size start. some [];
}

abbrev ann : Actor
ann = record { actor_id = "ann"; actor_type = operator }

abbrev by_ann : Option RequestMeta
by_ann = some (record { request_id = "r1"; idempotency_key = ""; actor = some ann })

abbrev wish : ProposeRequest
wish = record {
  meta = by_ann;
  config_namespace = "game";
  config_key = "rtp";
  proposed_value = "96";
  reason = "";
}

abbrev decision : DecisionRequest
decision = record { meta = by_ann; change_id = "cfg-1"; reason = "" }

-- A decision that only the token signs.
abbrev unsigned : DecisionRequest
unsigned = record { meta = none; change_id = "cfg-1"; reason = "" }

abbrev token : Option TokenActor
token = some (record { id = "ann"; type = "OPERATOR" })

abbrev change : ConfigChange
change = record {
  change_id = "cfg-1";
  config_namespace = "game";
  config_key = "rtp";
  proposed_value = "96";
  previous_value = "";
  reason = "";
  status = status_proposed;
  proposer_id = "ann";
  approver_id = "";
  applied_by = "";
  created_at = "1";
  approved_at = "";
  applied_at = "";
}

abbrev service_with : ConfigChange → Config env.Db
service_with c = record {
  journal = new_journal none;
  changes = ("cfg-1", c) ∷ [];
  change_order = "cfg-1" ∷ [];
  next_change_id = 1;
  current_values = [];
  download_entries = [];
  download_order = [];
  next_entry_id = 0;
  download_sig_keys = ("k1", "s1") ∷ [];
  disable_in_memory_cache = false;
}

abbrev waiting : Config env.Db
waiting = service_with change

abbrev ready : Config env.Db
ready = service_with (approved "bob" "2" change)

service-IsSettled : (c : ConfigChange) → IsSettled env (service_with c)
unfolding lookup format_int
service-IsSettled c = record {
  sound = new_journal-IsSound env.journal_env;
  cached = refl;
  numbered = λ id found e. (1, omega arith, ground (arith, e, eq_iff "cfg-1" id));
  backed = λ key value e. absurd (cc e);
}

propose_config_change-Submission_example :
    Submission env 5 none wish waiting (propose_config_change env 5 none (some wish) waiting)
propose_config_change-Submission_example =
    propose_config_change-Submission env 5 none wish waiting (service-IsSettled change).sound

approve_config_change-Ruling_example :
    Ruling env 5 none decision "approve_config_change" status_proposed status_approved
      "change is not in proposed state"
      (λ by c. approved by (env.format_time 5) c)
      (written "cfg-1")
      waiting
      (approve_config_change env 5 none (some decision) waiting)
approve_config_change-Ruling_example =
    approve_config_change-Ruling env 5 none decision waiting (service-IsSettled change).sound

apply_config_change-Ruling_example :
    Ruling env 5 none decision "apply_config_change" status_approved status_applied
      "change is not approved"
      (λ by c. applied by (env.format_time 5) c)
      (with_value env 5 none "cfg-1")
      ready
      (apply_config_change env 5 none (some decision) ready)
apply_config_change-Ruling_example =
    apply_config_change-Ruling env 5 none decision ready
      (service-IsSettled (approved "bob" "2" change)).sound

approve_config_change-unnamed_example :
    approve_config_change env 5 token (some unsigned) waiting ≡ (
      none,
      record waiting {
        changes = insert "cfg-1" (with_status status_approved change) waiting.changes;
      },
    )
unfolding lookup resolve_actor same_actor_type actor_type_from_string authorize
approve_config_change-unnamed_example =
    approve_config_change-unnamed env 5 token waiting unsigned change refl refl refl refl refl

apply_config_change-unnamed_example : apply_config_change env 5 token (some unsigned) ready ≡ (
  none,
  record ready {
    changes = insert "cfg-1" (with_status status_applied (approved "bob" "2" change)) ready.changes;
  },
)
unfolding lookup resolve_actor same_actor_type actor_type_from_string authorize
apply_config_change-unnamed_example =
    apply_config_change-unnamed env 5 token ready unsigned (approved "bob" "2" change) refl refl
      refl refl refl

-- The change is approved and applied, and another is proposed.
abbrev arrivals : List ChangeArrival
arrivals =
    record { at = 5; caller = none; request = approving decision; who = ann; named = refl }
    ∷ record { at = 6; caller = none; request = applying decision; who = ann; named = refl }
    ∷ record { at = 7; caller = none; request = proposing wish; who = ann; named = refl }
    ∷ []

decide_all-IsSettled_example : IsSettled env (decide_all env arrivals waiting)
decide_all-IsSettled_example = decide_all-IsSettled env arrivals waiting (service-IsSettled change)

decide_all-Carries_example : Carries waiting.changes (decide_all env arrivals waiting).changes
decide_all-Carries_example = decide_all-Carries env arrivals waiting (service-IsSettled change)

abbrev settled_change : ConfigChange
settled_change = applied "ann" "6" (approved "ann" "5" change)

arrivals-applied : lookup "cfg-1" (decide_all env arrivals waiting).changes ≡ some settled_change
unfolding lookup decide_all resolve_actor same_actor_type record_event insert new_journal
    new_in_memory_store compute_hash format_int
arrivals-applied = refl

decide_all-approved_example :
    (approver : String) × (approved_at : String) × (by : String) × (at : String) × (settled_change
      ≡ applied by at (approved approver approved_at change))
unfolding lookup
decide_all-approved_example =
    decide_all-approved env arrivals waiting (service-IsSettled change) "cfg-1" change
      settled_change refl arrivals-applied refl refl

decide_all-final_example :
    lookup "cfg-1" (decide_all env arrivals (service_with settled_change)).changes
    ≡ some settled_change
unfolding lookup
decide_all-final_example =
    decide_all-final env arrivals (service_with settled_change) (service-IsSettled settled_change)
      "cfg-1" settled_change refl refl

abbrev all_changes : HistoryRequest
all_changes = record { meta = by_ann; page_size = 1; page_token = ""; config_namespace_filter = "" }

read_history-whole_example :
    read_history env 5 none 2 all_changes waiting
    ≡ some (history_of "" waiting.changes waiting.change_order)
unfolding new_journal resolve_actor same_actor_type authorize history_of lookup length
read_history-whole_example =
    read_history-whole env 5 none waiting refl (λ n h. ap some (read_int-format_int n)) 2
      all_changes refl refl (omega arith) (omega arith)

abbrev activation : DownloadLibraryEntry
activation = record {
  entry_id = "";
  library_path = "lib";
  checksum = "c";
  version = "1";
  action = action_activate;
  changed_by = "";
  reason = "";
  occurred_at = "";
  signer_kid = "k1";
  signature = "s1";
  signature_alg = "";
}

abbrev activate : RecordRequest
activate = record { meta = by_ann; entry = some activation }

record_download_library_change-Recording_example :
    Answers
      (Recording env none activate activation waiting)
      (record_download_library_change env 5 none (some activate) waiting)
record_download_library_change-Recording_example =
    record_download_library_change-Recording env 5 none waiting activate activation ann
      (service-IsSettled change).sound refl refl refl
