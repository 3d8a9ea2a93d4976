-- ===== src/Config/State.antt =====
-- The state and the messages of internal/platform/server/config_grpc.go, and what the service takes
-- from outside the repository. A handler holds the mutex from the checks of its request to its end.
use open_rgs_go.Prelude.{ℕ, String, Bool, false, Option, List, []}
use open_rgs_go.Prelude.Dict.{Dict}
use open_rgs_go.Proto.{RequestMeta, ResponseMeta}
use open_rgs_go.Journal.{Journal, JournalEnv, Host, Subject, new_journal}
use open_rgs_go.Ledger.Env.{Query}

pub data ChangeStatus : Type 0 where
  status_unspecified status_proposed status_approved status_applied status_rejected : ChangeStatus

pub record ConfigChange : Type 0 where
  pub change_id : String
  pub config_namespace : String
  pub config_key : String
  pub proposed_value : String
  pub previous_value : String
  pub reason : String
  pub status : ChangeStatus
  pub proposer_id : String
  pub approver_id : String
  pub applied_by : String
  pub created_at : String
  pub approved_at : String
  pub applied_at : String

pub data DownloadAction : Type 0 where
  action_unspecified action_add action_update action_delete action_activate : DownloadAction

pub record DownloadLibraryEntry : Type 0 where
  pub entry_id : String
  pub library_path : String
  pub checksum : String
  pub version : String
  pub action : DownloadAction
  pub changed_by : String
  pub reason : String
  pub occurred_at : String
  pub signer_kid : String
  pub signature : String
  pub signature_alg : String

pub record ProposeRequest : Type 0 where
  pub meta : Option RequestMeta
  pub config_namespace : String
  pub config_key : String
  pub proposed_value : String
  pub reason : String

-- ApproveConfigChangeRequest and ApplyConfigChangeRequest have the same fields.
pub record DecisionRequest : Type 0 where
  pub meta : Option RequestMeta
  pub change_id : String
  pub reason : String

-- ListConfigHistoryRequest; `page_size` is an int32 bit pattern.
pub record HistoryRequest : Type 0 where
  pub meta : Option RequestMeta
  pub page_size : ℕ
  pub page_token : String
  pub config_namespace_filter : String

pub record RecordRequest : Type 0 where
  pub meta : Option RequestMeta
  pub entry : Option DownloadLibraryEntry

-- ListDownloadLibraryChangesRequest
pub record EntriesRequest : Type 0 where
  pub meta : Option RequestMeta
  pub page_size : ℕ
  pub page_token : String

-- The responses of ProposeConfigChange, ApproveConfigChange and ApplyConfigChange.
pub record ChangeResponse : Type 0 where
  pub meta : ResponseMeta
  pub change : Option ConfigChange

pub record HistoryResponse : Type 0 where
  pub meta : ResponseMeta
  pub changes : List ConfigChange
  pub next_page_token : String

pub record EntryResponse : Type 0 where
  pub meta : ResponseMeta
  pub entry : Option DownloadLibraryEntry

pub record EntriesResponse : Type 0 where
  pub meta : ResponseMeta
  pub entries : List DownloadLibraryEntry
  pub next_page_token : String

-- ConfigService over the state `Db` of its database.
pub record Config (Db : Type 0) : Type 0 where
  pub journal : Journal Db
  pub changes : Dict ConfigChange
  pub change_order : List String
  pub next_change_id : ℕ
  pub current_values : Dict String
  pub download_entries : Dict DownloadLibraryEntry
  pub download_order : List String
  pub next_entry_id : ℕ
  pub download_sig_keys : Dict String
  pub disable_in_memory_cache : Bool

unfoldable pub new_config_service : {Db : Type 0} → Option Db → Config Db
new_config_service handle = record {
  journal = new_journal handle;
  changes = [];
  change_order = [];
  next_change_id = 0;
  current_values = [];
  download_entries = [];
  download_order = [];
  next_entry_id = 0;
  download_sig_keys = [];
  disable_in_memory_cache = false;
}

-- The arguments of the statements that write a change and an entry, and the rows that come back: a
-- column of type timestamptz is written as a text, none for null, and read as a time.
pub record ChangeColumns (Time NullTime : Type 0) : Type 0 where
  pub change_id : String
  pub config_namespace : String
  pub config_key : String
  pub proposed_value : String
  pub previous_value : String
  pub reason : String
  pub status : String
  pub proposer_id : String
  pub approver_id : String
  pub applied_by : String
  pub created_at : Time
  pub approved_at : NullTime
  pub applied_at : NullTime

abbrev pub ChangeArguments : Type 0
ChangeArguments = ChangeColumns (Option String) (Option String)

abbrev pub ChangeRow : Type 0
ChangeRow = ChangeColumns ℕ (Option ℕ)

pub record EntryColumns (Time : Type 0) : Type 0 where
  pub entry_id : String
  pub library_path : String
  pub checksum : String
  pub version : String
  pub action : String
  pub changed_by : String
  pub reason : String
  pub occurred_at : Time
  pub signer_kid : String
  pub signature : String
  pub signature_alg : String

abbrev pub EntryArguments : Type 0
EntryArguments = EntryColumns (Option String)

abbrev pub EntryRow : Type 0
EntryRow = EntryColumns ℕ

-- PostgreSQL, json.Marshal, the HMAC with its base64 text, strconv.Atoi (an int64 bit pattern) and
-- the functions of strings.
pub record ConfigEnv : Type 1 where
  pub Db : Type 0
  pub journal_env : JournalEnv Db
  pub normalize : String → String  -- ToUpper of TrimSpace
  pub trim_space : String → String
  pub format_time : ℕ → String  -- RFC3339Nano
  pub atoi : String → Option ℕ
  pub hmac_base64 : String → String → String  -- of a secret and a text
  pub marshal_change : ConfigChange → String
  pub marshal_entry : DownloadLibraryEntry → String
  pub upsert_change : Db → ChangeArguments → Bool × Db
  pub upsert_value : Db → String → String → String → String → Bool × Db
  pub upsert_entry : Db → EntryArguments → Bool × Db
  pub query_value : Db → String → String → Query String
  pub query_change : Db → String → Query ChangeRow
  pub query_history : Db → String → ℕ → ℕ → Option (List ChangeRow)
  pub query_entries : Db → ℕ → ℕ → Option (List EntryRow)

abbrev pub config_host : {Db : Type 0} → Host (Config Db) Db
config_host = record { journal = λ s. s.journal; with_journal = λ j s. record s { journal = j } }

abbrev pub change_subject : Subject
change_subject = record { id_prefix = "config-audit-"; object_type = "config_change" }

abbrev pub download_subject : Subject
download_subject = record { id_prefix = "config-audit-"; object_type = "download_library_entry" }
