-- ===== src/Config/Rows.antt =====
-- The conversions of config_postgres.go, between the messages and the columns of the database.
use open_rgs_go.Prelude.{ℕ, String, Option, none, some, List, [], ◌∷◌, ◌=ˢ◌, if◌then◌else◌}
use open_rgs_go.Config.State.{
  ChangeStatus, status_unspecified, status_proposed, status_approved, status_applied,
  status_rejected, ConfigChange, DownloadAction, action_unspecified, action_add, action_update,
  action_delete, action_activate, DownloadLibraryEntry, ChangeArguments, ChangeRow, EntryArguments,
  EntryRow, ConfigEnv,
}

unfoldable pub config_status_to_db : ChangeStatus → String
config_status_to_db status_proposed = "proposed"
config_status_to_db status_approved = "approved"
config_status_to_db status_applied = "applied"
config_status_to_db status_rejected = "rejected"
config_status_to_db status_unspecified = "proposed"

unfoldable pub config_status_from_db : String → ChangeStatus
config_status_from_db v =
    if v =ˢ "proposed"
    then status_proposed
    else if v =ˢ "approved"
    then status_approved
    else if v =ˢ "applied"
    then status_applied
    else if v =ˢ "rejected"
    then status_rejected
    else status_unspecified

unfoldable pub download_action_to_db : DownloadAction → String
download_action_to_db action_add = "add"
download_action_to_db action_update = "update"
download_action_to_db action_delete = "delete"
download_action_to_db action_activate = "activate"
download_action_to_db action_unspecified = "add"

unfoldable pub download_action_from_db : String → DownloadAction
download_action_from_db v =
    if v =ˢ "add"
    then action_add
    else if v =ˢ "update"
    then action_update
    else if v =ˢ "delete"
    then action_delete
    else if v =ˢ "activate"
    then action_activate
    else action_unspecified

module _ (env : ConfigEnv) where
  -- none for a null
  unfoldable pub null_if_empty : String → Option String
  null_if_empty v = if env.trim_space v =ˢ "" then none else some v

  -- What persistConfigChange sends.
  unfoldable pub change_arguments : ConfigChange → ChangeArguments
  unfolding config_status_to_db null_if_empty
  change_arguments c = record {
    change_id = c.change_id;
    config_namespace = c.config_namespace;
    config_key = c.config_key;
    proposed_value = c.proposed_value;
    previous_value = c.previous_value;
    reason = c.reason;
    status = config_status_to_db c.status;
    proposer_id = c.proposer_id;
    approver_id = c.approver_id;
    applied_by = c.applied_by;
    created_at = null_if_empty c.created_at;
    approved_at = null_if_empty c.approved_at;
    applied_at = null_if_empty c.applied_at;
  }

  abbrev valid_time : Option ℕ → String
  valid_time none = ""
  valid_time (some t) = env.format_time t

  -- What getConfigChange and listConfigHistoryFromDB make of a row.
  unfoldable pub change_of_row : ChangeRow → ConfigChange
  unfolding config_status_from_db
  change_of_row r = record {
    change_id = r.change_id;
    config_namespace = r.config_namespace;
    config_key = r.config_key;
    proposed_value = r.proposed_value;
    previous_value = r.previous_value;
    reason = r.reason;
    status = config_status_from_db r.status;
    proposer_id = r.proposer_id;
    approver_id = r.approver_id;
    applied_by = r.applied_by;
    created_at = env.format_time r.created_at;
    approved_at = valid_time r.approved_at;
    applied_at = valid_time r.applied_at;
  }

  -- What persistDownloadEntry sends.
  unfoldable pub entry_arguments : DownloadLibraryEntry → EntryArguments
  unfolding download_action_to_db null_if_empty
  entry_arguments e = record {
    entry_id = e.entry_id;
    library_path = e.library_path;
    checksum = e.checksum;
    version = e.version;
    action = download_action_to_db e.action;
    changed_by = e.changed_by;
    reason = e.reason;
    occurred_at = null_if_empty e.occurred_at;
    signer_kid = e.signer_kid;
    signature = e.signature;
    signature_alg = e.signature_alg;
  }

  -- What listDownloadEntriesFromDB makes of a row.
  unfoldable pub entry_of_row : EntryRow → DownloadLibraryEntry
  unfolding download_action_from_db
  entry_of_row r = record {
    entry_id = r.entry_id;
    library_path = r.library_path;
    checksum = r.checksum;
    version = r.version;
    action = download_action_from_db r.action;
    changed_by = r.changed_by;
    reason = r.reason;
    occurred_at = env.format_time r.occurred_at;
    signer_kid = r.signer_kid;
    signature = r.signature;
    signature_alg = r.signature_alg;
  }

  unfoldable pub changes_of_rows : List ChangeRow → List ConfigChange
  unfolding change_of_row
  changes_of_rows [] = []
  changes_of_rows (r ∷ rows) = change_of_row r ∷ changes_of_rows rows

  unfoldable pub entries_of_rows : List EntryRow → List DownloadLibraryEntry
  unfolding entry_of_row
  entries_of_rows [] = []
  entries_of_rows (r ∷ rows) = entry_of_row r ∷ entries_of_rows rows
