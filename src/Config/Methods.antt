-- ===== src/Config/Methods.antt =====
-- The methods of ConfigService that its handlers call, and its setters.
use Prim.Native.String.{◌++◌ as ◌+ˢ◌}
use open_rgs_go.Prelude.{
  ℕ, ◌+◌, String, Bool, true, false, ◌||◌, Option, none, some, List, [], ◌∷◌, ◌=ˢ◌, if◌then◌else◌,
}
use open_rgs_go.Prelude.Int32.{positive32}
use open_rgs_go.Prelude.Int64.{lt64}
use open_rgs_go.Prelude.Decimal.{format_int}
use open_rgs_go.Prelude.Dict.{Dict, lookup, lookup_or, insert}
use open_rgs_go.Proto.{
  RequestMeta, ResponseMeta, ResultCode, player, operator, service, actor_unspecified,
}
use open_rgs_go.Actor.{Resolved, actor, refused}
use open_rgs_go.Audit.{Result}
use open_rgs_go.Journal.{Journal, Subject, audit, meta_of}
use open_rgs_go.Ledger.Env.{failed, no_rows, row}
use open_rgs_go.Config.State.{
  ChangeStatus, status_unspecified, status_proposed, status_approved, status_applied,
  status_rejected, ConfigChange, DownloadAction, action_unspecified, action_add, action_update,
  action_delete, action_activate, DownloadLibraryEntry, Config, ConfigEnv, config_host,
}
use open_rgs_go.Config.Rows.{change_arguments, entry_arguments}

unfoldable pub same_status : ChangeStatus → ChangeStatus → Bool
same_status status_unspecified status_unspecified = true
same_status status_proposed status_proposed = true
same_status status_approved status_approved = true
same_status status_applied status_applied = true
same_status status_rejected status_rejected = true
same_status _ _ = false

unfoldable pub is_activate : DownloadAction → Bool
is_activate action_activate = true
is_activate action_unspecified = false
is_activate action_add = false
is_activate action_update = false
is_activate action_delete = false

-- `e.Action.String()` of the generated enum
unfoldable pub action_name : DownloadAction → String
action_name action_unspecified = "DOWNLOAD_ACTION_UNSPECIFIED"
action_name action_add = "DOWNLOAD_ACTION_ADD"
action_name action_update = "DOWNLOAD_ACTION_UPDATE"
action_name action_delete = "DOWNLOAD_ACTION_DELETE"
action_name action_activate = "DOWNLOAD_ACTION_ACTIVATE"

unfoldable pub key_for : String → String → String
key_for config_namespace key = config_namespace +ˢ "::" +ˢ key

unfoldable pub authorize : Resolved → Option String
authorize (refused reason) = some reason
authorize (actor a) = elim a.actor_type [
  | operator ↦ none
  | service ↦ none
  | player ↦ some "unauthorized actor type"
  | actor_unspecified ↦ some "unauthorized actor type"
]

module _ {Db : Type 0} where
  unfoldable pub set_disable_in_memory_cache : Bool → Config Db → Config Db
  set_disable_in_memory_cache disable s = record s { disable_in_memory_cache = disable }

  unfoldable pub next_change_id_locked : Config Db → String × Config Db
  next_change_id_locked s = (
    "cfg-" +ˢ format_int (s.next_change_id + 1),
    record s { next_change_id = s.next_change_id + 1 },
  )

  unfoldable pub next_entry_id_locked : Config Db → String × Config Db
  next_entry_id_locked s =
      ("dll-" +ˢ format_int (s.next_entry_id + 1), record s { next_entry_id = s.next_entry_id + 1 })

  -- A write through the pointer to the change: the map holds the same pointer, if it has the change.
  unfoldable pub write_through : String → ConfigChange → Config Db → Config Db
  write_through id c s = elim (lookup id s.changes) [
    | none ↦ s
    | some _ ↦ record s { changes = insert id c s.changes }
  ]

module _ (env : ConfigEnv) where
  -- The keys in the order in which the iteration over the map yields them.
  unfoldable pub signature_keys : List (String × String) → Dict String → Dict String
  signature_keys [] kept = kept
  signature_keys ((kid, secret) ∷ keys) kept =
      let trimmed = env.trim_space kid in
      if trimmed =ˢ "" || secret =ˢ ""
      then signature_keys keys kept
      else signature_keys keys (insert trimmed secret kept)

  unfoldable pub set_download_signature_keys :
      List (String × String) → Config env.Db → Config env.Db
  unfolding signature_keys
  set_download_signature_keys keys s = record s { download_sig_keys = signature_keys keys [] }

  unfoldable pub download_signature_payload : DownloadLibraryEntry → String
  unfolding action_name
  download_signature_payload e =
      env.trim_space e.library_path
      +ˢ "|"
      +ˢ env.trim_space e.checksum
      +ˢ "|"
      +ˢ env.trim_space e.version
      +ˢ "|"
      +ˢ action_name e.action

  unfoldable pub verify_download_signature : DownloadLibraryEntry → String → Bool
  unfolding download_signature_payload
  verify_download_signature e secret =
      if secret =ˢ ""
      then false
      else env.hmac_base64 secret (download_signature_payload e) =ˢ env.trim_space e.signature

  -- The offset that a page token names.
  unfoldable pub page_start : String → ℕ
  page_start token =
      if token =ˢ ""
      then 0
      else elim (env.atoi token) [ none ↦ 0 | some p ↦ if lt64 p 0 then 0 else p ]

  unfoldable pub page_limit : ℕ → ℕ
  page_limit page_size = if positive32 page_size then page_size else 50

module _ (env : ConfigEnv) (now : ℕ) where
  abbrev pub config_meta : Option RequestMeta → ResultCode → String → ResponseMeta
  config_meta = meta_of env.format_time now

  unfoldable pub append_audit :
      Subject
      → Option RequestMeta
      → String
      → String
      → String
      → String
      → Result
      → String
      → Config env.Db
      → Bool × Config env.Db
  unfolding audit
  append_audit = audit config_host env.journal_env now

  -- One statement of the database; without a database nothing is done, and it succeeds.
  unfoldable pub with_db : (env.Db → Bool × env.Db) → Config env.Db → Bool × Config env.Db
  with_db exec s = elim s.journal.db [
    | none ↦ (true, s)
    | some d ↦
        let (ok, d') = exec d in
        let j : Journal env.Db = record s.journal { db = some d' } in (ok, record s { journal = j })
  ]

  unfoldable pub persist_config_change : ConfigChange → Config env.Db → Bool × Config env.Db
  unfolding with_db change_arguments
  persist_config_change c = with_db (λ d. env.upsert_change d (change_arguments env c))

  unfoldable pub persist_current_value :
      String → String → String → String → Config env.Db → Bool × Config env.Db
  unfolding with_db
  persist_current_value config_namespace key value updated_by =
      with_db (λ d. env.upsert_value d config_namespace key value updated_by)

  unfoldable pub persist_download_entry :
      DownloadLibraryEntry → Config env.Db → Bool × Config env.Db
  unfolding with_db entry_arguments
  persist_download_entry e = with_db (λ d. env.upsert_entry d (entry_arguments env e))

  -- The value in the database, empty where it has none; none where the query fails.
  unfoldable pub get_current_value : env.Db → String → String → Option String
  get_current_value d config_namespace key = elim (env.query_value d config_namespace key) [
    | failed ↦ none
    | no_rows ↦ some ""
    | row value ↦ some value
  ]

  unfoldable pub current_value : String → String → Config env.Db → Option String
  unfolding key_for get_current_value lookup_or
  current_value config_namespace key s = elim s.journal.db [
    | none ↦ some (lookup_or "" (key_for config_namespace key) s.current_values)
    | some d ↦ get_current_value d config_namespace key
  ]
