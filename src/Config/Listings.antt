-- ===== src/Config/Listings.antt =====
-- ListConfigHistory, RecordDownloadLibraryChange and ListDownloadLibraryChanges of config_grpc.go.
use Prim.Native.Nat.{Ordering}
use Prim.Native.String.{compare as compareˢ}
use open_rgs_go.Prelude.{
  ℕ, ◌==◌, String, Bool, true, false, not, ◌&&◌, ◌||◌, Option, none, some, List, [], ◌∷◌, ◌++◌,
  ◌=ˢ◌, if◌then◌else◌,
}
use open_rgs_go.Prelude.Int64.{◌+64◌}
use open_rgs_go.Prelude.Decimal.{format_int}
use open_rgs_go.Prelude.Dict.{Dict, lookup, lookup_or, insert}
use open_rgs_go.Prelude.Pages.{length, page}
use open_rgs_go.Prelude.Flow.{
  Body, next, blocked, pure, return, call, gets, modify, return_if, run, ◌>>=◌, ◌>>◌,
}
use open_rgs_go.Proto.{RequestMeta, ResultCode, code_ok, code_denied, code_invalid, code_error}
use open_rgs_go.Actor.{TokenActor, meta_actor, resolve_actor}
use open_rgs_go.Audit.{success}
use open_rgs_go.Journal.{refuse_with}
use open_rgs_go.Config.State.{
  ConfigChange, DownloadLibraryEntry, HistoryRequest, HistoryResponse, RecordRequest, EntryResponse,
  EntriesRequest, EntriesResponse, Config, ConfigEnv, config_host, change_subject, download_subject,
}
use open_rgs_go.Config.Rows.{changes_of_rows, entries_of_rows}
use open_rgs_go.Config.Methods.{
  authorize, is_activate, next_entry_id_locked, config_meta, append_audit, persist_download_entry,
  verify_download_signature, page_start, page_limit,
}
use open_rgs_go.Config.Changes.{actor_id_or_panic}

-- The changes of a history that a filter lets through, the latest first.
unfoldable pub history_of : String → Dict ConfigChange → List String → List ConfigChange
history_of filter changes [] = []
history_of filter changes (id ∷ order) =
    let later = history_of filter changes order in
    later ++ elim (lookup id changes) [
      | none ↦ []
      | some c ↦ if not (filter =ˢ "") && not (c.config_namespace =ˢ filter) then [] else c ∷ []
    ]

-- The entries that the order names; none where one of them is nil, which the sort would dereference.
unfoldable pub entries_of :
    Dict DownloadLibraryEntry → List String → Option (List DownloadLibraryEntry)
entries_of entries [] = some []
entries_of entries (id ∷ order) =
    let rest = entries_of entries order in
    elim (lookup id entries) [
      | none ↦ none
      | some e ↦ elim rest [ none ↦ none | some es ↦ some (e ∷ es) ]
    ]

abbrev less : String → String → Bool
less a b = elim (compareˢ a b) [ Ordering.lt ↦ true | _ ↦ false ]

-- The latest first, and by id where the times are equal.
unfoldable pub before : DownloadLibraryEntry → DownloadLibraryEntry → Bool
before a b =
    if a.occurred_at =ˢ b.occurred_at
    then less a.entry_id b.entry_id
    else less b.occurred_at a.occurred_at

-- The stable sort of a list by `before`, as sort.SliceStable gives it.
unfoldable pub insert_entry :
    DownloadLibraryEntry → List DownloadLibraryEntry → List DownloadLibraryEntry
unfolding before
insert_entry e [] = e ∷ []
insert_entry e (f ∷ fs) =
    let rest = insert_entry e fs in if before f e then f ∷ rest else e ∷ f ∷ fs

unfoldable pub sort_entries : List DownloadLibraryEntry → List DownloadLibraryEntry
unfolding insert_entry
sort_entries [] = []
sort_entries (e ∷ es) = insert_entry e (sort_entries es)

-- The token after a page from the database.
unfoldable pub next_offset : ℕ → ℕ → ℕ → String
next_offset start size n = if n == size then format_int (start +64 n) else ""

module _ (env : ConfigEnv) (now : ℕ) (ctx : Option TokenActor) where
  abbrev pub history_answer :
      Option RequestMeta → ResultCode → String → List ConfigChange → String → HistoryResponse
  history_answer meta code reason changes token = record {
    meta = config_meta env now meta code reason;
    changes = changes;
    next_page_token = token;
  }

  abbrev pub entries_answer :
      Option RequestMeta
      → ResultCode
      → String
      → List DownloadLibraryEntry
      → String
      → EntriesResponse
  entries_answer meta code reason entries token = record {
    meta = config_meta env now meta code reason;
    entries = entries;
    next_page_token = token;
  }

  abbrev pub entry_fail : Option RequestMeta → ResultCode → String → EntryResponse
  entry_fail meta code reason = record { meta = config_meta env now meta code reason; entry = none }

  abbrev pub entry_answer : Option RequestMeta → DownloadLibraryEntry → EntryResponse
  entry_answer meta e = record { meta = config_meta env now meta code_ok ""; entry = some e }

  unfoldable pub history_page : HistoryRequest → Option env.Db → Config env.Db → HistoryResponse
  unfolding page_start page_limit page changes_of_rows history_of next_offset length
  history_page req none s =
      let changes = history_of req.config_namespace_filter s.changes s.change_order in
      let (items, token) =
        page changes (page_start env req.page_token) (page_limit env req.page_size) in
      history_answer req.meta code_ok "" items token
  history_page req (some d) s =
      let start = page_start env req.page_token in
      let size = page_limit env req.page_size in
      elim (env.query_history d req.config_namespace_filter size start) [
        | none ↦ history_answer req.meta code_error "persistence unavailable" [] ""
        | some rows ↦
            history_answer req.meta code_ok "" (changes_of_rows env rows)
              (next_offset start size (length rows))
      ]

  unfoldable pub history_body :
      HistoryRequest → Body (Config env.Db) HistoryResponse HistoryResponse
  unfolding authorize refuse_with history_page
  history_body req = do
    refuse_with config_host env.journal_env now change_subject
        (λ reason. history_answer req.meta code_denied reason [] "") req.meta ""
        "list_config_history" (authorize (resolve_actor env.normalize ctx req.meta))
    gets (λ s. history_page req s.journal.db s)

  abbrev no_history_request : HistoryRequest
  no_history_request = record {
    meta = none;
    page_size = 0;
    page_token = "";
    config_namespace_filter = "";
  }

  unfoldable pub list_config_history :
      Option HistoryRequest → Config env.Db → Option HistoryResponse × Config env.Db
  unfolding history_body
  list_config_history none = run (history_body no_history_request)
  list_config_history (some req) = run (history_body req)

  -- The fields that the service fills in.
  unfoldable pub entry_id_for : String → Config env.Db → String × Config env.Db
  unfolding next_entry_id_locked
  entry_id_for id s = if id =ˢ "" then next_entry_id_locked s else (id, s)

  abbrev pub changed_by_for :
      DownloadLibraryEntry → RecordRequest → Body (Config env.Db) EntryResponse String
  changed_by_for e req =
      if e.changed_by =ˢ "" then actor_id_or_panic (meta_actor req.meta) else pure e.changed_by

  abbrev pub filled : DownloadLibraryEntry → String → String → DownloadLibraryEntry
  filled e id by = record e {
    entry_id = id;
    changed_by = by;
    occurred_at = if e.occurred_at =ˢ "" then env.format_time now else e.occurred_at;
  }

  abbrev pub with_algorithm : DownloadLibraryEntry → DownloadLibraryEntry
  with_algorithm e = record e {
    signature_alg = if e.signature_alg =ˢ "" then "HMAC-SHA256" else e.signature_alg;
  }

  -- An activation needs a signature under a key that the service has.
  unfoldable pub check_activation :
      Option RequestMeta
      → DownloadLibraryEntry
      → Body (Config env.Db) EntryResponse DownloadLibraryEntry
  unfolding verify_download_signature lookup_or refuse_with
  check_activation meta e = do
    return_if (e.signer_kid =ˢ "" || e.signature =ˢ "")
        (entry_fail meta code_invalid "activation requires signer_kid and signature")
    secret ← gets (λ s. lookup_or "" e.signer_kid s.download_sig_keys)
    refuse_with config_host env.journal_env now download_subject (entry_fail meta code_denied) meta
        e.entry_id "record_download_library_change"
        (if verify_download_signature env e secret then none else some "invalid download signature")
    pure (with_algorithm e)

  unfoldable pub checked_entry :
      Bool
      → Option RequestMeta
      → DownloadLibraryEntry
      → Body (Config env.Db) EntryResponse DownloadLibraryEntry
  unfolding check_activation
  checked_entry true meta e = check_activation meta e
  checked_entry false meta e = pure e

  unfoldable pub keep_entry : DownloadLibraryEntry → Config env.Db → Config env.Db
  keep_entry e s = if s.disable_in_memory_cache then s else record s {
    download_entries = insert e.entry_id e s.download_entries;
    download_order = s.download_order ++ (e.entry_id ∷ []);
  }

  -- The audit of an entry, its row in the database, and the entry in the map.
  unfoldable pub store_entry :
      Option RequestMeta → DownloadLibraryEntry → Body (Config env.Db) EntryResponse EntryResponse
  unfolding append_audit persist_download_entry keep_entry
  store_entry meta e = do
    audited ← call (
        append_audit env now download_subject meta e.entry_id "record_download_library_change" "{}"
          (env.marshal_entry e) success e.reason)
    return_if (not audited) (entry_fail meta code_error "audit unavailable")
    persisted ← call (persist_download_entry env now e)
    return_if (not persisted) (entry_fail meta code_error "persistence unavailable")
    modify (keep_entry e)
    pure (entry_answer meta e)

  unfoldable pub record_body :
      RecordRequest → DownloadLibraryEntry → Body (Config env.Db) EntryResponse EntryResponse
  unfolding authorize refuse_with entry_id_for checked_entry is_activate store_entry
  record_body req e = do
    return_if (e.library_path =ˢ "" || e.checksum =ˢ "" || e.version =ˢ "")
        (entry_fail none code_invalid "entry library_path/checksum/version are required")
    refuse_with config_host env.journal_env now download_subject (entry_fail req.meta code_denied)
        req.meta "" "record_download_library_change"
        (authorize (resolve_actor env.normalize ctx req.meta))
    id ← call (entry_id_for e.entry_id)
    by ← changed_by_for e req
    entry ← checked_entry (is_activate e.action) req.meta (filled e id by)
    store_entry req.meta entry

  unfoldable pub recorded :
      RecordRequest → Option DownloadLibraryEntry → Body (Config env.Db) EntryResponse EntryResponse
  unfolding record_body
  recorded req none =
      return (entry_fail none code_invalid "entry library_path/checksum/version are required")
  recorded req (some e) = record_body req e

  unfoldable pub record_download_library_change :
      Option RecordRequest → Config env.Db → Option EntryResponse × Config env.Db
  unfolding recorded
  record_download_library_change none =
      run (return (entry_fail none code_invalid "entry library_path/checksum/version are required"))
  record_download_library_change (some req) = run (recorded req req.entry)

  abbrev or_panic : {A : Type 0} → Option A → Body (Config env.Db) EntriesResponse A
  or_panic none s = (blocked, s)
  or_panic (some a) s = (next a, s)

  unfoldable pub entries_page :
      EntriesRequest → Option env.Db → Body (Config env.Db) EntriesResponse EntriesResponse
  unfolding page_start page_limit page entries_of sort_entries entries_of_rows next_offset length
  entries_page req none = do
    listed ← gets (λ s. entries_of s.download_entries s.download_order)
    entries ← or_panic listed
    let (items, token) =
        page (sort_entries entries) (page_start env req.page_token) (page_limit env req.page_size)
    pure (entries_answer req.meta code_ok "" items token)
  entries_page req (some d) =
      let start = page_start env req.page_token in
      let size = page_limit env req.page_size in
      elim (env.query_entries d size start) [
        | none ↦ return (entries_answer req.meta code_error "persistence unavailable" [] "")
        | some rows ↦ pure (
            entries_answer req.meta code_ok "" (entries_of_rows env rows)
              (next_offset start size (length rows)))
      ]

  unfoldable pub entries_body :
      EntriesRequest → Body (Config env.Db) EntriesResponse EntriesResponse
  unfolding authorize refuse_with entries_page
  entries_body req = do
    refuse_with config_host env.journal_env now download_subject
        (λ reason. entries_answer req.meta code_denied reason [] "") req.meta ""
        "list_download_library_changes" (authorize (resolve_actor env.normalize ctx req.meta))
    db ← gets (λ s. s.journal.db)
    entries_page req db

  unfoldable pub list_download_library_changes :
      Option EntriesRequest → Config env.Db → Option EntriesResponse × Config env.Db
  unfolding entries_body
  list_download_library_changes none =
      run (entries_body (record { meta = none; page_size = 0; page_token = "" }))
  list_download_library_changes (some req) = run (entries_body req)
