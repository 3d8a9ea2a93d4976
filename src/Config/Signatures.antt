-- ===== src/Config/Signatures.antt =====
-- RecordDownloadLibraryChange on a service that keeps its entries in memory.
use mathlib.Core.Path.{subst}
use open_rgs_go.Prelude.{
  ℕ, String, ◌≡◌, ◌≢◌, ◌⊎◌, refl, sym, ap, ◌∙◌, Bool, true, false, ◌||◌, inl, inr, Option, none,
  some, [], ◌∷◌, ◌++◌, arith, eq_iff, ◌=ˢ◌, if◌then◌else◌, if_both,
}
use open_rgs_go.Prelude.Dict.{Dict, lookup, lookup_or, insert}
use open_rgs_go.Prelude.Flow.{call, gets, modify, run}
use open_rgs_go.Prelude.Flow.Triple.{
  Triple, Triple-bind, Triple-guard, Triple-pure, Triple-require, Triple-given, Answers,
  run-Answers,
}
use open_rgs_go.Proto.{Actor, code_ok, code_denied, code_invalid, code_error}
use open_rgs_go.Actor.{TokenActor, resolve_actor, meta_actor}
use open_rgs_go.Audit.{success}
use open_rgs_go.Journal.{Journal, meta_of}
use open_rgs_go.Journal.Sound.{IsSound, audit-Triple, refuse_with-Triple}
use open_rgs_go.Config.State.{
  DownloadLibraryEntry, RecordRequest, EntryResponse, Config, ConfigEnv, config_host,
  download_subject,
}
use open_rgs_go.Config.Rows.{entry_arguments}
use open_rgs_go.Config.Holds.{with_db-Triple}
use open_rgs_go.Config.Methods.{
  authorize, is_activate, next_entry_id_locked, append_audit, persist_download_entry, with_db,
  verify_download_signature, download_signature_payload,
}
use open_rgs_go.Config.Changes.{actor_id_or_panic}
use open_rgs_go.Config.Listings.{
  entry_fail, entry_answer, entry_id_for, changed_by_for, filled, with_algorithm, check_activation,
  checked_entry, keep_entry, store_entry, record_body, recorded, record_download_library_change,
}

-- The entries, their order and the keys are as given; the counters and the audit store may differ.
pub record Keeps (env : ConfigEnv) (start s : Config env.Db) : Type 0 where
  pub sound : IsSound env.journal_env s.journal
  pub cached : s.disable_in_memory_cache ≡ false
  pub entries : s.download_entries ≡ start.download_entries
  pub order : s.download_order ≡ start.download_order
  pub keys : s.download_sig_keys ≡ start.download_sig_keys

-- The entry carries the signature of its own payload under a key of the service.
pub record IsSigned (env : ConfigEnv) (keys : Dict String) (e : DownloadLibraryEntry) : Type 0 where
  pub secret : String
  pub known : lookup e.signer_kid keys ≡ some secret
  pub usable : secret ≢ ""
  pub signed :
      env.hmac_base64 secret (download_signature_payload env e) ≡ env.trim_space e.signature

-- A refusal that keeps the entries; or an entry with the path, the checksum, the version and the
-- action of the request is the latest, and where it is an activation it is signed.
pub data Recording (env : ConfigEnv) (ctx : Option TokenActor) (req : RecordRequest)
    (asked : DownloadLibraryEntry) (start : Config env.Db) (r : EntryResponse) (s : Config env.Db)
    : Type 0 where
  refused : r.meta.result_code ≢ code_ok → Keeps env start s → Recording env ctx req asked start r s
  kept :
      r.meta.result_code ≡ code_ok
      → (e : DownloadLibraryEntry) → r.entry ≡ some e
      → authorize (resolve_actor env.normalize ctx req.meta) ≡ none
      → e.library_path ≡ asked.library_path
      → e.checksum ≡ asked.checksum
      → e.version ≡ asked.version
      → e.action ≡ asked.action
      → ((is_activate e.action ≡ false) ⊎ IsSigned env start.download_sig_keys e)
      → s.download_entries ≡ insert e.entry_id e start.download_entries
      → s.download_order ≡ start.download_order ++ (e.entry_id ∷ [])
      → Recording env ctx req asked start r s

module _ (env : ConfigEnv) (now : ℕ) (ctx : Option TokenActor) (start : Config env.Db)
    (req : RecordRequest) (asked : DownloadLibraryEntry) where
  abbrev End : EntryResponse → Config env.Db → Type 0
  End = Recording env ctx req asked start

  Keeps-journal :
      (s : Config env.Db) (j : Journal env.Db)
      → Keeps env start s
      → IsSound env.journal_env j
      → Keeps env start (record s { journal = j })
  Keeps-journal s j p sound = record {
    sound = sound;
    cached = p.cached;
    entries = p.entries;
    order = p.order;
    keys = p.keys;
  }

  -- What is known of an entry before it is stored.
  pub record IsReady (e : DownloadLibraryEntry) : Type 0 where
    pub path : e.library_path ≡ asked.library_path
    pub sum : e.checksum ≡ asked.checksum
    pub version : e.version ≡ asked.version
    pub action : e.action ≡ asked.action
    pub signed : (is_activate e.action ≡ false) ⊎ IsSigned env start.download_sig_keys e

  verified_by :
      (e : DownloadLibraryEntry) (keys : Dict String) (o : Option String)
      → lookup e.signer_kid keys ≡ o
      → verify_download_signature env e (elim o [ none ↦ "" | some secret ↦ secret ]) ≡ true
      → IsSigned env keys e
  unfolding verify_download_signature
  verified_by e keys none missing h = absurd (cc h)
  verified_by e keys (some secret) found h = record {
    secret = secret;
    known = found;
    usable = ground (arith, h, eq_iff secret "");
    signed = ground (
      arith,
      h,
      eq_iff (env.hmac_base64 secret (download_signature_payload env e))
          (env.trim_space e.signature),
    );
  }

  verified :
      (e : DownloadLibraryEntry) (keys : Dict String)
      → verify_download_signature env e (lookup_or "" e.signer_kid keys) ≡ true
      → IsSigned env keys e
  unfolding lookup_or
  verified e keys h = verified_by e keys (lookup e.signer_kid keys) refl h

  keep-Triple :
      (e : DownloadLibraryEntry)
      → Triple
          (Keeps env start)
          End
          (λ _ s.
            (s.download_entries ≡ insert e.entry_id e start.download_entries)
            × (s.download_order ≡ start.download_order ++ (e.entry_id ∷ [])))
          (modify (keep_entry env now ctx e))
  unfolding keep_entry
  keep-Triple e = record {
    at = λ s p.
        let entries = insert e.entry_id e s.download_entries in
        let order = s.download_order ++ (e.entry_id ∷ []) in
        let done : keep_entry env now ctx e s
            ≡ record s { download_entries = entries; download_order = order } =
          ground (arith, p.cached) in
        (
          ap (λ x. x.download_entries) done ∙ ap (insert e.entry_id e) p.entries,
          ap (λ x. x.download_order) done ∙ ap (λ o. o ++ (e.entry_id ∷ [])) p.order,
        );
  }

  store-Triple :
      (e : DownloadLibraryEntry)
      → authorize (resolve_actor env.normalize ctx req.meta) ≡ none
      → IsReady e
      → Triple (Keeps env start) End End (store_entry env now ctx req.meta e)
  unfolding store_entry append_audit persist_download_entry with_db keep_entry meta_of
  store-Triple e allowed ready =
      Triple-bind
        (audit-Triple config_host env.journal_env now download_subject (λ s p. p.sound)
          (λ s j p sound. Keeps-journal s j p sound) req.meta e.entry_id
          "record_download_library_change" "{}" (env.marshal_entry e) success e.reason)
        λ ok.
          Triple-bind
            (Triple-require ok (entry_fail env now ctx req.meta code_error "audit unavailable"))
            λ _.
              Triple-bind
                (with_db-Triple env now (λ s p. p.sound.offline)
                  (λ d. env.upsert_entry d (entry_arguments env e)))
                λ persisted.
                  Triple-bind
                    (Triple-require persisted
                      (entry_fail env now ctx req.meta code_error "persistence unavailable"))
                    λ _. Triple-bind (keep-Triple e) λ _.
                      Triple-pure (entry_answer env now ctx req.meta e) λ s p.
                        kept refl e refl allowed ready.path ready.sum ready.version ready.action
                          ready.signed p.0 p.1

  secret-Triple :
      (e : DownloadLibraryEntry)
      → Triple
          (Keeps env start)
          End
          (λ secret s.
            Keeps env start s × (secret ≡ lookup_or "" e.signer_kid start.download_sig_keys))
          (gets (λ s. lookup_or "" e.signer_kid s.download_sig_keys))
  secret-Triple e = record { at = λ s p. (p, ap (lookup_or "" e.signer_kid) p.keys) }

  IsReady-activation :
      (e : DownloadLibraryEntry)
      → e.library_path ≡ asked.library_path
      → e.checksum ≡ asked.checksum
      → e.version ≡ asked.version
      → e.action ≡ asked.action
      → IsSigned env start.download_sig_keys e
      → IsReady (with_algorithm env now ctx e)
  unfolding download_signature_payload
  IsReady-activation e path sum version action signed = record {
    path = path;
    sum = sum;
    version = version;
    action = action;
    signed = inr (record {
      secret = signed.secret;
      known = signed.known;
      usable = signed.usable;
      signed = signed.signed;
    });
  }

  -- The check of an activation, at an entry as the service has filled it in.
  check-Triple :
      (e : DownloadLibraryEntry)
      → e.library_path ≡ asked.library_path
      → e.checksum ≡ asked.checksum
      → e.version ≡ asked.version
      → e.action ≡ asked.action
      → Triple
          (Keeps env start)
          End
          (λ e' s. Keeps env start s × IsReady e')
          (check_activation env now ctx req.meta e)
  unfolding check_activation meta_of
  check-Triple e path sum version action =
      Triple-bind
        (Triple-guard (e.signer_kid =ˢ "" || e.signature =ˢ "")
          (entry_fail env now ctx req.meta code_invalid
            "activation requires signer_kid and signature")
          (λ s p. refused (λ h. cc h) p))
        λ _. Triple-bind (secret-Triple e) λ secret. Triple-given λ same.
          Triple-bind
            (refuse_with-Triple config_host env.journal_env now download_subject (λ s p. p.sound)
              (λ s j p sound. Keeps-journal s j p sound)
              (entry_fail env now ctx req.meta code_denied) req.meta e.entry_id
              "record_download_library_change"
              (if verify_download_signature env e secret
                then none
                else some "invalid download signature")
              (λ s why p _. refused (λ h. cc h) p))
            λ _. Triple-given λ pass. Triple-pure (with_algorithm env now ctx e) λ s p. (
              p,
              IsReady-activation e path sum version action (
                  verified e start.download_sig_keys
                    (ap (verify_download_signature env e) (sym same) ∙ ground (arith, pass))),
            )

  checked-Triple :
      (e : DownloadLibraryEntry) (activation : Bool)
      → is_activate e.action ≡ activation
      → e.library_path ≡ asked.library_path
      → e.checksum ≡ asked.checksum
      → e.version ≡ asked.version
      → e.action ≡ asked.action
      → Triple
          (Keeps env start)
          End
          (λ e' s. Keeps env start s × IsReady e')
          (checked_entry env now ctx activation req.meta e)
  unfolding checked_entry
  checked-Triple e true is path sum version action = check-Triple e path sum version action
  checked-Triple e false is path sum version action = Triple-pure e λ s p.
      (p, record { path = path; sum = sum; version = version; action = action; signed = inl is })

  id-Triple :
      Triple
        (Keeps env start)
        End
        (λ id. Keeps env start)
        (call (entry_id_for env now ctx asked.entry_id))
  unfolding entry_id_for next_entry_id_locked
  id-Triple = record {
    at = λ s p.
        if_both (λ (x : String × Config env.Db). Keeps env start x.1) (asked.entry_id =ˢ "") _
          (asked.entry_id, s)
          (λ _. record {
            sound = p.sound;
            cached = p.cached;
            entries = p.entries;
            order = p.order;
            keys = p.keys;
          })
          (λ _. p);
  }

  by-Triple :
      (a : Actor)
      → meta_actor req.meta ≡ some a
      → Triple (Keeps env start) End (λ by. Keeps env start) (changed_by_for env now ctx asked req)
  by-Triple a named =
      if_both (Triple (Keeps env start) End (λ by. Keeps env start)) (asked.changed_by =ˢ "") _ _
        (λ _.
          subst (λ o. Triple (Keeps env start) End (λ by. Keeps env start) (actor_id_or_panic o))
            (sym named) (Triple-pure a.actor_id λ s p. p))
        (λ _. Triple-pure asked.changed_by λ s p. p)

  record-Triple :
      (a : Actor)
      → meta_actor req.meta ≡ some a
      → Triple (Keeps env start) End End (record_body env now ctx req asked)
  unfolding record_body meta_of
  record-Triple a named =
      Triple-bind
        (Triple-guard (asked.library_path =ˢ "" || asked.checksum =ˢ "" || asked.version =ˢ "")
          (entry_fail env now ctx none code_invalid
            "entry library_path/checksum/version are required")
          (λ s p. refused (λ h. cc h) p))
        λ _.
          Triple-bind
            (refuse_with-Triple config_host env.journal_env now download_subject (λ s p. p.sound)
              (λ s j p sound. Keeps-journal s j p sound)
              (entry_fail env now ctx req.meta code_denied) req.meta ""
              "record_download_library_change"
              (authorize (resolve_actor env.normalize ctx req.meta))
              (λ s why p _. refused (λ h. cc h) p))
            λ _. Triple-given λ allowed. Triple-bind id-Triple λ id.
              Triple-bind (by-Triple a named) λ by.
                let e = filled env now ctx asked id by in
                Triple-bind (checked-Triple e (is_activate e.action) refl refl refl refl refl)
                  λ e'. Triple-given λ ready. store-Triple e' allowed ready

-- RecordDownloadLibraryChange, for an entry and a request that names its actor, always answers, and
-- either refuses and keeps the entries, or the caller is an operator or a service, the entry is the
-- latest of the order with the path, checksum, version and action of the request, and if it is an
-- activation it carries the signature of its payload under a key that the service knows.
pub record_download_library_change-Recording :
    (env : ConfigEnv) (now : ℕ) (ctx : Option TokenActor) (s : Config env.Db) (req : RecordRequest)
    (asked : DownloadLibraryEntry) (a : Actor)
    → IsSound env.journal_env s.journal
    → s.disable_in_memory_cache ≡ false
    → meta_actor req.meta ≡ some a
    → req.entry ≡ some asked
    → Answers
        (Recording env ctx req asked s)
        (record_download_library_change env now ctx (some req) s)
unfolding record_download_library_change recorded
record_download_library_change-Recording env now ctx s req asked a sound cached named given =
    subst (λ o. Answers (Recording env ctx req asked s) (run (recorded env now ctx req o) s))
      (sym given)
      (run-Answers (record_body env now ctx req asked)
        (record-Triple env now ctx s req asked a named) s
        (record { sound = sound; cached = cached; entries = refl; order = refl; keys = refl }))
