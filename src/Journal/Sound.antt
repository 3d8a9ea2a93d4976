-- ===== src/Journal/Sound.antt =====
-- A journal without a database always takes an event.
use open_rgs_go.Prelude.{ℕ, ◌+◌, String, ◌≡◌, refl, true, Option, none, some, arith}
use open_rgs_go.Prelude.Flow.{call}
use open_rgs_go.Prelude.Flow.Triple.{Triple}
use open_rgs_go.Proto.{RequestMeta}
use open_rgs_go.Audit.{Event, InMemoryStore, Result, denied}
use open_rgs_go.Audit.Chain.{IsChained, append-IsChained, new_store-IsChained}
use open_rgs_go.Journal.{
  Journal, JournalEnv, Subject, Host, record_event, insert_event, keep_event, journal_event, audit,
  refuse_with, new_journal,
}

-- No database, and a chained store.
pub record IsSound {Db : Type 0} (env : JournalEnv Db) (j : Journal Db) : Type 0 where
  pub offline : j.db ≡ none
  pub chained : (store : InMemoryStore) × (j.store ≡ some store) × IsChained env.hashing store

module _ {Db : Type 0} (env : JournalEnv Db) where
  pub new_journal-IsSound : IsSound env (new_journal none)
  unfolding new_journal
  new_journal-IsSound = record {
    offline = refl;
    chained = (_, refl, new_store-IsChained env.hashing);
  }

  module _ (now : ℕ) (subject : Subject) where
    keep_event-IsSound :
        (ev : Event) (j : Journal Db)
        → IsSound env j
        → (j' : Journal Db) × (keep_event env now subject ev j ≡ (true, j')) × IsSound env j'
    unfolding keep_event
    keep_event-IsSound ev j sound =
        let (store, e, chained) = sound.chained in
        let (store', done, _, chained') = append-IsChained env.hashing store ev chained in
        (
          record j { store = some store' },
          ground (arith, e, done),
          record { offline = sound.offline; chained = (store', refl, chained') },
        )

    -- A sound journal takes every event, and is sound again.
    pub record_event-IsSound :
        (meta : Option RequestMeta) (object_id action before after : String) (result : Result)
        (reason : String) (j : Journal Db)
        → IsSound env j
        → (j' : Journal Db) × (record_event env now subject meta object_id action before after
              result reason j
            ≡ (true, j'))
          × IsSound env j'
    unfolding record_event insert_event
    record_event-IsSound meta object_id action before after result reason j sound =
        let ev =
          journal_event env now subject meta (j.next_id + 1) object_id action before after result
            reason in
        let (store, e, _) = sound.chained in
        let (j', done, sound') =
          keep_event-IsSound ev (record j { next_id = j.next_id + 1 })
            (record { offline = sound.offline; chained = sound.chained }) in
        (j', ground (arith, e, sound.offline, done), sound')

-- The rules for a service whose state has a sound journal.
module _ {S Db : Type 0} (host : Host S Db) (env : JournalEnv Db) (now : ℕ) (subject : Subject)
    {P : S → Type 0} (sound : (s : S) → P s → IsSound env (host.journal s))
    (kept : (s : S) (j : Journal Db) → P s → IsSound env j → P (host.with_journal j s)) where
  pub audit-kept :
      (meta : Option RequestMeta) (object_id action before after : String) (result : Result)
      (reason : String) (s : S)
      → P s
      → ((audit host env now subject meta object_id action before after result reason s).0 ≡ true)
        × P (audit host env now subject meta object_id action before after result reason s).1
  unfolding audit
  audit-kept meta object_id action before after result reason s p =
      let (j, done, ok) =
        record_event-IsSound env now subject meta object_id action before after result reason
          (host.journal s) (sound s p) in
      rw done (refl, kept s j p ok)

  pub audit-Triple :
      {R : Type 0} {E : R → S → Type 0} (meta : Option RequestMeta)
      (object_id action before after : String) (result : Result) (reason : String)
      → Triple P E
          (λ ok s. (ok ≡ true) × P s)
          (call (audit host env now subject meta object_id action before after result reason))
  audit-Triple meta object_id action before after result reason = record {
    at = audit-kept meta object_id action before after result reason;
  }

  pub refuse_with-Triple :
      {R : Type 0} {E : R → S → Type 0} (r : String → R) (meta : Option RequestMeta)
      (object_id action : String) (o : Option String)
      → ((s : S) (reason : String) → P s → o ≡ some reason → E (r reason) s)
      → Triple P E
          (λ _ s. P s × (o ≡ none))
          (refuse_with host env now subject r meta object_id action o)
  unfolding refuse_with
  refuse_with-Triple r meta object_id action none h = record { at = λ s p. (p, refl) }
  refuse_with-Triple r meta object_id action (some reason) h = record {
    at = λ s p. h _ reason (audit-kept meta object_id action "{}" "{}" denied reason s p).1 refl;
  }
