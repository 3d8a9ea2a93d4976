-- ===== src/Config/Holds.antt =====
-- Rules for the steps of the handlers of config_grpc.go, on a service that keeps its state in memory.
use mathlib.Core.Path.{subst}
use open_rgs_go.Prelude.{ℕ, String, ◌≡◌, refl, sym, ap, ◌∙◌, Bool, true, Option, none, some, arith}
use open_rgs_go.Prelude.Dict.{lookup, insert, insert-insert, lookup-insert_self}
use open_rgs_go.Prelude.Flow.{Body, next, call, modify, ◌>>=◌, ◌>>◌}
use open_rgs_go.Prelude.Flow.Triple.{Ends, Triple, Triple-bind, Triple-require}
use open_rgs_go.Proto.{Actor, RequestMeta, code_denied, code_invalid, code_error}
use open_rgs_go.Actor.{TokenActor, resolve_actor, meta_actor}
use open_rgs_go.Audit.{success}
use open_rgs_go.Journal.{Journal}
use open_rgs_go.Journal.Sound.{IsSound, audit-Triple, refuse_with-Triple}
use open_rgs_go.Config.State.{
  ConfigChange, ChangeResponse, Config, ConfigEnv, config_host, change_subject,
}
use open_rgs_go.Config.Rows.{change_arguments}
use open_rgs_go.Config.Methods.{
  authorize, write_through, append_audit, persist_config_change, persist_current_value, with_db,
}
use open_rgs_go.Config.Changes.{
  fail, refuse, audit_change, persist, find_change, found_change, actor_id_or_panic,
}

-- The state is as given, but for its journal, which is sound.
pub record Holding (env : ConfigEnv) (start s : Config env.Db) : Type 0 where
  pub sound : IsSound env.journal_env s.journal
  pub same : s ≡ record start { journal = s.journal }

-- The state after the change under `id` was written.
abbrev pub written : {Db : Type 0} → String → ConfigChange → Config Db → Config Db
written id c s = record s { changes = insert id c s.changes }

module _ (env : ConfigEnv) where
  pub Holding-refl : (s : Config env.Db) → IsSound env.journal_env s.journal → Holding env s s
  Holding-refl s sound = record { sound = sound; same = refl }

  abbrev rejournal : Journal env.Db → Config env.Db → Config env.Db
  rejournal j x = record x { journal = j }

  pub Holding-journal :
      (start s : Config env.Db) (j : Journal env.Db)
      → Holding env start s
      → IsSound env.journal_env j
      → Holding env start (record s { journal = j })
  Holding-journal start s j h sound = record { sound = sound; same = ap (rejournal j) h.same }

  -- A step that neither reads nor writes the journal.
  pub Holding-step :
      (f : Config env.Db → Config env.Db) (start s end : Config env.Db)
      → ((j : Journal env.Db) → f (record start { journal = j }) ≡ record end { journal = j })
      → Holding env start s
      → Holding env end (f s)
  Holding-step f start s end h p =
      let e : f s ≡ record end { journal = s.journal } = ap f p.same ∙ h s.journal in
      record {
        sound = subst (IsSound env.journal_env) (sym (ap (λ x. x.journal) e)) p.sound;
        same = e ∙ ap (λ j. record end { journal = j }) (sym (ap (λ x. x.journal) e));
      }

-- Without a database, what is sent to it succeeds.
pub with_db-Triple :
    (env : ConfigEnv) (now : ℕ) {P : Config env.Db → Type 0} {R : Type 0}
    {F : R → Config env.Db → Type 0}
    → ((s : Config env.Db) → P s → s.journal.db ≡ none)
    → (exec : env.Db → Bool × env.Db)
    → Triple P F (λ ok s. (ok ≡ true) × P s) (call (with_db env now exec))
unfolding with_db
with_db-Triple env now {P} {F} offline exec = record {
  at = λ s p.
      let e : with_db env now exec s ≡ (true, s) = ground (arith, offline s p) in
      subst (λ x. Ends F (λ ok s. (ok ≡ true) × P s) (next x.0, x.1)) (sym e) (refl, p);
}

module _ (env : ConfigEnv) (now : ℕ) (start : Config env.Db) where
  pub persist_current_value-Triple :
      {R : Type 0} {E : R → Config env.Db → Type 0} (config_namespace key value by : String)
      → Triple
          (Holding env start)
          E
          (λ ok s. (ok ≡ true) × Holding env start s)
          (call (persist_current_value env now config_namespace key value by))
  unfolding persist_current_value
  persist_current_value-Triple config_namespace key value by =
      with_db-Triple env now (λ s p. p.sound.offline)
        (λ d. env.upsert_value d config_namespace key value by)

module _ (env : ConfigEnv) (now : ℕ) (ctx : Option TokenActor) (start : Config env.Db)
    {E : ChangeResponse → Config env.Db → Type 0} where
  pub refuse-Triple :
      (meta : Option RequestMeta) (object_id action : String)
      → ((s : Config env.Db) (reason : String)
          → Holding env start s
          → E (fail env now ctx meta code_denied reason) s)
      → Triple
          (Holding env start)
          E
          (λ _ s. Holding env start s × (authorize (resolve_actor env.normalize ctx meta) ≡ none))
          (refuse env now ctx meta object_id action)
  unfolding refuse
  refuse-Triple meta object_id action h =
      refuse_with-Triple config_host env.journal_env now change_subject (λ s p. p.sound)
        (λ s j p sound. Holding-journal env start s j p sound) _ meta object_id action
        (authorize (resolve_actor env.normalize ctx meta)) (λ s reason p _. h s reason p)

  pub audit_change-Triple :
      (meta : Option RequestMeta) (id action old : String) (c : ConfigChange) (reason : String)
      → Triple
          (Holding env start)
          E
          (λ _. Holding env start)
          (audit_change env now ctx meta id action old c reason)
  unfolding audit_change append_audit
  audit_change-Triple meta id action old c reason =
      Triple-bind
        (audit-Triple config_host env.journal_env now change_subject (λ s p. p.sound)
          (λ s j p sound. Holding-journal env start s j p sound) meta id action old
          (env.marshal_change c) success reason)
        λ ok. Triple-require ok (fail env now ctx meta code_error "audit unavailable")

  pub persist-Triple :
      (meta : Option RequestMeta) (c : ConfigChange)
      → Triple (Holding env start) E (λ _. Holding env start) (persist env now ctx meta c)
  unfolding persist persist_config_change
  persist-Triple meta c =
      Triple-bind
        (with_db-Triple env now (λ s p. p.sound.offline)
          (λ d. env.upsert_change d (change_arguments env c)))
        λ ok. Triple-require ok (fail env now ctx meta code_error "persistence unavailable")

  pub find_change-Triple :
      (meta : Option RequestMeta) (id : String)
      → ((s : Config env.Db)
          → Holding env start s
          → E (fail env now ctx meta code_invalid "change not found") s)
      → Triple
          (Holding env start)
          E
          (λ c s. Holding env start s × (lookup id start.changes ≡ some c))
          (find_change env now ctx meta id)
  unfolding find_change found_change
  find_change-Triple meta id h = record {
    at = λ s p.
        subst (λ o. Ends E Found (found_change env now ctx meta id o s.journal.db s))
          (sym (ap (λ x. lookup id x.changes) p.same))
          (subst
            (λ db. Ends E Found (found_change env now ctx meta id (lookup id start.changes) db s))
            (sym p.sound.offline) (by_lookup s p (lookup id start.changes) refl));
  }
    where
      Found : ConfigChange → Config env.Db → Type 0
      Found c s = Holding env start s × (lookup id start.changes ≡ some c)

      by_lookup :
          (s : Config env.Db)
          → Holding env start s
          → (o : Option ConfigChange) → lookup id start.changes ≡ o
          → Ends E Found (found_change env now ctx meta id o none s)
      by_lookup s p none e = h s p
      by_lookup s p (some c) e = (p, e)

module _ (env : ConfigEnv) {E : ChangeResponse → Config env.Db → Type 0} where
  -- A write through the pointer to a change that the map has.
  pub write-Triple :
      (start : Config env.Db) (id : String) (old c : ConfigChange)
      → lookup id start.changes ≡ some old
      → Triple
          (Holding env start)
          E
          (λ _. Holding env (written id c start))
          (modify (write_through id c))
  unfolding write_through
  write-Triple start id old c there = record {
    at = λ s p.
        Holding-step env (write_through id c) start s (written id c start)
          (λ j. ground (arith, there)) p;
  }

  pub actor-Triple :
      {P : Config env.Db → Type 0} (o : Option Actor) (a : Actor)
      (k : String → Body (Config env.Db) ChangeResponse ChangeResponse)
      → o ≡ some a
      → Triple P E E (k a.actor_id)
      → Triple P E E (actor_id_or_panic o >>= k)
  actor-Triple {P} o a k e t = subst (λ o. Triple P E E (actor_id_or_panic o >>= k)) (sym e) t

  -- A change that the map has is marked, then the caller is named, then the change is filled in.
  pub mark-Triple :
      (start : Config env.Db) (meta : Option RequestMeta) (a : Actor) (id : String)
      (old mid : ConfigChange) (new : String → ConfigChange)
      (rest : String → Body (Config env.Db) ChangeResponse ChangeResponse)
      → meta_actor meta ≡ some a
      → lookup id start.changes ≡ some old
      → Triple (Holding env (written id (new a.actor_id) start)) E E (rest a.actor_id)
      → Triple (Holding env start) E E (
          modify (write_through id mid)
          >> (actor_id_or_panic (meta_actor meta) >>= λ by.
              modify (write_through id (new by)) >> rest by))
  mark-Triple start meta a id old mid new rest named there t =
      Triple-bind (write-Triple start id old mid there) λ _.
        actor-Triple (meta_actor meta) a (λ by. modify (write_through id (new by)) >> rest by) named
          (Triple-bind
            (write-Triple (written id mid start) id mid (new a.actor_id)
              (lookup-insert_self id mid start.changes))
            λ _.
              subst (λ d. Triple (Holding env (record start { changes = d })) E E (rest a.actor_id))
                (sym (insert-insert id (new a.actor_id) mid start.changes)) t)
