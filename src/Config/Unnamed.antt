-- ===== src/Config/Unnamed.antt =====
-- Decisions of a caller whom only the token names.
use open_rgs_go.Prelude.{ℕ, ◌≡◌, false, Option, none, some, arith, ◌=ˢ◌}
use open_rgs_go.Prelude.Dict.{lookup, insert}
use open_rgs_go.Actor.{TokenActor, meta_actor, resolve_actor}
use open_rgs_go.Journal.{refuse_with}
use open_rgs_go.Config.State.{
  status_proposed, status_approved, status_applied, ConfigChange, DecisionRequest, Config,
  ConfigEnv,
}
use open_rgs_go.Config.Methods.{authorize, same_status, write_through}
use open_rgs_go.Config.Changes.{
  with_status, refuse, find_change, found_change, approve_body, approve_config_change, apply_body,
  apply_config_change,
}

module _ (env : ConfigEnv) (now : ℕ) (ctx : Option TokenActor) (s : Config env.Db)
    (req : DecisionRequest) (c : ConfigChange) (asked : (req.change_id =ˢ "") ≡ false)
    (allowed : authorize (resolve_actor env.normalize ctx req.meta) ≡ none)
    (unnamed : meta_actor req.meta ≡ none) (there : lookup req.change_id s.changes ≡ some c) where
  -- An approval by an authorized caller whom the request does not name never answers: it panics, and
  -- leaves the change approved without an approver, while the audit store stays as it was.
  pub approve_config_change-unnamed :
      c.status ≡ status_proposed
      → approve_config_change env now ctx (some req) s ≡ (
        none,
        record s { changes = insert req.change_id (with_status status_approved c) s.changes },
      )
  unfolding approve_config_change approve_body refuse refuse_with find_change found_change
      same_status write_through
  approve_config_change-unnamed is = ground (arith, asked, allowed, unnamed, there, is)

  -- An application by an authorized caller whom the request does not name never answers: it panics,
  -- and leaves the change applied, while the current values and the audit store stay as they were.
  pub apply_config_change-unnamed :
      c.status ≡ status_approved
      → apply_config_change env now ctx (some req) s ≡ (
        none,
        record s { changes = insert req.change_id (with_status status_applied c) s.changes },
      )
  unfolding apply_config_change apply_body refuse refuse_with find_change found_change same_status
      write_through
  apply_config_change-unnamed is = ground (arith, asked, allowed, unnamed, there, is)
