-- ===== src/Ledger/Authority.antt =====
-- Who may move an account's money: `authorize` of ledger_grpc.go.
use open_rgs_go.Prelude.{String, ◌≡◌, refl, none, arith, eq_iff}
use open_rgs_go.Proto.{Actor, ActorType, player, operator, service, actor_unspecified}
use open_rgs_go.Actor.{Resolved, actor, refused}
use open_rgs_go.Ledger.Methods.{authorize_actor}

-- An operator, a service, or the player whose account it is.
pub data MayUse (account_id : String) (a : Actor) : Type 0 where
  by_operator : a.actor_type ≡ operator → MayUse account_id a
  by_service : a.actor_type ≡ service → MayUse account_id a
  by_owner : a.actor_type ≡ player → account_id ≡ a.actor_id → MayUse account_id a

-- A request passes `authorize` on an account only for an actor that was resolved and that is an
-- operator, a service, or the player whose id is the account's.
pub authorize_actor-MayUse :
    (account_id : String) (r : Resolved)
    → authorize_actor account_id r ≡ none
    → (a : Actor) × (r ≡ actor a) × MayUse account_id a
unfolding authorize_actor
authorize_actor-MayUse account_id (refused reason) h = absurd (cc h)
authorize_actor-MayUse account_id (actor a) h = (a, refl, by_type a.actor_type refl)
  where
    by_type : (t : ActorType) → a.actor_type ≡ t → MayUse account_id a
    by_type operator e = by_operator e
    by_type service e = by_service e
    by_type player e = by_owner e (ground (arith, h, e, eq_iff account_id a.actor_id))
    by_type actor_unspecified e = absurd (ground (arith, h, e))
