-- ===== src/Actor.antt =====
-- internal/platform/server/actor_context.go: who makes a request. The context holds the actor of a
-- verified token, if there is one (`ActorFromContext`); `strings.ToUpper` and `strings.TrimSpace`
-- are applied to its type by the parameter `normalize`.
pub mod Authority
use open_rgs_go.Prelude.{
  String, Bool, true, false, ◌&&◌, ◌||◌, not, Option, none, some, ◌=ˢ◌, if◌then◌else◌,
}
use open_rgs_go.Proto.{
  Actor, ActorType, actor_unspecified, player, operator, service, RequestMeta, same_actor_type,
}

-- platformauth.Actor
pub record TokenActor : Type 0 where
  pub id : String
  pub type : String

unfoldable pub actor_type_from_string : (String → String) → String → ActorType
actor_type_from_string normalize v =
    let t = normalize v in
    if t =ˢ "ACTOR_TYPE_PLAYER" || t =ˢ "PLAYER"
    then player
    else if t =ˢ "ACTOR_TYPE_OPERATOR" || t =ˢ "OPERATOR"
    then operator
    else if t =ˢ "ACTOR_TYPE_SERVICE" || t =ˢ "SERVICE"
    then service
    else actor_unspecified

-- The actor, or the reason why there is none.
pub data Resolved : Type 0 where
  actor : Actor → Resolved
  refused : String → Resolved

abbrev pub meta_actor : Option RequestMeta → Option Actor
meta_actor none = none
meta_actor (some m) = m.actor

abbrev incomplete : Actor → Bool
incomplete a = a.actor_id =ˢ "" || same_actor_type a.actor_type actor_unspecified

-- The token's actor, checked against the actor that the request names.
resolve_token : Actor → Option Actor → Resolved
resolve_token a none = if incomplete a then refused "actor context is invalid" else actor a
resolve_token a (some b) =
    if incomplete a
    then refused "actor context is invalid"
    else if not (b.actor_id =ˢ a.actor_id) || not (same_actor_type b.actor_type a.actor_type)
    then refused "actor mismatch with token"
    else actor a

resolve_meta : Option Actor → Resolved
resolve_meta none = refused "actor is required"
resolve_meta (some a) = if incomplete a then refused "actor binding is required" else actor a

unfoldable pub resolve_actor : (String → String) → Option TokenActor → Option RequestMeta → Resolved
unfolding resolve_token resolve_meta actor_type_from_string
resolve_actor normalize (some t) meta =
    resolve_token (record { actor_id = t.id; actor_type = actor_type_from_string normalize t.type })
      (meta_actor meta)
resolve_actor normalize none meta = resolve_meta (meta_actor meta)
