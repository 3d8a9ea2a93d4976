-- ===== src/Actor/Authority.antt =====
-- Whom `resolveActor` of internal/platform/server/actor_context.go lets through.
use mathlib.Core.Path.{subst}
use open_rgs_go.Prelude.{
  String, ◌≡◌, ◌≢◌, refl, sym, ap, ◌∙◌, Bool-cases, true, false, ◌⊎◌, inl, inr, ◌||◌, Option, none,
  some, arith, eq_iff, ◌=ˢ◌,
}
use open_rgs_go.Proto.{
  Actor, ActorType, RequestMeta, actor_unspecified, player, operator, service, same_actor_type,
}
use open_rgs_go.Actor.{
  TokenActor, actor, resolve_actor, resolve_token, actor_type_from_string, meta_actor,
}

-- An actor with an id and a type.
pub record IsComplete (a : Actor) : Type 0 where
  pub has_id : a.actor_id ≢ ""
  pub has_type : a.actor_type ≢ actor_unspecified

same_actor_type-eq : (a b : ActorType) → same_actor_type a b ≡ true → a ≡ b
unfolding same_actor_type
same_actor_type-eq actor_unspecified actor_unspecified h = refl
same_actor_type-eq player player h = refl
same_actor_type-eq operator operator h = refl
same_actor_type-eq service service h = refl
same_actor_type-eq actor_unspecified player h = absurd (cc h)
same_actor_type-eq actor_unspecified operator h = absurd (cc h)
same_actor_type-eq actor_unspecified service h = absurd (cc h)
same_actor_type-eq player actor_unspecified h = absurd (cc h)
same_actor_type-eq player operator h = absurd (cc h)
same_actor_type-eq player service h = absurd (cc h)
same_actor_type-eq operator actor_unspecified h = absurd (cc h)
same_actor_type-eq operator player h = absurd (cc h)
same_actor_type-eq operator service h = absurd (cc h)
same_actor_type-eq service actor_unspecified h = absurd (cc h)
same_actor_type-eq service player h = absurd (cc h)
same_actor_type-eq service operator h = absurd (cc h)

same_actor_type_refl : (a : ActorType) → same_actor_type a a ≡ true
unfolding same_actor_type
same_actor_type_refl actor_unspecified = refl
same_actor_type_refl player = refl
same_actor_type_refl operator = refl
same_actor_type_refl service = refl

complete :
    (a : Actor)
    → (a.actor_id =ˢ "" || same_actor_type a.actor_type actor_unspecified) ≡ false
    → IsComplete a
complete a h = record {
  has_id = λ e. absurd (ground (arith, h, e, eq_iff a.actor_id ""));
  has_type = λ e. absurd (ground (arith, h, e, same_actor_type_refl actor_unspecified));
}

-- The actor of a token is passed on unchanged, and the request names no other.
token_actor :
    (t a : Actor) (named : Option Actor)
    → resolve_token t named ≡ actor a
    → (a ≡ t) × IsComplete t × ((named ≡ none) ⊎ (named ≡ some t))
unfolding resolve_token
token_actor t a none h =
    elim (Bool-cases (t.actor_id =ˢ "" || same_actor_type t.actor_type actor_unspecified)) [
      | inl bad ↦ absurd (ground (arith, bad, h))
      | inr ok ↦ (ground (arith, ok, h), complete t ok, inl refl)
    ]
token_actor t a (some b) h =
    elim (Bool-cases (t.actor_id =ˢ "" || same_actor_type t.actor_type actor_unspecified)) [
      | inl bad ↦ absurd (ground (arith, bad, h))
      | inr ok ↦
          let same_id : b.actor_id ≡ t.actor_id =
            ground (arith, ok, h, eq_iff b.actor_id t.actor_id) in
          let same_type : b.actor_type ≡ t.actor_type =
            same_actor_type-eq b.actor_type t.actor_type (ground (arith, ok, h)) in
          (
            ground (arith, ok, h),
            complete t ok,
            inr (ap some (λ i. record { actor_id = same_id i; actor_type = same_type i })),
          )
    ]

-- When the context carries a verified token, a request that is let through acts as the token's
-- actor: it has the token's id, which is not empty, and the type that the token's text stands for,
-- which is not the unspecified one; and the request names either no actor or this one.
pub resolve_actor-token :
    (normalize : String → String) (t : TokenActor) (meta : Option RequestMeta) (a : Actor)
    → resolve_actor normalize (some t) meta ≡ actor a
    → (a ≡ record { actor_id = t.id; actor_type = actor_type_from_string normalize t.type })
      × IsComplete a
      × ((meta_actor meta ≡ none) ⊎ (meta_actor meta ≡ some a))
unfolding resolve_actor
resolve_actor-token normalize t meta a h =
    let b : Actor = record {
      actor_id = t.id;
      actor_type = actor_type_from_string normalize t.type;
    } in
    let (same, whole, named) = token_actor b a (meta_actor meta) h in
    (
      same,
      subst IsComplete (sym same) whole,
      elim named [ inl e ↦ inl e | inr e ↦ inr (e ∙ ap some (sym same)) ],
    )
