-- ===== src/Audit/Chain.antt =====
-- The chain that `Append` of internal/platform/audit/store.go builds.
use open_rgs_go.Prelude.{
  ◌≡◌, refl, String, true, inl, inr, some, List, [], ◌∷◌, ◌++◌, Option-cases, arith, eq_iff,
}
use open_rgs_go.Audit.{
  Event, Hashing, InMemoryStore, appended, append, seal, intact, last_event, compute_hash,
  new_in_memory_store,
}

-- The events from the hash `first` to the hash `last`: each is intact and names the hash of the one
-- before it.
pub data Chain (h : Hashing) : String → List Event → String → Type 0 where
  unlinked : (hash : String) → Chain h hash [] hash
  linked :
      (first last : String) (e : Event) (es : List Event)
      → e.hash_prev ≡ first
      → intact h e ≡ true
      → Chain h e.hash_curr es last
      → Chain h first (e ∷ es) last

-- A store whose events are a chain from "GENESIS" to the hash it remembers.
abbrev pub IsChained : Hashing → InMemoryStore → Type 0
IsChained h s = Chain h "GENESIS" s.events s.last

module _ (h : Hashing) where
  seal-intact : (last : String) (e : Event) → intact h (seal h last e) ≡ true
  unfolding intact seal compute_hash
  seal-intact last e = ground (arith, eq_iff (compute_hash h last e) (compute_hash h last e))

  seal-prev : (last : String) (e : Event) → (seal h last e).hash_prev ≡ last
  unfolding seal
  seal-prev last e = refl

  extended :
      {first last : String} {es : List Event} (e : Event)
      → Chain h first es last
      → Chain h first (es ++ (seal h last e ∷ [])) (seal h last e).hash_curr
  extended e (unlinked hash) =
      linked hash _ (seal h hash e) [] (seal-prev hash e) (seal-intact hash e) (unlinked _)
  extended e (linked first last d es prev ok c) = linked first _ d _ prev ok (extended e c)

  -- The last event of a chain is intact.
  last_event-intact :
      {first last : String} {es : List Event} (e : Event)
      → Chain h first es last
      → last_event es ≡ some e
      → intact h e ≡ true
  unfolding last_event
  last_event-intact e (unlinked hash) q = absurd (cc q)
  last_event-intact e (linked first last d es prev ok c) q = elim (Option-cases (last_event es)) [
    | inl none_left ↦ ground (arith, ok, none_left, q)
    | inr (l, found) ↦ last_event-intact e c (ground (arith, found, q))
  ]

  -- `Append` to a chained store never answers ErrCorruptChain: it adds the event, sealed with the
  -- store's last hash, behind the others, and the store is chained again.
  pub append-IsChained :
      (s : InMemoryStore) (e : Event)
      → IsChained h s
      → (s' : InMemoryStore) × (append h s e ≡ appended (seal h s.last e) s')
        × (s'.events ≡ s.events ++ (seal h s.last e ∷ []))
        × IsChained h s'
  unfolding append
  append-IsChained s e c = elim (Option-cases (last_event s.events)) [
    | inl empty ↦ (_, ground (arith, empty), refl, extended e c)
    | inr (l, found) ↦ (_, ground (arith, found, last_event-intact l c found), refl, extended e c)
  ]

pub new_store-IsChained : (h : Hashing) → IsChained h new_in_memory_store
unfolding new_in_memory_store
new_store-IsChained h = unlinked "GENESIS"
