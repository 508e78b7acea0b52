-- ===== src/Watch/Unsubscribe.antt =====
-- Unsubscribe: what is left of the subscriptions (pkg/watch/service.go).
use ipfs_blockchain_watcher.Prelude.{
  ℕ, ◌≡◌, refl, ◌==◌, Bool, true, false, ◌&&◌, ◌||◌, String, List, [], ◌∷◌, Option, none,
  if◌then◌else◌, is_empty, str_eq, arith, Bool-cases, inl, inr, ==_iff,
}
use ipfs_blockchain_watcher.Prelude.Assoc.{
  lookup, delete, nat_eq, string_eq, lookup-insert, lookup-delete,
}
use ipfs_blockchain_watcher.Watch.{Subscription, Backend, Service, or_empty, subscribers, drop_type}
use ipfs_blockchain_watcher.Watch.Requests.{unsubscribe_type, unsubscribe_types, unsubscribe}

-- A key of a map.
abbrev has_key : {V : Type 0} → ℕ → List (ℕ × V) → Bool
has_key k [] = false
has_key k ((j, v) ∷ m) = (j == k) || has_key k m

no-key : {V : Type 0} (k : ℕ) (m : List (ℕ × V)) → has_key k m ≡ false → lookup k m ≡ none
unfolding lookup
no-key k [] h = refl
no-key k ((j, v) ∷ m) h = ground (arith, no-key k m)

lookup-empty :
    (id : String) (m : List (String × Subscription)) → is_empty m ≡ true → lookup id m ≡ none
unfolding lookup
lookup-empty id [] h = refl
lookup-empty id (x ∷ m) h = cc

module _ (backend : Backend) where
  -- The subscription of a type that is filed under an id.
  unfoldable pub subscription : ℕ → String → Service backend → Option Subscription
  unfolding subscribers
  subscription ty id s = lookup id (subscribers backend ty s)

  unsubscribe_type-removes :
      (id : String) (ty k : ℕ) (j : String) (s : Service backend)
      → subscription k j (unsubscribe_type backend id ty s)
        ≡ (if (ty == k) && str_eq id j then none else subscription k j s)
  unfolding subscription unsubscribe_type subscribers drop_type lookup
  unsubscribe_type-removes id ty k j s =
      let subs = or_empty (lookup ty s.subscriptions) in
      let left = delete id subs in
      elim (Bool-cases (is_empty left)) [
        | inl none_left ↦
            rw (none_left, lookup-delete ty k s.subscriptions)
              (ground (arith, ==_iff ty k, lookup-delete id j subs, lookup-empty j left none_left))
        | inr some_left ↦
            rw (some_left, lookup-insert ty k left s.subscriptions)
              (ground (arith, ==_iff ty k, lookup-delete id j subs))
      ]

  unsubscribe_types-removes :
      (id : String) (all : List (ℕ × List (String × Subscription))) (k : ℕ) (j : String)
      (s : Service backend)
      → subscription k j (unsubscribe_types backend id all s)
        ≡ (if has_key k all && str_eq id j then none else subscription k j s)
  unfolding unsubscribe_types
  unsubscribe_types-removes id [] k j s = refl
  unsubscribe_types-removes id ((ty, subs) ∷ rest) k j s = ground (
    arith,
    unsubscribe_types-removes id rest k j (unsubscribe_type backend id ty s),
    unsubscribe_type-removes id ty k j s,
  )

  -- After Unsubscribe of an id, no type has a subscription under it, and every other subscription
  -- of every type is what it was.
  pub unsubscribe-subscription :
      (id : String) (ty : ℕ) (j : String) (s : Service backend)
      → subscription ty j (unsubscribe backend id s)
        ≡ (if str_eq id j then none else subscription ty j s)
  unfolding unsubscribe subscription subscribers lookup
  unsubscribe-subscription id ty j s =
      ground (arith, unsubscribe_types-removes id s.subscriptions ty j s, no-key ty s.subscriptions)
