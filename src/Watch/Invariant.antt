-- ===== src/Watch/Invariant.antt =====
-- The two maps of the service agree, hold no empty entry, and file subscriptions under their ids.
use ipfs_blockchain_watcher.Prelude.{
  ℕ, ◌≡◌, refl, ◌∙◌, sym, ap, ◌==◌, Bool, true, false, String, List, [], ◌∷◌, Option, none, some,
  is_empty, arith, Bool-cases, inl, inr, ==_iff,
}
use ipfs_blockchain_watcher.Prelude.Assoc.{
  lookup, insert, delete, nat_eq, string_eq, lookup-insert, lookup-delete,
}
use ipfs_blockchain_watcher.Watch.{
  Subscription, Backend, Service, or_empty, quit_all, drop_type, subscribers, close_type,
  close_types, close,
}

abbrev pub is_some {ℓ} : {A : Type ℓ} → Option A → Bool
is_some none = false
is_some (some a) = true

pub record WellFormed {T : Type 0} (subs : List (ℕ × List (String × Subscription)))
    (types : List (ℕ × T)) : Type 0 where
  -- A type has subscribers exactly when it has settings.
  pub typed : (ty : ℕ) → is_some (lookup ty subs) ≡ is_some (lookup ty types)
  -- A type that is in the map has a subscriber.
  pub inhabited :
      (ty : ℕ) (m : List (String × Subscription)) → lookup ty subs ≡ some m → is_empty m ≡ false
  -- A subscription is filed under its id.
  pub named :
      (ty : ℕ) (id : String) (sub : Subscription)
      → lookup id (or_empty (lookup ty subs)) ≡ some sub
      → sub.id ≡ id

nothing : (id : String) (sub : Subscription) → lookup {V = Subscription} id [] ≡ some sub → ⊥
unfolding lookup
nothing id sub h = cc

module _ {T : Type 0} where
  pub empty-WellFormed : WellFormed {T = T} [] []
  unfolding lookup
  empty-WellFormed = record {
    typed = λ ty. refl;
    inhabited = λ ty m h. cc;
    named = λ ty id sub h. cc;
  }

  pub delete-WellFormed :
      (ty : ℕ) {subs : List (ℕ × List (String × Subscription))} {types : List (ℕ × T)}
      → WellFormed subs types
      → WellFormed (delete ty subs) (delete ty types)
  delete-WellFormed ty {subs} {types} w = record {
    typed = λ k. simp lookup-delete (ground (arith, w.typed k));
    inhabited = λ k m h. ground (arith, lookup-delete ty k subs, w.inhabited k m);
    named = λ k id sub h. elim (Bool-cases (ty == k)) [
      | inl same ↦ absurd (nothing id sub (rw (lookup-delete ty k subs, same) at h))
      | inr other ↦ w.named k id sub (rw (lookup-delete ty k subs, other) at h)
    ];
  }

  pub insert-WellFormed :
      (ty : ℕ) (m : List (String × Subscription)) (t : T)
      {subs : List (ℕ × List (String × Subscription))} {types : List (ℕ × T)}
      → WellFormed subs types
      → is_empty m ≡ false
      → ((id : String) (sub : Subscription) → lookup id m ≡ some sub → sub.id ≡ id)
      → WellFormed (insert ty m subs) (insert ty t types)
  insert-WellFormed ty m t {subs} {types} w e n = record {
    typed = λ k. simp lookup-insert (ground (arith, w.typed k));
    inhabited = λ k m' h. ground (arith, lookup-insert ty k m subs, w.inhabited k m', e);
    named = λ k id sub h. elim (Bool-cases (ty == k)) [
      | inl same ↦ n id sub (rw (lookup-insert ty k m subs, same) at h)
      | inr other ↦ w.named k id sub (rw (lookup-insert ty k m subs, other) at h)
    ];
  }

  -- New subscribers for a type that has settings.
  pub replace-WellFormed :
      (ty : ℕ) (m : List (String × Subscription)) {subs : List (ℕ × List (String × Subscription))}
      {types : List (ℕ × T)}
      → WellFormed subs types
      → is_empty m ≡ false
      → is_some (lookup ty types) ≡ true
      → ((id : String) (sub : Subscription) → lookup id m ≡ some sub → sub.id ≡ id)
      → WellFormed (insert ty m subs) types
  replace-WellFormed ty m {subs} {types} w e t n = record {
    typed = λ k. elim (Bool-cases (ty == k)) [
      | inl same ↦
          let key : ty ≡ k = (==_iff ty k).0 same in
          rw (lookup-insert ty k m subs, same) (sym t ∙ ap (λ j. is_some (lookup j types)) key)
      | inr other ↦ rw (lookup-insert ty k m subs, other) (w.typed k)
    ];
    inhabited = λ k m' h. ground (arith, lookup-insert ty k m subs, w.inhabited k m', e);
    named = λ k id sub h. elim (Bool-cases (ty == k)) [
      | inl same ↦ n id sub (rw (lookup-insert ty k m subs, same) at h)
      | inr other ↦ w.named k id sub (rw (lookup-insert ty k m subs, other) at h)
    ];
  }

module _ (backend : Backend) where
  -- The invariant of a service is about its two maps.
  abbrev pub IsValid : Service backend → Type 0
  IsValid s = WellFormed s.subscriptions s.subscription_types

  -- Two states with the same maps, which differ in what the channels hold.
  abbrev pub SameMaps : Service backend → Service backend → Type 0
  SameMaps s t = (t.subscriptions ≡ s.subscriptions) × (t.subscription_types ≡ s.subscription_types)

  pub SameMaps-IsValid : (s t : Service backend) → SameMaps s t → IsValid s → IsValid t
  SameMaps-IsValid s t e v = rw (e.0, e.1) v

  pub quit_all-SameMaps :
      (subs : List (String × Subscription)) (s : Service backend)
      → SameMaps s (quit_all backend subs s)
  unfolding quit_all
  quit_all-SameMaps [] s = (refl, refl)
  quit_all-SameMaps ((id, sub) ∷ subs) s = quit_all-SameMaps subs _

  pub drop_type-IsValid :
      (ty : ℕ) (s : Service backend) → IsValid s → IsValid (drop_type backend ty s)
  unfolding drop_type
  drop_type-IsValid ty s v = delete-WellFormed ty v

  pub close_type-IsValid :
      (ty : ℕ) (s : Service backend) → IsValid s → IsValid (close_type backend ty s)
  unfolding close_type
  close_type-IsValid ty s v =
      let t = quit_all backend (subscribers backend ty s) s in
      let same = quit_all-SameMaps (subscribers backend ty s) s in
      drop_type-IsValid ty t (SameMaps-IsValid s t same v)

  close_types-IsValid :
      (all : List (ℕ × List (String × Subscription))) (s : Service backend)
      → IsValid s
      → IsValid (close_types backend all s)
  unfolding close_types
  close_types-IsValid [] s v = v
  close_types-IsValid ((ty, subs) ∷ rest) s v =
      let t = quit_all backend subs s in
      close_types-IsValid rest (drop_type backend ty t)
        (drop_type-IsValid ty t (SameMaps-IsValid s t (quit_all-SameMaps subs s) v))

  pub close-IsValid : (s : Service backend) → IsValid s → IsValid (close backend s)
  unfolding close
  close-IsValid s v = close_types-IsValid s.subscriptions s v
