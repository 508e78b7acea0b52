-- ===== src/Watch/Keeps.antt =====
-- What the parts of the service's handlers do to its maps.
use ipfs_blockchain_watcher.Prelude.{
  ℕ, ◌≡◌, ◌≢◌, refl, ◌∙◌, sym, ap, subst, true, false, ◌||◌, String, List, [], ◌∷◌, some, is_empty,
  eq_iff, arith, Bool-cases, Option-cases, inl, inr,
}
use ipfs_blockchain_watcher.Prelude.Int.{ℤ}
use ipfs_blockchain_watcher.Prelude.Assoc.{
  lookup, insert, delete, nat_eq, string_eq, lookup-insert, lookup-delete,
}
use ipfs_blockchain_watcher.Prelude.Results.{Result, ok, or_panic, >>=-eq-ok, Result-cases}
use ipfs_blockchain_watcher.Watch.{
  or_empty, Subscription, Backend, Service, send_payload, send_non_blocking_err,
  send_non_blocking_quit, subscribers, serve_subscribers, serve_response, serve_type, serve_types,
  close_type, has_ended,
}
use ipfs_blockchain_watcher.Watch.Requests.{
  add_subscription, refuse, start_history, unsubscribe_type, historical_range, feed_response,
  feed_cids, feed_block,
}
use ipfs_blockchain_watcher.Watch.Invariant.{
  is_some, insert-WellFormed, replace-WellFormed, IsValid, SameMaps, SameMaps-IsValid,
  drop_type-IsValid, close_type-IsValid,
}

insert-ne-empty :
    (id : String) (sub : Subscription) (m : List (String × Subscription))
    → is_empty (insert id sub m) ≡ false
unfolding insert
insert-ne-empty id sub [] = refl
insert-ne-empty id sub ((j, t) ∷ m) = ground arith

-- What is filed under its id stays so when another is.
insert-named :
    (sub : Subscription) (m : List (String × Subscription))
    → ((id : String) (t : Subscription) → lookup id m ≡ some t → t.id ≡ id)
    → (id : String) (t : Subscription) → lookup id (insert sub.id sub m) ≡ some t
    → t.id ≡ id
insert-named sub m h id t e =
    ground (arith, lookup-insert sub.id id sub m, eq_iff sub.id id, h id t)

delete-named :
    (k : String) (m : List (String × Subscription))
    → ((id : String) (t : Subscription) → lookup id m ≡ some t → t.id ≡ id)
    → (id : String) (t : Subscription) → lookup id (delete k m) ≡ some t
    → t.id ≡ id
delete-named k m h id t e = ground (arith, lookup-delete k id m, h id t)

panic-ne-ok {ℓ} : {A : Type ℓ} (a : A) → Result.panic ≢ ok a
panic-ne-ok a h = cc

ok-injective {ℓ} : {A : Type ℓ} {a b : A} → ok a ≡ ok b → a ≡ b
ok-injective h = cc

module _ (backend : Backend) where
  open backend use {Settings, Payload, Response, Cids}

  pub add_subscription-IsValid :
      (ty : ℕ) (sub : Subscription) (params : Settings) (s : Service backend)
      → IsValid backend s
      → IsValid backend (add_subscription backend ty sub params s)
  unfolding add_subscription subscribers
  add_subscription-IsValid ty sub params s v =
      let m = subscribers backend ty s in
      insert-WellFormed ty (insert sub.id sub m) params v (insert-ne-empty sub.id sub m)
        (insert-named sub m (v.named ty))

  -- A type in which a subscription is left has an entry.
  left-typed :
      (id : String) (ty : ℕ) (s : Service backend)
      → is_empty (delete id (or_empty (lookup ty s.subscriptions))) ≡ false
      → is_some (lookup ty s.subscriptions) ≡ true
  unfolding delete
  left-typed id ty s e = elim (Option-cases (lookup ty s.subscriptions)) [
    | inl missing ↦ ground (arith, missing)
    | inr (m, here) ↦ rw here refl
  ]

  pub unsubscribe_type-IsValid :
      (id : String) (ty : ℕ) (s : Service backend)
      → IsValid backend s
      → IsValid backend (unsubscribe_type backend id ty s)
  unfolding unsubscribe_type subscribers
  unsubscribe_type-IsValid id ty s v =
      let left = delete id (or_empty (lookup ty s.subscriptions)) in
      elim (Bool-cases (is_empty left)) [
        | inl none_left ↦ rw none_left (drop_type-IsValid backend ty s v)
        | inr some_left ↦ rw some_left (
            replace-WellFormed ty left v some_left (sym (v.typed ty) ∙ left-typed id ty s some_left)
              (delete-named id (or_empty (lookup ty s.subscriptions)) (v.named ty)))
      ]

  same-ok : (s s' : Service backend) → ok s ≡ ok s' → SameMaps backend s s'
  same-ok s s' h =
      let e = ok-injective h in
      (sym (ap (λ t. t.subscriptions) e), sym (ap (λ t. t.subscription_types) e))

  serve_subscribers-SameMaps :
      (response : Response) (rlp : List ℕ) (subs : List (String × Subscription))
      (s s' : Service backend)
      → serve_subscribers backend response rlp subs s ≡ ok s'
      → SameMaps backend s s'
  unfolding serve_subscribers
  serve_subscribers-SameMaps response rlp [] s s' h = same-ok s s' h
  serve_subscribers-SameMaps response rlp ((id, sub) ∷ subs) s s' h =
      let (height, _, h') = >>=-eq-ok (or_panic (backend.response_height response)) _ h in
      serve_subscribers-SameMaps response rlp subs _ s' h'

  serve_response-SameMaps :
      (response : Response) (subs : List (String × Subscription)) (s s' : Service backend)
      → serve_response backend response subs s ≡ ok s'
      → SameMaps backend s s'
  unfolding serve_response
  serve_response-SameMaps response subs s s' h =
      elim (Result-cases (backend.encode_response response)) [
        | inl (rlp, e) ↦
            serve_subscribers-SameMaps response rlp subs s s' (rw (serve_response, e) at h)
        | inr (inl (x, e)) ↦ same-ok s s' (rw (serve_response, e) at h)
        | inr (inr e) ↦ absurd (panic-ne-ok s' (rw (serve_response, e) at h))
      ]

  serve_type-IsValid :
      (payload : Payload) (ty : ℕ) (subs : List (String × Subscription)) (s s' : Service backend)
      → serve_type backend payload ty subs s ≡ ok s'
      → IsValid backend s
      → IsValid backend s'
  unfolding serve_type
  serve_type-IsValid payload ty subs s s' h v =
      let closed : close_type backend ty s ≡ s' → IsValid backend s' =
        λ e. subst (IsValid backend) e (close_type-IsValid backend ty s v) in
      elim (Option-cases (lookup ty s.subscription_types)) [
        | inl missing ↦ closed (ok-injective (rw (serve_type, missing) at h))
        | inr (config, here) ↦ elim (Bool-cases (has_ended backend config payload)) [
          | inl ended ↦ closed (ok-injective (rw (serve_type, here, ended) at h))
          | inr going ↦ elim (Result-cases (backend.filter config payload)) [
            | inl (response, e) ↦
                SameMaps-IsValid backend s s'
                  (serve_response-SameMaps response subs s s'
                    (rw (serve_type, here, going, e) at h))
                  v
            | inr (inl (x, e)) ↦ closed (ok-injective (rw (serve_type, here, going, e) at h))
            | inr (inr e) ↦ absurd (panic-ne-ok s' (rw (serve_type, here, going, e) at h))
          ]
        ]
      ]

  pub serve_types-IsValid :
      (payload : Payload) (all : List (ℕ × List (String × Subscription))) (s s' : Service backend)
      → serve_types backend payload all s ≡ ok s'
      → IsValid backend s
      → IsValid backend s'
  unfolding serve_types
  serve_types-IsValid payload [] s s' h v = subst (IsValid backend) (ok-injective h) v
  serve_types-IsValid payload ((ty, subs) ∷ rest) s s' h v =
      let (t, first, later) = >>=-eq-ok (serve_type backend payload ty subs s) _ h in
      serve_types-IsValid payload rest t s' later (serve_type-IsValid payload ty subs s t first v)

  feed_response-SameMaps :
      (sub : Subscription) (response : Response) (s s' : Service backend)
      → feed_response backend sub response s ≡ ok s'
      → SameMaps backend s s'
  unfolding feed_response
  feed_response-SameMaps sub response s s' h =
      elim (Result-cases (backend.encode_response response)) [
        | inl (rlp, e) ↦
            let (height, _, sent) =
              >>=-eq-ok (or_panic (backend.response_height response)) _
                (rw (feed_response, e) at h) in
            same-ok _ s' sent
        | inr (inl (x, e)) ↦ same-ok s s' (rw (feed_response, e) at h)
        | inr (inr e) ↦ absurd (panic-ne-ok s' (rw (feed_response, e) at h))
      ]

  feed_cids-SameMaps :
      (sub : Subscription) (i : ℤ) (all : List Cids) (s s' : Service backend)
      → feed_cids backend sub i all s ≡ ok s'
      → SameMaps backend s s'
  unfolding feed_cids
  feed_cids-SameMaps sub i [] s s' h = same-ok s s' h
  feed_cids-SameMaps sub i (cids ∷ rest) s s' h = elim (Result-cases (backend.fetch cids)) [
    | inl (response, e) ↦
        let (t, first, later) =
          >>=-eq-ok (feed_response backend sub response s) _ (rw (feed_cids, e) at h) in
        let (a, b) = feed_response-SameMaps sub response s t first in
        let (c, d) = feed_cids-SameMaps sub i rest t s' later in (c ∙ a, d ∙ b)
    | inr (inl (x, e)) ↦ feed_cids-SameMaps sub i rest _ s' (rw (feed_cids, e) at h)
    | inr (inr e) ↦ absurd (panic-ne-ok s' (rw (feed_cids, e) at h))
  ]

  pub feed_block-SameMaps :
      (sub : Subscription) (params : Settings) (i : ℤ) (s s' : Service backend)
      → feed_block backend sub params i s ≡ ok s'
      → SameMaps backend s s'
  unfolding feed_block
  feed_block-SameMaps sub params i s s' h = elim (Result-cases (backend.retrieve params i)) [
    | inl ((wrappers, none_there), e) ↦ elim (Bool-cases none_there) [
      | inl nothing_there ↦ same-ok s s' (rw (feed_block, e, nothing_there) at h)
      | inr something ↦ feed_cids-SameMaps sub i wrappers s s' (rw (feed_block, e, something) at h)
    ]
    | inr (inl (x, e)) ↦ same-ok _ s' (rw (feed_block, e) at h)
    | inr (inr e) ↦ absurd (panic-ne-ok s' (rw (feed_block, e) at h))
  ]

  pub start_history-SameMaps :
      (sub : Subscription) (params : Settings) (s : Service backend)
      → SameMaps backend s (start_history backend sub params s).0
  unfolding start_history refuse send_non_blocking_err send_non_blocking_quit send_payload
  start_history-SameMaps sub params s =
      elim (Bool-cases (backend.historical_data params || backend.historical_data_only params)) [
        | inl wanted ↦ elim (Result-cases (historical_range backend params)) [
          | inl (range, e) ↦ rw (wanted, e) (refl, refl)
          | inr (inl (x, e)) ↦ rw (wanted, e) (refl, refl)
          | inr (inr e) ↦ rw (wanted, e) (refl, refl)
        ]
        | inr unwanted ↦ rw unwanted (refl, refl)
      ]
