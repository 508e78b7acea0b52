-- ===== src/Watch/Serving.antt =====
-- What a served payload puts on the clients' channels (filterAndServe of pkg/watch/service.go).
use Prim.Native.Nat.{min}
use mathlib.Core.Option.{map as map_option}
use mathlib.Core.List.{append_assoc}
use ipfs_blockchain_watcher.Prelude.{
  ℕ, zero, suc, ◌+◌, ◌-◌, ◌≡◌, refl, ◌∙◌, sym, ap, ◌==◌, Bool, true, false, String, List, [], ◌∷◌,
  ◌++◌, Option, none, some, if◌then◌else◌, arith, Bool-cases, Option-cases, inl, inr, ==_iff,
  ==_refl, subst,
}
use ipfs_blockchain_watcher.Prelude.Int.{ℤ}
use ipfs_blockchain_watcher.Prelude.Assoc.{lookup, nat_eq, lookup-insert}
use ipfs_blockchain_watcher.Prelude.Results.{ok}
use ipfs_blockchain_watcher.Watch.{
  Subscription, SubscriptionPayload, empty_flag, Channel, Backend, Service, try_send, send_payload,
  has_ended, serve_subscribers, serve_response, serve_type,
}
use ipfs_blockchain_watcher.Watch.Invariant.{SameMaps}

abbrev pub copies {ℓ} : {A : Type ℓ} → ℕ → A → List A
copies zero x = []
copies (suc n) x = x ∷ copies n x

-- A channel after n tries to send x.
abbrev pub fill : {A : Type 0} → ℕ → A → Channel A → Channel A
fill n x ch = record { sent = ch.sent ++ copies (min n ch.room) x; room = ch.room - n }

-- How many of the subscribers listen on a channel.
abbrev pub listeners : ℕ → List (String × Subscription) → ℕ
listeners c [] = 0
listeners c ((id, sub) ∷ subs) = (if sub.payload_chan == c then 1 else 0) + listeners c subs

append_nil : {A : Type 0} (xs : List A) → xs ++ [] ≡ xs
append_nil [] = refl
append_nil (x ∷ xs) = ap (λ r. x ∷ r) (append_nil xs)

fill-zero : {A : Type 0} (x : A) (ch : Channel A) → fill 0 x ch ≡ ch
fill-zero x ch =
    let none_sent : min 0 ch.room ≡ 0 = omega arith in
    let kept : ch.room - 0 ≡ ch.room = omega arith in rw (none_sent, kept, append_nil ch.sent) refl

copies-suc :
    {A : Type 0} (n r : ℕ) (x : A)
    → copies (min 1 r) x ++ copies (min n (r - 1)) x ≡ copies (min (suc n) r) x
copies-suc n zero x =
    let a : min 1 0 ≡ 0 = omega arith in
    let b : min n (0 - 1) ≡ 0 = omega arith in
    let c : min (suc n) 0 ≡ 0 = omega arith in rw (a, b, c) refl
copies-suc n (suc r) x =
    let a : min 1 (suc r) ≡ 1 = omega arith in
    let b : min n (suc r - 1) ≡ min n r = omega arith in
    let c : min (suc n) (suc r) ≡ suc (min n r) = omega arith in rw (a, b, c) refl

-- What one more try leaves.
fill-suc :
    {A : Type 0} (n : ℕ) (x : A) (ch : Channel A) → fill n x (fill 1 x ch) ≡ fill (suc n) x ch
fill-suc n x ch =
    let room : ch.room - 1 - n ≡ ch.room - suc n = omega arith in
    rw
      (
        append_assoc ch.sent (copies (min 1 ch.room) x) (copies (min n (ch.room - 1)) x),
        copies-suc n ch.room x,
        room,
      )
      refl

fill-one :
    {A : Type 0} (x : A) (ch : Channel A)
    → (ch.room == 0) ≡ false
    → fill 1 x ch ≡ record { sent = ch.sent ++ x ∷ []; room = ch.room - 1 }
fill-one x ch h = let one : min 1 ch.room ≡ 1 = ground arith in rw one refl

fill-full : {A : Type 0} (n : ℕ) (x : A) (ch : Channel A) → (ch.room == 0) ≡ true → fill n x ch ≡ ch
fill-full n x ch h =
    let one : min n ch.room ≡ 0 = ground arith in
    let none_left : ch.room - n ≡ ch.room = ground arith in
    rw (one, none_left, append_nil ch.sent) refl

map-fill-zero : {A : Type 0} (x : A) (o : Option (Channel A)) → map_option (fill 0 x) o ≡ o
map-fill-zero x none = refl
map-fill-zero x (some ch) = ap (λ c. some c) (fill-zero x ch)

try_send_self :
    {A : Type 0} (c : ℕ) (x : A) (channels : List (ℕ × Channel A))
    → lookup c (try_send c x channels) ≡ map_option (fill 1 x) (lookup c channels)
unfolding try_send
try_send_self c x channels = elim (Option-cases (lookup c channels)) [
  | inl missing ↦ rw (try_send, missing) (missing)
  | inr (ch, found) ↦ elim (Bool-cases (ch.room == 0)) [
    | inl full ↦ rw (try_send, found, full, fill-full 1 x ch full) found
    | inr free ↦
        rw
          (
            try_send,
            found,
            free,
            lookup-insert c c (record { sent = ch.sent ++ x ∷ []; room = ch.room - 1 }) channels,
            ==_refl c,
            fill-one x ch free,
          )
          refl
  ]
]

try_send_other :
    {A : Type 0} (c d : ℕ) (x : A) (channels : List (ℕ × Channel A))
    → (c == d) ≡ false
    → lookup d (try_send c x channels) ≡ lookup d channels
unfolding try_send
try_send_other c d x channels other = elim (Option-cases (lookup c channels)) [
  | inl missing ↦ rw (try_send, missing) refl
  | inr (ch, found) ↦ elim (Bool-cases (ch.room == 0)) [
    | inl full ↦ rw (try_send, found, full) refl
    | inr free ↦
        rw
          (
            try_send,
            found,
            free,
            lookup-insert c d (record { sent = ch.sent ++ x ∷ []; room = ch.room - 1 }) channels,
            other,
          )
          refl
  ]
]

-- A send fills the channel that it goes to, and no other.
try_send-fill :
    {A : Type 0} (c d : ℕ) (x : A) (channels : List (ℕ × Channel A))
    → lookup d (try_send c x channels)
      ≡ map_option (fill (if c == d then 1 else 0) x) (lookup d channels)
try_send-fill c d x channels = elim (Bool-cases (c == d)) [
  | inl same ↦
      let key : c ≡ d = (==_iff c d).0 same in
      rw same (
        subst (λ k. lookup k (try_send c x channels) ≡ map_option (fill 1 x) (lookup k channels))
          key (try_send_self c x channels))
  | inr other ↦
      rw other (try_send_other c d x channels other ∙ sym (map-fill-zero x (lookup d channels)))
]

map-fill-add :
    {A : Type 0} (b : Bool) (n : ℕ) (x : A) (o : Option (Channel A))
    → map_option (fill n x) (map_option (fill (if b then 1 else 0) x) o)
      ≡ map_option (fill ((if b then 1 else 0) + n) x) o
map-fill-add b n x none = refl
map-fill-add true n x (some ch) =
    let one_more : 1 + n ≡ suc n = omega arith in rw one_more (ap (λ c. some c) (fill-suc n x ch))
map-fill-add false n x (some ch) =
    let same : 0 + n ≡ n = omega arith in rw same (ap (λ c. some (fill n x c)) (fill-zero x ch))

module _ (backend : Backend) where
  open backend use {Settings, Payload, Response, Cids}

  serve_subscribers-fill :
      (response : Response) (rlp : List ℕ) (height : ℤ)
      → backend.response_height response ≡ some height
      → (subs : List (String × Subscription)) (s : Service backend)
      → (s' : Service backend) × (serve_subscribers backend response rlp subs s ≡ ok s')
        × SameMaps backend s s'
        × ((c : ℕ)
            → lookup c s'.payload_chans
              ≡ map_option
                  (fill
                    (listeners c subs)
                    (record { data_bytes = rlp; height = height; error = ""; flag = empty_flag }))
                  (lookup c s.payload_chans))
  unfolding serve_subscribers send_payload
  serve_subscribers-fill response rlp height h [] s =
      (s, refl, (refl, refl), λ c. sym (map-fill-zero _ (lookup c s.payload_chans)))
  serve_subscribers-fill response rlp height h ((id, sub) ∷ subs) s =
      let p : SubscriptionPayload = record {
        data_bytes = rlp;
        height = height;
        error = "";
        flag = empty_flag;
      } in
      let sent = send_payload backend sub p s in
      let (s', served, maps, filled) = serve_subscribers-fill response rlp height h subs sent in
      (
        s',
        rw h served,
        maps,
        λ c.
            filled c
            ∙ ap (map_option (fill (listeners c subs) p))
                (try_send-fill sub.payload_chan c p s.payload_chans)
            ∙ map-fill-add (sub.payload_chan == c) (listeners c subs) p (lookup c s.payload_chans),
      )

  -- Suppose a type has settings whose ending block the payload is not above, and the filter gives a
  -- response that is encoded and has a height. Then the type is served: the maps stay as they are,
  -- and every payload channel gets one copy of the encoded response, with its height, for each of
  -- the type's subscribers that listens on it, as long as it has room, and nothing else.
  pub serve_type-sends :
      (payload : Payload) (ty : ℕ) (subs : List (String × Subscription)) (s : Service backend)
      (config : Settings) (response : Response) (rlp : List ℕ) (height : ℤ)
      → lookup ty s.subscription_types ≡ some config
      → has_ended backend config payload ≡ false
      → backend.filter config payload ≡ ok response
      → backend.encode_response response ≡ ok rlp
      → backend.response_height response ≡ some height
      → (s' : Service backend) × (serve_type backend payload ty subs s ≡ ok s')
        × SameMaps backend s s'
        × ((c : ℕ)
            → lookup c s'.payload_chans
              ≡ map_option
                  (fill
                    (listeners c subs)
                    (record { data_bytes = rlp; height = height; error = ""; flag = empty_flag }))
                  (lookup c s.payload_chans))
  unfolding serve_type serve_response
  serve_type-sends payload ty subs s config response rlp height t e f r h =
      rw (serve_type, t, e, f, serve_response, r)
        (serve_subscribers-fill response rlp height h subs s)
