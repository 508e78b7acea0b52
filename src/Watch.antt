-- ===== src/Watch.antt =====
-- pkg/watch: the publish and subscribe service (service.go, subscription.go, helpers.go). The
-- state is the two maps of the service, which its mutex guards, and what its clients' channels
-- hold: each handler below is one critical section or one goroutine, and a history is a sequence
-- of such steps. A channel is a number; it takes as many more sends as it has room, which counts
-- free places of its buffer and waiting receivers, and a send to it that would block is dropped.
pub mod Requests
pub mod Invariant
pub mod Keeps
pub mod Reachable
pub mod Unsubscribe
pub mod Serving
pub mod History
use ipfs_blockchain_watcher.Prelude.{
  ℕ, ◌-◌, ◌==◌, Bool, true, false, ◌&&◌, String, List, [], ◌∷◌, ◌++◌, Option, none, some,
  if◌then◌else◌,
}
use ipfs_blockchain_watcher.Prelude.Int.{ℤ, pos, int64, ltb_ℤ}
use ipfs_blockchain_watcher.Prelude.Assoc.{lookup, insert, delete, nat_eq, string_eq}
use ipfs_blockchain_watcher.Prelude.Results.{Result, ok, err, panic, ◌>>=◌, or_panic}
use ipfs_blockchain_watcher.Shared.ChainType.{ChainType}

pub data Flag : Type 0 where
  empty_flag back_fill_complete_flag : Flag

pub record SubscriptionPayload : Type 0 where
  pub data_bytes : List ℕ
  pub height : ℤ
  pub error : String
  pub flag : Flag

-- SubscriptionPayload.Error and BackFillComplete.
abbrev is_empty_text : String → Bool
is_empty_text String.[] = true
is_empty_text (String.◌∷◌ c s) = false

unfoldable pub payload_error : SubscriptionPayload → Option String
payload_error p = if is_empty_text p.error then none else some p.error

unfoldable pub back_fill_complete : SubscriptionPayload → Bool
back_fill_complete p = elim p.flag [ empty_flag ↦ false | back_fill_complete_flag ↦ true ]

pub record Subscription : Type 0 where
  pub id : String
  pub payload_chan : ℕ
  pub quit_chan : ℕ

-- What a channel has been sent, oldest first, and how many more sends it takes.
pub record Channel (A : Type 0) : Type 0 where
  pub sent : List A
  pub room : ℕ

abbrev pub or_empty {ℓ} : {A : Type ℓ} → Option (List A) → List A
or_empty none = []
or_empty (some xs) = xs

-- select { case c <- x: default: }
unfoldable pub try_send : {A : Type 0} → ℕ → A → List (ℕ × Channel A) → List (ℕ × Channel A)
try_send c x channels = elim (lookup c channels) [
  | none ↦ channels
  | some ch ↦
      if ch.room == 0
      then channels
      else insert c (record { sent = ch.sent ++ x ∷ []; room = ch.room - 1 }) channels
]

-- The chain's components and the libraries that the service calls.
pub record Backend : Type 1 where
  pub Settings : Type 0
  pub Payload : Type 0
  pub Response : Type 0
  pub Cids : Type 0
  pub starting_block : Settings → ℤ
  pub ending_block : Settings → ℤ
  pub chain_type : Settings → ChainType
  pub historical_data : Settings → Bool
  pub historical_data_only : Settings → Bool
  pub payload_height : Payload → ℤ
  -- Height() of a response dereferences its block number.
  pub response_height : Response → Option ℤ
  pub filter : Settings → Payload → Result Response
  -- rlp.EncodeToBytes of a response, and with crypto.Keccak256Hash of the settings.
  pub encode_response : Response → Result (List ℕ)
  pub settings_hash : Settings → Result ℕ
  pub retrieve_first_block_number : Result ℤ
  pub retrieve_last_block_number : Result ℤ
  -- The wrappers at a height, and whether they are empty.
  pub retrieve : Settings → ℤ → Result (List Cids × Bool)
  pub fetch : Cids → Result Response
  -- %d of fmt
  pub show_int : ℤ → String

module _ (backend : Backend) where
  open backend use {Settings, Payload, Response, Cids}

  pub record Service : Type 0 where
    pub chain : ChainType
    pub subscriptions : List (ℕ × List (String × Subscription))
    pub subscription_types : List (ℕ × Settings)
    pub payload_chans : List (ℕ × Channel SubscriptionPayload)
    pub quit_chans : List (ℕ × Channel Bool)

  unfoldable pub send_payload : Subscription → SubscriptionPayload → Service → Service
  send_payload sub p s = record s { payload_chans = try_send sub.payload_chan p s.payload_chans }

  unfoldable pub send_non_blocking_err : Subscription → String → Service → Service
  unfolding send_payload
  send_non_blocking_err sub e =
      send_payload sub (record { data_bytes = []; height = pos 0; error = e; flag = empty_flag })

  unfoldable pub send_non_blocking_quit : Subscription → Service → Service
  send_non_blocking_quit sub s = record s { quit_chans = try_send sub.quit_chan true s.quit_chans }

  unfoldable pub quit_all : List (String × Subscription) → Service → Service
  unfolding send_non_blocking_quit
  quit_all [] s = s
  quit_all ((id, sub) ∷ subs) s = quit_all subs (send_non_blocking_quit sub s)

  unfoldable pub drop_type : ℕ → Service → Service
  drop_type ty s = record s {
    subscriptions = delete ty s.subscriptions;
    subscription_types = delete ty s.subscription_types;
  }

  -- sap.Subscriptions[ty]: a missing key reads as the empty map.
  unfoldable pub subscribers : ℕ → Service → List (String × Subscription)
  subscribers ty s = or_empty (lookup ty s.subscriptions)

  unfoldable pub close_type : ℕ → Service → Service
  unfolding quit_all drop_type subscribers
  close_type ty s = drop_type ty (quit_all (subscribers ty s) s)

  -- The loop of close, over the types that the service had when it began.
  unfoldable pub close_types : List (ℕ × List (String × Subscription)) → Service → Service
  unfolding quit_all drop_type
  close_types [] s = s
  close_types ((ty, subs) ∷ rest) s = close_types rest (drop_type ty (quit_all subs s))

  unfoldable pub close : Service → Service
  unfolding close_types
  close s = close_types s.subscriptions s

  -- The innermost loop: the height is read for each subscriber.
  unfoldable pub serve_subscribers :
      Response → List ℕ → List (String × Subscription) → Service → Result Service
  unfolding send_payload
  serve_subscribers response rlp [] s = ok s
  serve_subscribers response rlp ((id, sub) ∷ subs) s = do
    height ← or_panic (backend.response_height response)
    serve_subscribers response rlp subs (
        send_payload sub
          (record { data_bytes = rlp; height = height; error = ""; flag = empty_flag }) s)

  unfoldable pub serve_response : Response → List (String × Subscription) → Service → Result Service
  serve_response response subs s = elim (backend.encode_response response) [
    | ok rlp ↦ serve_subscribers response rlp subs s
    | err e ↦ ok s
    | panic ↦ panic
  ]

  unfoldable pub has_ended : Settings → Payload → Bool
  has_ended config payload =
      ltb_ℤ (pos 0) (int64 (backend.ending_block config))
      && ltb_ℤ (int64 (backend.ending_block config)) (backend.payload_height payload)

  -- One round of filterAndServe, for a type and its subscribers.
  unfoldable pub serve_type : Payload → ℕ → List (String × Subscription) → Service → Result Service
  unfolding close_type serve_response has_ended
  serve_type payload ty subs s = elim (lookup ty s.subscription_types) [
    | none ↦ ok (close_type ty s)
    | some config ↦
        if has_ended config payload
        then ok (close_type ty s)
        else elim (backend.filter config payload) [
          | ok response ↦ serve_response response subs s
          | err e ↦ ok (close_type ty s)
          | panic ↦ panic
        ]
  ]

  unfoldable pub serve_types :
      Payload → List (ℕ × List (String × Subscription)) → Service → Result Service
  serve_types payload [] s = ok s
  serve_types payload ((ty, subs) ∷ rest) s = do
    s' ← serve_type payload ty subs s
    serve_types payload rest s'

  unfoldable pub filter_and_serve : Payload → Service → Result Service
  unfolding serve_types
  filter_and_serve payload s = serve_types payload s.subscriptions s
