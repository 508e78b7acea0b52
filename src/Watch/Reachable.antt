-- ===== src/Watch/Reachable.antt =====
-- Histories of the service: the steps that its handlers and goroutines take, in any order.
use ipfs_blockchain_watcher.Prelude.{
  ℕ, ◌≡◌, ◌==◌, Bool, true, false, not, String, List, [], ◌∷◌, if◌then◌else◌, Bool-cases, inl, inr,
}
use ipfs_blockchain_watcher.Prelude.Int.{ℤ}
use ipfs_blockchain_watcher.Prelude.Results.{ok, Result-cases}
use ipfs_blockchain_watcher.Shared.ChainType.{ChainType, chain_number}
use ipfs_blockchain_watcher.Watch.{
  Subscription, Backend, Service, send_payload, send_non_blocking_err, send_non_blocking_quit,
  filter_and_serve, close,
}
use ipfs_blockchain_watcher.Watch.Requests.{
  refuse, start_history, subscribe, unsubscribe_types, unsubscribe, feed_block, feed_complete,
}
use ipfs_blockchain_watcher.Watch.Invariant.{
  empty-WellFormed, IsValid, SameMaps-IsValid, close-IsValid,
}
use ipfs_blockchain_watcher.Watch.Keeps.{
  add_subscription-IsValid, unsubscribe_type-IsValid, serve_types-IsValid, feed_block-SameMaps,
  start_history-SameMaps,
}

module _ (backend : Backend) where
  open backend use {Settings, Payload, Response, Cids}

  -- A step of a client's call, of the goroutine that serves, or of one that feeds history.
  pub data Step : Service backend → Service backend → Type 0 where
    subscribing :
        (id : String) (sub quit_chan : ℕ) (params : Settings) (s : Service backend)
        → Step s (subscribe backend id sub quit_chan params s).0
    unsubscribing : (id : String) (s : Service backend) → Step s (unsubscribe backend id s)
    serving :
        (payload : Payload) (s s' : Service backend)
        → filter_and_serve backend payload s ≡ ok s'
        → Step s s'
    feeding :
        (sub : Subscription) (params : Settings) (i : ℤ) (s s' : Service backend)
        → feed_block backend sub params i s ≡ ok s'
        → Step s s'
    completing : (sub : Subscription) (s : Service backend) → Step s (feed_complete backend sub s)
    stopping : (s : Service backend) → Step s (close backend s)

  pub data Reach (start : Service backend) : Service backend → Type 0 where
    here : Reach start start
    later : {s t : Service backend} → Reach start s → Step s t → Reach start t

  unfoldable pub new_service : ChainType → Service backend
  new_service chain = record {
    chain = chain;
    subscriptions = [];
    subscription_types = [];
    payload_chans = [];
    quit_chans = [];
  }

  unsubscribe_types-IsValid :
      (id : String) (all : List (ℕ × List (String × Subscription))) (s : Service backend)
      → IsValid backend s
      → IsValid backend (unsubscribe_types backend id all s)
  unfolding unsubscribe_types
  unsubscribe_types-IsValid id [] s v = v
  unsubscribe_types-IsValid id ((ty, subs) ∷ rest) s v =
      unsubscribe_types-IsValid id rest _ (unsubscribe_type-IsValid backend id ty s v)

  start_history-IsValid :
      (sub : Subscription) (params : Settings) (s : Service backend)
      → IsValid backend s
      → IsValid backend (start_history backend sub params s).0
  start_history-IsValid sub params s v =
      SameMaps-IsValid backend s (start_history backend sub params s).0
        (start_history-SameMaps backend sub params s) v

  either-IsValid :
      (b : Bool) (s t : Service backend)
      → IsValid backend s
      → IsValid backend t
      → IsValid backend (if b then s else t)
  either-IsValid true s t v w = v
  either-IsValid false s t v w = w

  subscribe-IsValid :
      (id : String) (sub quit_chan : ℕ) (params : Settings) (s : Service backend)
      → IsValid backend s
      → IsValid backend (subscribe backend id sub quit_chan params s).0
  unfolding subscribe refuse send_non_blocking_err send_non_blocking_quit send_payload
  subscribe-IsValid id sub quit_chan params s v =
      let new : Subscription = record { id = id; payload_chan = sub; quit_chan = quit_chan } in
      elim (Bool-cases (not (chain_number (backend.chain_type params) == chain_number s.chain))) [
        | inl other ↦ rw other v
        | inr same ↦ elim (Result-cases (backend.settings_hash params)) [
          | inl (ty, e) ↦
              rw (same, e)
                (start_history-IsValid new params _ (
                  either-IsValid (not (backend.historical_data_only params)) _ s
                    (add_subscription-IsValid backend ty new params s v) v))
          | inr (inl (x, e)) ↦ rw (same, e) v
          | inr (inr e) ↦ rw (same, e) v
        ]
      ]

  Step-IsValid : {s t : Service backend} → Step s t → IsValid backend s → IsValid backend t
  unfolding unsubscribe filter_and_serve feed_complete send_payload
  Step-IsValid (subscribing id sub quit_chan params s) v =
      subscribe-IsValid id sub quit_chan params s v
  Step-IsValid (unsubscribing id s) v = unsubscribe_types-IsValid id s.subscriptions s v
  Step-IsValid (serving payload s s' h) v =
      serve_types-IsValid backend payload s.subscriptions s s' h v
  Step-IsValid (feeding sub params i s s' h) v =
      SameMaps-IsValid backend s s' (feed_block-SameMaps backend sub params i s s' h) v
  Step-IsValid (completing sub s) v = v
  Step-IsValid (stopping s) v = close-IsValid backend s v

  -- In every state that a new service of a chain reaches by subscriptions, unsubscriptions, served
  -- payloads, fed blocks, end notices of the feed and stops, in any order, a subscription type has
  -- an entry in one of the two maps exactly when it has one in the other, every entry holds a
  -- subscriber, and each subscription is filed under its id.
  pub Reach-IsValid :
      (chain : ChainType) (s : Service backend) → Reach (new_service chain) s → IsValid backend s
  unfolding new_service
  Reach-IsValid chain s here = empty-WellFormed
  Reach-IsValid chain s (later {s = r} path step) = Step-IsValid step (Reach-IsValid chain r path)
