-- ===== src/Tests/Subscribers.antt =====
-- A service of a small chain, with one and two subscribers.
use mathlib.Core.Option.{map as map_option}
use ipfs_blockchain_watcher.Prelude.{
  ℕ, ◌≡◌, refl, true, false, ◌&&◌, ◌||◌, [], ◌∷◌, some, any, length, ◌<◌, arith,
}
use ipfs_blockchain_watcher.Prelude.Int.{ℤ, pos, eq_ℤ, int64}
use ipfs_blockchain_watcher.Prelude.Assoc.{lookup, nat_eq}
use ipfs_blockchain_watcher.Prelude.Results.{ok, ◌>>=◌}
use ipfs_blockchain_watcher.Shared.ChainType.{ethereum}
use ipfs_blockchain_watcher.Watch.{
  Subscription, empty_flag, Backend, Service, has_ended, serve_type,
}
use ipfs_blockchain_watcher.Watch.Requests.{
  subscribe, unsubscribe, clip_start, historical_range, feed_history, feed_complete,
}
use ipfs_blockchain_watcher.Watch.Invariant.{IsValid, SameMaps}
use ipfs_blockchain_watcher.Watch.Reachable.{
  subscribing, unsubscribing, here, later, new_service, Reach-IsValid,
}
use ipfs_blockchain_watcher.Watch.Unsubscribe.{subscription, unsubscribe-subscription}
use ipfs_blockchain_watcher.Watch.History.{
  within, is_wanted, ends_early, feed_all, historical_blocks, historical_range-blocks,
}
use ipfs_blockchain_watcher.Watch.Serving.{fill, listeners, serve_type-sends}

-- Settings are an ending block, payloads and responses a height.
abbrev small_chain : Backend
small_chain = record {
  Settings = ℕ;
  Payload = ℕ;
  Response = ℕ;
  Cids = ℕ;
  starting_block = λ _. pos 3;
  ending_block = λ end. pos end;
  chain_type = λ _. ethereum;
  historical_data = λ _. false;
  historical_data_only = λ _. false;
  payload_height = λ p. pos p;
  response_height = λ r. some (pos r);
  filter = λ _ p. ok p;
  encode_response = λ r. ok (r ∷ []);
  settings_hash = λ end. ok end;
  retrieve_first_block_number = ok (pos 1);
  retrieve_last_block_number = ok (pos 9);
  retrieve = λ _ i. ok ([], true);
  fetch = λ c. ok c;
  show_int = λ _. "";
}

abbrev idle : Service small_chain
idle = new_service small_chain ethereum

abbrev one_subscriber : Service small_chain
one_subscriber = (subscribe small_chain "a" 1 2 8 idle).0

abbrev two_subscribers : Service small_chain
two_subscribers = (subscribe small_chain "b" 3 4 8 one_subscriber).0

abbrev one_left : Service small_chain
one_left = unsubscribe small_chain "a" two_subscribers

Reach-IsValid_example : IsValid small_chain one_left
Reach-IsValid_example = Reach-IsValid small_chain ethereum one_left (
    later (later (later here (subscribing "a" 1 2 8 idle)) (subscribing "b" 3 4 8 one_subscriber))
      (unsubscribing "a" two_subscribers))

unsubscribe-subscription_example :
    subscription small_chain 8 "b" (unsubscribe small_chain "a" two_subscribers)
    ≡ subscription small_chain 8 "b" two_subscribers
unsubscribe-subscription_example = unsubscribe-subscription small_chain "a" 8 "b" two_subscribers

abbrev subscriber : Subscription
subscriber = record { id = "a"; payload_chan = 1; quit_chan = 2 }

historical_range-blocks_example :
    (range : ℤ × ℤ) × (historical_range small_chain 6 ≡ ok range)
    × ((i : ℤ)
        → any (eq_ℤ i) (historical_blocks small_chain range) ≡ (
            is_wanted small_chain 6 (pos 1) (pos 9) i
            || (ends_early small_chain 6 (pos 1)
                && within (clip_start small_chain 6 (pos 1)) (pos 9) i)))
    × ((s : Service small_chain) (fuel : ℕ)
        → length (historical_blocks small_chain range) < fuel
        → feed_history small_chain (λ _. false) subscriber 6 range.1 fuel range.0 s
          ≡ some (
              feed_all small_chain subscriber 6 (historical_blocks small_chain range) s >>= λ t.
              ok (feed_complete small_chain subscriber t)))
historical_range-blocks_example =
    historical_range-blocks small_chain subscriber 6 (pos 1) (pos 9) refl refl refl
      (omega arith, omega arith) refl

-- A service that has the type 8, with two subscribers on a channel that has room for one payload.
abbrev listening : Service small_chain
listening = record {
  chain = ethereum;
  subscriptions = (8, ("a", subscriber) ∷ ("b", subscriber) ∷ []) ∷ [];
  subscription_types = (8, 8) ∷ [];
  payload_chans = (1, record { sent = []; room = 1 }) ∷ [];
  quit_chans = [];
}

serve_type-sends_example :
    (s : Service small_chain) × (serve_type small_chain 5 8
        (("a", subscriber) ∷ ("b", subscriber) ∷ [])
        listening
      ≡ ok s)
    × SameMaps small_chain listening s
    × ((c : ℕ)
        → lookup c s.payload_chans
          ≡ map_option
              (fill
                (listeners c (("a", subscriber) ∷ ("b", subscriber) ∷ []))
                (record { data_bytes = 5 ∷ []; height = pos 5; error = ""; flag = empty_flag }))
              (lookup c listening.payload_chans))
unfolding lookup has_ended int64
serve_type-sends_example =
    serve_type-sends small_chain 5 8 (("a", subscriber) ∷ ("b", subscriber) ∷ []) listening 8 5
      (5 ∷ []) (pos 5) refl refl refl refl refl
