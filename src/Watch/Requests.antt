-- ===== src/Watch/Requests.antt =====
-- What clients ask of the service: Subscribe, the feed of historical data, and Unsubscribe.
use Prim.Native.String.{◌++◌ as str_append}
use ipfs_blockchain_watcher.Prelude.{
  ℕ, zero, suc, ◌==◌, Bool, true, false, ◌&&◌, ◌||◌, not, String, List, [], ◌∷◌, Option, none, some,
  is_empty, if◌then◌else◌,
}
use ipfs_blockchain_watcher.Prelude.Int.{ℤ, pos, int64, leb_ℤ, ltb_ℤ, ◌+ℤ◌}
use ipfs_blockchain_watcher.Prelude.Assoc.{insert, delete, nat_eq, string_eq}
use ipfs_blockchain_watcher.Prelude.Results.{Result, ok, err, panic, ◌>>=◌, or_panic}
use ipfs_blockchain_watcher.Shared.ChainType.{chain_name, chain_number}
use ipfs_blockchain_watcher.Watch.{
  Subscription, empty_flag, back_fill_complete_flag, Backend, Service, send_payload,
  send_non_blocking_err, send_non_blocking_quit, drop_type, subscribers,
}

infixr 60 ◌&◌
abbrev ◌&◌ : String → String → String
a & b = str_append a b

module _ (backend : Backend) where
  open backend use {Settings, Payload, Response, Cids}

  unfoldable pub clip_start : Settings → ℤ → ℤ
  clip_start params first =
      if ltb_ℤ first (int64 (backend.starting_block params))
      then int64 (backend.starting_block params)
      else first

  unfoldable pub clip_end : Settings → ℤ → ℤ → ℤ
  clip_end params start last =
      let end = int64 (backend.ending_block params) in
      if ltb_ℤ end last && (ltb_ℤ (pos 0) end && ltb_ℤ start end) then end else last

  -- The blocks that sendHistoricalData goes through.
  unfoldable pub historical_range : Settings → Result (ℤ × ℤ)
  unfolding clip_start clip_end
  historical_range params = do
    first ← backend.retrieve_first_block_number
    last ← backend.retrieve_last_block_number
    ok (clip_start params first, clip_end params (clip_start params first) last)

  unfoldable pub feed_response :
      Subscription → Response → Service backend → Result (Service backend)
  unfolding send_payload
  feed_response sub response s = elim (backend.encode_response response) [
    | ok rlp ↦ or_panic (backend.response_height response) >>= λ height. ok (
        send_payload backend sub
          (record { data_bytes = rlp; height = height; error = ""; flag = empty_flag }) s)
    | err e ↦ ok s
    | panic ↦ panic
  ]

  unfoldable pub feed_cids :
      Subscription → ℤ → List Cids → Service backend → Result (Service backend)
  unfolding feed_response send_non_blocking_err
  feed_cids sub i [] s = ok s
  feed_cids sub i (cids ∷ rest) s = do
    s' ← elim (backend.fetch cids) [
      | ok response ↦ feed_response sub response s
      | err e ↦ ok (
          send_non_blocking_err backend sub
            (chain_name s.chain
              & " watcher IPLD Fetching error at block "
              & backend.show_int i
              & "\r"
              & e)
            s)
      | panic ↦ panic
    ]
    feed_cids sub i rest s'

  unfoldable pub feed_block :
      Subscription → Settings → ℤ → Service backend → Result (Service backend)
  unfolding feed_cids send_non_blocking_err
  feed_block sub params i s = elim (backend.retrieve params i) [
    | ok (cid_wrappers, empty) ↦ if empty then ok s else feed_cids sub i cid_wrappers s
    | err e ↦ ok (
        send_non_blocking_err backend sub
          (" "
            & chain_name s.chain
            & " watcher CID Retrieval error at block "
            & backend.show_int i
            & "\r"
            & e)
          s)
    | panic ↦ panic
  ]

  unfoldable pub feed_complete : Subscription → Service backend → Service backend
  unfolding send_payload
  feed_complete sub =
      send_payload backend sub
        (record { data_bytes = []; height = pos 0; error = ""; flag = back_fill_complete_flag })

  -- The goroutine's loop, `for i := startingBlock; i <= endingBlock; i++` on int64, from the block i to
  -- `end`: it has no result when it still runs after `fuel` tests. `quit` tells at which blocks it finds
  -- the quit channel ready. Between its rounds other steps may run; here it runs at once.
  unfoldable pub feed_history :
      (ℤ → Bool)
      → Subscription
      → Settings
      → ℤ
      → ℕ
      → ℤ
      → Service backend
      → Option (Result (Service backend))
  unfolding feed_block feed_complete
  feed_history quit sub params end zero i s = none
  feed_history quit sub params end (suc fuel) i s = elim (leb_ℤ i end) [
    | false ↦ some (ok (feed_complete sub s))
    | true ↦ elim (quit i) [
      | true ↦ some (ok s)
      | false ↦ elim (feed_block sub params i s) [
        | ok s' ↦ feed_history quit sub params end fuel (int64 (i +ℤ pos 1)) s'
        | err e ↦ some (err e)
        | panic ↦ some panic
      ]
    ]
  ]

  unfoldable pub refuse : Subscription → String → Service backend → Service backend
  unfolding send_non_blocking_err send_non_blocking_quit
  refuse sub e s = send_non_blocking_quit backend sub (send_non_blocking_err backend sub e s)

  unfoldable pub add_subscription : ℕ → Subscription → Settings → Service backend → Service backend
  unfolding subscribers
  add_subscription ty sub params s = record s {
    subscriptions = insert ty (insert sub.id sub (subscribers backend ty s)) s.subscriptions;
    subscription_types = insert ty params s.subscription_types;
  }

  -- The second part is the range of the goroutine that is started, if one is.
  unfoldable pub start_history :
      Subscription → Settings → Service backend → Service backend × Option (ℤ × ℤ)
  unfolding historical_range refuse
  start_history sub params s =
      if backend.historical_data params || backend.historical_data_only params
      then elim (historical_range params) [
        | ok range ↦ (s, some range)
        | err e ↦
            (refuse sub (chain_name s.chain & " watcher subscriber backfill error: " & e) s, none)
        | panic ↦ (s, none)
      ]
      else (s, none)

  unfoldable pub subscribe :
      String → ℕ → ℕ → Settings → Service backend → Service backend × Option (ℤ × ℤ)
  unfolding refuse add_subscription start_history
  subscribe id sub quit_chan params s =
      let subscription : Subscription = record {
        id = id;
        payload_chan = sub;
        quit_chan = quit_chan;
      } in
      if not (chain_number (backend.chain_type params) == chain_number s.chain)
      then (
        refuse subscription
            ("subscription "
              & id
              & " is for chain "
              & chain_name (backend.chain_type params)
              & ", service supports chain "
              & chain_name s.chain)
            s,
        none,
      )
      else elim (backend.settings_hash params) [
        | ok ty ↦ start_history subscription params (
            if not (backend.historical_data_only params)
            then add_subscription ty subscription params s
            else s)
        | err e ↦ (refuse subscription e s, none)
        | panic ↦ (s, none)
      ]

  -- One round of Unsubscribe, for a type.
  unfoldable pub unsubscribe_type : String → ℕ → Service backend → Service backend
  unfolding subscribers drop_type
  unsubscribe_type id ty s =
      let left = delete id (subscribers backend ty s) in
      if is_empty left
      then drop_type backend ty s
      else record s { subscriptions = insert ty left s.subscriptions }

  unfoldable pub unsubscribe_types :
      String → List (ℕ × List (String × Subscription)) → Service backend → Service backend
  unsubscribe_types id [] s = s
  unsubscribe_types id ((ty, subs) ∷ rest) s = unsubscribe_types id rest (unsubscribe_type id ty s)

  unfoldable pub unsubscribe : String → Service backend → Service backend
  unfolding unsubscribe_types
  unsubscribe id s = unsubscribe_types id s.subscriptions s
