-- ===== src/Eth/Filterer/Filtered.antt =====
-- The whole filter: what a response tells of its block.
use ipfs_blockchain_watcher.Prelude.{
  ℕ, ◌≡◌, refl, Bool-cases, inl, inr, ◌⊎◌, List, true, false, some, [], if◌then◌else◌, arith,
  String, ==_iff, &&_parts,
}
use ipfs_blockchain_watcher.Prelude.Int.{int64, pos, ◌≤ℤ◌}
use ipfs_blockchain_watcher.Prelude.Results.{ok, ◌>>=◌, >>=-eq-ok}
use ipfs_blockchain_watcher.Eth.Types.{EthLib, ConvertedPayload, Iplds}
use ipfs_blockchain_watcher.Eth.Settings.{SubscriptionSettings}
use ipfs_blockchain_watcher.Eth.Checks.{check_range}
use ipfs_blockchain_watcher.Eth.Filterer.{
  no_iplds, filter, filter_headers, header_model, filter_transactions, filer_receipts,
  filter_state_and_storage,
}
use ipfs_blockchain_watcher.Eth.Retrieval.{storage_where}

module _ (lib : EthLib) (settings : SubscriptionSettings) (payload : ConvertedPayload lib) where
  -- The subscriber asks for the block: it is not before the range's start, nor after its end, where an
  -- end that is not positive is no bound.
  abbrev pub IsInRange : Type 0
  IsInRange =
      (int64 settings.start ≤ℤ int64 payload.block.number)
      × ((int64 settings.end ≤ℤ pos 0) ⊎ (int64 payload.block.number ≤ℤ int64 settings.end))

  -- What a stage of the filter leaves as it is.
  abbrev SameHead : Iplds → Iplds → Type 0
  SameHead a b = (a.total_difficulty ≡ b.total_difficulty) × (a.header ≡ b.header)

  filter_headers-header :
      (response out : Iplds)
      → filter_headers lib settings.header_filter response payload ≡ ok out
      → (out.total_difficulty ≡ response.total_difficulty)
        × (settings.header_filter.off ≡ false
            → header_model lib payload.block.header ≡ ok out.header)
  unfolding filter_headers
  filter_headers-header response out h = (ground arith, λ on. ground arith)

  filter_transactions-SameHead :
      (response : Iplds) (out : Iplds × List ℕ)
      → filter_transactions lib settings.tx_filter response payload ≡ ok out
      → SameHead out.0 response
  unfolding filter_transactions
  filter_transactions-SameHead response out h = (ground arith, ground arith)

  filer_receipts-SameHead :
      (response out : Iplds) (hashes : List ℕ)
      → filer_receipts lib settings.receipt_filter response payload hashes ≡ ok out
      → SameHead out response
  unfolding filer_receipts
  filer_receipts-SameHead response out hashes h = (ground arith, ground arith)

  nodes-SameHead :
      (response out : Iplds)
      → filter_state_and_storage lib settings.state_filter settings.storage_filter response payload
        ≡ ok out
      → SameHead out response
  unfolding filter_state_and_storage
  nodes-SameHead response out h = (ground arith, ground arith)

  check_range-IsInRange :
      (check_range (int64 settings.start) (int64 settings.end) (int64 payload.block.number) ≡ true
        → IsInRange)
      × (check_range (int64 settings.start) (int64 settings.end) (int64 payload.block.number)
            ≡ false
          → ¬ IsInRange)
  unfolding check_range
  check_range-IsInRange = (λ e. ground arith, λ e h. ground arith)

  -- What the stages after the range check carry into the response.
  stages-carry :
      (response : Iplds)
      → (do
        with_headers ←
            filter_headers lib settings.header_filter
              (record no_iplds { total_difficulty = some payload.total_difficulty })
              payload
        (with_txs, tx_hashes) ← filter_transactions lib settings.tx_filter with_headers payload
        let filter_txs = if settings.receipt_filter.match_txs then tx_hashes else []
        with_receipts ← filer_receipts lib settings.receipt_filter with_txs payload filter_txs
        response ←
            filter_state_and_storage lib settings.state_filter settings.storage_filter with_receipts
              payload
        ok (record response { block_number = some payload.block.number }))
        ≡ ok response
      → (response.block_number ≡ some payload.block.number)
        × (response.total_difficulty ≡ some payload.total_difficulty)
        × (settings.header_filter.off ≡ false
            → header_model lib payload.block.header ≡ ok response.header)
  stages-carry response h =
      let (with_headers, e1, h1) =
        >>=-eq-ok (filter_headers lib settings.header_filter _ payload) _ h in
      let (with_txs, e2, h2) =
        >>=-eq-ok (filter_transactions lib settings.tx_filter with_headers payload) _ h1 in
      let (with_receipts, e3, h3) =
        >>=-eq-ok (filer_receipts lib settings.receipt_filter with_txs.0 payload _) _ h2 in
      let (all, e4, h4) =
        >>=-eq-ok
          (filter_state_and_storage lib settings.state_filter settings.storage_filter with_receipts
            payload)
          _ h3 in
      let headers = filter_headers-header _ with_headers e1 in
      let txs = filter_transactions-SameHead with_headers with_txs e2 in
      let receipts = filer_receipts-SameHead with_txs.0 with_receipts _ e3 in
      let nodes = nodes-SameHead with_receipts all e4 in
      (ground arith, ground arith, λ on. ground (arith, headers.1 on))

  -- For a block outside the subscriber's range the filter succeeds with an empty response. A response
  -- to a block in the range carries the block's number and its total difficulty, and the encoding and
  -- identifier of its header when the header filter is on, whatever the later filters add.
  pub filter-block_number :
      (response : Iplds)
      → (¬ IsInRange → filter lib settings payload ≡ ok no_iplds)
        × (IsInRange
            → filter lib settings payload ≡ ok response
            → (response.block_number ≡ some payload.block.number)
              × (response.total_difficulty ≡ some payload.total_difficulty)
              × (settings.header_filter.off ≡ false
                  → header_model lib payload.block.header ≡ ok response.header))
  unfolding filter
  filter-block_number response =
      elim (Bool-cases
        (check_range (int64 settings.start) (int64 settings.end) (int64 payload.block.number))) [
          | inr e ↦
              (λ out. rw (filter, e) refl, λ inside h. absurd (check_range-IsInRange.1 e inside))
          | inl e ↦ (
            λ out. absurd (out (check_range-IsInRange.0 e)),
            λ inside h. stages-carry response (rw (filter, e) at h),
          )
        ]

  -- The filter never reads the intermediate nodes flag of the storage filter, while the query for
  -- historical data returns only leaves (node type 2) when it is off.
  pub filter-storage_intermediate :
      (hash : String → String) (state_key storage_key : String) (node_type : ℕ)
      → (filter lib
            (record settings {
              storage_filter = record settings.storage_filter { intermediate_nodes = false };
            })
            payload
          ≡ filter lib
              (record settings {
                storage_filter = record settings.storage_filter { intermediate_nodes = true };
              })
              payload)
        × (storage_where hash
                (record settings.storage_filter { intermediate_nodes = false })
                state_key
                storage_key
                node_type
              ≡ true
            → node_type ≡ 2)
  unfolding filter filter_state_and_storage storage_where
  filter-storage_intermediate hash state_key storage_key node_type =
      (refl, λ h. (==_iff node_type 2).0 (&&_parts _ _ h).1)
