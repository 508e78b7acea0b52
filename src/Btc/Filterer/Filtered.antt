-- ===== src/Btc/Filterer/Filtered.antt =====
-- What the Bitcoin filter's response holds.
use ipfs_blockchain_watcher.Prelude.{
  ℕ, ◌≤◌, ◌≡◌, refl, String, List, [], ◌∷◌, some, length, get_elem?, if◌then◌else◌, Bool-cases, inl,
  inr,
}
use ipfs_blockchain_watcher.Prelude.Int.{int64}
use ipfs_blockchain_watcher.Prelude.Results.{ok}
use ipfs_blockchain_watcher.Prelude.Collect.{picked, collect-picked}
use ipfs_blockchain_watcher.Eth.Types.{BlockModel}
use ipfs_blockchain_watcher.Eth.Checks.{check_range}
use ipfs_blockchain_watcher.Btc.Types.{
  TxModelWithInsAndOuts, HeaderFilter, TxFilter, SubscriptionSettings, Iplds, BtcLib,
  ConvertedPayload,
}
use ipfs_blockchain_watcher.Btc.Filterer.{
  m_bitcoin_header, m_bitcoin_tx, no_iplds, check_transaction, block_model, filter_headers,
  select_tx, filter_transactions, filter,
}

-- Encoding and hashing that do not fail: with the raw bytes and identifiers that they return.
module _ (lib : BtcLib) (header_raw : lib.Header → List ℕ) (tx_raw : lib.Tx → List ℕ)
    (cid : ℕ → List ℕ → String)
    (header_serializes : (h : lib.Header) → lib.serialize_header h ≡ ok (header_raw h))
    (tx_serializes : (t : lib.Tx) → lib.serialize_tx t ≡ ok (tx_raw t))
    (hashes : (codec : ℕ) (raw : List ℕ) → lib.raw_data_to_cid codec raw ≡ ok (cid codec raw)) where
  abbrev pub header_model : lib.Header → BlockModel
  header_model h = record { data_bytes = header_raw h; cid = cid m_bitcoin_header (header_raw h) }

  abbrev pub tx_model : lib.Tx → BlockModel
  tx_model t = record { data_bytes = tx_raw t; cid = cid m_bitcoin_tx (tx_raw t) }

  -- The transactions whose metadata passes the subscriber's filter.
  abbrev pub wanted_txs : TxFilter → ConvertedPayload lib → List BlockModel
  wanted_txs filter payload =
      picked (λ t meta. check_transaction meta filter) (λ t meta. tx_model t)
        payload.block_payload.txs payload.tx_meta_data

  select_tx-keeps :
      (filter : TxFilter) (txs : List lib.Tx) (i : ℕ) (t : lib.Tx) (meta : TxModelWithInsAndOuts)
      → get_elem? txs i ≡ some t
      → select_tx lib filter txs i meta
        ≡ ok (if check_transaction meta filter then tx_model t ∷ [] else [])
  unfolding select_tx block_model
  select_tx-keeps filter txs i t meta e = elim (Bool-cases (check_transaction meta filter)) [
    | inl wanted ↦ rw (wanted, e, tx_serializes t, hashes m_bitcoin_tx (tx_raw t))
    | inr other ↦ rw other
  ]

  filter_headers-ok :
      (filter : HeaderFilter) (response : Iplds) (payload : ConvertedPayload lib)
      → filter_headers lib filter response payload
        ≡ ok (record response {
          header =
              if filter.off then response.header else header_model payload.block_payload.header;
        })
  unfolding filter_headers block_model
  filter_headers-ok filter response payload =
      let header = payload.block_payload.header in
      elim (Bool-cases filter.off) [
        | inl off ↦ rw off refl
        | inr on ↦
            rw (on, header_serializes header, hashes m_bitcoin_header (header_raw header)) refl
      ]

  filter_transactions-ok :
      (filter : TxFilter) (response : Iplds) (payload : ConvertedPayload lib)
      → length payload.tx_meta_data ≤ length payload.block_payload.txs
      → filter_transactions lib filter response payload
        ≡ ok (record response {
          transactions = if filter.off then response.transactions else wanted_txs filter payload;
        })
  unfolding filter_transactions
  filter_transactions-ok filter response payload l =
      let txs = payload.block_payload.txs in
      let all =
        collect-picked txs (λ t meta. check_transaction meta filter) (λ t meta. tx_model t)
          (select_tx lib filter txs) (select_tx-keeps filter txs) payload.tx_meta_data l in
      elim (Bool-cases filter.off) [
        | inl off ↦ rw off refl
        | inr on ↦ rw (filter_transactions, all, on) refl
      ]

  -- With encoders that do not fail and a transaction for each metadata, the filter succeeds. A
  -- block in the subscriber's range is answered with its height, its header unless headers are
  -- off, and, unless transactions are off, exactly those whose metadata passes, in order; a block
  -- out of the range is answered with an empty response.
  pub filter-response :
      (settings : SubscriptionSettings) (payload : ConvertedPayload lib)
      → length payload.tx_meta_data ≤ length payload.block_payload.txs
      → filter lib settings payload
        ≡ ok (
            if check_range
              (int64 settings.start)
              (int64 settings.end)
              payload.block_payload.block_height
            then record {
              block_number = some payload.block_payload.block_height;
              header =
                  if settings.header_filter.off
                  then no_iplds.header
                  else header_model payload.block_payload.header;
              transactions =
                  if settings.tx_filter.off then [] else wanted_txs settings.tx_filter payload;
            }
            else no_iplds)
  unfolding filter
  filter-response settings payload l =
      elim (Bool-cases (
        check_range (int64 settings.start) (int64 settings.end)
          payload.block_payload.block_height)) [
            | inl here ↦
                rw
                  (
                    here,
                    filter_headers-ok settings.header_filter no_iplds payload,
                    filter_transactions-ok settings.tx_filter _ payload l,
                  )
                  refl
            | inr elsewhere ↦ rw elsewhere refl
          ]
