-- ===== src/Eth/Filterer/Transactions.antt =====
-- The transactions and the receipts of a response.
use ipfs_blockchain_watcher.Prelude.{
  ℕ, ◌≤◌, ◌≡◌, true, false, String, some, List, [], ◌∷◌, map, length, get_elem?, if◌then◌else◌,
  arith, Bool-cases, inl, inr, contains, ◌+◌, ◌==◌, ◌||◌, Bool, any, is_empty, str_eq, refl,
}
use mathlib.Core.Path.{ap₂}
use mathlib.Core.List.{Mem, mem-map_of_mem}
use ipfs_blockchain_watcher.Prelude.Results.{ok}
use ipfs_blockchain_watcher.Prelude.Collect.{
  chosen, collect-chosen, map-fst, map-snd, chosen-always,
}
use ipfs_blockchain_watcher.Eth.Models.{TxModel, ReceiptModel}
use ipfs_blockchain_watcher.Eth.Types.{EthLib, ConvertedPayload, Iplds, BlockModel}
use ipfs_blockchain_watcher.Eth.Settings.{TxFilter, ReceiptFilter}
use ipfs_blockchain_watcher.Eth.Checks.{check_transaction_addrs, check_receipts}
use ipfs_blockchain_watcher.Eth.Filterer.{
  m_eth_tx, m_eth_tx_receipt, block_model, select_tx, filter_transactions, select_receipt,
  filer_receipts, topics_of,
}

-- Whether a filter asks for a transaction: it names no address at all, or the sender is one of its
-- sources, or the receiver one of its destinations.
unfoldable pub is_wanted : TxFilter → TxModel → Bool
is_wanted filter meta =
    (length filter.src + length filter.dst == 0)
    || (any (λ a. str_eq a meta.src) filter.src || any (λ a. str_eq a meta.dst) filter.dst)

is_empty-length : {A : Type 0} (xs : List A) → is_empty xs ≡ (length xs == 0)
is_empty-length [] = refl
is_empty-length (x ∷ xs) = ground arith

check_transaction_addrs-is_wanted :
    (filter : TxFilter) (m : TxModel)
    → check_transaction_addrs filter.src filter.dst m.src m.dst ≡ is_wanted filter m
unfolding check_transaction_addrs is_wanted
check_transaction_addrs-is_wanted filter m =
    ground (arith, is_empty-length filter.src, is_empty-length filter.dst)

-- Encoding and hashing that do not fail: with `raw` and `cid` what they return.
module _ (lib : EthLib) (tx_raw : lib.Tx → List ℕ) (receipt_raw : lib.Receipt → List ℕ)
    (cid : ℕ → List ℕ → String) (tx_encodes : (t : lib.Tx) → lib.encode_tx t ≡ ok (tx_raw t))
    (receipt_encodes : (r : lib.Receipt) → lib.encode_receipt r ≡ ok (receipt_raw r))
    (hashes : (codec : ℕ) (raw : List ℕ) → lib.raw_data_to_cid codec raw ≡ ok (cid codec raw)) where
  abbrev pub tx_model : lib.Tx → BlockModel
  tx_model t = record { data_bytes = tx_raw t; cid = cid m_eth_tx (tx_raw t) }

  abbrev pub receipt_model : lib.Receipt → BlockModel
  receipt_model r = record {
    data_bytes = receipt_raw r;
    cid = cid m_eth_tx_receipt (receipt_raw r);
  }

  -- The transactions that the subscriber asked for.
  abbrev pub wanted_txs : TxFilter → ConvertedPayload lib → List lib.Tx
  wanted_txs filter payload =
      chosen (λ meta t. is_wanted filter meta) payload.tx_meta_data payload.block.transactions

  abbrev pub wanted_receipts : ReceiptFilter → ConvertedPayload lib → List ℕ → List lib.Receipt
  wanted_receipts filter payload txs =
      chosen
        (λ meta r.
          check_receipts (lib.receipt_tx_hash r) filter.topics (topics_of meta) filter.log_addresses
            meta.log_contracts txs)
        payload.receipt_meta_data payload.receipts

  select_tx-keeps :
      (filter : TxFilter) (metas : List TxModel) (i : ℕ) (m : TxModel) (t : lib.Tx)
      → get_elem? metas i ≡ some m
      → select_tx lib filter metas i t
        ≡ ok (if is_wanted filter m then (tx_model t, lib.tx_hash t) ∷ [] else [])
  unfolding select_tx block_model
  select_tx-keeps filter metas i m t e = elim (Bool-cases (is_wanted filter m)) [
    | inl wanted ↦ rw (
      e,
      check_transaction_addrs-is_wanted filter m,
      wanted,
      tx_encodes t,
      hashes m_eth_tx (tx_raw t),
    )
    | inr other ↦ rw (e, check_transaction_addrs-is_wanted filter m, other)
  ]

  select_receipt-keeps :
      (filter : ReceiptFilter) (metas : List ReceiptModel) (txs : List ℕ) (i : ℕ) (m : ReceiptModel)
      (r : lib.Receipt)
      → get_elem? metas i ≡ some m
      → select_receipt lib filter metas txs i r
        ≡ ok (
            if check_receipts
              (lib.receipt_tx_hash r)
              filter.topics
              (topics_of m)
              filter.log_addresses
              m.log_contracts
              txs
            then receipt_model r ∷ []
            else [])
  unfolding select_receipt block_model
  select_receipt-keeps filter metas txs i m r e =
      elim (Bool-cases (
        check_receipts (lib.receipt_tx_hash r) filter.topics (topics_of m) filter.log_addresses
          m.log_contracts txs)) [
            | inl wanted ↦
                rw (e, wanted, receipt_encodes r, hashes m_eth_tx_receipt (receipt_raw r))
            | inr other ↦ rw (e, other)
          ]

  -- With the filter on, encoders that do not fail, and metadata for each transaction of the block,
  -- the response gets exactly the transactions that the subscriber asked for, in the block's order,
  -- each with its encoding and identifier; the hashes are of the same ones. A filter without any
  -- address asks for all; another asks for those from one of its sources or to one of its
  -- destinations.
  pub filter_transactions-wanted :
      (filter : TxFilter) (response : Iplds) (payload : ConvertedPayload lib)
      → filter.off ≡ false
      → length payload.block.transactions ≤ length payload.tx_meta_data
      → filter_transactions lib filter response payload
        ≡ ok (
          record response { transactions = map tx_model (wanted_txs filter payload) },
          map lib.tx_hash (wanted_txs filter payload),
        )
  unfolding filter_transactions is_wanted
  filter_transactions-wanted filter response payload on l =
      let all =
        collect-chosen payload.tx_meta_data _ _ (select_tx lib filter payload.tx_meta_data)
          (select_tx-keeps filter payload.tx_meta_data) payload.block.transactions l in
      let wanted = wanted_txs filter payload in
      rw (on, all)
        (ap₂ (λ ts hs. ok (record response { transactions = ts }, hs))
          (map-fst tx_model lib.tx_hash wanted) (map-snd tx_model lib.tx_hash wanted))

  check_receipts-paired :
      (r : lib.Receipt) (m : ReceiptModel) (filter : ReceiptFilter) (txs : List ℕ)
      → contains (lib.receipt_tx_hash r) txs ≡ true
      → check_receipts
          (lib.receipt_tx_hash r)
          filter.topics
          (topics_of m)
          filter.log_addresses
          m.log_contracts
          txs
        ≡ true
  unfolding check_receipts
  check_receipts-paired r m filter txs paired = ground arith

  -- With the receipt filter on, encoders that do not fail, and metadata for each receipt, the filter
  -- succeeds and a receipt of one of the transactions with the given hashes is in the response,
  -- whatever topics and addresses the filter asks for.
  pub filer_receipts-paired :
      (filter : ReceiptFilter) (response : Iplds) (payload : ConvertedPayload lib) (txs : List ℕ)
      (i : ℕ) (r : lib.Receipt)
      → filter.off ≡ false
      → length payload.receipts ≤ length payload.receipt_meta_data
      → get_elem? payload.receipts i ≡ some r
      → contains (lib.receipt_tx_hash r) txs ≡ true
      → (out : Iplds) × (filer_receipts lib filter response payload txs ≡ ok out)
        × Mem (receipt_model r) out.receipts
  unfolding filer_receipts
  filer_receipts-paired filter response payload txs i r on l at paired =
      let metas = payload.receipt_meta_data in
      let wanted = wanted_receipts filter payload txs in
      let all =
        collect-chosen metas _ _ (select_receipt lib filter metas txs)
          (select_receipt-keeps filter metas txs) payload.receipts l in
      let there =
        chosen-always _ metas payload.receipts i r at l
          (λ m. check_receipts-paired r m filter txs paired) in
      (
        record response { receipts = map receipt_model wanted },
        rw (on, all),
        mem-map_of_mem receipt_model there,
      )
