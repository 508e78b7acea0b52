-- ===== src/Btc/Filterer.antt =====
-- pkg/btc/filterer.go: what of a converted block a subscriber gets. An index out of range panics.
-- The dynamic type tests of `Filter` always pass here, since the types are static. Heights of
-- blocks are int64 values. A loop that sets a flag on an element is `any` over the elements.
pub mod Filtered
use ipfs_blockchain_watcher.Prelude.{
  ℕ, ◌==◌, Bool, true, false, ◌&&◌, ◌||◌, not, String, List, [], ◌∷◌, Option, none, some, any,
  get_elem?, is_empty, str_eq, if◌then◌else◌,
}
use ipfs_blockchain_watcher.Prelude.Int.{ℤ, pos, int64, ltb_ℤ, eq_ℤ}
use ipfs_blockchain_watcher.Prelude.Results.{Result, ok, err, panic, ◌>>=◌, or_panic, collect}
use ipfs_blockchain_watcher.Eth.Types.{BlockModel}
use ipfs_blockchain_watcher.Eth.Checks.{check_range}
use ipfs_blockchain_watcher.Btc.Types.{
  TxModelWithInsAndOuts, HeaderFilter, TxFilter, SubscriptionSettings, Iplds, BtcLib,
  ConvertedPayload,
}

-- ipld.MBitcoinHeader and ipld.MBitcoinTx.
abbrev pub m_bitcoin_header : ℕ
m_bitcoin_header = 0xb0

abbrev pub m_bitcoin_tx : ℕ
m_bitcoin_tx = 0xb1

-- IPLDs{}
abbrev pub no_iplds : Iplds
no_iplds = record {
  block_number = none;
  header = record { data_bytes = []; cid = "" };
  transactions = [];
}

unfoldable pub check_transaction : TxModelWithInsAndOuts → TxFilter → Bool
check_transaction tx_meta filter =
    let outs = tx_meta.tx_outputs in
    let passes_segwit_filter = not filter.segwit || (filter.segwit && tx_meta.seg_wit) in
    let passes_multi_sig_filter =
      not filter.multi_sig
      || (filter.multi_sig && any (λ out. ltb_ℤ (pos 1) out.required_sigs) outs) in
    let passes_witness_filter =
      is_empty filter.witness_hashes
      || any (λ wanted. str_eq wanted tx_meta.witness_hash) filter.witness_hashes in
    let passes_address_filter =
      is_empty filter.addresses
      || any (λ wanted. any (λ out. any (λ actual. str_eq wanted actual) out.addresses) outs)
          filter.addresses in
    let passes_index_filter =
      is_empty filter.indexes || any (λ wanted. eq_ℤ wanted tx_meta.index) filter.indexes in
    let passes_pk_script_class_filter =
      is_empty filter.pk_script_classes
      || any (λ wanted. any (λ out. out.script_class == wanted) outs) filter.pk_script_classes in
    passes_segwit_filter
    && (passes_multi_sig_filter
        && (passes_witness_filter
            && (passes_address_filter && (passes_index_filter && passes_pk_script_class_filter))))

module _ (lib : BtcLib) where
  open lib use {Header, Tx}

  unfoldable pub block_model : ℕ → List ℕ → Result BlockModel
  block_model codec raw = do
    cid ← lib.raw_data_to_cid codec raw
    ok (record { data_bytes = raw; cid = cid })

  unfoldable pub filter_headers : HeaderFilter → Iplds → ConvertedPayload lib → Result Iplds
  unfolding block_model
  filter_headers filter response payload = if filter.off then ok response else (do
    raw ← lib.serialize_header payload.block_payload.header
    m ← block_model m_bitcoin_header raw
    ok (record response { header = m }))

  -- One round of the loop over the metadata of the transactions.
  unfoldable pub select_tx :
      TxFilter → List Tx → ℕ → TxModelWithInsAndOuts → Result (List BlockModel)
  unfolding block_model
  select_tx filter txs i tx_meta =
      if check_transaction tx_meta filter
      then (do
        tx ← or_panic (get_elem? txs i)
        raw ← lib.serialize_tx tx
        m ← block_model m_bitcoin_tx raw
        ok (m ∷ []))
      else ok []

  unfoldable pub filter_transactions : TxFilter → Iplds → ConvertedPayload lib → Result Iplds
  unfolding select_tx
  filter_transactions filter response payload = if filter.off then ok response else (do
    selected ← collect (select_tx filter payload.block_payload.txs) 0 payload.tx_meta_data
    ok (record response { transactions = selected }))

  unfoldable pub filter : SubscriptionSettings → ConvertedPayload lib → Result Iplds
  unfolding filter_headers filter_transactions
  filter settings payload =
      let height = payload.block_payload.block_height in
      if check_range (int64 settings.start) (int64 settings.end) height
      then (do
        with_header ← filter_headers settings.header_filter no_iplds payload
        with_txs ← filter_transactions settings.tx_filter with_header payload
        ok (record with_txs { block_number = some height }))
      else ok no_iplds
