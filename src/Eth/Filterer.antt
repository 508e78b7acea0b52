-- ===== src/Eth/Filterer.antt =====
-- pkg/eth/filterer.go: what of a converted block a subscriber gets. An index out of range panics.
-- The dynamic type tests of `Filter` always pass here, since the types are static.
pub mod Transactions
pub mod Filtered
use ipfs_blockchain_watcher.Prelude.{
  ℕ, ◌+◌, ◌==◌, Bool, true, false, ◌&&◌, ◌||◌, not, String, List, [], ◌∷◌, ◌++◌, Option, none, some,
  map, flat_map, get_elem?, if◌then◌else◌,
}
use ipfs_blockchain_watcher.Prelude.Int.{ℤ, int64}
use ipfs_blockchain_watcher.Prelude.Assoc.{lookup, string_eq}
use ipfs_blockchain_watcher.Prelude.Results.{Result, ok, err, panic, ◌>>=◌, or_panic, collect}
use ipfs_blockchain_watcher.Eth.Models.{TxModel, ReceiptModel}
use ipfs_blockchain_watcher.Eth.Types.{
  EthLib, ConvertedPayload, TrieNode, BlockModel, StateNode, StorageNode, Iplds, is_leaf,
}
use ipfs_blockchain_watcher.Eth.Settings.{
  HeaderFilter, TxFilter, ReceiptFilter, StateFilter, StorageFilter, SubscriptionSettings,
}
use ipfs_blockchain_watcher.Eth.Checks.{
  check_range, check_transaction_addrs, check_node_keys, check_receipts,
}

-- ipld.MEthHeader and the other codecs.
abbrev pub m_eth_header : ℕ
m_eth_header = 0x90

abbrev pub m_eth_tx : ℕ
m_eth_tx = 0x93

abbrev pub m_eth_tx_receipt : ℕ
m_eth_tx_receipt = 0x95

abbrev pub m_eth_state_trie : ℕ
m_eth_state_trie = 0x96

abbrev pub m_eth_storage_trie : ℕ
m_eth_storage_trie = 0x98

abbrev pub no_block : BlockModel
no_block = record { data_bytes = []; cid = "" }

-- IPLDs{}
abbrev pub no_iplds : Iplds
no_iplds = record {
  block_number = none;
  total_difficulty = none;
  header = no_block;
  uncles = [];
  transactions = [];
  receipts = [];
  state_nodes = [];
  storage_nodes = [];
}

abbrev pub topics_of : ReceiptModel → List (List String)
topics_of meta = meta.topic0s ∷ meta.topic1s ∷ meta.topic2s ∷ meta.topic3s ∷ []

module _ (lib : EthLib) where
  open lib use {Header, Tx, Receipt}

  unfoldable pub block_model : ℕ → List ℕ → Result BlockModel
  block_model codec raw = do
    cid ← lib.raw_data_to_cid codec raw
    ok (record { data_bytes = raw; cid = cid })

  unfoldable pub header_model : Header → Result BlockModel
  unfolding block_model
  header_model header = do raw ← lib.encode_header header; block_model m_eth_header raw

  unfoldable pub filter_headers : HeaderFilter → Iplds → ConvertedPayload lib → Result Iplds
  unfolding header_model
  filter_headers filter response payload = if filter.off then ok response else (do
    header ← header_model payload.block.header
    let with_header = record response { header = header }
    if filter.uncles
        then (do
          uncles ←
              collect (λ i uncle. do m ← header_model uncle; ok (m ∷ [])) 0 payload.block.uncles
          ok (record with_header { uncles = uncles }))
        else ok with_header)

  -- One round of the loop over the transactions: what it appends to the response and to the hashes.
  unfoldable pub select_tx : TxFilter → List TxModel → ℕ → Tx → Result (List (BlockModel × ℕ))
  unfolding block_model
  select_tx filter meta_data i trx = do
    meta ← or_panic (get_elem? meta_data i)
    if check_transaction_addrs filter.src filter.dst meta.src meta.dst
        then (do
          raw ← lib.encode_tx trx
          m ← block_model m_eth_tx raw
          ok ((m, lib.tx_hash trx) ∷ []))
        else ok []

  unfoldable pub filter_transactions :
      TxFilter → Iplds → ConvertedPayload lib → Result (Iplds × List ℕ)
  unfolding select_tx
  filter_transactions filter response payload = if filter.off then ok (response, []) else (do
    selected ← collect (select_tx filter payload.tx_meta_data) 0 payload.block.transactions
    ok (record response { transactions = map (λ s. s.0) selected }, map (λ s. s.1) selected))

  unfoldable pub select_receipt :
      ReceiptFilter → List ReceiptModel → List ℕ → ℕ → Receipt → Result (List BlockModel)
  unfolding block_model
  select_receipt filter meta_data trx_hashes i receipt = do
    meta ← or_panic (get_elem? meta_data i)
    if check_receipts (lib.receipt_tx_hash receipt) filter.topics (topics_of meta)
          filter.log_addresses meta.log_contracts trx_hashes
        then (do
          raw ← lib.encode_receipt receipt
          m ← block_model m_eth_tx_receipt raw
          ok (m ∷ []))
        else ok []

  unfoldable pub filer_receipts :
      ReceiptFilter → Iplds → ConvertedPayload lib → List ℕ → Result Iplds
  unfolding select_receipt
  filer_receipts filter response payload trx_hashes = if filter.off then ok response else (do
    receipts ←
        collect (select_receipt filter payload.receipt_meta_data trx_hashes) 0 payload.receipts
    ok (record response { receipts = receipts }))

  unfoldable pub select_state_node : StateFilter → TrieNode → Result (List StateNode)
  unfolding block_model
  select_state_node filter node =
      if not filter.off && check_node_keys (map lib.address_hash filter.addresses) node.leaf_key
      then (if is_leaf node.type || filter.intermediate_nodes
          then (do
            m ← block_model m_eth_state_trie node.value
            ok (
                record {
                  type = node.type;
                  state_leaf_key = node.leaf_key;
                  path = node.path;
                  ipld = m;
                }
                ∷ []))
          else ok [])
      else ok []

  unfoldable pub select_storage_node :
      StorageFilter → TrieNode → TrieNode → Result (List StorageNode)
  unfolding block_model
  select_storage_node filter state_node node =
      if check_node_keys (map lib.hex_to_hash filter.storage_keys) node.leaf_key
      then (do
        m ← block_model m_eth_storage_trie node.value
        ok (
            record {
              type = node.type;
              state_leaf_key = state_node.leaf_key;
              storage_leaf_key = node.leaf_key;
              path = node.path;
              ipld = m;
            }
            ∷ []))
      else ok []

  -- A missing key of a Go map reads as the empty slice.
  unfoldable pub storage_of : ConvertedPayload lib → TrieNode → List TrieNode
  storage_of payload node = elim (lookup (lib.bytes_to_hex node.path) payload.storage_nodes) [
    | none ↦ []
    | some ns ↦ ns
  ]

  unfoldable pub select_storage_nodes :
      StorageFilter → ConvertedPayload lib → TrieNode → Result (List StorageNode)
  unfolding select_storage_node storage_of
  select_storage_nodes filter payload node =
      if not filter.off && check_node_keys (map lib.address_hash filter.addresses) node.leaf_key
      then collect (λ i n. select_storage_node filter node n) 0 (storage_of payload node)
      else ok []

  -- One round of the loop over the state nodes.
  unfoldable pub select_nodes :
      StateFilter
      → StorageFilter
      → ConvertedPayload lib
      → ℕ
      → TrieNode
      → Result (List (List StateNode × List StorageNode))
  unfolding select_state_node select_storage_nodes
  select_nodes state storage payload i node = do
    s ← select_state_node state node
    t ← select_storage_nodes storage payload node
    ok ((s, t) ∷ [])

  unfoldable pub filter_state_and_storage :
      StateFilter → StorageFilter → Iplds → ConvertedPayload lib → Result Iplds
  unfolding select_nodes
  filter_state_and_storage state storage response payload = do
    selected ← collect (select_nodes state storage payload) 0 payload.state_nodes
    ok (record response {
      state_nodes = flat_map (λ p. p.0) selected;
      storage_nodes = flat_map (λ p. p.1) selected;
    })

  unfoldable pub filter : SubscriptionSettings → ConvertedPayload lib → Result Iplds
  filter settings payload =
      if check_range (int64 settings.start) (int64 settings.end) (int64 payload.block.number)
      then (do
        with_headers ←
            filter_headers settings.header_filter
              (record no_iplds { total_difficulty = some payload.total_difficulty }) payload
        (with_txs, tx_hashes) ← filter_transactions settings.tx_filter with_headers payload
        let filter_txs = if settings.receipt_filter.match_txs then tx_hashes else []
        with_receipts ← filer_receipts settings.receipt_filter with_txs payload filter_txs
        response ←
            filter_state_and_storage settings.state_filter settings.storage_filter with_receipts
              payload
        ok (record response { block_number = some payload.block.number }))
      else ok no_iplds
