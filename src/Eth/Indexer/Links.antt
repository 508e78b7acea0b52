-- ===== src/Eth/Indexer/Links.antt =====
-- After Index every object of the block has its row, with the foreign key of the row above it.
use ipfs_blockchain_watcher.Prelude.{All-map, ℕ, ◌≡◌, true, String, List, Option, none, some, All}
use ipfs_blockchain_watcher.Prelude.Int.{ℤ, pos, eq_ℤ}
use ipfs_blockchain_watcher.Sql.Upsert.{find_id, Has}
use ipfs_blockchain_watcher.Sql.Values.{value_at, Row}
use ipfs_blockchain_watcher.Eth.Models.{UncleModel, TxModel, ReceiptModel, StateNodeModel}
use ipfs_blockchain_watcher.Eth.Indexer.{
  StorageNodeModel, StateAccountModel, CidPayload, Index, same_header, same_child, same_node,
  same_id,
}
use ipfs_blockchain_watcher.Eth.Indexer.Keeps.{Keeps}
use ipfs_blockchain_watcher.Eth.Indexer.Rows.{
  IsUncle, IsTransaction, IsReceipt, IsState, IsAccount, IsStorage, times_after, Adds,
}

module _ (hex_to_hash : String → ℕ) (bytes_to_hex : List ℕ → String) (payload : CidPayload) where
  abbrev pub UncleIn : ℕ → UncleModel → Index → Type 0
  UncleIn header_id uncle d =
      Has same_child (header_id, uncle.block_hash) d.uncle_cids
      × Row same_child (IsUncle hex_to_hash bytes_to_hex payload) (header_id, uncle.block_hash)
          d.uncle_cids

  -- The receipt that the payload has for a transaction.
  abbrev pub ReceiptIn : Option ReceiptModel → ℕ → Index → Type 0
  ReceiptIn none tx_id d = Unit
  ReceiptIn (some receipt) tx_id d =
      Has same_id tx_id d.receipt_cids
      × Row same_id (IsReceipt hex_to_hash bytes_to_hex payload) tx_id d.receipt_cids

  abbrev pub TransactionIn : ℕ → TxModel → Index → Type 0
  TransactionIn header_id trx d =
      (tx_id : ℕ) × (find_id same_child (header_id, trx.tx_hash) d.transaction_cids ≡ some tx_id)
      × Row same_child (IsTransaction hex_to_hash bytes_to_hex payload) (header_id, trx.tx_hash)
          d.transaction_cids
      × ReceiptIn (payload.receipt_cids (hex_to_hash trx.tx_hash)) tx_id d

  abbrev pub AccountIn : Option StateAccountModel → ℕ → Index → Type 0
  AccountIn none state_id d = Unit
  AccountIn (some account) state_id d =
      Has same_id state_id d.state_accounts
      × Row same_id (IsAccount hex_to_hash bytes_to_hex payload) state_id d.state_accounts

  abbrev pub StorageIn : ℕ → StorageNodeModel → Index → Type 0
  StorageIn state_id node d =
      Has same_node (state_id, node.path) d.storage_cids
      × Row same_node (IsStorage hex_to_hash bytes_to_hex payload) (state_id, node.path)
          d.storage_cids

  -- The account and the storage nodes of a leaf.
  abbrev pub LeafIn : StateNodeModel → ℕ → Index → Type 0
  LeafIn node state_id d =
      eq_ℤ node.node_type (pos 2) ≡ true
      → All (λ s. StorageIn state_id s d) (payload.storage_node_cids (bytes_to_hex node.path))
        × AccountIn (payload.state_accounts (bytes_to_hex node.path)) state_id d

  abbrev pub StateIn : ℕ → StateNodeModel → Index → Type 0
  StateIn header_id node d =
      (state_id : ℕ) × (find_id same_node (header_id, node.path) d.state_cids ≡ some state_id)
      × Row same_node (IsState hex_to_hash bytes_to_hex payload) (header_id, node.path) d.state_cids
      × LeafIn node state_id d

  pub ReceiptIn-kept :
      (receipt : Option ReceiptModel) (tx_id : ℕ) (d n : Index)
      → Adds hex_to_hash bytes_to_hex payload d n
      → ReceiptIn receipt tx_id d
      → ReceiptIn receipt tx_id n
  ReceiptIn-kept none tx_id d n k h = tt
  ReceiptIn-kept (some receipt) tx_id d n k ((i, h), row) =
      ((i, k.keeps.receipts_kept tx_id i h), k.receipts_valued tx_id row)

  pub AccountIn-kept :
      (account : Option StateAccountModel) (state_id : ℕ) (d n : Index)
      → Adds hex_to_hash bytes_to_hex payload d n
      → AccountIn account state_id d
      → AccountIn account state_id n
  AccountIn-kept none state_id d n k h = tt
  AccountIn-kept (some account) state_id d n k ((i, h), row) =
      ((i, k.keeps.accounts_kept state_id i h), k.accounts_valued state_id row)

  pub StorageIn-kept :
      (state_id : ℕ) (node : StorageNodeModel) (d n : Index)
      → Adds hex_to_hash bytes_to_hex payload d n
      → StorageIn state_id node d
      → StorageIn state_id node n
  StorageIn-kept state_id node d n k ((i, h), row) = (
    (i, k.keeps.storage_kept (state_id, node.path) i h),
    k.storage_valued (state_id, node.path) row,
  )

  pub UncleIn-kept :
      (header_id : ℕ) (uncle : UncleModel) (d n : Index)
      → Adds hex_to_hash bytes_to_hex payload d n
      → UncleIn header_id uncle d
      → UncleIn header_id uncle n
  UncleIn-kept header_id uncle d n k ((i, h), row) = (
    (i, k.keeps.uncles_kept (header_id, uncle.block_hash) i h),
    k.uncles_valued (header_id, uncle.block_hash) row,
  )

  pub TransactionIn-kept :
      (header_id : ℕ) (trx : TxModel) (d n : Index)
      → Adds hex_to_hash bytes_to_hex payload d n
      → TransactionIn header_id trx d
      → TransactionIn header_id trx n
  TransactionIn-kept header_id trx d n k (i, h, row, receipt) = (
    i,
    k.keeps.transactions_kept (header_id, trx.tx_hash) i h,
    k.transactions_valued (header_id, trx.tx_hash) row,
    ReceiptIn-kept (payload.receipt_cids (hex_to_hash trx.tx_hash)) i d n k receipt,
  )

  pub StateIn-kept :
      (header_id : ℕ) (node : StateNodeModel) (d n : Index)
      → Adds hex_to_hash bytes_to_hex payload d n
      → StateIn header_id node d
      → StateIn header_id node n
  StateIn-kept header_id node d n k (i, h, row, leaf) = (
    i,
    k.keeps.states_kept (header_id, node.path) i h,
    k.states_valued (header_id, node.path) row,
    λ e.
        let parts = leaf e in
        (
          All-map (payload.storage_node_cids (bytes_to_hex node.path))
              (λ s. StorageIn-kept i s d n k) parts.0,
          AccountIn-kept (payload.state_accounts (bytes_to_hex node.path)) i d n k parts.1,
        ),
  )

  -- All that the payload has, under the header's id.
  pub record Complete (node_id : ℤ) (d n : Index) : Type 0 where
    pub header_id : ℕ
    pub header_in :
        find_id same_header
          (payload.header_cid.block_number, payload.header_cid.block_hash)
          n.header_cids
        ≡ some header_id
    pub header_row :
        value_at same_header
          (payload.header_cid.block_number, payload.header_cid.block_hash)
          n.header_cids
        ≡ some (record payload.header_cid {
          node_id = node_id;
          times_validated = times_after (
              value_at same_header
                (payload.header_cid.block_number, payload.header_cid.block_hash)
                d.header_cids);
        })
    pub uncles_in : All (λ u. UncleIn header_id u n) payload.uncle_cids
    pub transactions_in : All (λ t. TransactionIn header_id t n) payload.transaction_cids
    pub states_in : All (λ s. StateIn header_id s n) payload.state_node_cids
    pub kept : Keeps d n
