-- ===== src/Eth/Indexer/Changes.antt =====
-- A statement of Index changes one table: if it keeps that table's rows, and the columns of those that
-- are as they are to be, it does so for all tables.
use ipfs_blockchain_watcher.Prelude.{ℕ, refl, String, List}
use ipfs_blockchain_watcher.Sql.Upsert.{Table}
use ipfs_blockchain_watcher.Sql.Values.{Valued}
use ipfs_blockchain_watcher.Eth.Models.{UncleModel, TxModel, ReceiptModel, StateNodeModel}
use ipfs_blockchain_watcher.Eth.Indexer.{
  StorageNodeModel, StateAccountModel, CidPayload, Index, same_child, same_node, same_id,
}
use ipfs_blockchain_watcher.Eth.Indexer.Keeps.{Stable}
use ipfs_blockchain_watcher.Eth.Indexer.Rows.{
  IsUncle, IsTransaction, IsReceipt, IsState, IsAccount, IsStorage, Adds,
}

module _ (hex_to_hash : String → ℕ) (bytes_to_hex : List ℕ → String) (payload : CidPayload) where
  pub uncles-Adds :
      (d : Index) (t : Table (ℕ × String) UncleModel)
      → Stable same_child d.uncle_cids t
      → Valued same_child (IsUncle hex_to_hash bytes_to_hex payload) d.uncle_cids t
      → Adds hex_to_hash bytes_to_hex payload d (record d { uncle_cids = t })
  uncles-Adds d t kept valued = record {
    keeps = record {
      headers_kept = λ k i h. h;
      uncles_kept = kept;
      transactions_kept = λ k i h. h;
      receipts_kept = λ k i h. h;
      states_kept = λ k i h. h;
      accounts_kept = λ k i h. h;
      storage_kept = λ k i h. h;
    };
    headers_same = refl;
    uncles_valued = valued;
    transactions_valued = λ k r. r;
    receipts_valued = λ k r. r;
    states_valued = λ k r. r;
    accounts_valued = λ k r. r;
    storage_valued = λ k r. r;
  }

  pub transactions-Adds :
      (d : Index) (t : Table (ℕ × String) TxModel)
      → Stable same_child d.transaction_cids t
      → Valued same_child (IsTransaction hex_to_hash bytes_to_hex payload) d.transaction_cids t
      → Adds hex_to_hash bytes_to_hex payload d (record d { transaction_cids = t })
  transactions-Adds d t kept valued = record {
    keeps = record {
      headers_kept = λ k i h. h;
      uncles_kept = λ k i h. h;
      transactions_kept = kept;
      receipts_kept = λ k i h. h;
      states_kept = λ k i h. h;
      accounts_kept = λ k i h. h;
      storage_kept = λ k i h. h;
    };
    headers_same = refl;
    uncles_valued = λ k r. r;
    transactions_valued = valued;
    receipts_valued = λ k r. r;
    states_valued = λ k r. r;
    accounts_valued = λ k r. r;
    storage_valued = λ k r. r;
  }

  pub receipts-Adds :
      (d : Index) (t : Table ℕ ReceiptModel)
      → Stable same_id d.receipt_cids t
      → Valued same_id (IsReceipt hex_to_hash bytes_to_hex payload) d.receipt_cids t
      → Adds hex_to_hash bytes_to_hex payload d (record d { receipt_cids = t })
  receipts-Adds d t kept valued = record {
    keeps = record {
      headers_kept = λ k i h. h;
      uncles_kept = λ k i h. h;
      transactions_kept = λ k i h. h;
      receipts_kept = kept;
      states_kept = λ k i h. h;
      accounts_kept = λ k i h. h;
      storage_kept = λ k i h. h;
    };
    headers_same = refl;
    uncles_valued = λ k r. r;
    transactions_valued = λ k r. r;
    receipts_valued = valued;
    states_valued = λ k r. r;
    accounts_valued = λ k r. r;
    storage_valued = λ k r. r;
  }

  pub states-Adds :
      (d : Index) (t : Table (ℕ × List ℕ) StateNodeModel)
      → Stable same_node d.state_cids t
      → Valued same_node (IsState hex_to_hash bytes_to_hex payload) d.state_cids t
      → Adds hex_to_hash bytes_to_hex payload d (record d { state_cids = t })
  states-Adds d t kept valued = record {
    keeps = record {
      headers_kept = λ k i h. h;
      uncles_kept = λ k i h. h;
      transactions_kept = λ k i h. h;
      receipts_kept = λ k i h. h;
      states_kept = kept;
      accounts_kept = λ k i h. h;
      storage_kept = λ k i h. h;
    };
    headers_same = refl;
    uncles_valued = λ k r. r;
    transactions_valued = λ k r. r;
    receipts_valued = λ k r. r;
    states_valued = valued;
    accounts_valued = λ k r. r;
    storage_valued = λ k r. r;
  }

  pub accounts-Adds :
      (d : Index) (t : Table ℕ StateAccountModel)
      → Stable same_id d.state_accounts t
      → Valued same_id (IsAccount hex_to_hash bytes_to_hex payload) d.state_accounts t
      → Adds hex_to_hash bytes_to_hex payload d (record d { state_accounts = t })
  accounts-Adds d t kept valued = record {
    keeps = record {
      headers_kept = λ k i h. h;
      uncles_kept = λ k i h. h;
      transactions_kept = λ k i h. h;
      receipts_kept = λ k i h. h;
      states_kept = λ k i h. h;
      accounts_kept = kept;
      storage_kept = λ k i h. h;
    };
    headers_same = refl;
    uncles_valued = λ k r. r;
    transactions_valued = λ k r. r;
    receipts_valued = λ k r. r;
    states_valued = λ k r. r;
    accounts_valued = valued;
    storage_valued = λ k r. r;
  }

  pub storage-Adds :
      (d : Index) (t : Table (ℕ × List ℕ) StorageNodeModel)
      → Stable same_node d.storage_cids t
      → Valued same_node (IsStorage hex_to_hash bytes_to_hex payload) d.storage_cids t
      → Adds hex_to_hash bytes_to_hex payload d (record d { storage_cids = t })
  storage-Adds d t kept valued = record {
    keeps = record {
      headers_kept = λ k i h. h;
      uncles_kept = λ k i h. h;
      transactions_kept = λ k i h. h;
      receipts_kept = λ k i h. h;
      states_kept = λ k i h. h;
      accounts_kept = λ k i h. h;
      storage_kept = kept;
    };
    headers_same = refl;
    uncles_valued = λ k r. r;
    transactions_valued = λ k r. r;
    receipts_valued = λ k r. r;
    states_valued = λ k r. r;
    accounts_valued = λ k r. r;
    storage_valued = valued;
  }
