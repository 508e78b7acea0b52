-- ===== src/Eth/Models.antt =====
-- pkg/eth/models.go: the rows of the eth tables. An int64 or uint64 column is an integer or a
-- native number, a byte slice a list of numbers.
use ipfs_blockchain_watcher.Prelude.{ℕ, Bool, String, List}
use ipfs_blockchain_watcher.Prelude.Int.{ℤ}

pub record HeaderModel : Type 0 where
  pub id : ℤ
  pub block_number : String
  pub block_hash : String
  pub parent_hash : String
  pub cid : String
  pub mh_key : String
  pub total_difficulty : String
  pub node_id : ℤ
  pub reward : String
  pub state_root : String
  pub uncle_root : String
  pub tx_root : String
  pub rct_root : String
  pub bloom : List ℕ
  pub timestamp : ℕ
  pub times_validated : ℤ

pub record UncleModel : Type 0 where
  pub id : ℤ
  pub header_id : ℤ
  pub block_hash : String
  pub parent_hash : String
  pub cid : String
  pub mh_key : String
  pub reward : String

pub record TxModel : Type 0 where
  pub id : ℤ
  pub header_id : ℤ
  pub index : ℤ
  pub tx_hash : String
  pub cid : String
  pub mh_key : String
  pub dst : String
  pub src : String

pub record ReceiptModel : Type 0 where
  pub id : ℤ
  pub tx_id : ℤ
  pub cid : String
  pub mh_key : String
  pub contract : String
  pub contract_hash : String
  pub log_contracts : List String
  pub topic0s : List String
  pub topic1s : List String
  pub topic2s : List String
  pub topic3s : List String

pub record StateNodeModel : Type 0 where
  pub id : ℤ
  pub header_id : ℤ
  pub path : List ℕ
  pub state_key : String
  pub node_type : ℤ
  pub cid : String
  pub mh_key : String
  pub diff : Bool

pub record StorageNodeWithStateKeyModel : Type 0 where
  pub id : ℤ
  pub state_id : ℤ
  pub path : List ℕ
  pub state_key : String
  pub storage_key : String
  pub node_type : ℤ
  pub cid : String
  pub mh_key : String
  pub diff : Bool
