-- ===== src/Eth/Settings.antt =====
-- pkg/eth/subscription_config.go: what a subscriber asks for.
use ipfs_blockchain_watcher.Prelude.{Bool, String, List}
use ipfs_blockchain_watcher.Prelude.Int.{ℤ}

pub record HeaderFilter : Type 0 where
  pub off : Bool
  pub uncles : Bool

pub record TxFilter : Type 0 where
  pub off : Bool
  pub src : List String
  pub dst : List String

pub record ReceiptFilter : Type 0 where
  pub off : Bool
  pub match_txs : Bool
  pub log_addresses : List String
  pub topics : List (List String)

pub record StateFilter : Type 0 where
  pub off : Bool
  pub addresses : List String
  pub intermediate_nodes : Bool

pub record StorageFilter : Type 0 where
  pub off : Bool
  pub addresses : List String
  pub storage_keys : List String
  pub intermediate_nodes : Bool

pub record SubscriptionSettings : Type 0 where
  pub back_fill : Bool
  pub back_fill_only : Bool
  pub start : ℤ
  pub end : ℤ
  pub header_filter : HeaderFilter
  pub tx_filter : TxFilter
  pub receipt_filter : ReceiptFilter
  pub state_filter : StateFilter
  pub storage_filter : StorageFilter
