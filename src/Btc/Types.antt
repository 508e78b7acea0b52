-- ===== src/Btc/Types.antt =====
-- pkg/btc/models.go, types.go and subscription_config.go: the rows of the btc tables, the payloads,
-- and what a subscriber asks for. An int64 column is an integer, an unsigned one a native number.
-- btcd's headers and transactions are fields of a parameter, BtcLib.
use ipfs_blockchain_watcher.Prelude.{ℕ, Bool, String, List, Option}
use ipfs_blockchain_watcher.Prelude.Int.{ℤ}
use ipfs_blockchain_watcher.Prelude.Results.{Result}
use ipfs_blockchain_watcher.Eth.Types.{BlockModel}

pub record HeaderModel : Type 0 where
  pub id : ℤ
  pub block_number : String
  pub block_hash : String
  pub parent_hash : String
  pub cid : String
  pub mh_key : String
  pub timestamp : ℤ
  pub bits : ℕ
  pub node_id : ℤ
  pub times_validated : ℤ

pub record TxModel : Type 0 where
  pub id : ℤ
  pub header_id : ℤ
  pub index : ℤ
  pub tx_hash : String
  pub cid : String
  pub mh_key : String
  pub seg_wit : Bool
  pub witness_hash : String

pub record TxInput : Type 0 where
  pub id : ℤ
  pub tx_id : ℤ
  pub index : ℤ
  pub tx_witness : List String
  pub signature_script : List ℕ
  pub previous_out_point_index : ℕ
  pub previous_out_point_hash : String

pub record TxOutput : Type 0 where
  pub id : ℤ
  pub tx_id : ℤ
  pub index : ℤ
  pub value : ℤ
  pub pk_script : List ℕ
  pub script_class : ℕ
  pub required_sigs : ℤ
  pub addresses : List String

pub record TxModelWithInsAndOuts : Type 0 where
  pub id : ℤ
  pub header_id : ℤ
  pub index : ℤ
  pub tx_hash : String
  pub cid : String
  pub mh_key : String
  pub seg_wit : Bool
  pub witness_hash : String
  pub tx_inputs : List TxInput
  pub tx_outputs : List TxOutput

pub record HeaderFilter : Type 0 where
  pub off : Bool

pub record TxFilter : Type 0 where
  pub off : Bool
  pub segwit : Bool
  pub witness_hashes : List String
  pub indexes : List ℤ
  pub pk_script_classes : List ℕ
  pub multi_sig : Bool
  pub addresses : List String

pub record SubscriptionSettings : Type 0 where
  pub back_fill : Bool
  pub back_fill_only : Bool
  pub start : ℤ
  pub end : ℤ
  pub header_filter : HeaderFilter
  pub tx_filter : TxFilter

-- A *big.Int that was never set is `none`, an unset slice is empty.
pub record Iplds : Type 0 where
  pub block_number : Option ℤ
  pub header : BlockModel
  pub transactions : List BlockModel

-- What the filterer uses of btcd, btcutil, go-cid and go-multihash.
pub record BtcLib : Type 1 where
  pub Header : Type 0
  pub Tx : Type 0
  pub serialize_header : Header → Result (List ℕ)
  -- MsgTx().Serialize
  pub serialize_tx : Tx → Result (List ℕ)
  -- ipld.RawdataToCid with the codec and DBL_SHA2_256, printed.
  pub raw_data_to_cid : ℕ → List ℕ → Result String

module _ (lib : BtcLib) where
  open lib use {Header, Tx}

  pub record BlockPayload : Type 0 where
    pub block_height : ℤ
    pub header : Header
    pub txs : List Tx

  pub record ConvertedPayload : Type 0 where
    pub block_payload : BlockPayload
    pub tx_meta_data : List TxModelWithInsAndOuts
