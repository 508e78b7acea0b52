-- ===== src/Eth/Types.antt =====
-- pkg/eth/types.go and pkg/eth/helpers.go: the payloads. A common.Hash is the number of its 32
-- bytes. go-ethereum's headers, transactions and receipts, and what the filterer calls of them,
-- are the fields of a parameter, EthLib.
pub mod NodeTypes
use ipfs_blockchain_watcher.Prelude.{ℕ, Bool, String, List, Option}
use ipfs_blockchain_watcher.Prelude.Int.{ℤ, pos, negsuc}
use ipfs_blockchain_watcher.Prelude.Results.{Result}
use ipfs_blockchain_watcher.Eth.Models.{TxModel, ReceiptModel}

-- statediff.NodeType is a string; any other than the five names is `other`.
pub data NodeType : Type 0 where
  unknown branch extension leaf removed : NodeType
  other : String → NodeType

unfoldable pub resolve_from_node_type : NodeType → ℤ
resolve_from_node_type branch = pos 0
resolve_from_node_type extension = pos 1
resolve_from_node_type leaf = pos 2
resolve_from_node_type removed = pos 3
resolve_from_node_type _ = negsuc 0

unfoldable pub resolve_to_node_type : ℤ → NodeType
resolve_to_node_type (pos ℕ.zero) = branch
resolve_to_node_type (pos (ℕ.suc ℕ.zero)) = extension
resolve_to_node_type (pos (ℕ.suc (ℕ.suc ℕ.zero))) = leaf
resolve_to_node_type (pos (ℕ.suc (ℕ.suc (ℕ.suc ℕ.zero)))) = removed
resolve_to_node_type _ = unknown

-- stateNode.Type == statediff.Leaf
unfoldable pub is_leaf : NodeType → Bool
is_leaf leaf = Bool.true
is_leaf _ = Bool.false

pub record TrieNode : Type 0 where
  pub path : List ℕ
  pub leaf_key : ℕ
  pub value : List ℕ
  pub type : NodeType

-- ipfs.BlockModel
pub record BlockModel : Type 0 where
  pub data_bytes : List ℕ
  pub cid : String

pub record StateNode : Type 0 where
  pub type : NodeType
  pub state_leaf_key : ℕ
  pub path : List ℕ
  pub ipld : BlockModel

pub record StorageNode : Type 0 where
  pub type : NodeType
  pub state_leaf_key : ℕ
  pub storage_leaf_key : ℕ
  pub path : List ℕ
  pub ipld : BlockModel

-- A *big.Int that was never set is `none`, an unset slice is empty.
pub record Iplds : Type 0 where
  pub block_number : Option ℤ
  pub total_difficulty : Option ℤ
  pub header : BlockModel
  pub uncles : List BlockModel
  pub transactions : List BlockModel
  pub receipts : List BlockModel
  pub state_nodes : List StateNode
  pub storage_nodes : List StorageNode

-- What the filterer uses of go-ethereum, go-cid and go-multihash.
pub record EthLib : Type 1 where
  pub Header : Type 0
  pub Tx : Type 0
  pub Receipt : Type 0
  pub encode_header : Header → Result (List ℕ)
  pub encode_tx : Tx → Result (List ℕ)
  pub encode_receipt : Receipt → Result (List ℕ)
  pub tx_hash : Tx → ℕ
  pub receipt_tx_hash : Receipt → ℕ
  -- ipld.RawdataToCid with the codec and KECCAK_256, printed.
  pub raw_data_to_cid : ℕ → List ℕ → Result String
  -- crypto.Keccak256Hash(common.HexToAddress(addr).Bytes())
  pub address_hash : String → ℕ
  -- common.HexToHash
  pub hex_to_hash : String → ℕ
  -- common.Bytes2Hex
  pub bytes_to_hex : List ℕ → String

module _ (lib : EthLib) where
  open lib use {Header, Tx, Receipt}

  pub record Block : Type 0 where
    pub number : ℤ
    pub header : Header
    pub uncles : List Header
    pub transactions : List Tx

  pub record ConvertedPayload : Type 0 where
    pub total_difficulty : ℤ
    pub block : Block
    pub tx_meta_data : List TxModel
    pub receipts : List Receipt
    pub receipt_meta_data : List ReceiptModel
    pub state_nodes : List TrieNode
    pub storage_nodes : List (String × List TrieNode)
