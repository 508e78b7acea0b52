-- ===== src/Tests/Indexers.antt =====
-- The indexer at a concrete block.
use ipfs_blockchain_watcher.Prelude.{
  ℕ, String, List, [], ◌∷◌, Option, none, some, true, ◌==◌, if◌then◌else◌,
}
use ipfs_blockchain_watcher.Prelude.Int.{pos}
use ipfs_blockchain_watcher.Sql.{Session}
use ipfs_blockchain_watcher.Sql.Upsert.{Table}
use ipfs_blockchain_watcher.Eth.Models.{
  HeaderModel, UncleModel, TxModel, ReceiptModel, StateNodeModel,
}
use ipfs_blockchain_watcher.Eth.Indexer.{
  StorageNodeModel, StateAccountModel, CidPayload, Index, index,
}

abbrev header_5 : HeaderModel
header_5 = record {
  id = pos 0;
  block_number = "5";
  block_hash = "0x5a";
  parent_hash = "0x4a";
  cid = "h5";
  mh_key = "mh5";
  total_difficulty = "17";
  node_id = pos 0;
  reward = "2";
  state_root = "0x1";
  uncle_root = "0x2";
  tx_root = "0x3";
  rct_root = "0x4";
  bloom = [];
  timestamp = 7;
  times_validated = pos 0;
}

abbrev uncle_of_5 : UncleModel
uncle_of_5 = record {
  id = pos 0;
  header_id = pos 0;
  block_hash = "0x4b";
  parent_hash = "0x3a";
  cid = "u";
  mh_key = "mhu";
  reward = "1";
}

abbrev trx_of_5 : TxModel
trx_of_5 = record {
  id = pos 0;
  header_id = pos 0;
  index = pos 0;
  tx_hash = "0xa";
  cid = "t";
  mh_key = "mht";
  dst = "d";
  src = "s";
}

abbrev receipt_of_5 : ReceiptModel
receipt_of_5 = record {
  id = pos 0;
  tx_id = pos 0;
  cid = "r";
  mh_key = "mhr";
  contract = "";
  contract_hash = "";
  log_contracts = [];
  topic0s = [];
  topic1s = [];
  topic2s = [];
  topic3s = [];
}

abbrev leaf_of_5 : StateNodeModel
leaf_of_5 = record {
  id = pos 0;
  header_id = pos 0;
  path = 6 ∷ [];
  state_key = "0xk";
  node_type = pos 2;
  cid = "n";
  mh_key = "mhn";
  diff = true;
}

abbrev storage_of_5 : StorageNodeModel
storage_of_5 = record {
  id = pos 0;
  state_id = pos 0;
  path = [];
  storage_key = "0xs";
  node_type = pos 2;
  cid = "g";
  mh_key = "mhg";
  diff = true;
}

abbrev account_of_5 : StateAccountModel
account_of_5 = record {
  id = pos 0;
  state_id = pos 0;
  balance = "1";
  nonce = 1;
  code_hash = [];
  storage_root = "0x5";
}

abbrev block_5 : CidPayload
block_5 = record {
  header_cid = header_5;
  uncle_cids = uncle_of_5 ∷ [];
  transaction_cids = trx_of_5 ∷ [];
  receipt_cids = λ h. if h == 10 then some receipt_of_5 else none;
  state_node_cids = leaf_of_5 ∷ [];
  state_accounts = λ path. some account_of_5;
  storage_node_cids = λ path. storage_of_5 ∷ [];
}

abbrev no_entries : {K V : Type 0} → Table K V
no_entries = record { next_id = 1; entries = [] }

abbrev empty_index : Session Index
empty_index = record {
  next = 0;
  tables = record {
    header_cids = no_entries;
    uncle_cids = no_entries;
    transaction_cids = no_entries;
    receipt_cids = no_entries;
    state_cids = no_entries;
    state_accounts = no_entries;
    storage_cids = no_entries;
  };
}

-- Every text is the hash 10, and a path's text is empty.
abbrev toy_hash : String → ℕ
toy_hash s = 10

abbrev toy_hex : List ℕ → String
toy_hex path = ""

-- Beginx and seven statements succeed, and the Commit is refused.
abbrev commit_refused : ℕ → Option String
commit_refused n = if n == 8 then some "violates foreign key constraint" else none
