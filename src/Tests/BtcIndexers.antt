-- ===== src/Tests/BtcIndexers.antt =====
-- The Bitcoin indexer at a concrete block.
use ipfs_blockchain_watcher.Prelude.{
  ℕ, String, [], ◌∷◌, Option, none, some, false, ◌==◌, if◌then◌else◌,
}
use ipfs_blockchain_watcher.Prelude.Int.{pos}
use ipfs_blockchain_watcher.Sql.{Session}
use ipfs_blockchain_watcher.Sql.Upsert.{Table}
use ipfs_blockchain_watcher.Btc.Types.{HeaderModel, TxInput, TxOutput, TxModelWithInsAndOuts}
use ipfs_blockchain_watcher.Btc.Indexer.{CidPayload, Index, index}

abbrev header_1 : HeaderModel
header_1 = record {
  id = pos 0;
  block_number = "1";
  block_hash = "aa";
  parent_hash = "bb";
  cid = "h";
  mh_key = "mhh";
  timestamp = pos 9;
  bits = 3;
  node_id = pos 0;
  times_validated = pos 0;
}

abbrev input_0 : TxInput
input_0 = record {
  id = pos 0;
  tx_id = pos 0;
  index = pos 0;
  tx_witness = [];
  signature_script = [];
  previous_out_point_index = 0;
  previous_out_point_hash = "cc";
}

abbrev output_0 : TxOutput
output_0 = record {
  id = pos 0;
  tx_id = pos 0;
  index = pos 0;
  value = pos 50;
  pk_script = [];
  script_class = 2;
  required_sigs = pos 1;
  addresses = [];
}

abbrev trx_1 : TxModelWithInsAndOuts
trx_1 = record {
  id = pos 0;
  header_id = pos 0;
  index = pos 0;
  tx_hash = "dd";
  cid = "t";
  mh_key = "mht";
  seg_wit = false;
  witness_hash = "";
  tx_inputs = input_0 ∷ [];
  tx_outputs = output_0 ∷ [];
}

abbrev block_1 : CidPayload
block_1 = record { header_cid = header_1; transaction_cids = trx_1 ∷ [] }

abbrev no_entries : {K V : Type 0} → Table K V
no_entries = record { next_id = 1; entries = [] }

abbrev empty_index : Session Index
empty_index = record {
  next = 0;
  tables = record {
    header_cids = no_entries;
    transaction_cids = no_entries;
    tx_inputs = no_entries;
    tx_outputs = no_entries;
  };
}

-- Beginx and four statements succeed, and the Commit is refused.
abbrev commit_refused : ℕ → Option String
commit_refused n = if n == 5 then some "violates foreign key constraint" else none
