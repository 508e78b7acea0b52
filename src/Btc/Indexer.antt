-- ===== src/Btc/Indexer.antt =====
-- pkg/btc/indexer.go: writing the CIDs of a Bitcoin block to the tables, as in Eth.Indexer. A transaction
-- has its hash as its key, and a block that has it again takes it over. Log lines are left out.
pub mod Rows
pub mod Links
pub mod Outcome
use ipfs_blockchain_watcher.Prelude.{ℕ, ◌==◌, ◌&&◌, Bool, String, List, Option, str_eq}
use ipfs_blockchain_watcher.Prelude.Int.{ℤ, pos, ◌+ℤ◌, eq_ℤ}
use ipfs_blockchain_watcher.Prelude.Results.{Result}
use ipfs_blockchain_watcher.Sql.{Session, Statement, exec, and_then}
use ipfs_blockchain_watcher.Sql.Upsert.{Table, upsert, query, for_each, deferred_commit}
use ipfs_blockchain_watcher.Btc.Types.{HeaderModel, TxInput, TxOutput, TxModelWithInsAndOuts}

pub record CidPayload : Type 0 where
  pub header_cid : HeaderModel
  pub transaction_cids : List TxModelWithInsAndOuts

abbrev pub same_header : String × String → String × String → Bool
same_header a b = str_eq a.0 b.0 && str_eq a.1 b.1

abbrev pub same_hash : String → String → Bool
same_hash a b = str_eq a b

abbrev pub same_part : ℕ × ℤ → ℕ × ℤ → Bool
same_part a b = (a.0 == b.0) && eq_ℤ a.1 b.1

pub record Index : Type 0 where
  pub header_cids : Table (String × String) HeaderModel
  pub transaction_cids : Table String TxModelWithInsAndOuts
  pub tx_inputs : Table (ℕ × ℤ) TxInput
  pub tx_outputs : Table (ℕ × ℤ) TxOutput

-- times_validated is 1, or one more than it was.
unfoldable pub index_header_cid : ℤ → HeaderModel → Index → ℕ × Index
index_header_cid node_id header d =
    let row = record header { node_id = node_id } in
    let (id, t) =
      upsert same_header (header.block_number, header.block_hash)
        (record row { times_validated = pos 1 })
        (λ old. record row { times_validated = old.times_validated +ℤ pos 1 }) d.header_cids in
    (id, record d { header_cids = t })

unfoldable pub index_transaction_cid : ℕ → TxModelWithInsAndOuts → Index → ℕ × Index
index_transaction_cid header_id trx d =
    let row = record trx { header_id = pos header_id } in
    let (id, t) = upsert same_hash trx.tx_hash row (λ old. row) d.transaction_cids in
    (id, record d { transaction_cids = t })

unfoldable pub index_tx_input : ℕ → TxInput → Index → Index
index_tx_input tx_id input d = record d {
  tx_inputs = (upsert same_part (tx_id, input.index) input (λ old. input) d.tx_inputs).1;
}

unfoldable pub index_tx_output : ℕ → TxOutput → Index → Index
index_tx_output tx_id output d = record d {
  tx_outputs = (upsert same_part (tx_id, output.index) output (λ old. output) d.tx_outputs).1;
}

-- The inputs and the outputs of a transaction.
unfoldable pub index_parts : TxModelWithInsAndOuts → ℕ → Statement Index
index_parts trx tx_id =
    and_then (for_each (λ input. exec (index_tx_input tx_id input)) trx.tx_inputs)
      (for_each (λ output. exec (index_tx_output tx_id output)) trx.tx_outputs)

unfoldable pub index_transaction : ℕ → TxModelWithInsAndOuts → Statement Index
unfolding index_parts
index_transaction header_id trx = query (index_transaction_cid header_id trx) (index_parts trx)

unfoldable pub index_transaction_cids : CidPayload → ℕ → Statement Index
unfolding index_transaction
index_transaction_cids payload header_id =
    for_each (index_transaction header_id) payload.transaction_cids

-- Index of a *CIDPayload.
unfoldable pub index :
    ℤ → CidPayload → (ℕ → Option String) → Session Index → Session Index × Result (Unit {0})
unfolding index_transaction_cids index_header_cid
index node_id payload =
    deferred_commit
      (query (index_header_cid node_id payload.header_cid) (index_transaction_cids payload))
