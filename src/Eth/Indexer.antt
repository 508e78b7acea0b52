-- ===== src/Eth/Indexer.antt =====
-- pkg/eth/indexer.go: writing the CIDs of a block to the tables. A row's key has its foreign key; the
-- other columns are those of its model. A map of Go is a function; block numbers are compared as
-- texts. Log lines are left out.
pub mod Keeps
pub mod Rows
pub mod Changes
pub mod Links
pub mod Statements
pub mod Nodes
pub mod Outcome
pub mod Success
use ipfs_blockchain_watcher.Prelude.{
  ℕ, ◌==◌, ◌&&◌, Bool, true, String, List, Option, none, some, str_eq, not, if◌then◌else◌,
}
use ipfs_blockchain_watcher.Prelude.Int.{ℤ, pos, ◌+ℤ◌, eq_ℤ}
use ipfs_blockchain_watcher.Prelude.Results.{Result}
use ipfs_blockchain_watcher.Shared.Names.{same_text}
use ipfs_blockchain_watcher.Sql.{Session, Statement, exec, and_then}
use ipfs_blockchain_watcher.Sql.Upsert.{Table, upsert, query, done, for_each, deferred_commit}
use ipfs_blockchain_watcher.Eth.Models.{
  HeaderModel, UncleModel, TxModel, ReceiptModel, StateNodeModel,
}

pub record StorageNodeModel : Type 0 where
  pub id : ℤ
  pub state_id : ℤ
  pub path : List ℕ
  pub storage_key : String
  pub node_type : ℤ
  pub cid : String
  pub mh_key : String
  pub diff : Bool

pub record StateAccountModel : Type 0 where
  pub id : ℤ
  pub state_id : ℤ
  pub balance : String
  pub nonce : ℕ
  pub code_hash : List ℕ
  pub storage_root : String

pub record CidPayload : Type 0 where
  pub header_cid : HeaderModel
  pub uncle_cids : List UncleModel
  pub transaction_cids : List TxModel
  pub receipt_cids : ℕ → Option ReceiptModel
  pub state_node_cids : List StateNodeModel
  pub state_accounts : String → Option StateAccountModel
  pub storage_node_cids : String → List StorageNodeModel

-- The unique keys of the tables.
abbrev pub same_header : String × String → String × String → Bool
same_header a b = str_eq a.0 b.0 && str_eq a.1 b.1

abbrev pub same_child : ℕ × String → ℕ × String → Bool
same_child a b = (a.0 == b.0) && str_eq a.1 b.1

-- With the path, for rows whose diff is true, as all are that the indexer writes.
abbrev pub same_node : ℕ × List ℕ → ℕ × List ℕ → Bool
same_node a b = (a.0 == b.0) && same_text a.1 b.1

abbrev pub same_id : ℕ → ℕ → Bool
same_id a b = a == b

pub record Index : Type 0 where
  pub header_cids : Table (String × String) HeaderModel
  pub uncle_cids : Table (ℕ × String) UncleModel
  pub transaction_cids : Table (ℕ × String) TxModel
  pub receipt_cids : Table ℕ ReceiptModel
  pub state_cids : Table (ℕ × List ℕ) StateNodeModel
  pub state_accounts : Table ℕ StateAccountModel
  pub storage_cids : Table (ℕ × List ℕ) StorageNodeModel

-- nullHash.String()
abbrev pub null_hash : String
null_hash = "0x0000000000000000000000000000000000000000000000000000000000000000"

-- times_validated is 1, or one more than it was.
unfoldable pub index_header_cid : ℤ → HeaderModel → Index → ℕ × Index
index_header_cid node_id header d =
    let row = record header { node_id = node_id } in
    let (id, t) =
      upsert same_header (header.block_number, header.block_hash)
        (record row { times_validated = pos 1 })
        (λ old. record row { times_validated = old.times_validated +ℤ pos 1 }) d.header_cids in
    (id, record d { header_cids = t })

unfoldable pub index_uncle_cid : ℕ → UncleModel → Index → Index
index_uncle_cid header_id uncle d = record d {
  uncle_cids =
      (upsert same_child (header_id, uncle.block_hash) uncle (λ old. uncle) d.uncle_cids).1;
}

unfoldable pub index_transaction_cid : ℕ → TxModel → Index → ℕ × Index
index_transaction_cid header_id trx d =
    let (id, t) = upsert same_child (header_id, trx.tx_hash) trx (λ old. trx) d.transaction_cids in
    (id, record d { transaction_cids = t })

unfoldable pub index_receipt_cid : ℕ → ReceiptModel → Index → Index
index_receipt_cid tx_id receipt d = record d {
  receipt_cids = (upsert same_id tx_id receipt (λ old. receipt) d.receipt_cids).1;
}

-- The null hash is written as an empty key.
unfoldable pub state_row : StateNodeModel → StateNodeModel
state_row node = record node {
  state_key = if not (str_eq node.state_key null_hash) then node.state_key else "";
  diff = true;
}

unfoldable pub index_state_cid : ℕ → StateNodeModel → Index → ℕ × Index
unfolding state_row
index_state_cid header_id node d =
    let (id, t) =
      upsert same_node (header_id, node.path) (state_row node) (λ old. state_row node)
        d.state_cids in
    (id, record d { state_cids = t })

unfoldable pub index_state_account : ℕ → StateAccountModel → Index → Index
index_state_account state_id account d = record d {
  state_accounts = (upsert same_id state_id account (λ old. account) d.state_accounts).1;
}

unfoldable pub storage_row : StorageNodeModel → StorageNodeModel
storage_row node = record node {
  storage_key = if not (str_eq node.storage_key null_hash) then node.storage_key else "";
  diff = true;
}

unfoldable pub index_storage_cid : ℕ → StorageNodeModel → Index → Index
unfolding storage_row
index_storage_cid state_id node d = record d {
  storage_cids =
      (upsert same_node (state_id, node.path) (storage_row node) (λ old. storage_row node)
        d.storage_cids).1;
}

-- common.HexToHash and common.Bytes2Hex.
module _ (hex_to_hash : String → ℕ) (bytes_to_hex : List ℕ → String) where
  -- `if ok { ... indexReceiptCID(...) ... }`
  unfoldable pub index_receipt_of : CidPayload → TxModel → ℕ → Statement Index
  index_receipt_of payload trx tx_id = elim (payload.receipt_cids (hex_to_hash trx.tx_hash)) [
    | none ↦ done
    | some receipt ↦ exec (index_receipt_cid tx_id receipt)
  ]

  unfoldable pub index_transaction_and_receipt : CidPayload → ℕ → TxModel → Statement Index
  unfolding index_receipt_of
  index_transaction_and_receipt payload header_id trx =
      query (index_transaction_cid header_id trx) (index_receipt_of payload trx)

  unfoldable pub index_account_of : CidPayload → String → ℕ → Statement Index
  index_account_of payload path state_id = elim (payload.state_accounts path) [
    | none ↦ done
    | some account ↦ exec (index_state_account state_id account)
  ]

  -- `if stateCID.NodeType == 2 { ... }`
  unfoldable pub index_leaf : CidPayload → StateNodeModel → ℕ → Statement Index
  unfolding index_account_of
  index_leaf payload node state_id =
      if eq_ℤ node.node_type (pos 2)
      then and_then
          (for_each (λ s. exec (index_storage_cid state_id s))
            (payload.storage_node_cids (bytes_to_hex node.path)))
          (index_account_of payload (bytes_to_hex node.path) state_id)
      else done

  unfoldable pub index_state_and_storage : CidPayload → ℕ → StateNodeModel → Statement Index
  unfolding index_leaf
  index_state_and_storage payload header_id node =
      query (index_state_cid header_id node) (index_leaf payload node)

  -- What Index does in its transaction after the header.
  unfoldable pub index_rest : CidPayload → ℕ → Statement Index
  unfolding index_transaction_and_receipt index_state_and_storage
  index_rest payload header_id =
      and_then (for_each (λ uncle. exec (index_uncle_cid header_id uncle)) payload.uncle_cids) (
        and_then
          (for_each (index_transaction_and_receipt payload header_id) payload.transaction_cids)
          (for_each (index_state_and_storage payload header_id) payload.state_node_cids))

  -- Index of a *CIDPayload.
  unfoldable pub index :
      ℤ → CidPayload → (ℕ → Option String) → Session Index → Session Index × Result (Unit {0})
  unfolding index_rest index_header_cid
  index node_id payload =
      deferred_commit (query (index_header_cid node_id payload.header_cid) (index_rest payload))
