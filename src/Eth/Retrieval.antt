-- ===== src/Eth/Retrieval.antt =====
-- pkg/eth/cid_retriever.go: the WHERE clauses of the statements that select cached CIDs for a
-- subscriber's historical data, as tests of one row. `&&` on SQL arrays asks for a common element,
-- `= ANY` for membership. A clause with no condition between its parentheses is malformed.
pub mod Receipts
use ipfs_blockchain_watcher.Prelude.{
  ℕ, ◌+◌, ◌==◌, Bool, true, false, ◌&&◌, ◌||◌, not, String, List, [], ◌∷◌, Option, none, some, any,
  ltb, is_empty, has_string, str_eq, if◌then◌else◌,
}
use ipfs_blockchain_watcher.Prelude.Int.{ℤ, eq_ℤ}
use ipfs_blockchain_watcher.Eth.Settings.{TxFilter, ReceiptFilter, StateFilter, StorageFilter}
use ipfs_blockchain_watcher.Eth.Models.{TxModel, ReceiptModel}

-- a && b
abbrev pub overlaps : List String → List String → Bool
overlaps column wanted = any (λ x. has_string wanted x) column

-- RetrieveTxCIDs
unfoldable pub tx_where : TxFilter → TxModel → Bool
tx_where filter row =
    (is_empty filter.dst || has_string filter.dst row.dst)
    && (is_empty filter.src || has_string filter.src row.src)

unfoldable pub has_topics : List (List String) → Bool
has_topics topics = any (λ topic_set. not (is_empty topic_set)) topics

-- receipt_cids.topic%ds
unfoldable pub topic_column : ReceiptModel → ℕ → List String
topic_column row ℕ.zero = row.topic0s
topic_column row (ℕ.suc ℕ.zero) = row.topic1s
topic_column row (ℕ.suc (ℕ.suc ℕ.zero)) = row.topic2s
topic_column row (ℕ.suc (ℕ.suc (ℕ.suc n))) = row.topic3s

-- The conditions that the loop over the topic slots joins with AND: those of slots 0 to 3 that
-- are not empty. `none` is a clause with no condition.
unfoldable pub topic_clause : ReceiptModel → ℕ → List (List String) → Option Bool
topic_clause row i [] = none
topic_clause row i (topic_set ∷ topics) =
    let rest = topic_clause row (i + 1) topics in
    if ltb i 4 && not (is_empty topic_set)
    then elim rest [
      | none ↦ some (overlaps (topic_column row i) topic_set)
      | some more ↦ some (overlaps (topic_column row i) topic_set && more)
    ]
    else rest

-- RetrieveRctCIDsByHeaderID: `none` where the statement has a syntax error.
unfoldable pub rct_where : ReceiptFilter → List ℤ → ReceiptModel → Option Bool
rct_where filter trx_ids row =
    let matching = filter.match_txs && not (is_empty trx_ids) in
    let of_tx = matching && any (λ id. eq_ℤ id row.tx_id) trx_ids in
    let logs = overlaps row.log_contracts filter.log_addresses in
    let clause = topic_clause row 0 filter.topics in
    if not (is_empty filter.log_addresses)
    then (if has_topics filter.topics
        then elim clause [ none ↦ none | some topics ↦ some ((logs && topics) || of_tx) ]
        else some (logs || of_tx))
    else (if has_topics filter.topics
        then elim clause [ none ↦ none | some topics ↦ some (topics || of_tx) ]
        else some (if matching then of_tx else true))

-- RetrieveStateCIDs; state_leaf_key is compared with the hashes of the addresses.
unfoldable pub state_where : (String → String) → StateFilter → String → ℕ → Bool
state_where address_hash filter state_leaf_key node_type =
    (is_empty filter.addresses
      || any (λ addr. str_eq (address_hash addr) state_leaf_key) filter.addresses)
    && (filter.intermediate_nodes || (node_type == 2))

-- RetrieveStorageCIDs
unfoldable pub storage_where : (String → String) → StorageFilter → String → String → ℕ → Bool
storage_where address_hash filter state_leaf_key storage_leaf_key node_type =
    ((is_empty filter.addresses
        || any (λ addr. str_eq (address_hash addr) state_leaf_key) filter.addresses)
      && (is_empty filter.storage_keys || has_string filter.storage_keys storage_leaf_key))
    && (filter.intermediate_nodes || (node_type == 2))
