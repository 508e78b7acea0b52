-- ===== src/Eth/Indexer/Outcome.antt =====
-- What Index returns, and what it did to the tables then.
use ipfs_blockchain_watcher.Prelude.{
  All-map, ℕ, ◌≡◌, refl, ap, ◌∙◌, String, List, Option, none, some, All,
}
use ipfs_blockchain_watcher.Prelude.Int.{ℤ, pos, ◌+ℤ◌}
use ipfs_blockchain_watcher.Sql.Atomic.{Ensures, and_then-Ensures}
use ipfs_blockchain_watcher.Sql.Upsert.{upsert, upsert-find, upsert-keeps, query, query-Ensures}
use ipfs_blockchain_watcher.Sql.Values.{written, value_at, upsert-value_at, for_each-Ensures}
use ipfs_blockchain_watcher.Eth.Models.{HeaderModel}
use ipfs_blockchain_watcher.Eth.Indexer.{CidPayload, same_header, index_header_cid, index_rest}
use ipfs_blockchain_watcher.Eth.Indexer.Keeps.{Keeps-trans, headers-Keeps, same_header_refl}
use ipfs_blockchain_watcher.Eth.Indexer.Rows.{times_after, Adds, Adds-refl, Adds-trans}
use ipfs_blockchain_watcher.Eth.Indexer.Links.{
  UncleIn, TransactionIn, StateIn, UncleIn-kept, TransactionIn-kept, StateIn-kept, Complete,
}
use ipfs_blockchain_watcher.Eth.Indexer.Statements.{
  index_uncle-UncleIn, index_transaction-TransactionIn,
}
use ipfs_blockchain_watcher.Eth.Indexer.Nodes.{index_state-StateIn}

header_written :
    (node_id : ℤ) (header : HeaderModel) (old : Option HeaderModel)
    → written
        (record header { node_id = node_id; times_validated = pos 1 })
        (λ (o : HeaderModel). record header {
          node_id = node_id;
          times_validated = o.times_validated +ℤ pos 1;
        })
        old
      ≡ record header { node_id = node_id; times_validated = times_after old }
header_written node_id header none = refl
header_written node_id header (some old) = refl

module _ (hex_to_hash : String → ℕ) (bytes_to_hex : List ℕ → String) (payload : CidPayload) where
  index_rest-In :
      (header_id : ℕ)
      → Ensures
          (λ d n.
            (All (λ u. UncleIn hex_to_hash bytes_to_hex payload header_id u n) payload.uncle_cids
              × All
                  (λ t. TransactionIn hex_to_hash bytes_to_hex payload header_id t n)
                  payload.transaction_cids
              × All
                  (λ s. StateIn hex_to_hash bytes_to_hex payload header_id s n)
                  payload.state_node_cids)
            × Adds hex_to_hash bytes_to_hex payload d n)
          (index_rest hex_to_hash bytes_to_hex payload header_id)
  unfolding index_rest
  index_rest-In header_id =
      and_then-Ensures
        (λ d m n first rest. (
          (
            All-map payload.uncle_cids
                (λ u. UncleIn-kept hex_to_hash bytes_to_hex payload header_id u m n rest.1) first.0,
            rest.0.0,
            rest.0.1,
          ),
          Adds-trans hex_to_hash bytes_to_hex payload d m n first.1 rest.1,
        ))
        (for_each-Ensures (UncleIn hex_to_hash bytes_to_hex payload header_id)
          (Adds hex_to_hash bytes_to_hex payload) _ _ (Adds-refl hex_to_hash bytes_to_hex payload)
          (Adds-trans hex_to_hash bytes_to_hex payload)
          (λ u d n k. UncleIn-kept hex_to_hash bytes_to_hex payload header_id u d n k)
          (index_uncle-UncleIn hex_to_hash bytes_to_hex payload header_id))
        (and_then-Ensures
          {Q = λ d n.
            (All (λ t. TransactionIn hex_to_hash bytes_to_hex payload header_id t n)
                payload.transaction_cids
              × All (λ s. StateIn hex_to_hash bytes_to_hex payload header_id s n)
                  payload.state_node_cids)
            × Adds hex_to_hash bytes_to_hex payload d n}
          (λ d m n first rest. (
            (
              All-map payload.transaction_cids
                  (λ t. TransactionIn-kept hex_to_hash bytes_to_hex payload header_id t m n rest.1)
                  first.0,
              rest.0,
            ),
            Adds-trans hex_to_hash bytes_to_hex payload d m n first.1 rest.1,
          ))
          (for_each-Ensures (TransactionIn hex_to_hash bytes_to_hex payload header_id)
            (Adds hex_to_hash bytes_to_hex payload) _ _ (Adds-refl hex_to_hash bytes_to_hex payload)
            (Adds-trans hex_to_hash bytes_to_hex payload)
            (λ t d n k. TransactionIn-kept hex_to_hash bytes_to_hex payload header_id t d n k)
            (index_transaction-TransactionIn hex_to_hash bytes_to_hex payload header_id))
          (for_each-Ensures (StateIn hex_to_hash bytes_to_hex payload header_id)
            (Adds hex_to_hash bytes_to_hex payload) _ _ (Adds-refl hex_to_hash bytes_to_hex payload)
            (Adds-trans hex_to_hash bytes_to_hex payload)
            (λ s d n k. StateIn-kept hex_to_hash bytes_to_hex payload header_id s d n k)
            (index_state-StateIn hex_to_hash bytes_to_hex payload header_id)))

  pub body-Complete :
      (node_id : ℤ)
      → Ensures (Complete hex_to_hash bytes_to_hex payload node_id) (
          query
            (index_header_cid node_id payload.header_cid)
            (index_rest hex_to_hash bytes_to_hex payload))
  unfolding index_header_cid
  body-Complete node_id =
      query-Ensures
        (λ i d n.
          (All (λ u. UncleIn hex_to_hash bytes_to_hex payload i u n) payload.uncle_cids
            × All (λ t. TransactionIn hex_to_hash bytes_to_hex payload i t n)
                payload.transaction_cids
            × All (λ s. StateIn hex_to_hash bytes_to_hex payload i s n) payload.state_node_cids)
          × Adds hex_to_hash bytes_to_hex payload d n)
        _ _ _
        (λ d n (parts, added).
          let key : String × String =
            (payload.header_cid.block_number, payload.header_cid.block_hash) in
          let row = record payload.header_cid { node_id = node_id } in
          let fresh = record row { times_validated = pos 1 } in
          let update =
            λ (old : HeaderModel). record row { times_validated = old.times_validated +ℤ pos 1 } in
          let out = upsert same_header key fresh update d.header_cids in
          let found =
            upsert-find same_header key fresh update d.header_cids (same_header_refl key) in
          record {
            header_id = out.0;
            header_in = added.keeps.headers_kept key out.0 found;
            header_row =
                ap (value_at same_header key) added.headers_same
                ∙ upsert-value_at same_header key fresh update d.header_cids (same_header_refl key)
                ∙ ap some (
                    header_written node_id payload.header_cid
                      (value_at same_header key d.header_cids));
            uncles_in = parts.0;
            transactions_in = parts.1;
            states_in = parts.2;
            kept =
                Keeps-trans d (record d { header_cids = out.1 }) n
                  (headers-Keeps d _ (upsert-keeps same_header key fresh update d.header_cids))
                  added.keeps;
          })
        index_rest-In
