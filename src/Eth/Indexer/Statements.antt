-- ===== src/Eth/Indexer/Statements.antt =====
-- What the statements of Index for uncles, transactions and receipts ensure.
use mathlib.Core.List.{Mem}
use ipfs_blockchain_watcher.Prelude.{ℕ, ◌≡◌, String, List, Option, none, some, ==_refl, refl}
use ipfs_blockchain_watcher.Sql.{exec}
use ipfs_blockchain_watcher.Sql.Atomic.{Ensures, exec-Ensures}
use ipfs_blockchain_watcher.Sql.Upsert.{
  upsert, upsert-find, upsert-keeps, done, query-Ensures, done-Ensures,
}
use ipfs_blockchain_watcher.Sql.Values.{upsert-Row, upsert-Valued}
use ipfs_blockchain_watcher.Eth.Models.{UncleModel, TxModel, ReceiptModel}
use ipfs_blockchain_watcher.Eth.Indexer.{
  CidPayload, same_child, same_id, index_uncle_cid, index_transaction_cid, index_receipt_cid,
  index_receipt_of, index_transaction_and_receipt,
}
use ipfs_blockchain_watcher.Eth.Indexer.Keeps.{same_child_refl}
use ipfs_blockchain_watcher.Eth.Indexer.Rows.{
  IsUncle, IsTransaction, IsReceipt, Adds, Adds-refl, Adds-trans, same_child_eq, same_id_eq,
}
use ipfs_blockchain_watcher.Eth.Indexer.Changes.{uncles-Adds, transactions-Adds, receipts-Adds}
use ipfs_blockchain_watcher.Eth.Indexer.Links.{UncleIn, ReceiptIn, TransactionIn}

module _ (hex_to_hash : String → ℕ) (bytes_to_hex : List ℕ → String) (payload : CidPayload) where
  pub index_uncle-UncleIn :
      (header_id : ℕ) (uncle : UncleModel)
      → Mem uncle payload.uncle_cids
      → Ensures
          (λ d n.
            UncleIn hex_to_hash bytes_to_hex payload header_id uncle n
            × Adds hex_to_hash bytes_to_hex payload d n)
          (exec (index_uncle_cid header_id uncle))
  unfolding index_uncle_cid
  index_uncle-UncleIn header_id uncle in_payload = exec-Ensures _ _ (λ d.
      let key : ℕ × String = (header_id, uncle.block_hash) in
      let good : IsUncle hex_to_hash bytes_to_hex payload key uncle = (in_payload, refl) in
      (
        (
          (_, upsert-find same_child key uncle (λ old. uncle) d.uncle_cids (same_child_refl key)),
          upsert-Row same_child (IsUncle hex_to_hash bytes_to_hex payload) key uncle d.uncle_cids
              (same_child_refl key) good,
        ),
        uncles-Adds hex_to_hash bytes_to_hex payload d _
            (upsert-keeps same_child key uncle (λ old. uncle) d.uncle_cids)
            (upsert-Valued same_child same_child_eq (IsUncle hex_to_hash bytes_to_hex payload) key
              uncle d.uncle_cids good),
      ))

  index_receipt-ReceiptIn :
      (trx : TxModel) (tx_id : ℕ)
      → Mem trx payload.transaction_cids
      → Ensures
          (λ d n.
            ReceiptIn hex_to_hash bytes_to_hex payload
              (payload.receipt_cids (hex_to_hash trx.tx_hash))
              tx_id
              n
            × Adds hex_to_hash bytes_to_hex payload d n)
          (index_receipt_of hex_to_hash bytes_to_hex payload trx tx_id)
  unfolding index_receipt_of index_receipt_cid
  index_receipt-ReceiptIn trx tx_id in_payload =
      receipt_or_none (payload.receipt_cids (hex_to_hash trx.tx_hash)) refl
    where
      receipt_or_none :
          (receipt : Option ReceiptModel)
          → payload.receipt_cids (hex_to_hash trx.tx_hash) ≡ receipt
          → Ensures
              (λ d n.
                ReceiptIn hex_to_hash bytes_to_hex payload receipt tx_id n
                × Adds hex_to_hash bytes_to_hex payload d n)
              (elim receipt [ none ↦ done | some r ↦ exec (index_receipt_cid tx_id r) ])
      receipt_or_none none e =
          done-Ensures _ (λ d. (tt, Adds-refl hex_to_hash bytes_to_hex payload d))
      receipt_or_none (some r) e = exec-Ensures _ _ (λ d.
          let good : IsReceipt hex_to_hash bytes_to_hex payload tx_id r = (trx, in_payload, e) in
          (
            (
              (_, upsert-find same_id tx_id r (λ old. r) d.receipt_cids (==_refl tx_id)),
              upsert-Row same_id (IsReceipt hex_to_hash bytes_to_hex payload) tx_id r d.receipt_cids
                  (==_refl tx_id) good,
            ),
            receipts-Adds hex_to_hash bytes_to_hex payload d _
                (upsert-keeps same_id tx_id r (λ old. r) d.receipt_cids)
                (upsert-Valued same_id same_id_eq (IsReceipt hex_to_hash bytes_to_hex payload) tx_id
                  r d.receipt_cids good),
          ))

  pub index_transaction-TransactionIn :
      (header_id : ℕ) (trx : TxModel)
      → Mem trx payload.transaction_cids
      → Ensures
          (λ d n.
            TransactionIn hex_to_hash bytes_to_hex payload header_id trx n
            × Adds hex_to_hash bytes_to_hex payload d n)
          (index_transaction_and_receipt hex_to_hash bytes_to_hex payload header_id trx)
  unfolding index_transaction_and_receipt index_transaction_cid
  index_transaction-TransactionIn header_id trx in_payload =
      query-Ensures
        (λ i d n.
          ReceiptIn hex_to_hash bytes_to_hex payload
            (payload.receipt_cids (hex_to_hash trx.tx_hash)) i n
          × Adds hex_to_hash bytes_to_hex payload d n)
        _ _ _
        (λ d n (receipt, kept).
          let key : ℕ × String = (header_id, trx.tx_hash) in
          let out = upsert same_child key trx (λ old. trx) d.transaction_cids in
          let found =
            upsert-find same_child key trx (λ old. trx) d.transaction_cids (same_child_refl key) in
          let good : IsTransaction hex_to_hash bytes_to_hex payload key trx = (in_payload, refl) in
          let its_row =
            upsert-Row same_child (IsTransaction hex_to_hash bytes_to_hex payload) key trx
              d.transaction_cids (same_child_refl key) good in
          (
            (
              out.0,
              kept.keeps.transactions_kept key out.0 found,
              kept.transactions_valued key its_row,
              receipt,
            ),
            Adds-trans hex_to_hash bytes_to_hex payload d (record d { transaction_cids = out.1 }) n
                (transactions-Adds hex_to_hash bytes_to_hex payload d _
                  (upsert-keeps same_child key trx (λ old. trx) d.transaction_cids)
                  (upsert-Valued same_child same_child_eq
                    (IsTransaction hex_to_hash bytes_to_hex payload) key trx d.transaction_cids
                    good))
                kept,
          ))
        (λ tx_id. index_receipt-ReceiptIn trx tx_id in_payload)
