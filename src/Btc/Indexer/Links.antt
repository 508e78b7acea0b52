-- ===== src/Btc/Indexer/Links.antt =====
-- After Index every object of a Bitcoin block has its row, under the row that it belongs to.
use mathlib.Core.List.{Mem}
use ipfs_blockchain_watcher.Prelude.{ℕ, ◌≡◌, refl, some, All, All-map, str_eq_refl}
use ipfs_blockchain_watcher.Prelude.Int.{ℤ, pos}
use ipfs_blockchain_watcher.Sql.{exec}
use ipfs_blockchain_watcher.Sql.Atomic.{Ensures, exec-Ensures, and_then-Ensures}
use ipfs_blockchain_watcher.Sql.Upsert.{
  find_id, Has, upsert, upsert-find, upsert-keeps, query-Ensures,
}
use ipfs_blockchain_watcher.Sql.Values.{value_at, Row, upsert-Row, upsert-Valued, for_each-Ensures}
use ipfs_blockchain_watcher.Btc.Types.{TxInput, TxOutput, TxModelWithInsAndOuts}
use ipfs_blockchain_watcher.Btc.Indexer.{
  CidPayload, Index, same_header, same_hash, same_part, index_tx_input, index_tx_output,
  index_parts, index_transaction, index_transaction_cid,
}
use ipfs_blockchain_watcher.Btc.Indexer.Rows.{
  same_part_refl, same_hash_eq, same_part_eq, times_after, Keeps, IsTransaction, IsInput, IsOutput,
  Adds, Adds-refl, Adds-trans,
}

module _ (payload : CidPayload) (header_id : ℕ) where
  abbrev pub InputIn : ℕ → TxInput → Index → Type 0
  InputIn tx_id input d =
      Has same_part (tx_id, input.index) d.tx_inputs
      × Row same_part (IsInput payload header_id) (tx_id, input.index) d.tx_inputs

  abbrev pub OutputIn : ℕ → TxOutput → Index → Type 0
  OutputIn tx_id output d =
      Has same_part (tx_id, output.index) d.tx_outputs
      × Row same_part (IsOutput payload header_id) (tx_id, output.index) d.tx_outputs

  abbrev pub PartsIn : TxModelWithInsAndOuts → ℕ → Index → Type 0
  PartsIn trx tx_id d =
      All (λ i. InputIn tx_id i d) trx.tx_inputs × All (λ o. OutputIn tx_id o d) trx.tx_outputs

  -- A transaction has a row, and its inputs and outputs have rows that belong to it.
  abbrev pub TransactionIn : TxModelWithInsAndOuts → Index → Type 0
  TransactionIn trx d =
      (tx_id : ℕ) × (find_id same_hash trx.tx_hash d.transaction_cids ≡ some tx_id)
      × Row same_hash (IsTransaction payload header_id) trx.tx_hash d.transaction_cids
      × PartsIn trx tx_id d

  InputIn-kept :
      (tx_id : ℕ) (input : TxInput) (d n : Index)
      → Adds payload header_id d n
      → InputIn tx_id input d
      → InputIn tx_id input n
  InputIn-kept tx_id input d n k ((i, h), row) =
      ((i, k.keeps.inputs_kept (tx_id, input.index) i h), k.inputs_valued (tx_id, input.index) row)

  OutputIn-kept :
      (tx_id : ℕ) (output : TxOutput) (d n : Index)
      → Adds payload header_id d n
      → OutputIn tx_id output d
      → OutputIn tx_id output n
  OutputIn-kept tx_id output d n k ((i, h), row) = (
    (i, k.keeps.outputs_kept (tx_id, output.index) i h),
    k.outputs_valued (tx_id, output.index) row,
  )

  pub TransactionIn-kept :
      (trx : TxModelWithInsAndOuts) (d n : Index)
      → Adds payload header_id d n
      → TransactionIn trx d
      → TransactionIn trx n
  TransactionIn-kept trx d n k (i, h, row, parts) = (
    i,
    k.keeps.transactions_kept trx.tx_hash i h,
    k.transactions_valued trx.tx_hash row,
    (
      All-map trx.tx_inputs (λ x. InputIn-kept i x d n k) parts.0,
      All-map trx.tx_outputs (λ x. OutputIn-kept i x d n k) parts.1,
    ),
  )

  input-In :
      (trx : TxModelWithInsAndOuts) (tx_id : ℕ) (input : TxInput)
      → Mem trx payload.transaction_cids
      → Mem input trx.tx_inputs
      → Ensures
          (λ d n. InputIn tx_id input n × Adds payload header_id d n)
          (exec (index_tx_input tx_id input))
  unfolding index_tx_input
  input-In trx tx_id input in_payload in_trx = exec-Ensures _ _ (λ d.
      let key : ℕ × ℤ = (tx_id, input.index) in
      let good : IsInput payload header_id key input = (trx, in_payload, in_trx, refl) in
      (
        (
          (_, upsert-find same_part key input (λ old. input) d.tx_inputs (same_part_refl key)),
          upsert-Row same_part (IsInput payload header_id) key input d.tx_inputs
              (same_part_refl key) good,
        ),
        (record {
          keeps = record {
            headers_kept = λ k i h. h;
            transactions_kept = λ k i h. h;
            inputs_kept = upsert-keeps same_part key input (λ old. input) d.tx_inputs;
            outputs_kept = λ k i h. h;
          };
          headers_same = refl;
          transactions_valued = λ k r. r;
          inputs_valued =
              upsert-Valued same_part same_part_eq (IsInput payload header_id) key input d.tx_inputs
                good;
          outputs_valued = λ k r. r;
        }),
      ))

  output-In :
      (trx : TxModelWithInsAndOuts) (tx_id : ℕ) (output : TxOutput)
      → Mem trx payload.transaction_cids
      → Mem output trx.tx_outputs
      → Ensures
          (λ d n. OutputIn tx_id output n × Adds payload header_id d n)
          (exec (index_tx_output tx_id output))
  unfolding index_tx_output
  output-In trx tx_id output in_payload in_trx = exec-Ensures _ _ (λ d.
      let key : ℕ × ℤ = (tx_id, output.index) in
      let good : IsOutput payload header_id key output = (trx, in_payload, in_trx, refl) in
      (
        (
          (_, upsert-find same_part key output (λ old. output) d.tx_outputs (same_part_refl key)),
          upsert-Row same_part (IsOutput payload header_id) key output d.tx_outputs
              (same_part_refl key) good,
        ),
        (record {
          keeps = record {
            headers_kept = λ k i h. h;
            transactions_kept = λ k i h. h;
            inputs_kept = λ k i h. h;
            outputs_kept = upsert-keeps same_part key output (λ old. output) d.tx_outputs;
          };
          headers_same = refl;
          transactions_valued = λ k r. r;
          inputs_valued = λ k r. r;
          outputs_valued =
              upsert-Valued same_part same_part_eq (IsOutput payload header_id) key output
                d.tx_outputs good;
        }),
      ))

  parts-In :
      (trx : TxModelWithInsAndOuts) (tx_id : ℕ)
      → Mem trx payload.transaction_cids
      → Ensures (λ d n. PartsIn trx tx_id n × Adds payload header_id d n) (index_parts trx tx_id)
  unfolding index_parts
  parts-In trx tx_id in_payload =
      and_then-Ensures
        (λ d m n first last. (
          (All-map trx.tx_inputs (λ x. InputIn-kept tx_id x m n last.1) first.0, last.0),
          Adds-trans payload header_id d m n first.1 last.1,
        ))
        (for_each-Ensures (InputIn tx_id) (Adds payload header_id) _ _ (Adds-refl payload header_id)
          (Adds-trans payload header_id) (λ x d n k. InputIn-kept tx_id x d n k)
          (λ x. input-In trx tx_id x in_payload))
        (for_each-Ensures (OutputIn tx_id) (Adds payload header_id) _ _
          (Adds-refl payload header_id) (Adds-trans payload header_id)
          (λ x d n k. OutputIn-kept tx_id x d n k) (λ x. output-In trx tx_id x in_payload))

  pub transaction-In :
      (trx : TxModelWithInsAndOuts)
      → Mem trx payload.transaction_cids
      → Ensures
          (λ d n. TransactionIn trx n × Adds payload header_id d n)
          (index_transaction header_id trx)
  unfolding index_transaction index_transaction_cid
  transaction-In trx in_payload =
      query-Ensures (λ i d n. PartsIn trx i n × Adds payload header_id d n) _ _ _
        (λ d n (parts, added).
          let row = record trx { header_id = pos header_id } in
          let out = upsert same_hash trx.tx_hash row (λ old. row) d.transaction_cids in
          let good : IsTransaction payload header_id trx.tx_hash row =
            (trx, in_payload, refl, refl) in
          let found =
            upsert-find same_hash trx.tx_hash row (λ old. row) d.transaction_cids
              (str_eq_refl trx.tx_hash) in
          let its_row =
            upsert-Row same_hash (IsTransaction payload header_id) trx.tx_hash row
              d.transaction_cids (str_eq_refl trx.tx_hash) good in
          (
            (
              out.0,
              added.keeps.transactions_kept trx.tx_hash out.0 found,
              added.transactions_valued trx.tx_hash its_row,
              parts,
            ),
            Adds-trans payload header_id d (record d { transaction_cids = out.1 }) n
                (record {
                  keeps = record {
                    headers_kept = λ k i h. h;
                    transactions_kept =
                        upsert-keeps same_hash trx.tx_hash row (λ old. row) d.transaction_cids;
                    inputs_kept = λ k i h. h;
                    outputs_kept = λ k i h. h;
                  };
                  headers_same = refl;
                  transactions_valued =
                      upsert-Valued same_hash same_hash_eq (IsTransaction payload header_id)
                        trx.tx_hash row d.transaction_cids good;
                  inputs_valued = λ k r. r;
                  outputs_valued = λ k r. r;
                })
                added,
          ))
        (λ tx_id. parts-In trx tx_id in_payload)

-- All that the payload has, under the header's id.
pub record Complete (node_id : ℤ) (payload : CidPayload) (d n : Index) : Type 0 where
  pub header_id : ℕ
  pub header_in :
      find_id same_header
        (payload.header_cid.block_number, payload.header_cid.block_hash)
        n.header_cids
      ≡ some header_id
  pub header_row :
      value_at same_header
        (payload.header_cid.block_number, payload.header_cid.block_hash)
        n.header_cids
      ≡ some (record payload.header_cid {
        node_id = node_id;
        times_validated = times_after (
            value_at same_header
              (payload.header_cid.block_number, payload.header_cid.block_hash)
              d.header_cids);
      })
  pub transactions_in : All (λ t. TransactionIn payload header_id t n) payload.transaction_cids
  pub kept : Keeps d n
