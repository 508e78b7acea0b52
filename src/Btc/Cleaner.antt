-- ===== src/Btc/Cleaner.antt =====
-- pkg/btc/cleaner.go: deleting the data of block ranges, and marking it for revalidation. The log
-- lines are left out.
pub mod Outcome
use Prim.Native.String.{◌++◌ as str_append}
use ipfs_blockchain_watcher.Prelude.{ℕ, String, List, Option, any, str_eq, ◌&&◌, map}
use ipfs_blockchain_watcher.Prelude.Results.{Result}
use ipfs_blockchain_watcher.Shared.ChainType.{
  DataType, unknown_data_type, full, headers, uncles, transactions, receipts, state, storage,
  data_type_name,
}
use ipfs_blockchain_watcher.Sql.{
  Session, Statement, exec, and_then, fail_with, transaction, for_ranges, vacuum, afterwards,
}
use ipfs_blockchain_watcher.Sql.Revalidate.{reset_header}
use ipfs_blockchain_watcher.Btc.Tables.{Db, Targets, no_rows, cascade, in_range, in_header}

-- A DELETE statement, whose joins read the tables.
abbrev pub delete : (Db → Targets) → Statement Db
delete targets = exec (λ d. cascade (targets d) d)

abbrev pub unrecognized : {D : Type 0} → DataType → Statement D
unrecognized t = fail_with (str_append "btc cleaner unrecognized type: " (data_type_name t))

module _ (rng : ℕ × ℕ) where
  abbrev pub transaction_iplds : Db → Targets
  transaction_iplds d = record no_rows {
    blocks = λ k. any (λ r. str_eq r.mh_key k && in_header rng d r) d.transaction_cids;
  }

  abbrev pub transaction_meta_data : Db → Targets
  transaction_meta_data d = record no_rows { transaction_cids = in_header rng d }

  abbrev pub header_iplds : Db → Targets
  header_iplds d = record no_rows {
    blocks = λ k. any (λ h. str_eq h.mh_key k && in_range rng h) d.header_cids;
  }

  abbrev pub header_meta_data : Db → Targets
  header_meta_data d = record no_rows { header_cids = in_range rng }

  unfoldable pub clean_full : Statement Db
  clean_full =
      and_then (delete transaction_iplds) (and_then (delete header_iplds) (delete header_meta_data))

  unfoldable pub clean : DataType → Statement Db
  clean full = clean_full
  clean headers = clean_full
  clean transactions = and_then (delete transaction_iplds) (delete transaction_meta_data)
  clean uncles = unrecognized uncles
  clean receipts = unrecognized receipts
  clean state = unrecognized state
  clean storage = unrecognized storage
  clean unknown_data_type = unrecognized unknown_data_type

-- c.vacuumTxs, TxInputs, TxOutputs and IPLDs
abbrev pub vacuum_transactions : Statement Db
vacuum_transactions = and_then vacuum (and_then vacuum (and_then vacuum vacuum))

unfoldable pub vacuum_analyze : DataType → Statement Db
vacuum_analyze full = and_then vacuum vacuum_transactions
vacuum_analyze headers = and_then vacuum vacuum_transactions
vacuum_analyze transactions = vacuum_transactions
vacuum_analyze uncles = unrecognized uncles
vacuum_analyze receipts = unrecognized receipts
vacuum_analyze state = unrecognized state
vacuum_analyze storage = unrecognized storage
vacuum_analyze unknown_data_type = unrecognized unknown_data_type

unfoldable pub clean_all :
    List (ℕ × ℕ) → DataType → (ℕ → Option String) → Session Db → Session Db × Result (Unit {0})
clean_all rngs t fault s =
    afterwards (vacuum_analyze t) fault (transaction (for_ranges (λ rng. clean rng t) rngs) fault s)

-- UPDATE btc.header_cids SET times_validated = 0 WHERE block_number BETWEEN $1 AND $2
unfoldable pub reset_validation :
    List (ℕ × ℕ) → (ℕ → Option String) → Session Db → Session Db × Result (Unit {0})
unfolding reset_header for_ranges
reset_validation rngs = transaction (
    for_ranges (λ rng. exec (λ d. record d { header_cids = map (reset_header rng) d.header_cids }))
      rngs)
