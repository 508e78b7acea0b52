-- ===== src/Eth/Cleaner.antt =====
-- pkg/eth/cleaner.go: deleting the data of block ranges, and marking it for revalidation. The log
-- lines are left out.
pub mod Removal
pub mod Outcome
pub mod Revalidation
pub mod Sharing
pub mod Success
use Prim.Native.String.{◌++◌ as str_append}
use ipfs_blockchain_watcher.Prelude.{
  ℕ, ◌≡◌, String, List, [], ◌∷◌, Option, any, str_eq, ◌&&◌, map, if◌then◌else◌,
}
use ipfs_blockchain_watcher.Prelude.Results.{Result, ok, err, panic}
use ipfs_blockchain_watcher.Shared.ChainType.{
  DataType, unknown_data_type, full, headers, uncles, transactions, receipts, state, storage,
  data_type_name,
}
use ipfs_blockchain_watcher.Sql.{
  Session, Statement, exec, and_then, fail_with, transaction, for_ranges, vacuum, afterwards,
}
use ipfs_blockchain_watcher.Sql.Revalidate.{reset_header}
use ipfs_blockchain_watcher.Sql.Rows.{HeaderRow, between}
use ipfs_blockchain_watcher.Eth.Tables.{Db, Targets, no_rows, cascade}
use ipfs_blockchain_watcher.Eth.Tables.Ranges.{in_range, in_header, transaction_in, state_in}

-- A DELETE statement, whose joins read the tables.
abbrev pub delete : (Db → Targets) → Statement Db
delete targets = exec (λ d. cascade (targets d) d)

-- The rows of the index tables whose blocks, or that themselves, are deleted.
module _ (rng : ℕ × ℕ) where
  abbrev pub storage_iplds : Db → Targets
  storage_iplds d = record no_rows {
    blocks = λ k. any (λ r. str_eq r.mh_key k && state_in rng d r.parent) d.storage_cids;
  }

  abbrev pub storage_meta_data : Db → Targets
  storage_meta_data d = record no_rows { storage_cids = λ r. state_in rng d r.parent }

  abbrev pub state_iplds : Db → Targets
  state_iplds d = record no_rows {
    blocks = λ k. any (λ r. str_eq r.mh_key k && in_header rng d r) d.state_cids;
  }

  abbrev pub state_meta_data : Db → Targets
  state_meta_data d = record no_rows { state_cids = in_header rng d }

  abbrev pub receipt_iplds : Db → Targets
  receipt_iplds d = record no_rows {
    blocks = λ k. any (λ r. str_eq r.mh_key k && transaction_in rng d r.parent) d.receipt_cids;
  }

  abbrev pub receipt_meta_data : Db → Targets
  receipt_meta_data d = record no_rows { receipt_cids = λ r. transaction_in rng d r.parent }

  abbrev pub transaction_iplds : Db → Targets
  transaction_iplds d = record no_rows {
    blocks = λ k. any (λ r. str_eq r.mh_key k && in_header rng d r) d.transaction_cids;
  }

  abbrev pub transaction_meta_data : Db → Targets
  transaction_meta_data d = record no_rows { transaction_cids = in_header rng d }

  abbrev pub uncle_iplds : Db → Targets
  uncle_iplds d = record no_rows {
    blocks = λ k. any (λ r. str_eq r.mh_key k && in_header rng d r) d.uncle_cids;
  }

  abbrev pub uncle_meta_data : Db → Targets
  uncle_meta_data d = record no_rows { uncle_cids = in_header rng d }

  abbrev pub header_iplds : Db → Targets
  header_iplds d = record no_rows {
    blocks = λ k. any (λ h. str_eq h.mh_key k && in_range rng h) d.header_cids;
  }

  abbrev pub header_meta_data : Db → Targets
  header_meta_data d = record no_rows { header_cids = in_range rng }

  unfoldable pub clean_full : Statement Db
  clean_full = and_then (delete storage_iplds) (
      and_then (delete state_iplds) (
        and_then (delete receipt_iplds) (
          and_then (delete transaction_iplds) (
            and_then (delete uncle_iplds)
              (and_then (delete header_iplds) (delete header_meta_data))))))

  unfoldable pub clean : DataType → Statement Db
  clean full = clean_full
  clean headers = clean_full
  clean uncles = and_then (delete uncle_iplds) (delete uncle_meta_data)
  clean transactions =
      and_then (delete receipt_iplds)
        (and_then (delete transaction_iplds) (delete transaction_meta_data))
  clean receipts = and_then (delete receipt_iplds) (delete receipt_meta_data)
  clean state =
      and_then (delete storage_iplds) (and_then (delete state_iplds) (delete state_meta_data))
  clean storage = and_then (delete storage_iplds) (delete storage_meta_data)
  clean unknown_data_type =
      fail_with (str_append "eth cleaner unrecognized type: " (data_type_name unknown_data_type))

-- c.vacuumHeaders, Uncles, Txs, Rcts, State, Accounts and Storage
unfoldable pub vacuum_full : Statement Db
vacuum_full =
    and_then vacuum (
      and_then vacuum
        (and_then vacuum (and_then vacuum (and_then vacuum (and_then vacuum vacuum)))))

-- The last one is c.vacuumIPLDs; after vacuumFull it is not reached.
unfoldable pub vacuum_analyze : DataType → Statement Db
vacuum_analyze full = vacuum_full
vacuum_analyze headers = vacuum_full
vacuum_analyze uncles = and_then vacuum vacuum
vacuum_analyze transactions = and_then vacuum (and_then vacuum vacuum)
vacuum_analyze receipts = and_then vacuum vacuum
vacuum_analyze state = and_then vacuum (and_then vacuum (and_then vacuum vacuum))
vacuum_analyze storage = and_then vacuum vacuum
vacuum_analyze unknown_data_type =
    fail_with (str_append "eth cleaner unrecognized type: " (data_type_name unknown_data_type))

unfoldable pub clean_all :
    List (ℕ × ℕ) → DataType → (ℕ → Option String) → Session Db → Session Db × Result (Unit {0})
clean_all rngs t fault s =
    afterwards (vacuum_analyze t) fault (transaction (for_ranges (λ rng. clean rng t) rngs) fault s)

unfoldable pub reset_validation :
    List (ℕ × ℕ) → (ℕ → Option String) → Session Db → Session Db × Result (Unit {0})
unfolding reset_header for_ranges
reset_validation rngs = transaction (
    for_ranges (λ rng. exec (λ d. record d { header_cids = map (reset_header rng) d.header_cids }))
      rngs)
