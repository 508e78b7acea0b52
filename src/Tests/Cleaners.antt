-- ===== src/Tests/Cleaners.antt =====
-- The cleaners at concrete tables.
use ipfs_blockchain_watcher.Prelude.{
  ℕ, ◌≡◌, ◌≢◌, refl, String, List, [], ◌∷◌, All, ◌⊎◌, Option, none, some, ◌==◌, if◌then◌else◌,
}
use ipfs_blockchain_watcher.Prelude.Results.{ok}
use ipfs_blockchain_watcher.Shared.ChainType.{state, transactions, unknown_data_type}
use ipfs_blockchain_watcher.Sql.{Session, exec, and_then}
use ipfs_blockchain_watcher.Sql.Atomic.{Atomic}
use ipfs_blockchain_watcher.Sql.Calls.{Failed}
use ipfs_blockchain_watcher.Sql.Runs.{no_fault}
use ipfs_blockchain_watcher.Sql.Rows.{HeaderRow, CidRow}
use ipfs_blockchain_watcher.Eth.Tables.{Db, cascade}
use ipfs_blockchain_watcher.Eth.Tables.Ranges.{header_in, state_in}
use ipfs_blockchain_watcher.Eth.Tables.Consistent.{Consistent}
use ipfs_blockchain_watcher.Eth.Cleaner.{clean, clean_all, reset_validation}
use ipfs_blockchain_watcher.Eth.Cleaner.Removal.{Cleaned}
use ipfs_blockchain_watcher.Eth.Cleaner.Outcome.{clean_all-outcome}
use ipfs_blockchain_watcher.Eth.Cleaner.Success.{clean_all-succeeds}
use ipfs_blockchain_watcher.Eth.Cleaner.Revalidation.{Reset, reset_validation-Atomic}
use ipfs_blockchain_watcher.Eth.Cleaner.Sharing.{clean-storage-takes_shared}
use ipfs_blockchain_watcher.Btc.Cleaner.{clean_all as btc_clean_all}
use ipfs_blockchain_watcher.Btc.Cleaner.Outcome.{btc_clean_all-outcome, Cleaned as BtcCleaned}
use ipfs_blockchain_watcher.Btc.Tables.{Db as BtcDb}

abbrev header_at : ℕ → String → HeaderRow
header_at n key = record { id = n; block_number = n; mh_key = key; times_validated = 1 }

abbrev row_at : ℕ → ℕ → String → CidRow
row_at i parent key = record { id = i; parent = parent; mh_key = key }

-- Two blocks with a state node each, and a storage node that both state nodes have.
abbrev two_blocks : Db
two_blocks = record {
  blocks = "h1" ∷ "h2" ∷ "s1" ∷ "s2" ∷ "x" ∷ [];
  header_cids = header_at 1 "h1" ∷ header_at 2 "h2" ∷ [];
  uncle_cids = [];
  transaction_cids = [];
  state_cids = row_at 1 1 "s1" ∷ row_at 2 2 "s2" ∷ [];
  receipt_cids = [];
  storage_cids = row_at 1 1 "x" ∷ row_at 2 2 "x" ∷ [];
  state_accounts = record { id = 1; parent = 1 } ∷ [];
}

abbrev pub session : Session Db
session = record { next = 0; tables = two_blocks }

abbrev first_block : List (ℕ × ℕ)
first_block = (1, 1) ∷ []

-- The sixth statement is refused: the first VACUUM.
abbrev fault_at_5 : ℕ → Option String
fault_at_5 n = if n == 5 then some "canceling statement due to user request" else none

clean_all-outcome_example :
    (Cleaned first_block state two_blocks (clean_all first_block state fault_at_5 session).0.tables
      × ((clean_all first_block state fault_at_5 session).1 ≡ ok tt
          ⊎ Failed (clean_all first_block state fault_at_5 session).1))
    ⊎ (((clean_all first_block state fault_at_5 session).0.tables ≡ two_blocks)
        × Failed (clean_all first_block state fault_at_5 session).1)
clean_all-outcome_example = clean_all-outcome first_block state fault_at_5 session

clean_all-succeeds_example :
    ((clean_all first_block state no_fault session).1 ≡ ok tt)
    × Cleaned first_block state two_blocks (clean_all first_block state no_fault session).0.tables
clean_all-succeeds_example = clean_all-succeeds first_block state session state-known
  where
    state-known : state ≢ unknown_data_type
    state-known e = cc

reset_validation-Atomic_example :
    Atomic (Reset first_block) two_blocks (reset_validation first_block no_fault session)
reset_validation-Atomic_example = reset_validation-Atomic first_block no_fault session

two_blocks-Consistent : Consistent two_blocks
two_blocks-Consistent = record {
  headers_linked = (refl, (refl, tt));
  uncles_linked = tt;
  transactions_linked = tt;
  states_linked = ((refl, refl), ((refl, refl), tt));
  receipts_linked = tt;
  storage_linked = ((refl, refl), ((refl, refl), tt));
  accounts_linked = (refl, tt);
}

abbrev without_storage : Session Db
without_storage = record {
  next = 2;
  tables = record two_blocks { blocks = "h1" ∷ "h2" ∷ "s1" ∷ "s2" ∷ []; storage_cids = [] };
}

clean-storage-takes_shared_example :
    All (λ r. r.mh_key ≢ "x") without_storage.tables.storage_cids
    × All (λ r. r.mh_key ≢ "x") without_storage.tables.state_cids
unfolding clean and_then exec cascade state_in header_in
clean-storage-takes_shared_example =
    clean-storage-takes_shared (1, 1) "x" no_fault session without_storage two_blocks-Consistent
      refl refl

abbrev btc_block : Session BtcDb
btc_block = record {
  next = 0;
  tables = record {
    blocks = "h1" ∷ "t1" ∷ [];
    header_cids = header_at 1 "h1" ∷ [];
    transaction_cids = row_at 1 1 "t1" ∷ [];
    tx_inputs = record { id = 1; parent = 1 } ∷ [];
    tx_outputs = record { id = 1; parent = 1 } ∷ [];
  };
}

btc_clean_all-outcome_example :
    (BtcCleaned first_block transactions btc_block.tables
        (btc_clean_all first_block transactions no_fault btc_block).0.tables
      × ((btc_clean_all first_block transactions no_fault btc_block).1 ≡ ok tt
          ⊎ Failed (btc_clean_all first_block transactions no_fault btc_block).1))
    ⊎ (((btc_clean_all first_block transactions no_fault btc_block).0.tables ≡ btc_block.tables)
        × Failed (btc_clean_all first_block transactions no_fault btc_block).1)
btc_clean_all-outcome_example = btc_clean_all-outcome first_block transactions no_fault btc_block
