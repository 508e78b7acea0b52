-- ===== src/Eth/Indexer/Success.antt =====
-- Index writes all of a block when the database refuses nothing.
use ipfs_blockchain_watcher.Sql.Runs.{Runs}
