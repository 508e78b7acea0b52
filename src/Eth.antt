-- ===== src/Eth.antt =====
-- pkg/eth: the Ethereum side of the watcher.
pub mod Models
pub mod Tables
pub mod Cleaner
pub mod Indexer
pub mod Types
pub mod Settings
pub mod Checks
pub mod Filterer
pub mod Retrieval
pub mod Reward
