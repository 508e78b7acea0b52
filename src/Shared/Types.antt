-- ===== src/Shared/Types.antt =====
-- pkg/shared/types.go.
use ipfs_blockchain_watcher.Prelude.{ℕ}

pub record Gap : Type 0 where
  pub start : ℕ
  pub stop : ℕ
