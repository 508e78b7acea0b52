-- ===== src/Workers.antt =====
-- The worker goroutines of a round of pkg/historical/service.go (BackFill) and of a resync
-- (pkg/resync/service.go): one goroutine hands out the batches over an unbuffered channel, and then a
-- quit signal for every worker.
pub mod Round
pub mod Pipeline
pub mod Ending
use ipfs_blockchain_watcher.Prelude.{ℕ, suc, ◌≡◌, List, [], ◌∷◌, ◌++◌}

module _ (Batch : Type 0) where
  pub record Pool : Type 0 where
    -- batches not handed out yet
    pub pending : List Batch
    -- workers that wait in their select
    pub idle : ℕ
    -- the batches that workers are at
    pub busy : List Batch
    -- quit signals not sent yet
    pub signals : ℕ
    -- the batches done, the last one first
    pub finished : List Batch

  -- One step of one of the goroutines: a batch or a quit signal passes from the sender to a worker, or
  -- a worker finishes its batch.
  pub data Step : Pool → Pool → Type 0 where
    hand :
        (p : Pool) (b : Batch) (bs : List Batch) (n : ℕ)
        → p.pending ≡ b ∷ bs
        → p.idle ≡ suc n
        → Step p (record p { pending = bs; idle = n; busy = b ∷ p.busy })
    finish :
        (p : Pool) (before : List Batch) (b : Batch) (after : List Batch)
        → p.busy ≡ before ++ b ∷ after
        → Step p (record p { idle = suc p.idle; busy = before ++ after; finished = b ∷ p.finished })
    signal :
        (p : Pool) (n k : ℕ)
        → p.pending ≡ []
        → p.idle ≡ suc n
        → p.signals ≡ suc k
        → Step p (record p { idle = n; signals = k })

  -- So many steps.
  pub data Run : ℕ → Pool → Pool → Type 0 where
    stay : (p : Pool) → Run 0 p p
    after : (n : ℕ) (p q r : Pool) → Run n p q → Step q r → Run (suc n) p r

  -- The goroutines at the start of a round.
  unfoldable pub start : ℕ → List Batch → Pool
  start workers batches = record {
    pending = batches;
    idle = workers;
    busy = [];
    signals = workers;
    finished = [];
  }
