-- ===== src/Eth/Cleaner/Success.antt =====
-- Clean succeeds when the database refuses no statement.
use ipfs_blockchain_watcher.Prelude.{ℕ, ◌≡◌, ◌≢◌, refl, List, inl, inr}
use ipfs_blockchain_watcher.Prelude.Results.{Result, ok}
use ipfs_blockchain_watcher.Shared.ChainType.{
  DataType, unknown_data_type, full, headers, uncles, transactions, receipts, state, storage,
}
use ipfs_blockchain_watcher.Sql.{for_ranges, Session, transaction}
use ipfs_blockchain_watcher.Sql.Runs.{
  no_fault, Runs, exec-Runs, more-Runs, for_ranges-Runs, transaction-Runs,
}
use ipfs_blockchain_watcher.Eth.Tables.{Db}
use ipfs_blockchain_watcher.Eth.Cleaner.{clean_full, clean, vacuum_full, vacuum_analyze, clean_all}
use ipfs_blockchain_watcher.Eth.Cleaner.Removal.{Cleaned}
use ipfs_blockchain_watcher.Eth.Cleaner.Outcome.{clean_all-outcome}
use ipfs_blockchain_watcher.Sql.Calls.{Failed, afterwards-ok}

clean-Runs : (rng : ℕ × ℕ) (t : DataType) → t ≢ unknown_data_type → Runs (clean rng t)
unfolding clean clean_full
clean-Runs rng full known =
    more-Runs _ _
      (more-Runs _ _ (more-Runs _ _ (more-Runs _ _ (more-Runs _ _ (more-Runs _ _ (exec-Runs _))))))
clean-Runs rng headers known =
    more-Runs _ _
      (more-Runs _ _ (more-Runs _ _ (more-Runs _ _ (more-Runs _ _ (more-Runs _ _ (exec-Runs _))))))
clean-Runs rng uncles known = more-Runs _ _ (exec-Runs _)
clean-Runs rng transactions known = more-Runs _ _ (more-Runs _ _ (exec-Runs _))
clean-Runs rng receipts known = more-Runs _ _ (exec-Runs _)
clean-Runs rng state known = more-Runs _ _ (more-Runs _ _ (exec-Runs _))
clean-Runs rng storage known = more-Runs _ _ (exec-Runs _)
clean-Runs rng unknown_data_type known = absurd (known refl)

vacuum_analyze-Runs : (t : DataType) → t ≢ unknown_data_type → Runs (vacuum_analyze t)
unfolding vacuum_analyze vacuum_full
vacuum_analyze-Runs full known =
    more-Runs _ _
      (more-Runs _ _ (more-Runs _ _ (more-Runs _ _ (more-Runs _ _ (more-Runs _ _ (exec-Runs _))))))
vacuum_analyze-Runs headers known =
    more-Runs _ _
      (more-Runs _ _ (more-Runs _ _ (more-Runs _ _ (more-Runs _ _ (more-Runs _ _ (exec-Runs _))))))
vacuum_analyze-Runs uncles known = more-Runs _ _ (exec-Runs _)
vacuum_analyze-Runs transactions known = more-Runs _ _ (more-Runs _ _ (exec-Runs _))
vacuum_analyze-Runs receipts known = more-Runs _ _ (exec-Runs _)
vacuum_analyze-Runs state known = more-Runs _ _ (more-Runs _ _ (more-Runs _ _ (exec-Runs _)))
vacuum_analyze-Runs storage known = more-Runs _ _ (exec-Runs _)
vacuum_analyze-Runs unknown_data_type known = absurd (known refl)

ok-not-Failed : (r : Result (Unit {0})) → r ≡ ok tt → Failed r → ⊥
ok-not-Failed r e (inl f) = cc
ok-not-Failed r e (inr (m, f)) = cc

-- For a data type that it knows, Clean returns no error when the database refuses nothing, and all
-- that it promises of the tables then holds, so that none of the type's rows is left in the ranges.
pub clean_all-succeeds :
    (rngs : List (ℕ × ℕ)) (t : DataType) (s : Session Db)
    → t ≢ unknown_data_type
    → ((clean_all rngs t no_fault s).1 ≡ ok tt)
      × Cleaned rngs t s.tables (clean_all rngs t no_fault s).0.tables
unfolding clean_all
clean_all-succeeds rngs t s known =
    let body = for_ranges (λ rng. clean rng t) rngs in
    let out = transaction body no_fault s in
    let done = transaction-Runs body s (for_ranges-Runs _ rngs (λ rng. clean-Runs rng t known)) in
    let (last, ran) = vacuum_analyze-Runs t known out.0 in
    let fine : (clean_all rngs t no_fault s).1 ≡ ok tt =
      rw (clean_all, done, afterwards-ok (vacuum_analyze t) no_fault out.0 last ran) refl in
    elim (clean_all-outcome rngs t no_fault s) [
      | inl (cleaned, r) ↦ (fine, cleaned)
      | inr (same, failed) ↦ absurd (ok-not-Failed _ fine failed)
    ]
