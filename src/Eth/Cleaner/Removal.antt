-- ===== src/Eth/Cleaner/Removal.antt =====
-- Clean leaves no row of the data type in the ranges, and keeps the tables consistent.
use ipfs_blockchain_watcher.Prelude.{ℕ, ◌≡◌, subst, Bool, true, false, List, [], ◌∷◌, All, arith}
use ipfs_blockchain_watcher.Prelude.Results.{ok}
use ipfs_blockchain_watcher.Shared.ChainType.{
  DataType, unknown_data_type, full, headers, uncles, transactions, receipts, state, storage,
}
use ipfs_blockchain_watcher.Sql.{for_ranges, Session, Statement, and_then}
use ipfs_blockchain_watcher.Sql.Atomic.{Ensures, exec-Ensures, fail_with-Ensures, and_then-Ensures}
use ipfs_blockchain_watcher.Eth.Tables.{Db, Targets, cascade}
use ipfs_blockchain_watcher.Eth.Tables.Consistent.{Consistent, cascade-Consistent}
use ipfs_blockchain_watcher.Eth.Tables.Ranges.{selected, selected-cascade, Names, Names-selected}
use ipfs_blockchain_watcher.Eth.Cleaner.{
  delete, storage_iplds, storage_meta_data, state_iplds, state_meta_data, receipt_iplds,
  receipt_meta_data, transaction_iplds, transaction_meta_data, uncle_iplds, uncle_meta_data,
  header_iplds, header_meta_data, clean_full, clean,
}

-- Tables after deletions only: no row came into a range, and foreign keys still hold.
pub record Shrinks (d d' : Db) : Type 0 where
  pub fewer : (rng : ℕ × ℕ) (t : DataType) → selected rng t d' ≡ true → selected rng t d ≡ true
  pub consistent : Consistent d → Consistent d'

pub Shrinks-refl : (d : Db) → Shrinks d d
Shrinks-refl d = record { fewer = λ rng t e. e; consistent = λ c. c }

pub Shrinks-trans : (d m n : Db) → Shrinks d m → Shrinks m n → Shrinks d n
Shrinks-trans d m n f s = record {
  fewer = λ rng t e. f.fewer rng t (s.fewer rng t e);
  consistent = λ c. s.consistent (f.consistent c);
}

-- A deletion of any rows.
pub cascade-Shrinks : (t : Targets) (d : Db) → Shrinks d (cascade t d)
cascade-Shrinks t d = record {
  fewer = λ rng type. selected-cascade rng t d type;
  consistent = cascade-Consistent t d;
}

delete-Shrinks : (targets : Db → Targets) → Ensures Shrinks (delete targets)
delete-Shrinks targets =
    exec-Ensures Shrinks (λ d. cascade (targets d) d) (λ d. cascade-Shrinks (targets d) d)

-- Deletions that left nothing of a data type in a range.
pub record Clears (rng : ℕ × ℕ) (t : DataType) (d d' : Db) : Type 0 where
  pub shrinks : Shrinks d d'
  pub cleared : selected rng t d' ≡ false

delete-Clears :
    (rng : ℕ × ℕ) (t : DataType) (targets : Db → Targets)
    → ((d : Db) → Names rng (targets d) d t)
    → Ensures (Clears rng t) (delete targets)
delete-Clears rng t targets names =
    exec-Ensures (Clears rng t) (λ d. cascade (targets d) d)
      (λ d. record {
        shrinks = cascade-Shrinks (targets d) d;
        cleared = Names-selected rng (targets d) d t (names d);
      })

after :
    {rng : ℕ × ℕ} {t : DataType} {a b : Statement Db}
    → Ensures Shrinks a
    → Ensures (Clears rng t) b
    → Ensures (Clears rng t) (and_then a b)
after =
    and_then-Ensures
      (λ d m n s c. record { shrinks = Shrinks-trans d m n s c.shrinks; cleared = c.cleared })

clean_full-Clears :
    (rng : ℕ × ℕ) (t : DataType)
    → ((d : Db) → Names rng (header_meta_data rng d) d t)
    → Ensures (Clears rng t) (clean_full rng)
unfolding clean_full
clean_full-Clears rng t names = after (delete-Shrinks (storage_iplds rng)) (
    after (delete-Shrinks (state_iplds rng)) (
      after (delete-Shrinks (receipt_iplds rng)) (
        after (delete-Shrinks (transaction_iplds rng)) (
          after (delete-Shrinks (uncle_iplds rng)) (
            after (delete-Shrinks (header_iplds rng))
              (delete-Clears rng t (header_meta_data rng) names))))))

clean-Clears : (rng : ℕ × ℕ) (t : DataType) → Ensures (Clears rng t) (clean rng t)
unfolding clean
clean-Clears rng full = clean_full-Clears rng full (λ d h e. e)
clean-Clears rng headers = clean_full-Clears rng headers (λ d h e. e)
clean-Clears rng uncles =
    after (delete-Shrinks (uncle_iplds rng))
      (delete-Clears rng uncles (uncle_meta_data rng) (λ d r e. e))
clean-Clears rng transactions = after (delete-Shrinks (receipt_iplds rng)) (
    after (delete-Shrinks (transaction_iplds rng))
      (delete-Clears rng transactions (transaction_meta_data rng) (λ d r e. e)))
clean-Clears rng receipts =
    after (delete-Shrinks (receipt_iplds rng))
      (delete-Clears rng receipts (receipt_meta_data rng) (λ d r e. e))
clean-Clears rng state = after (delete-Shrinks (storage_iplds rng)) (
    after (delete-Shrinks (state_iplds rng))
      (delete-Clears rng state (state_meta_data rng) (λ d r e. e)))
clean-Clears rng storage =
    after (delete-Shrinks (storage_iplds rng))
      (delete-Clears rng storage (storage_meta_data rng) (λ d r e. e))
clean-Clears rng unknown_data_type = fail_with-Ensures (Clears rng unknown_data_type) _

-- What Clean promises of the tables before it and after it.
pub record Cleaned (rngs : List (ℕ × ℕ)) (t : DataType) (d d' : Db) : Type 0 where
  pub shrinks : Shrinks d d'
  pub cleared : All (λ rng. selected rng t d' ≡ false) rngs

false_before : (a b : Bool) → (a ≡ true → b ≡ true) → b ≡ false → a ≡ false
false_before a b h e = ground (arith, h)

pub for_ranges-Cleaned :
    (rngs : List (ℕ × ℕ)) (t : DataType)
    → Ensures (Cleaned rngs t) (for_ranges (λ rng. clean rng t) rngs)
unfolding for_ranges
for_ranges-Cleaned [] t = λ fault s u e.
    subst (λ x. Cleaned [] t s.tables x.tables) (ok-same e)
      (record { shrinks = Shrinks-refl s.tables; cleared = tt })
  where
    ok-same : {s u : Session Db} → ok s ≡ ok u → s ≡ u
    ok-same e = cc
for_ranges-Cleaned (rng ∷ rngs) t =
    and_then-Ensures
      (λ d m n first rest. record {
        shrinks = Shrinks-trans d m n first.shrinks rest.shrinks;
        cleared = (
          false_before (selected rng t n) (selected rng t m) (rest.shrinks.fewer rng t)
              first.cleared,
          rest.cleared,
        );
      })
      (clean-Clears rng t) (for_ranges-Cleaned rngs t)
