-- ===== src/Eth/Cleaner/Sharing.antt =====
-- Blocks are shared by content: deleting a block deletes the rows of every range that have it.
use ipfs_blockchain_watcher.Prelude.{
  ℕ, ◌≡◌, ◌≢◌, subst, eq_iff, Option, String, Bool, true, false, ◌&&◌, List, [], ◌∷◌, any, All,
  str_eq, arith,
}
use ipfs_blockchain_watcher.Prelude.Results.{ok}
use ipfs_blockchain_watcher.Sql.{Session}
use ipfs_blockchain_watcher.Shared.ChainType.{storage}
use ipfs_blockchain_watcher.Sql.Atomic.{Ensures, exec-Ensures, and_then-Ensures}
use ipfs_blockchain_watcher.Sql.Rows.{CidRow, any-remove, any-remove-false}
use ipfs_blockchain_watcher.Eth.Tables.{Db, cascade}
use ipfs_blockchain_watcher.Eth.Tables.Consistent.{Consistent}
use ipfs_blockchain_watcher.Eth.Tables.Ranges.{state_in}
use ipfs_blockchain_watcher.Eth.Cleaner.{delete, storage_iplds, storage_meta_data, clean}
use ipfs_blockchain_watcher.Eth.Cleaner.Removal.{Shrinks, Shrinks-trans, cascade-Shrinks}

-- Whether a row of storage nodes in the range has the block with this key.
abbrev pub storage_block_in : ℕ × ℕ → String → Db → Bool
storage_block_in rng k d = any (λ r. str_eq r.mh_key k && state_in rng d r.parent) d.storage_cids

-- A block of such a row is deleted, and the foreign keys are kept.
record Drops (rng : ℕ × ℕ) (d d' : Db) : Type 0 where
  pub dropped : (k : String) → storage_block_in rng k d ≡ true → any (str_eq k) d'.blocks ≡ false
  pub shrinks : Shrinks d d'

-- No block comes back.
record KeepsOut (d d' : Db) : Type 0 where
  pub out : (k : String) → any (str_eq k) d'.blocks ≡ true → any (str_eq k) d.blocks ≡ true
  pub shrinks : Shrinks d d'

same_key : (k b : String) (f : String → Bool) → f k ≡ true → str_eq k b ≡ true → f b ≡ true
same_key k b f h e = subst (λ x. f x ≡ true) ((eq_iff k b).0 e) h

iplds-Drops : (rng : ℕ × ℕ) → Ensures (Drops rng) (delete (storage_iplds rng))
unfolding cascade
iplds-Drops rng = exec-Ensures (Drops rng) _ (λ d. record {
  dropped = λ k named.
      any-remove-false (storage_iplds rng d).blocks (str_eq k) d.blocks
        (λ b e. same_key k b (λ x. storage_block_in rng x d) named e);
  shrinks = cascade-Shrinks (storage_iplds rng d) d;
})

meta_data-KeepsOut : (rng : ℕ × ℕ) → Ensures KeepsOut (delete (storage_meta_data rng))
unfolding cascade
meta_data-KeepsOut rng = exec-Ensures KeepsOut _ (λ d. record {
  out = λ k. any-remove (storage_meta_data rng d).blocks _ (str_eq k) d.blocks (λ b e. e);
  shrinks = cascade-Shrinks (storage_meta_data rng d) d;
})

not_again : (a b : Bool) → (a ≡ true → b ≡ true) → b ≡ false → a ≡ false
not_again a b h e = ground (arith, h)

clean-storage-Drops : (rng : ℕ × ℕ) → Ensures (Drops rng) (clean rng storage)
unfolding clean
clean-storage-Drops rng =
    and_then-Ensures
      (λ d m n first last. record {
        dropped = λ k named.
            not_again (any (str_eq k) n.blocks) (any (str_eq k) m.blocks) (last.out k)
              (first.dropped k named);
        shrinks = Shrinks-trans d m n first.shrinks last.shrinks;
      })
      (iplds-Drops rng) (meta_data-KeepsOut rng)

no_row :
    (d : Db) (k : String) (HasParent : ℕ → Type 0) (rows : List CidRow)
    → any (str_eq k) d.blocks ≡ false
    → All (λ r. (any (str_eq r.mh_key) d.blocks ≡ true) × HasParent r.parent) rows
    → All (λ r. r.mh_key ≢ k) rows
no_row d k HasParent [] gone linked = tt
no_row d k HasParent (r ∷ rows) gone linked = (
  λ same. both_ways (subst (λ x. any (str_eq x) d.blocks ≡ true) same linked.0.0) gone,
  no_row d k HasParent rows gone linked.1,
)
  where
    both_ways : {b : Bool} → b ≡ true → b ≡ false → ⊥
    both_ways e f = cc

-- Cleaning the storage nodes of a range, on tables whose foreign keys hold, also deletes every state
-- and storage row of any other range whose block is that of a storage node in the range.
pub clean-storage-takes_shared :
    (rng : ℕ × ℕ) (k : String) (fault : ℕ → Option String) (s t : Session Db)
    → Consistent s.tables
    → clean rng storage fault s ≡ ok t
    → storage_block_in rng k s.tables ≡ true
    → All (λ r. r.mh_key ≢ k) t.tables.storage_cids × All (λ r. r.mh_key ≢ k) t.tables.state_cids
clean-storage-takes_shared rng k fault s t c ran named =
    let drops = clean-storage-Drops rng fault s t ran in
    let left = drops.shrinks.consistent c in
    let gone = drops.dropped k named in
    (
      no_row t.tables k _ t.tables.storage_cids gone left.storage_linked,
      no_row t.tables k _ t.tables.state_cids gone left.states_linked,
    )
