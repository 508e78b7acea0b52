-- ===== src/Btc/Tables.antt =====
-- The tables of db/migrations that pkg/btc/cleaner.go reads and deletes from, and deletion with its
-- ON DELETE CASCADE.
use ipfs_blockchain_watcher.Prelude.{
  ℕ, ◌==◌, ◌≡◌, String, Bool, true, false, ◌&&◌, ◌||◌, List, any, All, str_eq, arith,
}
use ipfs_blockchain_watcher.Sql.Rows.{
  HeaderRow, CidRow, PartRow, between, remove, loses, any-remove, any-remove-false, any-remove-true,
  All-remove,
}

pub record Db : Type 0 where
  -- the keys of public.blocks
  pub blocks : List String
  pub header_cids : List HeaderRow
  -- these belong to headers
  pub transaction_cids : List CidRow
  -- these to transactions
  pub tx_inputs : List PartRow
  pub tx_outputs : List PartRow

-- The rows that a statement names, by table.
pub record Targets : Type 0 where
  pub blocks : String → Bool
  pub header_cids : HeaderRow → Bool
  pub transaction_cids : CidRow → Bool

abbrev pub no_rows : Targets
no_rows = record { blocks = λ k. false; header_cids = λ h. false; transaction_cids = λ r. false }

abbrev is_header : ℕ → HeaderRow → Bool
is_header i h = h.id == i

abbrev is_row : ℕ → CidRow → Bool
is_row i r = r.id == i

abbrev header_dead : Targets → Db → HeaderRow → Bool
header_dead t d h = t.header_cids h || loses t.blocks (str_eq h.mh_key) d.blocks

abbrev transaction_dead : Targets → Db → CidRow → Bool
transaction_dead t d r =
    t.transaction_cids r
    || (loses t.blocks (str_eq r.mh_key) d.blocks
        || loses (header_dead t d) (is_header r.parent) d.header_cids)

abbrev transaction_lost : Targets → Db → ℕ → Bool
transaction_lost t d i = loses (transaction_dead t d) (is_row i) d.transaction_cids

-- A DELETE of the rows named, with all that is deleted with them.
unfoldable pub cascade : Targets → Db → Db
cascade t d = record {
  blocks = remove t.blocks d.blocks;
  header_cids = remove (header_dead t d) d.header_cids;
  transaction_cids = remove (transaction_dead t d) d.transaction_cids;
  tx_inputs = remove (λ p. transaction_lost t d p.parent) d.tx_inputs;
  tx_outputs = remove (λ p. transaction_lost t d p.parent) d.tx_outputs;
}

abbrev pub in_range : ℕ × ℕ → HeaderRow → Bool
in_range rng h = between rng h.block_number

-- Whether the header of a row is in the range.
unfoldable pub in_header : ℕ × ℕ → Db → CidRow → Bool
in_header rng d r = any (λ h. is_header r.parent h && in_range rng h) d.header_cids

-- The foreign keys.
pub record Consistent (d : Db) : Type 0 where
  pub headers_linked : All (λ h. any (str_eq h.mh_key) d.blocks ≡ true) d.header_cids
  pub transactions_linked :
      All
        (λ r.
          (any (str_eq r.mh_key) d.blocks ≡ true) × (any (is_header r.parent) d.header_cids ≡ true))
        d.transaction_cids
  pub inputs_linked : All (λ p. any (is_row p.parent) d.transaction_cids ≡ true) d.tx_inputs
  pub outputs_linked : All (λ p. any (is_row p.parent) d.transaction_cids ≡ true) d.tx_outputs

module _ (t : Targets) (d : Db) where
  or_false : (a b c : Bool) → (a || (b || c)) ≡ false → (b ≡ false) × (c ≡ false)
  or_false a b c h = ground arith

  -- A deletion with its cascade leaves no foreign key without its row.
  pub cascade-Consistent : Consistent d → Consistent (cascade t d)
  unfolding cascade
  cascade-Consistent c = record {
    headers_linked =
        All-remove (header_dead t d) _ _ d.header_cids
          (λ h alive block.
            any-remove-true t.blocks (str_eq h.mh_key) d.blocks block (ground arith))
          c.headers_linked;
    transactions_linked =
        All-remove (transaction_dead t d) _ _ d.transaction_cids
          (λ r alive (block, header).
            let (block_kept, header_kept) =
              or_false (t.transaction_cids r) (loses t.blocks (str_eq r.mh_key) d.blocks)
                (loses (header_dead t d) (is_header r.parent) d.header_cids) alive in
            (
              any-remove-true t.blocks (str_eq r.mh_key) d.blocks block block_kept,
              any-remove-true (header_dead t d) (is_header r.parent) d.header_cids header
                  header_kept,
            ))
          c.transactions_linked;
    inputs_linked =
        All-remove (λ p. transaction_lost t d p.parent) _ _ d.tx_inputs
          (λ p alive has.
            any-remove-true (transaction_dead t d) (is_row p.parent) d.transaction_cids has alive)
          c.inputs_linked;
    outputs_linked =
        All-remove (λ p. transaction_lost t d p.parent) _ _ d.tx_outputs
          (λ p alive has.
            any-remove-true (transaction_dead t d) (is_row p.parent) d.transaction_cids has alive)
          c.outputs_linked;
  }

  module _ (rng : ℕ × ℕ) where
    pub headers-cascade :
        any (in_range rng) (cascade t d).header_cids ≡ true
        → any (in_range rng) d.header_cids ≡ true
    unfolding cascade
    headers-cascade e = any-remove (header_dead t d) _ (in_range rng) d.header_cids (λ h k. k) e

    in_header-cascade :
        (r : CidRow) → in_header rng (cascade t d) r ≡ true → in_header rng d r ≡ true
    unfolding in_header cascade
    in_header-cascade r e =
        any-remove (header_dead t d) _ (λ h. is_header r.parent h && in_range rng h) d.header_cids
          (λ h k. k) e

    pub transactions-cascade :
        any (in_header rng (cascade t d)) (cascade t d).transaction_cids ≡ true
        → any (in_header rng d) d.transaction_cids ≡ true
    unfolding cascade
    transactions-cascade e =
        any-remove (transaction_dead t d) _ (in_header rng d) d.transaction_cids in_header-cascade e

    pub headers-cleared :
        ((h : HeaderRow) → in_range rng h ≡ true → t.header_cids h ≡ true)
        → any (in_range rng) (cascade t d).header_cids ≡ false
    unfolding cascade
    headers-cleared n =
        any-remove-false (header_dead t d) (in_range rng) d.header_cids (λ h e. ground (arith, n h))

    pub transactions-cleared :
        ((r : CidRow) → in_header rng d r ≡ true → t.transaction_cids r ≡ true)
        → any (in_header rng (cascade t d)) (cascade t d).transaction_cids ≡ false
    unfolding cascade
    transactions-cleared n =
        any-remove-false (transaction_dead t d) _ d.transaction_cids
          (λ r e. ground (arith, n r (in_header-cascade r e)))
