-- ===== src/Eth/Tables/Consistent.antt =====
-- The foreign keys of the tables: every row's block and every row's parent are there.
use ipfs_blockchain_watcher.Prelude.{
  ℕ, ◌≡◌, String, Bool, true, false, List, any, All, str_eq, arith, ◌||◌,
}
use ipfs_blockchain_watcher.Sql.Rows.{CidRow, remove, loses, any-remove-true, All-remove}
use ipfs_blockchain_watcher.Eth.Tables.{
  Db, Targets, is_header, is_row, header_dead, child_dead, header_lost, transaction_lost,
  state_lost, transaction_dead, state_dead, cascade,
}

abbrev HasBlock : Db → String → Type 0
HasBlock d key = any (str_eq key) d.blocks ≡ true

abbrev HasHeader : Db → ℕ → Type 0
HasHeader d i = any (is_header i) d.header_cids ≡ true

abbrev HasTransaction : Db → ℕ → Type 0
HasTransaction d i = any (is_row i) d.transaction_cids ≡ true

abbrev HasState : Db → ℕ → Type 0
HasState d i = any (is_row i) d.state_cids ≡ true

-- Rows with their block, that belong to a row that is there.
abbrev Linked : Db → (ℕ → Type 0) → List CidRow → Type 0
Linked d HasParent rows = All (λ r. HasBlock d r.mh_key × HasParent r.parent) rows

pub record Consistent (d : Db) : Type 0 where
  pub headers_linked : All (λ h. HasBlock d h.mh_key) d.header_cids
  pub uncles_linked : Linked d (HasHeader d) d.uncle_cids
  pub transactions_linked : Linked d (HasHeader d) d.transaction_cids
  pub states_linked : Linked d (HasHeader d) d.state_cids
  pub receipts_linked : Linked d (HasTransaction d) d.receipt_cids
  pub storage_linked : Linked d (HasState d) d.storage_cids
  pub accounts_linked : All (λ a. HasState d a.parent) d.state_accounts

module _ (t : Targets) (d : Db) where
  block_left :
      (key : String)
      → loses t.blocks (str_eq key) d.blocks ≡ false
      → HasBlock d key
      → HasBlock (cascade t d) key
  unfolding cascade
  block_left key kept has = any-remove-true t.blocks (str_eq key) d.blocks has kept

  header_left : (i : ℕ) → header_lost t d i ≡ false → HasHeader d i → HasHeader (cascade t d) i
  unfolding cascade
  header_left i kept has = any-remove-true (header_dead t d) (is_header i) d.header_cids has kept

  transaction_left :
      (i : ℕ) → transaction_lost t d i ≡ false → HasTransaction d i → HasTransaction (cascade t d) i
  unfolding cascade
  transaction_left i kept has =
      any-remove-true (transaction_dead t d) (is_row i) d.transaction_cids has kept

  state_left : (i : ℕ) → state_lost t d i ≡ false → HasState d i → HasState (cascade t d) i
  unfolding cascade
  state_left i kept has = any-remove-true (state_dead t d) (is_row i) d.state_cids has kept

  or_false : (a b c : Bool) → (a || (b || c)) ≡ false → (b ≡ false) × (c ≡ false)
  or_false a b c h = ground arith

  Linked-remove :
      (named : CidRow → Bool) (lost : ℕ → Bool) (Had Has : ℕ → Type 0) (rows : List CidRow)
      → ((i : ℕ) → lost i ≡ false → Had i → Has i)
      → Linked d Had rows
      → Linked (cascade t d) Has (remove (child_dead named lost t d) rows)
  Linked-remove named lost Had Has rows keeps linked =
      All-remove (child_dead named lost t d) _ _ rows
        (λ r alive (block, parent).
          let (block_kept, parent_kept) =
            or_false (named r) (loses t.blocks (str_eq r.mh_key) d.blocks) (lost r.parent) alive in
          (block_left r.mh_key block_kept block, keeps r.parent parent_kept parent))
        linked

  -- A deletion with its cascade leaves no foreign key without its row.
  pub cascade-Consistent : Consistent d → Consistent (cascade t d)
  unfolding cascade
  cascade-Consistent c = record {
    headers_linked =
        All-remove (header_dead t d) _ _ d.header_cids
          (λ h alive block. block_left h.mh_key (ground arith) block) c.headers_linked;
    uncles_linked =
        Linked-remove t.uncle_cids (header_lost t d) _ _ d.uncle_cids header_left c.uncles_linked;
    transactions_linked =
        Linked-remove t.transaction_cids (header_lost t d) _ _ d.transaction_cids header_left
          c.transactions_linked;
    states_linked =
        Linked-remove t.state_cids (header_lost t d) _ _ d.state_cids header_left c.states_linked;
    receipts_linked =
        Linked-remove t.receipt_cids (transaction_lost t d) _ _ d.receipt_cids transaction_left
          c.receipts_linked;
    storage_linked =
        Linked-remove t.storage_cids (state_lost t d) _ _ d.storage_cids state_left
          c.storage_linked;
    accounts_linked =
        All-remove (λ a. state_lost t d a.parent) _ _ d.state_accounts
          (λ a alive has. state_left a.parent alive has) c.accounts_linked;
  }
