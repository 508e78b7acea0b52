-- ===== src/Eth/Tables.antt =====
-- The tables of db/migrations that pkg/eth/cleaner.go reads and deletes from.
pub mod Consistent
pub mod Ranges
use ipfs_blockchain_watcher.Prelude.{ℕ, ◌==◌, String, Bool, false, ◌&&◌, ◌||◌, List, any, str_eq}
use ipfs_blockchain_watcher.Sql.Rows.{HeaderRow, CidRow, PartRow, remove, loses}

pub record Db : Type 0 where
  -- the keys of public.blocks
  pub blocks : List String
  pub header_cids : List HeaderRow
  -- these belong to headers
  pub uncle_cids : List CidRow
  pub transaction_cids : List CidRow
  pub state_cids : List CidRow
  -- these to transactions
  pub receipt_cids : List CidRow
  -- these to state nodes
  pub storage_cids : List CidRow
  pub state_accounts : List PartRow

-- The rows that a statement names, by table.
pub record Targets : Type 0 where
  pub blocks : String → Bool
  pub header_cids : HeaderRow → Bool
  pub uncle_cids : CidRow → Bool
  pub transaction_cids : CidRow → Bool
  pub state_cids : CidRow → Bool
  pub receipt_cids : CidRow → Bool
  pub storage_cids : CidRow → Bool

abbrev pub no_rows : Targets
no_rows = record {
  blocks = λ k. false;
  header_cids = λ h. false;
  uncle_cids = λ r. false;
  transaction_cids = λ r. false;
  state_cids = λ r. false;
  receipt_cids = λ r. false;
  storage_cids = λ r. false;
}

-- The row that a foreign key names.
abbrev pub is_header : ℕ → HeaderRow → Bool
is_header i h = h.id == i

abbrev pub is_row : ℕ → CidRow → Bool
is_row i r = r.id == i

-- A header is deleted if it is named, or its block is deleted.
abbrev pub header_dead : Targets → Db → HeaderRow → Bool
header_dead t d h = t.header_cids h || loses t.blocks (str_eq h.mh_key) d.blocks

-- A row is deleted if it is named, its block is deleted, or the row that it belongs to is.
abbrev pub child_dead : (CidRow → Bool) → (ℕ → Bool) → Targets → Db → CidRow → Bool
child_dead named parent_dead t d r =
    named r || (loses t.blocks (str_eq r.mh_key) d.blocks || parent_dead r.parent)

abbrev pub header_lost : Targets → Db → ℕ → Bool
header_lost t d i = loses (header_dead t d) (is_header i) d.header_cids

abbrev pub uncle_dead : Targets → Db → CidRow → Bool
uncle_dead t d = child_dead t.uncle_cids (header_lost t d) t d

abbrev pub transaction_dead : Targets → Db → CidRow → Bool
transaction_dead t d = child_dead t.transaction_cids (header_lost t d) t d

abbrev pub state_dead : Targets → Db → CidRow → Bool
state_dead t d = child_dead t.state_cids (header_lost t d) t d

abbrev pub transaction_lost : Targets → Db → ℕ → Bool
transaction_lost t d i = loses (transaction_dead t d) (is_row i) d.transaction_cids

abbrev pub state_lost : Targets → Db → ℕ → Bool
state_lost t d i = loses (state_dead t d) (is_row i) d.state_cids

abbrev pub receipt_dead : Targets → Db → CidRow → Bool
receipt_dead t d = child_dead t.receipt_cids (transaction_lost t d) t d

abbrev pub storage_dead : Targets → Db → CidRow → Bool
storage_dead t d = child_dead t.storage_cids (state_lost t d) t d

-- A DELETE of the rows named, with all that is deleted with them.
unfoldable pub cascade : Targets → Db → Db
cascade t d = record {
  blocks = remove t.blocks d.blocks;
  header_cids = remove (header_dead t d) d.header_cids;
  uncle_cids = remove (uncle_dead t d) d.uncle_cids;
  transaction_cids = remove (transaction_dead t d) d.transaction_cids;
  state_cids = remove (state_dead t d) d.state_cids;
  receipt_cids = remove (receipt_dead t d) d.receipt_cids;
  storage_cids = remove (storage_dead t d) d.storage_cids;
  state_accounts = remove (λ a. state_lost t d a.parent) d.state_accounts;
}
