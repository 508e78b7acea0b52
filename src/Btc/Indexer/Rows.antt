-- ===== src/Btc/Indexer/Rows.antt =====
-- The columns of the rows that Index of a Bitcoin block writes.
use mathlib.Core.Path.{ap₂}
use mathlib.Core.List.{Mem}
use ipfs_blockchain_watcher.Prelude.{
  ℕ, ◌≡◌, refl, ◌∙◌, Bool, true, String, Option, none, some, str_eq_refl, ==_refl, ==_iff, ◌+◌,
  eq_iff, &&_parts,
}
use ipfs_blockchain_watcher.Prelude.Int.{ℤ, pos, pos_part, neg_part, eq_ℤ-eq, ◌+ℤ◌}
use ipfs_blockchain_watcher.Sql.Upsert.{Table, find_id}
use ipfs_blockchain_watcher.Sql.Values.{Valued}
use ipfs_blockchain_watcher.Btc.Types.{HeaderModel, TxInput, TxOutput, TxModelWithInsAndOuts}
use ipfs_blockchain_watcher.Btc.Indexer.{CidPayload, Index, same_header, same_hash, same_part}

pub same_header_refl : (k : String × String) → same_header k k ≡ true
same_header_refl k = rw (str_eq_refl k.0, str_eq_refl k.1) refl

pub same_part_refl : (k : ℕ × ℤ) → same_part k k ≡ true
same_part_refl k = rw (==_refl k.0, ==_refl (pos_part k.1 + neg_part k.1)) refl

abbrev Stable : {K V : Type 0} → (K → K → Bool) → Table K V → Table K V → Type 0
Stable {K} same t t' = (k : K) (i : ℕ) → find_id same k t ≡ some i → find_id same k t' ≡ some i

-- No row of any table is lost, or gets another id.
pub record Keeps (d n : Index) : Type 0 where
  pub headers_kept : Stable same_header d.header_cids n.header_cids
  pub transactions_kept : Stable same_hash d.transaction_cids n.transaction_cids
  pub inputs_kept : Stable same_part d.tx_inputs n.tx_inputs
  pub outputs_kept : Stable same_part d.tx_outputs n.tx_outputs

pub Keeps-refl : (d : Index) → Keeps d d
Keeps-refl d = record {
  headers_kept = λ k i h. h;
  transactions_kept = λ k i h. h;
  inputs_kept = λ k i h. h;
  outputs_kept = λ k i h. h;
}

pub Keeps-trans : (d m n : Index) → Keeps d m → Keeps m n → Keeps d n
Keeps-trans d m n f s = record {
  headers_kept = λ k i h. s.headers_kept k i (f.headers_kept k i h);
  transactions_kept = λ k i h. s.transactions_kept k i (f.transactions_kept k i h);
  inputs_kept = λ k i h. s.inputs_kept k i (f.inputs_kept k i h);
  outputs_kept = λ k i h. s.outputs_kept k i (f.outputs_kept k i h);
}

pub same_hash_eq : (a b : String) → same_hash a b ≡ true → a ≡ b
same_hash_eq a b e = (eq_iff a b).0 e

pub same_part_eq : (a b : ℕ × ℤ) → same_part a b ≡ true → a ≡ b
same_part_eq a b e =
    let (id, index) = &&_parts _ _ e in
    ap₂ (λ (i : ℕ) (j : ℤ). (i, j)) ((==_iff a.0 b.0).0 id) (eq_ℤ-eq a.1 b.1 index)

-- How often a header was validated, when its row is written.
abbrev pub times_after : Option HeaderModel → ℤ
times_after none = pos 1
times_after (some old) = old.times_validated +ℤ pos 1

module _ (payload : CidPayload) (header_id : ℕ) where
  -- The columns are those of a transaction of the payload with the row's key, and the foreign key is
  -- the header's.
  abbrev pub IsTransaction : String → TxModelWithInsAndOuts → Type 0
  IsTransaction hash row =
      (trx : TxModelWithInsAndOuts) × Mem trx payload.transaction_cids
      × (trx.tx_hash ≡ hash)
      × (row ≡ record trx { header_id = pos header_id })

  -- The columns are those of an input, with the row's index, of a transaction of the payload.
  abbrev pub IsInput : ℕ × ℤ → TxInput → Type 0
  IsInput key row =
      (trx : TxModelWithInsAndOuts) × Mem trx payload.transaction_cids
      × Mem row trx.tx_inputs
      × (row.index ≡ key.1)

  abbrev pub IsOutput : ℕ × ℤ → TxOutput → Type 0
  IsOutput key row =
      (trx : TxModelWithInsAndOuts) × Mem trx payload.transaction_cids
      × Mem row trx.tx_outputs
      × (row.index ≡ key.1)

  -- What a statement after the header's does to the tables.
  pub record Adds (d n : Index) : Type 0 where
    pub keeps : Keeps d n
    pub headers_same : n.header_cids ≡ d.header_cids
    pub transactions_valued : Valued same_hash IsTransaction d.transaction_cids n.transaction_cids
    pub inputs_valued : Valued same_part IsInput d.tx_inputs n.tx_inputs
    pub outputs_valued : Valued same_part IsOutput d.tx_outputs n.tx_outputs

  pub Adds-refl : (d : Index) → Adds d d
  Adds-refl d = record {
    keeps = Keeps-refl d;
    headers_same = refl;
    transactions_valued = λ k r. r;
    inputs_valued = λ k r. r;
    outputs_valued = λ k r. r;
  }

  pub Adds-trans : (d m n : Index) → Adds d m → Adds m n → Adds d n
  Adds-trans d m n f s = record {
    keeps = Keeps-trans d m n f.keeps s.keeps;
    headers_same = s.headers_same ∙ f.headers_same;
    transactions_valued = λ k r. s.transactions_valued k (f.transactions_valued k r);
    inputs_valued = λ k r. s.inputs_valued k (f.inputs_valued k r);
    outputs_valued = λ k r. s.outputs_valued k (f.outputs_valued k r);
  }
