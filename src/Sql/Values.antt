-- ===== src/Sql/Values.antt =====
-- The columns of the rows of a table with one unique key, after INSERT ... ON CONFLICT (key) DO UPDATE.
use mathlib.Core.List.{Mem, mem-cons_self, mem-cons_of_mem}
use ipfs_blockchain_watcher.Prelude.{
  ℕ, ◌≡◌, refl, sym, ◌∙◌, subst, Bool, true, List, [], ◌∷◌, Option, none, some, if◌then◌else◌,
  Bool-cases, inl, inr, All,
}
use ipfs_blockchain_watcher.Sql.{Statement}
use ipfs_blockchain_watcher.Sql.Atomic.{Ensures, and_then-Ensures}
use ipfs_blockchain_watcher.Sql.Upsert.{
  Entry, Table, upsert_entries, upsert, done-Ensures, for_each,
}

-- What an upsert writes where there was a row, or none.
abbrev pub written : {V : Type 0} → V → (V → V) → Option V → V
written fresh update none = fresh
written fresh update (some old) = update old

module _ {K V : Type 0} (same : K → K → Bool) where
  abbrev find_value : K → List (Entry K V) → Option V
  find_value k [] = none
  find_value k (e ∷ es) = if same e.key k then some e.value else find_value k es

  -- The columns of the row with a key.
  abbrev pub value_at : K → Table K V → Option V
  value_at k t = find_value k t.entries

  -- There is a row with the key, and its columns are as they are to be for the key.
  abbrev pub Row : (K → V → Type 0) → K → Table K V → Type 0
  Row Good k t = (v : V) × (value_at k t ≡ some v) × Good k v

  entries-value :
      (next : ℕ) (k : K) (fresh : V) (update : V → V) (es : List (Entry K V))
      → same k k ≡ true
      → find_value k (upsert_entries same next k fresh update es).1
        ≡ some (written fresh update (find_value k es))
  unfolding upsert_entries
  entries-value next k fresh update [] r = rw r refl
  entries-value next k fresh update (e ∷ es) r = elim (Bool-cases (same e.key k)) [
    | inl found ↦ rw (upsert_entries, found) (rw found refl)
    | inr other ↦ rw (upsert_entries, other) (rw other (entries-value next k fresh update es r))
  ]

  -- The row of the statement's key.
  pub upsert-value_at :
      (k : K) (fresh : V) (update : V → V) (t : Table K V)
      → same k k ≡ true
      → value_at k (upsert same k fresh update t).1 ≡ some (written fresh update (value_at k t))
  unfolding upsert
  upsert-value_at k fresh update t r = entries-value t.next_id k fresh update t.entries r

  -- Every row that is as it is to be stays so.
  abbrev pub Valued : (K → V → Type 0) → Table K V → Table K V → Type 0
  Valued Good t t' = (k : K) → Row Good k t → Row Good k t'

  module _ (sound : (a b : K) → same a b ≡ true → a ≡ b) (Good : K → V → Type 0) where
    entries-Valued :
        (next : ℕ) (k : K) (row : V) (es : List (Entry K V)) (j : K) (v : V)
        → Good k row
        → find_value j es ≡ some v
        → Good j v
        → (w : V) × (find_value j (upsert_entries same next k row (λ old. row) es).1 ≡ some w)
          × Good j w
    unfolding upsert_entries
    entries-Valued next k row [] j v good h fine = absurd (none-ne-some h)
      where
        none-ne-some : {v : V} → none ≡ some v → ⊥
        none-ne-some e = cc
    entries-Valued next k row (e ∷ es) j v good h fine = elim (Bool-cases (same e.key j)) [
      | inl here ↦ elim (Bool-cases (same e.key k)) [
        | inl found ↦ (
          row,
          rw (upsert_entries, found) (rw here refl),
          subst (λ x. Good x row) (sym (sound e.key k found) ∙ sound e.key j here) good,
        )
        | inr other ↦ (v, rw (upsert_entries, other) (rw here (rw here at h)), fine)
      ]
      | inr there ↦ elim (Bool-cases (same e.key k)) [
        | inl found ↦ (v, rw (upsert_entries, found) (rw there (rw there at h)), fine)
        | inr other ↦
            let (w, at_j, good_w) = entries-Valued next k row es j v good (rw there at h) fine in
            (w, rw (upsert_entries, other) (rw there at_j), good_w)
      ]
    ]

    -- A statement that writes the same columns on an insert and on an update.
    pub upsert-Valued :
        (k : K) (row : V) (t : Table K V)
        → Good k row
        → Valued Good t (upsert same k row (λ old. row) t).1
    unfolding upsert
    upsert-Valued k row t good j (v, h, fine) =
        entries-Valued t.next_id k row t.entries j v good h fine

  -- The row that such a statement has written.
  pub upsert-Row :
      (Good : K → V → Type 0) (k : K) (row : V) (t : Table K V)
      → same k k ≡ true
      → Good k row
      → Row Good k (upsert same k row (λ old. row) t).1
  upsert-Row Good k row t r good =
      (_, upsert-value_at k row (λ old. row) t r, same_row (value_at k t))
    where
      same_row : (old : Option V) → Good k (written row (λ old. row) old)
      same_row none = good
      same_row (some old) = good

-- What a loop ensures, when every round ensures something of its element, which is one of the list's,
-- and keeps what the other rounds ensured of theirs.
pub for_each-Ensures :
    {D A : Type 0} (P : A → D → Type 0) (K : D → D → Type 0) (body : A → Statement D) (xs : List A)
    → ((d : D) → K d d)
    → ((d m n : D) → K d m → K m n → K d n)
    → ((x : A) (d n : D) → K d n → P x d → P x n)
    → ((x : A) → Mem x xs → Ensures (λ d n. P x n × K d n) (body x))
    → Ensures (λ d n. All (λ x. P x n) xs × K d n) (for_each body xs)
unfolding for_each
for_each-Ensures P K body [] same both stable each = done-Ensures _ (λ d. (tt, same d))
for_each-Ensures P K body (x ∷ xs) same both stable each =
    and_then-Ensures
      (λ d m n first rest. ((stable x m n rest.1 first.0, rest.0), both d m n first.1 rest.1))
      (each x mem-cons_self)
      (for_each-Ensures P K body xs same both stable (λ y m. each y (mem-cons_of_mem x m)))
