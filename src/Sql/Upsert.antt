-- ===== src/Sql/Upsert.antt =====
-- INSERT ... ON CONFLICT (key) DO UPDATE ... RETURNING id, on a table with one unique key, and the
-- statements and transactions of pkg/eth/indexer.go.
use ipfs_blockchain_watcher.Prelude.{
  ℕ, ◌+◌, ◌≡◌, refl, Bool, true, String, List, [], ◌∷◌, Option, none, some, if◌then◌else◌,
  Bool-cases, Option-cases, inl, inr, ◌⊎◌, subst,
}
use ipfs_blockchain_watcher.Prelude.Results.{Result, ok, err, panic, Result-cases}
use ipfs_blockchain_watcher.Sql.{Session, Statement, and_then}
use ipfs_blockchain_watcher.Sql.Calls.{Failed}
use ipfs_blockchain_watcher.Sql.Atomic.{Ensures}

pub record Entry (K V : Type 0) : Type 0 where
  pub id : ℕ
  pub key : K
  pub value : V

-- next_id is what the SERIAL column gives next.
pub record Table (K V : Type 0) : Type 0 where
  pub next_id : ℕ
  pub entries : List (Entry K V)

module _ {K V : Type 0} (same : K → K → Bool) where
  abbrev find_entry : K → List (Entry K V) → Option ℕ
  find_entry k [] = none
  find_entry k (e ∷ es) = if same e.key k then some e.id else find_entry k es

  -- The id of the row with a key.
  abbrev pub find_id : K → Table K V → Option ℕ
  find_id k t = find_entry k t.entries

  abbrev pub Has : K → Table K V → Type 0
  Has k t = (i : ℕ) × (find_id k t ≡ some i)

  unfoldable pub upsert_entries : ℕ → K → V → (V → V) → List (Entry K V) → ℕ × List (Entry K V)
  upsert_entries next k fresh update [] = (next, record { id = next; key = k; value = fresh } ∷ [])
  upsert_entries next k fresh update (e ∷ es) =
      let rest = upsert_entries next k fresh update es in
      if same e.key k
      then (e.id, record e { value = update e.value } ∷ es)
      else (rest.0, e ∷ rest.1)

  -- The id of the row with the key, and the table, after the statement.
  unfoldable pub upsert : K → V → (V → V) → Table K V → ℕ × Table K V
  unfolding upsert_entries
  upsert k fresh update t =
      let out = upsert_entries t.next_id k fresh update t.entries in
      (out.0, record { next_id = t.next_id + 1; entries = out.1 })

  entries-find :
      (next : ℕ) (k : K) (fresh : V) (update : V → V) (es : List (Entry K V))
      → same k k ≡ true
      → find_entry k (upsert_entries next k fresh update es).1
        ≡ some (upsert_entries next k fresh update es).0
  unfolding upsert_entries
  entries-find next k fresh update [] r = rw r refl
  entries-find next k fresh update (e ∷ es) r = elim (Bool-cases (same e.key k)) [
    | inl found ↦ rw (upsert_entries, found) (rw found refl)
    | inr other ↦ rw (upsert_entries, other) (rw other (entries-find next k fresh update es r))
  ]

  entries-keep :
      (next : ℕ) (k : K) (fresh : V) (update : V → V) (es : List (Entry K V)) (j : K) (i : ℕ)
      → find_entry j es ≡ some i
      → find_entry j (upsert_entries next k fresh update es).1 ≡ some i
  unfolding upsert_entries
  entries-keep next k fresh update [] j i h = absurd (none-ne-some h)
    where
      none-ne-some : {i : ℕ} → none ≡ some i → ⊥
      none-ne-some e = cc
  entries-keep next k fresh update (e ∷ es) j i h = elim (Bool-cases (same e.key k)) [
    | inl found ↦ rw (upsert_entries, found) h
    | inr other ↦ elim (Bool-cases (same e.key j)) [
      | inl here ↦ rw (upsert_entries, other, here) (rw here at h)
      | inr there ↦
          rw (upsert_entries, other, there)
            (entries-keep next k fresh update es j i (rw there at h))
    ]
  ]

  -- The statement returns the id that its key has afterwards.
  pub upsert-find :
      (k : K) (fresh : V) (update : V → V) (t : Table K V)
      → same k k ≡ true
      → find_id k (upsert k fresh update t).1 ≡ some (upsert k fresh update t).0
  unfolding upsert
  upsert-find k fresh update t r = entries-find t.next_id k fresh update t.entries r

  -- Every key keeps its id.
  pub upsert-keeps :
      (k : K) (fresh : V) (update : V → V) (t : Table K V) (j : K) (i : ℕ)
      → find_id j t ≡ some i
      → find_id j (upsert k fresh update t).1 ≡ some i
  unfolding upsert
  upsert-keeps k fresh update t j i h = entries-keep t.next_id k fresh update t.entries j i h

module _ {D : Type 0} where
  -- tx.QueryRowx(...).Scan(&id), and what follows it.
  unfoldable pub query : (D → ℕ × D) → (ℕ → Statement D) → Statement D
  query effect next fault s = elim (fault s.next) [
    | some e ↦ err e
    | none ↦
        next (effect s.tables).0 fault (record { next = s.next + 1; tables = (effect s.tables).1 })
  ]

  unfoldable pub done : Statement D
  done fault s = ok s

  -- `for _, x := range xs { if err := ...; err != nil { return err } }`
  unfoldable pub for_each : {A : Type 0} → (A → Statement D) → List A → Statement D
  unfolding done
  for_each body [] = done
  for_each body (x ∷ xs) = and_then (body x) (for_each body xs)

  -- Beginx, the body, and the deferred function: after an error the transaction is aborted, so that
  -- its Rollback or Commit leaves nothing of it. The error of Commit is set on a variable that is not
  -- the result.
  unfoldable pub deferred_commit :
      Statement D → (ℕ → Option String) → Session D → Session D × Result (Unit {0})
  deferred_commit body fault s = elim (fault s.next) [
    | some e ↦ (record s { next = s.next + 1 }, err e)
    | none ↦ elim (body fault (record s { next = s.next + 1 })) [
      | err e ↦ (record s { next = s.next + 1 }, err e)
      | panic ↦ (record s { next = s.next + 1 }, panic)
      | ok last ↦ elim (fault last.next) [
        | some e ↦ (record { next = last.next + 1; tables = s.tables }, ok tt)
        | none ↦ (record { next = last.next + 1; tables = last.tables }, ok tt)
      ]
    ]
  ]

  pub query-Ensures :
      (R : ℕ → D → D → Type 0) (Q : D → D → Type 0) (effect : D → ℕ × D) (next : ℕ → Statement D)
      → ((d n : D) → R (effect d).0 (effect d).1 n → Q d n)
      → ((i : ℕ) → Ensures (R i) (next i))
      → Ensures Q (query effect next)
  unfolding query
  query-Ensures R Q effect next step rest fault s t e = elim (Option-cases (fault s.next)) [
    | inl fine ↦ step s.tables t.tables (
        rest (effect s.tables).0 fault (record { next = s.next + 1; tables = (effect s.tables).1 })
          t (rw (query, fine) at e))
    | inr (m, failed) ↦ absurd (err-ne-ok (rw (query, failed) at e))
  ]
    where
      err-ne-ok : {m : String} {t : Session D} → err m ≡ ok t → ⊥
      err-ne-ok e = cc

  pub done-Ensures : (R : D → D → Type 0) → ((d : D) → R d d) → Ensures R done
  unfolding done
  done-Ensures R same fault s t e =
      subst (λ x. R s.tables x.tables) (ok-injective e) (same s.tables)
    where
      ok-injective : {s t : Session D} → ok s ≡ ok t → s ≡ t
      ok-injective e = cc

  -- A transaction was begun, its body ran to its end and has done R, and then the database refused the
  -- Commit.
  abbrev pub CommitRefused :
      (D → D → Type 0) → Statement D → (ℕ → Option String) → Session D → Type 0
  CommitRefused R body fault s =
      (fault s.next ≡ none)
      × (last : Session D) × (body fault (record s { next = s.next + 1 }) ≡ ok last)
      × R s.tables last.tables
      × (e : String) × (fault last.next ≡ some e)

  -- The outcomes of a transaction whose Commit is deferred: all is done; or nothing, and there is an
  -- error, or there is none and the database refused the Commit.
  pub deferred_commit-outcome :
      (R : D → D → Type 0) (body : Statement D) (fault : ℕ → Option String) (s : Session D)
      → Ensures R body
      → (R s.tables (deferred_commit body fault s).0.tables
          × ((deferred_commit body fault s).1 ≡ ok tt))
        ⊎ (((deferred_commit body fault s).0.tables ≡ s.tables)
            × (Failed (deferred_commit body fault s).1
                ⊎ (((deferred_commit body fault s).1 ≡ ok tt) × CommitRefused R body fault s)))
  unfolding deferred_commit
  deferred_commit-outcome R body fault s has = elim (Option-cases (fault s.next)) [
    | inr (e, failed) ↦ rw (deferred_commit, failed) (inr (refl, inl (inr (e, refl))))
    | inl begun ↦ elim (Result-cases (body fault (record s { next = s.next + 1 }))) [
      | inr (inl (e, failed)) ↦
          rw (deferred_commit, begun, failed) (inr (refl, inl (inr (e, refl))))
      | inr (inr failed) ↦ rw (deferred_commit, begun, failed) (inr (refl, inl (inl refl)))
      | inl (last, ran) ↦
          let did = has fault (record s { next = s.next + 1 }) last ran in
          elim (Option-cases (fault last.next)) [
            | inr (e, failed) ↦
                let refused : CommitRefused R body fault s = (begun, last, ran, did, e, failed) in
                with_refusal refused (rw (deferred_commit, begun, ran, failed) (refl, refl))
            | inl committed ↦ rw (deferred_commit, begun, ran, committed) (inl (did, refl))
          ]
    ]
  ]
    where
      with_refusal :
          CommitRefused R body fault s
          → ((deferred_commit body fault s).0.tables ≡ s.tables)
            × ((deferred_commit body fault s).1 ≡ ok tt)
          → (R s.tables (deferred_commit body fault s).0.tables
              × ((deferred_commit body fault s).1 ≡ ok tt))
            ⊎ (((deferred_commit body fault s).0.tables ≡ s.tables)
                × (Failed (deferred_commit body fault s).1
                    ⊎ (((deferred_commit body fault s).1 ≡ ok tt) × CommitRefused R body fault s)))
      with_refusal refused (same, fine) = inr (same, inr (fine, refused))
