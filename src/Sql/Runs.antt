-- ===== src/Sql/Runs.antt =====
-- When the database refuses nothing, statements and transactions succeed.
use ipfs_blockchain_watcher.Prelude.{
  ℕ, ◌+◌, ◌≡◌, refl, ◌∙◌, ap, String, Option, none, List, [], ◌∷◌,
}
use ipfs_blockchain_watcher.Prelude.Results.{ok, ◌>>=◌}
use ipfs_blockchain_watcher.Sql.Upsert.{query, done, for_each, deferred_commit}
use ipfs_blockchain_watcher.Sql.Atomic.{Ensures}
use ipfs_blockchain_watcher.Sql.{Session, Statement, exec, and_then, transaction, for_ranges}

abbrev pub no_fault : ℕ → Option String
no_fault n = none

module _ {D : Type 0} where
  abbrev pub Runs : Statement D → Type 0
  Runs stmt = (s : Session D) → (t : Session D) × (stmt no_fault s ≡ ok t)

  pub exec-Runs : (effect : D → D) → Runs (exec effect)
  unfolding exec
  exec-Runs effect s = (_, refl)

  pub and_then-Runs : (a b : Statement D) → Runs a → Runs b → Runs (and_then a b)
  unfolding and_then
  and_then-Runs a b ra rb s =
      let (mid, first) = ra s in
      let (last, second) = rb mid in (last, ap (λ r. r >>= b no_fault) first ∙ second)

  pub transaction-Runs :
      (body : Statement D) (s : Session D) → Runs body → (transaction body no_fault s).1 ≡ ok tt
  unfolding transaction
  transaction-Runs body s runs =
      let (done, ran) = runs (record s { next = s.next + 1 }) in rw (transaction, ran) refl

pub more-Runs :
    {D : Type 0} (effect : D → D) (b : Statement D) → Runs b → Runs (and_then (exec effect) b)
more-Runs effect b = and_then-Runs (exec effect) b (exec-Runs effect)

pub for_ranges-Runs :
    {D : Type 0} (body : ℕ × ℕ → Statement D) (rngs : List (ℕ × ℕ))
    → ((rng : ℕ × ℕ) → Runs (body rng))
    → Runs (for_ranges body rngs)
unfolding for_ranges
for_ranges-Runs body [] runs = λ s. (s, refl)
for_ranges-Runs body (rng ∷ rngs) runs =
    and_then-Runs (body rng) (for_ranges body rngs) (runs rng) (for_ranges-Runs body rngs runs)

module _ {D : Type 0} where
  pub query-Runs :
      (effect : D → ℕ × D) (next : ℕ → Statement D)
      → ((i : ℕ) → Runs (next i))
      → Runs (query effect next)
  unfolding query
  query-Runs effect next runs s =
      runs (effect s.tables).0 (record { next = s.next + 1; tables = (effect s.tables).1 })

  pub done-Runs : Runs {D = D} done
  unfolding done
  done-Runs s = (s, refl)

  pub for_each-Runs :
      {A : Type 0} (body : A → Statement D) (xs : List A)
      → ((x : A) → Runs (body x))
      → Runs (for_each body xs)
  unfolding for_each
  for_each-Runs body [] runs = done-Runs
  for_each-Runs body (x ∷ xs) runs =
      and_then-Runs (body x) (for_each body xs) (runs x) (for_each-Runs body xs runs)

  pub deferred_commit-succeeds :
      (R : D → D → Type 0) (body : Statement D) (s : Session D)
      → Ensures R body
      → Runs body
      → ((deferred_commit body no_fault s).1 ≡ ok tt)
        × R s.tables (deferred_commit body no_fault s).0.tables
  unfolding deferred_commit
  deferred_commit-succeeds R body s has runs =
      let begun : Session D = record s { next = s.next + 1 } in
      let (last, ran) = runs begun in rw (deferred_commit, ran) (refl, has no_fault begun last ran)
