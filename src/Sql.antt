-- ===== src/Sql.antt =====
-- Transactions of the database connection (sqlx over Postgres, pkg/postgres), as the cleaners and indexers use
-- them: a statement changes the tables or fails, and a failed transaction is rolled back.
pub mod Atomic
pub mod Rows
pub mod Runs
pub mod Revalidate
pub mod Calls
pub mod Upsert
pub mod Values
use ipfs_blockchain_watcher.Prelude.{ℕ, ◌+◌, String, Option, none, some, List, [], ◌∷◌}
use ipfs_blockchain_watcher.Prelude.Results.{Result, ok, err, panic, ◌>>=◌}

-- The number of the next statement, and the tables that the statements made so far.
pub record Session (D : Type 0) : Type 0 where
  pub next : ℕ
  pub tables : D

-- A part of a transaction: what it makes of a session, or the error that ends it. The first argument
-- says which statements the database refuses, by their number, and with which error.
abbrev pub Statement : Type 0 → Type 0
Statement D = (ℕ → Option String) → Session D → Result (Session D)

-- tx.Exec, for a statement with this effect.
unfoldable pub exec : {D : Type 0} → (D → D) → Statement D
exec effect fault s = elim (fault s.next) [
  | none ↦ ok (record { next = s.next + 1; tables = effect s.tables })
  | some e ↦ err e
]

-- `if err := a; err != nil { return err }; return b`
unfoldable pub and_then : {D : Type 0} → Statement D → Statement D → Statement D
and_then a b fault s = a fault s >>= b fault

-- Nothing is executed.
unfoldable pub fail_with : {D : Type 0} → String → Statement D
fail_with e fault s = err e

-- Beginx, the body, and Rollback on its error or else Commit: the session after it, and its error.
unfoldable pub transaction :
    {D : Type 0} → Statement D → (ℕ → Option String) → Session D → Session D × Result (Unit {0})
transaction body fault s = elim (fault s.next) [
  | some e ↦ (record s { next = s.next + 1 }, err e)
  | none ↦ elim (body fault (record s { next = s.next + 1 })) [
    | err e ↦ (record s { next = s.next + 1 }, err e)
    | panic ↦ (record s { next = s.next + 1 }, panic)
    | ok done ↦ elim (fault done.next) [
      | some e ↦ (record { next = done.next + 1; tables = s.tables }, err e)
      | none ↦ (record { next = done.next + 1; tables = done.tables }, ok tt)
    ]
  ]
]

-- `for _, rng := range rngs`
unfoldable pub for_ranges : {D : Type 0} → (ℕ × ℕ → Statement D) → List (ℕ × ℕ) → Statement D
for_ranges body [] = λ fault s. ok s
for_ranges body (rng ∷ rngs) = and_then (body rng) (for_ranges body rngs)

-- VACUUM ANALYZE changes no row. A call is c.db.Exec: not part of a transaction.
abbrev pub vacuum : {D : Type 0} → Statement D
vacuum = exec (λ d. d)

-- A call outside of a transaction, after one: its error is the error of both.
unfoldable pub afterwards :
    {D : Type 0}
    → Statement D
    → (ℕ → Option String)
    → Session D × Result (Unit {0})
    → Session D × Result (Unit {0})
afterwards last fault (s, err e) = (s, err e)
afterwards last fault (s, panic) = (s, panic)
afterwards last fault (s, ok done) = elim (last fault s) [
  | ok t ↦ (t, ok tt)
  | err e ↦ (s, err e)
  | panic ↦ (s, panic)
]
