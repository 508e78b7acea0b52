-- ===== src/Sql/Atomic.antt =====
-- A transaction makes the change of all its statements, or none.
use ipfs_blockchain_watcher.Prelude.{
  ℕ, ◌+◌, ◌≡◌, refl, subst, String, Option, ◌⊎◌, inl, inr, Option-cases,
}
use ipfs_blockchain_watcher.Prelude.Results.{Result, ok, err, panic, >>=-eq-ok, Result-cases}
use ipfs_blockchain_watcher.Sql.{Session, Statement, exec, and_then, fail_with, transaction}

module _ {D : Type 0} where
  -- A statement that, when it succeeds, relates the tables before it and after it.
  abbrev pub Ensures : (D → D → Type 0) → Statement D → Type 0
  Ensures R stmt =
      (fault : ℕ → Option String) (s t : Session D) → stmt fault s ≡ ok t → R s.tables t.tables

  ok-tables :
      {n : ℕ} {d : D} {t : Session D} → ok (record { next = n; tables = d }) ≡ ok t → d ≡ t.tables
  ok-tables {d = d} {t} e = cc

  err-ne-ok : {e : String} {t : Session D} → err e ≡ ok t → ⊥
  err-ne-ok e = cc

  pub exec-Ensures :
      (R : D → D → Type 0) (effect : D → D) → ((d : D) → R d (effect d)) → Ensures R (exec effect)
  unfolding exec
  exec-Ensures R effect h fault s t e = elim (Option-cases (fault s.next)) [
    | inl fine ↦ subst (R s.tables) (ok-tables (rw (exec, fine) at e)) (h s.tables)
    | inr (m, failed) ↦ absurd (err-ne-ok (rw (exec, failed) at e))
  ]

  pub fail_with-Ensures : (R : D → D → Type 0) (e : String) → Ensures R (fail_with e)
  unfolding fail_with
  fail_with-Ensures R e fault s t h = absurd (err-ne-ok h)

  pub and_then-Ensures :
      {R S Q : D → D → Type 0} {a b : Statement D}
      → ((d m n : D) → R d m → S m n → Q d n)
      → Ensures R a
      → Ensures S b
      → Ensures Q (and_then a b)
  unfolding and_then
  and_then-Ensures {a = a} {b} both ha hb fault s t h =
      let (mid, first, later) = >>=-eq-ok (a fault s) (b fault) h in
      both s.tables mid.tables t.tables (ha fault s mid first) (hb fault mid t later)

  -- What a transaction left: its change and no error, or no change and an error.
  abbrev pub Atomic : (D → D → Type 0) → D → Session D × Result (Unit {0}) → Type 0
  Atomic R d out =
      ((out.1 ≡ ok tt) × R d out.0.tables)
      ⊎ ((out.1 ≡ panic ⊎ ((e : String) × (out.1 ≡ err e))) × (out.0.tables ≡ d))

  pub transaction-Atomic :
      (R : D → D → Type 0) (body : Statement D) (fault : ℕ → Option String) (s : Session D)
      → Ensures R body
      → Atomic R s.tables (transaction body fault s)
  unfolding transaction
  transaction-Atomic R body fault s has = elim (Option-cases (fault s.next)) [
    | inr (e, failed) ↦ rw (transaction, failed) (inr (inr (e, refl), refl))
    | inl begun ↦ elim (Result-cases (body fault (record s { next = s.next + 1 }))) [
      | inr (inl (e, failed)) ↦ rw (transaction, begun, failed) (inr (inr (e, refl), refl))
      | inr (inr failed) ↦ rw (transaction, begun, failed) (inr (inl refl, refl))
      | inl (done, ran) ↦ elim (Option-cases (fault done.next)) [
        | inr (e, failed) ↦ rw (transaction, begun, ran, failed) (inr (inr (e, refl), refl))
        | inl committed ↦
            rw (transaction, begun, ran, committed)
              (inl (refl, has fault (record s { next = s.next + 1 }) done ran))
      ]
    ]
  ]
