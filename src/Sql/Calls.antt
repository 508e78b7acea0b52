-- ===== src/Sql/Calls.antt =====
-- Calls outside of a transaction, after it.
use ipfs_blockchain_watcher.Prelude.{ℕ, ◌≡◌, refl, ◌∙◌, String, Option, ◌⊎◌, inl, inr}
use ipfs_blockchain_watcher.Prelude.Results.{Result, ok, err, panic, Result-cases}
use ipfs_blockchain_watcher.Sql.{Session, Statement, and_then, fail_with, vacuum, afterwards}
use ipfs_blockchain_watcher.Sql.Atomic.{Ensures, exec-Ensures, and_then-Ensures}

abbrev pub Failed : Result (Unit {0}) → Type 0
Failed r = r ≡ panic ⊎ ((e : String) × (r ≡ err e))

-- Statements that change nothing.
abbrev pub Idle : {D : Type 0} → D → D → Type 0
Idle d d' = d' ≡ d

pub Idle-trans : {D : Type 0} (d m n : D) → m ≡ d → n ≡ m → n ≡ d
Idle-trans d m n f s = s ∙ f

module _ {D : Type 0} where
  pub vacuum-Idle : Ensures {D = D} Idle vacuum
  vacuum-Idle = exec-Ensures Idle (λ d. d) (λ d. refl)

  pub vacuum-more : {b : Statement D} → Ensures Idle b → Ensures Idle (and_then vacuum b)
  vacuum-more = and_then-Ensures Idle-trans vacuum-Idle

-- A later call that changes no table, after a transaction: its success or not is that of both.
pub afterwards-Idle :
    {D : Type 0} (last : Statement D) (fault : ℕ → Option String) (s : Session D)
    → Ensures Idle last
    → ((afterwards last fault (s, ok tt)).0.tables ≡ s.tables)
      × ((afterwards last fault (s, ok tt)).1 ≡ ok tt ⊎ Failed (afterwards last fault (s, ok tt)).1)
unfolding afterwards
afterwards-Idle last fault s idle = elim (Result-cases (last fault s)) [
  | inl (t, ran) ↦ rw (afterwards, ran) (idle fault s t ran, inl refl)
  | inr (inl (e, failed)) ↦ rw (afterwards, failed) (refl, inr (inr (e, refl)))
  | inr (inr failed) ↦ rw (afterwards, failed) (refl, inr (inl refl))
]

pub afterwards-Failed :
    {D : Type 0} (last : Statement D) (fault : ℕ → Option String) (s : Session D)
    (r : Result (Unit {0}))
    → Failed r
    → (afterwards last fault (s, r)).0.tables ≡ s.tables × Failed (afterwards last fault (s, r)).1
unfolding afterwards
afterwards-Failed last fault s panic f = (refl, inl refl)
afterwards-Failed last fault s (err e) f = (refl, inr (e, refl))
afterwards-Failed last fault s (ok done) f = absurd (ok-ne f)
  where
    ok-ne : {done : Unit {0}} → Failed (ok done) → ⊥
    ok-ne (inl e) = cc
    ok-ne (inr (e, h)) = cc

pub afterwards-fail_with :
    {D : Type 0} (e : String) (fault : ℕ → Option String) (s : Session D) (r : Result (Unit {0}))
    → ((afterwards (fail_with e) fault (s, r)).0.tables ≡ s.tables)
      × Failed (afterwards (fail_with e) fault (s, r)).1
unfolding afterwards fail_with
afterwards-fail_with e fault s panic = (refl, inl refl)
afterwards-fail_with e fault s (err m) = (refl, inr (m, refl))
afterwards-fail_with e fault s (ok done) = (refl, inr (e, refl))

pub afterwards-ok :
    {D : Type 0} (last : Statement D) (fault : ℕ → Option String) (s t : Session D)
    → last fault s ≡ ok t
    → afterwards last fault (s, ok tt) ≡ (t, ok tt)
unfolding afterwards
afterwards-ok last fault s t ran = rw (afterwards, ran) refl
