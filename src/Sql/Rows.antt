-- ===== src/Sql/Rows.antt =====
-- Rows of the index tables, by the columns that the cleaners' statements read, and deletion with
-- the ON DELETE CASCADE of db/migrations.
use ipfs_blockchain_watcher.Prelude.{
  ℕ, ◌≡◌, refl, String, Bool, true, false, ◌&&◌, not, List, [], ◌∷◌, any, All, keep, leb, arith,
  Bool-cases, inl, inr,
}

-- eth.header_cids and btc.header_cids
pub record HeaderRow : Type 0 where
  pub id : ℕ
  pub block_number : ℕ
  pub mh_key : String
  pub times_validated : ℕ

-- A row that belongs to a row of another table, and has a block.
pub record CidRow : Type 0 where
  pub id : ℕ
  pub parent : ℕ
  pub mh_key : String

-- A row that belongs to a row of another table only.
pub record PartRow : Type 0 where
  pub id : ℕ
  pub parent : ℕ

-- BETWEEN $1 AND $2
abbrev pub between : ℕ × ℕ → ℕ → Bool
between rng n = leb rng.0 n && leb n rng.1

module _ {A : Type 0} where
  -- The rows that are not deleted.
  abbrev pub remove : (A → Bool) → List A → List A
  remove dead = keep (λ a. not (dead a))

  -- Whether a row with a property is deleted.
  abbrev pub loses : (A → Bool) → (A → Bool) → List A → Bool
  loses dead p = any (λ a. dead a && p a)

  pub any-remove :
      (dead p q : A → Bool) (xs : List A)
      → ((a : A) → p a ≡ true → q a ≡ true)
      → any p (remove dead xs) ≡ true
      → any q xs ≡ true
  any-remove dead p q [] h e = e
  any-remove dead p q (x ∷ xs) h e = elim (Bool-cases (dead x)) [
    | inl gone ↦ ground (arith, any-remove dead p q xs h)
    | inr left ↦ ground (arith, h x, any-remove dead p q xs h)
  ]

  pub any-remove-false :
      (dead p : A → Bool) (xs : List A)
      → ((a : A) → p a ≡ true → dead a ≡ true)
      → any p (remove dead xs) ≡ false
  any-remove-false dead p [] h = refl
  any-remove-false dead p (x ∷ xs) h = ground (arith, h x, any-remove-false dead p xs h)

  -- A row that was there and was not deleted is still there.
  pub any-remove-true :
      (dead p : A → Bool) (xs : List A)
      → any p xs ≡ true
      → loses dead p xs ≡ false
      → any p (remove dead xs) ≡ true
  any-remove-true dead p [] e h = e
  any-remove-true dead p (x ∷ xs) e h = ground (arith, any-remove-true dead p xs)

  pub All-remove :
      (dead : A → Bool) (P Q : A → Type 0) (xs : List A)
      → ((a : A) → dead a ≡ false → P a → Q a)
      → All P xs
      → All Q (remove dead xs)
  All-remove dead P Q [] h a = tt
  All-remove dead P Q (x ∷ xs) h a = elim (Bool-cases (dead x)) [
    | inl gone ↦ rw gone (All-remove dead P Q xs h a.1)
    | inr left ↦ rw left (h x left a.0, All-remove dead P Q xs h a.1)
  ]
