-- ===== src/Sql/Revalidate.antt =====
-- Setting the validation level of the headers in block ranges to 0, range by range.
use ipfs_blockchain_watcher.Prelude.{
  ℕ, ◌≡◌, refl, ap, List, [], ◌∷◌, any, map, if◌then◌else◌, Bool-cases, inl, inr,
}
use ipfs_blockchain_watcher.Sql.Rows.{HeaderRow, between}

-- SET times_validated = 0 WHERE block_number BETWEEN $1 AND $2
unfoldable pub reset_header : ℕ × ℕ → HeaderRow → HeaderRow
reset_header rng h = if between rng h.block_number then record h { times_validated = 0 } else h

-- A header as it is to be after all the ranges.
abbrev pub revalidated : List (ℕ × ℕ) → HeaderRow → HeaderRow
revalidated rngs h =
    if any (λ rng. between rng h.block_number) rngs then record h { times_validated = 0 } else h

revalidated-reset_header :
    (rng : ℕ × ℕ) (rngs : List (ℕ × ℕ)) (h : HeaderRow)
    → revalidated rngs (reset_header rng h) ≡ revalidated (rng ∷ rngs) h
unfolding reset_header
revalidated-reset_header rng rngs h = elim (Bool-cases (between rng h.block_number)) [
  | inr out ↦ rw (reset_header, out) refl
  | inl hit ↦ elim (Bool-cases (any (λ r. between r h.block_number) rngs)) [
    | inl again ↦ rw (reset_header, hit, again) refl
    | inr never ↦ rw (reset_header, hit, never) refl
  ]
]

pub map-revalidated :
    (rng : ℕ × ℕ) (rngs : List (ℕ × ℕ)) (hs : List HeaderRow)
    → map (revalidated rngs) (map (reset_header rng) hs) ≡ map (revalidated (rng ∷ rngs)) hs
map-revalidated rng rngs [] = refl
map-revalidated rng rngs (h ∷ hs) =
    rw (revalidated-reset_header rng rngs h, map-revalidated rng rngs hs) refl

pub map-revalidated_none : (hs : List HeaderRow) → map (revalidated []) hs ≡ hs
map-revalidated_none [] = refl
map-revalidated_none (h ∷ hs) = ap (◌∷◌ h) (map-revalidated_none hs)
