-- ===== src/Resync/Coverage.antt =====
-- Which heights a resync fetches.
use ipfs_blockchain_watcher.Prelude.{
  ℕ, ◌+◌, ◌-◌, ◌*◌, ◌≤◌, ◌<◌, ◌≡◌, refl, ap, sym, ◌∙◌, ltb, List, [], ◌∷◌, ◌++◌, All, flat_map,
  count_up, arith, if◌then◌else◌, Bool-cases, ◌⊎◌, inl, inr, length,
}
use mathlib.Core.List.{append_assoc}
use ipfs_blockchain_watcher.Prelude.Int.{u64_mod}
use ipfs_blockchain_watcher.Prelude.Results.{ok}
use ipfs_blockchain_watcher.Prelude.Occurrences.{
  total, occurrences, occurrences-flat_map, occurrences-range,
}
use ipfs_blockchain_watcher.Sql.Rows.{between}
use ipfs_blockchain_watcher.Utils.Bins.{get_block_height_bins-IsBinned}
use ipfs_blockchain_watcher.Workers.{Pool, Step, Run, start}
use ipfs_blockchain_watcher.Workers.Ending.{Finished, round-ends}
use ipfs_blockchain_watcher.Resync.{resync_batches}

-- No overflow of a uint64 at the end of the last batch of a range.
abbrev pub Fits : ℕ → List (ℕ × ℕ) → Type 0
Fits batch_size = All (λ rng. rng.1 + batch_size < u64_mod)

-- The heights from the first of a range to its last, of all ranges.
abbrev pub heights_of : List (ℕ × ℕ) → List ℕ
heights_of = flat_map (λ rng. count_up rng.0 (rng.1 + 1 - rng.0))

pub flat_map-append :
    (xs ys : List (List ℕ))
    → flat_map (λ b. b) (xs ++ ys) ≡ flat_map (λ b. b) xs ++ flat_map (λ b. b) ys
flat_map-append [] ys = refl
flat_map-append (x ∷ xs) ys =
    ap (◌++◌ x) (flat_map-append xs ys)
    ∙ sym (append_assoc x (flat_map (λ b. b) xs) (flat_map (λ b. b) ys))

-- For a batch size that is not zero, and ranges whose last batch does not overflow, a resync sends
-- batches with exactly the heights of the ranges, in their order, and without an error. A range that
-- ends before it starts has no height.
pub resync_batches-covers :
    (batch_size : ℕ) (rngs : List (ℕ × ℕ))
    → 0 < batch_size
    → Fits batch_size rngs
    → (flat_map (λ b. b) (resync_batches batch_size rngs).0 ≡ heights_of rngs)
      × ((resync_batches batch_size rngs).1 ≡ ok tt)
unfolding resync_batches
resync_batches-covers batch_size [] positive fits = (refl, refl)
resync_batches-covers batch_size ((first, last) ∷ rngs) positive fits =
    let rest = resync_batches-covers batch_size rngs positive fits.1 in
    elim (Bool-cases (ltb last first)) [
      | inl backwards ↦
          let no_height : last + 1 - first ≡ 0 = ground arith in
          rw (resync_batches, backwards, no_height) rest
      | inr forwards ↦
          let (bins, binned, covered) =
            get_block_height_bins-IsBinned first last batch_size (ground arith) positive fits.0 in
          rw (resync_batches, forwards, binned)
            (
              flat_map-append bins (resync_batches batch_size rngs).0
                  ∙ rw (covered.covers, rest.0) refl,
              rest.1,
            )
    ]

-- How many of the ranges have a height.
abbrev pub times_in : ℕ → List (ℕ × ℕ) → ℕ
times_in h = total (λ rng. if between rng h then 1 else 0)

total-ext :
    (h : ℕ) (rngs : List (ℕ × ℕ))
    → total (λ rng. occurrences h (count_up rng.0 (rng.1 + 1 - rng.0))) rngs ≡ times_in h rngs
total-ext h [] = refl
total-ext h ((first, last) ∷ rngs) = rw (occurrences-range h first last, total-ext h rngs) refl

-- A resync with a worker or more, of ranges whose last batch does not overflow, in batches that are
-- not empty, takes a bounded number of steps, and whenever its goroutines can take none all is done:
-- every worker was told to quit, and each height was fetched as often as there are ranges that it
-- lies in.
pub resync-fetches_ranges :
    (h batch_size : ℕ) (rngs : List (ℕ × ℕ)) (workers n : ℕ) (q : Pool (List ℕ))
    → 0 < batch_size
    → Fits batch_size rngs
    → 0 < workers
    → Run (List ℕ) n (start (List ℕ) workers (resync_batches batch_size rngs).0) q
    → (n ≤ 2 * length (resync_batches batch_size rngs).0 + workers)
      × (((r : Pool (List ℕ)) × Step (List ℕ) q r)
          ⊎ (Finished q × (total (occurrences h) q.finished ≡ times_in h rngs)))
resync-fetches_ranges h batch_size rngs workers n q positive fits some_worker run =
    let sent = (resync_batches batch_size rngs).0 in
    let (bound, outcome) = round-ends (occurrences h) workers sent n q some_worker run in
    let covered =
      sym (occurrences-flat_map h (λ (b : List ℕ). b) sent)
      ∙ ap (occurrences h) (resync_batches-covers batch_size rngs positive fits).0
      ∙ occurrences-flat_map h (λ (rng : ℕ × ℕ). count_up rng.0 (rng.1 + 1 - rng.0)) rngs
      ∙ total-ext h rngs in
    (bound, elim outcome [ inl step ↦ inl step | inr (done, same) ↦ inr (done, same ∙ covered) ])
