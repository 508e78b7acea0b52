-- ===== src/Utils/Bins.antt =====
-- GetBlockHeightBins: the batches are exactly the block range, in order, in batches of the size.
use Prim.Native.Nat.{min}
use native.Mathlib.Nat.{div-add-mod, mod-lt}
use ipfs_blockchain_watcher.Prelude.{
  ℕ, zero, suc, true, ltb, ◌+◌, ◌-◌, ◌*◌, ◌≤◌, ◌<◌, ◌≡◌, refl, ap, sym, ◌∙◌, List, ◌++◌, arith,
  length, count_up, count_up-add, count_up-length, All, flat_map,
}
use ipfs_blockchain_watcher.Prelude.Int.{u64_mod, add_u64, sub_u64}
use ipfs_blockchain_watcher.Prelude.Results.{ok, err}
use ipfs_blockchain_watcher.Utils.{
  block_range, block_range_bins, number_of_bins, get_block_height_bins,
}

-- One batch is the m numbers from its start, as far as the batch and the range go.
block_range-eq-count_up :
    (rounds j next stop m : ℕ)
    → rounds ≡ next - j
    → next < u64_mod
    → m ≡ min (next - j) (stop + 1 - j)
    → block_range rounds j next stop ≡ count_up j m
unfolding block_range
block_range-eq-count_up zero j next stop zero e h em = refl
block_range-eq-count_up zero j next stop (suc m) e h em = absurd (omega arith)
block_range-eq-count_up (suc rounds) j next stop zero e h em = ground arith
block_range-eq-count_up (suc rounds) j next stop (suc m) e h em =
    let no_wrap : add_u64 j 1 ≡ j + 1 = omega arith in
    let rest = block_range-eq-count_up rounds (j + 1) next stop m (omega arith) h (omega arith) in
    rw no_wrap (ground (arith, rest))

count_up_from : (a b n : ℕ) → (0 < n → a ≡ b) → count_up a n ≡ count_up b n
count_up_from a b zero h = refl
count_up_from a b (suc n) h = ap (λ k. count_up k (suc n)) (h (omega arith))

-- A batch and what follows it make up the range.
batch-rest :
    (start size n : ℕ)
    → count_up start (min size n) ++ count_up (start + size) (n - size) ≡ count_up start n
batch-rest start size n =
    let parts : n ≡ min size n + (n - size) = omega arith in
    let split = count_up-add start (min size n) (n - size) in
    let shift = count_up_from (start + min size n) (start + size) (n - size) (λ h. omega arith) in
    ap (◌++◌ (count_up start (min size n))) (sym shift)
    ∙ sym split
    ∙ ap (count_up start) (sym parts)

-- What the batches of a range from start to stop are, for batches of the given size.
pub record IsBinned (size start stop : ℕ) (bins : List (List ℕ)) : Type 0 where
  pub covers : flat_map (λ bin. bin) bins ≡ count_up start (stop + 1 - start)
  pub sizes : All (λ bin. (0 < length bin) × (length bin ≤ size)) bins

block_range_bins-IsBinned :
    (bins start stop size : ℕ)
    → 0 < size
    → stop + size < u64_mod
    → stop + 1 - start ≤ bins * size
    → bins * size < stop + 1 - start + size
    → IsBinned size start stop (block_range_bins bins start stop size)
unfolding block_range_bins
block_range_bins-IsBinned zero start stop size p o lo hi =
    let nothing : stop + 1 - start ≡ 0 = omega arith in record { covers = rw nothing; sizes = tt }
block_range_bins-IsBinned (suc bins) start stop size p o lo hi =
    let no_wrap : add_u64 start size ≡ start + size = omega arith in
    let m = min size (stop + 1 - start) in
    let step =
      block_range-eq-count_up (start + size - start) start (start + size) stop m refl (omega arith)
        (omega arith) in
    let rest =
      block_range_bins-IsBinned bins (start + size) stop size p o (omega arith) (omega arith) in
    let len = count_up-length start m in
    let less : stop + 1 - (start + size) ≡ stop + 1 - start - size = omega arith in
    rw (no_wrap, step)
      (record {
        covers = rw (rest.covers, less) (batch-rest start size (stop + 1 - start));
        sizes = ((omega (arith, len), omega (arith, len)), rest.sizes);
      })

number_of_bins_bounds :
    (n size : ℕ)
    → 0 < size
    → n < u64_mod
    → (n ≤ number_of_bins n size * size) × (number_of_bins n size * size < n + size)
unfolding number_of_bins
number_of_bins_bounds n size p o = grind (arith, div-add-mod n size, mod-lt n p)

-- For a range that is not empty, a batch size that is not zero, and no overflow of a uint64 at the
-- end of the last batch, the call succeeds, the batches in order are exactly the heights from the
-- first block to the last, each once, and no batch is empty or larger than the batch size.
pub get_block_height_bins-IsBinned :
    (start stop size : ℕ)
    → start ≤ stop
    → 0 < size
    → stop + size < u64_mod
    → (bins : List (List ℕ)) × (get_block_height_bins start stop size ≡ ok bins)
      × IsBinned size start stop bins
unfolding get_block_height_bins
get_block_height_bins-IsBinned start stop size h p o =
    let len : add_u64 (sub_u64 stop start) 1 ≡ stop + 1 - start = omega arith in
    let count = number_of_bins_bounds (stop + 1 - start) size p (omega arith) in
    let bins = block_range_bins (number_of_bins (stop + 1 - start) size) start stop size in
    (bins, rw len (ground arith), block_range_bins-IsBinned _ start stop size p o count.0 count.1)

-- A range that ends before it starts is an error.
pub get_block_height_bins-backwards :
    (start stop size : ℕ)
    → ltb stop start ≡ true
    → get_block_height_bins start stop size
      ≡ err "backfill: ending block number needs to be greater than starting block number"
unfolding get_block_height_bins
get_block_height_bins-backwards start stop size h = rw (get_block_height_bins, h) refl
