-- ===== src/Historical/Passes.antt =====
-- Which heights a search pass fetches.
use ipfs_blockchain_watcher.Prelude.{
  ℕ, ◌+◌, ◌-◌, ◌<◌, ◌≡◌, refl, ap, ◌∙◌, false, ltb, leb, ◌==◌, ◌&&◌, ◌||◌, not, List, [], ◌∷◌, ◌++◌,
  All, flat_map, count_up, contains, arith, if◌then◌else◌, Bool-cases, inl, inr, length, any-append,
}
use ipfs_blockchain_watcher.Prelude.Int.{u64_mod}
use ipfs_blockchain_watcher.Prelude.Results.{ok}
use ipfs_blockchain_watcher.Shared.Types.{Gap}
use ipfs_blockchain_watcher.Utils.Bins.{
  get_block_height_bins-IsBinned, get_block_height_bins-backwards,
}
use ipfs_blockchain_watcher.Utils.Gaps.{covered}
use ipfs_blockchain_watcher.Resync.Coverage.{flat_map-append}
use ipfs_blockchain_watcher.Retriever.{HeaderRow, eth_gaps_in_data, numbers, low_heights}
use ipfs_blockchain_watcher.Retriever.Queries.{Small}
use ipfs_blockchain_watcher.Retriever.Absent.{reached}
use ipfs_blockchain_watcher.Retriever.Gaps.{no_faults, gaps_in_data-covered}
use ipfs_blockchain_watcher.Historical.{BackFillService, back_fill_batches, search_pass}

-- No overflow of a uint64 at the end of the last batch of a gap.
abbrev pub Fits : ℕ → List Gap → Type 0
Fits batch_size = All (λ gap. gap.stop + batch_size < u64_mod)

abbrev pub heights_of : List Gap → List ℕ
heights_of = flat_map (λ gap. count_up gap.start (gap.stop + 1 - gap.start))

-- For a batch size that is not zero, and gaps whose last batch does not overflow, the backfill sends
-- batches with exactly the heights of the gaps, in their order.
pub back_fill_batches-covers :
    (batch_size : ℕ) (gaps : List Gap)
    → 0 < batch_size
    → Fits batch_size gaps
    → (batches : List (List ℕ)) × (back_fill_batches batch_size gaps ≡ ok batches)
      × (flat_map (λ b. b) batches ≡ heights_of gaps)
unfolding back_fill_batches
back_fill_batches-covers batch_size [] positive fits = ([], refl, refl)
back_fill_batches-covers batch_size (gap ∷ gaps) positive fits =
    let (rest, sent, covers) = back_fill_batches-covers batch_size gaps positive fits.1 in
    elim (Bool-cases (ltb gap.stop gap.start)) [
      | inl backwards ↦
          let no_height : gap.stop + 1 - gap.start ≡ 0 = ground arith in
          let refused = get_block_height_bins-backwards gap.start gap.stop batch_size backwards in
          (rest, rw (back_fill_batches, refused) sent, rw no_height covers)
      | inr forwards ↦
          let (bins, binned, covered) =
            get_block_height_bins-IsBinned gap.start gap.stop batch_size (ground arith) positive
              fits.0 in
          (
            bins ++ rest,
            rw (back_fill_batches, binned, sent) refl,
            flat_map-append bins rest ∙ rw (covered.covers, covers) refl,
          )
    ]

contains-count_up : (x k n : ℕ) → contains x (count_up k n) ≡ (leb k x && ltb x (k + n))
contains-count_up x k ℕ.zero = ground arith
contains-count_up x k (ℕ.suc n) = ground (arith, contains-count_up x (k + 1) n)

contains-heights_of : (x : ℕ) (gaps : List Gap) → contains x (heights_of gaps) ≡ covered x gaps
contains-heights_of x [] = refl
contains-heights_of x (gap ∷ gaps) =
    let all = contains-count_up x gap.start (gap.stop + 1 - gap.start) in
    any-append (λ m. m == x) (count_up gap.start (gap.stop + 1 - gap.start)) (heights_of gaps)
    ∙ rw (contains-heights_of x gaps) (ground (arith, all))

-- A search pass over an Ethereum index that has a header, in batches that are not empty, with no query
-- failing, where block numbers and the ends of the gaps' last batches fit a uint64, sends the heights
-- up to the last block that have no header, and those whose header was validated less often than the
-- level, unless it is a single one; and it sends no other height.
pub search_pass-fills :
    (bfs : BackFillService) (row : HeaderRow) (rows : List HeaderRow)
    → 0 < bfs.batch_size
    → Small (numbers (row ∷ rows))
    → ((gaps : List Gap)
        → eth_gaps_in_data no_faults bfs.validation_level (row ∷ rows) ≡ ok gaps
        → Fits bfs.batch_size gaps)
    → (batches : List (List ℕ)) × (search_pass bfs
          (eth_gaps_in_data no_faults bfs.validation_level (row ∷ rows))
        ≡ ok batches)
      × ((x : ℕ)
          → contains x (flat_map (λ b. b) batches) ≡ (
              (reached x (numbers (row ∷ rows)) && not (contains x (numbers (row ∷ rows))))
              || (if length (low_heights bfs.validation_level (row ∷ rows)) == 1
                  then false
                  else contains x (low_heights bfs.validation_level (row ∷ rows)))))
unfolding search_pass
search_pass-fills bfs row rows positive small fits =
    let (gaps, found, same, covers) = gaps_in_data-covered bfs.validation_level row rows small in
    let (batches, sent, heights) =
      back_fill_batches-covers bfs.batch_size gaps positive (fits gaps found) in
    (
      batches,
      rw (search_pass, found) sent,
      λ x. ap (contains x) heights ∙ contains-heights_of x gaps ∙ covers x,
    )
