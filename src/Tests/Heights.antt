-- ===== src/Tests/Heights.antt =====
-- Batches of heights and gaps in the index.
use ipfs_blockchain_watcher.Prelude.{
  ℕ, ◌≡◌, true, false, ◌&&◌, ◌||◌, not, List, [], ◌∷◌, ◌==◌, length, contains, if◌then◌else◌, arith,
}
use ipfs_blockchain_watcher.Prelude.Int.{pos}
use ipfs_blockchain_watcher.Prelude.Results.{ok}
use ipfs_blockchain_watcher.Shared.Types.{Gap}
use ipfs_blockchain_watcher.Utils.{get_block_height_bins, missing_heights_to_gaps}
use ipfs_blockchain_watcher.Utils.Bins.{IsBinned, get_block_height_bins-IsBinned}
use ipfs_blockchain_watcher.Utils.Gaps.{covered, missing_heights_to_gaps-covered}
use ipfs_blockchain_watcher.Retriever.{
  HeaderRow, numbers, low_heights, eth_gaps_in_data, btc_gaps_in_data,
}
use ipfs_blockchain_watcher.Retriever.Absent.{reached}
use ipfs_blockchain_watcher.Retriever.Gaps.{no_faults, gaps_in_data-covered}

get_block_height_bins-IsBinned_example :
    (bins : List (List ℕ)) × (get_block_height_bins 5 20 4 ≡ ok bins) × IsBinned 4 5 20 bins
get_block_height_bins-IsBinned_example =
    get_block_height_bins-IsBinned 5 20 4 (omega arith) (omega arith) (omega arith)

missing_heights_to_gaps-covered_example :
    covered 6 (missing_heights_to_gaps (3 ∷ 5 ∷ 6 ∷ 9 ∷ [])) ≡ true
missing_heights_to_gaps-covered_example = missing_heights_to_gaps-covered 6 (3 ∷ 5 ∷ 6 ∷ 9 ∷ []) (
  omega arith,
  omega arith,
  (omega arith, omega arith, (omega arith, omega arith, (omega arith, omega arith, tt))),
)

abbrev header_7 : HeaderRow
header_7 = record { block_number = 7; times_validated = pos 1 }

abbrev header_9 : HeaderRow
header_9 = record { block_number = 9; times_validated = pos 0 }

gaps_in_data-covered_example :
    (gaps : List Gap) × (eth_gaps_in_data no_faults (pos 1) (header_7 ∷ header_9 ∷ []) ≡ ok gaps)
    × (btc_gaps_in_data no_faults (pos 1) (header_7 ∷ header_9 ∷ []) ≡ ok gaps)
    × ((x : ℕ)
        → covered x gaps ≡ (
            (reached x (numbers (header_7 ∷ header_9 ∷ []))
              && not (contains x (numbers (header_7 ∷ header_9 ∷ []))))
            || (if length (low_heights (pos 1) (header_7 ∷ header_9 ∷ [])) == 1
                then false
                else contains x (low_heights (pos 1) (header_7 ∷ header_9 ∷ [])))))
unfolding numbers
gaps_in_data-covered_example =
    gaps_in_data-covered (pos 1) header_7 (header_9 ∷ []) (omega arith, (omega arith, tt))
