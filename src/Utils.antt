-- ===== src/Utils.antt =====
-- utils/utils.go: block ranges cut into batches, and missing heights grouped into gaps. The
-- `make` calls only reserve space and are left out.
pub mod Bins
pub mod Gaps
use ipfs_blockchain_watcher.Prelude.{
  ℕ, zero, suc, ◌+◌, ◌-◌, ◌/◌, ◌%◌, Bool, ◌&&◌, List, [], ◌∷◌, ◌++◌, ltb, leb, ◌==◌, not,
  if◌then◌else◌, length,
}
use ipfs_blockchain_watcher.Prelude.Int.{add_u64, sub_u64}
use ipfs_blockchain_watcher.Prelude.Results.{Result, ok, err}
use ipfs_blockchain_watcher.Shared.Types.{Gap}

-- `for j := startingBlock; j < nextBinStart && j <= endingBlock; j++`, on the rounds that are left.
unfoldable pub block_range : ℕ → ℕ → ℕ → ℕ → List ℕ
block_range zero j next_bin_start ending_block = []
block_range (suc rounds) j next_bin_start ending_block =
    let rest = block_range rounds (add_u64 j 1) next_bin_start ending_block in
    if ltb j next_bin_start && leb j ending_block then j ∷ rest else []

-- `for i := range blockRangeBins`. The inner loop ends after nextBinStart - startingBlock rounds.
unfoldable pub block_range_bins : ℕ → ℕ → ℕ → ℕ → List (List ℕ)
block_range_bins zero starting_block ending_block batch_size = []
block_range_bins (suc bins) starting_block ending_block batch_size =
    let next_bin_start = add_u64 starting_block batch_size in
    block_range (next_bin_start - starting_block) starting_block next_bin_start ending_block
    ∷ block_range_bins bins next_bin_start ending_block batch_size

unfoldable pub number_of_bins : ℕ → ℕ → ℕ
number_of_bins len batch_size =
    if not ((len % batch_size) == 0) then add_u64 (len / batch_size) 1 else len / batch_size

unfoldable pub get_block_height_bins : ℕ → ℕ → ℕ → Result (List (List ℕ))
unfolding number_of_bins
get_block_height_bins starting_block ending_block batch_size =
    if ltb ending_block starting_block
    then err "backfill: ending block number needs to be greater than starting block number"
    else (if batch_size == 0
        then err "backfill: batchsize needs to be greater than zero"
        else ok (
            block_range_bins
              (number_of_bins (add_u64 (sub_u64 ending_block starting_block) 1) batch_size)
              starting_block ending_block batch_size))

-- `for i, height := range heights[1:]`, with n = len(heights).
unfoldable pub gaps_loop : ℕ → ℕ → ℕ → ℕ → List ℕ → List Gap
gaps_loop n i start last_height [] = []
gaps_loop n i start last_height (height ∷ heights) =
    let jump = not (height == add_u64 last_height 1) in
    let start' = (if jump then height else start) in
    (if jump then record { start = start; stop = last_height } ∷ [] else [])
    ++ ((if (i + 2) == n then record { start = start'; stop = height } ∷ [] else [])
        ++ gaps_loop n (i + 1) start' height heights)

unfoldable pub missing_heights_to_gaps : List ℕ → List Gap
unfolding gaps_loop
missing_heights_to_gaps [] = []
missing_heights_to_gaps (h ∷ heights) = gaps_loop (length (h ∷ heights)) 0 h h heights
