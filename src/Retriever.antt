-- ===== src/Retriever.antt =====
-- The search for gaps in the Postgres index, pkg/eth/cid_retriever.go and pkg/btc/cid_retriever.go.
-- Both run the same statements, on eth.header_cids and on btc.header_cids. A table is the list of
-- its rows; a query that the database fails has its error in the Faults.
pub mod Queries
pub mod Absent
pub mod Gaps
use Prim.Native.String.{◌++◌ as str_append}
use ipfs_blockchain_watcher.Prelude.{
  ℕ, ◌+◌, ◌-◌, ◌==◌, ltb, String, Option, none, some, List, [], ◌∷◌, ◌++◌, map, keep, contains, not,
  if◌then◌else◌,
}
use ipfs_blockchain_watcher.Prelude.Int.{ℤ, ltb_ℤ}
use ipfs_blockchain_watcher.Prelude.Results.{Result, ok, err, panic, ◌>>=◌}
use ipfs_blockchain_watcher.Shared.Types.{Gap}
use ipfs_blockchain_watcher.Utils.{missing_heights_to_gaps}

-- A row of header_cids, with the columns that the search reads. Block numbers are not negative.
pub record HeaderRow : Type 0 where
  pub block_number : ℕ
  pub times_validated : ℤ

pub record Faults : Type 0 where
  pub first_fault : Option String
  pub empty_fault : Option String
  pub heights_fault : Option String

-- SELECT block_number FROM header_cids
unfoldable pub numbers : List HeaderRow → List ℕ
numbers rows = map (λ r. r.block_number) rows

unfoldable pub minimum : ℕ → List ℕ → ℕ
minimum n [] = n
minimum n (m ∷ ms) = minimum (if ltb m n then m else n) ms

unfoldable pub run_query {ℓ} : {A : Type ℓ} → Option String → Result A → Result A
run_query none r = r
run_query (some e) r = err e

-- ORDER BY block_number ASC LIMIT 1; no row is an error of `Get`.
unfoldable pub first_of_rows : List ℕ → Result ℕ
first_of_rows [] = err "sql: no rows in result set"
first_of_rows (n ∷ ns) = ok (minimum n ns)

-- min(fr.block_number) over the rows with header_cids.block_number < fr.block_number
unfoldable pub min_above : ℕ → List ℕ → Option ℕ
min_above n [] = none
min_above n (m ∷ ms) =
    let rest = min_above n ms in
    if ltb n m then elim rest [ none ↦ some m | some k ↦ some (if ltb m k then m else k) ] else rest

-- GROUP BY header_cids.block_number, r.block_number
unfoldable pub distinct : List ℕ → List ℕ
distinct [] = []
distinct (n ∷ ns) = let rest = distinct ns in if contains n ns then rest else n ∷ rest

-- The row of one group: WHERE r.block_number is NULL and fr.block_number IS NOT NULL
unfoldable pub gap_after : List ℕ → ℕ → List Gap
gap_after all n =
    if contains (n + 1) all
    then []
    else elim (min_above n all) [ none ↦ [] | some m ↦ record { start = n + 1; stop = m - 1 } ∷ [] ]

unfoldable pub empty_gaps : List ℕ → List ℕ → List Gap
empty_gaps all [] = []
empty_gaps all (n ∷ ns) = gap_after all n ++ empty_gaps all ns

-- ORDER BY block_number
unfoldable pub insert_sorted : ℕ → List ℕ → List ℕ
insert_sorted n [] = n ∷ []
insert_sorted n (m ∷ ms) = if ltb m n then m ∷ insert_sorted n ms else n ∷ m ∷ ms

unfoldable pub sort : List ℕ → List ℕ
unfolding insert_sorted
sort [] = []
sort (n ∷ ns) = insert_sorted n (sort ns)

-- WHERE times_validated < $1
unfoldable pub low_heights : ℤ → List HeaderRow → List ℕ
unfolding numbers
low_heights level rows = numbers (keep (λ r. ltb_ℤ r.times_validated level) rows)

unfoldable pub initial_gap : ℕ → List Gap
initial_gap starting_block =
    if not (starting_block == 0) then record { start = 0; stop = starting_block - 1 } ∷ [] else []

-- The prefix names the chain: fmt.Errorf("eth CIDRetriever RetrieveFirstBlockNumber error: %v", err).
unfoldable pub with_context {ℓ} : {A : Type ℓ} → String → Result A → Result A
with_context prefix (ok n) = ok n
with_context prefix (err e) = err (str_append prefix e)
with_context prefix panic = panic

unfoldable pub retrieve_gaps : String → Faults → ℤ → List HeaderRow → Result (List Gap)
unfolding run_query first_of_rows with_context numbers
retrieve_gaps prefix faults level rows = do
  starting_block ← with_context prefix (run_query faults.first_fault (first_of_rows (numbers rows)))
  empty ← run_query faults.empty_fault (ok (empty_gaps (numbers rows) (distinct (numbers rows))))
  heights ← run_query faults.heights_fault (ok (sort (low_heights level rows)))
  ok ((initial_gap starting_block ++ empty) ++ missing_heights_to_gaps heights)

-- The method of the ethereum retriever, and that of the bitcoin retriever.
unfoldable pub eth_gaps_in_data : Faults → ℤ → List HeaderRow → Result (List Gap)
unfolding retrieve_gaps
eth_gaps_in_data = retrieve_gaps "eth CIDRetriever RetrieveFirstBlockNumber error: "

unfoldable pub btc_gaps_in_data : Faults → ℤ → List HeaderRow → Result (List Gap)
unfolding retrieve_gaps
btc_gaps_in_data = retrieve_gaps "btc CIDRetriever RetrieveFirstBlockNumber error: "
