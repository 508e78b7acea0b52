-- ===== src/Retriever/Gaps.antt =====
-- RetrieveGapsInData: the gaps are the heights without a header and those validated too seldom.
use ipfs_blockchain_watcher.Prelude.{
  ℕ, ◌≡◌, refl, ◌∙◌, ap, true, false, ◌&&◌, ◌||◌, not, String, List, [], ◌∷◌, ◌++◌, arith, length,
  ltb, ◌==◌, if◌then◌else◌, contains, none, Bool-cases, inl, inr, any-append,
}
use ipfs_blockchain_watcher.Prelude.Int.{ℤ, ltb_ℤ}
use ipfs_blockchain_watcher.Prelude.Results.{ok}
use ipfs_blockchain_watcher.Shared.Types.{Gap}
use ipfs_blockchain_watcher.Utils.{missing_heights_to_gaps}
use ipfs_blockchain_watcher.Utils.Gaps.{in_gap, covered, missing_heights_to_gaps-covered}
use ipfs_blockchain_watcher.Retriever.Queries.{
  contains-sort, length-sort, Small, sort-Ascending, minimum_le, minimum_occurs,
}
use ipfs_blockchain_watcher.Retriever.Absent.{reached, equal_if, absent_sound, absent_complete}
use ipfs_blockchain_watcher.Retriever.{
  HeaderRow, Faults, numbers, minimum, distinct, empty_gaps, sort, low_heights, initial_gap,
  retrieve_gaps, eth_gaps_in_data, btc_gaps_in_data,
}

-- No query fails.
abbrev pub no_faults : Faults
no_faults = record { first_fault = none; empty_fault = none; heights_fault = none }

initial_gap-covered : (x first : ℕ) → covered x (initial_gap first) ≡ ltb x first
unfolding initial_gap
initial_gap-covered x first = ground arith

absent-covered :
    (x n : ℕ) (ns : List ℕ)
    → covered x (initial_gap (minimum n ns) ++ empty_gaps (n ∷ ns) (distinct (n ∷ ns)))
      ≡ (reached x (n ∷ ns) && not (contains x (n ∷ ns)))
absent-covered x n ns =
    let all = n ∷ ns in
    let f = minimum n ns in
    let least = λ (y : ℕ) (c : contains y all ≡ true). minimum_le n y ns c in
    let occurs = minimum_occurs n ns in
    any-append (in_gap x) (initial_gap f) (empty_gaps all (distinct all))
    ∙ ap (λ b. b || covered x (empty_gaps all (distinct all))) (initial_gap-covered x f)
    ∙ equal_if _ _ (absent_sound all f occurs least x) (absent_complete all f occurs least x)

low_heights-Small :
    (level : ℤ) (rows : List HeaderRow) → Small (numbers rows) → Small (low_heights level rows)
unfolding low_heights
low_heights-Small level [] s = tt
low_heights-Small level (r ∷ rows) s = elim (Bool-cases (ltb_ℤ r.times_validated level)) [
  | inl low ↦ rw low (s.0, low_heights-Small level rows s.1)
  | inr high ↦ rw high (low_heights-Small level rows s.1)
]

low-covered :
    (x : ℕ) (low : List ℕ)
    → Small low
    → covered x (missing_heights_to_gaps (sort low))
      ≡ (if length low == 1 then false else contains x low)
low-covered x low s =
    rw
      (
        missing_heights_to_gaps-covered x (sort low) (sort-Ascending low s),
        length-sort low,
        contains-sort x low,
      )
      refl

retrieve_gaps-covered :
    (prefix : String) (level : ℤ) (row : HeaderRow) (rows : List HeaderRow)
    → Small (numbers (row ∷ rows))
    → (gaps : List Gap) × (retrieve_gaps prefix no_faults level (row ∷ rows) ≡ ok gaps)
      × ((x : ℕ)
          → covered x gaps ≡ (
              (reached x (numbers (row ∷ rows)) && not (contains x (numbers (row ∷ rows))))
              || (if length (low_heights level (row ∷ rows)) == 1
                  then false
                  else contains x (low_heights level (row ∷ rows)))))
unfolding retrieve_gaps
retrieve_gaps-covered prefix level row rows s =
    let n = row.block_number in
    let ns = numbers rows in
    let low = low_heights level (row ∷ rows) in
    let absent = initial_gap (minimum n ns) ++ empty_gaps (n ∷ ns) (distinct (n ∷ ns)) in
    let seldom = missing_heights_to_gaps (sort low) in
    (
      absent ++ seldom,
      refl,
      λ x.
          any-append (in_gap x) absent seldom
          ∙ ap (λ b. b || covered x seldom) (absent-covered x n ns)
          ∙ ap (◌||◌ (reached x (n ∷ ns) && not (contains x (n ∷ ns))))
              (low-covered x low (low_heights-Small level (row ∷ rows) s)),
    )

-- On a table with a header, whose block numbers and their successors fit a uint64, and with no
-- query failing, the search of either chain succeeds, with the same gaps. A height then lies in a
-- gap exactly when it is at most the last block and has no header, or when a header at it was
-- validated less often than the level; the second part finds nothing where exactly one header is
-- validated too seldom.
pub gaps_in_data-covered :
    (level : ℤ) (row : HeaderRow) (rows : List HeaderRow)
    → Small (numbers (row ∷ rows))
    → (gaps : List Gap) × (eth_gaps_in_data no_faults level (row ∷ rows) ≡ ok gaps)
      × (btc_gaps_in_data no_faults level (row ∷ rows) ≡ ok gaps)
      × ((x : ℕ)
          → covered x gaps ≡ (
              (reached x (numbers (row ∷ rows)) && not (contains x (numbers (row ∷ rows))))
              || (if length (low_heights level (row ∷ rows)) == 1
                  then false
                  else contains x (low_heights level (row ∷ rows)))))
unfolding eth_gaps_in_data btc_gaps_in_data
gaps_in_data-covered level row rows s =
    let eth =
      retrieve_gaps-covered "eth CIDRetriever RetrieveFirstBlockNumber error: " level row rows s in
    (eth.0, eth.1, unfold retrieve_gaps in eth.1, eth.2)
