-- ===== src/Tests/Rounds.antt =====
-- Rounds of workers, resyncs and search passes at concrete inputs.
use ipfs_blockchain_watcher.Prelude.{
  ℕ, ◌+◌, ◌*◌, ◌≤◌, ◌≡◌, refl, arith, true, false, not, String, List, [], ◌∷◌, All, ◌⊎◌, Option,
  none, some, ◌==◌, ◌&&◌, ◌||◌, if◌then◌else◌, length, contains, flat_map, subst, sym, ◌∙◌,
}
use ipfs_blockchain_watcher.Prelude.Int.{pos}
use ipfs_blockchain_watcher.Prelude.Results.{ok, err}
use ipfs_blockchain_watcher.Prelude.Occurrences.{total, occurrences}
use ipfs_blockchain_watcher.Shared.ChainType.{ethereum, state}
use ipfs_blockchain_watcher.Shared.Types.{Gap}
use ipfs_blockchain_watcher.Builders.{
  payload_converter, ipld_publisher, cid_indexer, cid_retriever, payload_fetcher, cleaner,
}
use ipfs_blockchain_watcher.Sql.{exec, and_then, transaction, afterwards}
use ipfs_blockchain_watcher.Eth.Cleaner.{clean, clean_all, vacuum_analyze, reset_validation}
use ipfs_blockchain_watcher.Sql.Runs.{no_fault}
use ipfs_blockchain_watcher.Eth.Tables.Ranges.{selected}
use ipfs_blockchain_watcher.Workers.{Pool, Step, hand, finish, signal, Run, stay, after, start}
use ipfs_blockchain_watcher.Workers.Ending.{Finished, round-ends}
use ipfs_blockchain_watcher.Workers.Pipeline.{Pipeline, published_of, indexed_of}
use ipfs_blockchain_watcher.Resync.{Service, Cleaner, resync_batches, resync}
use ipfs_blockchain_watcher.Resync.Coverage.{times_in, resync-fetches_ranges}
use ipfs_blockchain_watcher.Resync.Cleaning.{
  eth_cleaner, Sent, NotSent, resync-all_or_nothing, resync-clears,
}
use ipfs_blockchain_watcher.Historical.{BackFillService, search_pass}
use ipfs_blockchain_watcher.Historical.Worker.{back_fill_section, back_fill_section-calls}
use ipfs_blockchain_watcher.Historical.Passes.{Fits, search_pass-fills}
use ipfs_blockchain_watcher.Utils.{
  missing_heights_to_gaps, get_block_height_bins, block_range_bins, block_range,
}
use ipfs_blockchain_watcher.Retriever.{
  HeaderRow, numbers, low_heights, eth_gaps_in_data, initial_gap, minimum, empty_gaps, distinct,
  gap_after, min_above, sort,
}
use ipfs_blockchain_watcher.Retriever.Absent.{reached}
use ipfs_blockchain_watcher.Retriever.Gaps.{no_faults}
use ipfs_blockchain_watcher.Tests.Cleaners.{session}

abbrev pool_of : List (List ℕ) → ℕ → List (List ℕ) → ℕ → List (List ℕ) → Pool (List ℕ)
pool_of pending idle busy signals finished = record {
  pending = pending;
  idle = idle;
  busy = busy;
  signals = signals;
  finished = finished;
}

-- One worker, and one batch.
abbrev batch : List ℕ
batch = 5 ∷ 6 ∷ []

abbrev at_end : Pool (List ℕ)
at_end = pool_of [] 0 [] 0 (batch ∷ [])

full_run : Run (List ℕ) 3 (start (List ℕ) 1 (batch ∷ [])) at_end
unfolding start
full_run =
    after 2 _ (pool_of [] 1 [] 1 (batch ∷ [])) _
      (after 1 _ (pool_of [] 0 (batch ∷ []) 1 []) _
        (after 0 _ (pool_of (batch ∷ []) 1 [] 1 []) _ (stay _)
          (hand (pool_of (batch ∷ []) 1 [] 1 []) batch [] 0 refl refl))
        (finish (pool_of [] 0 (batch ∷ []) 1 []) [] batch [] refl))
      (signal (pool_of [] 1 [] 1 (batch ∷ [])) 0 0 refl refl refl)

round-ends_example :
    (3 ≤ 2 * length (batch ∷ []) + 1)
    × (((r : Pool (List ℕ)) × Step (List ℕ) at_end r)
        ⊎ (Finished at_end × (total length at_end.finished ≡ total length (batch ∷ []))))
round-ends_example = round-ends length 1 (batch ∷ []) 3 at_end (omega arith) full_run

-- 5 and 6 are in one batch of the range; the second range ends before it starts.
resync-fetches_ranges_example :
    (3 ≤ 2 * length (resync_batches 4 ((5, 6) ∷ (9, 8) ∷ [])).0 + 1)
    × (((r : Pool (List ℕ)) × Step (List ℕ) at_end r)
        ⊎ (Finished at_end
            × (total (occurrences 6) at_end.finished ≡ times_in 6 ((5, 6) ∷ (9, 8) ∷ []))))
unfolding resync_batches get_block_height_bins block_range_bins block_range
resync-fetches_ranges_example =
    resync-fetches_ranges 6 4 ((5, 6) ∷ (9, 8) ∷ []) 1 3 at_end (omega arith)
      (omega arith, (omega arith, tt)) (omega arith) full_run

abbrev clearing : Service
clearing = record {
  converter = payload_converter ethereum;
  publisher = ipld_publisher ethereum;
  indexer = cid_indexer ethereum;
  retriever = cid_retriever ethereum;
  fetcher = payload_fetcher ethereum;
  cleaner = cleaner ethereum;
  batch_size = 4;
  batch_number = pos 2;
  chain = ethereum;
  data_type = state;
  ranges = (1, 1) ∷ [];
  clear_old_cache = true;
  reset_validation = true;
}

-- A cleaner whose tables are a number, and that cannot clean.
abbrev broken_cleaner : Cleaner ℕ
broken_cleaner = record {
  reset_ranges = λ rngs s. (s + 1, ok tt);
  clean_ranges = λ rngs t s. (s, err "no connection");
}

resync-all_or_nothing_example :
    Sent clearing broken_cleaner 0 (resync clearing broken_cleaner 0)
    ⊎ NotSent clearing broken_cleaner 0 (resync clearing broken_cleaner 0)
resync-all_or_nothing_example =
    resync-all_or_nothing clearing broken_cleaner 0 (omega arith) (omega arith, tt) (omega arith)

resync-clears_example :
    All
      (λ rng.
        selected rng state (resync clearing (eth_cleaner no_fault) session).tables.tables ≡ false)
      ((1, 1) ∷ [])
unfolding resync reset_validation transaction and_then exec clean_all afterwards clean
    vacuum_analyze resync_batches get_block_height_bins
resync-clears_example = resync-clears clearing no_fault session refl refl

-- Payloads are numbers; an odd one is published with an error.
abbrev toy_publish : ℕ → ℕ × Option String
toy_publish n = (n + 100, if n == 7 then some "no peer" else none)

abbrev toy_pipeline : Pipeline
toy_pipeline = record {
  Payload = ℕ;
  Converted = ℕ;
  Cids = ℕ;
  fetch_at = λ hs. (hs, none);
  convert = λ n. (n, none);
  publish = toy_publish;
  index = λ c. none;
}

back_fill_section-calls_example :
    (published_of toy_pipeline (back_fill_section toy_pipeline (λ i. i == 0) (6 ∷ 7 ∷ []))
      ≡ 6 ∷ 7 ∷ [])
    × (indexed_of toy_pipeline (back_fill_section toy_pipeline (λ i. i == 0) (6 ∷ 7 ∷ []))
        ≡ 106 ∷ [])
back_fill_section-calls_example = back_fill_section-calls toy_pipeline (λ i. i == 0) (6 ∷ 7 ∷ [])

abbrev filler : BackFillService
filler = record {
  converter = payload_converter ethereum;
  publisher = ipld_publisher ethereum;
  indexer = cid_indexer ethereum;
  retriever = cid_retriever ethereum;
  fetcher = payload_fetcher ethereum;
  gap_check_frequency = pos 30;
  batch_size = 4;
  batch_number = pos 2;
  chain = ethereum;
  validation_level = pos 1;
}

abbrev header_2 : HeaderRow
header_2 = record { block_number = 2; times_validated = pos 1 }

abbrev header_4 : HeaderRow
header_4 = record { block_number = 4; times_validated = pos 1 }

abbrev gaps_of_two : List Gap
gaps_of_two = record { start = 0; stop = 1 } ∷ record { start = 3; stop = 3 } ∷ []

gaps_found : eth_gaps_in_data no_faults (pos 1) (header_2 ∷ header_4 ∷ []) ≡ ok gaps_of_two
unfolding eth_gaps_in_data initial_gap minimum empty_gaps distinct gap_after min_above
    missing_heights_to_gaps sort low_heights
gaps_found = refl

ok-injective : {A : Type 0} {x y : A} → ok x ≡ ok y → x ≡ y
ok-injective e = cc

gaps_fit :
    (gaps : List Gap)
    → eth_gaps_in_data no_faults (pos 1) (header_2 ∷ header_4 ∷ []) ≡ ok gaps
    → Fits 4 gaps
gaps_fit gaps e =
    subst (Fits 4) (ok-injective (sym gaps_found ∙ e)) (omega arith, (omega arith, tt))

search_pass-fills_example :
    (batches : List (List ℕ)) × (search_pass filler
        (eth_gaps_in_data no_faults (pos 1) (header_2 ∷ header_4 ∷ []))
      ≡ ok batches)
    × ((x : ℕ)
        → contains x (flat_map (λ b. b) batches) ≡ (
            (reached x (2 ∷ 4 ∷ []) && not (contains x (2 ∷ 4 ∷ [])))
            || (if length (low_heights (pos 1) (header_2 ∷ header_4 ∷ [])) == 1
                then false
                else contains x (low_heights (pos 1) (header_2 ∷ header_4 ∷ [])))))
unfolding numbers
search_pass-fills_example =
    search_pass-fills filler header_2 (header_4 ∷ []) (omega arith) (omega arith, (omega arith, tt))
      gaps_fit
