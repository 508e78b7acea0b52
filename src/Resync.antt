-- ===== src/Resync.antt =====
-- pkg/resync/service.go: fetching the data of block ranges again. The goroutines of its workers are
-- those of Workers.antt; log lines are left out, but for the errors of a worker.
pub mod Coverage
pub mod Cleaning
pub mod Worker
use Prim.Native.String.{◌++◌ as str_append}
use ipfs_blockchain_watcher.Prelude.{
  ℕ, ◌==◌, ◌&&◌, not, is_empty, ltb, Bool, String, Option, none, some, List, [], ◌∷◌, ◌++◌,
  if◌then◌else◌,
}
use ipfs_blockchain_watcher.Prelude.Int.{ℤ, pos, negsuc, int64, eq_ℤ}
use ipfs_blockchain_watcher.Prelude.Results.{Result, ok, err, panic, ◌>>=◌}
use ipfs_blockchain_watcher.Shared.ChainType.{
  ChainType, DataType, IpfsMode, chain_name, data_type_name,
}
use ipfs_blockchain_watcher.Builders.{
  Component, Client, new_ipld_publisher, new_cid_indexer, new_payload_converter, new_cid_retriever,
  new_paylaod_fetcher, new_cleaner,
}
use ipfs_blockchain_watcher.Utils.{get_block_height_bins}

abbrev pub default_max_batch_size : ℕ
default_max_batch_size = 100

abbrev pub default_max_batch_number : ℤ
default_max_batch_number = pos 50

-- The fields that the constructor reads; the connections behind the components are left out.
pub record Config : Type 0 where
  pub chain : ChainType
  pub resync_type : DataType
  pub clear_old_cache : Bool
  pub reset_validation : Bool
  pub ipfs_mode : IpfsMode
  pub http_client : Client
  pub ranges : List (ℕ × ℕ)
  pub batch_size : ℕ
  pub batch_number : ℕ

pub record Service : Type 0 where
  pub converter : Component
  pub publisher : Component
  pub indexer : Component
  pub retriever : Component
  pub fetcher : Component
  pub cleaner : Component
  pub batch_size : ℕ
  pub batch_number : ℤ
  pub chain : ChainType
  pub data_type : DataType
  pub ranges : List (ℕ × ℕ)
  pub clear_old_cache : Bool
  pub reset_validation : Bool

-- `if batchSize == 0 { batchSize = shared.DefaultMaxBatchSize }`
unfoldable pub batch_size_of : ℕ → ℕ
batch_size_of n = if n == 0 then default_max_batch_size else n

-- `batchNumber := int64(settings.BatchNumber); if batchNumber == 0 { ... }`
unfoldable pub batch_number_of : ℕ → ℤ
batch_number_of n =
    let number = int64 (pos n) in if eq_ℤ number (pos 0) then default_max_batch_number else number

-- Opening a node or a connection is a parameter.
unfoldable pub new_resync_service : (Component → Result Component) → Config → Result Service
unfolding batch_size_of batch_number_of
new_resync_service open_node settings = do
  publisher ← new_ipld_publisher open_node settings.chain settings.ipfs_mode
  indexer ← new_cid_indexer settings.chain settings.ipfs_mode
  converter ← new_payload_converter settings.chain
  retriever ← new_cid_retriever settings.chain
  fetcher ← new_paylaod_fetcher open_node settings.chain settings.http_client
  cleaner ← new_cleaner settings.chain
  ok (record {
    converter = converter;
    publisher = publisher;
    indexer = indexer;
    retriever = retriever;
    fetcher = fetcher;
    cleaner = cleaner;
    batch_size = batch_size_of settings.batch_size;
    batch_number = batch_number_of settings.batch_number;
    chain = settings.chain;
    data_type = settings.resync_type;
    ranges = settings.ranges;
    clear_old_cache = settings.clear_old_cache;
    reset_validation = settings.reset_validation;
  })

-- `for i := 1; i <= int(rs.BatchNumber); i++`, where an int has 64 bits.
abbrev pub rounds_to : ℤ → ℕ
rounds_to (pos n) = n
rounds_to (negsuc n) = 0

-- `for _, rng := range rs.ranges`: the batches sent, and the error that ends the loop.
unfoldable pub resync_batches : ℕ → List (ℕ × ℕ) → List (List ℕ) × Result (Unit {0})
resync_batches batch_size [] = ([], ok tt)
resync_batches batch_size (rng ∷ rngs) =
    let rest = resync_batches batch_size rngs in
    if ltb rng.1 rng.0 then rest else elim (get_block_height_bins rng.0 rng.1 batch_size) [
      | ok bins ↦ (bins ++ rest.0, rest.1)
      | err e ↦ ([], err e)
      | panic ↦ ([], panic)
    ]

-- shared.Cleaner, over the tables that it works on.
pub record Cleaner (S : Type 0) : Type 0 where
  pub reset_ranges : List (ℕ × ℕ) → S → S × Result (Unit {0})
  pub clean_ranges : List (ℕ × ℕ) → DataType → S → S × Result (Unit {0})

-- What a call of Resync has done: to the tables before the workers start, the batches that the workers
-- got, and the error that it returns, if it returns.
pub record Outcome (S : Type 0) : Type 0 where
  pub tables : S
  pub batches : List (List ℕ)
  pub error : Option (Result (Unit {0}))

unfoldable pub cleaning_words : Service → String
cleaning_words rs =
    str_append (chain_name rs.chain)
      (str_append " " (str_append (data_type_name rs.data_type) " data resync cleaning error: "))

module _ {S : Type 0} where
  -- An error of the cleaner, with the words that are put before it.
  abbrev pub stop_with : String → S × Result (Unit {0}) → (S → Outcome S) → Outcome S
  stop_with words (s, ok done) next = next s
  stop_with words (s, err e) next = record {
    tables = s;
    batches = [];
    error = some (err (str_append words e));
  }
  stop_with words (s, panic) next = record { tables = s; batches = []; error = some panic }

  -- The workers, and the loop over the ranges. The channel has no buffer: without a worker the first
  -- batch is never received, and Resync does not return.
  abbrev pub send_batches : Service → S → Outcome S
  send_batches rs s =
      let sent = resync_batches rs.batch_size rs.ranges in
      if (rounds_to rs.batch_number == 0) && not (is_empty sent.0)
      then record { tables = s; batches = []; error = none }
      else record { tables = s; batches = sent.0; error = some sent.1 }

  -- `if rs.resetValidation { ... }`
  abbrev pub reset_first : Service → Cleaner S → S → S × Result (Unit {0})
  reset_first rs cleaner s =
      if rs.reset_validation then cleaner.reset_ranges rs.ranges s else (s, ok tt)

  -- `if rs.clearOldCache { ... }`
  abbrev pub clear_first : Service → Cleaner S → S → S × Result (Unit {0})
  clear_first rs cleaner s =
      if rs.clear_old_cache then cleaner.clean_ranges rs.ranges rs.data_type s else (s, ok tt)

  abbrev pub clear_and_send : Service → Cleaner S → S → Outcome S
  clear_and_send rs cleaner s =
      stop_with (cleaning_words rs) (clear_first rs cleaner s) (send_batches rs)

  unfoldable pub resync : Service → Cleaner S → S → Outcome S
  resync rs cleaner s =
      stop_with "validation reset failed: " (reset_first rs cleaner s) (clear_and_send rs cleaner)
