-- ===== src/Historical.antt =====
-- pkg/historical/service.go: filling the gaps of the index. The goroutines of a search pass are those
-- of Workers.antt, as far as the service is not stopped; the ticker, Stop and log lines are left out.
pub mod Worker
pub mod Passes
use ipfs_blockchain_watcher.Prelude.{ℕ, List, [], ◌∷◌, ◌++◌}
use ipfs_blockchain_watcher.Prelude.Int.{ℤ}
use ipfs_blockchain_watcher.Prelude.Results.{Result, ok, err, panic, ◌>>=◌}
use ipfs_blockchain_watcher.Shared.ChainType.{ChainType, IpfsMode}
use ipfs_blockchain_watcher.Shared.Types.{Gap}
use ipfs_blockchain_watcher.Builders.{
  Component, Client, new_ipld_publisher, new_cid_indexer, new_payload_converter, new_cid_retriever,
  new_paylaod_fetcher,
}
use ipfs_blockchain_watcher.Utils.{get_block_height_bins}
use ipfs_blockchain_watcher.Resync.{batch_size_of, batch_number_of}

-- The fields that the constructor reads; the connections behind the components are left out.
pub record Config : Type 0 where
  pub chain : ChainType
  pub ipfs_mode : IpfsMode
  pub http_client : Client
  pub frequency : ℤ
  pub batch_size : ℕ
  pub batch_number : ℕ
  pub validation_level : ℤ

pub record BackFillService : Type 0 where
  pub converter : Component
  pub publisher : Component
  pub indexer : Component
  pub retriever : Component
  pub fetcher : Component
  pub gap_check_frequency : ℤ
  pub batch_size : ℕ
  pub batch_number : ℤ
  pub chain : ChainType
  pub validation_level : ℤ

-- The defaults for the batches are written as in a resync.
unfoldable pub new_back_fill_service :
    (Component → Result Component) → Config → Result BackFillService
new_back_fill_service open_node settings = do
  publisher ← new_ipld_publisher open_node settings.chain settings.ipfs_mode
  indexer ← new_cid_indexer settings.chain settings.ipfs_mode
  converter ← new_payload_converter settings.chain
  retriever ← new_cid_retriever settings.chain
  fetcher ← new_paylaod_fetcher open_node settings.chain settings.http_client
  ok (record {
    converter = converter;
    publisher = publisher;
    indexer = indexer;
    retriever = retriever;
    fetcher = fetcher;
    gap_check_frequency = settings.frequency;
    batch_size = batch_size_of settings.batch_size;
    batch_number = batch_number_of settings.batch_number;
    chain = settings.chain;
    validation_level = settings.validation_level;
  })

-- `for _, gap := range gaps`: the batches sent. An error of GetBlockHeightBins skips the gap.
unfoldable pub back_fill_batches : ℕ → List Gap → Result (List (List ℕ))
back_fill_batches batch_size [] = ok []
back_fill_batches batch_size (gap ∷ gaps) =
    let rest = back_fill_batches batch_size gaps in
    elim (get_block_height_bins gap.start gap.stop batch_size) [
      | ok bins ↦ rest >>= (λ batches. ok (bins ++ batches))
      | err e ↦ rest
      | panic ↦ panic
    ]

-- `case <-ticker.C`, with what the retriever returns; on its error nothing is sent.
unfoldable pub search_pass : BackFillService → Result (List Gap) → Result (List (List ℕ))
unfolding back_fill_batches
search_pass bfs (ok gaps) = back_fill_batches bfs.batch_size gaps
search_pass bfs (err e) = ok []
search_pass bfs panic = panic
