-- ===== src/Tests/Constructors.antt =====
-- The builders, with constructors that always succeed.
use ipfs_blockchain_watcher.Prelude.{refl, none}
use ipfs_blockchain_watcher.Prelude.Results.{ok}
use ipfs_blockchain_watcher.Shared.ChainType.{bitcoin, ethereum, direct_postgres}
use ipfs_blockchain_watcher.Builders.{
  rpc_client, new_response_filterer, new_cid_indexer, new_cid_retriever, new_payload_converter,
  new_ipld_fetcher, new_ipld_publisher, new_cleaner, new_payload_streamer, new_paylaod_fetcher,
  new_public_api,
}
use ipfs_blockchain_watcher.Builders.Chains.{IsOf, builders-IsOf}

builders-IsOf_example :
    IsOf bitcoin (new_response_filterer bitcoin)
    × IsOf ethereum (new_cid_indexer bitcoin direct_postgres)
    × IsOf bitcoin (new_cid_retriever bitcoin)
    × IsOf bitcoin (new_payload_converter bitcoin)
    × IsOf bitcoin (new_ipld_fetcher (λ c. ok c) bitcoin direct_postgres)
    × IsOf bitcoin (new_ipld_publisher (λ c. ok c) bitcoin direct_postgres)
    × IsOf bitcoin (new_cleaner bitcoin)
    × IsOf bitcoin (new_payload_streamer bitcoin rpc_client)
    × IsOf bitcoin (new_paylaod_fetcher (λ c. ok c) bitcoin rpc_client)
    × IsOf bitcoin (new_public_api none bitcoin)
builders-IsOf_example =
    builders-IsOf (λ c. ok c) bitcoin direct_postgres rpc_client none (λ component. refl)
