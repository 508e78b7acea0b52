-- ===== src/Builders.antt =====
-- pkg/builders/builders.go: which chain's component each constructor returns. A component is told by
-- its package; what the packages' constructors
-- can fail with is a parameter. A Go type is printed by %T as its name.
pub mod Chains
use ipfs_blockchain_watcher.Prelude.{String, Option, none, some}
use ipfs_blockchain_watcher.Prelude.Results.{Result, ok, err}
use ipfs_blockchain_watcher.Shared.ChainType.{
  ChainType, unknown_chain, ethereum, bitcoin, omni, chain_name, IpfsMode, unknown_mode,
  local_interface, remote_client, direct_postgres, mode_name,
}
use Prim.Native.String.{◌++◌ as str_append}

-- The constructors that the builders call, by name and package.
pub data Component : Type 0 where
  response_filterer cid_indexer ipld_publisher_and_indexer cid_retriever payload_streamer :
      ChainType → Component
  payload_fetcher payload_converter ipld_fetcher ipld_pg_fetcher ipld_publisher cleaner public_api :
      ChainType → Component

unfoldable pub package_of : Component → ChainType
package_of (response_filterer c) = c
package_of (cid_indexer c) = c
package_of (ipld_publisher_and_indexer c) = c
package_of (cid_retriever c) = c
package_of (payload_streamer c) = c
package_of (payload_fetcher c) = c
package_of (payload_converter c) = c
package_of (ipld_fetcher c) = c
package_of (ipld_pg_fetcher c) = c
package_of (ipld_publisher c) = c
package_of (cleaner c) = c
package_of (public_api c) = c

unfoldable pub invalid_chain : ChainType → String → Result Component
invalid_chain c what = err (
    str_append "invalid chain "
      (str_append (chain_name c) (str_append " for " (str_append what " constructor"))))

unfoldable pub unexpected_mode : String → IpfsMode → Result Component
unexpected_mode what mode =
    err (str_append what (str_append " unexpected ipfs mode " (mode_name mode)))

unfoldable pub new_response_filterer : ChainType → Result Component
new_response_filterer ethereum = ok (response_filterer ethereum)
new_response_filterer bitcoin = ok (response_filterer bitcoin)
new_response_filterer c = invalid_chain c "filterer"

unfoldable pub new_cid_indexer : ChainType → IpfsMode → Result Component
new_cid_indexer ethereum local_interface = ok (cid_indexer ethereum)
new_cid_indexer ethereum remote_client = ok (cid_indexer ethereum)
new_cid_indexer ethereum direct_postgres = ok (ipld_publisher_and_indexer ethereum)
new_cid_indexer ethereum unknown_mode = unexpected_mode "ethereum CIDIndexer" unknown_mode
new_cid_indexer bitcoin local_interface = ok (cid_indexer bitcoin)
new_cid_indexer bitcoin remote_client = ok (cid_indexer bitcoin)
new_cid_indexer bitcoin direct_postgres = ok (ipld_publisher_and_indexer ethereum)
new_cid_indexer bitcoin unknown_mode = unexpected_mode "bitcoin CIDIndexer" unknown_mode
new_cid_indexer omni mode = invalid_chain omni "indexer"
new_cid_indexer unknown_chain mode = invalid_chain unknown_chain "indexer"

unfoldable pub new_cid_retriever : ChainType → Result Component
new_cid_retriever ethereum = ok (cid_retriever ethereum)
new_cid_retriever bitcoin = ok (cid_retriever bitcoin)
new_cid_retriever c = invalid_chain c "retriever"

unfoldable pub new_payload_converter : ChainType → Result Component
new_payload_converter ethereum = ok (payload_converter ethereum)
new_payload_converter bitcoin = ok (payload_converter bitcoin)
new_payload_converter c = invalid_chain c "converter"

-- `open_node` is what a constructor that opens an IPFS node returns.
unfoldable pub new_ipld_fetcher :
    (Component → Result Component) → ChainType → IpfsMode → Result Component
new_ipld_fetcher open_node ethereum local_interface = open_node (ipld_fetcher ethereum)
new_ipld_fetcher open_node ethereum remote_client = open_node (ipld_fetcher ethereum)
new_ipld_fetcher open_node ethereum direct_postgres = ok (ipld_pg_fetcher ethereum)
new_ipld_fetcher open_node ethereum unknown_mode =
    unexpected_mode "ethereum IPLDFetcher" unknown_mode
new_ipld_fetcher open_node bitcoin local_interface = open_node (ipld_fetcher bitcoin)
new_ipld_fetcher open_node bitcoin remote_client = open_node (ipld_fetcher bitcoin)
new_ipld_fetcher open_node bitcoin direct_postgres = ok (ipld_pg_fetcher bitcoin)
new_ipld_fetcher open_node bitcoin unknown_mode = unexpected_mode "bitcoin IPLDFetcher" unknown_mode
new_ipld_fetcher open_node omni mode = invalid_chain omni "IPLD fetcher"
new_ipld_fetcher open_node unknown_chain mode = invalid_chain unknown_chain "IPLD fetcher"

unfoldable pub new_ipld_publisher :
    (Component → Result Component) → ChainType → IpfsMode → Result Component
new_ipld_publisher open_node ethereum local_interface = open_node (ipld_publisher ethereum)
new_ipld_publisher open_node ethereum remote_client = open_node (ipld_publisher ethereum)
new_ipld_publisher open_node ethereum direct_postgres = ok (ipld_publisher_and_indexer ethereum)
new_ipld_publisher open_node ethereum unknown_mode =
    unexpected_mode "ethereum IPLDPublisher" unknown_mode
new_ipld_publisher open_node bitcoin local_interface = open_node (ipld_publisher bitcoin)
new_ipld_publisher open_node bitcoin remote_client = open_node (ipld_publisher bitcoin)
new_ipld_publisher open_node bitcoin direct_postgres = ok (ipld_publisher_and_indexer bitcoin)
new_ipld_publisher open_node bitcoin unknown_mode =
    unexpected_mode "bitcoin IPLDPublisher" unknown_mode
new_ipld_publisher open_node omni mode = invalid_chain omni "publisher"
new_ipld_publisher open_node unknown_chain mode = invalid_chain unknown_chain "publisher"

unfoldable pub new_cleaner : ChainType → Result Component
new_cleaner ethereum = ok (cleaner ethereum)
new_cleaner bitcoin = ok (cleaner bitcoin)
new_cleaner c = invalid_chain c "cleaner"

-- The dynamic type of a client argument: *rpc.Client, *rpcclient.ConnConfig, or another.
pub data Client : Type 0 where
  rpc_client conn_config : Client
  other_client : String → Client

unfoldable pub wrong_client : String → Client → Result Component
wrong_client what client = err (
    str_append what (
      str_append " got " (elim client [
        | rpc_client ↦ "*rpc.Client"
        | conn_config ↦ "*rpcclient.ConnConfig"
        | other_client type_name ↦ type_name
      ])))

-- The channel that comes with a streamer is left out.
unfoldable pub new_payload_streamer : ChainType → Client → Result Component
new_payload_streamer ethereum rpc_client = ok (payload_streamer ethereum)
new_payload_streamer ethereum client =
    wrong_client "ethereum payload streamer constructor expected client type *rpc.Client" client
new_payload_streamer bitcoin conn_config = ok (payload_streamer bitcoin)
new_payload_streamer bitcoin client =
    wrong_client
      "bitcoin payload streamer constructor expected client config type rpcclient.ConnConfig" client
new_payload_streamer c client = invalid_chain c "streamer"

-- btc.NewPayloadFetcher connects, and may fail.
unfoldable pub new_paylaod_fetcher :
    (Component → Result Component) → ChainType → Client → Result Component
new_paylaod_fetcher connect ethereum rpc_client = ok (payload_fetcher ethereum)
new_paylaod_fetcher connect ethereum client =
    wrong_client "ethereum payload fetcher constructor expected client type *rpc.Client" client
new_paylaod_fetcher connect bitcoin conn_config = connect (payload_fetcher bitcoin)
new_paylaod_fetcher connect bitcoin client =
    wrong_client "bitcoin payload fetcher constructor expected client type *rpcclient.Client" client
new_paylaod_fetcher connect c client = invalid_chain c "payload fetcher"

-- `backend` is the error that eth.NewEthBackend returns, if any.
unfoldable pub new_public_api : Option String → ChainType → Result Component
new_public_api none ethereum = ok (public_api ethereum)
new_public_api (some e) ethereum = err e
new_public_api backend c = invalid_chain c "public api"
