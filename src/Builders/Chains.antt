-- ===== src/Builders/Chains.antt =====
-- Whether a builder's component is of the chain it is asked for.
use ipfs_blockchain_watcher.Prelude.{
  String, Option, none, some, ◌≡◌, refl, Bool, true, false, if◌then◌else◌,
}
use ipfs_blockchain_watcher.Prelude.Results.{Result, ok, err, panic}
use ipfs_blockchain_watcher.Shared.ChainType.{
  ChainType, unknown_chain, ethereum, bitcoin, omni, IpfsMode, unknown_mode, local_interface,
  remote_client, direct_postgres,
}
use ipfs_blockchain_watcher.Builders.{
  Component, ipld_fetcher, ipld_publisher, payload_fetcher, package_of, Client, rpc_client,
  conn_config, other_client, wrong_client, new_payload_streamer, new_paylaod_fetcher,
  new_public_api, invalid_chain, unexpected_mode, new_response_filterer, new_cid_indexer,
  new_cid_retriever, new_payload_converter, new_ipld_fetcher, new_ipld_publisher, new_cleaner,
}

-- A result that is an error, or a component of the chain.
abbrev pub IsOf : ChainType → Result Component → Type 0
IsOf c (ok component) = package_of component ≡ c
IsOf c (err e) = Unit
IsOf c panic = ⊥

-- The one pair of a chain and a mode that gets another chain's component.
abbrev pub is_mixed_up : ChainType → IpfsMode → Bool
is_mixed_up bitcoin direct_postgres = true
is_mixed_up c mode = false

streamer-IsOf : (c : ChainType) (client : Client) → IsOf c (new_payload_streamer c client)
unfolding new_payload_streamer package_of invalid_chain wrong_client
streamer-IsOf ethereum rpc_client = refl
streamer-IsOf ethereum conn_config = tt
streamer-IsOf ethereum (other_client type_name) = tt
streamer-IsOf bitcoin rpc_client = tt
streamer-IsOf bitcoin conn_config = refl
streamer-IsOf bitcoin (other_client type_name) = tt
streamer-IsOf omni client = tt
streamer-IsOf unknown_chain client = tt

fetcher-IsOf :
    (connect : Component → Result Component) (c : ChainType) (client : Client)
    → ((component : Component) → IsOf (package_of component) (connect component))
    → IsOf c (new_paylaod_fetcher connect c client)
unfolding new_paylaod_fetcher package_of invalid_chain wrong_client
fetcher-IsOf connect ethereum rpc_client h = refl
fetcher-IsOf connect ethereum conn_config h = tt
fetcher-IsOf connect ethereum (other_client type_name) h = tt
fetcher-IsOf connect bitcoin rpc_client h = tt
fetcher-IsOf connect bitcoin conn_config h = h (payload_fetcher bitcoin)
fetcher-IsOf connect bitcoin (other_client type_name) h = tt
fetcher-IsOf connect omni client h = tt
fetcher-IsOf connect unknown_chain client h = tt

api-IsOf : (backend : Option String) (c : ChainType) → IsOf c (new_public_api backend c)
unfolding new_public_api package_of invalid_chain
api-IsOf none ethereum = refl
api-IsOf (some e) ethereum = tt
api-IsOf none bitcoin = tt
api-IsOf none omni = tt
api-IsOf none unknown_chain = tt
api-IsOf (some e) bitcoin = tt
api-IsOf (some e) omni = tt
api-IsOf (some e) unknown_chain = tt

-- For every chain, mode and client, each builder returns an error or a component of the chain, if
-- opening an IPFS node or a connection does so for what it is given. The indexer is excepted for Bitcoin with the mode that
-- writes to Postgres: it is Ethereum's.
pub builders-IsOf :
    (open_node : Component → Result Component) (c : ChainType) (mode : IpfsMode) (client : Client)
    (backend : Option String)
    → ((component : Component) → IsOf (package_of component) (open_node component))
    → IsOf c (new_response_filterer c)
      × IsOf (if is_mixed_up c mode then ethereum else c) (new_cid_indexer c mode)
      × IsOf c (new_cid_retriever c)
      × IsOf c (new_payload_converter c)
      × IsOf c (new_ipld_fetcher open_node c mode)
      × IsOf c (new_ipld_publisher open_node c mode)
      × IsOf c (new_cleaner c)
      × IsOf c (new_payload_streamer c client)
      × IsOf c (new_paylaod_fetcher open_node c client)
      × IsOf c (new_public_api backend c)
unfolding new_response_filterer new_cid_indexer new_cid_retriever new_payload_converter
    new_ipld_fetcher new_ipld_publisher new_cleaner new_payload_streamer new_paylaod_fetcher
    new_public_api package_of invalid_chain unexpected_mode wrong_client
builders-IsOf open_node ethereum local_interface client backend h = (
  refl,
  refl,
  refl,
  refl,
  h (ipld_fetcher ethereum),
  h (ipld_publisher ethereum),
  refl,
  streamer-IsOf ethereum client,
  fetcher-IsOf open_node ethereum client h,
  api-IsOf backend ethereum,
)
builders-IsOf open_node ethereum remote_client client backend h = (
  refl,
  refl,
  refl,
  refl,
  h (ipld_fetcher ethereum),
  h (ipld_publisher ethereum),
  refl,
  streamer-IsOf ethereum client,
  fetcher-IsOf open_node ethereum client h,
  api-IsOf backend ethereum,
)
builders-IsOf open_node ethereum direct_postgres client backend h = (
  refl,
  refl,
  refl,
  refl,
  refl,
  refl,
  refl,
  streamer-IsOf ethereum client,
  fetcher-IsOf open_node ethereum client h,
  api-IsOf backend ethereum,
)
builders-IsOf open_node ethereum unknown_mode client backend h = (
  refl,
  tt,
  refl,
  refl,
  tt,
  tt,
  refl,
  streamer-IsOf ethereum client,
  fetcher-IsOf open_node ethereum client h,
  api-IsOf backend ethereum,
)
builders-IsOf open_node bitcoin local_interface client backend h = (
  refl,
  refl,
  refl,
  refl,
  h (ipld_fetcher bitcoin),
  h (ipld_publisher bitcoin),
  refl,
  streamer-IsOf bitcoin client,
  fetcher-IsOf open_node bitcoin client h,
  api-IsOf backend bitcoin,
)
builders-IsOf open_node bitcoin remote_client client backend h = (
  refl,
  refl,
  refl,
  refl,
  h (ipld_fetcher bitcoin),
  h (ipld_publisher bitcoin),
  refl,
  streamer-IsOf bitcoin client,
  fetcher-IsOf open_node bitcoin client h,
  api-IsOf backend bitcoin,
)
builders-IsOf open_node bitcoin direct_postgres client backend h = (
  refl,
  refl,
  refl,
  refl,
  refl,
  refl,
  refl,
  streamer-IsOf bitcoin client,
  fetcher-IsOf open_node bitcoin client h,
  api-IsOf backend bitcoin,
)
builders-IsOf open_node bitcoin unknown_mode client backend h = (
  refl,
  tt,
  refl,
  refl,
  tt,
  tt,
  refl,
  streamer-IsOf bitcoin client,
  fetcher-IsOf open_node bitcoin client h,
  api-IsOf backend bitcoin,
)
builders-IsOf open_node omni mode client backend h = (
  tt,
  tt,
  tt,
  tt,
  tt,
  tt,
  tt,
  streamer-IsOf omni client,
  fetcher-IsOf open_node omni client h,
  api-IsOf backend omni,
)
builders-IsOf open_node unknown_chain mode client backend h = (
  tt,
  tt,
  tt,
  tt,
  tt,
  tt,
  tt,
  streamer-IsOf unknown_chain client,
  fetcher-IsOf open_node unknown_chain client h,
  api-IsOf backend unknown_chain,
)
