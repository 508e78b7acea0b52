-- ===== src/Shared/ChainType.antt =====
-- pkg/shared/chain_type.go, data_type.go and ipfs_mode.go: the enums and their names.
pub mod Laws
use ipfs_blockchain_watcher.Prelude.{
  ℕ, Bool, true, false, String, List, [], ◌∷◌, ◌==◌, if◌then◌else◌,
}
use ipfs_blockchain_watcher.Shared.Names.{to_lower, one_of}

pub data ChainType : Type 0 where
  unknown_chain ethereum bitcoin omni : ChainType

unfoldable pub chain_name : ChainType → String
chain_name ethereum = "Ethereum"
chain_name bitcoin = "Bitcoin"
chain_name omni = "Omni"
chain_name unknown_chain = ""

unfoldable pub chain_api : ChainType → String
chain_api ethereum = "eth"
chain_api bitcoin = "btc"
chain_api omni = "omni"
chain_api unknown_chain = ""

-- The number that iota gives a constant, by which Go compares chains.
unfoldable pub chain_number : ChainType → ℕ
chain_number unknown_chain = 0
chain_number ethereum = 1
chain_number bitcoin = 2
chain_number omni = 3

-- A constructor from a name returns a value also with its error.
pub record Parsed (A : Type 0) : Type 0 where
  pub value : A
  pub failed : Bool

unfoldable pub new_chain_type : (ℕ → ℕ) → List ℕ → Parsed ChainType
unfolding to_lower
new_chain_type wide name =
    let s = to_lower wide name in
    if one_of s ("ethereum" ∷ "eth" ∷ [])
    then record { value = ethereum; failed = false }
    else (if one_of s ("bitcoin" ∷ "btc" ∷ "xbt" ∷ [])
        then record { value = bitcoin; failed = false }
        else (if one_of s ("omni" ∷ [])
            then record { value = omni; failed = false }
            else record { value = unknown_chain; failed = true }))

pub data DataType : Type 0 where
  unknown_data_type full headers uncles transactions receipts state storage : DataType

unfoldable pub data_type_name : DataType → String
data_type_name full = "full"
data_type_name headers = "headers"
data_type_name uncles = "uncles"
data_type_name transactions = "transactions"
data_type_name receipts = "receipts"
data_type_name state = "state"
data_type_name storage = "storage"
data_type_name unknown_data_type = "unknown"

unfoldable pub generate_data_type_from_string : (ℕ → ℕ) → List ℕ → Parsed DataType
unfolding to_lower
generate_data_type_from_string wide str =
    let s = to_lower wide str in
    if one_of s ("full" ∷ "f" ∷ [])
    then record { value = full; failed = false }
    else (if one_of s ("headers" ∷ "header" ∷ "h" ∷ [])
        then record { value = headers; failed = false }
        else (if one_of s ("uncles" ∷ "u" ∷ [])
            then record { value = uncles; failed = false }
            else (if one_of s
                  ("transactions" ∷ "transaction" ∷ "trxs" ∷ "txs" ∷ "trx" ∷ "tx" ∷ "t" ∷ [])
                then record { value = transactions; failed = false }
                else (if one_of s ("receipts" ∷ "receipt" ∷ "rcts" ∷ "rct" ∷ "r" ∷ [])
                    then record { value = receipts; failed = false }
                    else (if one_of s ("state" ∷ [])
                        then record { value = state; failed = false }
                        else (if one_of s ("storage" ∷ [])
                            then record { value = storage; failed = false }
                            else record { value = unknown_data_type; failed = true }))))))

-- Whether a chain has a type of data; an unknown chain is an error.
unfoldable pub supported_data_type : DataType → ChainType → Parsed Bool
supported_data_type d ethereum = record { value = true; failed = false }
supported_data_type full bitcoin = record { value = true; failed = false }
supported_data_type headers bitcoin = record { value = true; failed = false }
supported_data_type transactions bitcoin = record { value = true; failed = false }
supported_data_type d bitcoin = record { value = false; failed = false }
supported_data_type d omni = record { value = false; failed = false }
supported_data_type d unknown_chain = record { value = false; failed = true }

pub data IpfsMode : Type 0 where
  unknown_mode local_interface remote_client direct_postgres : IpfsMode

unfoldable pub mode_name : IpfsMode → String
mode_name local_interface = "Local"
mode_name remote_client = "Remote"
mode_name direct_postgres = "Postgres"
mode_name unknown_mode = ""

unfoldable pub new_ipfs_mode : (ℕ → ℕ) → List ℕ → Parsed IpfsMode
unfolding to_lower
new_ipfs_mode wide name =
    let s = to_lower wide name in
    if one_of s ("local" ∷ "interface" ∷ [])
    then record { value = local_interface; failed = false }
    else (if one_of s ("remote" ∷ "client" ∷ [])
        then record { value = remote_client; failed = true }
        else (if one_of s ("postgres" ∷ "direct" ∷ [])
            then record { value = direct_postgres; failed = false }
            else record { value = unknown_mode; failed = true }))
