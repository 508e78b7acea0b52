-- ===== src/Shared/ChainType/Laws.antt =====
-- Printing and parsing the enums.
use ipfs_blockchain_watcher.Prelude.{ℕ, ◌≡◌, refl, Bool, true, false}
use ipfs_blockchain_watcher.Shared.Names.{codes}
use ipfs_blockchain_watcher.Shared.ChainType.{
  ChainType, unknown_chain, ethereum, chain_name, chain_api, new_chain_type, DataType,
  unknown_data_type, full, data_type_name, generate_data_type_from_string, IpfsMode, unknown_mode,
  local_interface, remote_client, mode_name, new_ipfs_mode,
}

-- Whether a name is refused.
abbrev pub is_unknown_type : DataType → Bool
is_unknown_type unknown_data_type = true
is_unknown_type d = false

abbrev pub is_unknown_chain : ChainType → Bool
is_unknown_chain unknown_chain = true
is_unknown_chain c = false

abbrev pub is_unsupported_mode : IpfsMode → Bool
is_unsupported_mode unknown_mode = true
is_unsupported_mode remote_client = true
is_unsupported_mode m = false

-- The printed name of a type of data is read back as that type; the name of the unknown type is an
-- error as well, and no other is.
pub generate_data_type_from_string-data_type_name :
    (wide : ℕ → ℕ) (d : DataType)
    → generate_data_type_from_string wide (codes (data_type_name d))
      ≡ record { value = d; failed = is_unknown_type d }
unfolding generate_data_type_from_string data_type_name
generate_data_type_from_string-data_type_name wide full = refl
generate_data_type_from_string-data_type_name wide d = refl

-- Each chain is read back from its printed name and from the name of its API; both are an error as
-- well for the unknown chain, and for no other.
pub new_chain_type-names :
    (wide : ℕ → ℕ) (c : ChainType)
    → (new_chain_type wide (codes (chain_name c))
        ≡ record { value = c; failed = is_unknown_chain c })
      × (new_chain_type wide (codes (chain_api c))
          ≡ record { value = c; failed = is_unknown_chain c })
unfolding new_chain_type chain_name chain_api
new_chain_type-names wide ethereum = (refl, refl)
new_chain_type-names wide c = (refl, refl)

-- Each mode is read back from its printed name; those of the remote client and of the unknown mode
-- are an error as well, and no other is.
pub new_ipfs_mode-mode_name :
    (wide : ℕ → ℕ) (m : IpfsMode)
    → new_ipfs_mode wide (codes (mode_name m))
      ≡ record { value = m; failed = is_unsupported_mode m }
unfolding new_ipfs_mode mode_name
new_ipfs_mode-mode_name wide local_interface = refl
new_ipfs_mode-mode_name wide m = refl
