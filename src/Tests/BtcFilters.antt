-- ===== src/Tests/BtcFilters.antt =====
-- The Bitcoin filterer on a block of two transactions.
use ipfs_blockchain_watcher.Prelude.{ℕ, ◌≡◌, refl, true, false, [], ◌∷◌, some, arith}
use ipfs_blockchain_watcher.Prelude.Int.{pos, int64}
use ipfs_blockchain_watcher.Prelude.Results.{ok}
use ipfs_blockchain_watcher.Eth.Checks.{check_range}
use ipfs_blockchain_watcher.Btc.Types.{
  TxModelWithInsAndOuts, BtcLib, BlockPayload, ConvertedPayload, SubscriptionSettings,
}
use ipfs_blockchain_watcher.Btc.Filterer.{check_transaction, filter}
use ipfs_blockchain_watcher.Btc.Filterer.Filtered.{filter-response}

-- Headers and transactions are numbers.
abbrev numbered : BtcLib
numbered = record {
  Header = ℕ;
  Tx = ℕ;
  serialize_header = λ h. ok (h ∷ []);
  serialize_tx = λ t. ok (t ∷ []);
  raw_data_to_cid = λ codec raw. ok "cid";
}

abbrev coinbase : TxModelWithInsAndOuts
coinbase = record {
  id = pos 1;
  header_id = pos 1;
  index = pos 0;
  tx_hash = "c";
  cid = "";
  mh_key = "";
  seg_wit = false;
  witness_hash = "";
  tx_inputs = [];
  tx_outputs = [];
}

abbrev second : TxModelWithInsAndOuts
second = record {
  id = pos 2;
  header_id = pos 1;
  index = pos 1;
  tx_hash = "d";
  cid = "";
  mh_key = "";
  seg_wit = true;
  witness_hash = "w";
  tx_inputs = [];
  tx_outputs = [];
}

abbrev block : BlockPayload numbered
block = record { block_height = pos 9; header = 90; txs = 11 ∷ 12 ∷ [] }

abbrev payload : ConvertedPayload numbered
payload = record { block_payload = block; tx_meta_data = coinbase ∷ second ∷ [] }

abbrev settings : SubscriptionSettings
settings = record {
  back_fill = false;
  back_fill_only = false;
  start = pos 3;
  end = pos 0;
  header_filter = record { off = true };
  tx_filter = record {
    off = false;
    segwit = true;
    witness_hashes = "w" ∷ [];
    indexes = [];
    pk_script_classes = [];
    multi_sig = false;
    addresses = [];
  };
}

filter-response_example :
    filter numbered settings payload
    ≡ ok (record {
      block_number = some (pos 9);
      header = record { data_bytes = []; cid = "" };
      transactions = record { data_bytes = 12 ∷ []; cid = "cid" } ∷ [];
    })
unfolding check_range check_transaction int64
filter-response_example =
    filter-response numbered (λ h. h ∷ []) (λ t. t ∷ []) (λ codec raw. "cid") (λ h. refl)
      (λ t. refl) (λ codec raw. refl) settings payload (omega arith)
