-- ===== src/Tests/Filters.antt =====
-- The filterer and the queries, on a block of one transaction.
use mathlib.Core.List.{Mem}
use ipfs_blockchain_watcher.Prelude.{
  ℕ, ◌≡◌, refl, true, false, ◌&&◌, ◌||◌, [], ◌∷◌, some, is_empty, any, arith,
}
use ipfs_blockchain_watcher.Prelude.Int.{pos, eq_ℤ, int64}
use ipfs_blockchain_watcher.Prelude.Results.{ok, collect}
use ipfs_blockchain_watcher.Eth.Models.{TxModel, ReceiptModel}
use ipfs_blockchain_watcher.Eth.Settings.{TxFilter, ReceiptFilter, SubscriptionSettings}
use ipfs_blockchain_watcher.Eth.Types.{EthLib, Block, ConvertedPayload, Iplds}
use ipfs_blockchain_watcher.Eth.Checks.{
  check_range, check_transaction_addrs, check_receipts, filter_match,
}
use ipfs_blockchain_watcher.Eth.Checks.Topics.{slot_passes, filter_match-slots}
use ipfs_blockchain_watcher.Eth.Filterer.{
  no_iplds, filter, filter_transactions, filer_receipts, header_model, filter_headers,
  filter_state_and_storage,
}
use ipfs_blockchain_watcher.Eth.Filterer.Filtered.{
  IsInRange, filter-block_number, filter-storage_intermediate,
}
use ipfs_blockchain_watcher.Eth.Filterer.Transactions.{
  is_wanted, filter_transactions-wanted, filer_receipts-paired,
}
use ipfs_blockchain_watcher.Eth.Retrieval.{has_topics, tx_where, storage_where, rct_where}
use ipfs_blockchain_watcher.Eth.Retrieval.Receipts.{
  topics_of, tx_where-live, check_receipts-rct_where, match_txs-differs,
}

-- Headers, transactions and receipts are their hashes.
abbrev numbered : EthLib
numbered = record {
  Header = ℕ;
  Tx = ℕ;
  Receipt = ℕ;
  encode_header = λ h. ok (h ∷ []);
  encode_tx = λ t. ok (t ∷ []);
  encode_receipt = λ r. ok (r ∷ []);
  tx_hash = λ t. t;
  receipt_tx_hash = λ r. r;
  raw_data_to_cid = λ codec raw. ok "cid";
  address_hash = λ a. 0;
  hex_to_hash = λ a. 0;
  bytes_to_hex = λ b. "";
}

abbrev sent : TxModel
sent = record {
  id = pos 1;
  header_id = pos 1;
  index = pos 0;
  tx_hash = "5";
  cid = "";
  mh_key = "";
  dst = "0xB";
  src = "0xA";
}

abbrev logged : ReceiptModel
logged = record {
  id = pos 1;
  tx_id = pos 1;
  cid = "";
  mh_key = "";
  contract = "";
  contract_hash = "";
  log_contracts = "0xC" ∷ [];
  topic0s = "t" ∷ [];
  topic1s = [];
  topic2s = [];
  topic3s = [];
}

abbrev block_4 : Block numbered
block_4 = record { number = pos 4; header = 40; uncles = []; transactions = 5 ∷ [] }

abbrev payload : ConvertedPayload numbered
payload = record {
  total_difficulty = pos 1;
  block = block_4;
  tx_meta_data = sent ∷ [];
  receipts = 5 ∷ [];
  receipt_meta_data = logged ∷ [];
  state_nodes = [];
  storage_nodes = [];
}

abbrev from_a : TxFilter
from_a = record { off = false; src = "0xA" ∷ []; dst = [] }

-- The receiver is wanted, the sender is not.
abbrev to_b : TxFilter
to_b = record { off = false; src = "0xZ" ∷ []; dst = "0xB" ∷ [] }

abbrev paired : ReceiptFilter
paired = record { off = false; match_txs = true; log_addresses = "0xD" ∷ []; topics = [] }

abbrev only_paired : ReceiptFilter
only_paired = record { off = false; match_txs = true; log_addresses = []; topics = [] }

abbrev settings : SubscriptionSettings
settings = record {
  back_fill = false;
  back_fill_only = false;
  start = pos 6;
  end = pos 0;
  header_filter = record { off = false; uncles = false };
  tx_filter = from_a;
  receipt_filter = paired;
  state_filter = record { off = true; addresses = []; intermediate_nodes = false };
  storage_filter = record {
    off = true;
    addresses = [];
    storage_keys = [];
    intermediate_nodes = false;
  };
}

abbrev leaf_type : ℕ
leaf_type = 2

-- The block is in the range of the subscriber, and of its transaction the receipt is wanted too.
abbrev asking : SubscriptionSettings
asking = record settings { start = pos 2; end = pos 4 }

abbrev whole_block : Iplds
whole_block = record {
  block_number = some (pos 4);
  total_difficulty = some (pos 1);
  header = record { data_bytes = 40 ∷ []; cid = "cid" };
  uncles = [];
  transactions = record { data_bytes = 5 ∷ []; cid = "cid" } ∷ [];
  receipts = record { data_bytes = 5 ∷ []; cid = "cid" } ∷ [];
  state_nodes = [];
  storage_nodes = [];
}

filter-block_number_example :
    (¬ IsInRange numbered asking payload → filter numbered asking payload ≡ ok no_iplds)
    × (IsInRange numbered asking payload
        → filter numbered asking payload ≡ ok whole_block
        → (whole_block.block_number ≡ some (pos 4))
          × (whole_block.total_difficulty ≡ some (pos 1))
          × (asking.header_filter.off ≡ false
              → header_model numbered 40 ≡ ok (record { data_bytes = 40 ∷ []; cid = "cid" })))
filter-block_number_example = filter-block_number numbered asking payload whole_block

answers : filter numbered asking payload ≡ ok whole_block
unfolding filter check_range int64 filter_headers filter_transactions collect
    check_transaction_addrs filer_receipts check_receipts filter_state_and_storage
answers = refl

filter-storage_intermediate_example :
    (filter numbered
        (record settings {
          storage_filter = record settings.storage_filter { intermediate_nodes = false };
        })
        payload
      ≡ filter numbered
          (record settings {
            storage_filter = record settings.storage_filter { intermediate_nodes = true };
          })
          payload)
    × (storage_where
            (λ a. a)
            (record settings.storage_filter { intermediate_nodes = false })
            ""
            ""
            2
          ≡ true
        → leaf_type ≡ 2)
filter-storage_intermediate_example =
    filter-storage_intermediate numbered settings payload (λ a. a) "" "" leaf_type

filter_transactions-wanted_example :
    filter_transactions numbered to_b no_iplds payload
    ≡ ok (
      record no_iplds { transactions = record { data_bytes = 5 ∷ []; cid = "cid" } ∷ [] },
      5 ∷ [],
    )
unfolding is_wanted
filter_transactions-wanted_example =
    filter_transactions-wanted numbered (λ t. t ∷ []) (λ r. r ∷ []) (λ codec raw. "cid") (λ t. refl)
      (λ r. refl) (λ codec raw. refl) to_b no_iplds payload refl (omega arith)

filer_receipts-paired_example :
    (out : Iplds) × (filer_receipts numbered paired no_iplds payload (5 ∷ []) ≡ ok out)
    × Mem (record { data_bytes = 5 ∷ []; cid = "cid" }) out.receipts
filer_receipts-paired_example =
    filer_receipts-paired numbered (λ t. t ∷ []) (λ r. r ∷ []) (λ codec raw. "cid") (λ t. refl)
      (λ r. refl) (λ codec raw. refl) paired no_iplds payload (5 ∷ []) 0 5 refl (omega arith) refl
      refl

filter_match-slots_example :
    filter_match (("t" ∷ "u" ∷ []) ∷ []) (("u" ∷ []) ∷ [] ∷ [] ∷ [] ∷ []) ≡ (
      slot_passes (("t" ∷ "u" ∷ []) ∷ []) 0 ("u" ∷ [])
      && (slot_passes (("t" ∷ "u" ∷ []) ∷ []) 1 []
          && (slot_passes (("t" ∷ "u" ∷ []) ∷ []) 2 []
              && slot_passes (("t" ∷ "u" ∷ []) ∷ []) 3 [])))
filter_match-slots_example = filter_match-slots (("t" ∷ "u" ∷ []) ∷ []) ("u" ∷ []) [] [] []

tx_where-live_example :
    (tx_where from_a sent ≡ true → check_transaction_addrs ("0xA" ∷ []) [] "0xA" "0xB" ≡ true)
    × ((is_empty from_a.src || is_empty from_a.dst) ≡ true
        → check_transaction_addrs ("0xA" ∷ []) [] "0xA" "0xB" ≡ tx_where from_a sent)
tx_where-live_example = tx_where-live from_a sent

check_receipts-rct_where_example :
    rct_where paired (pos 1 ∷ []) logged
    ≡ some (check_receipts 5 [] (topics_of logged) ("0xD" ∷ []) ("0xC" ∷ []) (5 ∷ []))
check_receipts-rct_where_example =
    check_receipts-rct_where paired logged 5 (5 ∷ []) (pos 1 ∷ []) (omega arith) refl refl refl

match_txs-differs_example :
    (check_receipts 7 [] (topics_of logged) [] ("0xC" ∷ []) (5 ∷ []) ≡ true)
    × (rct_where only_paired (pos 2 ∷ []) logged
        ≡ some (any (λ id. eq_ℤ id logged.tx_id) (pos 2 ∷ [])))
unfolding has_topics
match_txs-differs_example =
    match_txs-differs only_paired logged 7 (5 ∷ []) (pos 2 ∷ []) refl refl refl refl
