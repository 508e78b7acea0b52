-- ===== src/Eth/Reward.antt =====
-- pkg/eth/reward.go: block rewards, in wei. A *big.Int is an integer; only the values that the
-- functions read of headers, transactions and receipts are their arguments.
pub mod Sums
use ipfs_blockchain_watcher.Prelude.{
  ℕ, zero, suc, ◌+◌, ◌-◌, ◌*◌, ◌/◌, ◌≤◌, ◌≡◌, refl, ap, sym, ◌∙◌, List, [], ◌∷◌, Option, none, some,
  arith, length, get_elem?, if◌then◌else◌,
}
use ipfs_blockchain_watcher.Prelude.Int.{ℤ, pos, int64, leb_ℤ, ◌+ℤ◌, ◌-ℤ◌, ◌*ℤ◌}
use ipfs_blockchain_watcher.Prelude.Results.{Result, ok, err, panic, ◌>>=◌, or_panic}

unfoldable pub static_reward_by_block_number : ℤ → ℕ
static_reward_by_block_number block_number =
    if leb_ℤ (pos 7280000) block_number
    then 2000000000000000000
    else (if leb_ℤ (pos 4370000) block_number then 3000000000000000000 else 5000000000000000000)

-- The loop over the transactions' gas prices, with the gas used of the receipts.
unfoldable pub transaction_fees : List ℕ → ℕ → ℤ → List ℤ → Result ℤ
transaction_fees receipts i fees [] = ok fees
transaction_fees receipts i fees (gas_price ∷ txs) = do
  gas_used ← or_panic (get_elem? receipts i)
  transaction_fees receipts (suc i) (fees +ℤ int64 gas_price *ℤ int64 (pos gas_used)) txs

unfoldable pub calc_eth_transaction_fees : List ℤ → List ℕ → Result ℤ
unfolding transaction_fees
calc_eth_transaction_fees txs receipts = transaction_fees receipts 0 (pos 0) txs

-- `for range uncles`, from the rewards so far.
unfoldable pub inclusion_rewards : ℤ → ℕ → ℕ → ℕ
unfolding static_reward_by_block_number
inclusion_rewards number rewards zero = rewards
inclusion_rewards number rewards (suc uncles) =
    inclusion_rewards number (rewards + static_reward_by_block_number (int64 number) / 32) uncles

unfoldable pub calc_eth_uncle_inclusion_rewards : ℤ → ℕ → ℕ
unfolding inclusion_rewards
calc_eth_uncle_inclusion_rewards number uncles = inclusion_rewards number 0 uncles

unfoldable pub calc_eth_block_reward : ℤ → ℕ → List ℤ → List ℕ → Result ℤ
unfolding calc_eth_transaction_fees calc_eth_uncle_inclusion_rewards
calc_eth_block_reward number uncles txs receipts = do
  fees ← calc_eth_transaction_fees txs receipts
  ok (
      fees
      +ℤ pos (calc_eth_uncle_inclusion_rewards number uncles)
      +ℤ pos (static_reward_by_block_number (int64 number)))

unfoldable pub calc_uncle_miner_reward : ℤ → ℤ → ℤ
unfolding static_reward_by_block_number
calc_uncle_miner_reward block_number uncle_block_number =
    pos (static_reward_by_block_number block_number / 8)
    *ℤ (uncle_block_number +ℤ pos 8 -ℤ block_number)
