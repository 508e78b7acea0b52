-- ===== src/Tests/Rewards.antt =====
-- Rewards of a block of two transactions with two uncles.
use ipfs_blockchain_watcher.Prelude.{ℕ, ◌≡◌, ◌<◌, [], ◌∷◌, arith}
use ipfs_blockchain_watcher.Prelude.Int.{pos, int64}
use ipfs_blockchain_watcher.Prelude.Results.{ok}
use ipfs_blockchain_watcher.Eth.Reward.{
  static_reward_by_block_number, calc_eth_block_reward, calc_uncle_miner_reward,
}
use ipfs_blockchain_watcher.Eth.Reward.Sums.{
  calc_eth_block_reward-sum, calc_uncle_miner_reward-eighths,
}

calc_eth_block_reward-sum_example :
    calc_eth_block_reward (pos 5000000) 2 (pos 100 ∷ pos 200 ∷ []) (21000 ∷ 50000 ∷ [])
    ≡ ok (pos 3187500000012100000)
unfolding static_reward_by_block_number int64
calc_eth_block_reward-sum_example =
    calc_eth_block_reward-sum (pos 5000000) 2 (100 ∷ 200 ∷ []) (21000 ∷ 50000 ∷ []) (omega arith)
      (omega arith, (omega arith, tt)) (omega arith, (omega arith, tt))

abbrev two_below : ℕ
two_below = 1500000000000000000

calc_uncle_miner_reward-eighths_example :
    (calc_uncle_miner_reward (pos 8000000) (pos 7999998) ≡ pos two_below)
    × (7999998 < 8000000 → two_below < 2000000000000000000)
unfolding static_reward_by_block_number
calc_uncle_miner_reward-eighths_example =
    calc_uncle_miner_reward-eighths 8000000 7999998 (omega arith) (omega arith)
