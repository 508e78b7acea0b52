-- ===== src/Eth/Reward/Sums.antt =====
-- The rewards as sums and shares.
use native.Mathlib.Nat.{suc-mul, mul-le-mul_right, mul_comm}
use mathlib.Core.List.{append_assoc}
use ipfs_blockchain_watcher.Prelude.{
  ℕ, zero, suc, ◌+◌, ◌-◌, ◌*◌, ◌/◌, ◌≤◌, ◌<◌, ◌≡◌, refl, ap, sym, subst, ◌∙◌, List, [], ◌∷◌, ◌++◌,
  map, arith, length, get_elem?, All, length-append,
}
use ipfs_blockchain_watcher.Prelude.Int.{ℤ, pos, i64_mod, int64, int64-eq_self, ◌+ℤ◌, ◌-ℤ◌, ◌*ℤ◌}
use ipfs_blockchain_watcher.Prelude.Results.{ok}
use ipfs_blockchain_watcher.Prelude.Collect.{get_elem?-append}
use ipfs_blockchain_watcher.Eth.Reward.{
  static_reward_by_block_number, transaction_fees, calc_eth_transaction_fees, inclusion_rewards,
  calc_eth_uncle_inclusion_rewards, calc_eth_block_reward, calc_uncle_miner_reward,
}

-- Gas prices times gas used, summed.
abbrev pub fees_of : List ℕ → List ℕ → ℕ
fees_of [] receipts = 0
fees_of (p ∷ txs) [] = 0
fees_of (p ∷ txs) (u ∷ receipts) = p * u + fees_of txs receipts

inclusion_rewards-eq :
    (number : ℤ) (rewards uncles : ℕ)
    → inclusion_rewards number rewards uncles
      ≡ rewards + uncles * (static_reward_by_block_number (int64 number) / 32)
unfolding inclusion_rewards
inclusion_rewards-eq number rewards zero = omega arith
inclusion_rewards-eq number rewards (suc uncles) =
    let share = static_reward_by_block_number (int64 number) / 32 in
    inclusion_rewards-eq number (rewards + share) uncles ∙ omega (arith, suc-mul uncles share)

pos-add-mul : (a b c : ℕ) → pos a +ℤ pos b *ℤ pos c ≡ pos (a + b * c)
unfolding ◌+ℤ◌ ◌*ℤ◌
pos-add-mul a b c = ground arith

pos-add : (a b : ℕ) → pos a +ℤ pos b ≡ pos (a + b)
unfolding ◌+ℤ◌
pos-add a b = ground arith

transaction_fees-from :
    (pre rs ps : List ℕ) (all : List ℕ) (fees : ℕ)
    → all ≡ pre ++ rs
    → length ps ≤ length rs
    → All (λ p. p < i64_mod) ps
    → All (λ u. u < i64_mod) rs
    → transaction_fees all (length pre) (pos fees) (map pos ps) ≡ ok (pos (fees + fees_of ps rs))
unfolding transaction_fees
transaction_fees-from pre rs [] all fees e l p u = ap (λ n. ok (pos n)) (omega arith)
transaction_fees-from pre [] (x ∷ ps) all fees e l p u = elim l [ ]
transaction_fees-from pre (r ∷ rs) (x ∷ ps) all fees e l p u =
    let here = ap (λ l. get_elem? l (length pre)) e ∙ get_elem?-append pre r rs in
    let there =
      transaction_fees-from (pre ++ r ∷ []) rs ps all (fees + x * r)
        (e ∙ sym (append_assoc pre (r ∷ []) rs)) (omega arith) p.1 u.1 in
    let len : length (pre ++ r ∷ []) ≡ suc (length pre) =
      omega (arith, length-append pre (r ∷ [])) in
    let price = int64-eq_self (pos x) (p.0, omega arith) in
    let used = int64-eq_self (pos r) (u.0, omega arith) in
    let sum : fees + x * r + fees_of ps rs ≡ fees + (x * r + fees_of ps rs) = omega arith in
    rw (here, price, used, pos-add-mul fees x r, ← len, ← sum) there

-- For gas prices and gas used in the int64 range and a receipt for each transaction, the reward of a
-- block is computed, and is its fees, a 32nd of the static reward for each uncle, and the static
-- reward.
pub calc_eth_block_reward-sum :
    (number : ℤ) (uncles : ℕ) (prices used : List ℕ)
    → length prices ≤ length used
    → All (λ p. p < i64_mod) prices
    → All (λ u. u < i64_mod) used
    → calc_eth_block_reward number uncles (map pos prices) used
      ≡ ok (
          pos (
            fees_of prices used
            + uncles * (static_reward_by_block_number (int64 number) / 32)
            + static_reward_by_block_number (int64 number)))
unfolding calc_eth_block_reward calc_eth_transaction_fees calc_eth_uncle_inclusion_rewards
calc_eth_block_reward-sum number uncles prices used l p u =
    let fees = transaction_fees-from [] used prices used 0 refl l p u in
    let static = static_reward_by_block_number (int64 number) in
    let shares = uncles * (static / 32) in
    rw
      (
        fees,
        inclusion_rewards-eq number 0 uncles,
        pos-add (0 + fees_of prices used) (0 + shares),
        pos-add (0 + fees_of prices used + (0 + shares)) static,
      )
      (ap (λ n. ok (pos n)) (omega arith))

times_seven : (k s : ℕ) → k ≤ 7 → 0 < s → k * s < 8 * s
times_seven k s h p = omega (arith, mul-le-mul_right s h)

distance :
    (block uncle : ℕ)
    → block ≤ uncle + 8
    → pos uncle +ℤ pos 8 -ℤ pos block ≡ pos (uncle + 8 - block)
unfolding ◌+ℤ◌ ◌-ℤ◌
distance block uncle k = ground arith

pos-mul : (a b : ℕ) → pos a *ℤ pos b ≡ pos (b * a)
unfolding ◌*ℤ◌
pos-mul a b = let swap = mul_comm a b in ground (arith, swap)

eight_eighths :
    (block : ℕ)
    → static_reward_by_block_number (pos block)
      ≡ 8 * (static_reward_by_block_number (pos block) / 8)
unfolding static_reward_by_block_number
eight_eighths block = ground arith

eighth_positive : (block : ℕ) → 0 < static_reward_by_block_number (pos block) / 8
unfolding static_reward_by_block_number
eighth_positive block = ground arith

-- An uncle that is not above its block, and at most eight below, is rewarded with an eighth of the static reward for
-- each block less than eight, which is less than the static reward if it is below the block at all.
pub calc_uncle_miner_reward-eighths :
    (block uncle : ℕ)
    → uncle ≤ block
    → block ≤ uncle + 8
    → (calc_uncle_miner_reward (pos block) (pos uncle)
        ≡ pos ((uncle + 8 - block) * (static_reward_by_block_number (pos block) / 8)))
      × (uncle < block
          → (uncle + 8 - block) * (static_reward_by_block_number (pos block) / 8)
            < static_reward_by_block_number (pos block))
unfolding calc_uncle_miner_reward
calc_uncle_miner_reward-eighths block uncle h k =
    let static = static_reward_by_block_number (pos block) in
    (
      rw (distance block uncle k) (pos-mul (static / 8) (uncle + 8 - block)),
      λ below.
          subst (λ n. (uncle + 8 - block) * (static / 8) < n) (sym (eight_eighths block))
            (times_seven (uncle + 8 - block) (static / 8) (omega arith) (eighth_positive block)),
    )
