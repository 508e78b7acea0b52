-- ===== src/Workers/Round.antt =====
-- What the steps of a round keep, and how long it can go on.
use ipfs_blockchain_watcher.Prelude.{
  ℕ, suc, ◌+◌, ◌*◌, ◌≡◌, ap, ◌∙◌, List, ◌∷◌, length, length-append, arith,
}
use ipfs_blockchain_watcher.Prelude.Occurrences.{total, total-append}
use ipfs_blockchain_watcher.Workers.{Pool, Step, hand, finish, signal, Run, stay, after, start}

module _ {Batch : Type 0} where
  -- The weight of all batches of a round, wherever they are.
  abbrev pub weight : (Batch → ℕ) → Pool Batch → ℕ
  weight w p = total w p.pending + total w p.busy + total w p.finished

  -- How many steps are left at most.
  abbrev pub left : Pool Batch → ℕ
  left p = 2 * length p.pending + length p.busy + p.signals

  Step-keeps :
      (w : Batch → ℕ) {p q : Pool Batch}
      → Step Batch p q
      → (weight w q ≡ weight w p)
        × (q.signals + (p.idle + length p.busy) ≡ p.signals + (q.idle + length q.busy))
        × (suc (left q) ≡ left p)
  Step-keeps w (hand p b bs n e m) =
      let total_pending : total w p.pending ≡ w b + total w bs = ap (total w) e in
      let length_pending : length p.pending ≡ suc (length bs) = ap length e in
      (omega (arith, total_pending), omega (arith, m), omega (arith, length_pending))
  Step-keeps w (finish p before b rest e) =
      let total_busy = ap (total w) e ∙ total-append w before (b ∷ rest) in
      let length_busy = ap length e ∙ length-append before (b ∷ rest) in
      (
        omega (arith, total_busy, total-append w before rest),
        omega (arith, length_busy, length-append before rest),
        omega (arith, length_busy, length-append before rest),
      )
  Step-keeps w (signal p n k e m h) = (omega arith, omega (arith, m, h), omega (arith, h))

  -- Runs from the start keep the weight of the batches, have a signal for every worker that still
  -- runs, and use up the steps that are left.
  pub Run-keeps :
      (w : Batch → ℕ) (workers : ℕ) (batches : List Batch) {n : ℕ} {p q : Pool Batch}
      → Run Batch n p q
      → p ≡ start Batch workers batches
      → (weight w q ≡ total w batches)
        × (q.signals ≡ q.idle + length q.busy)
        × (n + left q ≡ 2 * length batches + workers)
  unfolding start
  Run-keeps w workers batches (stay p) e = rw e (omega arith, omega arith, omega arith)
  Run-keeps w workers batches (after n p q r run step) e =
      let before = Run-keeps w workers batches run e in
      let one = Step-keeps w step in
      (
        omega (arith, before.0, one.0),
        omega (arith, before.1, one.1),
        omega (arith, before.2, one.2),
      )
