-- ===== src/Workers/Ending.antt =====
-- How a round ends: with a worker, always when all is done; with none, never.
use ipfs_blockchain_watcher.Prelude.{
  ℕ, zero, suc, ◌+◌, ◌*◌, ◌≤◌, ◌<◌, ◌≡◌, refl, sym, ap, ◌∙◌, List, [], ◌∷◌, ◌++◌, length, arith,
  ◌⊎◌, inl, inr,
}
use ipfs_blockchain_watcher.Workers.{Pool, Step, hand, finish, signal, Run, stay, after, start}
use ipfs_blockchain_watcher.Workers.Round.{Run-keeps}
use ipfs_blockchain_watcher.Prelude.Occurrences.{total}

module _ {Batch : Type 0} where
  -- Every batch is handed out and finished, and every worker has its quit signal.
  pub record Finished (p : Pool Batch) : Type 0 where
    pub none_pending : p.pending ≡ []
    pub none_busy : p.busy ≡ []
    pub none_idle : p.idle ≡ 0
    pub all_signalled : p.signals ≡ 0

  cons-ne-nil : {b : Batch} {bs : List Batch} → (b ∷ bs) ≡ [] → ⊥
  cons-ne-nil e = cc

  -- No quit signal is sent while a batch is pending.
  abbrev NotEarly : ℕ → Pool Batch → Type 0
  NotEarly workers p = p.pending ≡ [] ⊎ p.signals ≡ workers

  Step-NotEarly :
      (workers : ℕ) {p q : Pool Batch} → Step Batch p q → NotEarly workers p → NotEarly workers q
  Step-NotEarly workers (hand p b bs n e m) (inl none_left) =
      absurd (cons-ne-nil (sym e ∙ none_left))
  Step-NotEarly workers (hand p b bs n e m) (inr all) = inr all
  Step-NotEarly workers (finish p before b rest e) h = h
  Step-NotEarly workers (signal p n k e m h) i = inl e

  Run-NotEarly :
      (workers : ℕ) (batches : List Batch) {n : ℕ} {p q : Pool Batch}
      → Run Batch n p q
      → p ≡ start Batch workers batches
      → NotEarly workers q
  unfolding start
  Run-NotEarly workers batches (stay p) e = rw e (inr refl)
  Run-NotEarly workers batches (after n p q r run step) e =
      Step-NotEarly workers step (Run-NotEarly workers batches run e)

  progress :
      (workers : ℕ) (pending : List Batch) (idle : ℕ) (busy : List Batch) (signals : ℕ)
      (done : List Batch)
      → 0 < workers
      → signals ≡ idle + length busy
      → pending ≡ [] ⊎ signals ≡ workers
      → ((q : Pool Batch) × Step Batch
            (record {
              pending = pending;
              idle = idle;
              busy = busy;
              signals = signals;
              finished = done;
            })
            q)
        ⊎ Finished (record {
          pending = pending;
          idle = idle;
          busy = busy;
          signals = signals;
          finished = done;
        })
  progress workers pending idle (b ∷ busy) signals done some_worker one_each early =
      inl (_, finish _ [] b busy refl)
  progress workers (b ∷ bs) (suc n) [] signals done some_worker one_each early =
      inl (_, hand _ b bs n refl refl)
  progress workers [] (suc n) [] signals done some_worker one_each early =
      inl (_, signal _ n n refl refl (omega arith))
  progress workers [] zero [] signals done some_worker one_each early = inr (record {
    none_pending = refl;
    none_busy = refl;
    none_idle = refl;
    all_signalled = omega arith;
  })
  progress workers (b ∷ bs) zero [] signals done some_worker one_each (inl none_left) =
      absurd (cons-ne-nil none_left)
  progress workers (b ∷ bs) zero [] signals done some_worker one_each (inr all) =
      absurd (omega arith)

  -- With at least one worker a round is never stuck before its end, in whatever order its goroutines
  -- take their steps: after any number of steps there is a further one, or every batch is finished and
  -- every worker told to quit. A run has at most two steps for each batch and one for each worker. At
  -- the end the batches finished are those of the round: any weight of them sums up to the same.
  pub round-ends :
      (w : Batch → ℕ) (workers : ℕ) (batches : List Batch) (n : ℕ) (q : Pool Batch)
      → 0 < workers
      → Run Batch n (start Batch workers batches) q
      → (n ≤ 2 * length batches + workers)
        × (((r : Pool Batch) × Step Batch q r)
            ⊎ (Finished q × (total w q.finished ≡ total w batches)))
  round-ends w workers batches n q some_worker run =
      let keeps = Run-keeps w workers batches run refl in
      let early = Run-NotEarly workers batches run refl in
      (
        omega (arith, keeps.2),
        elim (progress workers q.pending q.idle q.busy q.signals q.finished some_worker keeps.1
            early) [
              | inl step ↦ inl step
              | inr done ↦
                  let none_pending : total w q.pending ≡ 0 = ap (total w) done.none_pending in
                  let none_busy : total w q.busy ≡ 0 = ap (total w) done.none_busy in
                  inr (done, omega (arith, keeps.0, none_pending, none_busy))
            ],
      )

  -- From every state that a round with a worker can reach, it can be completed.
  pub round-finishes :
      (workers : ℕ) (batches : List Batch) (n : ℕ) (q : Pool Batch)
      → 0 < workers
      → Run Batch n (start Batch workers batches) q
      → (m : ℕ) × (r : Pool Batch) × Run Batch m (start Batch workers batches) r × Finished r
  round-finishes workers batches n q some_worker run =
      finish_within (2 * length batches + workers) n q run (omega arith)
    where
      finish_within :
          (fuel n : ℕ) (q : Pool Batch)
          → Run Batch n (start Batch workers batches) q
          → 2 * length batches + workers ≤ n + fuel
          → (m : ℕ) × (r : Pool Batch) × Run Batch m (start Batch workers batches) r × Finished r
      finish_within zero n q run enough =
          elim (round-ends (λ b. 0) workers batches n q some_worker run).1 [
            | inr (done, all) ↦ (n, q, run, done)
            | inl (r, step) ↦
                let more =
                  round-ends (λ b. 0) workers batches (suc n) r some_worker
                    (after n _ q r run step) in
                absurd (omega (arith, more.0))
          ]
      finish_within (suc fuel) n q run enough =
          elim (round-ends (λ b. 0) workers batches n q some_worker run).1 [
            | inr (done, all) ↦ (n, q, run, done)
            | inl (r, step) ↦ finish_within fuel (suc n) r (after n _ q r run step) (omega arith)
          ]

  start-stuck :
      (b : Batch) (bs : List Batch) {p q : Pool Batch}
      → Step Batch p q
      → p ≡ start Batch 0 (b ∷ bs)
      → ⊥
  unfolding start
  start-stuck b bs (hand p c cs n e m) h = omega (arith, m, ap (λ (x : Pool Batch). x.idle) h)
  start-stuck b bs (finish p before c rest e) h =
      not_nil before (sym e ∙ ap (λ (x : Pool Batch). x.busy) h)
    where
      not_nil : (before : List Batch) → (before ++ c ∷ rest) ≡ [] → ⊥
      not_nil [] e = cc
      not_nil (d ∷ before) e = cc
  start-stuck b bs (signal p n k e m h) g = omega (arith, m, ap (λ (x : Pool Batch). x.idle) g)

  -- Without a worker a round with a batch takes no step: the goroutine that hands out the batches
  -- blocks for ever.
  pub round-stuck :
      (b : Batch) (bs : List Batch) (q : Pool Batch) → Step Batch (start Batch 0 (b ∷ bs)) q → ⊥
  round-stuck b bs q step = start-stuck b bs step refl
