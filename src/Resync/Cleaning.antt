-- ===== src/Resync/Cleaning.antt =====
-- What a resync does to the tables before it fetches anything.
use Prim.Native.String.{◌++◌ as str_append}
use ipfs_blockchain_watcher.Prelude.{
  ℕ, ◌<◌, ◌≡◌, refl, String, true, false, Bool, [], Option, some, All, ◌⊎◌, inl, inr, flat_map, ap,
  arith, ◌==◌, if◌then◌else◌,
}
use ipfs_blockchain_watcher.Prelude.Results.{Result, ok, err, panic}
use ipfs_blockchain_watcher.Sql.{Session}
use ipfs_blockchain_watcher.Sql.Calls.{Failed}
use ipfs_blockchain_watcher.Eth.Tables.{Db}
use ipfs_blockchain_watcher.Eth.Tables.Ranges.{selected}
use ipfs_blockchain_watcher.Eth.Cleaner.{clean_all, reset_validation}
use ipfs_blockchain_watcher.Eth.Cleaner.Outcome.{clean_all-outcome}
use ipfs_blockchain_watcher.Resync.{
  Service, Cleaner, Outcome, stop_with, send_batches, reset_first, clear_first, cleaning_words,
  clear_and_send, resync, rounds_to,
}
use ipfs_blockchain_watcher.Resync.Coverage.{Fits, heights_of, resync_batches-covers}

-- A call that is made only when it is switched on: it was made and returned no error, or it was not
-- made and nothing has changed.
abbrev pub Did : {S : Type 0} → Bool → S × Result (Unit {0}) → S → S → Type 0
Did on call s s' = ((on ≡ true) × (call ≡ (s', ok tt))) ⊎ ((on ≡ false) × (s' ≡ s))

-- The error of a call that fails, as Resync returns it.
abbrev pub Passes : String → Result (Unit {0}) → Option (Result (Unit {0})) → Type 0
Passes words r error =
    ((e : String) × (r ≡ err e) × (error ≡ some (err (str_append words e))))
    ⊎ ((r ≡ panic) × (error ≡ some panic))

-- A call was made, has failed and has left its tables, and its error is returned.
abbrev pub Stopped :
    {S : Type 0} → Bool → String → S × Result (Unit {0}) → S → Option (Result (Unit {0})) → Type 0
Stopped on words call s' error =
    (on ≡ true) × (r : Result (Unit {0})) × (call ≡ (s', r)) × Passes words r error

module _ {S : Type 0} where
  -- A call of the cleaner that fails sends nothing; one that does not is followed by what comes next.
  stop_with-both :
      (P : Outcome S → Type 0) (words : String) (call : S × Result (Unit {0}))
      (next : S → Outcome S)
      → (call.1 ≡ ok tt → P (next call.0))
      → ((s : S) (r : Result (Unit {0}))
          → Failed r
          → P (record { tables = s; batches = []; error = some r }))
      → P (stop_with words call next)
  stop_with-both P words (s, ok done) next fine failed = fine refl
  stop_with-both P words (s, err e) next fine failed = failed s _ (inr (_, refl))
  stop_with-both P words (s, panic) next fine failed = failed s panic (inl refl)

  -- The same, with the call that was made and its error.
  stop_with-call :
      (P : Outcome S → Type 0) (words : String) (on : Bool) (call : S × Result (Unit {0})) (s : S)
      (next : S → Outcome S)
      → ((s' : S) → Did on call s s' → P (next s'))
      → ((s' : S) (error : Option (Result (Unit {0})))
          → Stopped on words call s' error
          → P (record { tables = s'; batches = []; error = error }))
      → P (stop_with words (if on then call else (s, ok tt)) next)
  stop_with-call P words false call s next fine failed = fine s (inr (refl, refl))
  stop_with-call P words true (s', ok done) s next fine failed = fine s' (inl (refl, refl))
  stop_with-call P words true (s', err e) s next fine failed =
      failed s' _ (refl, err e, refl, inl (e, refl, refl))
  stop_with-call P words true (s', panic) s next fine failed =
      failed s' _ (refl, panic, refl, inr (refl, refl))

  abbrev pub reset_call : Service → Cleaner S → S → S × Result (Unit {0})
  reset_call rs cleaner s = cleaner.reset_ranges rs.ranges s

  abbrev pub clean_call : Service → Cleaner S → S → S × Result (Unit {0})
  clean_call rs cleaner s = cleaner.clean_ranges rs.ranges rs.data_type s

  -- Of the three ways in which a resync ends, the one without an error.
  abbrev pub Sent : Service → Cleaner S → S → Outcome S → Type 0
  Sent rs cleaner s out =
      (mid : S) × Did rs.reset_validation (reset_call rs cleaner s) s mid
      × Did rs.clear_old_cache (clean_call rs cleaner mid) mid out.tables
      × (out.error ≡ some (ok tt))
      × (flat_map (λ b. b) out.batches ≡ heights_of rs.ranges)

  -- The other two: the reset failed, or the cleaning did.
  abbrev pub NotSent : Service → Cleaner S → S → Outcome S → Type 0
  NotSent rs cleaner s out =
      (out.batches ≡ [])
      × (Stopped rs.reset_validation "validation reset failed: " (reset_call rs cleaner s)
            out.tables out.error
          ⊎ ((mid : S) × Did rs.reset_validation (reset_call rs cleaner s) s mid
              × Stopped rs.clear_old_cache (cleaning_words rs) (clean_call rs cleaner mid)
                  out.tables out.error))

  -- A resync with a worker and any cleaner, in batches that are not empty, of ranges whose last batch
  -- does not overflow, returns, in one of these ways. The calls of the cleaner that are switched on
  -- were made, the reset first, and returned no error, and it returns no error and has sent batches
  -- with all heights of its ranges, in their order. Or one of these calls failed, the reset, or the
  -- cleaning after a reset without an error, and it returns that call's error with the words that tell
  -- which it is, has left the tables as that call did, and sent nothing.
  pub resync-all_or_nothing :
      (rs : Service) (cleaner : Cleaner S) (s : S)
      → 0 < rs.batch_size
      → Fits rs.batch_size rs.ranges
      → 0 < rounds_to rs.batch_number
      → Sent rs cleaner s (resync rs cleaner s) ⊎ NotSent rs cleaner s (resync rs cleaner s)
  unfolding resync
  resync-all_or_nothing rs cleaner s positive fits workers =
      let Goal : Outcome S → Type 0 = λ out. Sent rs cleaner s out ⊎ NotSent rs cleaner s out in
      let sent = resync_batches-covers rs.batch_size rs.ranges positive fits in
      let busy : (rounds_to rs.batch_number == 0) ≡ false = ground arith in
      stop_with-call Goal _ rs.reset_validation (reset_call rs cleaner s) s
        (clear_and_send rs cleaner)
        (λ mid reset.
          stop_with-call Goal (cleaning_words rs) rs.clear_old_cache (clean_call rs cleaner mid) mid
            (send_batches rs)
            (λ cleaned clean. rw busy (inl (mid, reset, clean, ap some sent.1, sent.0)))
            (λ s' error stopped. inr (refl, inr (mid, reset, stopped))))
        (λ s' error stopped. inr (refl, inl stopped))

-- The Ethereum cleaner, on a connection that refuses some statements.
abbrev pub eth_cleaner : (ℕ → Option String) → Cleaner (Session Db)
eth_cleaner fault = record {
  reset_ranges = λ rngs. reset_validation rngs fault;
  clean_ranges = λ rngs t. clean_all rngs t fault;
}

ok-not-Failed : (r : Result (Unit {0})) → r ≡ ok tt → Failed r → ⊥
ok-not-Failed r e (inl f) = cc
ok-not-Failed r e (inr (m, f)) = cc

clear_first-cleared :
    (rs : Service) (fault : ℕ → Option String) (s : Session Db)
    → rs.clear_old_cache ≡ true
    → (clear_first rs (eth_cleaner fault) s).1 ≡ ok tt
    → All
        (λ rng. selected rng rs.data_type (clear_first rs (eth_cleaner fault) s).0.tables ≡ false)
        rs.ranges
clear_first-cleared rs fault s clear fine =
    let outcome = clean_all-outcome rs.ranges rs.data_type fault s in
    let ran : (clean_all rs.ranges rs.data_type fault s).1 ≡ ok tt = rw clear at fine in
    elim outcome [
      | inl (cleaned, r) ↦ rw clear cleaned.cleared
      | inr (same, failed) ↦ absurd (ok-not-Failed _ ran failed)
    ]

some-injective : {A : Type 0} {x y : A} → some x ≡ some y → x ≡ y
some-injective e = cc

send_batches-tables : {S : Type 0} (rs : Service) (s : S) → (send_batches rs s).tables ≡ s
send_batches-tables rs s = ground arith

-- A resync of Ethereum data that is to clear the old data, and returns no error, has sent its batches
-- to the workers only when no row of its data type was left in any of its ranges.
pub resync-clears :
    (rs : Service) (fault : ℕ → Option String) (s : Session Db)
    → rs.clear_old_cache ≡ true
    → (resync rs (eth_cleaner fault) s).error ≡ some (ok tt)
    → All
        (λ rng. selected rng rs.data_type (resync rs (eth_cleaner fault) s).tables.tables ≡ false)
        rs.ranges
unfolding resync
resync-clears rs fault s clear =
    let Goal : Outcome (Session Db) → Type 0 = λ out.
      out.error ≡ some (ok tt)
      → All (λ rng. selected rng rs.data_type out.tables.tables ≡ false) rs.ranges in
    let reset = reset_first rs (eth_cleaner fault) s in
    stop_with-both Goal _ reset (clear_and_send rs (eth_cleaner fault))
      (λ was_reset.
        stop_with-both Goal (cleaning_words rs) (clear_first rs (eth_cleaner fault) reset.0)
          (send_batches rs)
          (λ fine e.
            rw (send_batches-tables rs (clear_first rs (eth_cleaner fault) reset.0).0)
              (clear_first-cleared rs fault reset.0 clear fine))
          (λ t r failed e. absurd (ok-not-Failed r (some-injective e) failed)))
      (λ t r failed e. absurd (ok-not-Failed r (some-injective e) failed))
