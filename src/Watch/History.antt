-- ===== src/Watch/History.antt =====
-- The blocks that the feed of historical data sends (sendHistoricalData of pkg/watch/service.go).
use ipfs_blockchain_watcher.Prelude.{
  ℕ, zero, suc, ◌+◌, ◌-◌, ◌<◌, some, none, ◌≡◌, refl, ◌∙◌, Bool, true, false, ◌&&◌, ◌||◌, List, [],
  ◌∷◌, if◌then◌else◌, any, arith, inl, inr, length, Bool-cases,
}
use ipfs_blockchain_watcher.Prelude.Int.{
  ℤ, pos, int64, ltb_ℤ, leb_ℤ, eq_ℤ, ◌+ℤ◌, +ℤ_parts, pos_part, neg_part, i64_mod, IsInt64,
  int64-eq_self, int64-IsInt64,
}
use ipfs_blockchain_watcher.Prelude.Results.{Result, ok, ◌>>=◌, Result-cases}
use ipfs_blockchain_watcher.Watch.{Subscription, Backend, Service}
use ipfs_blockchain_watcher.Watch.Requests.{
  clip_start, clip_end, historical_range, feed_block, feed_complete, feed_history,
}

-- How many blocks lie in a range.
unfoldable rounds_of : ℤ × ℤ → ℕ
rounds_of (start, end) = (pos_part end + neg_part start + 1) - (pos_part start + neg_part end)

-- A block of a range that ends at `end`, and of no earlier block than `start`.
abbrev pub within : ℤ → ℤ → ℤ → Bool
within start end i = leb_ℤ start i && leb_ℤ i end

-- The blocks from i on.
abbrev pub blocks_from : ℕ → ℤ → List ℤ
blocks_from zero i = []
blocks_from (suc n) i = i ∷ blocks_from n (i +ℤ pos 1)

blocks_from-any :
    (n : ℕ) (i j : ℤ) → any (eq_ℤ j) (blocks_from n i) ≡ (leb_ℤ i j && ltb_ℤ j (i +ℤ pos n))
blocks_from-any zero i j = ground (arith, +ℤ_parts i (pos 0))
blocks_from-any (suc n) i j = ground (
  arith,
  blocks_from-any n (i +ℤ pos 1) j,
  +ℤ_parts i (pos 1),
  +ℤ_parts (i +ℤ pos 1) (pos n),
  +ℤ_parts i (pos (suc n)),
)

-- What the loop goes through is what lies in the range.
rounds_of-within :
    (start end j : ℤ)
    → any (eq_ℤ j) (blocks_from (rounds_of (start, end)) start) ≡ within start end j
unfolding rounds_of
rounds_of-within start end j = ground (
  arith,
  blocks_from-any (rounds_of (start, end)) start j,
  +ℤ_parts start (pos (rounds_of (start, end))),
)

blocks_from-length : (n : ℕ) (i : ℤ) → length (blocks_from n i) ≡ n
blocks_from-length zero i = refl
blocks_from-length (suc n) i = rw (blocks_from-length n (i +ℤ pos 1)) refl

no_round : (i end : ℤ) → rounds_of (i, end) ≡ 0 → leb_ℤ i end ≡ false
unfolding rounds_of
no_round i end r = ground arith

-- A round of the loop below the greatest int64: the counter does not wrap around.
next_round :
    (i end : ℤ) (n : ℕ)
    → rounds_of (i, end) ≡ suc n
    → IsInt64 i
    → ltb_ℤ end (pos (i64_mod - 1)) ≡ true
    → (leb_ℤ i end ≡ true)
      × (int64 (i +ℤ pos 1) ≡ i +ℤ pos 1)
      × (rounds_of (i +ℤ pos 1, end) ≡ n)
      × IsInt64 (i +ℤ pos 1)
unfolding rounds_of ◌+ℤ◌
next_round i end n r h l =
    let fits : IsInt64 (i +ℤ pos 1) = (ground arith, ground arith) in
    (ground arith, int64-eq_self _ fits, ground arith, fits)

-- A clipped range is what the three bounds leave, and more when the end is not above the start.
clip-within :
    (first last from end i : ℤ)
    → leb_ℤ first last ≡ true
    → within
        (if ltb_ℤ first from then from else first)
        (if ltb_ℤ end last
            && (ltb_ℤ (pos 0) end && ltb_ℤ (if ltb_ℤ first from then from else first) end)
          then end
          else last)
        i
      ≡ ((within first last i
            && (leb_ℤ from i && (if ltb_ℤ (pos 0) end then leb_ℤ i end else true)))
          || ((ltb_ℤ (pos 0) end && leb_ℤ end (if ltb_ℤ first from then from else first))
              && within (if ltb_ℤ first from then from else first) last i))
clip-within first last from end i h = ground arith

module _ (backend : Backend) where
  open backend use {Settings, Payload, Response, Cids}

  -- The blocks that the settings ask for, of those from `first` to `last`: an ending block that is
  -- not positive is no bound.
  unfoldable pub is_wanted : Settings → ℤ → ℤ → ℤ → Bool
  is_wanted params first last i =
      within first last i
      && (leb_ℤ (int64 (backend.starting_block params)) i
          && (if ltb_ℤ (pos 0) (int64 (backend.ending_block params))
              then leb_ℤ i (int64 (backend.ending_block params))
              else true))

  -- The ending block is a bound, and is not above the first block of the range.
  unfoldable pub ends_early : Settings → ℤ → Bool
  unfolding clip_start
  ends_early params first =
      ltb_ℤ (pos 0) (int64 (backend.ending_block params))
      && leb_ℤ (int64 (backend.ending_block params)) (clip_start backend params first)

  unfoldable pub feed_all :
      Subscription → Settings → List ℤ → Service backend → Result (Service backend)
  feed_all sub params [] s = ok s
  feed_all sub params (i ∷ is) s = feed_block backend sub params i s >>= feed_all sub params is

  unfoldable pub historical_blocks : ℤ × ℤ → List ℤ
  unfolding rounds_of
  historical_blocks (start, end) = blocks_from (rounds_of (start, end)) start

  clip_start-IsInt64 :
      (params : Settings) (first : ℤ) → IsInt64 first → IsInt64 (clip_start backend params first)
  unfolding clip_start
  clip_start-IsInt64 params first h =
      elim (Bool-cases (ltb_ℤ first (int64 (backend.starting_block params)))) [
        | inl e ↦ rw e (int64-IsInt64 (backend.starting_block params))
        | inr e ↦ rw e h
      ]

  clip_end-less :
      (params : Settings) (start last : ℤ)
      → ltb_ℤ last (pos (i64_mod - 1)) ≡ true
      → ltb_ℤ (clip_end backend params start last) (pos (i64_mod - 1)) ≡ true
  unfolding clip_end
  clip_end-less params start last h = ground arith

  -- With the range's rounds left, and one test more, the loop ends.
  feed_history-rounds :
      (sub : Subscription) (params : Settings) (end : ℤ) (n fuel : ℕ) (i : ℤ) (s : Service backend)
      → n < fuel
      → rounds_of (i, end) ≡ n
      → IsInt64 i
      → ltb_ℤ end (pos (i64_mod - 1)) ≡ true
      → feed_history backend (λ _. false) sub params end fuel i s
        ≡ some (feed_all sub params (blocks_from n i) s >>= λ t. ok (feed_complete backend sub t))
  unfolding feed_history feed_all
  feed_history-rounds sub params end n zero i s f r h l = absurd (ground arith)
  feed_history-rounds sub params end zero (suc fuel) i s f r h l =
      rw (feed_history, no_round i end r) refl
  feed_history-rounds sub params end (suc n) (suc fuel) i s f r h l =
      let (here, step, left, fits) = next_round i end n r h l in
      elim (Result-cases (feed_block backend sub params i s)) [
        | inl (t, e) ↦
            rw (feed_history, here, e, step)
              (feed_history-rounds sub params end n fuel (i +ℤ pos 1) t (ground arith) left fits l)
        | inr (inl (x, e)) ↦ rw (feed_history, here, e) refl
        | inr (inr e) ↦ rw (feed_history, here, e) refl
      ]

  -- A range that ends at the greatest int64 has no end: the counter wraps around, whatever the fuel.
  feed_history-endless :
      (sub : Subscription) (params : Settings) (fuel : ℕ) (i : ℤ) (s : Service backend)
      → IsInt64 i
      → ((j : ℤ) (t : Service backend)
          → (t' : Service backend) × (feed_block backend sub params j t ≡ ok t'))
      → feed_history backend (λ _. false) sub params (pos (i64_mod - 1)) fuel i s ≡ none
  unfolding feed_history
  feed_history-endless sub params zero i s h fed = refl
  feed_history-endless sub params (suc fuel) i s h fed =
      let here : leb_ℤ i (pos (i64_mod - 1)) ≡ true = ground arith in
      let (t, e) = fed i s in
      rw (feed_history, here, e)
        (feed_history-endless sub params fuel (int64 (i +ℤ pos 1)) t (int64-IsInt64 (i +ℤ pos 1))
          fed)

  -- Suppose the retriever finds a first and a last block, int64 numbers, the first no later than the
  -- last, and the last not the greatest int64. Then a range is found, and the loop feeds a block
  -- exactly when the settings ask for it, or when their ending block is a bound that is not above the
  -- range's start and the block is of the rest of the index. If nothing quits the loop it ends, with
  -- more tests than the range has blocks: it feeds these blocks in their order, and then tells the
  -- end, or panics at the first block that does.
  pub historical_range-blocks :
      (sub : Subscription) (params : Settings) (first last : ℤ)
      → backend.retrieve_first_block_number ≡ ok first
      → backend.retrieve_last_block_number ≡ ok last
      → leb_ℤ first last ≡ true
      → IsInt64 first
      → ltb_ℤ last (pos (i64_mod - 1)) ≡ true
      → (range : ℤ × ℤ) × (historical_range backend params ≡ ok range)
        × ((i : ℤ)
            → any (eq_ℤ i) (historical_blocks range) ≡ (
                is_wanted params first last i
                || (ends_early params first && within (clip_start backend params first) last i)))
        × ((s : Service backend) (fuel : ℕ)
            → length (historical_blocks range) < fuel
            → feed_history backend (λ _. false) sub params range.1 fuel range.0 s
              ≡ some (
                  feed_all sub params (historical_blocks range) s >>= λ t.
                  ok (feed_complete backend sub t)))
  unfolding historical_range clip_start clip_end is_wanted ends_early historical_blocks
  historical_range-blocks sub params first last f l h int least =
      let start = clip_start backend params first in
      let end = clip_end backend params start last in
      (
        (start, end),
        rw (f, l) refl,
        λ i.
            rounds_of-within start end i
            ∙ clip-within first last (int64 (backend.starting_block params))
                (int64 (backend.ending_block params)) i h,
        λ s fuel enough.
            feed_history-rounds sub params end (rounds_of (start, end)) fuel start s
              (rw (blocks_from-length (rounds_of (start, end)) start) at enough) refl
              (clip_start-IsInt64 params first int) (clip_end-less params start last least),
      )
