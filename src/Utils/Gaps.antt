-- ===== src/Utils/Gaps.antt =====
-- MissingHeightsToGaps: what the gaps cover.
use ipfs_blockchain_watcher.Prelude.{
  ℕ, ◌+◌, ◌≤◌, ◌<◌, ◌≡◌, refl, Bool, false, ◌&&◌, ◌||◌, List, [], ◌∷◌, arith, length, leb, ◌==◌,
  if◌then◌else◌, any, contains, Bool-cases, inl, inr,
}
use ipfs_blockchain_watcher.Prelude.Int.{u64_mod, add_u64}
use ipfs_blockchain_watcher.Shared.Types.{Gap}
use ipfs_blockchain_watcher.Utils.{gaps_loop, missing_heights_to_gaps}

-- Whether a height lies in a gap, and in one of several.
abbrev pub in_gap : ℕ → Gap → Bool
in_gap h g = leb g.start h && leb h g.stop

abbrev pub covered : ℕ → List Gap → Bool
covered h = any (in_gap h)

-- Heights in ascending order, equal ones allowed, from a lower bound on, none the largest uint64.
abbrev pub Ascending : ℕ → List ℕ → Type 0
Ascending low [] = Unit
Ascending low (h ∷ hs) = (low ≤ h) × (h + 1 < u64_mod) × Ascending h hs

-- The last height closes the pending gap.
gaps_loop_last :
    (n i start last h x : ℕ)
    → n ≡ i + 2
    → start ≤ last
    → last + 1 < u64_mod
    → covered x (gaps_loop n i start last (h ∷ [])) ≡ ((leb start x && leb x last) || (h == x))
unfolding gaps_loop
gaps_loop_last n i start last h x e s l = rw e (ground arith)

-- Another height lengthens the pending gap, or closes it and opens the next one.
gaps_loop_next :
    (n i start last h x : ℕ) (hs : List ℕ)
    → i + 2 < n
    → last + 1 < u64_mod
    → covered x (gaps_loop n i start last (h ∷ hs)) ≡ (
        if h == (last + 1)
        then covered x (gaps_loop n (i + 1) start h hs)
        else ((leb start x && leb x last) || covered x (gaps_loop n (i + 1) h h hs)))
unfolding gaps_loop
gaps_loop_next n i start last h x hs e l =
    let no_wrap : add_u64 last 1 ≡ last + 1 = omega arith in
    let more : ((i + 2) == n) ≡ false = ground arith in
    elim (Bool-cases (h == (last + 1))) [
      | inl next ↦ rw (no_wrap, next, more)
      | inr jump ↦ rw (no_wrap, jump, more)
    ]

-- With the numbers from start to last pending, the loop covers these and the heights to come.
gaps_loop-covered :
    (n i start last x : ℕ) (heights : List ℕ)
    → n ≡ i + 1 + length heights
    → start ≤ last
    → last + 1 < u64_mod
    → 0 < length heights
    → Ascending last heights
    → covered x (gaps_loop n i start last heights)
      ≡ ((leb start x && leb x last) || contains x heights)
gaps_loop-covered n i start last x [] e s l p a = elim p [ ]
gaps_loop-covered n i start last x (h ∷ []) e s l p a =
    rw (gaps_loop_last n i start last h x (omega arith) s l) (ground arith)
gaps_loop-covered n i start last x (h ∷ k ∷ hs) e s l p a =
    let longer = gaps_loop-covered n (i + 1) start h x (k ∷ hs) (omega arith) in
    let fresh = gaps_loop-covered n (i + 1) h h x (k ∷ hs) (omega arith) in
    rw (gaps_loop_next n i start last h x (k ∷ hs) (omega arith) l) (
      ground (
        arith,
        longer (omega arith) a.1 (omega arith) a.2,
        fresh (omega arith) a.1 (omega arith) a.2,
      ))

-- For heights in ascending order (equal ones allowed, none the largest uint64), the gaps cover a
-- height exactly when it is one of them; but for a single height the result has no gap at all.
pub missing_heights_to_gaps-covered :
    (x : ℕ) (heights : List ℕ)
    → Ascending 0 heights
    → covered x (missing_heights_to_gaps heights)
      ≡ (if length heights == 1 then false else contains x heights)
unfolding missing_heights_to_gaps
missing_heights_to_gaps-covered x [] a = refl
missing_heights_to_gaps-covered x (h ∷ []) a = unfold gaps_loop in refl
missing_heights_to_gaps-covered x (h ∷ k ∷ hs) a =
    let all =
      gaps_loop-covered (length (h ∷ k ∷ hs)) 0 h h x (k ∷ hs) (omega arith) (omega arith) a.1
        (omega arith) a.2 in
    ground (arith, all)
