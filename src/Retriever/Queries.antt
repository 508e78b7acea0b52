-- ===== src/Retriever/Queries.antt =====
-- What the single queries return.
use ipfs_blockchain_watcher.Prelude.{
  ℕ, suc, ◌+◌, ◌≤◌, ◌<◌, ◌≡◌, refl, true, ◌||◌, List, [], ◌∷◌, arith, length, ltb, ◌==◌,
  if◌then◌else◌, contains, All, Option, none, some, Bool-cases, inl, inr,
}
use ipfs_blockchain_watcher.Prelude.Int.{u64_mod}
use ipfs_blockchain_watcher.Utils.Gaps.{Ascending}
use ipfs_blockchain_watcher.Retriever.{minimum, min_above, distinct, insert_sorted, sort}

contains-insert_sorted :
    (x n : ℕ) (ns : List ℕ) → contains x (insert_sorted n ns) ≡ ((n == x) || contains x ns)
unfolding insert_sorted
contains-insert_sorted x n [] = refl
contains-insert_sorted x n (m ∷ ms) = ground (arith, contains-insert_sorted x n ms)

pub contains-sort : (x : ℕ) (ns : List ℕ) → contains x (sort ns) ≡ contains x ns
unfolding sort
contains-sort x [] = refl
contains-sort x (n ∷ ns) = ground (arith, contains-insert_sorted x n (sort ns), contains-sort x ns)

length-insert_sorted : (n : ℕ) (ns : List ℕ) → length (insert_sorted n ns) ≡ suc (length ns)
unfolding insert_sorted
length-insert_sorted n [] = refl
length-insert_sorted n (m ∷ ms) = ground (arith, length-insert_sorted n ms)

pub length-sort : (ns : List ℕ) → length (sort ns) ≡ length ns
unfolding sort
length-sort [] = refl
length-sort (n ∷ ns) = ground (arith, length-insert_sorted n (sort ns), length-sort ns)

abbrev pub Small : List ℕ → Type 0
Small = All (λ n. n + 1 < u64_mod)

insert_sorted-Ascending :
    (low n : ℕ) (ns : List ℕ)
    → low ≤ n
    → n + 1 < u64_mod
    → Ascending low ns
    → Ascending low (insert_sorted n ns)
unfolding insert_sorted
insert_sorted-Ascending low n [] l b a = (l, b, tt)
insert_sorted-Ascending low n (m ∷ ms) l b a = elim (Bool-cases (ltb m n)) [
  | inl lt ↦ rw lt (a.0, a.1, insert_sorted-Ascending m n ms (ground arith) b a.2)
  | inr ge ↦ rw ge (l, b, (ground arith, a.1, a.2))
]

pub sort-Ascending : (ns : List ℕ) → Small ns → Ascending 0 (sort ns)
unfolding sort
sort-Ascending [] s = tt
sort-Ascending (n ∷ ns) s =
    insert_sorted-Ascending 0 n (sort ns) (omega arith) s.0 (sort-Ascending ns s.1)

pub contains-distinct : (x : ℕ) (ns : List ℕ) → contains x (distinct ns) ≡ contains x ns
unfolding distinct
contains-distinct x [] = refl
contains-distinct x (n ∷ ns) = ground (arith, contains-distinct x ns)

-- The smallest number is below or at each, and occurs.
pub minimum_le : (n x : ℕ) (ns : List ℕ) → contains x (n ∷ ns) ≡ true → minimum n ns ≤ x
unfolding minimum
minimum_le n x [] h = ground arith
minimum_le n x (m ∷ ms) h = ground (
  arith,
  minimum_le (if ltb m n then m else n) x ms,
  minimum_le (if ltb m n then m else n) n ms,
  minimum_le (if ltb m n then m else n) m ms,
)

pub minimum_occurs : (n : ℕ) (ns : List ℕ) → contains (minimum n ns) (n ∷ ns) ≡ true
unfolding minimum
minimum_occurs n [] = ground arith
minimum_occurs n (m ∷ ms) = ground (arith, minimum_occurs (if ltb m n then m else n) ms)

-- What the inner join finds above a number.
abbrev pub IsNext : ℕ → List ℕ → Option ℕ → Type 0
IsNext n ms none = (x : ℕ) → contains x ms ≡ true → x ≤ n
IsNext n ms (some m) =
    (n < m) × (contains m ms ≡ true) × ((x : ℕ) → contains x ms ≡ true → n < x → m ≤ x)

min_above_step :
    (n m : ℕ) (ms : List ℕ) (r : Option ℕ)
    → IsNext n ms r
    → IsNext n
        (m ∷ ms)
        (if ltb n m then elim r [ none ↦ some m | some k ↦ some (if ltb m k then m else k) ] else r)
min_above_step n m ms none h = elim (Bool-cases (ltb n m)) [
  | inl lt ↦ rw lt (ground arith, ground arith, λ x c. ground (arith, h x))
  | inr ge ↦ rw ge (λ x c. ground (arith, h x))
]
min_above_step n m ms (some k) h = elim (Bool-cases (ltb n m)) [
  | inl lt ↦ rw lt (ground arith, ground arith, λ x c. ground (arith, h.2 x))
  | inr ge ↦ rw ge (h.0, ground arith, λ x c. ground (arith, h.2 x))
]

pub min_above-IsNext : (n : ℕ) (ms : List ℕ) → IsNext n ms (min_above n ms)
unfolding min_above
min_above-IsNext n [] = λ x h. cc
min_above-IsNext n (m ∷ ms) = min_above_step n m ms (min_above n ms) (min_above-IsNext n ms)
