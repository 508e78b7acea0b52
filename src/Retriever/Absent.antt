-- ===== src/Retriever/Absent.antt =====
-- The gaps that the query for missing headers finds, against the numbers that the table holds.
use mathlib.Core.Bool.{false≢true}
use ipfs_blockchain_watcher.Prelude.{
  ℕ, ◌+◌, ◌≤◌, ◌<◌, ◌≡◌, ◌≢◌, refl, sym, ◌∙◌, Bool, true, false, ◌&&◌, ◌||◌, List, [], ◌∷◌, arith,
  ltb, leb, ◌==◌, contains, Option, none, some, Bool-cases, inl, inr, not, ap, any-append, any,
}
use ipfs_blockchain_watcher.Utils.Gaps.{in_gap, covered}
use ipfs_blockchain_watcher.Retriever.Queries.{contains-distinct, IsNext, min_above-IsNext}
use ipfs_blockchain_watcher.Retriever.{min_above, distinct, gap_after, empty_gaps}

-- The largest number of a list below x.
abbrev IsPrevious : ℕ → List ℕ → Option ℕ → Type 0
IsPrevious x ms none = (y : ℕ) → contains y ms ≡ true → x ≤ y
IsPrevious x ms (some m) =
    (m < x) × (contains m ms ≡ true) × ((y : ℕ) → contains y ms ≡ true → y < x → y ≤ m)

max_below_step :
    (x m : ℕ) (ms : List ℕ) (r : Option ℕ)
    → IsPrevious x ms r
    → (r' : Option ℕ) × IsPrevious x (m ∷ ms) r'
max_below_step x m ms none h = elim (Bool-cases (ltb m x)) [
  | inl lt ↦ (some m, (ground arith, ground arith, λ y c. ground (arith, h y)))
  | inr ge ↦ (none, λ y c. ground (arith, h y))
]
max_below_step x m ms (some k) h = elim (Bool-cases (ltb m x && ltb k m)) [
  | inl lt ↦ (some m, (ground arith, ground arith, λ y c. ground (arith, h.2 y)))
  | inr ge ↦ (some k, (h.0, ground arith, λ y c. ground (arith, h.2 y)))
]

max_below : (x : ℕ) (ms : List ℕ) → (r : Option ℕ) × IsPrevious x ms r
max_below x [] = (none, λ y c. cc)
max_below x (m ∷ ms) = let (r, h) = max_below x ms in max_below_step x m ms r h

-- A gap behind a header holds heights up to a later header, and no header.
gap_after_facts :
    (x n : ℕ) (all : List ℕ)
    → covered x (gap_after all n) ≡ true
    → (n < x) × (contains x all ≡ false) × ((m : ℕ) × (contains m all ≡ true) × (x < m))
unfolding gap_after
gap_after_facts x n all h = by_next (min_above n all) refl (min_above-IsNext n all)
  where
    by_next :
        (r : Option ℕ)
        → min_above n all ≡ r
        → IsNext n all r
        → (n < x) × (contains x all ≡ false) × ((m : ℕ) × (contains m all ≡ true) × (x < m))
    by_next none e next = ground arith
    by_next (some m) e next =
        let above : n < x = ground arith in
        let below : x < m = ground arith in (above, ground (arith, next.2 x), (m, next.1, below))

gap_after_reaches :
    (x n m : ℕ) (all : List ℕ)
    → contains (n + 1) all ≡ false
    → min_above n all ≡ some m
    → n < x
    → x < m
    → covered x (gap_after all n) ≡ true
unfolding gap_after
gap_after_reaches x n m all c e l u = ground arith

empty_gaps_from :
    (x : ℕ) (all ns : List ℕ)
    → covered x (empty_gaps all ns) ≡ true
    → (n : ℕ) × (contains n ns ≡ true) × (covered x (gap_after all n) ≡ true)
unfolding empty_gaps
empty_gaps_from x all [] h = cc
empty_gaps_from x all (n ∷ ns) h = elim (Bool-cases (covered x (gap_after all n))) [
  | inl c ↦ (n, ground arith, c)
  | inr c ↦
      let rest : covered x (empty_gaps all ns) ≡ true =
        ground (arith, any-append (in_gap x) (gap_after all n) (empty_gaps all ns)) in
      let (k, i, g) = empty_gaps_from x all ns rest in (k, ground arith, g)
]

empty_gaps_hold :
    (x n : ℕ) (all ns : List ℕ)
    → contains n ns ≡ true
    → covered x (gap_after all n) ≡ true
    → covered x (empty_gaps all ns) ≡ true
unfolding empty_gaps
empty_gaps_hold x n all [] c g = cc
empty_gaps_hold x n all (k ∷ ns) c g = elim (Bool-cases (k == n)) [
  | inl same ↦
      let e : k ≡ n = ground arith in
      ground (arith, e, any-append (in_gap x) (gap_after all k) (empty_gaps all ns))
  | inr other ↦ ground (
    arith,
    empty_gaps_hold x n all ns (ground arith) g,
    any-append (in_gap x) (gap_after all k) (empty_gaps all ns),
  )
]

-- Some number of the list is x or larger.
abbrev pub reached : ℕ → List ℕ → Bool
reached x = any (leb x)

reached_by : (x m : ℕ) (ms : List ℕ) → contains m ms ≡ true → x ≤ m → reached x ms ≡ true
reached_by x m [] c l = cc
reached_by x m (k ∷ ms) c l = ground (arith, reached_by x m ms)

reaching : (x : ℕ) (ms : List ℕ) → reached x ms ≡ true → (m : ℕ) × (contains m ms ≡ true) × (x ≤ m)
reaching x [] h = cc
reaching x (k ∷ ms) h = elim (Bool-cases (leb x k)) [
  | inl le ↦ (k, ground arith, ground arith)
  | inr gt ↦ let (m, c, l) = reaching x ms (ground arith) in (m, ground arith, l)
]

pub equal_if : (a b : Bool) → (a ≡ true → b ≡ true) → (b ≡ true → a ≡ true) → a ≡ b
equal_if true b f g = sym (f refl)
equal_if false true f g = g refl
equal_if false false f g = refl

contains_ne : (x y : ℕ) (ms : List ℕ) → contains y ms ≡ true → contains x ms ≡ false → y ≢ x
contains_ne x y ms c a e = false≢true (sym a ∙ ap (λ k. contains k ms) (sym e) ∙ c)

-- For the numbers of a table and the smallest of them, a height below the smallest or in a gap is
-- a height without a header, below some number, and the other way round.
module _ (all : List ℕ) (f : ℕ) (occurs : contains f all ≡ true)
    (least : (y : ℕ) → contains y all ≡ true → f ≤ y) where
  pub absent_sound :
      (x : ℕ)
      → (ltb x f || covered x (empty_gaps all (distinct all))) ≡ true
      → (reached x all && not (contains x all)) ≡ true
  absent_sound x h = elim (Bool-cases (ltb x f)) [
    | inl lt ↦ ground (arith, reached_by x f all occurs, least x)
    | inr ge ↦
        let (n, _, g) = empty_gaps_from x all (distinct all) (ground arith) in
        let (_, absent, (m, c, l)) = gap_after_facts x n all g in
        ground (arith, absent, reached_by x m all c (omega (arith, l)))
  ]

  absent_after :
      (x : ℕ) (p : Option ℕ)
      → IsPrevious x all p
      → contains x all ≡ false
      → reached x all ≡ true
      → f < x
      → covered x (empty_gaps all (distinct all)) ≡ true
  absent_after x none prev absent high lt = absurd (omega (arith, prev f occurs))
  absent_after x (some n) prev absent high lt =
      let (m, c, l) = reaching x all high in
      empty_gaps_hold x n all (distinct all) (contains-distinct n all ∙ prev.1)
        (by_next m c l (min_above n all) refl (min_above-IsNext n all))
    where
      by_next :
          (m : ℕ)
          → contains m all ≡ true
          → x ≤ m
          → (r : Option ℕ) → min_above n all ≡ r
          → IsNext n all r
          → covered x (gap_after all n) ≡ true
      by_next m c l none e next = absurd (omega (arith, next m c, prev.0))
      by_next m c l (some k) e next =
          let no_next : contains (n + 1) all ≡ false = elim (Bool-cases (contains (n + 1) all)) [
            | inl c' ↦
                absurd
                  (omega (arith, prev.0, contains_ne x (n + 1) all c' absent, prev.2 (n + 1) c'))
            | inr c' ↦ c'
          ] in
          let other = contains_ne x k all next.1 absent in
          let below : x < k = elim (Bool-cases (ltb x k)) [
            | inl lt' ↦ ground arith
            | inr ge' ↦ absurd (omega (arith, next.0, other, prev.2 k next.1 (ground arith)))
          ] in
          gap_after_reaches x n k all no_next e prev.0 below

  pub absent_complete :
      (x : ℕ)
      → (reached x all && not (contains x all)) ≡ true
      → (ltb x f || covered x (empty_gaps all (distinct all))) ≡ true
  absent_complete x h = elim (Bool-cases (ltb x f)) [
    | inl lt ↦ rw lt
    | inr ge ↦
        let absent : contains x all ≡ false = ground arith in
        let above : f < x = ground (arith, occurs, absent) in
        let (p, prev) = max_below x all in
        rw (ge, absent_after x p prev absent (ground arith) above)
  ]
