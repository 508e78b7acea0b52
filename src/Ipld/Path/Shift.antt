-- ===== src/Ipld/Path/Shift.antt =====
-- shiftFromPath splits the text of a path.
use Prim.Native.Nat.{min}
use mathlib.Core.List.{append_assoc, append-nil}
use ipfs_blockchain_watcher.Prelude.{
  ℕ, ◌-◌, ◌≡◌, ◌<◌, ◌≤◌, refl, ◌∙◌, sym, ap, ◌==◌, Bool, true, false, ◌&&◌, List, [], ◌∷◌, ◌++◌,
  not, ltb, is_empty, if◌then◌else◌, length, flat_map, All, arith, length-append, All-append,
  Bool-cases, inl, inr,
}
use ipfs_blockchain_watcher.Ipld.Path.{
  rune_len, text_len, shift_runes, shift_elements, shift_from_path,
}

-- The text of a path without its separators.
abbrev pub text_of : List (List ℕ) → List ℕ
text_of p = flat_map (λ pe. pe) p

abbrev pub IsAscii : List ℕ → Type 0
IsAscii s = All (λ c. c < 128) s

pub text_len-ascii : (s : List ℕ) → IsAscii s → text_len s ≡ length s
unfolding text_len rune_len
text_len-ascii [] a = refl
text_len-ascii (c ∷ s) a = ground (arith, text_len-ascii s a.1)

-- The first n runes, and the others.
abbrev pub take : ℕ → List ℕ → List ℕ
take n [] = []
take ℕ.zero (c ∷ s) = []
take (ℕ.suc n) (c ∷ s) = c ∷ take n s

abbrev pub drop : ℕ → List ℕ → List ℕ
drop n [] = []
drop ℕ.zero (c ∷ s) = c ∷ s
drop (ℕ.suc n) (c ∷ s) = drop n s

pub drop_zero : (s : List ℕ) → drop 0 s ≡ s
drop_zero [] = refl
drop_zero (c ∷ s) = refl

take_zero : (s : List ℕ) → take 0 s ≡ []
take_zero [] = refl
take_zero (c ∷ s) = refl

take-append : (n : ℕ) (a b : List ℕ) → take n (a ++ b) ≡ take n a ++ take (n - length a) b
take-append n [] b = ap (λ k. take k b) (omega arith)
take-append ℕ.zero (c ∷ a) b =
    let left : 0 - length (c ∷ a) ≡ 0 = omega arith in rw (left, take_zero b) refl
take-append (ℕ.suc n) (c ∷ a) b =
    let left : ℕ.suc n - length (c ∷ a) ≡ n - length a = omega arith in
    rw left (ap (◌∷◌ c) (take-append n a b))

drop-append : (n : ℕ) (a b : List ℕ) → drop n (a ++ b) ≡ drop n a ++ drop (n - length a) b
drop-append n [] b = ap (λ k. drop k b) (omega arith)
drop-append ℕ.zero (c ∷ a) b =
    let left : 0 - length (c ∷ a) ≡ 0 = omega arith in rw (left, drop_zero b) refl
drop-append (ℕ.suc n) (c ∷ a) b =
    let left : ℕ.suc n - length (c ∷ a) ≡ n - length a = omega arith in rw left (drop-append n a b)

pub length-take : (n : ℕ) (a : List ℕ) → length (take n a) ≡ min n (length a)
length-take n [] = omega arith
length-take ℕ.zero (c ∷ a) = omega arith
length-take (ℕ.suc n) (c ∷ a) = omega (arith, length-take n a)

pub take-++-drop : (n : ℕ) (a : List ℕ) → take n a ++ drop n a ≡ a
take-++-drop n [] = refl
take-++-drop ℕ.zero (c ∷ a) = refl
take-++-drop (ℕ.suc n) (c ∷ a) = ap (◌∷◌ c) (take-++-drop n a)

drop_of_short : (n : ℕ) (a : List ℕ) → length a ≤ n → drop n a ≡ []
drop_of_short n [] h = refl
drop_of_short ℕ.zero (c ∷ a) h = elim h [ ]
drop_of_short (ℕ.suc n) (c ∷ a) h = drop_of_short n a (omega arith)

pub take-IsAscii : (n : ℕ) (a : List ℕ) → IsAscii a → IsAscii (take n a)
take-IsAscii n [] h = tt
take-IsAscii ℕ.zero (c ∷ a) h = tt
take-IsAscii (ℕ.suc n) (c ∷ a) h = (h.0, take-IsAscii n a h.1)

pub take_of_length : (a b : List ℕ) → take (length a) (a ++ b) ≡ a
take_of_length [] b = take_zero b
take_of_length (c ∷ a) b = ap (◌∷◌ c) (take_of_length a b)

pub drop_of_length : (a b : List ℕ) → drop (length a) (a ++ b) ≡ b
drop_of_length [] b = drop_zero b
drop_of_length (c ∷ a) b = drop_of_length a b

-- Of an element, as many runes are taken as `out` has room for.
shift_runes-take :
    (i : ℕ) (out re pe : List ℕ)
    → IsAscii out
    → IsAscii pe
    → shift_runes i out re pe ≡ (out ++ take (i - length out) pe, re ++ drop (i - length out) pe)
unfolding shift_runes
shift_runes-take i out re [] a b = rw (append-nil out, append-nil re) refl
shift_runes-take i out re (c ∷ pe) a b =
    let len = text_len-ascii out a in
    elim (Bool-cases (ltb (text_len out) i)) [
      | inl room ↦
          let next =
            shift_runes-take i (out ++ c ∷ []) re pe
              (All-append (λ c. c < 128) out (c ∷ []) a (b.0, tt)) b.1 in
          let longer : i - length (out ++ c ∷ []) ≡ i - length out - 1 =
            omega (arith, length-append out (c ∷ [])) in
          let more : (i - length out) ≡ ℕ.suc (i - length out - 1) = ground (arith, len) in
          rw (shift_runes, room, more)
            (next ∙ rw (longer, append_assoc out (c ∷ []) (take (i - length out - 1) pe)) refl)
      | inr full ↦
          let none_left : i - length out ≡ 0 = ground (arith, len) in
          let next = shift_runes-take i out (re ++ c ∷ []) pe a b.1 in
          rw (shift_runes, full)
            (next
              ∙ rw (none_left, append_assoc re (c ∷ []) (drop 0 pe), drop_zero pe, take_zero pe)
                  refl)
    ]

text_of-append : (a b : List (List ℕ)) → text_of (a ++ b) ≡ text_of a ++ text_of b
text_of-append [] b = refl
text_of-append (s ∷ a) b =
    ap (λ r. s ++ r) (text_of-append a b) ∙ sym (append_assoc s (text_of a) (text_of b))

-- What is left of an element, when nothing is where `out` is not full.
abbrev kept : Bool → List ℕ → List (List ℕ) → List (List ℕ)
kept full re rest = if full && not (is_empty re) then rest ++ re ∷ [] else rest

kept-text :
    (full : Bool) (re : List ℕ) (rest : List (List ℕ))
    → (full ≡ false → re ≡ [])
    → (text_of (kept full re rest) ≡ text_of rest ++ re)
      × (All (λ s. is_empty s ≡ false) rest → All (λ s. is_empty s ≡ false) (kept full re rest))
kept-text true [] rest h = (sym (append-nil (text_of rest)), λ a. a)
kept-text true (c ∷ re) rest h = (
  text_of-append rest ((c ∷ re) ∷ []) ∙ ap (λ r. text_of rest ++ (c ∷ r)) (append-nil re),
  λ a. All-append (λ s. is_empty s ≡ false) rest ((c ∷ re) ∷ []) a (refl, tt),
)
kept-text false [] rest h = (sym (append-nil (text_of rest)), λ a. a)
kept-text false (c ∷ re) rest h = absurd (cons-ne-nil c re (h refl))
  where
    cons-ne-nil : (c : ℕ) (re : List ℕ) → (c ∷ re) ≡ [] → ⊥
    cons-ne-nil c re e = cc

shift_elements-take :
    (i : ℕ) (out : List ℕ) (rest p : List (List ℕ))
    → length out ≤ i
    → IsAscii out
    → All IsAscii p
    → ((shift_elements i out rest p).0 ≡ out ++ take (i - length out) (text_of p))
      × (text_of (shift_elements i out rest p).1
          ≡ text_of rest ++ drop (i - length out) (text_of p))
      × (All (λ s. is_empty s ≡ false) rest
          → All (λ s. is_empty s ≡ false) (shift_elements i out rest p).1)
unfolding shift_elements
shift_elements-take i out rest [] l a b =
    (sym (append-nil out), sym (append-nil (text_of rest)), λ h. h)
shift_elements-take i out rest (pe ∷ p) l a b =
    let k = i - length out in
    let out' = out ++ take k pe in
    let re = drop k pe in
    let ascii = All-append (λ c. c < 128) out (take k pe) a (take-IsAscii k pe b.0) in
    let full = text_len out' == i in
    let none_left = λ (h : full ≡ false). drop_of_short k pe (
      ground (arith, length-append out (take k pe), length-take k pe, text_len-ascii out' ascii)) in
    let step = kept-text full re rest none_left in
    let room : i - length out' ≡ k - length pe =
      omega (arith, length-append out (take k pe), length-take k pe) in
    let fits : length out' ≤ i = omega (arith, length-append out (take k pe), length-take k pe) in
    let next = shift_elements-take i out' (kept full re rest) p fits ascii b.1 in
    rw (shift_elements, shift_runes-take i out [] pe a b.0)
      (
        next.0
            ∙ rw
                (
                  room,
                  append_assoc out (take k pe) (take (k - length pe) (text_of p)),
                  take-append k pe (text_of p),
                )
                refl,
        next.1
            ∙ rw
                (
                  room,
                  step.0,
                  append_assoc (text_of rest) re (drop (k - length pe) (text_of p)),
                  drop-append k pe (text_of p),
                )
                refl,
        λ h. next.2 (step.1 h),
      )

-- On a path of ASCII text, shiftFromPath takes the first i runes of the path's text, or all of it if
-- it is shorter, leaves the others in elements with this text, and leaves no empty element.
pub shift_from_path-splits :
    (p : List (List ℕ)) (i : ℕ)
    → All IsAscii p
    → ((shift_from_path p i).0 ≡ take i (text_of p))
      × (text_of (shift_from_path p i).1 ≡ drop i (text_of p))
      × All (λ s. is_empty s ≡ false) (shift_from_path p i).1
unfolding shift_from_path
shift_from_path-splits p i a =
    let all = shift_elements-take i [] [] p (omega arith) tt a in
    let whole : i - length {A = ℕ} [] ≡ i = omega arith in
    (
      (all.0 ∙ ap (λ k. take k (text_of p)) whole),
      (all.1 ∙ ap (λ k. drop k (text_of p)) whole),
      all.2 tt,
    )
