-- ===== src/Multisig/Latest.antt =====
-- The search for the latest index in rust/abacus-base/src/types/multisig.rs: the first of its two
-- strategies.
use ethmexico.Base.{
  ℕ, suc, ◌+◌, ◌<◌, ◌≤◌, ◌≡◌, refl, sym, ap, subst, ◌∙◌, ◌==◌, ne→==, leb, leb→le, leb→gt, Bool,
  true, false, if◌then◌else◌, Bool-cases, inl, inr, ◌⊎◌, Option, none, some, List, [], ◌∷◌, arith,
}
use ethmexico.Multisig.{insert_desc, sort_desc, quorum_loop}

-- How often a number occurs.
unfoldable pub occurrences : ℕ → List ℕ → ℕ
occurrences y [] = 0
occurrences y (x ∷ xs) = let rest = occurrences y xs in if x == y then suc rest else rest

-- Descending, from a bound on.
unfoldable IsDescending : ℕ → List ℕ → Type 0
IsDescending b [] = Unit
IsDescending b (x ∷ xs) = (x ≤ b) × IsDescending x xs

insert_desc-IsDescending :
    (b a : ℕ) (l : List ℕ) → a ≤ b → IsDescending b l → IsDescending b (insert_desc a l)
unfolding IsDescending insert_desc
insert_desc-IsDescending b a [] le d = (le, tt)
insert_desc-IsDescending b a (x ∷ xs) le (first, d) = elim (Bool-cases (leb x a)) [
  | inl y ↦ rw y (le, (leb→le x a y, d))
  | inr n ↦
      let lt : a < x = leb→gt x a n in
      rw n (first, insert_desc-IsDescending x a xs (omega (arith, lt)) d)
]

IsDescending-le : (b c : ℕ) (l : List ℕ) → b ≤ c → IsDescending b l → IsDescending c l
unfolding IsDescending
IsDescending-le b c [] le d = tt
IsDescending-le b c (x ∷ xs) le (first, d) = (omega (arith, first, le), d)

sort_desc-IsDescending : (l : List ℕ) → (b : ℕ) × IsDescending b (sort_desc l)
unfolding sort_desc IsDescending
sort_desc-IsDescending [] = (0, tt)
sort_desc-IsDescending (a ∷ l) =
    let (b, d) = sort_desc-IsDescending l in
    (
      a + b,
      insert_desc-IsDescending (a + b) a (sort_desc l) (omega arith)
          (IsDescending-le b (a + b) (sort_desc l) (omega arith) d),
    )

occurrences-insert_desc :
    (y a : ℕ) (l : List ℕ) → occurrences y (insert_desc a l) ≡ occurrences y (a ∷ l)
unfolding occurrences insert_desc
occurrences-insert_desc y a [] = refl
occurrences-insert_desc y a (x ∷ xs) = elim (Bool-cases (leb x a)) [
  | inl h ↦ rw h refl
  | inr n ↦ rw n (
      swap (x == y) (a == y) (occurrences y xs) (occurrences y (insert_desc a xs))
        (occurrences-insert_desc y a xs))
]
  where
    swap :
        (p q : Bool) (m n : ℕ)
        → n ≡ (if q then suc m else m)
        → (if p then suc n else n)
          ≡ (if q then suc (if p then suc m else m) else (if p then suc m else m))
    swap true true m n h = ap suc h
    swap true false m n h = ap suc h
    swap false true m n h = h
    swap false false m n h = h

occurrences-sort_desc : (y : ℕ) (l : List ℕ) → occurrences y (sort_desc l) ≡ occurrences y l
unfolding occurrences sort_desc
occurrences-sort_desc y [] = refl
occurrences-sort_desc y (a ∷ l) =
    occurrences-insert_desc y a (sort_desc l)
    ∙ ap (λ n. if a == y then suc n else n) (occurrences-sort_desc y l)

occurrences-above : (b y : ℕ) (l : List ℕ) → IsDescending b l → b < y → occurrences y l ≡ 0
unfolding occurrences IsDescending
occurrences-above b y [] d lt = refl
occurrences-above b y (x ∷ xs) (first, d) lt =
    rw (ne→== x y (omega (arith, first, lt)))
      (occurrences-above x y xs d (omega (arith, first, lt)))

-- The occurrences with those that were counted already.
abbrev tally : ℕ → ℕ → List ℕ → ℕ → ℕ
tally last index_count l y = (if last == y then index_count else 0) + occurrences y l

-- The result is the highest index that occurs often enough, if there is one.
abbrev pub Highest : ℕ → (ℕ → ℕ) → Option ℕ → Type 0
Highest threshold occurs none = (y : ℕ) → occurs y < threshold
Highest threshold occurs (some x) =
    (threshold ≤ occurs x) × ((y : ℕ) → x < y → occurs y < threshold)

Highest-later :
    (threshold : ℕ) (f g : ℕ → ℕ) (o : Option ℕ)
    → ((y : ℕ) → (f y ≡ g y) ⊎ ((f y < threshold) × (g y ≡ 0)))
    → 1 ≤ threshold
    → Highest threshold g o
    → Highest threshold f o
Highest-later t f g none same pos h =
    λ y. elim (same y) [ inl e ↦ omega (arith, e, h y) | inr (lt, z) ↦ lt ]
Highest-later t f g (some x) same pos (enough, above) = (
  elim (same x) [
    | inl e ↦ omega (arith, e, enough)
    | inr (lt, z) ↦ absurd (omega (arith, lt, z, enough, pos))
  ],
  λ y gt. elim (same y) [ inl e ↦ omega (arith, e, above y gt) | inr (lt, z) ↦ lt ],
)

abbrev next_count : ℕ → ℕ → ℕ → ℕ
next_count x last index_count = if x == last then index_count + 1 else 1

step-tally :
    (threshold last index_count x : ℕ) (xs : List ℕ) (y : ℕ)
    → index_count < threshold
    → IsDescending last (x ∷ xs)
    → (tally last index_count (x ∷ xs) y ≡ tally x (next_count x last index_count) xs y)
      ⊎ ((tally last index_count (x ∷ xs) y < threshold)
          × (tally x (next_count x last index_count) xs y ≡ 0))
unfolding occurrences IsDescending
step-tally t last n x xs y lt (first, d) = elim (Bool-cases (leb y x)) [
  | inl le ↦ under (occurrences y xs) (leb→le y x le)
  | inr gt ↦ rw (occurrences-above x y xs d (leb→gt y x gt)) (over (leb→gt y x gt))
]
  where
    under :
        (k : ℕ)
        → y ≤ x
        → ((if last == y then n else 0) + (if x == y then suc k else k)
            ≡ (if x == y then next_count x last n else 0) + k)
          ⊎ (((if last == y then n else 0) + (if x == y then suc k else k) < t)
              × ((if x == y then next_count x last n else 0) + k ≡ 0))
    under k le = ground arith

    over :
        x < y
        → ((if last == y then n else 0) + (if x == y then suc 0 else 0)
            ≡ (if x == y then next_count x last n else 0) + 0)
          ⊎ (((if last == y then n else 0) + (if x == y then suc 0 else 0) < t)
              × ((if x == y then next_count x last n else 0) + 0 ≡ 0))
    over gt = ground arith

quorum_loop-Highest :
    (threshold last index_count : ℕ) (l : List ℕ)
    → index_count < threshold
    → IsDescending last l
    → Highest threshold (tally last index_count l) (quorum_loop threshold last index_count l)
unfolding quorum_loop occurrences IsDescending
quorum_loop-Highest t last n [] lt d = λ y. ground arith
quorum_loop-Highest t last n (x ∷ xs) lt (first, d) =
    elim (Bool-cases (leb t (next_count x last n))) [
      | inl y ↦ rw y (here (leb→le t (next_count x last n) y), λ z gt. beyond z gt)
      | inr m ↦ rw m (
          Highest-later t (tally last n (x ∷ xs)) (tally x (next_count x last n) xs)
            (quorum_loop t x (next_count x last n) xs)
            (λ y. step-tally t last n x xs y lt (first, d)) (omega (arith, lt))
            (quorum_loop-Highest t x (next_count x last n) xs (leb→gt t (next_count x last n) m) d))
    ]
  where
    here :
        t ≤ next_count x last n
        → t
          ≤ (if last == x then n else 0)
            + (if x == x then suc (occurrences x xs) else occurrences x xs)
    here le = ground arith

    beyond :
        (z : ℕ)
        → x < z
        → (if last == z then n else 0)
            + (if x == z then suc (occurrences z xs) else occurrences z xs)
          < t
    beyond z gt =
        let none_left : occurrences z xs ≡ 0 = occurrences-above x z xs d gt in ground arith

next_count-zero : (x last : ℕ) → next_count x last 0 ≡ 1
next_count-zero x last = elim (Bool-cases (x == last)) [ inl y ↦ rw y refl | inr n ↦ rw n refl ]

-- It does not matter which index the count starts at, since it starts at 0.
quorum_loop-start :
    (threshold last last' x : ℕ) (xs : List ℕ)
    → quorum_loop threshold last 0 (x ∷ xs) ≡ quorum_loop threshold last' 0 (x ∷ xs)
unfolding quorum_loop
quorum_loop-start t last last' x xs = rw (next_count-zero x last, next_count-zero x last') refl

tally-zero : (last : ℕ) (l : List ℕ) (y : ℕ) → occurrences y l ≡ tally last 0 l y
tally-zero last l y = elim (Bool-cases (last == y)) [
  | inl h ↦ rw h (omega arith)
  | inr h ↦ rw h (omega arith)
]

from_start :
    (threshold b : ℕ) (l : List ℕ)
    → 1 ≤ threshold
    → IsDescending b l
    → Highest threshold (λ y. occurrences y l) (quorum_loop threshold 0 0 l)
unfolding quorum_loop occurrences IsDescending
from_start t b [] pos d = λ y. pos
from_start t b (x ∷ xs) pos (first, d) =
    subst (λ o. Highest t (λ y. occurrences y (x ∷ xs)) o) (quorum_loop-start t x 0 x xs)
      (Highest-later t _ (tally x 0 (x ∷ xs)) (quorum_loop t x 0 (x ∷ xs))
        (λ y. inl (tally-zero x (x ∷ xs) y)) pos
        (quorum_loop-Highest t x 0 (x ∷ xs) pos (omega arith, d)))

-- With a threshold from 1 on, the first strategy finds the highest index that so many validators
-- have answered as the threshold asks, or nothing where no index has so many.
pub quorum_loop-sort_desc :
    (threshold : ℕ) (indices : List ℕ)
    → 1 ≤ threshold
    → Highest threshold (λ y. occurrences y indices) (quorum_loop threshold 0 0 (sort_desc indices))
quorum_loop-sort_desc t indices pos =
    let (b, d) = sort_desc-IsDescending indices in
    Highest-later t _ (λ y. occurrences y (sort_desc indices))
      (quorum_loop t 0 0 (sort_desc indices)) (λ y. inl (sym (occurrences-sort_desc y indices))) pos
      (from_start t b (sort_desc indices) pos d)
