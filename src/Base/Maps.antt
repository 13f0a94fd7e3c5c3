-- ===== src/Base/Maps.antt =====
-- Maps of the Rust standard library (`HashMap`), as the list of their entries. `eq` is the equality of
-- the keys.
use mathlib.Core.Path.{◌≡◌, refl, sym, ap, ◌∙◌}
use mathlib.Core.Logic.{◌≢◌, inl, inr}
use mathlib.Core.Bool.{Bool, true, false}
use mathlib.Core.Option.{Option, none, some}
use mathlib.Core.List.{List, [], ◌∷◌, ◌++◌}
use ethmexico.Base.Lists.{if◌then◌else◌, Bool-cases}

module _ {K A : Type 0} (eq : K → K → Bool) where
  -- `HashMap::get`.
  unfoldable pub lookup : K → List (K × A) → Option A
  lookup k [] = none
  lookup k ((j, a) ∷ m) = let rest = lookup k m in if eq j k then some a else rest

  -- `HashMap::insert`: the entry of a key that is there is replaced.
  unfoldable pub insert : K → A → List (K × A) → List (K × A)
  insert k a [] = (k, a) ∷ []
  insert k a ((j, b) ∷ m) = let rest = insert k a m in if eq j k then (k, a) ∷ m else (j, b) ∷ rest

  -- `entry(k).or_insert_with`: the entry of a key that is there is kept.
  unfoldable pub or_insert : K → A → List (K × A) → List (K × A)
  unfolding lookup
  or_insert k a m = elim (lookup k m) [ none ↦ m ++ ((k, a) ∷ []) | some b ↦ m ]

  -- No key has two entries.
  unfoldable pub IsMap : List (K × A) → Type 0
  unfolding lookup
  IsMap [] = Unit
  IsMap ((k, a) ∷ m) = (lookup k m ≡ none) × IsMap m

-- The value of the first that has one.
abbrev pub or_else : {A : Type 0} → Option A → Option A → Option A
or_else (some a) o = some a
or_else none o = o

pub eq-ne :
    {K : Type 0} (eq : K → K → Bool)
    → ((j k : K) → eq j k ≡ true → j ≡ k)
    → (j k : K) → j ≢ k
    → eq j k ≡ false
eq-ne eq sound j k ne = elim (Bool-cases (eq j k)) [ inl y ↦ absurd (ne (sound j k y)) | inr n ↦ n ]

module _ {K A : Type 0} (eq : K → K → Bool) (same : (k : K) → eq k k ≡ true)
    (sound : (j k : K) → eq j k ≡ true → j ≡ k) where
  pub lookup-insert_same :
      (k : K) (a : A) (m : List (K × A)) → lookup eq k (insert eq k a m) ≡ some a
  unfolding lookup insert
  lookup-insert_same k a [] = rw (same k) refl
  lookup-insert_same k a ((j, b) ∷ m) = elim (Bool-cases (eq j k)) [
    | inl y ↦ rw (y, same k) refl
    | inr n ↦ rw (n, n) (lookup-insert_same k a m)
  ]

  pub lookup-insert_other :
      (k i : K) (a : A) (m : List (K × A)) → k ≢ i → lookup eq i (insert eq k a m) ≡ lookup eq i m
  unfolding lookup insert
  lookup-insert_other k i a [] ne = rw (eq-ne eq sound k i ne) refl
  lookup-insert_other k i a ((j, b) ∷ m) ne = elim (Bool-cases (eq j k)) [
    | inl y ↦
        let at : eq j i ≡ false = ap (λ x. eq x i) (sound j k y) ∙ eq-ne eq sound k i ne in
        rw (y, eq-ne eq sound k i ne, at) refl
    | inr n ↦ rw (n, lookup-insert_other k i a m ne) refl
  ]

  lookup-append :
      (k : K) (m n : List (K × A)) → lookup eq k (m ++ n) ≡ or_else (lookup eq k m) (lookup eq k n)
  unfolding lookup
  lookup-append k [] n = refl
  lookup-append k ((j, b) ∷ m) n = elim (Bool-cases (eq j k)) [
    | inl y ↦ rw y refl
    | inr d ↦ rw d (lookup-append k m n)
  ]

  lookup_same : (k i : K) (m : List (K × A)) → eq k i ≡ true → lookup eq i m ≡ lookup eq k m
  lookup_same k i m h = ap (λ x. lookup eq x m) (sym (sound k i h))

  or_else-none : (o : Option A) → or_else o none ≡ o
  or_else-none none = refl
  or_else-none (some x) = refl

  -- The value that a key has after `or_insert`: the old one first.
  pub lookup-or_insert :
      (k i : K) (a : A) (m : List (K × A))
      → lookup eq i (or_insert eq k a m) ≡ or_else (lookup eq i m) (if eq k i then some a else none)
  unfolding or_insert lookup
  lookup-or_insert k i a m = by_value (lookup eq k m) refl
    where
      kept :
          (b : A)
          → lookup eq k m ≡ some b
          → lookup eq i m ≡ or_else (lookup eq i m) (if eq k i then some a else none)
      kept b h = elim (Bool-cases (eq k i)) [
        | inl y ↦ (let at : lookup eq i m ≡ some b = lookup_same k i m y ∙ h in rw at refl)
        | inr n ↦ rw (n, or_else-none) refl
      ]

      by_value :
          (o : Option A)
          → lookup eq k m ≡ o
          → lookup eq i (or_insert eq k a m)
            ≡ or_else (lookup eq i m) (if eq k i then some a else none)
      by_value none h = rw (or_insert, h) (lookup-append i m ((k, a) ∷ []))
      by_value (some b) h = rw (or_insert, h) (kept b h)
