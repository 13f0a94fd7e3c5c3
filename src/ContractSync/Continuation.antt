-- ===== src/ContractSync/Continuation.antt =====
-- Which lists of messages rust/abacus-base/src/contract_sync/last_message.rs accepts.
use ethmexico.Base.{
  ℕ, suc, ◌<◌, ◌≤◌, ◌≡◌, ◌↔◌, refl, subst, ◌==◌, ==→eq, ==-refl, u32_max, Bool, true, false,
  if◌then◌else◌, Bool-cases, Option, none, some, List, [], ◌∷◌, any, All, inl, inr, arith,
}
use ethmexico.Types.{RawCommittedMessage}
use ethmexico.ContractSync.{
  invalid_continuation, contains_gaps, valid, before, no_gaps, has_desired_message,
  valid_continuation,
}

-- Messages at the indices from `i` on, one after the other.
unfoldable pub Consecutive : ℕ → List RawCommittedMessage → Type 0
Consecutive i [] = Unit
Consecutive i (m ∷ ms) = (m.leaf_index ≡ i) × Consecutive (suc i) ms

-- An index that the outbox's tree has room for.
abbrev pub IsIndexed : RawCommittedMessage → Type 0
IsIndexed m = m.leaf_index < u32_max

before-suc : (i : ℕ) → i < u32_max → before (suc i) ≡ i
unfolding before
before-suc i h = omega arith

before-eq : (i j : ℕ) → i < u32_max → j < u32_max → i ≡ before j → j ≡ suc i
unfolding before
before-eq i j h k e = omega arith

no_gaps-Consecutive :
    (m : RawCommittedMessage) (ms : List RawCommittedMessage)
    → All IsIndexed (m ∷ ms)
    → no_gaps (m ∷ ms) ≡ true
    → Consecutive m.leaf_index (m ∷ ms)
unfolding no_gaps Consecutive
no_gaps-Consecutive m [] all h = (refl, tt)
no_gaps-Consecutive m (n ∷ ms) (a, (b, all)) h =
    elim (Bool-cases (m.leaf_index == before n.leaf_index)) [
      | inl y ↦
          let next : n.leaf_index ≡ suc m.leaf_index =
            before-eq m.leaf_index n.leaf_index a b (==→eq m.leaf_index (before n.leaf_index) y) in
          (
            refl,
            subst (λ i. Consecutive i (n ∷ ms)) next
                (no_gaps-Consecutive n ms (b, all) (rw y at h)),
          )
      | inr k ↦ cc (rw k at h)
    ]

Consecutive-no_gaps :
    (i : ℕ) (ms : List RawCommittedMessage)
    → All IsIndexed ms
    → Consecutive i ms
    → no_gaps ms ≡ true
unfolding no_gaps Consecutive
Consecutive-no_gaps i [] all c = refl
Consecutive-no_gaps i (m ∷ []) all c = refl
Consecutive-no_gaps i (m ∷ (n ∷ ms)) (a, (b, all)) (e, (f, c)) =
    let here : (m.leaf_index == before n.leaf_index) ≡ true =
      rw (f, ← e) (rw (before-suc m.leaf_index a) (==-refl m.leaf_index)) in
    rw here (Consecutive-no_gaps (suc i) (n ∷ ms) (b, all) (f, c))

-- The message after the last one can only be the first.
desired_low :
    (last i : ℕ) (ms : List RawCommittedMessage)
    → All IsIndexed ms
    → last < u32_max
    → Consecutive i ms
    → any (λ (m : RawCommittedMessage). last == before m.leaf_index) ms ≡ true
    → i ≤ suc last
unfolding Consecutive
desired_low last i [] all u c h = cc
desired_low last i (m ∷ ms) (a, all) u (e, c) h = elim (Bool-cases (last == before m.leaf_index)) [
  | inl y ↦
      let at = before-eq last m.leaf_index u a (==→eq last (before m.leaf_index) y) in
      omega (arith, at, e)
  | inr n ↦
      let later = desired_low last (suc i) ms all u c (rw (n, any) at h) in omega (arith, later)
]

valid_cases :
    (latest : Option ℕ) (m : RawCommittedMessage) (ms : List RawCommittedMessage)
    → valid_continuation latest (m ∷ ms) ≡ valid
    → (has_desired_message latest (m ∷ ms) ≡ true) × (no_gaps (m ∷ ms) ≡ true)
unfolding valid_continuation
valid_cases latest m ms h = split (has_desired_message latest (m ∷ ms)) (no_gaps (m ∷ ms)) h
  where
    split :
        (a b : Bool)
        → (if a then if b then valid else contains_gaps else invalid_continuation) ≡ valid
        → (a ≡ true) × (b ≡ true)
    split true true h' = (refl, refl)
    split true false h' = cc
    split false b h' = cc

valid_from :
    (latest : Option ℕ) (m : RawCommittedMessage) (ms : List RawCommittedMessage)
    → has_desired_message latest (m ∷ ms) ≡ true
    → no_gaps (m ∷ ms) ≡ true
    → valid_continuation latest (m ∷ ms) ≡ valid
unfolding valid_continuation
valid_from latest m ms a b = rw (a, b) refl

-- After a last index, messages with indices below `u32::MAX`, the first of them above the last
-- index, are accepted exactly if they are the next ones without a gap.
pub valid_continuation_iff :
    (last : ℕ) (m : RawCommittedMessage) (ms : List RawCommittedMessage)
    → last < u32_max
    → All IsIndexed (m ∷ ms)
    → last < m.leaf_index
    → (valid_continuation (some last) (m ∷ ms) ≡ valid) ↔ Consecutive (suc last) (m ∷ ms)
unfolding Consecutive
valid_continuation_iff last m ms u all above_last = (only_if, if_run)
  where
    only_if : valid_continuation (some last) (m ∷ ms) ≡ valid → Consecutive (suc last) (m ∷ ms)
    only_if h =
        let (desired, gapless) = valid_cases (some last) m ms h in
        let run = no_gaps-Consecutive m ms all gapless in
        let low = desired_low last m.leaf_index (m ∷ ms) all u run desired in
        let next : m.leaf_index ≡ suc last = omega (arith, low, above_last) in
        subst (λ i. Consecutive i (m ∷ ms)) next run

    if_run : Consecutive (suc last) (m ∷ ms) → valid_continuation (some last) (m ∷ ms) ≡ valid
    if_run c =
        let here : (last == before m.leaf_index) ≡ true =
          rw c.0 (rw (before-suc last u) (==-refl last)) in
        valid_from (some last) m ms (rw (here, any) refl)
          (Consecutive-no_gaps (suc last) (m ∷ ms) all c)

-- The first messages at all may start anywhere, but have no gap.
pub valid_continuation-none :
    (m : RawCommittedMessage) (ms : List RawCommittedMessage)
    → All IsIndexed (m ∷ ms)
    → valid_continuation none (m ∷ ms) ≡ valid
    → Consecutive m.leaf_index (m ∷ ms)
valid_continuation-none m ms all h =
    let (_, gapless) = valid_cases none m ms h in no_gaps-Consecutive m ms all gapless
