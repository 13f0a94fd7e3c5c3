-- ===== src/ContractSync/Asked.antt =====
-- What the loop of rust/abacus-base/src/contract_sync/outbox.rs does with the messages of the blocks
-- that it asks for.
use ethmexico.Base.{
  ℕ, suc, ◌+◌, ◌%◌, ◌^◌, ◌<◌, ◌≤◌, ◌≡◌, refl, ap, subst, ltb, u32_max, Bool-cases, Option, none,
  some, List, [], ◌∷◌, All, AnyOf, inl, inr, ◌⊎◌, arith, length,
}
use ethmexico.Base.Bytes.{Bytes}
use ethmexico.Codec.Laws.{IsH256}
use ethmexico.Types.{RawCommittedMessage}
use ethmexico.Db.Backend.{Rocks, Outcome}
use ethmexico.Db.{store_messages, store_messages_loop}
use ethmexico.ContractSync.{
  ListValidity, empty, invalid_continuation, contains_gaps, valid, valid_continuation, above, Chain,
  fine, OutboxSync, store_latest_valid_message_range_start_block, State, after_start_block,
  after_store, with_validity, with_messages, with_fetched,
}
use ethmexico.ContractSync.Continuation.{Consecutive, IsIndexed, valid_continuation_iff}
use ethmexico.ContractSync.Filled.{Filled, store_messages_loop-Filled, store_start_block-Filled}
use ethmexico.ContractSync.Progress.{above-All, above-higher}

abbrev pub Has : ℕ → List RawCommittedMessage → Type 0
Has i ms = AnyOf (λ (m : RawCommittedMessage). m.leaf_index ≡ i) ms

-- A message is old, or not filtered out.
pub above-Has : (k i : ℕ) (ms : List RawCommittedMessage) → Has i ms → (i ≤ k) ⊎ Has i (above k ms)
unfolding above
above-Has k i [] h = elim h [ ]
above-Has k i (m ∷ ms) (inl e) = elim (Bool-cases (ltb k m.leaf_index)) [
  | inl y ↦ inr (rw y (inl e))
  | inr n ↦ inl (ground (arith, e, n))
]
above-Has k i (m ∷ ms) (inr h) = elim (above-Has k i ms h) [
  | inl le ↦ inl le
  | inr rest ↦ elim (Bool-cases (ltb k m.leaf_index)) [
    | inl y ↦ inr (rw y (inr rest))
    | inr n ↦ inr (rw n rest)
  ]
]

Consecutive-Has :
    (k i : ℕ) (ms : List RawCommittedMessage)
    → Consecutive (suc k) ms
    → Has i ms
    → i ≤ k + length ms
unfolding Consecutive
Consecutive-Has k i [] c h = elim h [ ]
Consecutive-Has k i (m ∷ ms) (e, c) (inl at) = omega (arith, e, at)
Consecutive-Has k i (m ∷ ms) (e, c) (inr h) = omega (arith, Consecutive-Has (suc k) i ms c h)

module _ (rocks : Rocks) (keccak : Bytes → Bytes) (entity : Bytes) (chunk_size : ℕ)
    (Logged : ℕ → ℕ → Type 0) (first : ℕ) where
  open rocks use {Store}

  -- With `Logged block i` that the message with index `i` is in the block: an indexer that finds every
  -- message in the finalized blocks that it is asked for, at a tip with which no sum overflows.
  pub record IsComplete (chain : Chain RawCommittedMessage) : Type 0 where
    pub found :
        (tip from to block i : ℕ) (ms : List RawCommittedMessage)
        → chain.finalized_block_number ≡ some tip
        → to ≤ tip
        → chain.fetch from to ≡ some ms
        → Logged block i
        → from ≤ block
        → block ≤ to
        → Has i ms
    pub room : (tip : ℕ) → chain.finalized_block_number ≡ some tip → tip + chunk_size < u32_max

  -- All messages in the blocks below `b` have an index up to `last`.
  abbrev pub Below : ℕ → ℕ → Type 0
  Below last b = (block i : ℕ) → Logged block i → block < b → i ≤ last

  -- The messages below both blocks that the indexer keeps are in the database.
  pub record Covered (last : ℕ) (x : OutboxSync × Store) : Type 0 where
    pub filled : Filled rocks keccak entity first last x.1
    pub below_from : Below last x.0.from
    pub below_start : Below last x.0.last_valid_range_start_block

  abbrev pub Kept : ℕ → OutboxSync × Store → Type 0
  Kept last x = (last' : ℕ) × (last ≤ last') × Covered last' x

  abbrev pub Ends : State rocks keccak entity chunk_size → OutboxSync × Store → Type 0
  Ends r x = r ≡ (x, fine)

  pub same-Kept :
      (last : ℕ) (x y : OutboxSync × Store) → Covered last x → Ends (x, fine) y → Kept last y
  same-Kept last x y v e =
      subst (λ z. Kept last z) (ap (λ (r : State rocks keccak entity chunk_size). r.0) e)
        (last, omega arith, v)

  -- What a turn asks for: the blocks from `full` to `to`, where `new` are the messages that it finds
  -- there and that are not stored yet.
  pub record Asked (last to full : ℕ) (new : List RawCommittedMessage) : Type 0 where
    pub fits : (to + 1) % 2 ^ 32 ≡ suc to
    pub below_full : Below last full
    pub up_to : (block i : ℕ) → Logged block i → block < suc to → (i ≤ last) ⊎ Has i new

  old-Below : (last to full : ℕ) → Asked last to full [] → Below last ((to + 1) % 2 ^ 32)
  old-Below last to full a block i here lt =
      elim (a.up_to block i here (omega (arith, a.fits, lt))) [ inl le ↦ le | inr h ↦ elim h [ ] ]

  new-Below :
      (last to full : ℕ) (ms : List RawCommittedMessage)
      → Asked last to full ms
      → Consecutive (suc last) ms
      → Below (last + length ms) ((to + 1) % 2 ^ 32)
  new-Below last to full ms a c block i here lt =
      elim (a.up_to block i here (omega (arith, a.fits, lt))) [
        | inl le ↦ omega arith
        | inr h ↦ Consecutive-Has last i ms c h
      ]

  after_start_block-Kept :
      (last to full : ℕ) (o : OutboxSync) (ms : List RawCommittedMessage) (s : Store)
      (y : OutboxSync × Store) (r : Outcome (Unit {0}) × Store)
      → store_latest_valid_message_range_start_block rocks keccak entity chunk_size full s ≡ r
      → Filled rocks keccak entity first (last + length ms) s
      → Asked last to full ms
      → Consecutive (suc last) ms
      → Ends (after_start_block rocks keccak entity chunk_size to full o r) y
      → Kept last y
  after_start_block-Kept last to full o ms s y (Outcome.ok _, t) e v a c h =
      subst (λ z. Kept last z) (ap (λ (x : State rocks keccak entity chunk_size). x.0) h)
        (
          last + length ms,
          omega arith,
          record {
            filled =
                store_start_block-Filled rocks keccak entity first (last + length ms) chunk_size
                  full s t v e;
            below_from = new-Below last to full ms a c;
            below_start = λ block i here lt. omega (arith, a.below_full block i here lt);
          },
        )
  after_start_block-Kept last to full o ms s y (Outcome.err x, t) e v a c h = cc
  after_start_block-Kept last to full o ms s y (Outcome.panic, t) e v a c h = cc

  after_store-Kept :
      (last to full : ℕ) (o : OutboxSync) (ms : List RawCommittedMessage) (s : Store)
      (y : OutboxSync × Store) (r : Outcome ℕ × Store)
      → ((bytes : Bytes) → IsH256 (keccak bytes))
      → All IsIndexed ms
      → Consecutive (suc last) ms
      → Asked last to full ms
      → Filled rocks keccak entity first last s
      → store_messages_loop rocks keccak entity 0 ms s ≡ r
      → Ends (after_store rocks keccak entity chunk_size to full o r) y
      → Kept last y
  after_store-Kept last to full o ms s y (Outcome.ok n, t) size all c a v e h =
      after_start_block-Kept last to full o ms t y _ refl
        (store_messages_loop-Filled rocks keccak entity first last 0 n ms s t size all c v e) a c h
  after_store-Kept last to full o ms s y (Outcome.err x, t) size all c a v e h = cc
  after_store-Kept last to full o ms s y (Outcome.panic, t) size all c a v e h = cc

  validity-Kept :
      (last to full : ℕ) (o : OutboxSync) (m : RawCommittedMessage) (ms : List RawCommittedMessage)
      (s : Store) (y : OutboxSync × Store) (k : ListValidity)
      → ((bytes : Bytes) → IsH256 (keccak bytes))
      → All IsIndexed (m ∷ ms)
      → last < m.leaf_index
      → Asked last to full (m ∷ ms)
      → Covered last (o, s)
      → valid_continuation (some last) (m ∷ ms) ≡ k
      → Ends (with_validity rocks keccak entity chunk_size to full o s (m ∷ ms) k) y
      → Kept last y
  unfolding store_messages
  validity-Kept last to full o m ms s y valid size all higher a v e h =
      after_store-Kept last to full o (m ∷ ms) s y _ size all
        ((valid_continuation_iff last m ms v.filled.fits all higher).0 e) a v.filled refl h
  validity-Kept last to full o m ms s y invalid_continuation size all higher a v e h =
      same-Kept last (record o { from = o.last_valid_range_start_block }, s) y
        (record { filled = v.filled; below_from = v.below_start; below_start = v.below_start }) h
  validity-Kept last to full o m ms s y contains_gaps size all higher a v e h =
      same-Kept last (o, s) y v h
  validity-Kept last to full o m ms s y empty size all higher a v e h = cc

  messages-Kept :
      (last to full : ℕ) (o : OutboxSync) (ms : List RawCommittedMessage) (s : Store)
      (y : OutboxSync × Store)
      → ((bytes : Bytes) → IsH256 (keccak bytes))
      → All IsIndexed ms
      → All (λ (m : RawCommittedMessage). last < m.leaf_index) ms
      → Asked last to full ms
      → Covered last (o, s)
      → Ends (with_messages rocks keccak entity chunk_size to full o s (some last) ms) y
      → Kept last y
  messages-Kept last to full o [] s y size all higher a v h =
      same-Kept last (record o { from = (to + 1) % 2 ^ 32 }, s) y
        (record {
          filled = v.filled;
          below_from = old-Below last to full a;
          below_start = v.below_start;
        })
        h
  messages-Kept last to full o (m ∷ ms) s y size all (low, _) a v h =
      validity-Kept last to full o m ms s y _ size all low a v refl h

  pub fetched-Kept :
      (last to full : ℕ) (o : OutboxSync) (s : Store) (y : OutboxSync × Store)
      (f : Option (List RawCommittedMessage))
      → ((bytes : Bytes) → IsH256 (keccak bytes))
      → ((ms : List RawCommittedMessage) → f ≡ some ms → All IsIndexed ms)
      → ((ms : List RawCommittedMessage) → f ≡ some ms → Asked last to full (above last ms))
      → Covered last (o, s)
      → Ends (with_fetched rocks keccak entity chunk_size to full o s f) y
      → Kept last y
  fetched-Kept last to full o s y none size all asked v h = cc
  fetched-Kept last to full o s y (some ms) size all asked v h =
      messages-Kept last to full o (above last ms) s y size
        (above-All IsIndexed last ms (all ms refl)) (above-higher last ms) (asked ms refl) v
        (rw v.filled.latest at h)
