-- ===== src/ContractSync/Progress.antt =====
-- The loop of rust/abacus-base/src/contract_sync/outbox.rs, and the leaves of the database.
use ethmexico.Base.{
  ℕ, suc, ◌+◌, ◌-◌, ◌<◌, ◌≤◌, ◌≡◌, refl, ap, subst, ltb, leb, ltb→lt, Bool-cases, Option, none,
  some, List, [], ◌∷◌, All, inl, inr, arith, length,
}
use ethmexico.Base.Bytes.{Bytes}
use ethmexico.Codec.Laws.{IsH256}
use ethmexico.Types.{RawCommittedMessage}
use ethmexico.Db.Backend.{Rocks, Outcome}
use ethmexico.Db.{store_messages, store_messages_loop}
use ethmexico.ContractSync.{
  ListValidity, empty, invalid_continuation, contains_gaps, valid, valid_continuation, above, Chain,
  fine, OutboxSync, store_latest_valid_message_range_start_block, State, after_start_block,
  after_store, with_validity, with_messages, with_fetched, range_end, with_tip, outbox_turn,
}
use ethmexico.ContractSync.Continuation.{Consecutive, IsIndexed, valid_continuation_iff}
use ethmexico.ContractSync.Filled.{Filled, store_messages_loop-Filled, store_start_block-Filled}

pub above-All :
    (P : RawCommittedMessage → Type 0) (k : ℕ) (ms : List RawCommittedMessage)
    → All P ms
    → All P (above k ms)
unfolding above
above-All P k [] all = tt
above-All P k (m ∷ ms) (p, all) = elim (Bool-cases (ltb k m.leaf_index)) [
  | inl y ↦ rw y (p, above-All P k ms all)
  | inr n ↦ rw n (above-All P k ms all)
]

pub above-higher :
    (k : ℕ) (ms : List RawCommittedMessage)
    → All (λ (m : RawCommittedMessage). k < m.leaf_index) (above k ms)
unfolding above
above-higher k [] = tt
above-higher k (m ∷ ms) = elim (Bool-cases (ltb k m.leaf_index)) [
  | inl y ↦ rw y (ltb→lt k m.leaf_index y, above-higher k ms)
  | inr n ↦ rw n (above-higher k ms)
]

-- An indexer of an outbox, whose tree has no more leaves than it has room for.
unfoldable pub IsOutbox : Chain RawCommittedMessage → Type 0
IsOutbox chain =
    (from to : ℕ) (ms : List RawCommittedMessage) → chain.fetch from to ≡ some ms → All IsIndexed ms

module _ (rocks : Rocks) (keccak : Bytes → Bytes) (entity : Bytes) (chunk_size : ℕ) where
  open rocks use {Store}

  abbrev Ends : State rocks keccak entity chunk_size → OutboxSync → Store → Type 0
  Ends r o s = r ≡ ((o, s), fine)

  -- No leaf was lost, and there may be more.
  abbrev pub Kept : ℕ → ℕ → Store → Type 0
  Kept start last s = (last' : ℕ) × (last ≤ last') × Filled rocks keccak entity start last' s

  same-Kept :
      (start last : ℕ) (o o' : OutboxSync) (s s' : Store)
      → Filled rocks keccak entity start last s
      → Ends ((o, s), fine) o' s'
      → Kept start last s'
  same-Kept start last o o' s s' v e =
      subst (λ t. Kept start last t) (ap (λ (r : State rocks keccak entity chunk_size). r.0.1) e)
        (last, omega arith, v)

  after_start_block-Kept :
      (start last b to full : ℕ) (o o' : OutboxSync) (s s' : Store) (r : Outcome (Unit {0}) × Store)
      → store_latest_valid_message_range_start_block rocks keccak entity chunk_size full s ≡ r
      → Filled rocks keccak entity start b s
      → last ≤ b
      → Ends (after_start_block rocks keccak entity chunk_size to full o r) o' s'
      → Kept start last s'
  after_start_block-Kept start last b to full o o' s s' (Outcome.ok _, t) e v le h =
      subst (λ u. Kept start last u) (ap (λ (x : State rocks keccak entity chunk_size). x.0.1) h)
        (b, le, store_start_block-Filled rocks keccak entity start b chunk_size full s t v e)
  after_start_block-Kept start last b to full o o' s s' (Outcome.err x, t) e v le h = cc
  after_start_block-Kept start last b to full o o' s s' (Outcome.panic, t) e v le h = cc

  after_store-Kept :
      (start last to full : ℕ) (o o' : OutboxSync) (ms : List RawCommittedMessage) (s s' : Store)
      (r : Outcome ℕ × Store)
      → ((bytes : Bytes) → IsH256 (keccak bytes))
      → All IsIndexed ms
      → Consecutive (suc last) ms
      → Filled rocks keccak entity start last s
      → store_messages_loop rocks keccak entity 0 ms s ≡ r
      → Ends (after_store rocks keccak entity chunk_size to full o r) o' s'
      → Kept start last s'
  after_store-Kept start last to full o o' ms s s' (Outcome.ok n, t) size all c v e h =
      after_start_block-Kept start last (last + length ms) to full o o' t s' _ refl
        (store_messages_loop-Filled rocks keccak entity start last 0 n ms s t size all c v e)
        (omega arith) h
  after_store-Kept start last to full o o' ms s s' (Outcome.err x, t) size all c v e h = cc
  after_store-Kept start last to full o o' ms s s' (Outcome.panic, t) size all c v e h = cc

  validity-Kept :
      (start last to full : ℕ) (o o' : OutboxSync) (m : RawCommittedMessage)
      (ms : List RawCommittedMessage) (s s' : Store) (k : ListValidity)
      → ((bytes : Bytes) → IsH256 (keccak bytes))
      → All IsIndexed (m ∷ ms)
      → last < m.leaf_index
      → Filled rocks keccak entity start last s
      → valid_continuation (some last) (m ∷ ms) ≡ k
      → Ends (with_validity rocks keccak entity chunk_size to full o s (m ∷ ms) k) o' s'
      → Kept start last s'
  unfolding store_messages
  validity-Kept start last to full o o' m ms s s' valid size all higher v e h =
      after_store-Kept start last to full o o' (m ∷ ms) s s' _ size all
        ((valid_continuation_iff last m ms v.fits all higher).0 e) v refl h
  validity-Kept start last to full o o' m ms s s' invalid_continuation size all higher v e h =
      same-Kept start last _ o' s s' v h
  validity-Kept start last to full o o' m ms s s' contains_gaps size all higher v e h =
      same-Kept start last _ o' s s' v h
  validity-Kept start last to full o o' m ms s s' empty size all higher v e h = cc

  messages-Kept :
      (start last to full : ℕ) (o o' : OutboxSync) (ms : List RawCommittedMessage) (s s' : Store)
      → ((bytes : Bytes) → IsH256 (keccak bytes))
      → All IsIndexed ms
      → All (λ (m : RawCommittedMessage). last < m.leaf_index) ms
      → Filled rocks keccak entity start last s
      → Ends (with_messages rocks keccak entity chunk_size to full o s (some last) ms) o' s'
      → Kept start last s'
  messages-Kept start last to full o o' [] s s' size all higher v h =
      same-Kept start last _ o' s s' v h
  messages-Kept start last to full o o' (m ∷ ms) s s' size all (first, _) v h =
      validity-Kept start last to full o o' m ms s s' _ size all first v refl h

  fetched-Kept :
      (start last to full : ℕ) (o o' : OutboxSync) (s s' : Store)
      (f : Option (List RawCommittedMessage))
      → ((bytes : Bytes) → IsH256 (keccak bytes))
      → ((ms : List RawCommittedMessage) → f ≡ some ms → All IsIndexed ms)
      → Filled rocks keccak entity start last s
      → Ends (with_fetched rocks keccak entity chunk_size to full o s f) o' s'
      → Kept start last s'
  fetched-Kept start last to full o o' s s' none size all v h = cc
  fetched-Kept start last to full o o' s s' (some ms) size all v h =
      messages-Kept start last to full o o' (above last ms) s s' size
        (above-All IsIndexed last ms (all ms refl)) (above-higher last ms) v (rw v.latest at h)

  tip-Kept :
      (start last : ℕ) (chain : Chain RawCommittedMessage) (o o' : OutboxSync) (s s' : Store)
      (t : Option ℕ)
      → ((bytes : Bytes) → IsH256 (keccak bytes))
      → IsOutbox chain
      → Filled rocks keccak entity start last s
      → Ends (with_tip rocks keccak entity chunk_size chain o s t) o' s'
      → Kept start last s'
  unfolding IsOutbox
  tip-Kept start last chain o o' s s' none size outbox v h = same-Kept start last o o' s s' v h
  tip-Kept start last chain o o' s s' (some tip) size outbox v h =
      elim (Bool-cases (leb tip o.from)) [
        | inl y ↦ same-Kept start last o o' s s' v (rw y at h)
        | inr n ↦
            let to = range_end rocks keccak entity chunk_size tip o.from in
            fetched-Kept start last to (to - chunk_size) o o' s s'
              (chain.fetch (to - chunk_size) to) size (outbox (to - chunk_size) to) v (rw n at h)
      ]

  -- What a run of turns that end well can reach.
  pub data Reaches (x : OutboxSync × Store) : OutboxSync × Store → Type 0 where
    start : Reaches x x
    later :
        {y z : OutboxSync × Store} (chain : Chain RawCommittedMessage)
        → Reaches x y
        → IsOutbox chain
        → outbox_turn rocks keccak entity chunk_size chain y ≡ (z, fine)
        → Reaches x z

  Kept-trans :
      (first last : ℕ) (s s' : Store)
      → Kept first last s
      → ((b : ℕ) → Filled rocks keccak entity first b s → Kept first b s')
      → Kept first last s'
  Kept-trans first last s s' (b, le, v) next =
      let (c, more, w) = next b v in (c, omega (arith, le, more), w)

  -- With a hash of 32 bytes and indexers that find no index from `u32::MAX` on: from a database
  -- whose leaves have no gap from the first to the latest, whatever the turns do that end well, the
  -- leaves have no gap, and the latest index does not go back.
  pub Reaches-Filled :
      (first last : ℕ) (x y : OutboxSync × Store)
      → ((bytes : Bytes) → IsH256 (keccak bytes))
      → Filled rocks keccak entity first last x.1
      → Reaches x y
      → (last' : ℕ) × (last ≤ last') × Filled rocks keccak entity first last' y.1
  unfolding outbox_turn
  Reaches-Filled first last x y size v start = (last, omega arith, v)
  Reaches-Filled first last x z size v (later {y = y} chain before outbox turn) =
      Kept-trans first last y.1 z.1 (Reaches-Filled first last x y size v before) (λ b w.
        tip-Kept first b chain y.0 z.0 y.1 z.1 chain.finalized_block_number size outbox w turn)
