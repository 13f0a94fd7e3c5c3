-- ===== src/ContractSync/Covered.antt =====
-- The blocks that the loop of rust/abacus-base/src/contract_sync/outbox.rs asks for, and the messages
-- that were logged in them.
use ethmexico.Base.{
  ℕ, ◌+◌, ◌-◌, ◌<◌, ◌≤◌, ◌≡◌, refl, ltb, leb, ltb→lt, leb→gt, u32_max, Bool-cases, Option, none,
  some, List, inl, inr, arith,
}
use ethmexico.Base.Bytes.{Bytes, H256}
use ethmexico.Codec.Laws.{IsH256}
use ethmexico.Types.{RawCommittedMessage}
use ethmexico.Db.Backend.{Rocks, Outcome}
use ethmexico.Db.{leaf_by_leaf_index}
use ethmexico.ContractSync.{above, Chain, fine, OutboxSync, range_end, with_tip, outbox_turn}
use ethmexico.ContractSync.Progress.{IsOutbox}
use ethmexico.ContractSync.Asked.{
  IsComplete, Below, Covered, Kept, Ends, Asked, same-Kept, fetched-Kept, above-Has,
}

module _ (rocks : Rocks) (keccak : Bytes → Bytes) (entity : Bytes) (chunk_size : ℕ)
    (Logged : ℕ → ℕ → Type 0) (first : ℕ) where
  open rocks use {Store}

  -- What a turn below the tip asks for.
  range_Asked :
      (last tip : ℕ) (chain : Chain RawCommittedMessage) (o : OutboxSync)
      (ms : List RawCommittedMessage) (to full : ℕ)
      → IsComplete rocks keccak entity chunk_size Logged first chain
      → chain.finalized_block_number ≡ some tip
      → o.from < tip
      → to ≤ tip
      → full ≤ o.from
      → Below rocks keccak entity chunk_size Logged first last o.from
      → full ≡ to - chunk_size
      → chain.fetch full to ≡ some ms
      → Asked rocks keccak entity chunk_size Logged first last to full (above last ms)
  range_Asked last tip chain o ms to full complete known lt top low v e answered = record {
    fits = omega (arith, complete.room tip known);
    below_full = λ block i here lower. v block i here (omega arith);
    up_to = λ block i here lower. elim (Bool-cases (ltb block full)) [
      | inl y ↦ inl (v block i here (omega (arith, ltb→lt block full y)))
      | inr n ↦ above-Has last i ms (
          complete.found tip full to block i ms known top answered here (ground (arith, n))
            (omega arith))
    ];
  }

  -- The end of the range is not above the tip, and its beginning not above the next block.
  range_end-bounds :
      (tip from : ℕ)
      → from < tip
      → tip + chunk_size < u32_max
      → (range_end rocks keccak entity chunk_size tip from ≤ tip)
        × (range_end rocks keccak entity chunk_size tip from - chunk_size ≤ from)
  unfolding range_end
  range_end-bounds tip from lt room = (omega arith, omega arith)

  tip-Kept :
      (last : ℕ) (chain : Chain RawCommittedMessage) (o : OutboxSync) (s : Store)
      (y : OutboxSync × Store) (t : Option ℕ)
      → ((bytes : Bytes) → IsH256 (keccak bytes))
      → IsOutbox chain
      → IsComplete rocks keccak entity chunk_size Logged first chain
      → chain.finalized_block_number ≡ t
      → Covered rocks keccak entity chunk_size Logged first last (o, s)
      → Ends rocks keccak entity chunk_size Logged first
          (with_tip rocks keccak entity chunk_size chain o s t)
          y
      → Kept rocks keccak entity chunk_size Logged first last y
  unfolding IsOutbox
  tip-Kept last chain o s y none size outbox complete known v h =
      same-Kept rocks keccak entity chunk_size Logged first last (o, s) y v h
  tip-Kept last chain o s y (some tip) size outbox complete known v h =
      elim (Bool-cases (leb tip o.from)) [
        | inl up ↦
            same-Kept rocks keccak entity chunk_size Logged first last (o, s) y v (rw up at h)
        | inr n ↦
            let to = range_end rocks keccak entity chunk_size tip o.from in
            let lt : o.from < tip = leb→gt tip o.from n in
            let (top, low) = range_end-bounds tip o.from lt (complete.room tip known) in
            fetched-Kept rocks keccak entity chunk_size Logged first last to (to - chunk_size) o s y
              (chain.fetch (to - chunk_size) to) size (outbox (to - chunk_size) to)
              (λ ms answered.
                range_Asked last tip chain o ms to (to - chunk_size) complete known lt top low
                  v.below_from refl answered)
              v (rw n at h)
      ]

  -- What a run of turns that end well can reach.
  pub data Follows (x : OutboxSync × Store) : OutboxSync × Store → Type 0 where
    start : Follows x x
    later :
        {y z : OutboxSync × Store} (chain : Chain RawCommittedMessage)
        → Follows x y
        → IsOutbox chain
        → IsComplete rocks keccak entity chunk_size Logged first chain
        → outbox_turn rocks keccak entity chunk_size chain y ≡ (z, fine)
        → Follows x z

  Follows-Kept :
      (last : ℕ) (x y : OutboxSync × Store)
      → ((bytes : Bytes) → IsH256 (keccak bytes))
      → Covered rocks keccak entity chunk_size Logged first last x
      → Follows x y
      → Kept rocks keccak entity chunk_size Logged first last y
  unfolding outbox_turn
  Follows-Kept last x y size v start = (last, omega arith, v)
  Follows-Kept last x z size v (later {y = y} chain earlier outbox complete turn) =
      let (b, le, w) = Follows-Kept last x y size v earlier in
      let (c, more, u) =
        tip-Kept b chain y.0 y.1 z chain.finalized_block_number size outbox complete refl w turn in
      (c, omega (arith, le, more), u)

  -- With `Logged block i` that the message with index `i` was logged in the block, and a hash of 32
  -- bytes: let each turn's indexer find every message of the finalized blocks that it is asked for, and
  -- none with an index from `u32::MAX` on, at a tip with which no sum overflows. Let the turns end well,
  -- whatever they find. Let the leaves have no gap from the first to the latest at the start, where
  -- every message logged below both blocks that the loop keeps has an index up to the latest one. Then
  -- every message that was logged below the next block to index, from the first index on, has its leaf
  -- in the database.
  pub Follows-Covered :
      (last : ℕ) (x y : OutboxSync × Store)
      → ((bytes : Bytes) → IsH256 (keccak bytes))
      → Covered rocks keccak entity chunk_size Logged first last x
      → Follows x y
      → (block i : ℕ) → Logged block i
      → block < y.0.from
      → first ≤ i
      → (leaf : H256) × (leaf_by_leaf_index rocks keccak entity i y.1 ≡ Outcome.ok (some leaf))
  Follows-Covered last x y size v run block i here lt low =
      let (last', _, w) = Follows-Kept last x y size v run in
      w.filled.leaves i low (w.below_from block i here lt)
