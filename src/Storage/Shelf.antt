-- ===== src/Storage/Shelf.antt =====
-- What a store of signed checkpoints promises: checkpoints by index, and a latest index. It is the
-- contract of the trait in rust/abacus-base/src/traits/checkpoint_syncer.rs.
use ethmexico.Base.{
  ℕ, ◌≡◌, ◌==◌, max, Bool, true, false, refl, if◌then◌else◌, Option, none, some, List, [], ◌∷◌,
  IsU32,
}
use ethmexico.Types.{SignedCheckpoint}
use ethmexico.Multisig.{CheckpointSyncer}

module _ (S : Type 0) where
  pub record Shelf : Type 0 where
    pub checkpoints : ℕ → Option (SignedCheckpoint S)
    pub latest : Option ℕ

  abbrev pub place : SignedCheckpoint S → Option ℕ → Shelf → Shelf
  place c latest shelf = record {
    checkpoints = λ index. if index == c.checkpoint.index then some c else shelf.checkpoints index;
    latest = latest;
  }

  -- The latest index is the highest one that was written.
  abbrev pub highest : Option ℕ → ℕ → ℕ
  highest none index = index
  highest (some latest) index = max latest index

  unfoldable pub put_highest : SignedCheckpoint S → Shelf → Shelf
  put_highest c shelf = place c (some (highest shelf.latest c.checkpoint.index)) shelf

  -- The latest index is the last one that was written.
  unfoldable pub put_last : SignedCheckpoint S → Shelf → Shelf
  put_last c shelf = place c (some c.checkpoint.index) shelf

  unfoldable pub put_all :
      (SignedCheckpoint S → Shelf → Shelf) → List (SignedCheckpoint S) → Shelf → Shelf
  put_all put [] shelf = shelf
  put_all put (c ∷ cs) shelf = put_all put cs (put c shelf)

  -- A syncer answers with what is on the shelf.
  pub record Shows (syncer : CheckpointSyncer S) (shelf : Shelf) : Type 0 where
    pub latest_shown : syncer.latest_index ≡ some shelf.latest
    pub checkpoints_shown :
        (index : ℕ) → IsU32 index → syncer.fetch_checkpoint index ≡ some (shelf.checkpoints index)

pub if_some :
    {A : Type 0} (b : Bool) (x : A) {o : Option A} {y : A}
    → o ≡ some y
    → (if b then some x else o) ≡ some (if b then x else y)
if_some true x h = refl
if_some false x h = h
