-- ===== src/Storage/Syncers.antt =====
-- rust/abacus-base/src/types/checkpoint_syncer.rs: the choice of a checkpoint syncer, and the syncers of
-- a set of validators from its configuration.
use ethmexico.Base.{ℕ, ◌==◌, if◌then◌else◌, Option, none, some, List, [], ◌∷◌}
use ethmexico.Base.Bytes.{Bytes}
use ethmexico.Types.{SignedCheckpoint}
use ethmexico.Multisig.{CheckpointSyncer}
use ethmexico.Storage.{Files, Client, Json, M}
use ethmexico.Storage.Local
use ethmexico.Storage.Local.{LocalStorage}
use ethmexico.Storage.S3
use ethmexico.Storage.S3.{S3Storage}

pub data CheckpointSyncerConf : Type 0 where
  local_storage : Bytes → CheckpointSyncerConf
  s3_storage : Bytes → Bytes → CheckpointSyncerConf

pub data CheckpointSyncers (Region : Type 0) : Type 0 where
  local : LocalStorage → CheckpointSyncers Region
  s3 : S3Storage Region → CheckpointSyncers Region

-- `panicked` is a region that has no such name, `failed` an address that cannot be parsed.
pub data Build (A : Type 0) : Type 0 where
  built : A → Build A
  failed panicked : Build A

pub record MultisigCheckpointSyncer (Region : Type 0) : Type 0 where
  pub threshold : ℕ
  pub checkpoint_syncers : List (ℕ × CheckpointSyncers Region)

-- The entries of the map, in the order of its iteration.
pub record MultisigCheckpointSyncerConf : Type 0 where
  pub threshold : ℕ
  pub checkpointsyncers : List (Bytes × CheckpointSyncerConf)

infixl 5 ◌>>=◌
abbrev pub ◌>>=◌ : {A B : Type 0} → Build A → (A → Build B) → Build B
built a >>= f = f a
failed >>= f = failed
panicked >>= f = panicked

-- `HashMap::insert`: the entry of a key that is there is replaced.
unfoldable pub insert : {A : Type 0} → ℕ → A → List (ℕ × A) → List (ℕ × A)
insert k a [] = (k, a) ∷ []
insert k a ((j, b) ∷ m) = let rest = insert k a m in if j == k then (k, a) ∷ m else (j, b) ∷ rest

-- `Address::from_str` is the ethers crate's, an address the number of its bytes.
module _ (client : Client) (parse_address : Bytes → Option ℕ) where
  open client use {Region, parse_region}

  unfoldable pub try_into_checkpoint_syncer :
      CheckpointSyncerConf → Build (CheckpointSyncers Region)
  try_into_checkpoint_syncer (local_storage path) = built (local (record { path = path }))
  try_into_checkpoint_syncer (s3_storage bucket region) = elim (parse_region region) [
    | none ↦ panicked
    | some r ↦ built (s3 (record { bucket = bucket; region = r }))
  ]

  abbrev pub address_of : Bytes → Build ℕ
  address_of key = elim (parse_address key) [ none ↦ failed | some a ↦ built a ]

  unfoldable pub collect_syncers :
      List (ℕ × CheckpointSyncers Region)
      → List (Bytes × CheckpointSyncerConf)
      → Build (List (ℕ × CheckpointSyncers Region))
  collect_syncers m [] = built m
  collect_syncers m ((key, value) ∷ entries) = address_of key >>= λ address.
      try_into_checkpoint_syncer value >>= λ syncer.
      collect_syncers (insert address syncer m) entries

  unfoldable pub try_into_multisig_checkpoint_syncer :
      MultisigCheckpointSyncerConf → Build (MultisigCheckpointSyncer Region)
  try_into_multisig_checkpoint_syncer conf = do
    checkpoint_syncers ← collect_syncers [] conf.checkpointsyncers
    built (record { threshold = conf.threshold; checkpoint_syncers = checkpoint_syncers })

module _ (S : Type 0) (files : Files) (client : Client) (json : Json S) where
  open files use {Disk}
  open client use {Region, Objects}

  unfoldable pub latest_index : CheckpointSyncers Region → Disk × Objects → Option (Option ℕ)
  latest_index (local l) (d, o) = Local.latest_index S files json l d
  latest_index (s3 storage) (d, o) = S3.latest_index S client json storage o

  unfoldable pub fetch_checkpoint :
      CheckpointSyncers Region → ℕ → Disk × Objects → Option (Option (SignedCheckpoint S))
  fetch_checkpoint (local l) index (d, o) = Local.fetch_checkpoint S files json l index d
  fetch_checkpoint (s3 storage) index (d, o) = S3.fetch_checkpoint S client json storage index o

  unfoldable pub write_checkpoint :
      CheckpointSyncers Region → SignedCheckpoint S → M (Disk × Objects) (Unit {0})
  write_checkpoint (local l) c (d, o) =
      let (r, d') = Local.write_checkpoint S files json l c d in (r, (d', o))
  write_checkpoint (s3 storage) c (d, o) =
      let (r, o') = S3.write_checkpoint S client json storage c o in (r, (d, o'))

  -- What a syncer answers while the stores are as they are.
  unfoldable pub syncer : CheckpointSyncers Region → Disk × Objects → CheckpointSyncer S
  syncer x s = record {
    latest_index = latest_index x s;
    fetch_checkpoint = λ index. fetch_checkpoint x index s;
  }

  -- The syncers of the validators, as the multisig syncer meets them.
  unfoldable pub syncers :
      List (ℕ × CheckpointSyncers Region) → Disk × Objects → List (ℕ × CheckpointSyncer S)
  unfolding syncer
  syncers [] s = []
  syncers ((validator, x) ∷ m) s = (validator, syncer x s) ∷ syncers m s
