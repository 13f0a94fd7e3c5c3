-- ===== src/Storage/Local.antt =====
-- rust/abacus-base/src/types/local_storage.rs: signed checkpoints in files, one for each index, with the
-- latest index in a file of its own.
pub mod Paths
pub mod Refines
use ethmexico.Base.{
  ℕ, ltb, Bool, true, false, if◌then◌else◌, Option, none, some, List, [], ◌∷◌, ◌++◌,
}
use ethmexico.Base.Bytes.{Bytes, codes}
use ethmexico.Base.Decimal.{decimal, parse_u32, is_utf8}
use ethmexico.Types.{SignedCheckpoint}
use ethmexico.Multisig.{CheckpointSyncer}
use ethmexico.Storage.{Files, Json, M, ◌>>=◌, ◌>>◌, pure, reading, succeed, parsed}

pub record LocalStorage : Type 0 where
  pub path : Bytes

unfoldable pub checkpoint_file_path : LocalStorage → ℕ → Bytes
checkpoint_file_path l index = l.path ++ (codes "/" ++ (decimal index ++ codes ".json"))

unfoldable pub latest_index_file_path : LocalStorage → Bytes
latest_index_file_path l = l.path ++ codes "/index.json"

-- A file that cannot be read, or is not UTF-8, is none; a text that is no number is an error.
abbrev pub index_of : Option Bytes → Option (Option ℕ)
index_of none = some none
index_of (some contents) = if is_utf8 contents then parsed parse_u32 (some contents) else some none

module _ (S : Type 0) (files : Files) (json : Json S) (l : LocalStorage) where
  open files use {Disk, read, write}
  open json use {to_string_pretty, from_slice}

  unfoldable pub write_index : ℕ → M Disk (Unit {0})
  write_index index d = succeed (write (latest_index_file_path l) (decimal index) d)

  unfoldable pub latest_index : Disk → Option (Option ℕ)
  latest_index d = index_of (read d (latest_index_file_path l))

  unfoldable pub fetch_checkpoint : ℕ → Disk → Option (Option (SignedCheckpoint S))
  fetch_checkpoint index d = parsed from_slice (read d (checkpoint_file_path l index))

  -- The match on the latest index.
  abbrev pub raise_index : ℕ → Option ℕ → M Disk (Unit {0})
  raise_index index (some current_latest_index) =
      if ltb current_latest_index index then write_index index else pure tt
  raise_index index none = write_index index

  unfoldable pub write_checkpoint : SignedCheckpoint S → M Disk (Unit {0})
  write_checkpoint signed_checkpoint = do
    let index = signed_checkpoint.checkpoint.index
    serialized_checkpoint ← reading (λ d. to_string_pretty signed_checkpoint)
    (λ d. succeed (write (checkpoint_file_path l index) serialized_checkpoint d))
    current ← reading latest_index
    raise_index index current

  unfoldable pub syncer : Disk → CheckpointSyncer S
  syncer d = record {
    latest_index = latest_index d;
    fetch_checkpoint = λ index. fetch_checkpoint index d;
  }

  -- Checkpoints written one after the other, up to an error.
  unfoldable pub write_all : List (SignedCheckpoint S) → M Disk (Unit {0})
  write_all [] = pure tt
  write_all (c ∷ cs) = write_checkpoint c >> write_all cs
