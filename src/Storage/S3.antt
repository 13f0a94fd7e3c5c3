-- ===== src/Storage/S3.antt =====
-- rust/abacus-base/src/types/s3_storage.rs: signed checkpoints as objects of a bucket, with the latest
-- index in an object of its own.
pub mod Refines
use ethmexico.Base.{
  ℕ, ◌≡◌, ◌≢◌, refl, sym, ◌∙◌, Bool, true, false, Option, none, some, List, [], ◌∷◌, ◌++◌, IsU32,
}
use ethmexico.Base.Bytes.{Bytes, codes}
use ethmexico.Base.Decimal.{decimal}
use ethmexico.Types.{SignedCheckpoint}
use ethmexico.Multisig.{CheckpointSyncer}
use ethmexico.Storage.{
  Client, Object, body, no_body, no_such_key, failed, Json, M, ◌>>=◌, ◌>>◌, pure, reading, succeed,
  parsed,
}

-- The client of the source is the one for the region.
pub record S3Storage (Region : Type 0) : Type 0 where
  pub bucket : Bytes
  pub region : Region

unfoldable pub checkpoint_key : ℕ → Bytes
checkpoint_key index = codes "checkpoint_" ++ (decimal index ++ codes ".json")

abbrev pub index_key : Bytes
index_key = codes "checkpoint_latest_index.json"

-- The match on the answer to a request.
abbrev pub contents_of : Object → Option (Option Bytes)
contents_of (body contents) = some (some contents)
contents_of no_body = some none
contents_of no_such_key = some none
contents_of failed = none

abbrev pub and_parsed :
    {A : Type 0} → (Bytes → Option A) → Option (Option Bytes) → Option (Option A)
and_parsed f none = none
and_parsed f (some contents) = parsed f contents

module _ (S : Type 0) (client : Client) (json : Json S) (storage : S3Storage client.Region) where
  open client use {Objects, get_object, put_object}
  open json use {to_string_pretty, from_slice, u32_from_slice}

  unfoldable pub write_to_bucket : Bytes → Bytes → M Objects (Unit {0})
  write_to_bucket key contents o = succeed (put_object storage.region storage.bucket key contents o)

  unfoldable pub read_from_bucket : Bytes → Objects → Option (Option Bytes)
  read_from_bucket key o = contents_of (get_object storage.region storage.bucket key o)

  unfoldable pub latest_index : Objects → Option (Option ℕ)
  unfolding read_from_bucket
  latest_index o = and_parsed u32_from_slice (read_from_bucket index_key o)

  unfoldable pub fetch_checkpoint : ℕ → Objects → Option (Option (SignedCheckpoint S))
  unfolding read_from_bucket
  fetch_checkpoint index o = and_parsed from_slice (read_from_bucket (checkpoint_key index) o)

  unfoldable pub write_checkpoint : SignedCheckpoint S → M Objects (Unit {0})
  unfolding write_to_bucket
  write_checkpoint signed_checkpoint = do
    let index = signed_checkpoint.checkpoint.index
    serialized_checkpoint ← reading (λ d. to_string_pretty signed_checkpoint)
    write_to_bucket (checkpoint_key index) serialized_checkpoint
    write_to_bucket index_key (decimal index)

  unfoldable pub syncer : Objects → CheckpointSyncer S
  syncer o = record {
    latest_index = latest_index o;
    fetch_checkpoint = λ index. fetch_checkpoint index o;
  }

  -- Checkpoints written one after the other, up to an error.
  unfoldable pub write_all : List (SignedCheckpoint S) → M Objects (Unit {0})
  write_all [] = pure tt
  write_all (c ∷ cs) = write_checkpoint c >> write_all cs
