-- ===== src/Db/Status.antt =====
-- The processing status of a leaf, in rust/abacus-core/src/db/abacus_db.rs.
use ethmexico.Base.{ℕ, ◌≡◌, refl, true, some, arith}
use ethmexico.Base.Bytes.{Bytes}
use ethmexico.Codec.{encode_u32, decode_u32}
use ethmexico.Codec.Laws.{u32-Reads}
use ethmexico.Db.Backend.{Rocks, ok}
use ethmexico.Db.{
  leaf_process_status, mark_leaf_as_processed, retrieve_leaf_processing_status, store_keyed,
  retrieve_keyed,
}
use ethmexico.Db.Frame.{retrieve-store}

module _ (rocks : Rocks) (keccak : Bytes → Bytes) (entity : Bytes) where
  open rocks use {Store}

  pub status-mark :
      (leaf_index : ℕ) (s s' : Store)
      → mark_leaf_as_processed rocks keccak entity leaf_index s ≡ (ok tt, s')
      → retrieve_leaf_processing_status rocks keccak entity leaf_index s' ≡ ok (some true)
  unfolding mark_leaf_as_processed retrieve_leaf_processing_status store_keyed retrieve_keyed
  status-mark leaf_index s s' h =
      let stored =
        retrieve-store rocks keccak entity encode_u32 decode_u32 leaf_process_status
          (encode_u32.bytes leaf_index) 1 s s' (u32-Reads 1 (omega arith)) h in
      rw (stored, retrieve_leaf_processing_status) refl
