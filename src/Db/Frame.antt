-- ===== src/Db/Frame.antt =====
-- Reads after writes, under the same key and under others, for rust/abacus-core/src/db.
use ethmexico.Base.{◌≡◌, ◌≢◌, refl, some, ◌++◌, append-nil, Option-cases, inl, inr, [], arith}
use ethmexico.Base.Bytes.{Bytes, codes, append-cancel_left}
use ethmexico.Codec
use ethmexico.Codec.{Encode, Decode}
use ethmexico.Codec.Laws.{Reads}
use ethmexico.Db.Backend.{Rocks, ok}
use ethmexico.Db.{full_key, prefix_store, prefix_retrieve, store_encodable, retrieve_decodable}

-- Keys that differ behind the entity differ.
pub full_key-ne :
    (entity p k q j : Bytes) → p ++ k ≢ q ++ j → full_key entity p k ≢ full_key entity q j
unfolding full_key
full_key-ne entity p k q j h e = h (
    append-cancel_left (codes "_") (p ++ k) (q ++ j)
      (append-cancel_left entity (codes "_" ++ (p ++ k)) (codes "_" ++ (q ++ j)) e))

module _ (rocks : Rocks) (keccak : Bytes → Bytes) (entity : Bytes) where
  open rocks use {Store, put, get, get-put, get-put_other}

  -- A value that was stored with success is read back.
  pub retrieve-store_whole :
      {A : Type 0} (e : Encode A) (d : Decode A) (prefix key : Bytes) (a : A) (s s' : Store)
      (rest : Bytes)
      → d (e.bytes a) ≡ Codec.ok (a, rest)
      → store_encodable rocks keccak entity e prefix key a s ≡ (ok tt, s')
      → retrieve_decodable rocks keccak entity d prefix key s' ≡ ok (some a)
  unfolding store_encodable retrieve_decodable prefix_store prefix_retrieve
  retrieve-store_whole e d prefix key a s s' rest r h =
      ground (arith, get-put s s' (full_key entity prefix key) (e.bytes a), r)

  pub retrieve-store :
      {A : Type 0} (e : Encode A) (d : Decode A) (prefix key : Bytes) (a : A) (s s' : Store)
      → Reads e d a
      → store_encodable rocks keccak entity e prefix key a s ≡ (ok tt, s')
      → retrieve_decodable rocks keccak entity d prefix key s' ≡ ok (some a)
  retrieve-store e d prefix key a s s' r h =
      retrieve-store_whole e d prefix key a s s' [] (rw append-nil at (r [])) h

  -- No store, with success or without, changes what another key reads.
  pub retrieve-store_other :
      {A B : Type 0} (e : Encode A) (d : Decode B) (p k q j : Bytes) (a : A) (s : Store)
      → p ++ k ≢ q ++ j
      → retrieve_decodable rocks keccak entity d q j
          (store_encodable rocks keccak entity e p k a s).1
        ≡ retrieve_decodable rocks keccak entity d q j s
  unfolding store_encodable retrieve_decodable prefix_store prefix_retrieve
  retrieve-store_other e d p k q j a s h =
      elim (Option-cases (put s (full_key entity p k) (e.bytes a))) [
        | inl failed ↦ rw (failed, prefix_store) refl
        | inr (s', done) ↦
            rw (done, prefix_store)
              (rw
                (
                  get-put_other s s' (full_key entity p k) (full_key entity q j) (e.bytes a) done
                      (full_key-ne entity p k q j h),
                  prefix_retrieve,
                )
                refl)
      ]
