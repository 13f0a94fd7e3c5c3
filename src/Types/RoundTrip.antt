-- ===== src/Types/RoundTrip.antt =====
-- Decoding after encoding, for the types of rust/abacus-core/src/types, src/traits/message.rs and the
-- proofs of src/accumulator/merkle.rs; and the counts that `write_to` returns.
use ethmexico.Base.{
  ℕ, ◌+◌, ◌*◌, ◌^◌, ◌<◌, ◌≡◌, refl, sym, ap, ◌∙◌, List, [], ◌∷◌, ◌++◌, length, length-append,
  append_assoc, All, IsU32, IsU64, arith,
}
use ethmexico.Base.Bytes.{Bytes, H256}
use ethmexico.Accumulator.{tree_depth}
use ethmexico.Accumulator.Merkle.{Proof}
use ethmexico.Codec.{ok}
use ethmexico.Codec.Words.{be_bytes, length-be_bytes, from_be-be_bytes}
use ethmexico.Codec.Laws.{IsH256, Reads, read_exact-append, h256-Reads, u256-Reads}
use ethmexico.Types.{
  Checkpoint, AbacusMessage, RawCommittedMessage, InterchainGasPaymentMeta, encode_checkpoint,
  decode_checkpoint, encode_message, decode_message, encode_raw_message, decode_raw_message,
  encode_gas_payment_meta, decode_gas_payment_meta, write_path, read_path, encode_proof,
  decode_proof,
}

-- The ranges that the Rust types guarantee.
pub record IsCheckpoint (c : Checkpoint) : Type 0 where
  pub domain_u32 : IsU32 c.outbox_domain
  pub root_h256 : IsH256 c.root
  pub index_u32 : IsU32 c.index

pub record IsMessage (m : AbacusMessage) : Type 0 where
  pub origin_u32 : IsU32 m.origin
  pub sender_h256 : IsH256 m.sender
  pub destination_u32 : IsU32 m.destination
  pub recipient_h256 : IsH256 m.recipient

pub record IsProof (p : Proof) : Type 0 where
  pub leaf_h256 : IsH256 p.leaf
  pub index_u64 : IsU64 p.index
  pub path_h256 : All IsH256 p.path
  pub path_length : length p.path ≡ tree_depth

-- A checkpoint, with numbers of 32 bits and a root of 32 bytes, is read back from its bytes,
-- whatever follows them.
checkpoint-Reads : (c : Checkpoint) → IsCheckpoint c → Reads encode_checkpoint decode_checkpoint c
unfolding encode_checkpoint decode_checkpoint
checkpoint-Reads c v rest =
    rw (append_assoc (be_bytes 4 c.outbox_domain), append_assoc c.root)
      (rw
        (
          read_exact-append 4 (be_bytes 4 c.outbox_domain) (c.root ++ (be_bytes 4 c.index ++ rest))
              (length-be_bytes 4 c.outbox_domain),
          read_exact-append 32 c.root (be_bytes 4 c.index ++ rest) v.root_h256,
          read_exact-append 4 (be_bytes 4 c.index) rest (length-be_bytes 4 c.index),
          from_be-be_bytes 4 c.outbox_domain v.domain_u32,
          from_be-be_bytes 4 c.index v.index_u32,
        )
        refl)

-- A message, with domains of 32 bits and addresses of 32 bytes, is read back from its own bytes.
pub decode_message-encode_message :
    (m : AbacusMessage) → IsMessage m → decode_message (encode_message.bytes m) ≡ ok (m, [])
unfolding encode_message decode_message
decode_message-encode_message m v =
    rw
      (
        read_exact-append 4 (be_bytes 4 m.origin)
            (m.sender ++ (be_bytes 4 m.destination ++ (m.recipient ++ m.body)))
            (length-be_bytes 4 m.origin),
        read_exact-append 32 m.sender (be_bytes 4 m.destination ++ (m.recipient ++ m.body))
            v.sender_h256,
        read_exact-append 4 (be_bytes 4 m.destination) (m.recipient ++ m.body)
            (length-be_bytes 4 m.destination),
        read_exact-append 32 m.recipient m.body v.recipient_h256,
        from_be-be_bytes 4 m.origin v.origin_u32,
        from_be-be_bytes 4 m.destination v.destination_u32,
      )
      refl

pub decode_raw_message-encode_raw_message :
    (m : RawCommittedMessage)
    → IsU32 m.leaf_index
    → decode_raw_message (encode_raw_message.bytes m) ≡ ok (m, [])
unfolding encode_raw_message decode_raw_message
decode_raw_message-encode_raw_message m h =
    rw
      (
        read_exact-append 4 (be_bytes 4 m.leaf_index) m.message (length-be_bytes 4 m.leaf_index),
        from_be-be_bytes 4 m.leaf_index h,
      )
      refl

pub gas_payment_meta-Reads :
    (m : InterchainGasPaymentMeta)
    → IsH256 m.transaction_hash
    → m.log_index < 2 ^ 256
    → Reads encode_gas_payment_meta decode_gas_payment_meta m
unfolding encode_gas_payment_meta decode_gas_payment_meta
gas_payment_meta-Reads m h k rest =
    rw (append_assoc m.transaction_hash)
      (rw (h256-Reads m.transaction_hash h _, u256-Reads m.log_index k rest) refl)

read_path-write_path :
    (hs : List H256) (rest : Bytes)
    → All IsH256 hs
    → read_path (length hs) (write_path hs ++ rest) ≡ ok (hs, rest)
unfolding read_path write_path
read_path-write_path [] rest h = refl
read_path-write_path (x ∷ hs) rest h =
    rw (append_assoc x) (
      rw (read_exact-append 32 x (write_path hs ++ rest) h.0, read_path-write_path hs rest h.1)
        refl)

-- A proof, with an index of 64 bits and a path of 32 hashes of 32 bytes, is read back from its
-- bytes, whatever follows them.
proof-Reads : (p : Proof) → IsProof p → Reads encode_proof decode_proof p
unfolding encode_proof decode_proof
proof-Reads p v rest =
    rw (append_assoc p.leaf, append_assoc (be_bytes 8 p.index))
      (rw
        (
          read_exact-append 32 p.leaf (be_bytes 8 p.index ++ (write_path p.path ++ rest))
              v.leaf_h256,
          read_exact-append 8 (be_bytes 8 p.index) (write_path p.path ++ rest)
              (length-be_bytes 8 p.index),
          path,
          from_be-be_bytes 8 p.index v.index_u64,
        )
        refl)
  where
    path : read_path 32 (write_path p.path ++ rest) ≡ ok (p.path, rest)
    path =
        ap (λ (n : ℕ). read_path n (write_path p.path ++ rest)) (sym v.path_length)
        ∙ read_path-write_path p.path rest v.path_h256

length-write_path : (hs : List H256) → All IsH256 hs → length (write_path hs) ≡ 32 * length hs
unfolding write_path
length-write_path [] h = omega arith
length-write_path (x ∷ hs) h =
    omega (arith, length-append x (write_path hs), length-write_path hs h.1, h.0)

-- The count that `write_to` returns is the number of bytes written, for checkpoints, messages and
-- proofs with hashes of 32 bytes; for a raw committed message it is 32 more.
pub written_counts :
    (c : Checkpoint) (m : AbacusMessage) (p : Proof) (r : RawCommittedMessage)
    → IsCheckpoint c
    → IsMessage m
    → IsProof p
    → (encode_checkpoint.written c ≡ length (encode_checkpoint.bytes c))
      × (encode_message.written m ≡ length (encode_message.bytes m))
      × (encode_proof.written p ≡ length (encode_proof.bytes p))
      × (encode_raw_message.written r ≡ length (encode_raw_message.bytes r) + 32)
unfolding encode_checkpoint encode_message encode_proof encode_raw_message
written_counts c m p r vc vm vp = (
  simp (length-append, length-be_bytes) (omega (arith, vc.root_h256)),
  simp (length-append, length-be_bytes) (omega (arith, vm.sender_h256, vm.recipient_h256)),
  simp (length-append, length-be_bytes)
      (omega (arith, vp.leaf_h256, vp.path_length, length-write_path p.path vp.path_h256)),
  simp (length-append, length-be_bytes) (omega arith),
)
