-- ===== src/Types.antt =====
-- The data of rust/abacus-core: src/types (checkpoint.rs, messages.rs), src/traits/message.rs and
-- src/utils.rs, with their encodings. `keccak` is the sha3 crate's Keccak256.
pub mod Leaves
pub mod RoundTrip
use ethmexico.Base.{ℕ, zero, suc, ◌+◌, ◌*◌, List, [], ◌∷◌, ◌++◌, length, replicate}
use ethmexico.Base.Bytes.{Bytes, H256}
use ethmexico.Accumulator.{tree_depth}
use ethmexico.Accumulator.Merkle.{Proof}
use ethmexico.Codec.{
  Result, ok, err, Encode, Decode, ◌>>=◌, read_exact, read_to_end, encode_h256, decode_h256,
  encode_u256, decode_u256, encode_u64, encode_u32, encode_bool, decode_u64, decode_u32,
}
use ethmexico.Codec.Words.{be_bytes, from_be}

pub record Checkpoint : Type 0 where
  pub outbox_domain : ℕ
  pub root : H256
  pub index : ℕ

pub record CheckpointMeta : Type 0 where
  pub block_number : ℕ

pub record AbacusMessage : Type 0 where
  pub origin : ℕ
  pub sender : H256
  pub destination : ℕ
  pub recipient : H256
  pub body : Bytes

pub record RawCommittedMessage : Type 0 where
  pub leaf_index : ℕ
  pub message : Bytes

pub record CommittedMessage : Type 0 where
  pub leaf_index : ℕ
  pub message : AbacusMessage

pub record InterchainGasPayment : Type 0 where
  pub leaf_index : ℕ
  pub amount : ℕ

pub record InterchainGasPaymentMeta : Type 0 where
  pub transaction_hash : H256
  pub log_index : ℕ

pub record InterchainGasPaymentWithMeta : Type 0 where
  pub payment : InterchainGasPayment
  pub meta : InterchainGasPaymentMeta

-- `S` is the ethers crate's `Signature`, `A` its `Address`.
pub record SignedCheckpoint (S : Type 0) : Type 0 where
  pub checkpoint : Checkpoint
  pub signature : S

pub record SignedCheckpointWithSigner (S A : Type 0) : Type 0 where
  pub signer : A
  pub signed_checkpoint : SignedCheckpoint S

pub record MultisigSignedCheckpoint (S : Type 0) : Type 0 where
  pub checkpoint : Checkpoint
  pub signatures : List S

abbrev pub abacus_message_prefix_len : ℕ
abacus_message_prefix_len = 72

unfoldable pub encode_checkpoint : Encode Checkpoint
encode_checkpoint = record {
  bytes = λ c. be_bytes 4 c.outbox_domain ++ (c.root ++ be_bytes 4 c.index);
  written = λ c. 4 + 32 + 4;
}

unfoldable pub decode_checkpoint : Decode Checkpoint
decode_checkpoint reader = do
  (outbox_domain, r1) ← read_exact 4 reader
  (root, r2) ← read_exact 32 r1
  (index, r3) ← read_exact 4 r2
  ok (record { outbox_domain = from_be outbox_domain; root = root; index = from_be index }, r3)

unfoldable pub encode_checkpoint_meta : Encode CheckpointMeta
unfolding encode_u64
encode_checkpoint_meta = record {
  bytes = λ m. encode_u64.bytes m.block_number;
  written = λ m. 0 + encode_u64.written m.block_number;
}

unfoldable pub decode_checkpoint_meta : Decode CheckpointMeta
decode_checkpoint_meta reader = do
  (block_number, rest) ← read_exact 8 reader
  ok (record { block_number = from_be block_number }, rest)

unfoldable pub encode_message : Encode AbacusMessage
encode_message = record {
  bytes = λ m.
      be_bytes 4 m.origin ++ (m.sender ++ (be_bytes 4 m.destination ++ (m.recipient ++ m.body)));
  written = λ m. abacus_message_prefix_len + length m.body;
}

unfoldable pub decode_message : Decode AbacusMessage
decode_message reader = do
  (origin, r1) ← read_exact 4 reader
  (sender, r2) ← read_exact 32 r1
  (destination, r3) ← read_exact 4 r2
  (recipient, r4) ← read_exact 32 r3
  (body, r5) ← read_to_end r4
  ok (
    record {
      origin = from_be origin;
      sender = sender;
      destination = from_be destination;
      recipient = recipient;
      body = body;
    },
    r5,
  )

-- The count that is returned has 32 bytes more than are written, as in the source.
unfoldable pub encode_raw_message : Encode RawCommittedMessage
encode_raw_message = record {
  bytes = λ m. be_bytes 4 m.leaf_index ++ m.message;
  written = λ m. 4 + 32 + length m.message;
}

unfoldable pub decode_raw_message : Decode RawCommittedMessage
decode_raw_message reader = do
  (idx, r1) ← read_exact 4 reader
  (message, r2) ← read_to_end r1
  ok (record { leaf_index = from_be idx; message = message }, r2)

unfoldable pub encode_gas_payment_meta : Encode InterchainGasPaymentMeta
unfolding encode_h256 encode_u256
encode_gas_payment_meta = record {
  bytes = λ m. encode_h256.bytes m.transaction_hash ++ encode_u256.bytes m.log_index;
  written = λ m. 0 + encode_h256.written m.transaction_hash + encode_u256.written m.log_index;
}

unfoldable pub decode_gas_payment_meta : Decode InterchainGasPaymentMeta
decode_gas_payment_meta reader = do
  (transaction_hash, r1) ← decode_h256 reader
  (log_index, r2) ← decode_u256 r1
  ok (record { transaction_hash = transaction_hash; log_index = log_index }, r2)

-- The hashes of a proof's path, one after the other.
unfoldable pub write_path : List H256 → Bytes
write_path [] = []
write_path (h ∷ hs) = h ++ write_path hs

unfoldable pub read_path : ℕ → Decode (List H256)
read_path zero reader = ok ([], reader)
read_path (suc n) reader = do
  (h, r1) ← read_exact 32 reader
  (hs, r2) ← read_path n r1
  ok (h ∷ hs, r2)

unfoldable pub encode_proof : Encode Proof
encode_proof = record {
  bytes = λ p. p.leaf ++ (be_bytes 8 p.index ++ write_path p.path);
  written = λ p. 32 + 8 + tree_depth * 32;
}

unfoldable pub decode_proof : Decode Proof
decode_proof reader = do
  (leaf, r1) ← read_exact 32 reader
  (index_bytes, r2) ← read_exact 8 r1
  (path, r3) ← read_path 32 r2
  ok (record { leaf = leaf; index = from_be index_bytes; path = path }, r3)

-- `CommittedMessage::try_from`.
unfoldable pub committed_of_raw : RawCommittedMessage → Result CommittedMessage
committed_of_raw raw = do
  (message, rest) ← decode_message raw.message
  ok (record { leaf_index = raw.leaf_index; message = message })

-- The 28 zero bytes that make a big-endian u32 a u256.
abbrev pub buffer : Bytes
buffer = replicate 28 0

abbrev pub abacus : Bytes
abacus = b'A' ∷ b'B' ∷ b'A' ∷ b'C' ∷ b'U' ∷ b'S' ∷ []

module _ (keccak : Bytes → Bytes) where
  unfoldable pub domain_hash : ℕ → H256
  domain_hash domain = keccak (be_bytes 4 domain ++ abacus)

  unfoldable pub signing_hash : Checkpoint → H256
  signing_hash c =
      keccak (domain_hash c.outbox_domain ++ (c.root ++ (buffer ++ be_bytes 4 c.index)))

  -- `AbacusMessage::to_leaf`.
  unfoldable pub message_leaf : AbacusMessage → ℕ → H256
  unfolding encode_message
  message_leaf m leaf_index = keccak (encode_message.bytes m ++ (buffer ++ be_bytes 4 leaf_index))

  unfoldable pub to_leaf : CommittedMessage → H256
  to_leaf m = message_leaf m.message m.leaf_index

  -- `RawCommittedMessage::leaf`.
  unfoldable pub raw_leaf : RawCommittedMessage → H256
  raw_leaf raw = keccak (raw.message ++ (buffer ++ be_bytes 4 raw.leaf_index))
