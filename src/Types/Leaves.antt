-- ===== src/Types/Leaves.antt =====
-- The leaf hashes of rust/abacus-core/src/traits/message.rs and src/types/messages.rs.
use ethmexico.Base.{◌++◌, ◌≡◌, ap, [], All}
use ethmexico.Base.Bytes.{Bytes}
use ethmexico.Codec.{ok, read_exact}
use ethmexico.Codec.Words.{IsByte, be_bytes, from_be, be_bytes-from_be}
use ethmexico.Codec.Laws.{read_exact-Canonical, >>=-eq-ok}
use ethmexico.Types.{
  AbacusMessage, RawCommittedMessage, CommittedMessage, encode_message, decode_message,
  committed_of_raw, message_leaf, to_leaf, raw_leaf, buffer,
}

-- A message that was decoded encodes to the very bytes that it was decoded from, all of them.
pub encode_message-decode_message :
    (reader rest : Bytes) (m : AbacusMessage)
    → All IsByte reader
    → decode_message reader ≡ ok (m, rest)
    → (encode_message.bytes m ≡ reader) × (rest ≡ [])
unfolding encode_message decode_message
encode_message-decode_message reader rest m h e =
    let ((origin, r1), e1, d1) = >>=-eq-ok (read_exact 4 reader) _ e in
    let ((sender, r2), e2, d2) = >>=-eq-ok (read_exact 32 r1) _ d1 in
    let ((destination, r3), e3, d3) = >>=-eq-ok (read_exact 4 r2) _ d2 in
    let ((recipient, r4), e4, d4) = >>=-eq-ok (read_exact 32 r3) _ d3 in
    let (n1, s1, b1, h1) = read_exact-Canonical 4 reader origin r1 h e1 in
    let (n2, s2, b2, h2) = read_exact-Canonical 32 r1 sender r2 h1 e2 in
    let (n3, s3, b3, h3) = read_exact-Canonical 4 r2 destination r3 h2 e3 in
    let (n4, s4, b4, h4) = read_exact-Canonical 32 r3 recipient r4 h3 e4 in
    let made : m ≡ record {
      origin = from_be origin;
      sender = sender;
      destination = from_be destination;
      recipient = recipient;
      body = r4;
    } =
      cc in
    let done : rest ≡ [] = cc in
    (
      rw made (
          rw (be_bytes-from_be 4 origin n1 b1, be_bytes-from_be 4 destination n3 b3, s4, s3, s2)
            s1),
      done,
    )

module _ (keccak : Bytes → Bytes) where
  -- The leaf that the database computes from the raw bytes of a message is the leaf of the message
  -- that these bytes decode to, at the same index.
  pub to_leaf-committed_of_raw :
      (raw : RawCommittedMessage) (m : CommittedMessage)
      → All IsByte raw.message
      → committed_of_raw raw ≡ ok m
      → to_leaf keccak m ≡ raw_leaf keccak raw
  unfolding committed_of_raw to_leaf message_leaf raw_leaf
  to_leaf-committed_of_raw raw m h e =
      let ((message, rest), d, made) = >>=-eq-ok (decode_message raw.message) _ e in
      let (same, _) = encode_message-decode_message raw.message rest message h d in
      let built : m ≡ record { leaf_index = raw.leaf_index; message = message } = cc in
      rw built
        (ap (λ (bytes : Bytes). keccak (bytes ++ (buffer ++ be_bytes 4 raw.leaf_index))) same)
