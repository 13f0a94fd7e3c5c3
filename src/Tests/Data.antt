-- ===== src/Tests/Data.antt =====
-- Encodings, message filters, chains and lists of indices.
use ethmexico.Base.{
  ℕ, zero, suc, ◌≡◌, ◌<◌, ◌+◌, ◌↔◌, refl, none, some, List, [], ◌∷◌, inl, inr, Bool, Bool-cases,
  ◌&&◌, ltb, ltb→lt, true, false, length, replicate, arith, All,
}
use ethmexico.Base.Bytes.{Bytes, codes}
use ethmexico.Accumulator.Merkle.{Proof}
use ethmexico.Codec
use ethmexico.Codec.{Encode, Decode}
use ethmexico.Codec.Words.{be_bytes}
use ethmexico.Codec.Laws.{IsH256}
use ethmexico.Types.{
  Checkpoint, CommittedMessage, RawCommittedMessage, encode_checkpoint, encode_message,
  decode_message, encode_proof, encode_raw_message, committed_of_raw, to_leaf, raw_leaf,
}
use ethmexico.Types.RoundTrip.{
  IsCheckpoint, IsMessage, IsProof, decode_message-encode_message, written_counts,
}
use ethmexico.Types.Leaves.{to_leaf-committed_of_raw, encode_message-decode_message}
use ethmexico.Relayer.MatchingList.{wildcard, enumerated, ListElement, msg_matches}
use ethmexico.Relayer.MatchingList.Laws.{Any, AcceptsMessage, msg_matches_iff}
use ethmexico.Chain.{chain_from_domain, domain_from_chain, chain_from_domain_iff}
use ethmexico.Multisig.{quorum_loop, sort_desc}
use ethmexico.Multisig.Latest.{occurrences, Highest, quorum_loop-sort_desc}
use ethmexico.ContractSync.{valid, valid_continuation}
use ethmexico.ContractSync.Continuation.{Consecutive, valid_continuation_iff}
use ethmexico.Tests.Setting.{toy_hash, hello, raw_hello, raw_goodbye}

All-replicate : {A : Type 0} (P : A → Type 0) (n : ℕ) (x : A) → P x → All P (replicate n x)
All-replicate P zero x p = tt
All-replicate P (suc n) x p = (p, All-replicate P n x p)

abbrev are_bytes : Bytes → Bool
are_bytes [] = true
are_bytes (b ∷ bs) = let rest = are_bytes bs in ltb b 256 && rest

are_bytes-All : (bs : Bytes) → are_bytes bs ≡ true → All (λ (b : ℕ). b < 256) bs
are_bytes-All [] h = tt
are_bytes-All (b ∷ bs) h = elim (Bool-cases (ltb b 256)) [
  | inl y ↦ (ltb→lt b 256 y, are_bytes-All bs (rw y at h))
  | inr n ↦ cc (rw n at h)
]

abbrev checkpoint : Checkpoint
checkpoint = record { outbox_domain = 1000; root = replicate 32 5; index = 41 }

checkpoint-IsCheckpoint : IsCheckpoint checkpoint
checkpoint-IsCheckpoint = record {
  domain_u32 = omega arith;
  root_h256 = refl;
  index_u32 = omega arith;
}

hello-IsMessage : IsMessage hello
hello-IsMessage = record {
  origin_u32 = omega arith;
  sender_h256 = refl;
  destination_u32 = omega arith;
  recipient_h256 = refl;
}

abbrev proof : Proof
proof = record { leaf = replicate 32 6; index = 3; path = replicate 32 (replicate 32 7) }

proof-IsProof : IsProof proof
proof-IsProof = record {
  leaf_h256 = refl;
  index_u64 = omega arith;
  path_h256 = All-replicate IsH256 32 (replicate 32 7) refl;
  path_length = refl;
}

decode_message-encode_message_example :
    decode_message (encode_message.bytes hello) ≡ Codec.ok (hello, [])
decode_message-encode_message_example = decode_message-encode_message hello hello-IsMessage

written_counts_example :
    (encode_checkpoint.written checkpoint ≡ length (encode_checkpoint.bytes checkpoint))
    × (encode_message.written hello ≡ length (encode_message.bytes hello))
    × (encode_proof.written proof ≡ length (encode_proof.bytes proof))
    × (encode_raw_message.written raw_hello ≡ length (encode_raw_message.bytes raw_hello) + 32)
written_counts_example =
    written_counts checkpoint hello proof raw_hello checkpoint-IsCheckpoint hello-IsMessage
      proof-IsProof

abbrev committed_hello : CommittedMessage
committed_hello = record { leaf_index = 0; message = hello }

hello_bytes : All (λ (b : ℕ). b < 256) (raw_hello.message)
unfolding encode_message be_bytes
hello_bytes = are_bytes-All (raw_hello.message) refl

hello_decoded : decode_message (raw_hello.message) ≡ Codec.ok (hello, [])
hello_decoded = decode_message-encode_message hello hello-IsMessage

hello_committed : committed_of_raw raw_hello ≡ Codec.ok committed_hello
unfolding committed_of_raw
hello_committed = rw (hello_decoded, committed_of_raw) refl

to_leaf-committed_of_raw_example : to_leaf toy_hash committed_hello ≡ raw_leaf toy_hash raw_hello
to_leaf-committed_of_raw_example =
    to_leaf-committed_of_raw toy_hash raw_hello committed_hello hello_bytes hello_committed

encode_message-decode_message_example :
    (encode_message.bytes hello ≡ raw_hello.message) × (◌≡◌ {A = Bytes} [] [])
encode_message-decode_message_example =
    encode_message-decode_message (raw_hello.message) [] hello hello_bytes hello_decoded

abbrev rule : ListElement
rule = record {
  src_domain = enumerated (1000 ∷ []);
  src_address = wildcard;
  dst_domain = enumerated (5 ∷ (43113 ∷ []));
  dst_address = wildcard;
}

msg_matches_iff_example :
    ((rules : List ListElement)
      → some (rule ∷ []) ≡ some rules
      → (msg_matches (some (rule ∷ [])) hello false ≡ true) ↔ Any (AcceptsMessage hello) rules)
    × (some (rule ∷ []) ≡ none → msg_matches (some (rule ∷ [])) hello false ≡ false)
msg_matches_iff_example = msg_matches_iff (some (rule ∷ [])) hello false

chain_from_domain_iff_example :
    (chain_from_domain 43113 ≡ some (codes "fuji"))
    ↔ (domain_from_chain (codes "fuji") ≡ some 43113)
chain_from_domain_iff_example = chain_from_domain_iff 43113 (codes "fuji")

abbrev indices : List ℕ
indices = 4 ∷ (7 ∷ (9 ∷ (7 ∷ (4 ∷ []))))

quorum_loop-sort_desc_example :
    Highest 2 (λ y. occurrences y indices) (quorum_loop 2 0 0 (sort_desc indices))
quorum_loop-sort_desc_example = quorum_loop-sort_desc 2 indices (omega arith)

abbrev raw_next : RawCommittedMessage
raw_next = record { leaf_index = 2; message = encode_message.bytes hello }

valid_continuation_iff_example :
    (valid_continuation (some 0) (raw_goodbye ∷ (raw_next ∷ [])) ≡ valid)
    ↔ Consecutive (suc 0) (raw_goodbye ∷ (raw_next ∷ []))
valid_continuation_iff_example =
    valid_continuation_iff 0 raw_goodbye (raw_next ∷ []) (omega arith)
      (omega arith, (omega arith, tt)) (omega arith)
