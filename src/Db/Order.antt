-- ===== src/Db/Order.antt =====
-- What storing a message leaves as it was, in rust/abacus-core/src/db/abacus_db.rs, and the latest leaf
-- index after it.
use ethmexico.Base.{
  ℕ, ◌≡◌, ◌≢◌, refl, sym, ap, ◌∙◌, ◌++◌, [], get_or, Bool-cases, inl, inr, Option, some, IsU32,
  arith,
}
use ethmexico.Base.Bytes.{Bytes, H256, append-cancel_left}
use ethmexico.Codec.{Decode, encode_u32, decode_u32, encode_h256, decode_h256}
use ethmexico.Codec
use ethmexico.Codec.Laws.{u32-Reads}
use ethmexico.Types.{RawCommittedMessage, encode_raw_message, decode_message, raw_leaf}
use ethmexico.Db.Backend.{Rocks, Outcome, ok, lift, read-eq-ok, >>=-eq-ok}
use ethmexico.Db.{
  leaf_prefix, message_prefix, latest_leaf_index, latest_leaf_index_for_destination,
  update_latest_leaf_index, update_latest_leaf_index_for_destination, store_keyed, retrieve_keyed,
  store_leaf, leaf_by_leaf_index, store_raw_committed_message, is_stale, retrieve_latest_leaf_index,
  retrieve_latest_leaf_index_for_destination,
}
use ethmexico.Db.Frame.{retrieve-store_other}
use ethmexico.Db.Latest.{latest_after, retrieve-update_latest_leaf_index}
use ethmexico.Db.Messages.{
  leaf_of, leaf_of-update, leaf_of-update_destination, leaf_of-store_message,
}

u32-injective : (i j : ℕ) → IsU32 i → IsU32 j → encode_u32.bytes i ≡ encode_u32.bytes j → i ≡ j
u32-injective i j u v e =
    let both : ◌≡◌ {A = Codec.Result (ℕ × Bytes)} (Codec.ok (i, [])) (Codec.ok (j, [])) =
      sym (u32-Reads i u []) ∙ ap (λ (b : Bytes). decode_u32 (b ++ [])) e ∙ u32-Reads j v [] in
    cc

leaf-ne :
    (i j : ℕ)
    → IsU32 i
    → IsU32 j
    → i ≢ j
    → leaf_prefix ++ encode_u32.bytes j ≢ leaf_prefix ++ encode_u32.bytes i
leaf-ne i j u v ne e = ne (sym (u32-injective j i v u (append-cancel_left leaf_prefix _ _ e)))

latest-ne-leaf : (k : Bytes) → leaf_prefix ++ k ≢ [] ++ latest_leaf_index
latest-ne-leaf k e = absurd (omega (arith, ap (λ (l : Bytes). get_or 0 l 1) e))

latest-ne-message : (k : Bytes) → message_prefix ++ k ≢ [] ++ latest_leaf_index
latest-ne-message k e = absurd (omega (arith, ap (λ (l : Bytes). get_or 0 l 0) e))

latest-ne-destination :
    (k : Bytes) → latest_leaf_index_for_destination ++ k ≢ [] ++ latest_leaf_index
latest-ne-destination k e = absurd (omega (arith, ap (λ (l : Bytes). get_or 0 l 24) e))

module _ (rocks : Rocks) (keccak : Bytes → Bytes) (entity : Bytes) where
  open rocks use {Store}

  abbrev latest : Store → Outcome (Option ℕ)
  latest s = retrieve_latest_leaf_index rocks keccak entity s

  abbrev state : {A : Type 0} → Outcome A × Store → Store
  state r = r.1

  latest-store_leaf_entry :
      (i : ℕ) (leaf : H256) (s : Store)
      → latest (store_keyed rocks keccak entity encode_u32 encode_h256 leaf_prefix i leaf s).1
        ≡ latest s
  unfolding retrieve_latest_leaf_index store_keyed
  latest-store_leaf_entry i leaf s =
      retrieve-store_other rocks keccak entity encode_h256 decode_u32 leaf_prefix
        (encode_u32.bytes i) [] latest_leaf_index leaf s (latest-ne-leaf (encode_u32.bytes i))

  latest-store_message :
      (leaf : H256) (m : RawCommittedMessage) (s : Store)
      → latest
          (store_keyed rocks keccak entity encode_h256 encode_raw_message message_prefix leaf m s).1
        ≡ latest s
  unfolding retrieve_latest_leaf_index store_keyed
  latest-store_message leaf m s =
      retrieve-store_other rocks keccak entity encode_raw_message decode_u32 message_prefix
        (encode_h256.bytes leaf) [] latest_leaf_index m s
        (latest-ne-message (encode_h256.bytes leaf))

  latest-update_destination :
      (d n : ℕ) (s : Store)
      → latest (update_latest_leaf_index_for_destination rocks keccak entity d n s).1 ≡ latest s
  unfolding retrieve_latest_leaf_index update_latest_leaf_index_for_destination store_keyed
  latest-update_destination d n s =
      elim (Bool-cases (
        is_stale rocks keccak entity
          (retrieve_latest_leaf_index_for_destination rocks keccak entity d s) n)) [
            | inl stale ↦ rw stale refl
            | inr newer ↦ rw newer (
                retrieve-store_other rocks keccak entity encode_u32 decode_u32
                  latest_leaf_index_for_destination (encode_u32.bytes d) [] latest_leaf_index n s
                  (latest-ne-destination (encode_u32.bytes d)))
          ]

  leaf_of-store_leaf_entry :
      (i j : ℕ) (leaf : H256) (s : Store)
      → IsU32 i
      → IsU32 j
      → i ≢ j
      → leaf_of rocks keccak entity i
          (store_keyed rocks keccak entity encode_u32 encode_h256 leaf_prefix j leaf s).1
        ≡ leaf_of rocks keccak entity i s
  unfolding leaf_by_leaf_index retrieve_keyed store_keyed
  leaf_of-store_leaf_entry i j leaf s u v ne =
      retrieve-store_other rocks keccak entity encode_h256 decode_h256 leaf_prefix
        (encode_u32.bytes j) leaf_prefix (encode_u32.bytes i) leaf s (leaf-ne i j u v ne)

  -- A message with an index of a u32 that is stored with success moves the latest index, which
  -- could be read before, up to its own, and leaves the leaf at every other index as it was.
  pub store_raw_committed_message-keeps :
      (m : RawCommittedMessage) (old : Option ℕ) (s s' : Store)
      → IsU32 m.leaf_index
      → retrieve_latest_leaf_index rocks keccak entity s ≡ ok old
      → store_raw_committed_message rocks keccak entity m s ≡ (ok tt, s')
      → (retrieve_latest_leaf_index rocks keccak entity s'
          ≡ ok (some (latest_after old m.leaf_index)))
        × ((i : ℕ)
            → IsU32 i
            → i ≢ m.leaf_index
            → leaf_by_leaf_index rocks keccak entity i s'
              ≡ leaf_by_leaf_index rocks keccak entity i s)
  unfolding store_raw_committed_message store_leaf
  store_raw_committed_message-keeps m old s s' u before e =
      let n = m.leaf_index in
      let (parsed, _, step) = read-eq-ok (λ t. lift (decode_message m.message)) _ s e in
      let (_, t, stored, last) =
        >>=-eq-ok (store_leaf rocks keccak entity n parsed.0.destination (raw_leaf keccak m)) _ s
          step in
      let (_, v, entered, rest) =
        >>=-eq-ok
          (store_keyed rocks keccak entity encode_u32 encode_h256 leaf_prefix n (raw_leaf keccak m))
          _ s stored in
      let (_, w, updated, final) =
        >>=-eq-ok (update_latest_leaf_index rocks keccak entity n) _ v rest in
      let at_v : latest v ≡ ok old =
        ap latest (sym (ap state entered))
        ∙ latest-store_leaf_entry n (raw_leaf keccak m) s
        ∙ before in
      (
        ap latest (sym (ap state last))
            ∙ latest-store_message (raw_leaf keccak m) m t
            ∙ ap latest (sym (ap state final))
            ∙ latest-update_destination parsed.0.destination n w
            ∙ retrieve-update_latest_leaf_index rocks keccak entity n old v w u at_v updated,
        λ i i32 ne.
            ap (leaf_of rocks keccak entity i) (sym (ap state last))
            ∙ leaf_of-store_message rocks keccak entity i (raw_leaf keccak m) m t
            ∙ ap (leaf_of rocks keccak entity i) (sym (ap state final))
            ∙ leaf_of-update_destination rocks keccak entity i parsed.0.destination n w
            ∙ ap (leaf_of rocks keccak entity i) (sym (ap state updated))
            ∙ leaf_of-update rocks keccak entity i n v
            ∙ ap (leaf_of rocks keccak entity i) (sym (ap state entered))
            ∙ leaf_of-store_leaf_entry i n (raw_leaf keccak m) s i32 u ne,
      )
