-- ===== src/Tests/Store.antt =====
-- Storing messages, leaves and payments.
use ethmexico.Base.{ℕ, ◌≡◌, ◌≢◌, refl, ◌+◌, true, false, some, [], ◌∷◌, IsU32, arith, replicate}
use ethmexico.Base.Bytes.{bytes_eq}
use ethmexico.Codec
use ethmexico.Codec.{encode_u32, decode_u32, read_exact}
use ethmexico.Codec.Words.{be_bytes, le_bytes, from_le}
use ethmexico.Types.{
  InterchainGasPaymentWithMeta, encode_message, decode_message, raw_leaf, encode_gas_payment_meta,
}
use ethmexico.Db.Backend.{ok}
use ethmexico.Db.{
  store_raw_committed_message, store_leaf, store_keyed, store_encodable, prefix_store, full_key,
  update_latest_leaf_index, update_latest_leaf_index_for_destination, retrieve_latest_leaf_index,
  retrieve_decodable, prefix_retrieve, leaf_by_leaf_index, message_by_leaf_index, retrieve_keyed,
  process_gas_payment, retrieve_gas_payment_meta_processed, retrieve_gas_payment_for_leaf,
  store_gas_payment_meta_processed, update_gas_payment_for_leaf,
  retrieve_latest_leaf_index_for_destination,
}
use ethmexico.Db.Latest.{latest_after}
use ethmexico.Db.Messages.{message_by_leaf_index-store}
use ethmexico.Db.Order.{store_raw_committed_message-keeps}
use ethmexico.Db.Payments.{process_gas_payment_new}
use ethmexico.ContractSync.Payments.{process_all, process_all_twice}
use ethmexico.Tests.Setting.{
  toy_hash, toy_hash-IsH256, FunctionStore, map_rocks, entity, empty_store, raw_hello, raw_goodbye,
  store_one, store_two,
}

pub stored_hello :
    store_raw_committed_message map_rocks toy_hash entity raw_hello empty_store ≡ (ok tt, store_one)
unfolding store_raw_committed_message store_leaf store_keyed store_encodable prefix_store
    decode_message read_exact encode_message be_bytes update_latest_leaf_index
    retrieve_latest_leaf_index retrieve_decodable prefix_retrieve bytes_eq full_key
    update_latest_leaf_index_for_destination retrieve_latest_leaf_index_for_destination
    retrieve_keyed
stored_hello = refl

pub stored_goodbye :
    store_raw_committed_message map_rocks toy_hash entity raw_goodbye store_one ≡ (ok tt, store_two)
unfolding store_raw_committed_message store_leaf store_keyed store_encodable prefix_store
    decode_message read_exact encode_message be_bytes update_latest_leaf_index
    retrieve_latest_leaf_index retrieve_decodable prefix_retrieve bytes_eq full_key
    update_latest_leaf_index_for_destination retrieve_latest_leaf_index_for_destination
    retrieve_keyed decode_u32 encode_u32 ethmexico.Codec.Words.from_be_loop
stored_goodbye = refl

pub latest_one : retrieve_latest_leaf_index map_rocks toy_hash entity store_one ≡ ok (some 0)
unfolding store_raw_committed_message store_leaf store_keyed store_encodable prefix_store
    decode_message read_exact encode_message be_bytes update_latest_leaf_index
    retrieve_latest_leaf_index retrieve_decodable prefix_retrieve bytes_eq full_key
    update_latest_leaf_index_for_destination retrieve_latest_leaf_index_for_destination
    retrieve_keyed decode_u32 encode_u32 ethmexico.Codec.Words.from_be_loop
latest_one = refl

message_by_leaf_index-store_example :
    (leaf_by_leaf_index map_rocks toy_hash entity 0 store_one
      ≡ ok (some (raw_leaf toy_hash raw_hello)))
    × (message_by_leaf_index map_rocks toy_hash entity 0 store_one ≡ ok (some raw_hello))
message_by_leaf_index-store_example =
    message_by_leaf_index-store map_rocks toy_hash entity raw_hello empty_store store_one
      (omega arith) toy_hash-IsH256 stored_hello

store_raw_committed_message-keeps_example :
    (retrieve_latest_leaf_index map_rocks toy_hash entity store_two
      ≡ ok (some (latest_after (some 0) 1)))
    × ((i : ℕ)
        → IsU32 i
        → i ≢ 1
        → leaf_by_leaf_index map_rocks toy_hash entity i store_two
          ≡ leaf_by_leaf_index map_rocks toy_hash entity i store_one)
store_raw_committed_message-keeps_example =
    store_raw_committed_message-keeps map_rocks toy_hash entity raw_goodbye (some 0) store_one
      store_two (omega arith) latest_one stored_goodbye

abbrev store_seven : FunctionStore
store_seven = (update_latest_leaf_index map_rocks toy_hash entity 7 store_one).1

updated_seven :
    update_latest_leaf_index map_rocks toy_hash entity 7 store_one ≡ (ok tt, store_seven)
unfolding store_raw_committed_message store_leaf store_keyed store_encodable prefix_store
    decode_message read_exact encode_message be_bytes update_latest_leaf_index
    retrieve_latest_leaf_index retrieve_decodable prefix_retrieve bytes_eq full_key
    update_latest_leaf_index_for_destination retrieve_latest_leaf_index_for_destination
    retrieve_keyed decode_u32 encode_u32 ethmexico.Codec.Words.from_be_loop
updated_seven = refl

abbrev pub payment : InterchainGasPaymentWithMeta
payment = record {
  payment = record { leaf_index = 0; amount = 250 };
  meta = record { transaction_hash = replicate 32 9; log_index = 4 };
}

abbrev pub store_paid : FunctionStore
store_paid = (process_gas_payment map_rocks toy_hash entity payment store_one).1

paid : process_gas_payment map_rocks toy_hash entity payment store_one ≡ (ok tt, store_paid)
unfolding store_raw_committed_message store_leaf store_keyed store_encodable prefix_store
    decode_message read_exact encode_message be_bytes update_latest_leaf_index
    retrieve_latest_leaf_index retrieve_decodable prefix_retrieve bytes_eq full_key
    update_latest_leaf_index_for_destination retrieve_latest_leaf_index_for_destination
    retrieve_keyed process_gas_payment retrieve_gas_payment_meta_processed
    store_gas_payment_meta_processed update_gas_payment_for_leaf retrieve_gas_payment_for_leaf
    encode_gas_payment_meta le_bytes from_le
paid = refl

unpaid :
    retrieve_gas_payment_meta_processed map_rocks toy_hash entity (payment.meta) store_one
    ≡ ok false
unfolding store_raw_committed_message store_leaf store_keyed store_encodable prefix_store
    decode_message read_exact encode_message be_bytes update_latest_leaf_index
    retrieve_latest_leaf_index retrieve_decodable prefix_retrieve bytes_eq full_key
    update_latest_leaf_index_for_destination retrieve_latest_leaf_index_for_destination
    retrieve_keyed process_gas_payment retrieve_gas_payment_meta_processed
    store_gas_payment_meta_processed update_gas_payment_for_leaf retrieve_gas_payment_for_leaf
    encode_gas_payment_meta le_bytes from_le
unpaid = refl

process_gas_payment_new_example :
    (old : ℕ) × (retrieve_gas_payment_for_leaf map_rocks toy_hash entity 0 store_one ≡ ok old)
    × (retrieve_gas_payment_for_leaf map_rocks toy_hash entity 0 store_paid ≡ ok (old + 250))
    × (retrieve_gas_payment_meta_processed map_rocks toy_hash entity (payment.meta) store_paid
        ≡ ok true)
process_gas_payment_new_example =
    process_gas_payment_new map_rocks toy_hash entity payment store_one store_paid paid unpaid

abbrev pub store_all_paid : FunctionStore
store_all_paid = (process_all map_rocks toy_hash entity (payment ∷ (payment ∷ [])) store_one).1

all_paid :
    process_all map_rocks toy_hash entity (payment ∷ (payment ∷ [])) store_one
    ≡ (ok tt, store_all_paid)
unfolding store_raw_committed_message store_leaf store_keyed store_encodable prefix_store
    decode_message read_exact encode_message be_bytes update_latest_leaf_index
    retrieve_latest_leaf_index retrieve_decodable prefix_retrieve bytes_eq full_key
    update_latest_leaf_index_for_destination retrieve_latest_leaf_index_for_destination
    retrieve_keyed process_gas_payment retrieve_gas_payment_meta_processed
    store_gas_payment_meta_processed update_gas_payment_for_leaf retrieve_gas_payment_for_leaf
    encode_gas_payment_meta le_bytes from_le process_all Codec.decode_bool Codec.encode_bool
all_paid = refl

process_all_twice_example :
    process_all map_rocks toy_hash entity (payment ∷ (payment ∷ [])) store_all_paid
    ≡ (ok tt, store_all_paid)
process_all_twice_example =
    process_all_twice map_rocks toy_hash entity (payment ∷ (payment ∷ [])) store_one store_all_paid
      all_paid

pub leaf_hello :
    leaf_by_leaf_index map_rocks toy_hash entity 0 store_one
    ≡ ok (some (raw_leaf toy_hash raw_hello))
leaf_hello =
    (message_by_leaf_index-store map_rocks toy_hash entity raw_hello empty_store store_one
      (omega arith) toy_hash-IsH256 stored_hello).0
