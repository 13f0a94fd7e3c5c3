-- ===== src/Tests/Setting.antt =====
-- The hash, the store and the messages of the tests.
use ethmexico.Base.{
  ◌≡◌, ◌≢◌, refl, Option, none, some, if◌then◌else◌, Bool-cases, inl, inr, replicate,
}
use ethmexico.Base.Bytes.{Bytes, H256, bytes_eq, bytes_eq_refl, bytes_eq→eq, codes}
use ethmexico.Codec.Words.{be_bytes, from_be_loop, length-be_bytes}
use ethmexico.Codec.Laws.{IsH256}
use ethmexico.Types.{AbacusMessage, RawCommittedMessage, encode_message}
use ethmexico.Db.Backend.{Rocks}
use ethmexico.Db.{store_raw_committed_message}

-- The last bytes, and the number of all.
unfoldable pub toy_hash : Bytes → H256
toy_hash bytes = be_bytes 32 (from_be_loop 7 bytes)

pub toy_hash-IsH256 : (bytes : Bytes) → IsH256 (toy_hash bytes)
unfolding toy_hash
toy_hash-IsH256 bytes = length-be_bytes 32 (from_be_loop 7 bytes)

abbrev pub FunctionStore : Type 0
FunctionStore = Bytes → Option Bytes

abbrev put_value : FunctionStore → Bytes → Bytes → Option FunctionStore
put_value s key value = some (λ k. if bytes_eq key k then some value else s k)

abbrev get_value : FunctionStore → Bytes → Option (Option Bytes)
get_value s key = some (s key)

pub get_value-put :
    (s s' : FunctionStore) (key value : Bytes)
    → put_value s key value ≡ some s'
    → get_value s' key ≡ some (some value)
get_value-put s s' key value h =
    let same : (λ k. if bytes_eq key k then some value else s k) ≡ s' = cc in
    rw (← same) (rw (bytes_eq_refl key) refl)

pub get_value-put_other :
    (s s' : FunctionStore) (key other value : Bytes)
    → put_value s key value ≡ some s'
    → key ≢ other
    → get_value s' other ≡ get_value s other
get_value-put_other s s' key other value h ne =
    let same : (λ k. if bytes_eq key k then some value else s k) ≡ s' = cc in
    rw (← same) (elim (Bool-cases (bytes_eq key other)) [
      | inl hit ↦ absurd (ne (bytes_eq→eq key other hit))
      | inr miss ↦ rw miss refl
    ])

abbrev pub map_rocks : Rocks
map_rocks = record {
  Store = FunctionStore;
  put = put_value;
  get = get_value;
  get-put = get_value-put;
  get-put_other = get_value-put_other;
}

abbrev pub empty_store : FunctionStore
empty_store key = none

abbrev pub entity : Bytes
entity = codes "outbox"

abbrev pub hello : AbacusMessage
hello = record {
  origin = 1000;
  sender = replicate 32 1;
  destination = 43113;
  recipient = replicate 32 2;
  body = codes "hello";
}

abbrev pub goodbye : AbacusMessage
goodbye = record {
  origin = 1000;
  sender = replicate 32 1;
  destination = 43113;
  recipient = replicate 32 3;
  body = codes "bye";
}

abbrev pub raw_hello : RawCommittedMessage
raw_hello = record { leaf_index = 0; message = encode_message.bytes hello }

abbrev pub raw_goodbye : RawCommittedMessage
raw_goodbye = record { leaf_index = 1; message = encode_message.bytes goodbye }

abbrev pub store_one : FunctionStore
store_one = (store_raw_committed_message map_rocks toy_hash entity raw_hello empty_store).1

abbrev pub store_two : FunctionStore
store_two = (store_raw_committed_message map_rocks toy_hash entity raw_goodbye store_one).1
