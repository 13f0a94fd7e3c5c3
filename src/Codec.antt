-- ===== src/Codec.antt =====
-- rust/abacus-core/src/traits/encode.rs: the canonical encodings. A writer is the list of bytes
-- written so far, as `to_vec` uses it; a reader is the list of bytes that are left.
pub mod Words
pub mod Laws
use ethmexico.Base.{
  ℕ, zero, suc, ◌+◌, ◌-◌, ◌==◌, ltb, Bool, true, false, if◌then◌else◌, List, [], ◌∷◌, ◌++◌, length,
  take, drop,
}
use ethmexico.Base.Bytes.{Bytes, H256}
use Words.{be_bytes, from_be, le_bytes, from_le}

-- `AbacusError`, without the payloads of foreign errors.
pub data AbacusError : Type 0 where
  unexpected_eof invalid_data : AbacusError
  invalid_signature_length : ℕ → AbacusError

pub data Result {ℓ} (A : Type ℓ) : Type ℓ where
  err : AbacusError → Result A
  ok : A → Result A

-- `?` on a result.
infixl 5 ◌>>=◌
abbrev pub ◌>>=◌ {ℓ κ} :
    {Value : Type ℓ} {Next : Type κ} → Result Value → (Value → Result Next) → Result Next
err e >>= continue = err e
ok value >>= continue = continue value

-- What a `write_to` does: the bytes that it writes, and the count that it returns.
pub record Encode (A : Type 0) : Type 0 where
  pub bytes : A → Bytes
  pub written : A → ℕ

abbrev pub Decode : Type 0 → Type 0
Decode A = Bytes → Result (A × Bytes)

-- `read_exact` into a buffer of `n` bytes.
unfoldable pub read_exact : ℕ → Decode Bytes
read_exact n reader =
    if ltb (length reader) n then err unexpected_eof else ok (take n reader, drop n reader)

-- `read_to_end`.
abbrev pub read_to_end : Decode Bytes
read_to_end reader = ok (reader, [])

unfoldable pub encode_h256 : Encode H256
encode_h256 = record { bytes = λ h. h; written = λ h. 32 }

unfoldable pub decode_h256 : Decode H256
decode_h256 = read_exact 32

-- `U256` is a number below 2 ^ 256.
unfoldable pub encode_u256 : Encode ℕ
encode_u256 = record { bytes = le_bytes 32; written = λ n. 32 }

unfoldable pub decode_u256 : Decode ℕ
decode_u256 reader = do (buf, rest) ← read_exact 32 reader; ok (from_le buf, rest)

unfoldable pub encode_u32 : Encode ℕ
encode_u32 = record { bytes = be_bytes 4; written = λ n. 4 }

unfoldable pub decode_u32 : Decode ℕ
decode_u32 reader = do (buf, rest) ← read_exact 4 reader; ok (from_be buf, rest)

unfoldable pub encode_u64 : Encode ℕ
encode_u64 = record { bytes = be_bytes 8; written = λ n. 8 }

unfoldable pub decode_u64 : Decode ℕ
decode_u64 reader = do (buf, rest) ← read_exact 8 reader; ok (from_be buf, rest)

unfoldable pub encode_bool : Encode Bool
encode_bool = record { bytes = λ b. (if b then 1 else 0) ∷ []; written = λ b. 1 }

bool_of : Bytes → Result Bool
bool_of [] = err invalid_data
bool_of (b ∷ bs) = if b == 0 then ok false else if b == 1 then ok true else err invalid_data

unfoldable pub decode_bool : Decode Bool
unfolding bool_of
decode_bool reader = do (buf, rest) ← read_exact 1 reader; b ← bool_of buf; ok (b, rest)

-- The ethers crate's `Signature`: its 65 bytes, and `Signature::try_from` on 65 of them.
module _ (Signature : Type 0) (signature_bytes : Signature → Bytes)
    (signature_of : Bytes → Result Signature) where
  unfoldable pub encode_signature : Encode Signature
  encode_signature = record { bytes = signature_bytes; written = λ s. 65 }

  -- One `read` into a buffer of 65 bytes takes what is there.
  unfoldable pub decode_signature : Decode Signature
  decode_signature reader =
      let len = length (take 65 reader) in
      if len == 65
      then (do s ← signature_of (take 65 reader); ok (s, drop 65 reader))
      else err (invalid_signature_length len)
