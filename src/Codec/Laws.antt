-- ===== src/Codec/Laws.antt =====
-- The encodings of rust/abacus-core/src/traits/encode.rs and their decodings, one after the other.
use ethmexico.Base.{
  ℕ, zero, suc, ◌^◌, ◌≤◌, ◌<◌, ◌≡◌, refl, sym, ap, subst, [], ◌∷◌, ◌++◌, length, length-append,
  take, drop, ltb, le→ltb, lt→ltb, take-append, drop-append, length-take, All, IsU32, IsU64, arith,
  true, false, Bool,
}
use ethmexico.Base.Bytes.{Bytes, H256}
use ethmexico.Codec.Words.{
  IsByte, be_bytes, from_be, le_bytes, length-be_bytes, length-le_bytes, from_be-be_bytes,
  from_le-le_bytes, be_bytes-from_be, from_be-lt,
}
use ethmexico.Codec.{
  Result, ok, err, unexpected_eof, Encode, Decode, read_exact, encode_h256, decode_h256,
  encode_u256, decode_u256, ◌>>=◌, encode_u32, decode_u32, encode_u64, decode_u64, encode_bool,
  decode_bool,
}

abbrev pub IsH256 : H256 → Type 0
IsH256 h = length h ≡ 32

pub read_exact-append :
    (n : ℕ) (xs rest : Bytes) → length xs ≡ n → read_exact n (xs ++ rest) ≡ ok (xs, rest)
unfolding read_exact
read_exact-append n xs rest e = rw (← e) (
    rw
      (
        le→ltb (length (xs ++ rest)) (length xs) (omega (arith, length-append xs rest)),
        take-append xs rest,
        drop-append xs rest,
      )
      refl)

take-drop : (n : ℕ) (xs : Bytes) → take n xs ++ drop n xs ≡ xs
take-drop zero xs = refl
take-drop (suc n) [] = refl
take-drop (suc n) (x ∷ xs) = ap (◌∷◌ x) (take-drop n xs)

gt→le : (a b : ℕ) → ltb a b ≡ false → b ≤ a
gt→le a b h = ground arith

-- A successful `read_exact` splits the input.
pub read_exact_inv :
    (n : ℕ) (reader buf rest : Bytes)
    → read_exact n reader ≡ ok (buf, rest)
    → (length buf ≡ n) × (buf ++ rest ≡ reader)
unfolding read_exact
read_exact_inv n reader buf rest e = ground (arith, length-take n reader, take-drop n reader)

-- Too short an input is an error.
pub read_exact_short :
    (n : ℕ) (reader : Bytes) → length reader < n → read_exact n reader ≡ err unexpected_eof
unfolding read_exact
read_exact_short n reader h = rw (lt→ltb (length reader) n h) refl

-- `d` reads back what `e` wrote, whatever follows it.
abbrev pub Reads : {A : Type 0} → Encode A → Decode A → A → Type 0
Reads e d a = (rest : Bytes) → d (e.bytes a ++ rest) ≡ ok (a, rest)

pub h256-Reads : (h : H256) → IsH256 h → Reads encode_h256 decode_h256 h
unfolding encode_h256 decode_h256
h256-Reads h n rest = read_exact-append 32 h rest n

pub u32-Reads : (v : ℕ) → IsU32 v → Reads encode_u32 decode_u32 v
unfolding encode_u32 decode_u32
u32-Reads v h rest =
    rw (read_exact-append 4 (be_bytes 4 v) rest (length-be_bytes 4 v))
      (rw (from_be-be_bytes 4 v h) refl)

pub u64-Reads : (v : ℕ) → IsU64 v → Reads encode_u64 decode_u64 v
unfolding encode_u64 decode_u64
u64-Reads v h rest =
    rw (read_exact-append 8 (be_bytes 8 v) rest (length-be_bytes 8 v))
      (rw (from_be-be_bytes 8 v h) refl)

pub u256-Reads : (v : ℕ) → v < 2 ^ 256 → Reads encode_u256 decode_u256 v
unfolding encode_u256 decode_u256
u256-Reads v h rest =
    rw (read_exact-append 32 (le_bytes 32 v) rest (length-le_bytes 32 v))
      (rw (from_le-le_bytes 32 v h) refl)

pub bool-Reads : (b : Bool) → Reads encode_bool decode_bool b
unfolding encode_bool decode_bool read_exact
bool-Reads true rest = rw (read_exact-append 1 (1 ∷ []) rest refl) refl
bool-Reads false rest = rw (read_exact-append 1 (0 ∷ []) rest refl) refl

All-append_inv : (xs ys : Bytes) → All IsByte (xs ++ ys) → All IsByte xs × All IsByte ys
All-append_inv [] ys h = (tt, h)
All-append_inv (x ∷ xs) ys h = let (front, back) = All-append_inv xs ys h.1 in ((h.0, front), back)

-- A chain that succeeds had a first step that succeeds.
pub >>=-eq-ok :
    {Value Next : Type 0} (first : Result Value) (continue : Value → Result Next) {last : Next}
    → first >>= continue ≡ ok last
    → (value : Value) × (first ≡ ok value) × (continue value ≡ ok last)
>>=-eq-ok (err failure) continue run = cc
>>=-eq-ok (ok value) continue run = (value, refl, run)

-- What `d` reads is what `e` would have written there.
abbrev pub Canonical : {A : Type 0} → Encode A → Decode A → Type 0
Canonical {A} e d =
    (reader rest : Bytes) (a : A)
    → All IsByte reader
    → d reader ≡ ok (a, rest)
    → (e.bytes a ++ rest ≡ reader) × All IsByte rest

pub read_exact-Canonical :
    (n : ℕ) (reader buf rest : Bytes)
    → All IsByte reader
    → read_exact n reader ≡ ok (buf, rest)
    → (length buf ≡ n) × (buf ++ rest ≡ reader) × All IsByte buf × All IsByte rest
read_exact-Canonical n reader buf rest h e =
    let (size, split) = read_exact_inv n reader buf rest e in
    let (front, back) = All-append_inv buf rest (subst (All IsByte) (sym split) h) in
    (size, split, front, back)

pub h256-Canonical : Canonical encode_h256 decode_h256
unfolding encode_h256 decode_h256
h256-Canonical reader rest a h e =
    let (size, split, front, back) = read_exact-Canonical 32 reader a rest h e in (split, back)

pub u32-Canonical : Canonical encode_u32 decode_u32
unfolding encode_u32 decode_u32
u32-Canonical reader rest v h e =
    let ((buf, tail), read, done) = >>=-eq-ok (read_exact 4 reader) _ e in
    let (size, split, front, back) = read_exact-Canonical 4 reader buf tail h read in
    let value : from_be buf ≡ v = cc in
    let left : tail ≡ rest = cc in
    (
      rw (← value, ← left) (rw (be_bytes-from_be 4 buf size front) split),
      subst (All IsByte) left back,
    )

-- A `u32` that was read is in its range.
pub decode_u32-IsU32 :
    (reader rest : Bytes) (v : ℕ) → All IsByte reader → decode_u32 reader ≡ ok (v, rest) → IsU32 v
unfolding decode_u32
decode_u32-IsU32 reader rest v h e =
    let ((buf, tail), read, done) = >>=-eq-ok (read_exact 4 reader) _ e in
    let (size, split, front, back) = read_exact-Canonical 4 reader buf tail h read in
    let value : from_be buf ≡ v = cc in rw (← value) (rw size at (from_be-lt buf front))
