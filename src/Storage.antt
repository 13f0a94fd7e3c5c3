-- ===== src/Storage.antt =====
-- rust/abacus-base/src/types: where a validator's signed checkpoints are kept, in files
-- (local_storage.rs) or on S3 (s3_storage.rs), and the choice of one of the two (checkpoint_syncer.rs).
-- The logs of the tracing crate are left out.
pub mod Shelf
pub mod Local
pub mod S3
pub mod Syncers
use ethmexico.Base.{
  ℕ, ltb, ◌<◌, ◌≡◌, ◌≢◌, refl, Bool, true, false, if◌then◌else◌, Option, none, some, List, [], ◌∷◌,
  ◌++◌, any, ◌==◌, IsU32,
}
use ethmexico.Base.Bytes.{Bytes, codes}
use ethmexico.Base.Decimal.{decimal, parse_u32, is_utf8}
use ethmexico.Types.{SignedCheckpoint}
use ethmexico.Multisig.{CheckpointSyncer}

-- The name of a file in a directory.
abbrev pub IsName : Bytes → Type 0
IsName name = any (λ c. c == b'/') name ≡ false

abbrev pub in_dir : Bytes → Bytes → Bytes
in_dir dir name = dir ++ (b'/' ∷ name)

-- The tokio crate's `fs::read`, `none` where it returns an error, and `fs::write`, with whether it
-- succeeds. A file that was written has its new contents. Whether it was or not, the other files of
-- its directory are as they were.
pub record Files : Type 1 where
  pub Disk : Type 0
  pub read : Disk → Bytes → Option Bytes
  pub write : Bytes → Bytes → Disk → Bool × Disk
  pub read-write :
      (path contents : Bytes) (d d' : Disk)
      → write path contents d ≡ (true, d')
      → read d' path ≡ some contents
  pub read-write_other :
      (dir name other contents : Bytes) (d : Disk)
      → IsName name
      → IsName other
      → name ≢ other
      → read (write (in_dir dir name) contents d).1 (in_dir dir other) ≡ read d (in_dir dir other)

-- What the rusoto crate's `get_object` answers, its body read to the end. `failed` is an error other
-- than `NoSuchKey`, or one of the body's stream.
pub data Object : Type 0 where
  body : Bytes → Object
  no_body no_such_key failed : Object

-- The rusoto crate's clients: the names of regions, and the requests `get_object` and `put_object`, by
-- region, bucket and key. An object is overwritten as a whole, and no other one is.
pub record Client : Type 1 where
  pub Region : Type 0
  pub parse_region : Bytes → Option Region
  pub Objects : Type 0
  pub get_object : Region → Bytes → Bytes → Objects → Object
  pub put_object : Region → Bytes → Bytes → Bytes → Objects → Bool × Objects
  pub get-put :
      (region : Region) (bucket key contents : Bytes) (o o' : Objects)
      → put_object region bucket key contents o ≡ (true, o')
      → get_object region bucket key o' ≡ body contents
  pub get-put_other :
      (region : Region) (bucket key other contents : Bytes) (o : Objects)
      → key ≢ other
      → get_object region bucket other (put_object region bucket key contents o).1
        ≡ get_object region bucket other o

-- The serde_json crate: `to_string_pretty` and `from_slice` for a signed checkpoint, and `from_slice`
-- for a u32; `none` is an error.
pub record Json (S : Type 0) : Type 0 where
  pub to_string_pretty : SignedCheckpoint S → Option Bytes
  pub from_slice : Bytes → Option (SignedCheckpoint S)
  pub u32_from_slice : Bytes → Option ℕ
  pub from-to_string_pretty :
      (c : SignedCheckpoint S) (text : Bytes)
      → to_string_pretty c ≡ some text
      → from_slice text ≡ some c
  pub u32_from_slice-decimal : (n : ℕ) → IsU32 n → u32_from_slice (decimal n) ≡ some n

-- An operation on what is stored; `none` is an error, and what was written before it stays written.
abbrev pub M : Type 0 → Type 0 → Type 0
M S A = S → Option A × S

abbrev pub proceed : {S A B : Type 0} → (A → M S B) → Option A × S → Option B × S
proceed f (none, s) = (none, s)
proceed f (some a, s) = f a s

infixl 5 ◌>>=◌ ◌>>◌
abbrev pub ◌>>=◌ : {S A B : Type 0} → M S A → (A → M S B) → M S B
◌>>=◌ m f s = proceed f (m s)

abbrev pub ◌>>◌ : {S B : Type 0} → M S (Unit {0}) → M S B → M S B
◌>>◌ m k s = proceed (λ _. k) (m s)

abbrev pub pure : {S A : Type 0} → A → M S A
pure a s = (some a, s)

-- An operation that only reads.
abbrev pub reading : {S A : Type 0} → (S → Option A) → M S A
reading f s = (f s, s)

-- `?` on the answer of a write.
abbrev pub succeed : {S : Type 0} → Bool × S → Option (Unit {0}) × S
succeed (true, s) = (some tt, s)
succeed (false, s) = (none, s)

-- `transpose` of a parse of what was read.
abbrev pub parsed : {A : Type 0} → (Bytes → Option A) → Option Bytes → Option (Option A)
parsed f none = some none
parsed f (some contents) = elim (f contents) [ none ↦ none | some a ↦ some (some a) ]

-- A sequence that succeeds went through its first part.
pub reading-eq-ok :
    {S A B : Type 0} (g : S → Option A) (f : A → M S B) (s : S) {b : B} {s' : S}
    → (reading g >>= f) s ≡ (some b, s')
    → (a : A) × (g s ≡ some a) × (f a s ≡ (some b, s'))
reading-eq-ok {A} g f s {b} {s'} h = go (g s) refl h
  where
    go :
        (o : Option A)
        → g s ≡ o
        → proceed f (o, s) ≡ (some b, s')
        → (a : A) × (g s ≡ some a) × (f a s ≡ (some b, s'))
    go (some a) e h' = (a, e, h')
    go none e h' = cc

pub writing-eq-ok :
    {S B : Type 0} (w : S → Bool × S) (k : M S B) (s : S) {b : B} {s' : S}
    → ((λ t. succeed (w t)) >> k) s ≡ (some b, s')
    → (t : S) × (w s ≡ (true, t)) × (k t ≡ (some b, s'))
writing-eq-ok {S} w k s {b} {s'} h = go (w s) refl h
  where
    go :
        (r : Bool × S)
        → w s ≡ r
        → proceed (λ _. k) (succeed r) ≡ (some b, s')
        → (t : S) × (w s ≡ (true, t)) × (k t ≡ (some b, s'))
    go (true, t) e h' = (t, e, h')
    go (false, t) e h' = cc

pub >>-eq-ok :
    {S B : Type 0} (m : M S (Unit {0})) (k : M S B) (s : S) {b : B} {s' : S}
    → (m >> k) s ≡ (some b, s')
    → (t : S) × (m s ≡ (some tt, t)) × (k t ≡ (some b, s'))
>>-eq-ok {S} m k s {b} {s'} h = go (m s) refl h
  where
    go :
        (r : Option (Unit {0}) × S)
        → m s ≡ r
        → proceed (λ _. k) r ≡ (some b, s')
        → (t : S) × (m s ≡ (some tt, t)) × (k t ≡ (some b, s'))
    go (some tt, t) e h' = (t, e, h')
    go (none, t) e h' = cc

pub succeed-eq-ok :
    {S : Type 0} (r : Bool × S) {s' : S} → succeed r ≡ (some tt, s') → r ≡ (true, s')
succeed-eq-ok (true, s) h = cc
succeed-eq-ok (false, s) h = cc
