-- ===== src/Tests/Shelves.antt =====
-- The stores of checkpoints, with files and objects that are functions.
use mathlib.Core.List.{append_cancel_left}
use ethmexico.Base.{
  ℕ, ◌≡◌, ◌≢◌, refl, sym, ap, ◌∙◌, Option, none, some, List, [], ◌∷◌, ◌++◌, Bool, true, false,
  if◌then◌else◌, Bool-cases, inl, inr, replicate, arith,
}
use ethmexico.Base.Bytes.{Bytes, bytes_eq, bytes_eq_refl, bytes_eq→eq, codes}
use ethmexico.Base.Decimal.{decimal, parse_u32, parse_u32-decimal, is_utf8}
use ethmexico.Types.{SignedCheckpoint}
use ethmexico.Storage.{Files, Client, Json, IsName, in_dir, Object, body, no_such_key}
use ethmexico.Storage.Shelf.{Shelf, Shows, put_highest, put_last, put_all}
use ethmexico.Storage.Local
use ethmexico.Storage.Local.{LocalStorage}
use ethmexico.Storage.Local.Refines.{files-Shows}
use ethmexico.Storage.S3
use ethmexico.Storage.S3.{S3Storage}
use ethmexico.Storage.S3.Refines.{bucket-Shows}

abbrev FunctionDisk : Type 0
FunctionDisk = Bytes → Option Bytes

abbrev write_file : Bytes → Bytes → FunctionDisk → Bool × FunctionDisk
write_file path contents d = (true, λ k. if bytes_eq path k then some contents else d k)

read_file-write :
    (path contents : Bytes) (d d' : FunctionDisk)
    → write_file path contents d ≡ (true, d')
    → d' path ≡ some contents
read_file-write path contents d d' h =
    ap (λ (r : Bool × FunctionDisk). r.1 path) (sym h) ∙ rw (bytes_eq_refl path) refl

missed : (a b : Bytes) → a ≢ b → bytes_eq a b ≡ false
missed a b ne = elim (Bool-cases (bytes_eq a b)) [
  | inl y ↦ absurd (ne (bytes_eq→eq a b y))
  | inr n ↦ n
]

read_file-write_other :
    (dir name other contents : Bytes) (d : FunctionDisk)
    → IsName name
    → IsName other
    → name ≢ other
    → (write_file (in_dir dir name) contents d).1 (in_dir dir other) ≡ d (in_dir dir other)
read_file-write_other dir name other contents d h k ne =
    rw
      (missed (in_dir dir name) (in_dir dir other)
        (λ e. ne (tail_eq (append_cancel_left dir (b'/' ∷ name) (b'/' ∷ other) e))))
      refl
  where
    tail_eq : b'/' ∷ name ≡ b'/' ∷ other → name ≡ other
    tail_eq e = cc

abbrev function_files : Files
function_files = record {
  Disk = FunctionDisk;
  read = λ d path. d path;
  write = write_file;
  read-write = read_file-write;
  read-write_other = read_file-write_other;
}

-- A checkpoint's numbers and its root.
abbrev to_text : SignedCheckpoint ℕ → Option Bytes
to_text c =
    some (c.checkpoint.outbox_domain ∷ (c.checkpoint.index ∷ (c.signature ∷ c.checkpoint.root)))

abbrev of_text : Bytes → Option (SignedCheckpoint ℕ)
of_text [] = none
of_text (d ∷ []) = none
of_text (d ∷ (i ∷ [])) = none
of_text (d ∷ (i ∷ (s ∷ root))) =
    some
      (record { checkpoint = record { outbox_domain = d; root = root; index = i }; signature = s })

of_text-to_text :
    (c : SignedCheckpoint ℕ) (text : Bytes) → to_text c ≡ some text → of_text text ≡ some c
of_text-to_text c text h =
    let e : c.checkpoint.outbox_domain ∷ (c.checkpoint.index ∷ (c.signature ∷ c.checkpoint.root))
        ≡ text =
      cc in
    rw (← e) refl

abbrev toy_json : Json ℕ
toy_json = record {
  to_string_pretty = to_text;
  from_slice = of_text;
  u32_from_slice = parse_u32;
  from-to_string_pretty = of_text-to_text;
  u32_from_slice-decimal = parse_u32-decimal;
}

abbrev at_index : ℕ → SignedCheckpoint ℕ
at_index i = record {
  checkpoint = record { outbox_domain = 1000; root = replicate 2 i; index = i };
  signature = 11;
}

-- A later index, then an earlier one.
abbrev written : List (SignedCheckpoint ℕ)
written = at_index 12 ∷ (at_index 7 ∷ [])

abbrev empty_shelf : Shelf ℕ
empty_shelf = record { checkpoints = λ index. none; latest = none }

abbrev storage : LocalStorage
storage = record { path = codes "/tmp/checkpoints" }

abbrev empty_disk : FunctionDisk
empty_disk path = none

empty_disk-Shows : Shows ℕ (Local.syncer ℕ function_files toy_json storage empty_disk) empty_shelf
unfolding Local.syncer Local.latest_index Local.fetch_checkpoint
empty_disk-Shows = record { latest_shown = refl; checkpoints_shown = λ index h. refl }

abbrev full_disk : FunctionDisk
full_disk = (Local.write_all ℕ function_files toy_json storage written empty_disk).1

disk_written :
    Local.write_all ℕ function_files toy_json storage written empty_disk ≡ (some tt, full_disk)
unfolding Local.write_all Local.write_checkpoint Local.latest_index Local.write_index
    Local.checkpoint_file_path Local.latest_index_file_path bytes_eq decimal is_utf8 parse_u32
disk_written = refl

files-Shows_example :
    Shows ℕ
      (Local.syncer ℕ function_files toy_json storage full_disk)
      (put_all ℕ (put_highest ℕ) written empty_shelf)
files-Shows_example =
    files-Shows function_files toy_json storage written empty_shelf empty_disk full_disk
      (omega arith, (omega arith, tt)) empty_disk-Shows disk_written

-- The objects of a bucket in one region.
abbrev FunctionObjects : Type 0
FunctionObjects = Bytes → Option Bytes

abbrev object_of : Option Bytes → Object
object_of none = no_such_key
object_of (some contents) = body contents

abbrev get_from : Unit {0} → Bytes → Bytes → FunctionObjects → Object
get_from region bucket key o = object_of (o (bucket ++ (b'/' ∷ key)))

abbrev put_into : Unit {0} → Bytes → Bytes → Bytes → FunctionObjects → Bool × FunctionObjects
put_into region bucket key contents o = write_file (bucket ++ (b'/' ∷ key)) contents o

pub get-put_into :
    (region : Unit {0}) (bucket key contents : Bytes) (o o' : FunctionObjects)
    → put_into region bucket key contents o ≡ (true, o')
    → get_from region bucket key o' ≡ body contents
get-put_into region bucket key contents o o' h =
    ap object_of (read_file-write (bucket ++ (b'/' ∷ key)) contents o o' h)

pub get-put_into_other :
    (region : Unit {0}) (bucket key other contents : Bytes) (o : FunctionObjects)
    → key ≢ other
    → get_from region bucket other (put_into region bucket key contents o).1
      ≡ get_from region bucket other o
get-put_into_other region bucket key other contents o ne =
    ap (λ (b : Bool). object_of (if b then some contents else o (bucket ++ (b'/' ∷ other))))
      (missed (bucket ++ (b'/' ∷ key)) (bucket ++ (b'/' ∷ other))
        (λ e. ne (tail_eq (append_cancel_left bucket (b'/' ∷ key) (b'/' ∷ other) e))))
  where
    tail_eq : b'/' ∷ key ≡ b'/' ∷ other → key ≡ other
    tail_eq e = cc

abbrev pub function_client : Client
function_client = record {
  Region = Unit {0};
  parse_region = λ name. some tt;
  Objects = FunctionObjects;
  get_object = get_from;
  put_object = put_into;
  get-put = get-put_into;
  get-put_other = get-put_into_other;
}

abbrev bucket_storage : S3Storage (Unit {0})
bucket_storage = record { bucket = codes "validator"; region = tt }

empty_bucket-Shows :
    Shows ℕ (S3.syncer ℕ function_client toy_json bucket_storage empty_disk) empty_shelf
unfolding S3.syncer S3.latest_index S3.fetch_checkpoint
empty_bucket-Shows = record { latest_shown = refl; checkpoints_shown = λ index h. refl }

abbrev full_bucket : FunctionObjects
full_bucket = (S3.write_all ℕ function_client toy_json bucket_storage written empty_disk).1

bucket_written :
    S3.write_all ℕ function_client toy_json bucket_storage written empty_disk
    ≡ (some tt, full_bucket)
unfolding S3.write_all S3.write_checkpoint
bucket_written = refl

bucket-Shows_example :
    Shows ℕ
      (S3.syncer ℕ function_client toy_json bucket_storage full_bucket)
      (put_all ℕ (put_last ℕ) written empty_shelf)
bucket-Shows_example =
    bucket-Shows function_client toy_json bucket_storage written empty_shelf empty_disk full_bucket
      (omega arith, (omega arith, tt)) empty_bucket-Shows bucket_written

-- The highest index is 12, and the bucket's latest index is 7.
latest_of_both :
    (Local.latest_index ℕ function_files toy_json storage full_disk ≡ some (some 12))
    × (S3.latest_index ℕ function_client toy_json bucket_storage full_bucket ≡ some (some 7))
unfolding Local.write_all Local.write_checkpoint Local.latest_index Local.write_index
    Local.checkpoint_file_path Local.latest_index_file_path bytes_eq decimal is_utf8 parse_u32
    S3.write_all S3.write_checkpoint S3.latest_index
latest_of_both = (refl, refl)
