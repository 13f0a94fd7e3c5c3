-- ===== src/Storage/S3/Refines.antt =====
-- The objects of rust/abacus-base/src/types/s3_storage.rs as a shelf of checkpoints whose latest index
-- is the last one that was written.
use mathlib.Core.List.{append_cancel_right}
use ethmexico.Base.{
  ℕ, ◌≡◌, ◌≢◌, refl, sym, ap, subst, ◌∙◌, ◌==◌, ==→eq, Bool, true, if◌then◌else◌, Bool-cases, inl,
  inr, Option, some, List, [], ◌∷◌, ◌++◌, All, IsU32, arith,
}
use ethmexico.Base.Bytes.{Bytes, codes, append-cancel_left}
use ethmexico.Base.Decimal.{decimal, decimal-injective, decimal-IsDigit, IsDigit}
use ethmexico.Types.{SignedCheckpoint}
use ethmexico.Storage.{
  Client, Json, ◌>>◌, succeed, parsed, reading-eq-ok, writing-eq-ok, >>-eq-ok, succeed-eq-ok,
}
use ethmexico.Storage.Shelf.{Shelf, Shows, if_some, put_last, put_all}
use ethmexico.Storage.S3.{
  S3Storage, checkpoint_key, index_key, contents_of, and_parsed, write_to_bucket, latest_index,
  fetch_checkpoint, write_checkpoint, write_all, syncer,
}

digits-ne-latest : (s : Bytes) → All IsDigit s → s ++ codes ".json" ≢ codes "latest_index.json"
digits-ne-latest [] h e = cc
digits-ne-latest (c ∷ cs) (d, ds) e = let head : c ≡ b'l' = cc in absurd (omega (arith, head, d))

index_key-ne : (i : ℕ) → checkpoint_key i ≢ index_key
unfolding checkpoint_key
index_key-ne i e = digits-ne-latest (decimal i) (decimal-IsDigit i) (
    append-cancel_left (codes "checkpoint_") (decimal i ++ codes ".json")
      (codes "latest_index.json") e)

checkpoint_key-ne : (i j : ℕ) → IsU32 i → IsU32 j → i ≢ j → checkpoint_key i ≢ checkpoint_key j
unfolding checkpoint_key
checkpoint_key-ne i j hi hj ne e = ne (
    decimal-injective i j hi hj (
      append_cancel_right (decimal i) (decimal j) (codes ".json")
        (append-cancel_left (codes "checkpoint_") _ _ e)))

module _ {S : Type 0} (client : Client) (json : Json S) (storage : S3Storage client.Region) where
  open client use {Objects, get_object, put_object, get-put, get-put_other}
  open json use {to_string_pretty, from_slice, from-to_string_pretty, u32_from_slice-decimal}

  -- What two writes that succeed leave to read.
  objects_after :
      (c : SignedCheckpoint S) (text : Bytes) (o o1 o' : Objects)
      → IsU32 c.checkpoint.index
      → to_string_pretty c ≡ some text
      → put_object storage.region storage.bucket (checkpoint_key c.checkpoint.index) text o
        ≡ (true, o1)
      → put_object storage.region storage.bucket index_key (decimal c.checkpoint.index) o1
        ≡ (true, o')
      → (latest_index S client json storage o' ≡ some (some c.checkpoint.index))
        × ((j : ℕ)
            → IsU32 j
            → fetch_checkpoint S client json storage j o' ≡ (
                if j == c.checkpoint.index
                then some (some c)
                else fetch_checkpoint S client json storage j o))
  unfolding latest_index fetch_checkpoint
  objects_after c text o o1 o' hi t w w' =
      let index = c.checkpoint.index in
      let get = get_object storage.region storage.bucket in
      let put = put_object storage.region storage.bucket in
      let e : (put (checkpoint_key index) text o).1 ≡ o1 = ap (λ (r : Bool × Objects). r.1) w in
      let e' : (put index_key (decimal index) o1).1 ≡ o' = ap (λ (r : Bool × Objects). r.1) w' in
      let kept : (j : ℕ) → get (checkpoint_key j) o' ≡ get (checkpoint_key j) o1 = λ j.
        ap (get (checkpoint_key j)) (sym e')
        ∙ get-put_other storage.region storage.bucket index_key (checkpoint_key j) (decimal index)
            o1 (λ same. index_key-ne j (sym same)) in
      (
        rw (get-put storage.region storage.bucket index_key (decimal index) o1 o' w')
            (rw (u32_from_slice-decimal index hi, parsed) refl),
        λ j hj. elim (Bool-cases (j == index)) [
          | inl y ↦ rw y (
              rw (kept j) (
                rw (==→eq j index y) (
                  rw (get-put storage.region storage.bucket (checkpoint_key index) text o o1 w)
                    (rw (from-to_string_pretty c text t, parsed) refl))))
          | inr n ↦ rw n (
              ap (λ x. and_parsed from_slice (contents_of x))
                (kept j
                  ∙ ap (get (checkpoint_key j)) (sym e)
                  ∙ get-put_other storage.region storage.bucket (checkpoint_key index)
                      (checkpoint_key j) text o
                      (checkpoint_key-ne index j hi hj (λ same. ground arith))))
        ],
      )

  checkpoints_at :
      (o : Objects) (shelf : Shelf S)
      → Shows S (syncer S client json storage o) shelf
      → (j : ℕ) → IsU32 j
      → fetch_checkpoint S client json storage j o ≡ some (shelf.checkpoints j)
  unfolding syncer
  checkpoints_at o shelf shows = shows.checkpoints_shown

  -- A write that succeeds puts its checkpoint on the shelf.
  write_checkpoint-Shows :
      (c : SignedCheckpoint S) (shelf : Shelf S) (o o' : Objects)
      → IsU32 c.checkpoint.index
      → Shows S (syncer S client json storage o) shelf
      → write_checkpoint S client json storage c o ≡ (some tt, o')
      → Shows S (syncer S client json storage o') (put_last S c shelf)
  unfolding write_checkpoint write_to_bucket syncer put_last
  write_checkpoint-Shows c shelf o o' hi shows h =
      let index = c.checkpoint.index in
      let put = put_object storage.region storage.bucket in
      let (text, t, h0) =
        reading-eq-ok (λ _. to_string_pretty c)
          (λ contents.
            (λ x. succeed (put (checkpoint_key index) contents x))
            >> (λ x. succeed (put index_key (decimal index) x)))
          o h in
      let (o1, w, h1) =
        writing-eq-ok (put (checkpoint_key index) text)
          (λ x. succeed (put index_key (decimal index) x)) o h0 in
      let w' = succeed-eq-ok (put index_key (decimal index) o1) h1 in
      let (latest', stored) = objects_after c text o o1 o' hi t w w' in
      record {
        latest_shown = latest';
        checkpoints_shown =
            λ j hj. stored j hj ∙ if_some (j == index) (some c) (checkpoints_at o shelf shows j hj);
      }

  -- Signed checkpoints with indices of a u32 that are written one after the other with success, to a
  -- bucket that shows a shelf, leave a bucket that shows the shelf with these checkpoints put on it in
  -- order: at each index the last one that was written there, and as the latest index the one that was
  -- written last, whether or not a higher one was written before.
  pub bucket-Shows :
      (cs : List (SignedCheckpoint S)) (shelf : Shelf S) (o o' : Objects)
      → All (λ (c : SignedCheckpoint S). IsU32 c.checkpoint.index) cs
      → Shows S (syncer S client json storage o) shelf
      → write_all S client json storage cs o ≡ (some tt, o')
      → Shows S (syncer S client json storage o') (put_all S (put_last S) cs shelf)
  unfolding write_all put_all
  bucket-Shows [] shelf o o' hs shows h =
      subst (λ x. Shows S (syncer S client json storage x) shelf)
        (ap (λ (r : Option (Unit {0}) × Objects). r.1) h) shows
  bucket-Shows (c ∷ cs) shelf o o' (hi, hs) shows h =
      let (o1, h1, h2) =
        >>-eq-ok (write_checkpoint S client json storage c) (write_all S client json storage cs) o
          h in
      bucket-Shows cs (put_last S c shelf) o1 o' hs
        (write_checkpoint-Shows c shelf o o1 hi shows h1) h2
