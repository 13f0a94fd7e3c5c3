-- ===== src/Storage/Local/Refines.antt =====
-- The files of rust/abacus-base/src/types/local_storage.rs as a shelf of checkpoints whose latest index
-- is the highest.
use ethmexico.Base.{
  ℕ, ◌≡◌, ◌≢◌, refl, sym, ap, subst, ◌∙◌, ◌==◌, ==→eq, ltb, max, Bool, true, if◌then◌else◌,
  Bool-cases, inl, inr, Option, none, some, List, [], ◌∷◌, All, IsU32, arith,
}
use ethmexico.Base.Bytes.{Bytes}
use ethmexico.Base.Decimal.{decimal, parse_u32-decimal, is_utf8-decimal}
use ethmexico.Types.{SignedCheckpoint}
use ethmexico.Storage.{
  Files, Json, in_dir, M, ◌>>=◌, ◌>>◌, reading, succeed, parsed, reading-eq-ok, writing-eq-ok,
  >>-eq-ok, succeed-eq-ok,
}
use ethmexico.Storage.Shelf.{Shelf, Shows, if_some, highest, put_highest, put_all}
use ethmexico.Storage.Local.{
  LocalStorage, checkpoint_file_path, latest_index_file_path, write_index, latest_index, index_of,
  raise_index, fetch_checkpoint, write_checkpoint, write_all, syncer,
}
use ethmexico.Storage.Local.Paths.{
  checkpoint_name, index_name, checkpoint_name-IsName, checkpoint_name-ne, index_name-ne,
  index_name-IsName,
}

module _ {S : Type 0} (files : Files) (json : Json S) (l : LocalStorage) where
  open files use {Disk, read, write, read-write, read-write_other}
  open json use {to_string_pretty, from_slice, from-to_string_pretty}

  index_path : latest_index_file_path l ≡ in_dir l.path index_name
  unfolding latest_index_file_path
  index_path = refl

  checkpoint_path : (i : ℕ) → checkpoint_file_path l i ≡ in_dir l.path (checkpoint_name i)
  unfolding checkpoint_file_path
  checkpoint_path i = refl

  -- What a write of the file of one index leaves.
  checkpoint_write :
      (i : ℕ) (contents : Bytes) (d : Disk)
      → IsU32 i
      → (read (write (checkpoint_file_path l i) contents d).1 (latest_index_file_path l)
          ≡ read d (latest_index_file_path l))
        × ((j : ℕ)
            → IsU32 j
            → i ≢ j
            → read (write (checkpoint_file_path l i) contents d).1 (checkpoint_file_path l j)
              ≡ read d (checkpoint_file_path l j))
  unfolding checkpoint_file_path latest_index_file_path
  checkpoint_write i contents d hi = (
    read-write_other l.path (checkpoint_name i) index_name contents d (checkpoint_name-IsName i)
        index_name-IsName (λ e. index_name-ne i (sym e)),
    λ j hj ne.
        read-write_other l.path (checkpoint_name i) (checkpoint_name j) contents d
          (checkpoint_name-IsName i) (checkpoint_name-IsName j) (checkpoint_name-ne i j hi hj ne),
  )

  index_write :
      (contents : Bytes) (d : Disk) (j : ℕ)
      → read (write (latest_index_file_path l) contents d).1 (checkpoint_file_path l j)
        ≡ read d (checkpoint_file_path l j)
  unfolding checkpoint_file_path latest_index_file_path
  index_write contents d j =
      read-write_other l.path index_name (checkpoint_name j) contents d index_name-IsName
        (checkpoint_name-IsName j) (index_name-ne j)

  -- The index file after a write of it that succeeded.
  write_index-latest :
      (i : ℕ) (d d' : Disk)
      → IsU32 i
      → write_index S files json l i d ≡ (some tt, d')
      → (latest_index S files json l d' ≡ some (some i))
        × ((j : ℕ) → fetch_checkpoint S files json l j d' ≡ fetch_checkpoint S files json l j d)
  unfolding write_index latest_index fetch_checkpoint
  write_index-latest i d d' hi h =
      let w = succeed-eq-ok (write (latest_index_file_path l) (decimal i) d) h in
      (
        rw (read-write (latest_index_file_path l) (decimal i) d d' w)
            (rw (is_utf8-decimal i) (rw (parse_u32-decimal i hi, parsed) refl)),
        λ j. ap (parsed from_slice) (
            ap (λ r. read r (checkpoint_file_path l j)) (sym (ap (λ (r : Bool × Disk). r.1) w))
            ∙ index_write (decimal i) d j),
      )

  raise_index-highest :
      (i : ℕ) (current : Option ℕ) (d d' : Disk)
      → IsU32 i
      → latest_index S files json l d ≡ some current
      → raise_index S files json l i current d ≡ (some tt, d')
      → (latest_index S files json l d' ≡ some (some (highest S current i)))
        × ((j : ℕ) → fetch_checkpoint S files json l j d' ≡ fetch_checkpoint S files json l j d)
  raise_index-highest i none d d' hi shown h = write_index-latest i d d' hi h
  raise_index-highest i (some k) d d' hi shown h = elim (Bool-cases (ltb k i)) [
    | inl y ↦
        let (a, b) = write_index-latest i d d' hi (rw y at h) in
        (a ∙ ap (λ (n : ℕ). some (some n)) (ground arith), b)
    | inr m ↦
        let same : ◌≡◌ {A = Option (Unit {0}) × Disk} (some tt, d) (some tt, d') = rw m at h in
        let e : d ≡ d' = ap (λ (r : Option (Unit {0}) × Disk). r.1) same in
        let top : k ≡ max k i = ground arith in
        (
          ap (latest_index S files json l) (sym e) ∙ shown ∙ ap (λ (n : ℕ). some (some n)) top,
          λ j. ap (fetch_checkpoint S files json l j) (sym e),
        )
  ]

  -- What a write of a checkpoint's file that succeeds leaves to read.
  checkpoint_file :
      (c : SignedCheckpoint S) (text : Bytes) (d d1 : Disk)
      → IsU32 c.checkpoint.index
      → to_string_pretty c ≡ some text
      → write (checkpoint_file_path l c.checkpoint.index) text d ≡ (true, d1)
      → (latest_index S files json l d1 ≡ latest_index S files json l d)
        × ((j : ℕ)
            → IsU32 j
            → fetch_checkpoint S files json l j d1 ≡ (
                if j == c.checkpoint.index
                then some (some c)
                else fetch_checkpoint S files json l j d))
  unfolding latest_index fetch_checkpoint
  checkpoint_file c text d d1 hi t w =
      let index = c.checkpoint.index in
      let e : (write (checkpoint_file_path l index) text d).1 ≡ d1 =
        ap (λ (r : Bool × Disk). r.1) w in
      let (index_kept, others) = checkpoint_write index text d hi in
      (
        ap index_of (ap (λ x. read x (latest_index_file_path l)) (sym e) ∙ index_kept),
        λ j hj. elim (Bool-cases (j == index)) [
          | inl y ↦ rw y (
              rw (==→eq j index y) (
                rw (read-write (checkpoint_file_path l index) text d d1 w)
                  (rw (from-to_string_pretty c text t, parsed) refl)))
          | inr n ↦ rw n (
              ap (parsed from_slice) (
                ap (λ x. read x (checkpoint_file_path l j)) (sym e)
                ∙ others j hj (λ same. ground arith)))
        ],
      )

  -- The rest of a write, from its text on.
  write_text-Shows :
      (c : SignedCheckpoint S) (text : Bytes) (shelf : Shelf S) (d d1 d' : Disk)
      → IsU32 c.checkpoint.index
      → to_string_pretty c ≡ some text
      → Shows S (syncer S files json l d) shelf
      → write (checkpoint_file_path l c.checkpoint.index) text d ≡ (true, d1)
      → raise_index S files json l c.checkpoint.index shelf.latest d1 ≡ (some tt, d')
      → Shows S (syncer S files json l d') (put_highest S c shelf)
  unfolding syncer put_highest
  write_text-Shows c text shelf d d1 d' hi t shows w h =
      let index = c.checkpoint.index in
      let (latest_kept, stored) = checkpoint_file c text d d1 hi t w in
      let (latest', kept) =
        raise_index-highest index shelf.latest d1 d' hi (latest_kept ∙ shows.latest_shown) h in
      record {
        latest_shown = latest';
        checkpoints_shown = λ j hj.
            kept j ∙ stored j hj ∙ if_some (j == index) (some c) (shows.checkpoints_shown j hj);
      }

  latest_shown_at :
      (d : Disk) (shelf : Shelf S)
      → Shows S (syncer S files json l d) shelf
      → latest_index S files json l d ≡ some shelf.latest
  unfolding syncer
  latest_shown_at d shelf shows = shows.latest_shown

  abbrev rest_of_index : SignedCheckpoint S → M Disk (Unit {0})
  rest_of_index c =
      reading (latest_index S files json l) >>= raise_index S files json l c.checkpoint.index

  abbrev rest_of_text : SignedCheckpoint S → Bytes → M Disk (Unit {0})
  rest_of_text c text =
      (λ d. succeed (write (checkpoint_file_path l c.checkpoint.index) text d)) >> rest_of_index c

  -- A write that succeeds puts its checkpoint on the shelf.
  write_checkpoint-Shows :
      (c : SignedCheckpoint S) (shelf : Shelf S) (d d' : Disk)
      → IsU32 c.checkpoint.index
      → Shows S (syncer S files json l d) shelf
      → write_checkpoint S files json l c d ≡ (some tt, d')
      → Shows S (syncer S files json l d') (put_highest S c shelf)
  unfolding write_checkpoint
  write_checkpoint-Shows c shelf d d' hi shows h =
      let index = c.checkpoint.index in
      let (text, t, h0) = reading-eq-ok (λ _. to_string_pretty c) (rest_of_text c) d h in
      let (d1, w, h1) =
        writing-eq-ok (write (checkpoint_file_path l index) text) (rest_of_index c) d h0 in
      let (current, k, h2) =
        reading-eq-ok (latest_index S files json l) (raise_index S files json l index) d1 h1 in
      let (latest_kept, _) = checkpoint_file c text d d1 hi t w in
      let same : some current ≡ some shelf.latest =
        sym k ∙ latest_kept ∙ latest_shown_at d shelf shows in
      let e : current ≡ shelf.latest = cc in
      write_text-Shows c text shelf d d1 d' hi t shows w (rw (← e) h2)

  -- Signed checkpoints with indices of a u32 that are written one after the other with success, to
  -- files that show a shelf, leave files that show the shelf with these checkpoints put on it in order:
  -- at each index the last one that was written there, and as the latest index the highest one.
  pub files-Shows :
      (cs : List (SignedCheckpoint S)) (shelf : Shelf S) (d d' : Disk)
      → All (λ (c : SignedCheckpoint S). IsU32 c.checkpoint.index) cs
      → Shows S (syncer S files json l d) shelf
      → write_all S files json l cs d ≡ (some tt, d')
      → Shows S (syncer S files json l d') (put_all S (put_highest S) cs shelf)
  unfolding write_all put_all
  files-Shows [] shelf d d' hs shows h =
      subst (λ x. Shows S (syncer S files json l x) shelf)
        (ap (λ (r : Option (Unit {0}) × Disk). r.1) h) shows
  files-Shows (c ∷ cs) shelf d d' (hi, hs) shows h =
      let (d1, h1, h2) =
        >>-eq-ok (write_checkpoint S files json l c) (write_all S files json l cs) d h in
      files-Shows cs (put_highest S c shelf) d1 d' hs
        (write_checkpoint-Shows c shelf d d1 hi shows h1) h2
