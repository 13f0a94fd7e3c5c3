-- ===== src/Db/Latest.antt =====
-- The latest known leaf index of rust/abacus-core/src/db/abacus_db.rs.
use ethmexico.Base.{
  ℕ, ◌≤◌, ◌≡◌, sym, ap, ◌∙◌, [], leb, Bool-cases, inl, inr, false, Option, some, none, max, IsU32,
  arith, leb→le,
}
use ethmexico.Base.Bytes.{Bytes}
use ethmexico.Codec.{encode_u32, decode_u32}
use ethmexico.Codec.Laws.{u32-Reads}
use ethmexico.Db.Backend.{Rocks, Outcome, ok}
use ethmexico.Db.{latest_leaf_index, retrieve_latest_leaf_index, update_latest_leaf_index, is_stale}
use ethmexico.Db.Frame.{retrieve-store}

-- The latest index once `leaf_index` has been seen.
abbrev pub latest_after : Option ℕ → ℕ → ℕ
latest_after none leaf_index = leaf_index
latest_after (some idx) leaf_index = max idx leaf_index

max_left : (a b : ℕ) → b ≤ a → max a b ≡ a
max_left a b h = omega arith

max_right : (a b : ℕ) → leb b a ≡ false → max a b ≡ b
max_right a b h = ground arith

module _ (rocks : Rocks) (keccak : Bytes → Bytes) (entity : Bytes) where
  open rocks use {Store}

  -- An update to a u32 that succeeds leaves the greater of the index that was stored, which could
  -- be read, and the new one, so the index never goes back.
  pub retrieve-update_latest_leaf_index :
      (leaf_index : ℕ) (old : Option ℕ) (s s' : Store)
      → IsU32 leaf_index
      → retrieve_latest_leaf_index rocks keccak entity s ≡ ok old
      → update_latest_leaf_index rocks keccak entity leaf_index s ≡ (ok tt, s')
      → retrieve_latest_leaf_index rocks keccak entity s' ≡ ok (some (latest_after old leaf_index))
  unfolding update_latest_leaf_index
  retrieve-update_latest_leaf_index i none s s' u e h =
      unfold retrieve_latest_leaf_index in
      retrieve-store rocks keccak entity encode_u32 decode_u32 [] latest_leaf_index i s s'
        (u32-Reads i u) (rw (e, is_stale) at h)
  retrieve-update_latest_leaf_index i (some idx) s s' u e h = elim (Bool-cases (leb i idx)) [
    | inl stale ↦
        (let same : s ≡ s' = ap (λ (r : Outcome (Unit {0}) × Store). r.1) (rw (e, stale) at h) in
          rw (← same) (e ∙ ap (λ (n : ℕ). ok (some n)) (sym (max_left idx i (leb→le _ _ stale)))))
    | inr newer ↦
        unfold retrieve_latest_leaf_index in
        retrieve-store rocks keccak entity encode_u32 decode_u32 [] latest_leaf_index i s s'
          (u32-Reads i u) (rw (e, newer) at h)
        ∙ ap (λ (n : ℕ). ok (some n)) (sym (max_right idx i newer))
  ]
