-- ===== src/Db/Payments.antt =====
-- `process_gas_payment` of rust/abacus-core/src/db/abacus_db.rs, for a payment that is new and for one
-- that is not.
use ethmexico.Base.{
  ℕ, get_or, ◌+◌, ◌^◌, ◌<◌, ◌≡◌, ◌≢◌, refl, sym, ap, if◌then◌else◌, ◌⊎◌, ◌∙◌, ◌++◌, Bool, true,
  false, inl, inr, arith,
}
use ethmexico.Base.Bytes.{Bytes}
use ethmexico.Codec.{encode_u32, encode_u256, encode_bool, decode_bool, decode_u256}
use ethmexico.Codec.Laws.{bool-Reads, u256-Reads}
use ethmexico.Types.{
  InterchainGasPayment, InterchainGasPaymentMeta, InterchainGasPaymentWithMeta,
  encode_gas_payment_meta,
}
use ethmexico.Db.Backend.{Rocks, Outcome, read-eq-ok, >>=-eq-ok, pure, ok, ◌>>◌}
use ethmexico.Db.{
  gas_payment_for_leaf, gas_payment_meta_processed, store_keyed, retrieve_keyed,
  retrieve_gas_payment_meta_processed, store_gas_payment_meta_processed,
  retrieve_gas_payment_for_leaf, update_gas_payment_for_leaf, process_gas_payment, add_u256,
}
use ethmexico.Db.Frame.{retrieve-store, retrieve-store_other}

keys_apart : (k j : Bytes) → gas_payment_for_leaf ++ k ≢ gas_payment_meta_processed ++ j
keys_apart k j e = absurd (omega (arith, ap (λ (l : Bytes). get_or 0 l 12) e))

keys_apart' : (k j : Bytes) → gas_payment_meta_processed ++ k ≢ gas_payment_for_leaf ++ j
keys_apart' k j e = absurd (omega (arith, ap (λ (l : Bytes). get_or 0 l 12) e))

module _ (rocks : Rocks) (keccak : Bytes → Bytes) (entity : Bytes) where
  open rocks use {Store}

  abbrev pub processed : InterchainGasPaymentMeta → Store → Outcome Bool
  processed = retrieve_gas_payment_meta_processed rocks keccak entity

  abbrev pub total : ℕ → Store → Outcome ℕ
  total = retrieve_gas_payment_for_leaf rocks keccak entity

  pub processed-store :
      (m : InterchainGasPaymentMeta) (s s' : Store)
      → store_gas_payment_meta_processed rocks keccak entity m s ≡ (ok tt, s')
      → processed m s' ≡ ok true
  unfolding store_gas_payment_meta_processed retrieve_gas_payment_meta_processed store_keyed
      retrieve_keyed
  processed-store m s s' h =
      rw
        (retrieve-store rocks keccak entity encode_bool decode_bool gas_payment_meta_processed
          (encode_gas_payment_meta.bytes m) true s s' (bool-Reads true) h)
        refl

  total-store_meta :
      (m : InterchainGasPaymentMeta) (leaf_index : ℕ) (s : Store)
      → total leaf_index (store_gas_payment_meta_processed rocks keccak entity m s).1
        ≡ total leaf_index s
  unfolding store_gas_payment_meta_processed retrieve_gas_payment_for_leaf store_keyed
      retrieve_keyed
  total-store_meta m leaf_index s =
      rw
        (retrieve-store_other rocks keccak entity encode_bool decode_u256 gas_payment_meta_processed
          (encode_gas_payment_meta.bytes m) gas_payment_for_leaf (encode_u32.bytes leaf_index) true
          s (keys_apart' _ _))
        refl

  -- What an update of the total does to a store.
  pub update-cases :
      (p : InterchainGasPayment) (s s' : Store)
      → update_gas_payment_for_leaf rocks keccak entity p s ≡ (ok tt, s')
      → (old : ℕ) × (total p.leaf_index s ≡ ok old)
        × (old + p.amount < 2 ^ 256)
        × (store_keyed rocks keccak entity encode_u32 encode_u256 gas_payment_for_leaf p.leaf_index
              (old + p.amount)
              s
            ≡ (ok tt, s'))
  unfolding update_gas_payment_for_leaf
  update-cases p s s' h =
      let (old, found, step) = read-eq-ok (total p.leaf_index) _ s h in
      let (sum, added, stored) =
        read-eq-ok (λ t. add_u256 rocks keccak entity old p.amount) _ s step in
      let fits : old + p.amount < 2 ^ 256 = ground arith in
      let value : old + p.amount ≡ sum = ground arith in (old, found, fits, rw value stored)

  -- A successful run on a new payment records it and adds its amount to the total of its leaf; on a
  -- known payment it changes nothing.
  pub process-cases :
      (p : InterchainGasPaymentWithMeta) (s s' : Store)
      → process_gas_payment rocks keccak entity p s ≡ (ok tt, s')
      → ((processed p.meta s ≡ ok true) × (s' ≡ s))
        ⊎ ((t : Store) × (processed p.meta s ≡ ok false)
            × (store_gas_payment_meta_processed rocks keccak entity p.meta s ≡ (ok tt, t))
            × (update_gas_payment_for_leaf rocks keccak entity p.payment t ≡ (ok tt, s')))
  unfolding process_gas_payment
  process-cases p s s' h =
      let (known, found, rest) = read-eq-ok (processed p.meta) _ s h in go known found rest
    where
      go :
          (known : Bool)
          → processed p.meta s ≡ ok known
          → (if known
                then pure tt
                else (store_gas_payment_meta_processed rocks keccak entity p.meta
                    >> update_gas_payment_for_leaf rocks keccak entity p.payment))
              s
            ≡ (ok tt, s')
          → ((processed p.meta s ≡ ok true) × (s' ≡ s))
            ⊎ ((t : Store) × (processed p.meta s ≡ ok false)
                × (store_gas_payment_meta_processed rocks keccak entity p.meta s ≡ (ok tt, t))
                × (update_gas_payment_for_leaf rocks keccak entity p.payment t ≡ (ok tt, s')))
      go true e r = inl (e, cc)
      go false e r =
          let (_, t, stored, updated) =
            >>=-eq-ok (store_gas_payment_meta_processed rocks keccak entity p.meta)
              (λ _. update_gas_payment_for_leaf rocks keccak entity p.payment) s r in
          inr (t, e, stored, updated)

  pub processed-update :
      (m : InterchainGasPaymentMeta) (leaf_index n : ℕ) (t : Store)
      → processed m
          (store_keyed rocks keccak entity encode_u32 encode_u256 gas_payment_for_leaf leaf_index n
            t).1
        ≡ processed m t
  unfolding retrieve_gas_payment_meta_processed store_keyed retrieve_keyed
  processed-update m leaf_index n t =
      rw
        (retrieve-store_other rocks keccak entity encode_u256 decode_bool gas_payment_for_leaf
          (encode_u32.bytes leaf_index) gas_payment_meta_processed (encode_gas_payment_meta.bytes m)
          n t (keys_apart _ _))
        refl

  total-update :
      (leaf_index n : ℕ) (t s' : Store)
      → n < 2 ^ 256
      → store_keyed rocks keccak entity encode_u32 encode_u256 gas_payment_for_leaf leaf_index n t
        ≡ (ok tt, s')
      → total leaf_index s' ≡ ok n
  unfolding retrieve_gas_payment_for_leaf store_keyed retrieve_keyed
  total-update leaf_index n t s' fits h =
      rw
        (retrieve-store rocks keccak entity encode_u256 decode_u256 gas_payment_for_leaf
          (encode_u32.bytes leaf_index) n t s' (u256-Reads n fits) h)
        refl

  pub processed-process :
      (p : InterchainGasPaymentWithMeta) (s s' : Store)
      → process_gas_payment rocks keccak entity p s ≡ (ok tt, s')
      → processed p.meta s' ≡ ok true
  processed-process p s s' h = elim (process-cases p s s' h) [
    | inl (known, same) ↦ rw same known
    | inr (t, fresh, stored, updated) ↦
        (let (old, found, fits, written) = update-cases p.payment t s' updated in
          ap (processed p.meta) (sym (ap (λ (r : Outcome (Unit {0}) × Store). r.1) written))
          ∙ processed-update p.meta p.payment.leaf_index (old + p.payment.amount) t
          ∙ processed-store p.meta s t stored)
  ]

  -- Processing a payment again, after a run that succeeded, succeeds and changes nothing.
  pub process_gas_payment_twice :
      (p : InterchainGasPaymentWithMeta) (s s' : Store)
      → process_gas_payment rocks keccak entity p s ≡ (ok tt, s')
      → process_gas_payment rocks keccak entity p s' ≡ (ok tt, s')
  unfolding process_gas_payment
  process_gas_payment_twice p s s' h = rw (processed-process p s s' h) refl

  -- A run that succeeds on a payment that was not recorded before adds its amount to the total of its
  -- leaf, and records it.
  pub process_gas_payment_new :
      (p : InterchainGasPaymentWithMeta) (s s' : Store)
      → process_gas_payment rocks keccak entity p s ≡ (ok tt, s')
      → processed p.meta s ≡ ok false
      → (old : ℕ) × (total p.payment.leaf_index s ≡ ok old)
        × (total p.payment.leaf_index s' ≡ ok (old + p.payment.amount))
        × (processed p.meta s' ≡ ok true)
  process_gas_payment_new p s s' h new = elim (process-cases p s s' h) [
    | inl (known, same) ↦ cc (known, new)
    | inr (t, fresh, stored, updated) ↦
        (let (old, found, fits, written) = update-cases p.payment t s' updated in
          (
            old,
            rw (ap (λ (r : Outcome (Unit {0}) × Store). total p.payment.leaf_index r.1) stored) at
                  (sym (total-store_meta p.meta p.payment.leaf_index s))
                ∙ found,
            total-update p.payment.leaf_index (old + p.payment.amount) t s' fits written,
            processed-process p s s' h,
          ))
  ]
