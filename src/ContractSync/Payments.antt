-- ===== src/ContractSync/Payments.antt =====
-- rust/abacus-base/src/contract_sync/interchain_gas.rs: the loop over the gas payments, whose ranges of
-- blocks overlap.
use ethmexico.Base.{
  ℕ, ◌+◌, ◌-◌, ◌%◌, ◌^◌, ◌≡◌, ◌≢◌, refl, sym, ap, subst, ◌∙◌, ◌++◌, leb, min, true, false,
  if◌then◌else◌, Bool-cases, Option, none, some, List, [], ◌∷◌, All, inl, inr,
}
use ethmexico.Base.Bytes.{Bytes, bytes_eq, bytes_eq→eq, bytes_eq_refl, append-cancel_left}
use ethmexico.Codec.{encode_bool, decode_bool, decode_u32}
use ethmexico.Codec.Laws.{bool-Reads}
use ethmexico.Types.{
  InterchainGasPaymentMeta, InterchainGasPaymentWithMeta, encode_gas_payment_meta,
}
use ethmexico.Db.Backend.{Rocks, Outcome, M, pure, ◌>>◌, >>=-eq-ok}
use ethmexico.Db.{
  retrieve_decodable, process_gas_payment, gas_payment_meta_processed,
  retrieve_gas_payment_meta_processed, store_gas_payment_meta_processed, store_keyed,
  retrieve_keyed,
}
use ethmexico.Db.Frame.{retrieve-store, retrieve-store_other}
use ethmexico.Db.Payments.{
  processed, processed-process, processed-update, process-cases, update-cases,
}
use ethmexico.ContractSync.{
  Chain, Ended, fine, failing, panicked, store_latest_indexed_gas_payment_block,
  latest_indexed_gas_payment_block,
}

meta-ne :
    (k j : Bytes)
    → bytes_eq k j ≡ false
    → gas_payment_meta_processed ++ k ≢ gas_payment_meta_processed ++ j
meta-ne k j h e =
    let same : k ≡ j = append-cancel_left gas_payment_meta_processed k j e in
    let yes : bytes_eq k j ≡ true = subst (λ x. bytes_eq k x ≡ true) same (bytes_eq_refl k) in cc

module _ (rocks : Rocks) (keccak : Bytes → Bytes) (entity : Bytes) where
  open rocks use {Store}

  -- The loop over the payments of a range.
  unfoldable pub process_all : List InterchainGasPaymentWithMeta → M Store (Unit {0})
  process_all [] = pure tt
  process_all (p ∷ ps) = process_gas_payment rocks keccak entity p >> process_all ps

  abbrev after_block : ℕ → ℕ → Outcome (Unit {0}) × Store → (ℕ × Store) × Ended
  after_block to from (Outcome.ok _, s) = (((to + 1) % 2 ^ 32, s), fine)
  after_block to from (Outcome.err e, s) = ((from, s), failing)
  after_block to from (Outcome.panic, s) = ((from, s), panicked)

  abbrev with_payments :
      ℕ → ℕ → ℕ → Store → Option (List InterchainGasPaymentWithMeta) → (ℕ × Store) × Ended
  with_payments chunk_size to from s none = ((from, s), failing)
  with_payments chunk_size to from s (some gas_payments) = after_block to from (
      (process_all gas_payments
          >> store_latest_indexed_gas_payment_block rocks keccak entity chunk_size to)
        s)

  abbrev with_payments_tip :
      ℕ → Chain InterchainGasPaymentWithMeta → ℕ → Store → Option ℕ → (ℕ × Store) × Ended
  with_payments_tip chunk_size chain from s none = ((from, s), fine)
  with_payments_tip chunk_size chain from s (some tip) =
      let to = min tip ((from + chunk_size) % 2 ^ 32) in
      if leb tip from
      then ((from, s), fine)
      else with_payments chunk_size to from s (chain.fetch (to - chunk_size) to)

  -- Where the indexer resumes; an error of the database is a panic.
  unfoldable pub resume_payments : ℕ → Store → Outcome ℕ
  resume_payments config_from s =
      elim (retrieve_decodable rocks keccak entity decode_u32 [] latest_indexed_gas_payment_block
        s) [
          | Outcome.ok (some b) ↦ Outcome.ok ((b + 1) % 2 ^ 32)
          | Outcome.ok none ↦ Outcome.ok config_from
          | Outcome.err e ↦ Outcome.panic
          | Outcome.panic ↦ Outcome.panic
        ]

  -- One turn of the loop of `sync_gas_payments`, from the next block to index.
  unfoldable pub payments_turn :
      ℕ → Chain InterchainGasPaymentWithMeta → ℕ × Store → (ℕ × Store) × Ended
  payments_turn chunk_size chain (from, s) =
      with_payments_tip chunk_size chain from s chain.finalized_block_number

  Known : InterchainGasPaymentMeta → Store → Type 0
  Known m s = processed rocks keccak entity m s ≡ Outcome.ok true

  Known-store :
      (m n : InterchainGasPaymentMeta) (s t : Store)
      → Known m s
      → store_gas_payment_meta_processed rocks keccak entity n s ≡ (Outcome.ok tt, t)
      → Known m t
  unfolding Known store_gas_payment_meta_processed retrieve_gas_payment_meta_processed store_keyed
      retrieve_keyed
  Known-store m n s t k h =
      elim (Bool-cases
        (bytes_eq (encode_gas_payment_meta.bytes n) (encode_gas_payment_meta.bytes m))) [
          | inl y ↦
              let key : encode_gas_payment_meta.bytes n ≡ encode_gas_payment_meta.bytes m =
                bytes_eq→eq _ _ y in
              rw (← key) (
                rw
                  (retrieve-store rocks keccak entity encode_bool decode_bool
                    gas_payment_meta_processed (encode_gas_payment_meta.bytes n) true s t
                    (bool-Reads true) h)
                  refl)
          | inr other ↦
              let after : (store_keyed rocks keccak entity encode_gas_payment_meta encode_bool
                    gas_payment_meta_processed n true s).1
                  ≡ t =
                ap (λ (r : Outcome (Unit {0}) × Store). r.1) h in
              rw (← after) (
                rw
                  (retrieve-store_other rocks keccak entity encode_bool decode_bool
                    gas_payment_meta_processed (encode_gas_payment_meta.bytes n)
                    gas_payment_meta_processed (encode_gas_payment_meta.bytes m) true s
                    (meta-ne _ _ other))
                  k)
        ]

  Known-process :
      (m : InterchainGasPaymentMeta) (p : InterchainGasPaymentWithMeta) (s s' : Store)
      → Known m s
      → process_gas_payment rocks keccak entity p s ≡ (Outcome.ok tt, s')
      → Known m s'
  unfolding Known
  Known-process m p s s' k h = elim (process-cases rocks keccak entity p s s' h) [
    | inl (_, same) ↦ rw same k
    | inr (t, _, stored, updated) ↦
        (let (old, _, _, written) = update-cases rocks keccak entity p.payment t s' updated in
          ap (processed rocks keccak entity m)
            (sym (ap (λ (r : Outcome (Unit {0}) × Store). r.1) written))
          ∙ processed-update rocks keccak entity m p.payment.leaf_index (old + p.payment.amount) t
          ∙ Known-store m p.meta s t k stored)
  ]

  Known-process_all :
      (ps : List InterchainGasPaymentWithMeta) (m : InterchainGasPaymentMeta) (s s' : Store)
      → Known m s
      → process_all ps s ≡ (Outcome.ok tt, s')
      → Known m s'
  unfolding process_all
  Known-process_all [] m s s' k h =
      subst (Known m) (ap (λ (r : Outcome (Unit {0}) × Store). r.1) h) k
  Known-process_all (p ∷ ps) m s s' k h =
      let (_, t, first, rest) =
        >>=-eq-ok (process_gas_payment rocks keccak entity p) (λ _. process_all ps) s h in
      Known-process_all ps m t s' (Known-process m p s t k first) rest

  process_all-Known :
      (ps : List InterchainGasPaymentWithMeta) (s s' : Store)
      → process_all ps s ≡ (Outcome.ok tt, s')
      → All (λ (p : InterchainGasPaymentWithMeta). Known p.meta s') ps
  unfolding process_all
  process_all-Known [] s s' h = tt
  process_all-Known (p ∷ ps) s s' h =
      let (_, t, first, rest) =
        >>=-eq-ok (process_gas_payment rocks keccak entity p) (λ _. process_all ps) s h in
      (
        Known-process_all ps p.meta t s'
            (unfold Known in (processed-process rocks keccak entity p s t first)) rest,
        process_all-Known ps t s' rest,
      )

  All-Known-process_all :
      (ps : List InterchainGasPaymentWithMeta) (s : Store)
      → All (λ (p : InterchainGasPaymentWithMeta). Known p.meta s) ps
      → process_all ps s ≡ (Outcome.ok tt, s)
  unfolding process_all process_gas_payment Known
  All-Known-process_all [] s all = refl
  All-Known-process_all (p ∷ ps) s (k, all) = rw k (All-Known-process_all ps s all)

  -- Once the payments of a range have been processed with success, processing the same range again
  -- succeeds and changes nothing: overlapping ranges do not count a payment twice.
  pub process_all_twice :
      (ps : List InterchainGasPaymentWithMeta) (s s' : Store)
      → process_all ps s ≡ (Outcome.ok tt, s')
      → process_all ps s' ≡ (Outcome.ok tt, s')
  process_all_twice ps s s' h = All-Known-process_all ps s' (process_all-Known ps s s' h)
