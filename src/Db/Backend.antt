-- ===== src/Db/Backend.antt =====
-- The rocksdb crate as rust/abacus-core/src/db/mod.rs uses it, and the effects of the operations
-- over it.
use ethmexico.Base.{◌≡◌, ◌≢◌, refl, ◌⊎◌, inl, inr, Option, some}
use ethmexico.Base.Bytes.{Bytes}
use ethmexico.Codec
use ethmexico.Codec.{AbacusError}

-- `put` and `get` answer `none` where the crate returns an error. A value that was put is found under
-- its key, and no other key changes.
pub record Rocks : Type 1 where
  pub Store : Type 0
  pub put : Store → Bytes → Bytes → Option Store
  pub get : Store → Bytes → Option (Option Bytes)
  pub get-put :
      (s s' : Store) (key value : Bytes)
      → put s key value ≡ some s'
      → get s' key ≡ some (some value)
  pub get-put_other :
      (s s' : Store) (key other value : Bytes)
      → put s key value ≡ some s'
      → key ≢ other
      → get s' other ≡ get s other

pub data DbError : Type 0 where
  rock_error : DbError
  abacus_error : AbacusError → DbError

-- `panic` is an overflow of the `U256` addition.
pub data Outcome {ℓ} (A : Type ℓ) : Type ℓ where
  ok : A → Outcome A
  err : DbError → Outcome A
  panic : Outcome A

-- An operation on the store: what was written before an error stays written.
abbrev pub M : Type 0 → Type 0 → Type 0
M S A = S → Outcome A × S

abbrev pub proceed : {S A B : Type 0} → (A → M S B) → Outcome A × S → Outcome B × S
proceed f (ok a, s) = f a s
proceed f (err e, s) = (err e, s)
proceed f (panic, s) = (panic, s)

infixl 5 ◌>>=◌ ◌>>◌
abbrev pub ◌>>=◌ : {S A B : Type 0} → M S A → (A → M S B) → M S B
◌>>=◌ m f s = proceed f (m s)

abbrev pub ◌>>◌ : {S B : Type 0} → M S (Unit {0}) → M S B → M S B
◌>>◌ m k s = proceed (λ _. k) (m s)

abbrev pub pure : {S A : Type 0} → A → M S A
pure a s = (ok a, s)

-- An operation that only reads.
abbrev pub read : {S A : Type 0} → (S → Outcome A) → M S A
read f s = (f s, s)

-- The result of a decoder, as a result of the database.
abbrev pub lift : {A : Type 0} → Codec.Result A → Outcome A
lift (Codec.ok a) = ok a
lift (Codec.err e) = err (abacus_error e)

pub Outcome-cases : {A : Type 0} (o : Outcome A) → ((a : A) × (o ≡ ok a)) ⊎ ((a : A) → o ≢ ok a)
Outcome-cases (ok a) = inl (a, refl)
Outcome-cases (err e) = inr (λ a h. cc)
Outcome-cases panic = inr (λ a h. cc)

-- A sequence that succeeds went through its first part.
proceed-eq-ok :
    {S A B : Type 0} (f : A → M S B) (r : Outcome A × S) {b : B} {s' : S}
    → proceed f r ≡ (ok b, s')
    → (a : A) × (t : S) × (r ≡ (ok a, t)) × (f a t ≡ (ok b, s'))
proceed-eq-ok f (ok a, t) h = (a, t, refl, h)
proceed-eq-ok f (err e, t) h = cc
proceed-eq-ok f (panic, t) h = cc

pub >>=-eq-ok :
    {S A B : Type 0} (m : M S A) (f : A → M S B) (s : S) {b : B} {s' : S}
    → (m >>= f) s ≡ (ok b, s')
    → (a : A) × (t : S) × (m s ≡ (ok a, t)) × (f a t ≡ (ok b, s'))
>>=-eq-ok m f s h = proceed-eq-ok f (m s) h

pub read-eq-ok :
    {S A B : Type 0} (g : S → Outcome A) (f : A → M S B) (s : S) {b : B} {s' : S}
    → (read g >>= f) s ≡ (ok b, s')
    → (a : A) × (g s ≡ ok a) × (f a s ≡ (ok b, s'))
read-eq-ok {A} g f s {b} {s'} h = go (g s) refl h
  where
    go :
        (o : Outcome A)
        → g s ≡ o
        → proceed f (o, s) ≡ (ok b, s')
        → (a : A) × (g s ≡ ok a) × (f a s ≡ (ok b, s'))
    go (ok a) e h' = (a, e, h')
    go (err x) e h' = cc
    go panic e h' = cc
