-- ===== src/Codec/Words.antt =====
-- Numbers as byte strings of a fixed width: `to_be_bytes`, `from_be_bytes`, `to_little_endian` and
-- `from_little_endian`, for rust/abacus-core/src/traits/encode.rs.
use ethmexico.Base.{
  ℕ, zero, suc, ◌+◌, ◌*◌, ◌/◌, ◌%◌, ◌^◌, ◌<◌, ◌≡◌, refl, sym, ap, subst, ◌∙◌, [], ◌∷◌, ◌++◌, length,
  length-append, append-nil, append_assoc, All, arith,
}
use ethmexico.Base.Bytes.{Bytes}
use native.Mathlib.Nat.{pow-suc, add-zero, add-suc, suc-add}

abbrev pub IsByte : ℕ → Type 0
IsByte b = b < 256

unfoldable pub be_bytes : ℕ → ℕ → Bytes
be_bytes zero v = []
be_bytes (suc k) v = be_bytes k (v / 256) ++ (v % 256 ∷ [])

unfoldable pub from_be_loop : ℕ → Bytes → ℕ
from_be_loop acc [] = acc
from_be_loop acc (b ∷ bs) = from_be_loop (acc * 256 + b) bs

abbrev pub from_be : Bytes → ℕ
from_be = from_be_loop 0

unfoldable pub le_bytes : ℕ → ℕ → Bytes
le_bytes zero v = []
le_bytes (suc k) v = v % 256 ∷ le_bytes k (v / 256)

unfoldable pub from_le : Bytes → ℕ
from_le [] = 0
from_le (b ∷ bs) = b + 256 * from_le bs

pub length-be_bytes : (k v : ℕ) → length (be_bytes k v) ≡ k
unfolding be_bytes
length-be_bytes zero v = refl
length-be_bytes (suc k) v =
    omega (arith, length-append (be_bytes k (v / 256)) (v % 256 ∷ []), length-be_bytes k (v / 256))

pub length-le_bytes : (k v : ℕ) → length (le_bytes k v) ≡ k
unfolding le_bytes
length-le_bytes zero v = refl
length-le_bytes (suc k) v = omega (arith, length-le_bytes k (v / 256))

from_be_loop-append :
    (acc b : ℕ) (bs : Bytes) → from_be_loop acc (bs ++ (b ∷ [])) ≡ from_be_loop acc bs * 256 + b
unfolding from_be_loop
from_be_loop-append acc b [] = refl
from_be_loop-append acc b (c ∷ bs) = from_be_loop-append (acc * 256 + c) b bs

pub from_be-be_bytes : (k v : ℕ) → v < 256 ^ k → from_be (be_bytes k v) ≡ v
unfolding be_bytes
from_be-be_bytes zero v h = unfold from_be_loop in omega arith
from_be-be_bytes (suc k) v h =
    from_be_loop-append 0 (v % 256) (be_bytes k (v / 256))
    ∙ omega (arith, from_be-be_bytes k (v / 256) (omega (arith, pow-suc 256 k)))

pub from_le-le_bytes : (k v : ℕ) → v < 256 ^ k → from_le (le_bytes k v) ≡ v
unfolding le_bytes from_le
from_le-le_bytes zero v h = omega arith
from_le-le_bytes (suc k) v h =
    omega (arith, from_le-le_bytes k (v / 256) (omega (arith, pow-suc 256 k)))

-- The other way round. A byte string is split at its end.
be_bytes-snoc :
    (k b : ℕ) (v : ℕ) → IsByte b → be_bytes (suc k) (v * 256 + b) ≡ be_bytes k v ++ (b ∷ [])
unfolding be_bytes
be_bytes-snoc k b v h =
    let high : (v * 256 + b) / 256 ≡ v = omega arith in
    let low : (v * 256 + b) % 256 ≡ b = omega arith in rw (high, low) refl

be_bytes-from_be_loop :
    (k acc : ℕ) (bs : Bytes)
    → All IsByte bs
    → be_bytes (k + length bs) (from_be_loop acc bs) ≡ be_bytes k acc ++ bs
unfolding from_be_loop
be_bytes-from_be_loop k acc [] h =
    ap (λ (n : ℕ). be_bytes n acc) (omega arith) ∙ sym (append-nil (be_bytes k acc))
be_bytes-from_be_loop k acc (b ∷ bs) h =
    ap (λ (n : ℕ). be_bytes n (from_be_loop (acc * 256 + b) bs)) (omega arith)
    ∙ be_bytes-from_be_loop (suc k) (acc * 256 + b) bs h.1
    ∙ ap (λ (front : Bytes). front ++ bs) (be_bytes-snoc k b acc h.0)
    ∙ append_assoc (be_bytes k acc) (b ∷ []) bs

-- Every byte string of the width is the encoding of the number that it is read as.
pub be_bytes-from_be :
    (k : ℕ) (bs : Bytes) → length bs ≡ k → All IsByte bs → be_bytes k (from_be bs) ≡ bs
unfolding be_bytes
be_bytes-from_be k bs n h =
    ap (λ (m : ℕ). be_bytes m (from_be bs)) {x = k} {y = 0 + length bs} (omega (arith, n))
    ∙ be_bytes-from_be_loop 0 0 bs h

from_be_loop-lt :
    (acc k : ℕ) (bs : Bytes)
    → All IsByte bs
    → acc < 256 ^ k
    → from_be_loop acc bs < 256 ^ (k + length bs)
unfolding from_be_loop
from_be_loop-lt acc k [] h lt = rw add-zero lt
from_be_loop-lt acc k (b ∷ bs) h lt =
    rw (add-suc, ← suc-add)
      (from_be_loop-lt (acc * 256 + b) (suc k) bs h.1 (rw pow-suc (omega (arith, h.0))))

pub from_be-lt : (bs : Bytes) → All IsByte bs → from_be bs < 256 ^ length bs
from_be-lt bs h =
    subst (λ (n : ℕ). from_be bs < 256 ^ n) {x = 0 + length bs} {y = length bs} (omega arith)
      (from_be_loop-lt 0 0 bs h (omega arith))
