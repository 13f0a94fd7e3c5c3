-- ===== src/Base/Bytes.antt =====
-- Byte strings, and 32-byte hashes as such strings (`H256` of the ethers crate).
use Prim.Native.Nat.{ℕ}
use mathlib.Core.Path.{◌≡◌, refl}
use mathlib.Core.Bool.{Bool, true, false, ◌&&◌}
use mathlib.Core.List.{List, [], ◌∷◌, ◌++◌}
use Prim.Native.String.{String}
use Prim.Native.Char.{code}
use native.Mathlib.Omega.{arith}
use ethmexico.Base.Lists.{◌==◌, replicate}

abbrev pub Bytes : Type 0
Bytes = List ℕ

abbrev pub H256 : Type 0
H256 = List ℕ

-- `H256::zero()` and `H256::default()`.
abbrev pub zero_h256 : H256
zero_h256 = replicate 32 0

unfoldable pub bytes_eq : Bytes → Bytes → Bool
bytes_eq [] [] = true
bytes_eq [] (y ∷ ys) = false
bytes_eq (x ∷ xs) [] = false
bytes_eq (x ∷ xs) (y ∷ ys) = (x == y) && bytes_eq xs ys

pub bytes_eq_refl : (xs : Bytes) → bytes_eq xs xs ≡ true
unfolding bytes_eq
bytes_eq_refl [] = refl
bytes_eq_refl (x ∷ xs) = ground (arith, bytes_eq_refl xs)

pub bytes_eq→eq : (xs ys : Bytes) → bytes_eq xs ys ≡ true → xs ≡ ys
unfolding bytes_eq
bytes_eq→eq [] [] h = refl
bytes_eq→eq [] (y ∷ ys) h = cc
bytes_eq→eq (x ∷ xs) [] h = cc
bytes_eq→eq (x ∷ xs) (y ∷ ys) h = ground (arith, bytes_eq→eq xs ys)

-- The bytes of an ASCII text.
abbrev pub codes : String → Bytes
codes String.[] = []
codes (String.◌∷◌ c s) = code c ∷ codes s

pub append-cancel_left : (xs a b : Bytes) → xs ++ a ≡ xs ++ b → a ≡ b
append-cancel_left [] a b h = h
append-cancel_left (x ∷ xs) a b h = append-cancel_left xs a b cc
