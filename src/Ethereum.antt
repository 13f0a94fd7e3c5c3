-- ===== src/Ethereum.antt =====
-- rust/chains/abacus-ethereum/src: the client of an Ethereum chain. Calls of the contracts and of the
-- node are parameters, answered by the ethers crate.
pub mod Retrying
pub mod Indexer
pub mod Contracts
pub mod Making
use ethmexico.Base.{ℕ, ◌-◌, ◌^◌, ltb, Bool, if◌then◌else◌, Option, none, some}

-- `failed` is an error of the node or of a contract, `panicked` a conversion that does not fit.
pub data Reply (A : Type 0) : Type 0 where
  ok : A → Reply A
  failed panicked : Reply A

infixl 5 ◌>>=◌
abbrev pub ◌>>=◌ : {A B : Type 0} → Reply A → (A → Reply B) → Reply B
ok a >>= f = f a
failed >>= f = failed
panicked >>= f = panicked

-- `?` on what a call answers.
abbrev pub answered : {A : Type 0} → Option A → Reply A
answered none = failed
answered (some a) = ok a

-- `U256::as_u32` and `U256::as_u64`.
abbrev pub as_word : ℕ → ℕ → Reply ℕ
as_word bits n = if ltb n (2 ^ bits) then ok n else panicked

-- `saturating_sub`: subtraction stops at zero.
abbrev pub saturating_sub : ℕ → ℕ → ℕ
saturating_sub a b = a - b
