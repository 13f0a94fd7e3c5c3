-- ===== src/Storage/Local/Paths.antt =====
-- The paths of rust/abacus-base/src/types/local_storage.rs.
use mathlib.Core.List.{append_cancel_right}
use ethmexico.Base.{ℕ, ◌≢◌, ne→==, any, refl, sym, [], ◌∷◌, ◌++◌, All, IsU32, arith}
use ethmexico.Base.Bytes.{Bytes, codes}
use ethmexico.Base.Decimal.{decimal, decimal-injective, decimal-IsDigit, IsDigit}
use ethmexico.Storage.{IsName}

abbrev pub checkpoint_name : ℕ → Bytes
checkpoint_name index = decimal index ++ codes ".json"

abbrev pub index_name : Bytes
index_name = codes "index.json"

IsDigit-IsName : (s rest : Bytes) → All IsDigit s → IsName rest → IsName (s ++ rest)
IsDigit-IsName [] rest h r = r
IsDigit-IsName (c ∷ cs) rest (d, ds) r =
    rw (ne→== c b'/' (λ e. omega arith), any) (IsDigit-IsName cs rest ds r)

pub checkpoint_name-IsName : (index : ℕ) → IsName (checkpoint_name index)
checkpoint_name-IsName index =
    IsDigit-IsName (decimal index) (codes ".json") (decimal-IsDigit index) refl

pub index_name-IsName : IsName index_name
index_name-IsName = refl

digits-ne-index : (s : Bytes) → All IsDigit s → s ++ codes ".json" ≢ index_name
digits-ne-index [] h e = cc
digits-ne-index (c ∷ cs) (d, ds) e = ground arith

pub index_name-ne : (index : ℕ) → index_name ≢ checkpoint_name index
index_name-ne index e = digits-ne-index (decimal index) (decimal-IsDigit index) (sym e)

pub checkpoint_name-ne :
    (i j : ℕ) → IsU32 i → IsU32 j → i ≢ j → checkpoint_name i ≢ checkpoint_name j
checkpoint_name-ne i j hi hj ne e =
    ne (decimal-injective i j hi hj (append_cancel_right (decimal i) (decimal j) (codes ".json") e))
