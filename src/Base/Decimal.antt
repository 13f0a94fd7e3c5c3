-- ===== src/Base/Decimal.antt =====
-- Text of the Rust standard library: a u32 in decimal (`to_string`, `str::parse`), and the check of
-- `String::from_utf8`.
use Prim.Native.Nat.{ℕ, zero, suc, ◌+◌, ◌-◌, ◌*◌, ◌/◌, ◌%◌, ◌^◌, ◌≤◌, ◌<◌}
use mathlib.Core.Path.{◌≡◌, refl, sym, ap, ◌∙◌}
use mathlib.Core.Logic.{inl, inr, ◌≢◌}
use mathlib.Core.Bool.{Bool, true, false, ◌&&◌}
use mathlib.Core.Option.{Option, none, some}
use mathlib.Core.List.{List, [], ◌∷◌}
use native.Mathlib.Omega.{arith}
use ethmexico.Base.Lists.{ltb, leb, ◌==◌, if◌then◌else◌, All, Bool-cases, ltb→lt, lt→ltb}
use ethmexico.Base.Bytes.{Bytes}

-- The digits of `n` before `out`, the last one first. A u32 has ten digits at most.
unfoldable digits : ℕ → ℕ → Bytes → Bytes
digits zero n out = out
digits (suc f) n out =
    let rest = digits f (n / 10) ((b'0' + n % 10) ∷ out) in
    if ltb n 10 then (b'0' + n) ∷ out else rest

unfoldable pub decimal : ℕ → Bytes
unfolding digits
decimal n = digits 10 n []

abbrev pub is_digit : ℕ → Bool
is_digit c = leb b'0' c && leb c b'9'

-- `none` is an error of the parse: another character, or an overflow.
unfoldable scan : ℕ → Bytes → Option ℕ
scan acc [] = some acc
scan acc (c ∷ cs) =
    let next = acc * 10 + (c - b'0') in
    let rest = scan next cs in if is_digit c then if ltb next (2 ^ 32) then rest else none else none

-- One plus sign may stand before the digits.
unfoldable pub parse_u32 : Bytes → Option ℕ
unfolding scan
parse_u32 [] = none
parse_u32 (c ∷ []) = scan 0 (c ∷ [])
parse_u32 (c ∷ (d ∷ cs)) = if c == b'+' then scan 0 (d ∷ cs) else scan 0 (c ∷ (d ∷ cs))

-- The ranges of the bytes that have to follow a first byte.
abbrev continuation : ℕ × ℕ
continuation = (0x80, 0xbf)

unfoldable utf8_lead : ℕ → Option (List (ℕ × ℕ))
utf8_lead b =
    if ltb b 0x80
    then some []
    else if ltb b 0xc2
    then none
    else if ltb b 0xe0
    then some (continuation ∷ [])
    else if b == 0xe0
    then some ((0xa0, 0xbf) ∷ (continuation ∷ []))
    else if b == 0xed
    then some ((0x80, 0x9f) ∷ (continuation ∷ []))
    else if ltb b 0xf0
    then some (continuation ∷ (continuation ∷ []))
    else if b == 0xf0
    then some ((0x90, 0xbf) ∷ (continuation ∷ (continuation ∷ [])))
    else if ltb b 0xf4
    then some (continuation ∷ (continuation ∷ (continuation ∷ [])))
    else if b == 0xf4
    then some ((0x80, 0x8f) ∷ (continuation ∷ (continuation ∷ [])))
    else none

unfoldable utf8_from : List (ℕ × ℕ) → Bytes → Bool
unfolding utf8_lead
utf8_from [] [] = true
utf8_from (p ∷ ps) [] = false
utf8_from [] (b ∷ bs) = elim (utf8_lead b) [ none ↦ false | some ps ↦ utf8_from ps bs ]
utf8_from ((lo, hi) ∷ ps) (b ∷ bs) = let rest = utf8_from ps bs in (leb lo b && leb b hi) && rest

unfoldable pub is_utf8 : Bytes → Bool
unfolding utf8_from
is_utf8 bs = utf8_from [] bs

abbrev pub IsDigit : ℕ → Type 0
IsDigit c = (b'0' ≤ c) × (c ≤ b'9')

digits-IsDigit : (f n : ℕ) (out : Bytes) → All IsDigit out → All IsDigit (digits f n out)
unfolding digits
digits-IsDigit zero n out h = h
digits-IsDigit (suc f) n out h = elim (Bool-cases (ltb n 10)) [
  | inl y ↦ rw y ((omega arith, ground arith), h)
  | inr m ↦ rw m (digits-IsDigit f (n / 10) _ ((omega arith, omega arith), h))
]

pub decimal-IsDigit : (n : ℕ) → All IsDigit (decimal n)
unfolding decimal
decimal-IsDigit n = digits-IsDigit 10 n [] tt

abbrev tens : ℕ → ℕ
tens zero = 1
tens (suc f) = 10 * tens f

scan_digit :
    (acc d : ℕ) (out : Bytes)
    → d < 10
    → acc * 10 + d < 2 ^ 32
    → scan acc ((b'0' + d) ∷ out) ≡ scan (acc * 10 + d) out
unfolding scan
scan_digit acc d out small fits = ground arith

more_rounds : (f n : ℕ) → 10 ≤ n → n < 10 * tens f → 0 < f
more_rounds zero n ge lt = absurd (omega arith)
more_rounds (suc f) n ge lt = omega arith

scan_last : (n : ℕ) (out : Bytes) → n < 2 ^ 32 → scan (n / 10) ((b'0' + n % 10) ∷ out) ≡ scan n out
scan_last n out fits =
    scan_digit (n / 10) (n % 10) out (omega arith) (omega arith)
    ∙ ap (λ k. scan k out) (omega arith)

-- With enough rounds, a scan of the digits goes on from the number.
scan-digits :
    (f n : ℕ) (out : Bytes) → n < tens f → n < 2 ^ 32 → 0 < f → scan 0 (digits f n out) ≡ scan n out
unfolding digits
scan-digits zero n out lt fits pos = absurd (omega arith)
scan-digits (suc f) n out lt fits pos = elim (Bool-cases (ltb n 10)) [
  | inl y ↦
      rw y (scan_digit 0 n out (ltb→lt n 10 y) (omega arith) ∙ ap (λ k. scan k out) (omega arith))
  | inr m ↦
      let ge : 10 ≤ n = ground arith in
      rw m (
        scan-digits f (n / 10) ((b'0' + n % 10) ∷ out) (omega arith) (omega arith)
          (more_rounds f n ge lt)
        ∙ scan_last n out fits)
]

parse_u32-scan : (s : Bytes) → All IsDigit s → s ≢ [] → parse_u32 s ≡ scan 0 s
unfolding parse_u32
parse_u32-scan [] h ne = absurd (ne refl)
parse_u32-scan (c ∷ []) h ne = refl
parse_u32-scan (c ∷ (d ∷ cs)) h ne = ground arith

digits-ne-nil : (f n : ℕ) (out : Bytes) → out ≢ [] → digits f n out ≢ []
unfolding digits
digits-ne-nil zero n out ne = ne
digits-ne-nil (suc f) n out ne = elim (Bool-cases (ltb n 10)) [
  | inl y ↦ rw y (λ e. cc)
  | inr m ↦ rw m (digits-ne-nil f (n / 10) _ (λ e. cc))
]

decimal-ne-nil : (n : ℕ) → decimal n ≢ []
unfolding decimal digits
decimal-ne-nil n = elim (Bool-cases (ltb n 10)) [
  | inl y ↦ rw y (λ e. cc)
  | inr m ↦ rw m (digits-ne-nil 9 (n / 10) _ (λ e. cc))
]

-- A u32 is read back from its decimal text.
pub parse_u32-decimal : (n : ℕ) → n < 2 ^ 32 → parse_u32 (decimal n) ≡ some n
unfolding decimal scan
parse_u32-decimal n fits =
    parse_u32-scan (decimal n) (decimal-IsDigit n) (decimal-ne-nil n)
    ∙ scan-digits 10 n [] (omega arith) fits (omega arith)

pub decimal-injective : (i j : ℕ) → i < 2 ^ 32 → j < 2 ^ 32 → decimal i ≡ decimal j → i ≡ j
decimal-injective i j hi hj e =
    some-injective (sym (parse_u32-decimal i hi) ∙ ap parse_u32 e ∙ parse_u32-decimal j hj)
  where
    some-injective : some i ≡ some j → i ≡ j
    some-injective h = cc

utf8_lead-digit : (c : ℕ) → IsDigit c → utf8_lead c ≡ some []
unfolding utf8_lead
utf8_lead-digit c h = rw (lt→ltb c 0x80 (omega arith))

utf8_from-ascii : (s : Bytes) → All IsDigit s → utf8_from [] s ≡ true
unfolding utf8_from
utf8_from-ascii [] h = refl
utf8_from-ascii (c ∷ cs) (d, ds) = rw (utf8_lead-digit c d, utf8_from) (utf8_from-ascii cs ds)

pub is_utf8-decimal : (n : ℕ) → is_utf8 (decimal n) ≡ true
unfolding is_utf8
is_utf8-decimal n = utf8_from-ascii (decimal n) (decimal-IsDigit n)
