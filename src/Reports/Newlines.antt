-- ===== src/Reports/Newlines.antt =====
-- The newlines in the parts of a report of rust/abacus-base/src/oneline_eyre/handler.rs.
use ethmexico.Base.{
  ℕ, zero, suc, ◌+◌, ◌/◌, ◌%◌, ◌==◌, ltb, ◌≡◌, refl, ◌∙◌, inl, inr, Bool, true, false, ◌||◌,
  Bool-cases, if◌then◌else◌, Option, none, some, List, [], ◌∷◌, ◌++◌, All, arith,
}
use ethmexico.Base.Bytes.{Bytes, codes}
use Prim.Native.String.{String}
use ethmexico.Base.Decimal.{decimal, decimal-IsDigit, IsDigit}
use ethmexico.Reports.Backtrace.{
  Symbol, Frame, hex_digit, hex_digits, pointer, strip_prefix, print_path, print_column,
  print_fileline, name_or_unknown, print_place, print_raw_generic, backtrace_symbols, symbols_of,
  or_path, backtrace_frame, backtrace_frames,
}
use ethmexico.Reports.{replace}

unfoldable pub newline : Bytes → Bool
newline [] = false
newline (c ∷ cs) = (c == 10) || newline cs

pub newline-append : (a b : Bytes) → newline (a ++ b) ≡ (newline a || newline b)
unfolding newline
newline-append [] b = refl
newline-append (c ∷ a) b = ground (arith, newline-append a b)

-- A text on one line.
pub record IsLine (text : Bytes) : Type 0 where
  pub on_line : newline text ≡ false

or_false : (x y : Bool) → x ≡ false → y ≡ false → (x || y) ≡ false
or_false x y hx hy = ground arith

infixl 5 ◌&◌
pub ◌&◌ : {a b : Bytes} → IsLine a → IsLine b → IsLine (a ++ b)
◌&◌ {a = a} {b = b} ha hb = record {
  on_line = newline-append a b ∙ or_false (newline a) (newline b) ha.on_line hb.on_line;
}

pub nil-IsLine : IsLine []
unfolding newline
nil-IsLine = record { on_line = refl }

cons-IsLine : (c : ℕ) (cs : Bytes) → (c == 10) ≡ false → IsLine cs → IsLine (c ∷ cs)
unfolding newline
cons-IsLine c cs h line = record { on_line = or_false (c == 10) (newline cs) h line.on_line }

digits-IsLine : (ds : Bytes) → All IsDigit ds → IsLine ds
digits-IsLine [] h = nil-IsLine
digits-IsLine (d ∷ ds) (h, hs) = cons-IsLine d ds (ground arith) (digits-IsLine ds hs)

pub decimal-IsLine : (n : ℕ) → IsLine (decimal n)
decimal-IsLine n = digits-IsLine (decimal n) (decimal-IsDigit n)

pub replace-IsLine : (separator text : Bytes) → IsLine separator → IsLine (replace separator text)
unfolding replace
replace-IsLine separator [] line = nil-IsLine
replace-IsLine separator (c ∷ cs) line = elim (Bool-cases (c == 10)) [
  | inl y ↦ rw y (line & replace-IsLine separator cs line)
  | inr n ↦ rw n (cons-IsLine c (replace separator cs) n (replace-IsLine separator cs line))
]

tail-IsLine : (c : ℕ) (cs : Bytes) → IsLine (c ∷ cs) → IsLine cs
unfolding newline
tail-IsLine c cs h = record { on_line = right (c == 10) (newline cs) h.on_line }
  where
    right : (x y : Bool) → (x || y) ≡ false → y ≡ false
    right x y e = ground arith

hex-IsLine : (d : ℕ) (out : Bytes) → IsLine out → IsLine (hex_digit d ∷ out)
hex-IsLine d out h = cons-IsLine (hex_digit d) out (ground arith) h

hex_digits-IsLine : (f n : ℕ) (out : Bytes) → IsLine out → IsLine (hex_digits f n out)
unfolding hex_digits
hex_digits-IsLine zero n out h = h
hex_digits-IsLine (suc f) n out h = elim (Bool-cases (ltb n 16)) [
  | inl y ↦ rw y (hex-IsLine n out h)
  | inr m ↦ rw m (hex_digits-IsLine f (n / 16) _ (hex-IsLine (n % 16) out h))
]

-- The constant parts of a report are on one line.
pub constant : (text : String) → newline (codes text) ≡ false → IsLine (codes text)
constant text h = record { on_line = h }

pointer-IsLine : (n : ℕ) → IsLine (pointer n)
unfolding pointer newline
pointer-IsLine n = constant "0x" refl & hex_digits-IsLine 16 n [] nil-IsLine

abbrev pub IsLineSome : Option Bytes → Type 0
IsLineSome none = Unit
IsLineSome (some text) = IsLine text

-- The names of a symbol and of its file are on one line.
abbrev pub IsPlain : Symbol → Type 0
IsPlain symbol = IsLineSome symbol.name × IsLineSome symbol.filename

abbrev pub ArePlain : Option (List Frame) → Type 0
ArePlain none = Unit
ArePlain (some frames) = All (λ (frame : Frame). All IsPlain frame.symbols) frames

strip_prefix-IsLine : (cwd path : Bytes) → IsLine path → IsLineSome (strip_prefix cwd path)
unfolding strip_prefix
strip_prefix-IsLine [] [] h = nil-IsLine
strip_prefix-IsLine [] (c ∷ path) h = elim (Bool-cases (c == b'/')) [
  | inl y ↦ rw y (tail-IsLine c path h)
  | inr n ↦ rw n tt
]
strip_prefix-IsLine (d ∷ cwd) [] h = tt
strip_prefix-IsLine (d ∷ cwd) (c ∷ path) h = elim (Bool-cases (d == c)) [
  | inl y ↦ rw y (strip_prefix-IsLine cwd path (tail-IsLine c path h))
  | inr n ↦ rw n tt
]

or_path-IsLine :
    (path : Bytes) (o : Option Bytes) → IsLine path → IsLineSome o → IsLine (or_path path o)
or_path-IsLine path none h i = h
or_path-IsLine path (some suffix) h i = i

print_path-IsLine : (cwd : Option Bytes) (path : Bytes) → IsLine path → IsLine (print_path cwd path)
unfolding print_path
print_path-IsLine none path h = h
print_path-IsLine (some cwd) path h =
    or_path-IsLine path (strip_prefix cwd path) h (strip_prefix-IsLine cwd path h)

print_column-IsLine : (colno : Option ℕ) → IsLine (print_column colno)
unfolding newline
print_column-IsLine none = nil-IsLine
print_column-IsLine (some colno) = constant ":" refl & decimal-IsLine colno

name-IsLine : (o : Option Bytes) → IsLineSome o → IsLine (name_or_unknown o)
unfolding newline
name-IsLine none h = constant "<unknown>" refl
name-IsLine (some name) h = h

if-IsLine : (b : Bool) (text : Bytes) → IsLine text → IsLine (if b then [] else text)
if-IsLine true text h = nil-IsLine
if-IsLine false text h = h

symbols_of-IsPlain : (l : List Symbol) → All IsPlain l → All IsPlain (symbols_of l)
symbols_of-IsPlain [] h = ((tt, tt), tt)
symbols_of-IsPlain (symbol ∷ symbols) h = h

module _ (cwd : Option Bytes) (separator : Bytes) (line : IsLine separator) where
  place-IsLine :
      (name file : Option Bytes) (lineno colno : Option ℕ)
      → IsLineSome file
      → IsLine (
          print_place cwd separator
            (record { name = name; filename = file; lineno = lineno; colno = colno }))
  unfolding print_fileline newline
  place-IsLine name none lineno colno h = nil-IsLine
  place-IsLine name (some file) none colno h = nil-IsLine
  place-IsLine name (some file) (some lineno) colno h =
      constant " @ " refl
      & print_path-IsLine cwd file h
      & constant ":" refl
      & decimal-IsLine lineno
      & print_column-IsLine colno
      & line

  symbol-IsLine :
      (n ip : ℕ) (symbol : Symbol)
      → IsPlain symbol
      → IsLine (print_raw_generic cwd separator n ip symbol)
  unfolding print_raw_generic newline
  symbol-IsLine n ip symbol (named, filed) = if-IsLine (ip == 0) _ (
      constant "(" refl
      & decimal-IsLine n
      & constant ") " refl
      & pointer-IsLine ip
      & constant " - " refl
      & name-IsLine symbol.name named
      & place-IsLine symbol.name symbol.filename symbol.lineno symbol.colno filed)

  symbols-IsLine :
      (n ip : ℕ) (symbols : List Symbol)
      → All IsPlain symbols
      → IsLine (backtrace_symbols cwd separator n ip symbols)
  unfolding backtrace_symbols
  symbols-IsLine n ip [] h = nil-IsLine
  symbols-IsLine n ip (symbol ∷ symbols) (h, hs) =
      symbol-IsLine n ip symbol h & symbols-IsLine n ip symbols hs

  pub frames-IsLine :
      (n : ℕ) (frames : List Frame)
      → ArePlain (some frames)
      → IsLine (backtrace_frames cwd separator n frames)
  unfolding backtrace_frames backtrace_frame
  frames-IsLine n [] h = nil-IsLine
  frames-IsLine n (frame ∷ frames) (h, hs) =
      symbols-IsLine n frame.ip (symbols_of frame.symbols) (symbols_of-IsPlain frame.symbols h)
      & frames-IsLine (n + 1) frames hs
