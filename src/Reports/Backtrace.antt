-- ===== src/Reports/Backtrace.antt =====
-- rust/utils/backtrace-oneline/src/lib.rs: a backtrace on one line.
use ethmexico.Base.{
  ℕ, zero, suc, ◌+◌, ◌-◌, ◌/◌, ◌%◌, ◌==◌, ltb, Bool, if◌then◌else◌, Option, none, some, List, [],
  ◌∷◌, ◌++◌,
}
use ethmexico.Base.Bytes.{Bytes, codes}
use ethmexico.Base.Decimal.{decimal}

-- A symbol, its name as the backtrace crate displays it. A file name that is no UTF-8 is left out.
pub record Symbol : Type 0 where
  pub name : Option Bytes
  pub filename : Option Bytes
  pub lineno : Option ℕ
  pub colno : Option ℕ

pub record Frame : Type 0 where
  pub ip : ℕ
  pub symbols : List Symbol

abbrev pub hex_digit : ℕ → ℕ
hex_digit d = if ltb d 10 then b'0' + d else b'a' + (d - 10)

-- The hexadecimal digits of a number of 64 bits, sixteen at most.
unfoldable pub hex_digits : ℕ → ℕ → Bytes → Bytes
hex_digits zero n out = out
hex_digits (suc f) n out =
    let rest = hex_digits f (n / 16) (hex_digit (n % 16) ∷ out) in
    if ltb n 16 then hex_digit n ∷ out else rest

-- How a pointer is displayed.
unfoldable pub pointer : ℕ → Bytes
pointer n = codes "0x" ++ hex_digits 16 n []

-- `Path::strip_prefix`, for paths that are written without redundant parts.
unfoldable pub strip_prefix : Bytes → Bytes → Option Bytes
strip_prefix [] [] = some []
strip_prefix [] (c ∷ path) = if c == b'/' then some path else none
strip_prefix (d ∷ cwd) [] = none
strip_prefix (d ∷ cwd) (c ∷ path) =
    let rest = strip_prefix cwd path in if d == c then rest else none

abbrev pub or_path : Bytes → Option Bytes → Bytes
or_path path none = path
or_path path (some suffix) = suffix

unfoldable pub print_path : Option Bytes → Bytes → Bytes
print_path none path = path
print_path (some cwd) path = or_path path (strip_prefix cwd path)

abbrev pub print_column : Option ℕ → Bytes
print_column none = []
print_column (some colno) = codes ":" ++ decimal colno

unfoldable pub print_fileline : Option Bytes → Bytes → Bytes → ℕ → Option ℕ → Bytes
print_fileline cwd line_separator file line colno =
    codes " @ "
    ++ print_path cwd file
    ++ codes ":"
    ++ decimal line
    ++ print_column colno
    ++ line_separator

abbrev pub name_or_unknown : Option Bytes → Bytes
name_or_unknown none = codes "<unknown>"
name_or_unknown (some name) = name

abbrev pub print_place : Option Bytes → Bytes → Symbol → Bytes
print_place cwd line_separator symbol = elim symbol.filename [
  | none ↦ []
  | some file ↦ elim symbol.lineno [
    | none ↦ []
    | some line ↦ print_fileline cwd line_separator file line symbol.colno
  ]
]

unfoldable pub print_raw_generic : Option Bytes → Bytes → ℕ → ℕ → Symbol → Bytes
print_raw_generic cwd line_separator frame_index frame_ip symbol =
    if frame_ip == 0
    then []
    else codes "("
      ++ decimal frame_index
      ++ codes ") "
      ++ pointer frame_ip
      ++ codes " - "
      ++ name_or_unknown symbol.name
      ++ print_place cwd line_separator symbol

unfoldable pub backtrace_symbols : Option Bytes → Bytes → ℕ → ℕ → List Symbol → Bytes
backtrace_symbols cwd line_separator frame_index frame_ip [] = []
backtrace_symbols cwd line_separator frame_index frame_ip (symbol ∷ symbols) =
    print_raw_generic cwd line_separator frame_index frame_ip symbol
    ++ backtrace_symbols cwd line_separator frame_index frame_ip symbols

abbrev pub no_symbol : Symbol
no_symbol = record { name = none; filename = none; lineno = none; colno = none }

-- A frame without symbols is written with its address alone.
abbrev pub symbols_of : List Symbol → List Symbol
symbols_of [] = no_symbol ∷ []
symbols_of (symbol ∷ symbols) = symbol ∷ symbols

unfoldable pub backtrace_frame : Option Bytes → Bytes → ℕ → Frame → Bytes
backtrace_frame cwd line_separator frame_index frame =
    backtrace_symbols cwd line_separator frame_index frame.ip (symbols_of frame.symbols)

unfoldable pub backtrace_frames : Option Bytes → Bytes → ℕ → List Frame → Bytes
backtrace_frames cwd line_separator frame_index [] = []
backtrace_frames cwd line_separator frame_index (frame ∷ frames) =
    backtrace_frame cwd line_separator frame_index frame
    ++ backtrace_frames cwd line_separator (frame_index + 1) frames

unfoldable pub fmt_backtrace : Option Bytes → Bytes → Bool → List Frame → Bytes
fmt_backtrace cwd line_separator show_full_paths frames =
    backtrace_frames (if show_full_paths then none else cwd) line_separator 0 frames
