-- ===== src/Reports.antt =====
-- rust/abacus-base/src/oneline_eyre/handler.rs: error reports on one line. What is written to the
-- formatter is a byte string, and writing does not fail.
pub mod Backtrace
pub mod Newlines
pub mod OneLine
use ethmexico.Base.{
  ℕ, ◌+◌, ◌==◌, Bool, true, false, not, if◌then◌else◌, Option, none, some, List, [], ◌∷◌, ◌++◌,
}
use ethmexico.Base.Bytes.{Bytes, bytes_eq, codes}
use ethmexico.Base.Decimal.{decimal}
use ethmexico.Reports.Backtrace.{Frame, fmt_backtrace}

-- An error is what its `Display` writes, and its source if it has one.
pub data Error : Type 0 where
  root : Bytes → Error
  caused : Bytes → Error → Error

abbrev pub display : Error → Bytes
display (root text) = text
display (caused text cause) = text

abbrev pub source : Error → Option Error
source (root text) = none
source (caused text cause) = some cause

-- `iter::successors` of an error.
unfoldable pub successors : Error → List Bytes
successors (root text) = text ∷ []
successors (caused text cause) = text ∷ successors cause

abbrev pub default_line_separator : Bytes
default_line_separator = codes " ## "

abbrev pub default_section_separator : Bytes
default_section_separator = codes " ##$$## "

pub record Handler : Type 0 where
  pub line_separator : Bytes
  pub section_separator : Bytes
  pub backtrace : Option (List Frame)
  pub show_full_paths : Bool

-- `str::replace` of the newlines.
unfoldable pub replace : Bytes → Bytes → Bytes
replace separator [] = []
replace separator (c ∷ cs) =
    let rest = replace separator cs in if c == 10 then separator ++ rest else c ∷ rest

unfoldable pub fmt_error : Handler → Bytes → Bytes
fmt_error h text = replace h.line_separator text

-- The errors from the `n`-th cause on.
unfoldable pub fmt_causes : Handler → ℕ → List Bytes → Bytes
fmt_causes h n [] = []
fmt_causes h n (text ∷ errors) =
    h.line_separator
    ++ codes "("
    ++ decimal n
    ++ codes ") "
    ++ fmt_error h text
    ++ fmt_causes h (n + 1) errors

unfoldable pub fmt_cause : Handler → Error → Bytes
fmt_cause h cause = h.section_separator ++ codes "Caused by:" ++ fmt_causes h 0 (successors cause)

-- The text of a backtrace, where `cwd` is the current directory if it can be told.
unfoldable pub fmt_stack : Option Bytes → Handler → List Frame → Bytes
fmt_stack cwd h frames =
    h.section_separator
    ++ codes "Stack backtrace:"
    ++ fmt_backtrace cwd h.line_separator h.show_full_paths frames

-- The causes as they are written at the end, each after a separator.
unfoldable pub plain_causes : Handler → List Bytes → Bytes
plain_causes h [] = []
plain_causes h (text ∷ errors) = h.line_separator ++ text ++ plain_causes h errors

abbrev pub if_caused : Option Error → (Error → Bytes) → Bytes
if_caused none write = []
if_caused (some cause) write = write cause

abbrev pub if_traced : Option (List Frame) → (List Frame → Bytes) → Bytes
if_traced none write = []
if_traced (some frames) write = write frames

-- `debug_text` is what the error's own `Debug` writes.
unfoldable pub debug : Option Bytes → (Error → Bytes) → Handler → Bool → Error → Bytes
debug cwd debug_text h alternate error =
    if alternate
    then debug_text error
    else fmt_error h (display error)
      ++ if_caused (source error) (fmt_cause h)
      ++ if_traced h.backtrace (fmt_stack cwd h)
      ++ display error
      ++ if_caused (source error) (λ cause. plain_causes h (successors cause))

pub record HookBuilder : Type 0 where
  pub capture_backtrace_by_default : Bool
  pub line_separator : Option Bytes
  pub section_separator : Option Bytes
  pub show_full_paths : Bool

-- `var` reads the environment.
unfoldable pub capture_enabled : (Bytes → Option Bytes) → HookBuilder → Bool
capture_enabled var b = elim (var (codes "RUST_LIB_BACKTRACE")) [
  | some val ↦ not (bytes_eq val (codes "0"))
  | none ↦ elim (var (codes "RUST_BACKTRACE")) [
    | some val ↦ not (bytes_eq val (codes "0"))
    | none ↦ b.capture_backtrace_by_default
  ]
]

abbrev pub separator_or : Bytes → Option Bytes → Bytes
separator_or default none = default
separator_or default (some separator) = separator

-- `frames` is the backtrace at the time of the error.
unfoldable pub make_handler : (Bytes → Option Bytes) → List Frame → HookBuilder → Handler
make_handler var frames b = record {
  line_separator = separator_or default_line_separator b.line_separator;
  section_separator = separator_or default_section_separator b.section_separator;
  backtrace = if capture_enabled var b then some frames else none;
  show_full_paths = b.show_full_paths;
}
