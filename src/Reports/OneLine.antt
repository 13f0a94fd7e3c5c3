-- ===== src/Reports/OneLine.antt =====
-- When a report of rust/abacus-base/src/oneline_eyre/handler.rs is on one line.
use ethmexico.Base.{
  ℕ, ◌+◌, ◌≡◌, refl, ◌∙◌, Bool, false, ◌||◌, if◌then◌else◌, Option, none, some, List, [], ◌∷◌, ◌++◌,
  arith,
}
use ethmexico.Base.Bytes.{Bytes}
use ethmexico.Reports.Backtrace.{Frame, fmt_backtrace}
use ethmexico.Reports.{
  Error, root, caused, successors, Handler, fmt_error, fmt_causes, fmt_cause, fmt_stack,
  plain_causes, if_traced, debug,
}
use ethmexico.Reports.Newlines.{
  newline, newline-append, IsLine, ◌&◌, nil-IsLine, constant, decimal-IsLine, replace-IsLine,
  ArePlain, frames-IsLine,
}

-- Whether one of the texts has a newline.
abbrev pub some_newline : List Bytes → Bool
some_newline [] = false
some_newline (text ∷ texts) = newline text || some_newline texts

newline-nil : newline [] ≡ false
unfolding newline
newline-nil = refl

newline-line_append : (a b : Bytes) → IsLine a → newline (a ++ b) ≡ newline b
newline-line_append a b line = newline-append a b ∙ left (newline a) (newline b) line.on_line
  where
    left : (x y : Bool) → x ≡ false → (x || y) ≡ y
    left x y e = ground arith

module _ (cwd : Option Bytes) (h : Handler) (line : IsLine h.line_separator)
    (section : IsLine h.section_separator) where
  newline-plain_causes : (texts : List Bytes) → newline (plain_causes h texts) ≡ some_newline texts
  unfolding plain_causes
  newline-plain_causes [] = newline-nil
  newline-plain_causes (text ∷ texts) =
      newline-append (h.line_separator ++ text) (plain_causes h texts)
      ∙ ground (arith, newline-line_append h.line_separator text line, newline-plain_causes texts)

  causes-IsLine : (n : ℕ) (texts : List Bytes) → IsLine (fmt_causes h n texts)
  unfolding fmt_causes fmt_error newline
  causes-IsLine n [] = nil-IsLine
  causes-IsLine n (text ∷ texts) =
      line
      & constant "(" refl
      & decimal-IsLine n
      & constant ") " refl
      & replace-IsLine h.line_separator text line
      & causes-IsLine (n + 1) texts

  cause-IsLine : (cause : Error) → IsLine (fmt_cause h cause)
  unfolding fmt_cause newline
  cause-IsLine cause = section & constant "Caused by:" refl & causes-IsLine 0 (successors cause)

  traced-IsLine : (b : Option (List Frame)) → ArePlain b → IsLine (if_traced b (fmt_stack cwd h))
  unfolding fmt_stack fmt_backtrace newline
  traced-IsLine none plain = nil-IsLine
  traced-IsLine (some frames) plain =
      section
      & constant "Stack backtrace:" refl
      & frames-IsLine (if h.show_full_paths then none else cwd) h.line_separator line 0 frames plain

  newline-ends :
      (a text rest : Bytes)
      → IsLine a
      → newline (a ++ text ++ rest) ≡ (newline text || newline rest)
  newline-ends a text rest head =
      newline-append (a ++ text) rest ∙ ground (arith, newline-line_append a text head)

  -- A report that is not the alternate one, with separators and names of symbols and files without
  -- newlines, has a newline exactly if the text of the error or of one of its causes has one, although
  -- the newlines in these texts are replaced where they are written first.
  pub newline-debug :
      (debug_text : Error → Bytes) (error : Error)
      → ArePlain h.backtrace
      → newline (debug cwd debug_text h false error) ≡ some_newline (successors error)
  unfolding debug successors fmt_error
  newline-debug debug_text (root text) plain =
      newline-ends _ text []
        (replace-IsLine h.line_separator text line & nil-IsLine & traced-IsLine h.backtrace plain)
      ∙ ground (arith, newline-nil)
  newline-debug debug_text (caused text cause) plain =
      newline-ends _ text (plain_causes h (successors cause)) (
        replace-IsLine h.line_separator text line
        & cause-IsLine cause
        & traced-IsLine h.backtrace plain)
      ∙ ground (arith, newline-plain_causes (successors cause))
