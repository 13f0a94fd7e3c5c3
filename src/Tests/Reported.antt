-- ===== src/Tests/Reported.antt =====
-- Witnesses for the error reports.
use ethmexico.Base.{◌≡◌, refl, true, false, none, some, [], ◌∷◌}
use ethmexico.Base.Bytes.{codes}
use ethmexico.Reports.{
  Error, root, caused, display, Handler, default_line_separator, default_section_separator, debug,
}
use ethmexico.Reports.Newlines.{newline, IsLine, ArePlain}
use ethmexico.Reports.OneLine.{newline-debug}

abbrev handler : Handler
handler = record {
  line_separator = default_line_separator;
  section_separator = default_section_separator;
  backtrace = some (
      record {
        ip = 5;
        symbols =
            record {
              name = some (codes "main");
              filename = some (codes "/w/a.rs");
              lineno = some 3;
              colno = none;
            }
            ∷ [];
      }
      ∷ []);
  show_full_paths = false;
}

abbrev two_line_error : Error
two_line_error = caused (codes "top") (root (97 ∷ (10 ∷ (98 ∷ []))))

separators-IsLine : IsLine handler.line_separator × IsLine handler.section_separator
unfolding newline
separators-IsLine = (record { on_line = refl }, record { on_line = refl })

handler-ArePlain : ArePlain handler.backtrace
unfolding newline
handler-ArePlain = (((record { on_line = refl }, record { on_line = refl }), tt), tt)

newline-debug_example :
    newline (debug (some (codes "/w")) display handler false two_line_error) ≡ true
unfolding newline ethmexico.Reports.successors
newline-debug_example =
    newline-debug (some (codes "/w")) handler separators-IsLine.0 separators-IsLine.1 display
      two_line_error handler-ArePlain
