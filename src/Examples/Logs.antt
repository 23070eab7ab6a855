-- ===== src/Examples/Logs.antt =====
-- The theorems on log lines and on the names of priorities at concrete inputs.
use spool.Prelude.{◌≡◌, refl, false, none, some, [], ◌∷◌, ◌++◌, if◌then◌else◌}
use spool.Logger.{Text, Logger, codes, info, stdout}
use spool.Logger.Format.{escape_json}
use spool.Logger.Escaping.{read_string, has_known_controls, read_string-escape_json}

-- A quote, a newline and a backslash.
abbrev quoted_lines : Text
quoted_lines = b'"' ∷ 10 ∷ b'\\' ∷ []

read_string-escape_json_example :
    read_string false (escape_json quoted_lines ++ (b'"' ∷ codes ",x"))
    ≡ (if has_known_controls quoted_lines then some (quoted_lines, codes ",x") else none)
read_string-escape_json_example = read_string-escape_json quoted_lines (codes ",x")

-- A bell is written as it is, and a reader refuses it.
a_bell : read_string false (escape_json (7 ∷ []) ++ (b'"' ∷ [])) ≡ none
unfolding read_string escape_json
a_bell = refl

abbrev to_json : Logger
to_json = record {
  level = info;
  output = stdout;
  component = "broker";
  format = "json";
  color_output = false;
}
