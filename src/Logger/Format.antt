-- ===== src/Logger/Format.antt =====
-- The lines of internal/logger/logger.go: the escapes of JSON, the two formats, and what is written.
use spool.Prelude.{
  ℕ, zero, suc, ◌-◌, ◌==◌, String, List, [], ◌∷◌, ◌++◌, Option, none, some, if◌then◌else◌, str_eq,
  ltb, length,
}
use spool.Logger.{
  Text, codes, Level, error, fatal, rank, level_name, level_color, color_reset, Logger, Value,
  string_value, number_value, error_value, other_value, Fields, merge_fields, Default,
}

-- `strings.ReplaceAll` of one code point.
unfoldable pub replace_all : ℕ → Text → Text → Text
replace_all old new [] = []
replace_all old new (c ∷ s) =
    let rest = replace_all old new s in if c == old then new ++ rest else c ∷ rest

-- `escapeJSON`: the backslash first, so that the others' backslashes stay single.
unfoldable pub escape_json : Text → Text
unfolding replace_all
escape_json s0 =
    let s1 = replace_all b'\\' (b'\\' ∷ b'\\' ∷ []) s0 in
    let s2 = replace_all b'"' (b'\\' ∷ b'"' ∷ []) s1 in
    let s3 = replace_all 10 (b'\\' ∷ b'n' ∷ []) s2 in
    let s4 = replace_all 13 (b'\\' ∷ b'r' ∷ []) s3 in replace_all 9 (b'\\' ∷ b't' ∷ []) s4

-- `"key":"text"`
abbrev pub quoted : Text → Text → Text
quoted key text = b'"' ∷ (key ++ (b'"' ∷ b':' ∷ b'"' ∷ (text ++ (b'"' ∷ []))))

unfoldable pub json_field : String → Value → Text
unfolding escape_json
json_field k (string_value text) = b',' ∷ quoted (codes k) (escape_json (codes text))
json_field k (number_value text) = b',' ∷ b'"' ∷ (codes k ++ (b'"' ∷ b':' ∷ codes text))
json_field k (error_value text) = b',' ∷ quoted (codes k) (escape_json (codes text))
json_field k (other_value text) = b',' ∷ quoted (codes k) (escape_json (codes text))

unfoldable pub json_fields : Fields → Text
unfolding json_field
json_fields [] = []
json_fields (f ∷ fs) = json_field f.0 f.1 ++ json_fields fs

unfoldable pub json_component : String → Text
json_component component =
    if str_eq component "" then [] else b',' ∷ quoted (codes "component") (codes component)

-- `caller` is the `file:line` of `runtime.Caller`, if it knows one.
unfoldable pub json_caller : Option String → Level → Text
json_caller none level = []
json_caller (some file_line) level =
    if ltb (rank level) (rank error) then [] else b',' ∷ quoted (codes "caller") (codes file_line)

-- The line of `logJSON` without the newline at its end.
unfoldable pub json_body : Logger → String → Option String → Level → Text → Fields → Text
unfolding level_name escape_json json_fields json_component json_caller
json_body l timestamp caller level msg fields =
    b'{'
    ∷ (quoted (codes "timestamp") (codes timestamp)
        ++ (b','
            ∷ (quoted (codes "level") (codes (level_name level))
                ++ (json_component l.component
                    ++ (b','
                        ∷ (quoted (codes "message") (escape_json msg)
                            ++ (json_fields fields
                                ++ (json_caller caller level ++ (b'}' ∷ [])))))))))

value_text : Value → String
value_text (string_value text) = text
value_text (number_value text) = text
value_text (error_value text) = text
value_text (other_value text) = text

text_fields : Fields → Text
unfolding value_text
text_fields [] = []
text_fields (f ∷ fs) = b' ' ∷ (codes f.0 ++ (b'=' ∷ (codes (value_text f.1) ++ text_fields fs)))

spaces : ℕ → Text
spaces zero = []
spaces (suc n) = b' ' ∷ spaces n

-- `%-5s`
pad : Text → Text
unfolding spaces
pad s = s ++ spaces (5 - length s)

-- The line of `logText` without the newline at its end.
unfoldable pub text_body : Logger → String → Level → Text → Fields → Text
unfolding level_name level_color pad text_fields
text_body l timestamp level msg fields =
    let head = b'[' ∷ (codes timestamp ++ (b']' ∷ b' ' ∷ pad (codes (level_name level)))) in
    let component =
      if str_eq l.component "" then [] else b' ' ∷ b'[' ∷ (codes l.component ++ (b']' ∷ [])) in
    (if l.color_output then level_color level ++ (head ++ color_reset) else head)
    ++ (component ++ (b' ' ∷ (msg ++ text_fields fields)))

-- What `log` writes.
unfoldable pub log : Logger → String → Option String → Level → Text → Fields → Option Text
unfolding json_body text_body
log l timestamp caller level msg fields =
    if ltb (rank level) (rank l.level)
    then none
    else some (
        (if str_eq l.format "json"
          then json_body l timestamp caller level msg fields
          else text_body l timestamp level msg fields)
        ++ (10 ∷ []))

-- Whether the program goes on.
pub data After : Type 0 where
  goes_on exits : After

abbrev pub after : Level → After
after fatal = exits
after _ = goes_on

-- Debug, Info, Warn, Error and Fatal.
unfoldable pub log_at :
    Logger → String → Option String → Level → Text → List Fields → Option Text × After
unfolding log merge_fields
log_at l timestamp caller level msg fields =
    (log l timestamp caller level msg (merge_fields fields), after level)

-- The functions of the package: without a default logger, what `log.Printf` gets.
unfoldable pub default_log_at :
    Default → String → Option String → Level → Text → List Fields → Option Text × After
unfolding log_at level_name
default_log_at d timestamp caller level msg fields = elim d.default_logger [
  | some l ↦ log_at l timestamp caller level msg fields
  | none ↦ (some (b'[' ∷ (codes (level_name level) ++ (b']' ∷ b' ' ∷ msg))), after level)
]
