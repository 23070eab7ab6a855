-- ===== src/Logger/Lines.antt =====
-- The lines that internal/logger/logger.go writes: which levels are written, and that a line of the
-- JSON format is one line.
use spool.Prelude.{
  ℕ, ◌==◌, String, Bool, true, false, ◌&&◌, not, [], ◌∷◌, ◌++◌, Option, none, some, ◌≡◌, refl, ◌∙◌,
  arith, if◌then◌else◌, ltb, str_eq, inl, inr, Bool-cases,
}
use spool.Logger.{
  Text, codes, Logger, Level, debug, info, warn, error, fatal, Value, string_value, number_value,
  error_value, other_value, Fields, level_name, rank,
}
use spool.Logger.Format.{
  replace_all, escape_json, quoted, json_field, json_fields, json_component, json_caller, json_body,
  log,
}
use spool.Logger.Escaping.{escaped, escape_json-cons}

and_assoc : (a b c : Bool) → (a && (b && c)) ≡ ((a && b) && c)
and_assoc true b c = refl
and_assoc false b c = refl

and_true : (a b : Bool) → (a && (b && true)) ≡ (a && b)
and_true true true = refl
and_true true false = refl
and_true false b = refl

both : (a b : Bool) → (a && b) ≡ true → (a ≡ true) × (b ≡ true)
both a b h = ground arith

-- The text has no newline.
unfoldable pub is_one_line : Text → Bool
is_one_line [] = true
is_one_line (c ∷ s) = not (c == 10) && is_one_line s

one-append : (s t : Text) → is_one_line (s ++ t) ≡ (is_one_line s && is_one_line t)
unfolding is_one_line
one-append [] t = refl
one-append (c ∷ s) t =
    rw (one-append s t) (and_assoc (not (c == 10)) (is_one_line s) (is_one_line t))

one-escaped : (c : ℕ) → is_one_line (escaped c) ≡ true
unfolding is_one_line
one-escaped c = ground arith

one-escape_json : (s : Text) → is_one_line (escape_json s) ≡ true
unfolding is_one_line escape_json replace_all
one-escape_json [] = refl
one-escape_json (c ∷ s) =
    rw
      (
        escape_json-cons c s,
        one-append (escaped c) (escape_json s),
        one-escaped c,
        one-escape_json s,
      )
      refl

one-quoted :
    (key text : Text) → is_one_line (quoted key text) ≡ (is_one_line key && is_one_line text)
unfolding is_one_line
one-quoted key text = rw (one-append, one-append) (and_true (is_one_line key) (is_one_line text))

-- What of a field stands in the line as it is: its key, and a number.
unfoldable pub is_plain : String → Value → Bool
unfolding is_one_line
is_plain k (number_value text) = is_one_line (codes k) && is_one_line (codes text)
is_plain k (string_value _) = is_one_line (codes k)
is_plain k (error_value _) = is_one_line (codes k)
is_plain k (other_value _) = is_one_line (codes k)

unfoldable pub are_plain : Fields → Bool
unfolding is_plain
are_plain [] = true
are_plain (f ∷ fs) = is_plain f.0 f.1 && are_plain fs

quoted_one :
    (k text : String)
    → is_one_line (codes k) ≡ true
    → is_one_line (quoted (codes k) (escape_json (codes text))) ≡ true
quoted_one k text h =
    one-quoted (codes k) (escape_json (codes text)) ∙ rw (h, one-escape_json (codes text)) refl

one-json_field :
    (k : String) (v : Value) → is_plain k v ≡ true → is_one_line (json_field k v) ≡ true
unfolding is_one_line is_plain json_field
one-json_field k (string_value text) h = quoted_one k text h
one-json_field k (error_value text) h = quoted_one k text h
one-json_field k (other_value text) h = quoted_one k text h
one-json_field k (number_value text) h = one-append (codes k) (b'"' ∷ b':' ∷ codes text) ∙ h

one-json_fields : (fs : Fields) → are_plain fs ≡ true → is_one_line (json_fields fs) ≡ true
unfolding is_one_line are_plain json_fields
one-json_fields [] h = refl
one-json_fields (f ∷ fs) h =
    let (first, others) = both (is_plain f.0 f.1) (are_plain fs) h in
    one-append (json_field f.0 f.1) (json_fields fs)
    ∙ rw (one-json_field f.0 f.1 first, one-json_fields fs others) refl

one-json_component :
    (c : String) → is_one_line (codes c) ≡ true → is_one_line (json_component c) ≡ true
unfolding is_one_line json_component
one-json_component c h = elim (Bool-cases (str_eq c "")) [
  | inl nameless ↦ rw nameless refl
  | inr named ↦ rw named (one-quoted (codes "component") (codes c) ∙ h)
]

-- What is known of the place of the call stands in one line.
unfoldable pub is_plain_caller : Option String → Bool
unfolding is_one_line
is_plain_caller none = true
is_plain_caller (some file_line) = is_one_line (codes file_line)

one-json_caller :
    (caller : Option String) (level : Level)
    → is_plain_caller caller ≡ true
    → is_one_line (json_caller caller level) ≡ true
unfolding is_one_line json_caller is_plain_caller
one-json_caller none level h = refl
one-json_caller (some file_line) level h = elim (Bool-cases (ltb (rank level) (rank error))) [
  | inl low ↦ rw low refl
  | inr high ↦ rw high (one-quoted (codes "caller") (codes file_line) ∙ h)
]

one-level_name : (level : Level) → is_one_line (codes (level_name level)) ≡ true
unfolding is_one_line level_name
one-level_name debug = refl
one-level_name info = refl
one-level_name warn = refl
one-level_name error = refl
one-level_name fatal = refl

one-json_body :
    (l : Logger) (timestamp : String) (caller : Option String) (level : Level) (msg : Text)
    (fields : Fields)
    → is_one_line (codes timestamp) ≡ true
    → is_one_line (codes l.component) ≡ true
    → is_plain_caller caller ≡ true
    → are_plain fields ≡ true
    → is_one_line (json_body l timestamp caller level msg fields) ≡ true
unfolding is_one_line json_body
one-json_body l timestamp caller level msg fields t c k f = simp (
  one-append,
  t,
  one-json_component l.component c,
  one-json_caller caller level k,
  one-json_fields fields f,
  one-escape_json msg,
  one-level_name level,
)

-- A logger of the JSON format writes nothing below its level, and from its level on one line, which
-- has no other newline than the one at its end, whatever the message and the texts of the fields
-- hold, if the time, the component, the caller, the keys and the numbers have no newline.
pub log-one_line :
    (l : Logger) (timestamp : String) (caller : Option String) (level : Level) (msg : Text)
    (fields : Fields)
    → str_eq l.format "json" ≡ true
    → is_one_line (codes timestamp) ≡ true
    → is_one_line (codes l.component) ≡ true
    → is_plain_caller caller ≡ true
    → are_plain fields ≡ true
    → let line = json_body l timestamp caller level msg fields in
      (log l timestamp caller level msg fields
        ≡ (if ltb (rank level) (rank l.level) then none else some (line ++ (10 ∷ []))))
      × (is_one_line line ≡ true)
unfolding log
log-one_line l timestamp caller level msg fields j t c k f =
    (rw j refl, one-json_body l timestamp caller level msg fields t c k f)
