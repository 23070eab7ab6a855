-- ===== src/Logger/Escaping.antt =====
-- What a reader of JSON makes of the strings that internal/logger/logger.go writes.
use spool.Prelude.{
  ℕ, ◌==◌, Bool, true, false, ◌&&◌, ◌||◌, not, [], ◌∷◌, ◌++◌, Option, none, some, ◌≡◌, refl, arith,
  if◌then◌else◌, ltb,
}
use mathlib.Core.List.{append_assoc}
use spool.Logger.{Text}
use spool.Logger.Format.{replace_all, escape_json}

-- How each code point is written.
abbrev pub escaped : ℕ → Text
escaped c =
    if c == b'\\'
    then b'\\' ∷ b'\\' ∷ []
    else if c == b'"'
    then b'\\' ∷ b'"' ∷ []
    else if c == 10
    then b'\\' ∷ b'n' ∷ []
    else if c == 13
    then b'\\' ∷ b'r' ∷ []
    else if c == 9
    then b'\\' ∷ b't' ∷ []
    else c ∷ []

-- The five passes do what one pass over the text does.
pub escape_json-cons : (c : ℕ) (s : Text) → escape_json (c ∷ s) ≡ escaped c ++ escape_json s
unfolding escape_json replace_all
escape_json-cons c s = ground arith

-- The character after a backslash, but for `u`, which starts a code.
abbrev pub revealed : ℕ → Option ℕ
revealed c =
    if c == b'\\' || c == b'"' || c == b'/'
    then some c
    else if c == b'b'
    then some 8
    else if c == b'f'
    then some 12
    else if c == b'n'
    then some 10
    else if c == b'r'
    then some 13
    else if c == b't'
    then some 9
    else none

-- One more code point read.
abbrev pub put_first : ℕ → Option (Text × Text) → Option (Text × Text)
put_first c none = none
put_first c (some (s, rest)) = some (c ∷ s, rest)

-- A reader of a JSON string behind its opening quote, `true` behind a backslash: the text and what
-- follows the closing quote, or none if the string has no end, an escape that is not known or a
-- control character.
unfoldable pub read_string : Bool → Text → Option (Text × Text)
read_string pending [] = none
read_string true (c ∷ s) =
    let rest = read_string false s in elim (revealed c) [ none ↦ none | some d ↦ put_first d rest ]
read_string false (c ∷ s) =
    let rest = read_string false s in
    let escape = read_string true s in
    if c == b'"'
    then some ([], s)
    else if c == b'\\'
    then escape
    else if ltb c 32
    then none
    else put_first c rest

-- A control character must be one of the three that the passes know.
unfoldable pub is_known : ℕ → Bool
is_known c = not (ltb c 32) || c == 10 || c == 13 || c == 9

-- Every control character of the text is a newline, a carriage return or a tab.
unfoldable pub has_known_controls : Text → Bool
unfolding is_known
has_known_controls [] = true
has_known_controls (c ∷ s) = is_known c && has_known_controls s

read_string-escaped :
    (c : ℕ) (t : Text)
    → read_string false (escaped c ++ t)
      ≡ (if is_known c then put_first c (read_string false t) else none)
unfolding read_string is_known
read_string-escaped c t = ground arith

put_known :
    (known others : Bool) (c : ℕ) (s rest : Text)
    → (if known then put_first c (if others then some (s, rest) else none) else none)
      ≡ (if known && others then some (c ∷ s, rest) else none)
put_known true true c s rest = refl
put_known true false c s rest = refl
put_known false others c s rest = refl

-- A reader of JSON reads the escaped text back as it was, and stops at the quote behind it, if its
-- only control characters are newlines, carriage returns and tabs; it refuses the string otherwise.
pub read_string-escape_json :
    (s rest : Text)
    → read_string false (escape_json s ++ (b'"' ∷ rest))
      ≡ (if has_known_controls s then some (s, rest) else none)
unfolding read_string has_known_controls escape_json replace_all
read_string-escape_json [] rest = refl
read_string-escape_json (c ∷ s) rest =
    rw
      (
        escape_json-cons c s,
        append_assoc (escaped c) (escape_json s) (b'"' ∷ rest),
        read_string-escaped c (escape_json s ++ (b'"' ∷ rest)),
        read_string-escape_json s rest,
      )
      (put_known (is_known c) (has_known_controls s) c s rest)
