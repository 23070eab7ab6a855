-- ===== src/Logger.antt =====
-- internal/logger/logger.go: levels, fields and loggers. A text is the list of its code points; what
-- `fmt` prints for a value, the time of day and the caller come from outside.
pub mod Format
pub mod Escaping
pub mod Lines
use spool.Prelude.{
  ℕ, zero, suc, ◌-◌, ◌==◌, String, Bool, true, false, ◌&&◌, not, List, [], ◌∷◌, ◌++◌, Option, none,
  some, Map, insert, if◌then◌else◌, str_eq, ltb, length,
}
use Prim.Native.Char.{code}
use Prim.Native.String

abbrev pub Text : Type 0
Text = List ℕ

-- The code points of a text.
abbrev pub codes : String → Text
codes String.[] = []
codes (String.◌∷◌ c s) = code c ∷ codes s

-- `type Level int`, with the constants as its values.
pub data Level : Type 0 where
  debug info warn error fatal : Level

-- The values of the constants.
abbrev pub rank : Level → ℕ
rank debug = 0
rank info = 1
rank warn = 2
rank error = 3
rank fatal = 4

unfoldable pub level_name : Level → String
level_name debug = "DEBUG"
level_name info = "INFO"
level_name warn = "WARN"
level_name error = "ERROR"
level_name fatal = "FATAL"

-- Each colour is an escape sequence, and begins with the code point 27.
unfoldable pub level_color : Level → Text
level_color debug = 27 ∷ codes "[36m"
level_color info = 27 ∷ codes "[32m"
level_color warn = 27 ∷ codes "[33m"
level_color error = 27 ∷ codes "[31m"
level_color fatal = 27 ∷ codes "[35m"

abbrev pub color_reset : Text
color_reset = 27 ∷ codes "[0m"

pub data Writer : Type 0 where
  stdout stderr other_writer : Writer

pub record Logger : Type 0 where
  pub level : Level
  pub output : Writer
  pub component : String
  pub format : String
  pub color_output : Bool

-- The value of a field, by the cases of the type switch: a string; a number or a Boolean with what
-- `%v` prints of it; an error with its message; any other value with what `%v` prints of it.
pub data Value : Type 0 where
  string_value number_value error_value other_value : String → Value

abbrev pub Fields : Type 0
Fields = Map Value

-- `to_upper` is `strings.ToUpper`.
unfoldable pub parse_level : (String → String) → String → Level
parse_level to_upper level_str =
    let s = to_upper level_str in
    if str_eq s "DEBUG"
    then debug
    else if str_eq s "INFO"
    then info
    else if str_eq s "WARN"
    then warn
    else if str_eq s "WARNING"
    then warn
    else if str_eq s "ERROR"
    then error
    else if str_eq s "FATAL"
    then fatal
    else info

unfoldable pub is_terminal : Writer → Bool
is_terminal stdout = true
is_terminal stderr = true
is_terminal other_writer = false

unfoldable pub new_logger : (String → String) → String → String → String → Logger
unfolding parse_level is_terminal
new_logger to_upper level_str format component = record {
  level = parse_level to_upper level_str;
  output = stdout;
  component = component;
  format = format;
  color_output = str_eq format "text" && is_terminal stdout;
}

unfoldable pub with_component : Logger → String → Logger
with_component l component = record l { component = component }

-- One of the maps is copied over the fields so far.
unfoldable pub copy_fields : Fields → Fields → Fields
copy_fields [] result = result
copy_fields (f ∷ fs) result = copy_fields fs (insert f.0 f.1 result)

merge_into : List Fields → Fields → Fields
unfolding copy_fields
merge_into [] result = result
merge_into (f ∷ fs) result = merge_into fs (copy_fields f result)

unfoldable pub merge_fields : List Fields → Fields
unfolding merge_into
merge_fields fields = merge_into fields []

-- The default logger and its `sync.Once`.
pub record Default : Type 0 where
  pub initialized : Bool
  pub default_logger : Option Logger

unfoldable pub init : (String → String) → String → String → String → Default → Default
unfolding new_logger
init to_upper level format component d = if d.initialized then d else record {
  initialized = true;
  default_logger = some (new_logger to_upper level format component);
}
