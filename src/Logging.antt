-- ===== src/Logging.antt =====
-- logging/logger.go: the one logger and its levels. What is logged is seen as its text after
-- `fmt.Sprint` or `fmt.Sprintf`; the file, line and time in front of it are the package log's.
pub mod Levels
use sawtooth_sdk_go.Base.{
  ℕ, Bytes, text, leb, List, [], ◌∷◌, ◌++◌, Option, none, some, if◌then◌else◌,
}

abbrev pub critical_level : ℕ
critical_level = 50

abbrev pub error_level : ℕ
error_level = 40

abbrev pub warn_level : ℕ
warn_level = 30

abbrev pub info_level : ℕ
info_level = 20

abbrev pub debug_level : ℕ
debug_level = 10

-- `output` is what was written, the latest line last; `writer` is where it goes
pub record Logger : Type 0 where
  pub level : ℕ
  pub writer : ℕ
  pub output : List (ℕ × Bytes)

abbrev pub stdout : ℕ
stdout = 1

-- `Get()`, on the variable that holds the logger
unfoldable pub get : Option Logger → Logger
get none = record { level = debug_level; writer = stdout; output = [] }
get (some l) = l

unfoldable pub set_level : ℕ → Logger → Logger
set_level level l = record l { level = level }

unfoldable pub set_output : ℕ → Logger → Logger
set_output w l = record l { writer = w }

unfoldable pub log : Bytes → Bytes → Logger → Logger
log prefix message l = record l {
  output = l.output ++ (l.writer, text "[" ++ (prefix ++ (text "] " ++ message))) ∷ [];
}

-- `Debug` and `Debugf`, and so on
unfoldable pub debug : Bytes → Logger → Logger
unfolding log
debug message l = if leb l.level debug_level then log (text "DEBUG") message l else l

unfoldable pub info : Bytes → Logger → Logger
unfolding log
info message l = if leb l.level info_level then log (text "INFO") message l else l

unfoldable pub warn : Bytes → Logger → Logger
unfolding log
warn message l = if leb l.level warn_level then log (text "WARN") message l else l

unfoldable pub error : Bytes → Logger → Logger
unfolding log
error message l = if leb l.level error_level then log (text "ERROR") message l else l

unfoldable pub critical : Bytes → Logger → Logger
unfolding log
critical message l = if leb l.level critical_level then log (text "CRITICAL") message l else l
