-- ===== src/Logging/Levels.antt =====
-- Which messages a logger writes.
use sawtooth_sdk_go.Base.{
  ◌≡◌, refl, ap, ◌∙◌, sym, ℕ, Bytes, text, leb, List, [], ◌∷◌, ◌++◌, append_assoc, append-nil, Bool,
  true, false, if◌then◌else◌,
}
use sawtooth_sdk_go.Logging.{
  Logger, log, debug, info, warn, error, critical, debug_level, info_level, warn_level, error_level,
  critical_level,
}

pub data Severity : Type 0 where
  is_debug is_info is_warn is_error is_critical : Severity

abbrev pub level_of : Severity → ℕ
level_of is_debug = debug_level
level_of is_info = info_level
level_of is_warn = warn_level
level_of is_error = error_level
level_of is_critical = critical_level

abbrev pub name_of : Severity → Bytes
name_of is_debug = text "DEBUG"
name_of is_info = text "INFO"
name_of is_warn = text "WARN"
name_of is_error = text "ERROR"
name_of is_critical = text "CRITICAL"

-- the call for a severity
abbrev pub call : Severity → Bytes → Logger → Logger
call is_debug = debug
call is_info = info
call is_warn = warn
call is_error = error
call is_critical = critical

pub calls : List (Severity × Bytes) → Logger → Logger
calls [] l = l
calls ((s, m) ∷ rest) l = calls rest (call s m l)

-- the lines of the messages that are severe enough
pub severe : ℕ → ℕ → List (Severity × Bytes) → List (ℕ × Bytes)
severe w level [] = []
severe w level ((s, m) ∷ rest) =
    let others = severe w level rest in
    if leb level (level_of s)
    then (w, text "[" ++ (name_of s ++ (text "] " ++ m))) ∷ others
    else others

-- what a logger writes of a series of messages
abbrev pub Writes : List (Severity × Bytes) → Logger → Type 0
Writes ms l =
    ((calls ms l).output ≡ l.output ++ severe l.writer l.level ms)
    × ((calls ms l).level ≡ l.level)
    × ((calls ms l).writer ≡ l.writer)

call_lem :
    (s : Severity) (m : Bytes) (l : Logger)
    → call s m l ≡ (if leb l.level (level_of s) then log (name_of s) m l else l)
unfolding debug info warn error critical
call_lem is_debug m l = refl
call_lem is_info m l = refl
call_lem is_warn m l = refl
call_lem is_error m l = refl
call_lem is_critical m l = refl

-- One message, and what follows it.
logged_or_not :
    (b : Bool) (n m : Bytes) (others : List (Severity × Bytes)) (l : Logger)
    → ((l' : Logger) → Writes others l')
    → let next = if b then log n m l else l in
      ((calls others next).output
        ≡ l.output
          ++ (if b
              then (l.writer, text "[" ++ (n ++ (text "] " ++ m))) ∷ severe l.writer l.level others
              else severe l.writer l.level others))
      × ((calls others next).level ≡ l.level)
      × ((calls others next).writer ≡ l.writer)
unfolding log
logged_or_not true n m others l ih =
    let line : ℕ × Bytes = (l.writer, text "[" ++ (n ++ (text "] " ++ m))) in
    let (out, level, writer) = ih (log n m l) in
    (out ∙ append_assoc l.output (line ∷ []) (severe l.writer l.level others), level, writer)
logged_or_not false n m others l ih = ih l

-- A logger writes, of all that it is called with, the messages whose severity is at least its
-- level, each once, in order and behind what it had written, and keeps its level and its writer.
pub calls_lem : (ms : List (Severity × Bytes)) (l : Logger) → Writes ms l
unfolding calls severe
calls_lem [] l = (sym (append-nil l.output), refl, refl)
calls_lem ((s, m) ∷ rest) l =
    let (out, level, writer) =
      logged_or_not (leb l.level (level_of s)) (name_of s) m rest l (calls_lem rest) in
    let same = call_lem s m l in
    (
      ap (λ k. (calls rest k).output) same ∙ out,
      ap (λ k. (calls rest k).level) same ∙ level,
      ap (λ k. (calls rest k).writer) same ∙ writer,
    )
