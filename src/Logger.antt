-- ===== src/Logger.antt =====
-- include/tarantool_connector/tntpp_logger.h and tntpp_cout_logger.h: the levels of the log, which
-- messages are handled, and the name of the source file in a line of the log. A text of the source
-- location is the list of its bytes, without the zero at its end.
pub mod BaseName
mod Tests
use Prim.Native.String.{String}
use tntpp.Common.{
  ℕ, zero, suc, ◌+◌, ◌-◌, ◌%◌, ◌^◌, Bool, true, false, ◌&&◌, Option, none, some, List, [], ◌∷◌,
  ◌++◌, leb, ◌==◌, if◌then◌else◌, length, drop,
}

pub data LogLevel : Type 0 where
  fatal error warn info debug trace : LogLevel

-- The value of an enumerator.
unfoldable pub level_number : LogLevel → ℕ
level_number fatal = 0
level_number error = 1
level_number warn = 2
level_number info = 3
level_number debug = 4
level_number trace = 5

unfoldable pub log_level_to_string : LogLevel → String
log_level_to_string fatal = "FATAL"
log_level_to_string error = "ERROR"
log_level_to_string warn = "WARN"
log_level_to_string info = "INFO"
log_level_to_string debug = "DEBUG"
log_level_to_string trace = "TRACE"

-- The test of `TNTPP_LOG`, on what `max_log_level` of the logger gives, if there is one.
unfoldable pub is_handled : Option LogLevel → LogLevel → Bool
unfolding level_number
is_handled none level = false
is_handled (some max_log_level) level = leb (level_number level) (level_number max_log_level)

-- `std::string_view::npos`.
abbrev pub npos : ℕ
npos = 2 ^ 64 - 1

-- The index of the last occurrence of a byte.
unfoldable pub last_index : ℕ → List ℕ → Option ℕ
last_index c [] = none
last_index c (x ∷ xs) = elim (last_index c xs) [
  | none ↦ if x == c then some 0 else none
  | some i ↦ some (suc i)
]

-- `rfind`.
unfoldable pub rfind : ℕ → List ℕ → ℕ
unfolding last_index
rfind c s = elim (last_index c s) [ none ↦ npos | some i ↦ i ]

-- `if (auto it = …; it != 0) { sep = ++it; }` for a `sep` of 0.
unfoldable pub separator : ℕ → ℕ
separator it = if it == 0 then 0 else (it + 1) % 2 ^ 64

unfoldable pub strip_filename : List ℕ → List ℕ
unfolding rfind separator
strip_filename s =
    let sep = separator (rfind 47 s) in drop (if sep == 0 then separator (rfind 92 s) else sep) s

-- At most the last `len` bytes.
unfoldable pub strip_string : List ℕ → ℕ → List ℕ
strip_string s len = if leb (length s) len then s else drop (length s - len) s

-- What fmt makes of the format of a line: the name of the file, the column, the time, the level.
-- fmt and the clock are parameters.
pub record Fmt : Type 1 where
  pub Time : Type 0
  pub prefix : List ℕ → ℕ → Time → String → List ℕ

pub record SourceLocation : Type 0 where
  pub file_name : List ℕ
  pub column : ℕ

-- `StdoutLogger`: its level, by default `info`.
pub record StdoutLogger : Type 0 where
  pub max_log_level : LogLevel

unfoldable pub default_logger : StdoutLogger
default_logger = record { max_log_level = info }

module _ (f : Fmt) where
  -- The bytes written to the standard output so far, and then those of a message.
  unfoldable pub handle : List ℕ → LogLevel → List ℕ → SourceLocation → f.Time → List ℕ
  unfolding strip_string strip_filename log_level_to_string
  handle out level message location now =
      out
      ++ (f.prefix (strip_string (strip_filename location.file_name) 15) location.column now
            (log_level_to_string level)
          ++ (message ++ 10 ∷ []))

  abbrev level_of : Option StdoutLogger → Option LogLevel
  level_of none = none
  level_of (some l) = some l.max_log_level

  -- `TNTPP_LOG` with a formatted message.
  unfoldable pub log :
      Option StdoutLogger → List ℕ → LogLevel → List ℕ → SourceLocation → f.Time → List ℕ
  unfolding is_handled handle
  log logger out level message location now =
      if is_handled (level_of logger) level then handle out level message location now else out
