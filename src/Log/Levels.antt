-- ===== src/Log/Levels.antt =====
-- The names of the log levels in lunchbox/log.cpp and lunchbox/log.h.
use lunchbox.Prelude.{
  same_text, arith, ℕ, ◌≡◌, Bool, false, ◌&&◌, List, [], ◌∷◌, Option, none, some, ◌==◌, ltb, leb,
  if◌then◌else◌,
}
use lunchbox.Log.{Text}

-- `LogGlobals::levels`; LOG_WARN is the level of LOG_ERROR.
abbrev pub levels : List (ℕ × Text)
levels =
    (1, b'E' ∷ b'R' ∷ b'R' ∷ b'O' ∷ b'R' ∷ [])
    ∷ (1, b'W' ∷ b'A' ∷ b'R' ∷ b'N' ∷ [])
    ∷ (2, b'I' ∷ b'N' ∷ b'F' ∷ b'O' ∷ [])
    ∷ (3, b'D' ∷ b'E' ∷ b'B' ∷ b'U' ∷ b'G' ∷ [])
    ∷ (4, b'V' ∷ b'E' ∷ b'R' ∷ b'B' ∷ [])
    ∷ (6, b'A' ∷ b'L' ∷ b'L' ∷ [])
    ∷ []

-- The loops over the table.
abbrev pub level_in : List (ℕ × Text) → Text → ℕ → ℕ
level_in [] text default_level = default_level
level_in (e ∷ es) text default_level =
    if same_text e.1 text then e.0 else level_in es text default_level

abbrev pub name_in : List (ℕ × Text) → ℕ → Text
name_in [] level = b'E' ∷ b'R' ∷ b'R' ∷ b'O' ∷ b'R' ∷ []
name_in (e ∷ es) level = if e.0 == level then e.1 else name_in es level

-- `getLogLevel`: `number` is what `atoi` reads, 0 for a text that is no number or a negative one, and
-- `default_level` is LOG_INFO or LOG_DEBUG by the build. `none` is the null pointer.
unfoldable pub get_log_level : ℕ → Option (Text × ℕ) → ℕ
get_log_level default_level none = default_level
get_log_level default_level (some (text, number)) =
    if ltb 0 number && leb number 6 then number else level_in levels text default_level

-- `getLogLevelString`
unfoldable pub get_log_level_string : ℕ → Text
get_log_level_string level = name_in levels level

-- The levels that have a name of their own.
abbrev pub is_named : ℕ → Bool
is_named level = if level == 5 then false else ltb 0 level && leb level 6

-- The name of a level is read as that level, and any other level has the name of LOG_ERROR.
pub get_log_level-get_log_level_string :
    (default_level level : ℕ)
    → get_log_level default_level (some (get_log_level_string level, 0))
      ≡ (if is_named level then level else 1)
unfolding get_log_level get_log_level_string
get_log_level-get_log_level_string default_level level = ground arith
