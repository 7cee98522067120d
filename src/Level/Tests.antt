-- ===== src/Level/Tests.antt =====
-- Runs of the functions on levels, and the theorems at concrete inputs.
use mathlib.Core.List.{map}
use buffer_full_flush_once.Common.{◌≡◌, refl, ok, err, none, ◌||◌}
use buffer_full_flush_once.Common.Int.{pos, negsuc, eqb_ℤ}
use buffer_full_flush_once.Common.Bytes.{Bytes, codes}
use buffer_full_flush_once.Level.{
  Level, LevelEnabler, static, level_of, warn_level, info_level, min_level, invalid_level,
}
use buffer_full_flush_once.Level.Text.{
  ToLower, ascii_lower, parse_level, unmarshal_lower, unrecognized_level,
}
use buffer_full_flush_once.Level.Least.{IsLeast, level_of-IsLeast}

abbrev ascii : ToLower
ascii = record { to_lower = map ascii_lower; on_ascii = λ s h. refl }

abbrev no_format : Bytes → Level → Bytes
no_format prefix l = prefix

-- The enabler of the info level, with no method `Level`.
abbrev odd_enabler : LevelEnabler Level
odd_enabler = static info_level

reads_mixed_case : parse_level ascii (codes "WarNing") ≡ ok warn_level
unfolding parse_level unmarshal_lower
reads_mixed_case = refl

rejects : parse_level ascii (codes "trace") ≡ err (unrecognized_level (codes "trace"))
unfolding parse_level unmarshal_lower
rejects = refl

nothing_enabled : level_of (static (pos 9)) (pos 0) ≡ invalid_level
unfolding level_of
nothing_enabled = refl

all_enabled : level_of (static (negsuc 9)) (pos 0) ≡ min_level
unfolding level_of
all_enabled = refl

-- An enabler of two levels, with no method `Level`.
abbrev two_levels : LevelEnabler Level
two_levels = record { enabled = λ l s. eqb_ℤ l warn_level || eqb_ℤ l s; level = none }

level_of-IsLeast_example : IsLeast two_levels (pos 0) min_level (level_of two_levels (pos 0))
level_of-IsLeast_example = level_of-IsLeast two_levels (pos 0) refl
