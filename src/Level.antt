-- ===== src/Level.antt =====
-- zapcore/level.go: logging levels, what enables them, and the least enabled level.
-- The texts of levels are in `Level/Text.antt`, the proofs in the other modules below.
pub mod Text
pub mod Least
pub mod TextLaws
mod Tests
use buffer_full_flush_once.Common.{ℕ, zero, suc, Bool, Option, none, some, if◌then◌else◌}
use buffer_full_flush_once.Common.Int.{ℤ, pos, negsuc, ◌+ℤ◌, leb_ℤ}

-- `type Level int8`.
abbrev pub Level : Type 0
Level = ℤ

abbrev pub debug_level : Level
debug_level = negsuc 0

abbrev pub info_level : Level
info_level = pos 0

abbrev pub warn_level : Level
warn_level = pos 1

abbrev pub error_level : Level
error_level = pos 2

abbrev pub dpanic_level : Level
dpanic_level = pos 3

abbrev pub panic_level : Level
panic_level = pos 4

abbrev pub fatal_level : Level
fatal_level = pos 5

abbrev pub min_level : Level
min_level = debug_level

abbrev pub max_level : Level
max_level = fatal_level

abbrev pub invalid_level : Level
invalid_level = pos 6

-- The interface `LevelEnabler`, over the state `S` that a dynamic enabler reads, with the optional
-- method of `leveledEnabler`.
pub record LevelEnabler (S : Type 0) : Type 0 where
  pub enabled : Level → S → Bool
  pub level : Option (S → Level)

-- `l.Enabled(lvl)` for a level.
abbrev pub enabled : Level → Level → Bool
enabled l lvl = leb_ℤ l lvl

-- A level as an enabler. It has no method `Level`.
abbrev pub static : {S : Type 0} → Level → LevelEnabler S
static l = record { enabled = λ lvl s. enabled l lvl; level = none }

-- The loop of `LevelOf` from `lvl` on, with the count of rounds left.
pub scan_levels : {S : Type 0} → ℕ → Level → LevelEnabler S → S → Level
scan_levels zero lvl e s = invalid_level
scan_levels (suc k) lvl e s =
    let rest = scan_levels k (lvl +ℤ pos 1) e s in if e.enabled lvl s then lvl else rest

-- `LevelOf`: the loop makes a round for each of the seven levels.
unfoldable pub level_of : {S : Type 0} → LevelEnabler S → S → Level
unfolding scan_levels
level_of e s = elim e.level [ some level ↦ level s | none ↦ scan_levels 7 min_level e s ]
