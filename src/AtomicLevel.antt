-- ===== src/AtomicLevel.antt =====
-- level.go: a level in a cell of the state, which the cores of a tree of loggers share.
pub mod Changing
pub mod Handler
pub mod Serving
mod Tests
use buffer_full_flush_once.Common.{ℕ, Bool, Option, none, some, Ref, Result, ok, err}
use buffer_full_flush_once.Common.Bytes.{Bytes}
use buffer_full_flush_once.Level.{Level, LevelEnabler, enabled, info_level}
use buffer_full_flush_once.Level.Text.{ToLower, LevelError, string, parse_level, unmarshal_text}

-- `AtomicLevel`: its pointer.
abbrev pub AtomicLevel : Type 0 → Type 0
AtomicLevel S = Ref S Level

module _ {S : Type 0} where
  unfoldable pub level : AtomicLevel S → S → Level
  level a s = a.load s

  unfoldable pub set_level : AtomicLevel S → Level → S → S
  set_level a l s = a.store l s

  unfoldable pub level_enabled : AtomicLevel S → Level → S → Bool
  level_enabled a l s = enabled (level a s) l

  -- An atomic level as an enabler.
  unfoldable pub atomic : AtomicLevel S → LevelEnabler S
  atomic a = record { enabled = level_enabled a; level = some (level a) }

  -- The constructors, on a new cell.
  unfoldable pub new_atomic_level : AtomicLevel S → S → S
  new_atomic_level a s = a.store info_level s

  unfoldable pub new_atomic_level_at : AtomicLevel S → Level → S → S
  new_atomic_level_at a l s = set_level a l (new_atomic_level a s)

  -- The level is set only where the text is one.
  unfoldable pub set_parsed : AtomicLevel S → Result LevelError Level → S → Option LevelError × S
  set_parsed a (ok l) s = (none, set_level a l s)
  set_parsed a (err e) s = (some e, s)

  unfoldable pub parse_atomic_level : ToLower → AtomicLevel S → Bytes → S → Option LevelError × S
  parse_atomic_level lower a text s = set_parsed a (parse_level lower text) (new_atomic_level a s)

  unfoldable pub atomic_string : (Bytes → Level → Bytes) → AtomicLevel S → S → Bytes
  atomic_string sprintf a s = string sprintf (level a s)

  -- `UnmarshalText`, at a pointer that is not nil: the text is read into a new level first, which
  -- is what ParseLevel does.
  unfoldable pub unmarshal_atomic : ToLower → AtomicLevel S → Bytes → S → Option LevelError × S
  unmarshal_atomic lower a text s = set_parsed a (parse_level lower text) s

  -- `MarshalText`, which returns no error.
  unfoldable pub marshal_atomic : (Bytes → Level → Bytes) → AtomicLevel S → S → Bytes
  marshal_atomic sprintf a s = string sprintf (level a s)
