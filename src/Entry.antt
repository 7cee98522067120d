-- ===== src/Entry.antt =====
-- zapcore/entry.go: log entries, and what may happen after one is written.
pub mod Paths
mod Tests
use buffer_full_flush_once.Common.{◌*◌, ◌-◌, ℕ, Bool}
use buffer_full_flush_once.Common.Int.{ℤ, negsuc}
use buffer_full_flush_once.Common.Bytes.{Bytes}
use buffer_full_flush_once.Level.{Level}

pub record EntryCaller : Type 0 where
  pub defined : Bool
  pub pc : ℕ
  pub file : Bytes
  pub line : ℤ
  pub function : Bytes

-- `time` is in nanoseconds since 1970, as `UnixNano` has it.
pub record Entry : Type 0 where
  pub level : Level
  pub time : ℤ
  pub logger_name : Bytes
  pub message : Bytes
  pub caller : EntryCaller
  pub stack : Bytes

-- `time.Time{}`, for which `IsZero` holds: the beginning of the year 1.
abbrev pub zero_time : ℤ
zero_time = negsuc (62_135_596_800 * 1_000_000_000 - 1)

pub data CheckWriteAction : Type 0 where
  write_then_noop : CheckWriteAction
  write_then_goexit : CheckWriteAction
  write_then_panic : CheckWriteAction
  write_then_fatal : CheckWriteAction

-- How a call ends: it returns, ends its goroutine, panics, or exits the process.
pub data Outcome : Type 0 where
  returns : Outcome
  goexits : Outcome
  panics : Bytes → Outcome
  exits : ℕ → Outcome

-- `CheckWriteAction.OnWrite`, of which the entry's message is all that it reads.
unfoldable pub action_on_write : CheckWriteAction → Entry → Outcome
action_on_write write_then_noop ent = returns
action_on_write write_then_goexit ent = goexits
action_on_write write_then_panic ent = panics ent.message
action_on_write write_then_fatal ent = exits 1
