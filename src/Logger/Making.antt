-- ===== src/Logger/Making.antt =====
-- logger.go: the constructors of a logger, and its small methods.
use buffer_full_flush_once.Common.{false, Option, none, some, List, [], Result, ok, err}
use buffer_full_flush_once.Common.Int.{ℤ, pos, ◌+ℤ◌}
use buffer_full_flush_once.Common.Bytes.{Bytes}
use buffer_full_flush_once.Level.{static, fatal_level}
use buffer_full_flush_once.WriteSyncer.{WriteSyncer, plain, add_sync, lock}
use buffer_full_flush_once.Core.{Platform, Core, nop}
use buffer_full_flush_once.Core.Writing.{sync_core}
use buffer_full_flush_once.Sinks.Opening.{Files}
use buffer_full_flush_once.Logger.{Logger}
use buffer_full_flush_once.Logger.Options.{LoggerOption, with_options}

-- The process: its files, with the standard streams, its clock, which is `DefaultClock`, and what
-- fmt makes of the error of IncreaseLevel.
pub record Process (p : Platform) : Type 0 where
  pub files : Files p.m p.State
  pub default_clock : p.State → ℤ × p.State
  pub increase_text : p.m.Error → Bytes

module _ (p : Platform) (process : Process p) where
  abbrev pub bare : Core p → WriteSyncer p.State p.m.Error → Logger p
  bare core out = record {
    core = core;
    development = false;
    add_caller = false;
    on_panic = none;
    on_fatal = none;
    name = [];
    error_output = out;
    add_stack = static (fatal_level +ℤ pos 1);
    caller_skip = pos 0;
    clock = process.default_clock;
  }

  -- `NewNop`.
  unfoldable pub new_nop : Logger p
  new_nop = bare nop (add_sync (plain process.files.discard))

  -- `New`, of a core that is not nil: the logger without the options.
  unfoldable pub new_bare : Core p → Logger p
  new_bare core = bare core (lock process.files.stderr)

  -- `New`.
  unfoldable pub new_logger : Option (Core p) → List (LoggerOption p) → p.State → Logger p × p.State
  new_logger none options s = (new_nop, s)
  new_logger (some core) options s = with_options p process.increase_text options (new_bare core) s

-- What `Must` does: it returns the logger, or panics with the error.
pub data MustOutcome (E L : Type 0) : Type 0 where
  returns_logger : L → MustOutcome E L
  panics : E → MustOutcome E L

unfoldable pub must : {E L : Type 0} → Result E L → MustOutcome E L
must (ok log) = returns_logger log
must (err e) = panics e

module _ (p : Platform) where
  -- `Sync`, `Core` and `Name`.
  unfoldable pub sync_logger : Logger p → p.State → Option p.m.Error × p.State
  sync_logger log s = sync_core log.core s

  unfoldable pub logger_core : Logger p → Core p
  logger_core log = log.core

  unfoldable pub logger_name : Logger p → Bytes
  logger_name log = log.name
