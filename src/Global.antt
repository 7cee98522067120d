-- ===== src/Global.antt =====
-- global.go: the global loggers, and the standard library's logger over a logger.
pub mod Replacing
pub mod Redirecting
mod Tests
use buffer_full_flush_once.Common.{
  ℕ, ◌+◌, ◌||◌, Bool, Option, none, some, List, [], ◌∷◌, if◌then◌else◌, length, Result, ok, err,
}
use buffer_full_flush_once.Common.Int.{ℤ, pos, eqb_ℤ}
use buffer_full_flush_once.Common.Bytes.{Bytes}
use buffer_full_flush_once.Level.{
  Level, debug_level, info_level, warn_level, error_level, dpanic_level, panic_level, fatal_level,
}
use buffer_full_flush_once.Entry.{Outcome}
use buffer_full_flush_once.Core.{Platform}
use buffer_full_flush_once.Logger.{Logger, Runtime, log_entry}
use buffer_full_flush_once.Logger.Options.{LoggerOption, add_caller_skip, with_options}
use buffer_full_flush_once.Logger.Making.{Process, new_nop}
use buffer_full_flush_once.Sugar.Logging.{SugaredLogger, sugar}

-- `_globalL` and `_globalS`.
pub record Globals (p : Platform) : Type 0 where
  pub logger : Logger p
  pub sugared : SugaredLogger p

-- The cases of the switch of `levelToFunc`.
abbrev pub is_method_level : Level → Bool
is_method_level lvl =
    eqb_ℤ lvl debug_level
    || eqb_ℤ lvl info_level
    || eqb_ℤ lvl warn_level
    || eqb_ℤ lvl error_level
    || eqb_ℤ lvl dpanic_level
    || eqb_ℤ lvl panic_level
    || eqb_ℤ lvl fatal_level

module _ (p : Platform) where
  abbrev pub globals_of : Logger p → Globals p
  globals_of log = record { logger = log; sugared = sugar log }

  unfoldable pub first_globals : Process p → Globals p
  first_globals process = globals_of (new_nop p process)

  -- `L` and `S`.
  unfoldable pub global_logger : Globals p → Logger p
  global_logger globals = globals.logger

  unfoldable pub global_sugared : Globals p → SugaredLogger p
  global_sugared globals = globals.sugared

  -- `ReplaceGlobals`: the function that undoes it, and the new globals.
  unfoldable pub replace_globals : Logger p → Globals p → (Globals p → Globals p) × Globals p
  replace_globals log globals =
      let prev = globals.logger in ((λ later. globals_of prev), globals_of log)

  -- `levelToFunc`: the method of a logger that logs at the level, given by the two; or the error.
  abbrev pub LogFunc : Type 0
  LogFunc = Logger p × Level

  unfoldable pub level_to_func : (Level → p.m.Error) → Logger p → Level → Result p.m.Error LogFunc
  level_to_func unrecognized_level log lvl =
      if is_method_level lvl then ok (log, lvl) else err (unrecognized_level lvl)

  -- Where a standard logger writes to: a `loggerWriter`, or the standard error output.
  pub data LogOutput : Type 0 where
    logger_writer : LogFunc → LogOutput
    standard_error : LogOutput

  -- `loggerWriter.Write`, with bytes.TrimSpace: the count, how the call ends, and the state.
  unfoldable pub write_logged :
      (Bytes → Bytes) → Runtime → LogFunc → Bytes → p.State → ℕ × Outcome × p.State
  write_logged trim_space rt (log, lvl) text s =
      let trimmed = trim_space text in
      let (outcome, s') = log_entry p rt log lvl trimmed [] s in (length trimmed, outcome, s')

-- A logger of the package log.
pub record StdLog (p : Platform) : Type 0 where
  pub flags : ℤ
  pub prefix : Bytes
  pub output : LogOutput p

-- What undoes a redirection.
abbrev pub Undo : Platform → Type 0
Undo p = StdLog p → StdLog p

module _ (p : Platform) (process : Process p) (unrecognized_level : Level → p.m.Error) where
  -- `l.WithOptions(AddCallerSkip(_stdLogDefaultDepth + _loggerWriterDepth))`.
  unfoldable pub with_std_skip : Logger p → p.State → Logger p × p.State
  with_std_skip log s =
      with_options p process.increase_text (add_caller_skip (pos (1 + 2)) ∷ []) log s

  unfoldable pub std_log_over : LogFunc p → StdLog p
  std_log_over func = record { flags = pos 0; prefix = []; output = logger_writer func }

  -- `NewStdLog`, which logs with the method Info.
  unfoldable pub new_std_log : Logger p → p.State → StdLog p × p.State
  new_std_log log s = let (log', s') = with_std_skip log s in (std_log_over (log', info_level), s')

  abbrev pub std_log_with : Result p.m.Error (LogFunc p) → Result p.m.Error (StdLog p)
  std_log_with (ok func) = ok (std_log_over func)
  std_log_with (err e) = err e

  unfoldable pub new_std_log_at : Logger p → Level → p.State → Result p.m.Error (StdLog p) × p.State
  new_std_log_at log lvl s =
      let (log', s') = with_std_skip log s in
      (std_log_with (level_to_func p unrecognized_level log' lvl), s')

  -- The end of `redirectStdLogAt`, on the flags and the prefix of before: what undoes it, and the
  -- standard logger.
  unfoldable pub redirected :
      ℤ → Bytes → Result p.m.Error (LogFunc p) → StdLog p → Result p.m.Error (Undo p) × StdLog p
  redirected flags prefix (err e) std = (err e, std)
  redirected flags prefix (ok func) std = (
    ok (λ later. record { flags = flags; prefix = prefix; output = standard_error }),
    record std { output = logger_writer func },
  )

  -- `redirectStdLogAt` and `RedirectStdLogAt`, on the standard logger.
  unfoldable pub redirect_std_log_at :
      Logger p → Level → StdLog p → p.State → Result p.m.Error (Undo p) × StdLog p × p.State
  redirect_std_log_at log lvl std s =
      let cleared = record std { flags = pos 0; prefix = [] } in
      let (log', s') = with_std_skip log s in
      let (answer, std') =
        redirected std.flags std.prefix (level_to_func p unrecognized_level log' lvl) cleared in
      (answer, std', s')

  -- `RedirectStdLog`: `err` is the panic.
  unfoldable pub redirect_std_log :
      Logger p → StdLog p → p.State → Result p.m.Error (Undo p) × StdLog p × p.State
  redirect_std_log log std s = redirect_std_log_at log info_level std s
