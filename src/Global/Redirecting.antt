-- ===== src/Global/Redirecting.antt =====
-- global.go: redirecting the standard library's logger, and undoing it.
use buffer_full_flush_once.Common.{[], ◌≡◌, refl, true, ok}
use buffer_full_flush_once.Common.Int.{pos}
use buffer_full_flush_once.Level.{Level}
use buffer_full_flush_once.Core.{Platform}
use buffer_full_flush_once.Logger.{Logger}
use buffer_full_flush_once.Logger.Making.{Process}
use buffer_full_flush_once.Global.{
  StdLog, Undo, standard_error, logger_writer, is_method_level, level_to_func, redirected,
  with_std_skip, redirect_std_log_at,
}

module _ (p : Platform) (process : Process p) (unrecognized_level : Level → p.m.Error) where
  -- At a level that has a method RedirectStdLogAt makes the standard logger write to the logger at
  -- that level, without flags and prefix; and what it returns gives it back its flags and its prefix,
  -- whatever happened in between, and the standard error output.
  pub redirect-undo :
      (log : Logger p) (lvl : Level) (std later : StdLog p) (s : p.State)
      → is_method_level lvl ≡ true
      → let (answer, std', s') = redirect_std_log_at p process unrecognized_level log lvl std s in
        (undo : Undo p) × (answer ≡ ok undo)
        × (std' ≡ record {
          flags = pos 0;
          prefix = [];
          output = logger_writer ((with_std_skip p process unrecognized_level log s).0, lvl);
        })
        × (undo later ≡ record std { output = standard_error })
  unfolding redirect_std_log_at redirected level_to_func
  redirect-undo log lvl std later s known = rw (redirected, known) (_, refl, refl, refl)
