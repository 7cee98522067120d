-- ===== src/TestLogger.antt =====
-- zaptest/logger.go: a logger that writes to a running test.
use buffer_full_flush_once.Common.{
  Bool, true, false, none, some, List, [], ◌∷◌, length, if◌then◌else◌,
}
use buffer_full_flush_once.Common.Bytes.{Bytes}
use buffer_full_flush_once.Level.{LevelEnabler, static, debug_level, Level}
use buffer_full_flush_once.WriteSyncer.{WriteSyncer, Writer, external}
use buffer_full_flush_once.Core.{Platform, io}
use buffer_full_flush_once.Encoder.{Formats}
use buffer_full_flush_once.Encoder.Config.{EncoderConfig}
use buffer_full_flush_once.Logger.{Logger}
use buffer_full_flush_once.Logger.Options.{LoggerOption, error_output}
use buffer_full_flush_once.Logger.Making.{Process, new_logger}
use buffer_full_flush_once.Config.{new_development_encoder_config}

-- The interface `TestingT`, as far as it is used, and bytes.TrimRight of line feeds.
pub record TestingT (S : Type 0) : Type 0 where
  pub logf : Bytes → S → S
  pub fail : S → S
  pub trim_right : Bytes → Bytes

pub record TestingWriter (S : Type 0) : Type 0 where
  pub t : TestingT S
  pub mark_failed : Bool

module _ {S : Type 0} where
  unfoldable pub new_testing_writer : TestingT S → TestingWriter S
  new_testing_writer t = record { t = t; mark_failed = false }

  unfoldable pub with_mark_failed : Bool → TestingWriter S → TestingWriter S
  with_mark_failed v w = record w { mark_failed = v }

module _ {S E : Type 0} where
  -- `Write`, which writes all and returns no error.
  unfoldable pub testing_write : TestingWriter S → Writer S E
  testing_write w text s =
      let logged = w.t.logf (w.t.trim_right text) s in
      (length text, none, if w.mark_failed then w.t.fail logged else logged)

  -- A TestingWriter as a WriteSyncer, whose Sync does nothing.
  unfoldable pub testing_syncer : TestingWriter S → WriteSyncer S E
  testing_syncer w = external (testing_write w) (λ s. (none, s))

-- `loggerOptions`.
pub record TestOptions (p : Platform) : Type 0 where
  pub level : LevelEnabler p.State
  pub zap_options : List (LoggerOption p)

-- `LoggerOption`, by the function that makes it: `Level` or `WrapOptions`.
pub data TestOption (p : Platform) : Type 0 where
  test_level : LevelEnabler p.State → TestOption p
  wrap_options : List (LoggerOption p) → TestOption p

module _ (p : Platform) where
  unfoldable pub apply_test_option : TestOption p → TestOptions p → TestOptions p
  apply_test_option (test_level enab) opts = record opts { level = enab }
  apply_test_option (wrap_options options) opts = record opts { zap_options = options }

  abbrev pub apply_test_options : List (TestOption p) → TestOptions p → TestOptions p
  apply_test_options [] cfg = cfg
  apply_test_options (o ∷ os) cfg = apply_test_options os (apply_test_option o cfg)

  -- `NewLogger`, with the constructor of console encoders.
  unfoldable pub new_test_logger :
      (f : Formats) (sprintf : Bytes → Level → Bytes)
      → (EncoderConfig f → p.Encoder)
      → Process p
      → TestingT p.State
      → List (TestOption p)
      → p.State
      → Logger p × p.State
  new_test_logger f sprintf new_console_encoder process t opts s =
      let cfg = apply_test_options opts (record { level = static debug_level; zap_options = [] }) in
      let writer = new_testing_writer t in
      let failing = testing_syncer (with_mark_failed true writer) in
      let encoder = new_console_encoder (new_development_encoder_config sprintf f) in
      new_logger p process (some (io cfg.level encoder (testing_syncer writer)))
        (error_output failing ∷ cfg.zap_options) s
