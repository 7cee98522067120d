-- ===== src/Grpc.antt =====
-- zapgrpc/zapgrpc.go: a logger with the interface of grpclog, over the sugared logger.
pub mod Lines
mod Tests
use buffer_full_flush_once.Common.{
  ℕ, ◌==◌, Bool, true, false, Option, none, some, List, [], ◌∷◌, if◌then◌else◌,
}
use buffer_full_flush_once.Common.Int.{ℤ, pos, eqb_ℤ}
use buffer_full_flush_once.Common.Bytes.{Bytes}
use buffer_full_flush_once.Level.{
  Level, debug_level, info_level, warn_level, error_level, fatal_level,
}
use buffer_full_flush_once.Entry.{Outcome, returns}
use buffer_full_flush_once.Core.{Platform, Core, core_enabled}
use buffer_full_flush_once.Logger.{Logger, Runtime}
use buffer_full_flush_once.Sugar.{text}
use buffer_full_flush_once.Sugar.Logging.{
  Sugaring, SugaredLogger, sugar, Args, sugar_log, plain, formatted, get_message_ln,
}

-- The levels of gRPC: `_grpcToZapLevel`, where a level that is no key gives the zero value.
unfoldable pub grpc_to_zap_level : ℤ → Level
grpc_to_zap_level lvl =
    if eqb_ℤ lvl (pos 0)
    then info_level
    else if eqb_ℤ lvl (pos 1)
    then warn_level
    else if eqb_ℤ lvl (pos 2)
    then error_level
    else if eqb_ℤ lvl (pos 3)
    then fatal_level
    else pos 0

-- `printer`: its enabler, its level, and the methods of the delegate at a level.
pub record Printer (p : Platform) : Type 0 where
  pub enab : Core p
  pub level : Level
  pub delegate : SugaredLogger p
  pub method : Level

-- `Logger`.
pub record GrpcLogger (p : Platform) : Type 0 where
  pub delegate : SugaredLogger p
  pub level_enabler : Core p
  pub print : Printer p
  pub fatal : Printer p

-- `Option`, by the function that makes it.
pub data GrpcOption : Type 0 where
  with_debug : GrpcOption
  with_warn : GrpcOption

module _ {p : Platform} where
  abbrev pub printer_at : SugaredLogger p → Core p → Level → Printer p
  printer_at delegate enab lvl = record {
    enab = enab;
    level = lvl;
    delegate = delegate;
    method = lvl;
  }

  unfoldable pub apply_grpc_option : GrpcOption → GrpcLogger p → GrpcLogger p
  apply_grpc_option with_debug l = record l {
    print = printer_at l.delegate l.level_enabler debug_level;
  }
  apply_grpc_option with_warn l = record l {
    fatal = printer_at l.delegate l.level_enabler warn_level;
  }

  abbrev pub apply_grpc_options : List GrpcOption → GrpcLogger p → GrpcLogger p
  apply_grpc_options [] l = l
  apply_grpc_options (opt ∷ opts) l = apply_grpc_options opts (apply_grpc_option opt l)

  -- `NewLogger`.
  unfoldable pub new_grpc_logger : Logger p → List GrpcOption → GrpcLogger p
  new_grpc_logger log opts =
      let delegate = sugar log in
      apply_grpc_options opts (record {
        delegate = delegate;
        level_enabler = log.core;
        print = printer_at delegate log.core info_level;
        fatal = printer_at delegate log.core fatal_level;
      })

module _ (p : Platform) (g : Sugaring p) (rt : Runtime) where
  -- What the printers and the methods do: a line is made, and logged, only where the level is enabled.
  unfoldable pub log_line_if :
      Core p → Level → SugaredLogger p → Level → Args p g rt → p.State → Outcome × p.State
  log_line_if enab lvl delegate method args s =
      let logged =
        sugar_log p g rt delegate method (plain (text (get_message_ln p g rt args) ∷ [])) s in
      if core_enabled enab lvl s then logged else (returns, s)

  -- `printer.Print`, `printer.Printf` and `printer.Println`.
  unfoldable pub printer_print : Printer p → Args p g rt → p.State → Outcome × p.State
  printer_print v args s = sugar_log p g rt v.delegate v.method (plain args) s

  unfoldable pub printer_printf : Printer p → Bytes → Args p g rt → p.State → Outcome × p.State
  printer_printf v format args s = sugar_log p g rt v.delegate v.method (formatted format args) s

  unfoldable pub printer_println : Printer p → Args p g rt → p.State → Outcome × p.State
  printer_println v args s = log_line_if v.enab v.level v.delegate v.method args s

  -- The three forms in which a method takes its arguments.
  pub data GrpcForm : Type 0 where
    print_form : Args p g rt → GrpcForm
    line_form : Args p g rt → GrpcForm
    format_form : Bytes → Args p g rt → GrpcForm

  unfoldable pub printer_call : Printer p → GrpcForm → p.State → Outcome × p.State
  printer_call v (print_form args) s = printer_print v args s
  printer_call v (line_form args) s = printer_println v args s
  printer_call v (format_form format args) s = printer_printf v format args s

  -- `Info`, `Infoln` and `Infof`, and those of Warning and Error, at the level of the method.
  unfoldable pub grpc_log : GrpcLogger p → Level → GrpcForm → p.State → Outcome × p.State
  grpc_log l lvl (print_form args) s = sugar_log p g rt l.delegate lvl (plain args) s
  grpc_log l lvl (line_form args) s = log_line_if l.level_enabler lvl l.delegate lvl args s
  grpc_log l lvl (format_form format args) s =
      sugar_log p g rt l.delegate lvl (formatted format args) s

  -- `Print`, `Println` and `Printf`; and those of Fatal.
  unfoldable pub grpc_print : GrpcLogger p → GrpcForm → p.State → Outcome × p.State
  grpc_print l form s = printer_call l.print form s

  unfoldable pub grpc_fatal : GrpcLogger p → GrpcForm → p.State → Outcome × p.State
  grpc_fatal l form s = printer_call l.fatal form s

-- `V`.
unfoldable pub verbose_at : {p : Platform} → GrpcLogger p → ℤ → p.State → Bool
verbose_at l lvl s = core_enabled l.level_enabler (grpc_to_zap_level lvl) s
