-- ===== src/Grpc/Lines.antt =====
-- zapgrpc/zapgrpc.go: the methods that log a line, against the others.
use buffer_full_flush_once.Common.{
  ◌≡◌, refl, ap, ◌∙◌, true, [], inl, inr, Bool-cases, if◌then◌else◌,
}
use buffer_full_flush_once.Common.Int.{ltb_ℤ}
use buffer_full_flush_once.Common.Bytes.{Bytes}
use buffer_full_flush_once.Level.{Level, dpanic_level, fatal_level}
use buffer_full_flush_once.Entry.{returns, exits}
use buffer_full_flush_once.Core.{Platform, core_enabled}
use buffer_full_flush_once.Logger.{Logger, Runtime}
use buffer_full_flush_once.Logger.Ending.{IsDefault, log_entry-ending}
use buffer_full_flush_once.Sugar.{sweeten_fields, sweeten_from, get_message}
use buffer_full_flush_once.Sugar.Logging.{
  Sugaring, sugar, Args, sugar_log, log_lines, log_message, plain, formatted, lines,
  sugar_log-log_entry, style_message, style_context, Style,
}
use buffer_full_flush_once.Grpc.{
  print_form, line_form, format_form, new_grpc_logger, grpc_log, grpc_fatal, log_line_if,
  printer_call, printer_print, printer_println, printer_printf,
}

module _ (p : Platform) (g : Sugaring p) (rt : Runtime) where
  -- Infoln, Warningln and Errorln of the gRPC logger, which test the level first, do what the
  -- methods of the sugared logger with these endings do, at every level below DPanicLevel.
  pub grpc_log-sugar_log :
      (log : Logger p) (lvl : Level) (args : Args p g rt) (s : p.State)
      → ltb_ℤ lvl dpanic_level ≡ true
      → grpc_log p g rt (new_grpc_logger log []) lvl (line_form args) s
        ≡ sugar_log p g rt (sugar log) lvl (lines args) s
  unfolding grpc_log new_grpc_logger log_line_if sugar_log log_lines sugar log_message get_message
  grpc_log-sugar_log log lvl args s below = elim (Bool-cases (core_enabled log.core lvl s)) [
    | inl e ↦ rw e refl
    | inr e ↦ rw (e, below) refl
  ]

  fatal_exits :
      (log : Logger p) (style : Style p g rt) (s : p.State)
      → IsDefault log.on_panic
      → IsDefault log.on_fatal
      → style_context p g rt style ≡ []
      → (sugar_log p g rt (sugar log) fatal_level style s).0 ≡ exits 1
  unfolding sugar sweeten_fields sweeten_from
  fatal_exits log style s panic fatal bare =
      ap (λ r. r.0) (sugar_log-log_entry p g rt (sugar log) fatal_level style s (rw bare refl))
      ∙ log_entry-ending rt (sugar log).base fatal_level (style_message p g rt style) _ s panic
          fatal

  -- Where the hooks of the logger are the default, Fatal and Fatalf exit with the code 1 whatever its
  -- core does; but Fatalln does so only where the core enables FatalLevel, and returns otherwise.
  pub grpc_fatal-exits :
      (log : Logger p) (args : Args p g rt) (format : Bytes) (s : p.State)
      → IsDefault log.on_panic
      → IsDefault log.on_fatal
      → let l = new_grpc_logger log [] in
        ((grpc_fatal p g rt l (print_form args) s).0 ≡ exits 1)
        × ((grpc_fatal p g rt l (format_form format args) s).0 ≡ exits 1)
        × ((grpc_fatal p g rt l (line_form args) s).0
            ≡ (if core_enabled log.core fatal_level s then exits 1 else returns))
  unfolding grpc_fatal new_grpc_logger printer_call printer_print printer_println printer_printf
      log_line_if
  grpc_fatal-exits log args format s panic fatal = (
    fatal_exits log (plain args) s panic fatal refl,
    fatal_exits log (formatted format args) s panic fatal refl,
    elim (Bool-cases (core_enabled log.core fatal_level s)) [
      | inl e ↦ rw e (fatal_exits log _ s panic fatal refl)
      | inr e ↦ rw e refl
    ],
  )
