-- ===== src/Grpc/Tests.antt =====
-- A gRPC logger over a core that logs nothing.
use buffer_full_flush_once.Common.{ℕ, ◌≡◌, refl, false, none, [], ◌∷◌, inl, if◌then◌else◌}
use buffer_full_flush_once.Common.Int.{pos}
use buffer_full_flush_once.Common.Bytes.{codes}
use buffer_full_flush_once.Fixtures.{plain, sink}
use buffer_full_flush_once.Level.{static, invalid_level, fatal_level}
use buffer_full_flush_once.Entry.{exits, returns}
use buffer_full_flush_once.Core.{nop, core_enabled}
use buffer_full_flush_once.Logger.{Logger, Runtime}
use buffer_full_flush_once.Sugar.{text}
use buffer_full_flush_once.Sugar.Logging.{Sugaring, Args}
use buffer_full_flush_once.Grpc.{new_grpc_logger, grpc_fatal, print_form, format_form, line_form}
use buffer_full_flush_once.Grpc.Lines.{grpc_fatal-exits}

abbrev texts : Sugaring plain
texts = record {
  E = ℕ;
  V = ℕ;
  error_field = λ e. codes "error";
  any = λ key v. key;
  invalid_field = λ qs. codes "invalid";
  sprintf = λ template args. template;
  sprint = λ args. codes "printed";
  sprintln = λ args. codes "printed\n";
}

abbrev runtime : Runtime
runtime = record {
  capture = λ skip full. record { count = 0; frames = [] };
  int_text = λ n. [];
  caller_error_text = λ time. [];
}

abbrev silent : Logger plain
silent = record {
  core = nop;
  development = false;
  add_caller = false;
  on_panic = none;
  on_fatal = none;
  name = [];
  error_output = sink 0;
  add_stack = static invalid_level;
  caller_skip = pos 0;
  clock = λ s. (pos 0, s);
}

abbrev bye : Args plain texts runtime
bye = text (codes "bye") ∷ []

grpc_fatal-exits_example :
    let l = new_grpc_logger silent [] in
    ((grpc_fatal plain texts runtime l (print_form bye) []).0 ≡ exits 1)
    × ((grpc_fatal plain texts runtime l (format_form [] bye) []).0 ≡ exits 1)
    × ((grpc_fatal plain texts runtime l (line_form bye) []).0
        ≡ (if core_enabled silent.core fatal_level [] then exits 1 else returns))
grpc_fatal-exits_example =
    grpc_fatal-exits plain texts runtime silent bye [] [] (inl refl) (inl refl)
