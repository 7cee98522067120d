-- ===== src/Global/Tests.antt =====
-- The standard logger over a logger that logs nothing.
use buffer_full_flush_once.Common.{ℕ, ◌≡◌, refl, [], List, ok, err}
use buffer_full_flush_once.Common.Int.{pos}
use buffer_full_flush_once.Common.Bytes.{codes}
use buffer_full_flush_once.Level.{Level, warn_level}
use buffer_full_flush_once.Fixtures.{plain}
use buffer_full_flush_once.Sinks.Samples.{World, disk, closed_world}
use buffer_full_flush_once.Core.{Platform}
use buffer_full_flush_once.Logger.{Logger}
use buffer_full_flush_once.Logger.Making.{Process, new_nop}
use buffer_full_flush_once.Global.{
  redirected, level_to_func, StdLog, Undo, standard_error, logger_writer, with_std_skip,
  redirect_std_log_at,
}
use buffer_full_flush_once.Global.Redirecting.{redirect-undo}

abbrev worldly : Platform
worldly = record plain { State = World }

abbrev process : Process worldly
process = record { files = disk; default_clock = λ s. (pos 0, s); increase_text = λ e. e }

abbrev unknown : Level → List ℕ
unknown lvl = []

abbrev std : StdLog worldly
std = record { flags = pos 3; prefix = codes "app: "; output = standard_error }

abbrev nop_logger : Logger worldly
nop_logger = new_nop worldly process

redirect-undo_example :
    let (answer, std', s') =
      redirect_std_log_at worldly process unknown nop_logger warn_level std closed_world in
    (undo : Undo worldly) × (answer ≡ ok undo)
    × (std' ≡ record {
      flags = pos 0;
      prefix = [];
      output =
          logger_writer
            ((with_std_skip worldly process unknown nop_logger closed_world).0, warn_level);
    })
    × (undo std ≡ record std { output = standard_error })
redirect-undo_example =
    redirect-undo worldly process unknown nop_logger warn_level std std closed_world refl

-- At a level without a method the call fails, and the flags and the prefix are gone.
redirect_of_unknown :
    let (answer, std', s') =
      redirect_std_log_at worldly process unknown nop_logger (pos 9) std closed_world in
    (answer ≡ err []) × (std' ≡ record std { flags = pos 0; prefix = [] })
unfolding redirect_std_log_at redirected level_to_func
redirect_of_unknown = (refl, refl)
