-- ===== src/Config.antt =====
-- config.go and encoder.go: configurations, the registry of encoders, and loggers that are built of
-- a configuration.
pub mod Registry
pub mod Building
pub mod Built
pub mod Leaks
mod Tests
use buffer_full_flush_once.Common.{Bool, true, false, Option, none, some, List, [], ◌∷◌}
use buffer_full_flush_once.Common.Int.{ℤ, pos}
use buffer_full_flush_once.Common.Bytes.{Bytes, codes}
use buffer_full_flush_once.Level.{Level, info_level, debug_level}
use buffer_full_flush_once.AtomicLevel.{AtomicLevel, new_atomic_level_at}
use buffer_full_flush_once.Entry.{Entry}
use buffer_full_flush_once.Core.{SamplingDecision}
use buffer_full_flush_once.Encoder.{Formats}
use buffer_full_flush_once.Encoder.Config.{
  EncoderConfig, default_line_ending, lowercase_level_encoder, capital_level_encoder,
  epoch_time_encoder, iso8601_time_encoder, seconds_duration_encoder, string_duration_encoder,
  short_caller_encoder,
}

pub record SamplingConfig (S : Type 0) : Type 0 where
  pub initial : ℤ
  pub thereafter : ℤ
  pub hook : Option (Entry → SamplingDecision → S → S)

-- The map `InitialFields`: its keys, in the order of the iteration, and the value of each.
pub record InitialFields (V : Type 0) : Type 0 where
  pub keys : List Bytes
  pub value : Bytes → V

-- `Config`. An AtomicLevel without a pointer is `none`.
pub record Config (S V : Type 0) (f : Formats) : Type 0 where
  pub level : Option (AtomicLevel S)
  pub development : Bool
  pub disable_caller : Bool
  pub disable_stacktrace : Bool
  pub sampling : Option (SamplingConfig S)
  pub encoding : Bytes
  pub encoder_config : EncoderConfig f
  pub output_paths : List Bytes
  pub error_output_paths : List Bytes
  pub initial_fields : InitialFields V

abbrev pub omit_key : Bytes
omit_key = []

module _ (sprintf : Bytes → Level → Bytes) (f : Formats) where
  unfoldable pub new_production_encoder_config : EncoderConfig f
  new_production_encoder_config = record {
    message_key = codes "msg";
    level_key = codes "level";
    time_key = codes "ts";
    name_key = codes "logger";
    caller_key = codes "caller";
    function_key = omit_key;
    stacktrace_key = codes "stacktrace";
    skip_line_ending = false;
    line_ending = default_line_ending;
    encode_level = some (lowercase_level_encoder sprintf f);
    encode_time = some (epoch_time_encoder f);
    encode_duration = some (seconds_duration_encoder f);
    encode_caller = short_caller_encoder f;
    encode_name = none;
  }

  unfoldable pub new_development_encoder_config : EncoderConfig f
  new_development_encoder_config = record {
    message_key = codes "M";
    level_key = codes "L";
    time_key = codes "T";
    name_key = codes "N";
    caller_key = codes "C";
    function_key = omit_key;
    stacktrace_key = codes "S";
    skip_line_ending = false;
    line_ending = default_line_ending;
    encode_level = some (capital_level_encoder sprintf f);
    encode_time = some (iso8601_time_encoder f);
    encode_duration = some (string_duration_encoder f);
    encode_caller = short_caller_encoder f;
    encode_name = none;
  }

  -- The configuration of `NewExample`. Its encoder of callers is nil there: without a key for the
  -- caller it is not used.
  unfoldable pub example_encoder_config : EncoderConfig f
  example_encoder_config = record {
    message_key = codes "msg";
    level_key = codes "level";
    time_key = omit_key;
    name_key = codes "logger";
    caller_key = omit_key;
    function_key = omit_key;
    stacktrace_key = omit_key;
    skip_line_ending = false;
    line_ending = [];
    encode_level = some (lowercase_level_encoder sprintf f);
    encode_time = some (iso8601_time_encoder f);
    encode_duration = some (string_duration_encoder f);
    encode_caller = short_caller_encoder f;
    encode_name = none;
  }

  abbrev pub stderr_path : List Bytes
  stderr_path = codes "stderr" ∷ []

  module _ {S V : Type 0} (no_fields : InitialFields V) where
    -- The configurations, with the new cell of the level: the configuration, and the state.
    unfoldable pub new_production_config : AtomicLevel S → S → Config S V f × S
    new_production_config cell s = (
      record {
        level = some cell;
        development = false;
        disable_caller = false;
        disable_stacktrace = false;
        sampling = some (record { initial = pos 100; thereafter = pos 100; hook = none });
        encoding = codes "json";
        encoder_config = new_production_encoder_config;
        output_paths = stderr_path;
        error_output_paths = stderr_path;
        initial_fields = no_fields;
      },
      new_atomic_level_at cell info_level s,
    )

    unfoldable pub new_development_config : AtomicLevel S → S → Config S V f × S
    new_development_config cell s = (
      record {
        level = some cell;
        development = true;
        disable_caller = false;
        disable_stacktrace = false;
        sampling = none;
        encoding = codes "console";
        encoder_config = new_development_encoder_config;
        output_paths = stderr_path;
        error_output_paths = stderr_path;
        initial_fields = no_fields;
      },
      new_atomic_level_at cell debug_level s,
    )
