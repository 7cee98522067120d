-- ===== src/Encoder/Config.antt =====
-- zapcore/encoder.go: the encoders for levels, times, durations, callers and names, and their
-- configuration.
use buffer_full_flush_once.Common.{
  ℕ, zero, suc, ◌/◌, ◌+◌, Bool, ◌||◌, Option, none, some, List, [], ◌∷◌, if◌then◌else◌, Result, ok,
  err,
}
use buffer_full_flush_once.Common.Int.{ℤ, pos, negsuc}
use buffer_full_flush_once.Common.Bytes.{Bytes, codes, bytes_eq}
use buffer_full_flush_once.Level.{Level}
use buffer_full_flush_once.Level.Text
use buffer_full_flush_once.Entry.{EntryCaller}
use buffer_full_flush_once.Entry.Paths.{full_path, trimmed_path}
use buffer_full_flush_once.Encoder.{Formats, Prim, int, float, string, time_layout}

-- An encoder of a part of an entry: the calls that it makes on the encoder that it is given.
abbrev pub PartEncoder : Type 0 → Formats → Type 0
PartEncoder A f = A → List (Prim f)

module _ (sprintf : Bytes → Level → Bytes) where
  unfoldable pub lowercase_level_encoder : (f : Formats) → PartEncoder Level f
  lowercase_level_encoder f l = string (Text.string sprintf l) ∷ []

  unfoldable pub capital_level_encoder : (f : Formats) → PartEncoder Level f
  capital_level_encoder f l = string (Text.capital_string sprintf l) ∷ []

  -- `_levelToLowercaseColorString` and `_unknownLevelColor.Add`: `color` is the text in the level's
  -- colour.
  unfoldable pub lowercase_color_level_encoder :
      (Level → Bytes → Bytes) → (f : Formats) → PartEncoder Level f
  lowercase_color_level_encoder color f l = string (color l (Text.string sprintf l)) ∷ []

  unfoldable pub capital_color_level_encoder :
      (Level → Bytes → Bytes) → (f : Formats) → PartEncoder Level f
  capital_color_level_encoder color f l = string (color l (Text.capital_string sprintf l)) ∷ []

  -- `LevelEncoder.UnmarshalText`, which returns no error.
  unfoldable pub level_encoder_of :
      (Level → Bytes → Bytes) → Bytes → (f : Formats) → PartEncoder Level f
  level_encoder_of color text f =
      if bytes_eq text (codes "capital")
      then capital_level_encoder f
      else if bytes_eq text (codes "capitalColor")
      then capital_color_level_encoder color f
      else if bytes_eq text (codes "color")
      then lowercase_color_level_encoder color f
      else lowercase_level_encoder f

abbrev pub second : ℕ
second = 1_000_000_000

abbrev pub millisecond : ℕ
millisecond = 1_000_000

-- Minus a natural number.
abbrev pub negated : ℕ → ℤ
negated zero = pos 0
negated (suc n) = negsuc n

-- Go's division of integers, which rounds towards zero.
abbrev pub truncated : ℤ → ℕ → ℤ
truncated (pos n) d = pos (n / d)
truncated (negsuc n) d = negated ((n + 1) / d)

module _ (f : Formats) where
  unfoldable pub epoch_time_encoder : PartEncoder ℤ f
  epoch_time_encoder t = float (f.quotient t second) 64 ∷ []

  unfoldable pub epoch_millis_time_encoder : PartEncoder ℤ f
  epoch_millis_time_encoder t = float (f.quotient t millisecond) 64 ∷ []

  unfoldable pub epoch_nanos_time_encoder : PartEncoder ℤ f
  epoch_nanos_time_encoder t = int t ∷ []

  -- `encodeTimeLayout`, for the encoders of the package, which have AppendTimeLayout;
  -- `TimeEncoderOfLayout`.
  unfoldable pub time_encoder_of_layout : Bytes → PartEncoder ℤ f
  time_encoder_of_layout layout t = time_layout t layout ∷ []

  unfoldable pub iso8601_time_encoder : PartEncoder ℤ f
  iso8601_time_encoder = time_encoder_of_layout (codes "2006-01-02T15:04:05.000Z0700")

  unfoldable pub rfc3339_time_encoder : PartEncoder ℤ f
  rfc3339_time_encoder = time_encoder_of_layout (codes "2006-01-02T15:04:05Z07:00")

  unfoldable pub rfc3339_nano_time_encoder : PartEncoder ℤ f
  rfc3339_nano_time_encoder = time_encoder_of_layout (codes "2006-01-02T15:04:05.999999999Z07:00")

  -- `TimeEncoder.UnmarshalText`.
  unfoldable pub time_encoder_of : Bytes → PartEncoder ℤ f
  time_encoder_of text =
      if bytes_eq text (codes "rfc3339nano") || bytes_eq text (codes "RFC3339Nano")
      then rfc3339_nano_time_encoder
      else if bytes_eq text (codes "rfc3339") || bytes_eq text (codes "RFC3339")
      then rfc3339_time_encoder
      else if bytes_eq text (codes "iso8601") || bytes_eq text (codes "ISO8601")
      then iso8601_time_encoder
      else if bytes_eq text (codes "millis")
      then epoch_millis_time_encoder
      else if bytes_eq text (codes "nanos")
      then epoch_nanos_time_encoder
      else epoch_time_encoder

  -- `TimeEncoder.UnmarshalYAML`, and UnmarshalJSON: what the decoder makes of the value as an object
  -- with a layout, if it is one, and as a text.
  unfoldable pub decoded_time_encoder :
      {E : Type 0} → Option Bytes → Result E Bytes → Result E (PartEncoder ℤ f)
  decoded_time_encoder (some layout) as_text = ok (time_encoder_of_layout layout)
  decoded_time_encoder none (err e) = err e
  decoded_time_encoder none (ok text) = ok (time_encoder_of text)

  unfoldable pub seconds_duration_encoder : PartEncoder ℤ f
  seconds_duration_encoder d = float (f.quotient d second) 64 ∷ []

  unfoldable pub nanos_duration_encoder : PartEncoder ℤ f
  nanos_duration_encoder d = int d ∷ []

  unfoldable pub millis_duration_encoder : PartEncoder ℤ f
  millis_duration_encoder d = int (truncated d millisecond) ∷ []

  unfoldable pub string_duration_encoder : PartEncoder ℤ f
  string_duration_encoder d = string (f.duration_text d) ∷ []

  -- `DurationEncoder.UnmarshalText`.
  unfoldable pub duration_encoder_of : Bytes → PartEncoder ℤ f
  duration_encoder_of text =
      if bytes_eq text (codes "string")
      then string_duration_encoder
      else if bytes_eq text (codes "nanos")
      then nanos_duration_encoder
      else if bytes_eq text (codes "ms")
      then millis_duration_encoder
      else seconds_duration_encoder

  unfoldable pub full_caller_encoder : PartEncoder EntryCaller f
  full_caller_encoder caller = string (full_path f.int_text caller) ∷ []

  unfoldable pub short_caller_encoder : PartEncoder EntryCaller f
  short_caller_encoder caller = string (trimmed_path f.int_text caller) ∷ []

  -- `CallerEncoder.UnmarshalText`.
  unfoldable pub caller_encoder_of : Bytes → PartEncoder EntryCaller f
  caller_encoder_of text =
      if bytes_eq text (codes "full") then full_caller_encoder else short_caller_encoder

  unfoldable pub full_name_encoder : PartEncoder Bytes f
  full_name_encoder name = string name ∷ []

module _ (f : Formats) where
  -- `NameEncoder.UnmarshalText`, which knows one encoder.
  unfoldable pub name_encoder_of : Bytes → PartEncoder Bytes f
  name_encoder_of text =
      if bytes_eq text (codes "full") then full_name_encoder f else full_name_encoder f

-- `EncoderConfig`, without what only the console encoder and reflection use. A nil function is
-- `none`; a key that is empty leaves its part out.
pub record EncoderConfig (f : Formats) : Type 0 where
  pub message_key : Bytes
  pub level_key : Bytes
  pub time_key : Bytes
  pub name_key : Bytes
  pub caller_key : Bytes
  pub function_key : Bytes
  pub stacktrace_key : Bytes
  pub skip_line_ending : Bool
  pub line_ending : Bytes
  pub encode_level : Option (PartEncoder Level f)
  pub encode_time : Option (PartEncoder ℤ f)
  pub encode_duration : Option (PartEncoder ℤ f)
  pub encode_caller : PartEncoder EntryCaller f
  pub encode_name : Option (PartEncoder Bytes f)

abbrev pub default_line_ending : Bytes
default_line_ending = codes "\n"
