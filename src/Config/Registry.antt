-- ===== src/Config/Registry.antt =====
-- encoder.go: the registry of encoders.
use buffer_full_flush_once.Common.{
  Bool, true, false, not, ◌&&◌, Option, none, some, List, [], ◌∷◌, if◌then◌else◌, Result, ok, err,
}
use buffer_full_flush_once.Common.Bytes.{Bytes, codes, bytes_eq, is_empty}
use buffer_full_flush_once.Encoder.{Formats}
use buffer_full_flush_once.Encoder.Config.{EncoderConfig}

-- The errors of the registry, and of `Config.Build`.
pub data ConfigError : Type 0 where
  missing_encode_time : ConfigError
  no_encoder_name_specified : ConfigError
  encoder_already_registered : Bytes → ConfigError
  no_encoder_registered : Bytes → ConfigError
  missing_level : ConfigError

-- The map of the constructors of encoders, `En`, which may fail with an `E`, by name.
abbrev pub EncoderConstructor : Type 0 → Type 0 → Formats → Type 0
EncoderConstructor E En f = EncoderConfig f → Result E En

abbrev pub EncoderRegistry : Type 0 → Type 0 → Formats → Type 0
EncoderRegistry E En f = List (Bytes × EncoderConstructor E En f)

abbrev pub is_unset : {A : Type 0} → Option A → Bool
is_unset none = true
is_unset (some a) = false

module _ {E En : Type 0} {f : Formats} where
  -- The first registry, of the two constructors of zapcore.
  unfoldable pub first_encoders :
      (EncoderConfig f → En) → (EncoderConfig f → En) → EncoderRegistry E En f
  first_encoders new_console_encoder new_json_encoder =
      (codes "console", λ cfg. ok (new_console_encoder cfg))
      ∷ (codes "json", λ cfg. ok (new_json_encoder cfg))
      ∷ []

  unfoldable pub find_encoder : Bytes → EncoderRegistry E En f → Option (EncoderConstructor E En f)
  find_encoder name [] = none
  find_encoder name (entry ∷ rest) =
      let later = find_encoder name rest in if bytes_eq name entry.0 then some entry.1 else later

  unfoldable pub add_encoder :
      Option (EncoderConstructor E En f)
      → Bytes
      → EncoderConstructor E En f
      → EncoderRegistry E En f
      → Option ConfigError × EncoderRegistry E En f
  add_encoder (some taken) name constructor registry =
      (some (encoder_already_registered name), registry)
  add_encoder none name constructor registry = (none, (name, constructor) ∷ registry)

  unfoldable pub register_encoder :
      Bytes
      → EncoderConstructor E En f
      → EncoderRegistry E En f
      → Option ConfigError × EncoderRegistry E En f
  register_encoder name constructor registry =
      if is_empty name
      then (some no_encoder_name_specified, registry)
      else add_encoder (find_encoder name registry) name constructor registry

  module _ (errorf : ConfigError → E) where
    unfoldable pub constructed :
        Bytes → Option (EncoderConstructor E En f) → EncoderConfig f → Result E En
    constructed name none cfg = err (errorf (no_encoder_registered name))
    constructed name (some constructor) cfg = constructor cfg

    -- `newEncoder`.
    unfoldable pub new_encoder : EncoderRegistry E En f → Bytes → EncoderConfig f → Result E En
    new_encoder registry name cfg =
        if not (is_empty cfg.time_key) && is_unset cfg.encode_time
        then err (errorf missing_encode_time)
        else if is_empty name
        then err (errorf no_encoder_name_specified)
        else constructed name (find_encoder name registry) cfg
