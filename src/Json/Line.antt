-- ===== src/Json/Line.antt =====
-- zapcore/json_encoder.go: `newJSONEncoder`, `EncodeEntry`: the line of an entry.
pub mod Context
pub mod Entries
use buffer_full_flush_once.Common.{
  ℕ, Bool, true, false, not, ◌&&◌, Option, none, some, List, [], ◌∷◌, ◌++◌, if◌then◌else◌,
}
use buffer_full_flush_once.Common.Int.{ℤ, eqb_ℤ}
use buffer_full_flush_once.Common.Bytes.{Bytes, codes, is_empty}
use buffer_full_flush_once.Level.{Level}
use buffer_full_flush_once.Level.Text
use buffer_full_flush_once.Entry.{Entry, EntryCaller, zero_time}
use buffer_full_flush_once.Entry.Paths.{full_path}
use buffer_full_flush_once.Encoder.{Formats, Prim, string}
use buffer_full_flush_once.Encoder.Calls.{ObjectCalls}
use buffer_full_flush_once.Encoder.Config.{
  EncoderConfig, PartEncoder, default_line_ending, full_name_encoder,
}
use buffer_full_flush_once.Json.{
  JsonEncoder, add_element_separator, add_key, append_quoted, append_or, append_time_value,
  add_calls, calls_of, close_open_namespaces,
}
use buffer_full_flush_once.Json.Escape.{Utf8}

-- `newJSONEncoder`: the configuration with the line ending that it settles.
unfoldable pub settle_line_ending : {f : Formats} → EncoderConfig f → EncoderConfig f
settle_line_ending cfg =
    if cfg.skip_line_ending
    then record cfg { line_ending = [] }
    else if is_empty cfg.line_ending
    then record cfg { line_ending = default_line_ending }
    else cfg

-- An encoder that has no context.
abbrev pub fresh : JsonEncoder
fresh = record { buf = []; open_namespaces = 0 }

-- `newJSONEncoder`: the settled configuration, and the encoder.
unfoldable pub new_json_encoder : {f : Formats} → EncoderConfig f → EncoderConfig f × JsonEncoder
new_json_encoder cfg = (settle_line_ending cfg, fresh)

-- `clone`, without the bytes, and `Clone`.
abbrev pub clone_empty : JsonEncoder → JsonEncoder
clone_empty enc = record { buf = []; open_namespaces = enc.open_namespaces }

unfoldable pub clone_encoder : JsonEncoder → JsonEncoder
clone_encoder enc = let clone = clone_empty enc in record clone { buf = clone.buf ++ enc.buf }

abbrev pub is_set : {A : Type 0} → Option A → Bool
is_set none = false
is_set (some a) = true

abbrev pub name_encoder_or : {f : Formats} → Option (PartEncoder Bytes f) → PartEncoder Bytes f
name_encoder_or {f} none = full_name_encoder f
name_encoder_or (some e) = e

-- The context that was encoded before, by With.
unfoldable pub write_context : Bool → Bytes → Bytes → Bytes
write_context spaced context buf =
    if is_empty context then buf else add_element_separator spaced buf ++ context

-- Which parts of an entry are written.
module _ {f : Formats} (cfg : EncoderConfig f) (ent : Entry) where
  abbrev pub wants_level : Bool
  wants_level = not (is_empty cfg.level_key) && is_set cfg.encode_level

  abbrev pub wants_time : Bool
  wants_time = not (is_empty cfg.time_key) && not (eqb_ℤ ent.time zero_time)

  abbrev pub wants_name : Bool
  wants_name = not (is_empty ent.logger_name) && not (is_empty cfg.name_key)

  abbrev pub wants_caller : Bool
  wants_caller = ent.caller.defined && not (is_empty cfg.caller_key)

  abbrev pub wants_function : Bool
  wants_function = ent.caller.defined && not (is_empty cfg.function_key)

  abbrev pub wants_message : Bool
  wants_message = not (is_empty cfg.message_key)

  abbrev pub wants_stack : Bool
  wants_stack = not (is_empty ent.stack) && not (is_empty cfg.stacktrace_key)

module _ (sprintf : Bytes → Level → Bytes) (u : Utf8) (f : Formats) (spaced : Bool)
    (cfg : EncoderConfig f) where
  -- A part of the entry, under its key, where it is written at all.
  unfoldable pub write_part : Bool → Bytes → (Bytes → Bytes) → Bytes → Bytes
  write_part wanted key append buf = if wanted then append (add_key u spaced key buf) else buf

  unfoldable pub write_level : Entry → Bytes → Bytes
  write_level ent = write_part (wants_level cfg ent) cfg.level_key (
      append_or u f spaced (calls_of cfg.encode_level ent.level)
        (string (Text.string sprintf ent.level)))

  unfoldable pub write_time : Entry → Bytes → Bytes
  write_time ent =
      write_part (wants_time cfg ent) cfg.time_key (append_time_value u f spaced cfg ent.time)

  unfoldable pub write_name : Entry → Bytes → Bytes
  write_name ent = write_part (wants_name cfg ent) cfg.name_key (
      append_or u f spaced (name_encoder_or cfg.encode_name ent.logger_name)
        (string ent.logger_name))

  unfoldable pub write_caller : Entry → Bytes → Bytes
  write_caller ent = write_part (wants_caller cfg ent) cfg.caller_key (
      append_or u f spaced (cfg.encode_caller ent.caller)
        (string (full_path f.int_text ent.caller)))

  unfoldable pub write_function : Entry → Bytes → Bytes
  write_function ent =
      write_part (wants_function cfg ent) cfg.function_key
        (append_quoted u spaced ent.caller.function)

  unfoldable pub write_message : Entry → Bytes → Bytes
  write_message ent =
      write_part (wants_message cfg ent) cfg.message_key (append_quoted u spaced ent.message)

  unfoldable pub write_stack : Entry → Bytes → Bytes
  write_stack ent =
      write_part (wants_stack cfg ent) cfg.stacktrace_key (append_quoted u spaced ent.stack)

  unfoldable pub write_metadata : Entry → Bytes → Bytes
  write_metadata ent buf = write_message ent (
      write_function ent (write_caller ent (write_name ent (write_time ent (write_level ent buf)))))

  -- `EncodeEntry`, with the calls that the fields make. The clone that is written to has the encoder's
  -- count of open namespaces and an empty buffer.
  unfoldable pub encode_entry : JsonEncoder → Entry → ObjectCalls f → Bytes
  encode_entry enc ent fields =
      let prefixed = write_context spaced enc.buf (write_metadata ent (codes "{")) in
      let final = add_calls u f spaced cfg fields (record enc { buf = prefixed }) in
      write_stack ent (close_open_namespaces final).buf ++ (codes "}" ++ cfg.line_ending)
