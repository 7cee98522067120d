-- ===== src/Console.antt =====
-- zapcore/console_encoder.go: the console encoder. Its context is a JSON encoder with spaces.
pub mod Context
mod Tests
use buffer_full_flush_once.Common.{
  ℕ, Bool, true, false, not, ◌&&◌, Option, none, some, List, [], ◌∷◌, ◌++◌, if◌then◌else◌,
}
use buffer_full_flush_once.Common.Int.{ℤ, eqb_ℤ}
use buffer_full_flush_once.Common.Bytes.{Bytes, codes, is_empty}
use buffer_full_flush_once.Entry.{Entry, EntryCaller, zero_time}
use buffer_full_flush_once.Encoder.{
  Formats, Prim, bool, int, uint, float, complex, string, byte_string, time_layout,
}
use buffer_full_flush_once.Encoder.Calls.{ObjectCalls}
use buffer_full_flush_once.Encoder.Config.{EncoderConfig}
use buffer_full_flush_once.Json.{JsonEncoder, add_calls, calls_of, close_open_namespaces}
use buffer_full_flush_once.Json.Escape.{Utf8}
use buffer_full_flush_once.Json.Line.{
  is_set, name_encoder_or, wants_level, wants_name, wants_caller, wants_function, wants_message,
  wants_stack,
}

-- `NewConsoleEncoder`: the separator that it settles.
unfoldable pub settle_separator : Bytes → Bytes
settle_separator sep = if is_empty sep then codes "\t" else sep

-- `addSeparatorIfNecessary`.
unfoldable pub add_separator : Bytes → Bytes → Bytes
add_separator sep line = if is_empty line then line else line ++ sep

-- `fprint` is fmt.Fprint on the values that are not texts. A time with a layout is a text here, since
-- the slice encoder has no AppendTimeLayout.
module _ (f : Formats) (fprint : Prim f → Bytes) where
  abbrev pub element_text : Prim f → Bytes
  element_text (string s) = s
  element_text (byte_string s) = s
  element_text (time_layout t layout) = f.time_text t layout
  element_text v = fprint v

  module _ (sep : Bytes) where
    -- The loop over the elements, from the second one on.
    unfoldable pub write_others : List (Prim f) → Bytes
    write_others [] = []
    write_others (v ∷ vs) = sep ++ (element_text v ++ write_others vs)

    unfoldable pub write_elements : List (Prim f) → Bytes
    write_elements [] = []
    write_elements (v ∷ vs) = element_text v ++ write_others vs

-- The calls of a part's encoder, where the part is wanted.
abbrev pub elements_if : {f : Formats} → Bool → List (Prim f) → List (Prim f)
elements_if wanted vs = if wanted then vs else []

module _ (u : Utf8) (f : Formats) (fprint : Prim f → Bytes) (cfg : EncoderConfig f)
    (sep : Bytes) where
  -- What the slice encoder holds of the metadata.
  unfoldable pub elements : Entry → List (Prim f)
  elements ent =
      elements_if
        (not (is_empty cfg.time_key) && (is_set cfg.encode_time && not (eqb_ℤ ent.time zero_time)))
        (calls_of cfg.encode_time ent.time)
      ++ (elements_if (wants_level cfg ent) (calls_of cfg.encode_level ent.level)
          ++ (elements_if (wants_name cfg ent) (name_encoder_or cfg.encode_name ent.logger_name)
              ++ (elements_if (wants_caller cfg ent) (cfg.encode_caller ent.caller)
                  ++ elements_if (wants_function cfg ent) (string ent.caller.function ∷ []))))

  unfoldable pub add_message : Entry → Bytes → Bytes
  add_message ent line =
      if wants_message cfg ent then add_separator sep line ++ ent.message else line

  -- `writeContext`, with the calls that the fields make.
  unfoldable pub add_context : JsonEncoder → ObjectCalls f → Bytes → Bytes
  add_context enc fields line =
      let context = (close_open_namespaces (add_calls u f true cfg fields enc)).buf in
      if is_empty context then line else add_separator sep line ++ (b'{' ∷ (context ++ codes "}"))

  unfoldable pub add_stack_text : Entry → Bytes → Bytes
  add_stack_text ent line = if wants_stack cfg ent then line ++ (10 ∷ ent.stack) else line

  -- `consoleEncoder.EncodeEntry`.
  unfoldable pub encode_console : JsonEncoder → Entry → ObjectCalls f → Bytes
  encode_console enc ent fields =
      let metadata = write_elements f fprint sep (elements ent) in
      add_stack_text ent (add_context enc fields (add_message ent metadata)) ++ cfg.line_ending
