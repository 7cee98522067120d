-- ===== src/Json.antt =====
-- zapcore/json_encoder.go: the JSON encoder.
-- Its buffer is a list of bytes; what a marshaler does to it is in `Encoder/Calls.antt`.
pub mod Escape
pub mod Unescape
pub mod Tree
pub mod Structure
pub mod Line
pub mod Fuel
pub mod Samples
mod Tests
use buffer_full_flush_once.Common.{
  ℕ, zero, suc, ◌+◌, ◌==◌, Bool, true, false, not, ◌&&◌, ◌||◌, Option, none, some, List, [], ◌∷◌,
  ◌++◌, if◌then◌else◌, length, Result, ok, err,
}
use buffer_full_flush_once.Common.Int.{ℤ}
use buffer_full_flush_once.Common.Bytes.{Bytes, codes, is_empty}
use buffer_full_flush_once.Level.{Level}
use buffer_full_flush_once.Level.Text
use buffer_full_flush_once.Entry.{Entry, EntryCaller, zero_time}
use buffer_full_flush_once.Entry.Paths.{full_path}
use buffer_full_flush_once.Common.Int.{eqb_ℤ}
use buffer_full_flush_once.Encoder.{
  Formats, FloatKind, is_nan, is_inf, is_neg_inf, is_finite, Prim, bool, int, uint, float, complex,
  string, byte_string, time_layout,
}
use buffer_full_flush_once.Encoder.Calls.{
  ObjectCalls, ArrayCalls, done, add, add_binary, add_duration, add_time, add_reflected, add_array,
  add_object, open_namespace, end, append, append_duration, append_time, append_reflected,
  append_array, append_object,
}
use buffer_full_flush_once.Encoder.Config.{
  EncoderConfig, PartEncoder, default_line_ending, full_name_encoder,
}
use buffer_full_flush_once.Json.Escape.{Utf8, safe_append}

-- The fields of `jsonEncoder` that change; `spaced` and the configuration are parameters below.
pub record JsonEncoder : Type 0 where
  pub buf : Bytes
  pub open_namespaces : ℕ

unfoldable pub last_byte : Bytes → Option ℕ
last_byte [] = none
last_byte (c ∷ []) = some c
last_byte (c ∷ d ∷ s) = last_byte (d ∷ s)

-- The bytes after which `addElementSeparator` adds nothing.
abbrev pub is_opener : ℕ → Bool
is_opener c = (c == b'{') || (c == b'[') || (c == b':') || (c == b',') || (c == b' ')

abbrev pub separated : Option ℕ → Bytes → Bytes → Bytes
separated none sep buf = buf
separated (some c) sep buf = if is_opener c then buf else buf ++ sep

-- `Buffer.TrimNewline`.
unfoldable pub trim_newline : Bytes → Bytes
trim_newline [] = []
trim_newline (c ∷ []) = if c == 10 then [] else c ∷ []
trim_newline (c ∷ d ∷ s) = c ∷ trim_newline (d ∷ s)

-- The closing braces of `closeOpenNamespaces`.
unfoldable pub braces : ℕ → Bytes
braces zero = []
braces (suc n) = b'}' ∷ braces n

module _ (spaced : Bool) where
  abbrev pub separator : Bytes
  separator = if spaced then codes ", " else codes ","

  abbrev pub colon : Bytes
  colon = if spaced then codes ": " else codes ":"

  unfoldable pub add_element_separator : Bytes → Bytes
  add_element_separator buf = separated (last_byte buf) separator buf

  -- A text that is appended as it stands.
  unfoldable pub append_raw : Bytes → Bytes → Bytes
  append_raw text buf = add_element_separator buf ++ text

-- A text in quotes, as the encoder appends keys and strings.
unfoldable pub quoted : Utf8 → Bytes → Bytes
quoted u s = b'"' ∷ (safe_append u s ++ codes "\"")

module _ (u : Utf8) (spaced : Bool) where
  unfoldable pub add_key : Bytes → Bytes → Bytes
  add_key key buf = add_element_separator spaced buf ++ (quoted u key ++ colon spaced)

  unfoldable pub append_quoted : Bytes → Bytes → Bytes
  append_quoted s buf = add_element_separator spaced buf ++ quoted u s

-- `closeOpenNamespaces`.
unfoldable pub close_open_namespaces : JsonEncoder → JsonEncoder
close_open_namespaces enc = record {
  buf = enc.buf ++ braces enc.open_namespaces;
  open_namespaces = 0;
}

-- `AppendArray` before the marshaler, and after it below.
module _ (spaced : Bool) where
  unfoldable pub open_array : JsonEncoder → JsonEncoder
  open_array enc = record enc { buf = add_element_separator spaced enc.buf ++ codes "[" }

  -- `AppendObject` before the marshaler.
  unfoldable pub open_object : JsonEncoder → JsonEncoder
  open_object enc = record {
    buf = add_element_separator spaced enc.buf ++ codes "{";
    open_namespaces = 0;
  }

unfoldable pub close_array : JsonEncoder → JsonEncoder
close_array enc = record enc { buf = enc.buf ++ codes "]" }

-- `AppendObject` after the marshaler: it closes only the namespaces that were opened in between.
unfoldable pub close_object : ℕ → JsonEncoder → JsonEncoder
unfolding close_open_namespaces
close_object old enc = record (close_open_namespaces (record enc { buf = enc.buf ++ codes "}" })) {
  open_namespaces = old;
}

module _ (f : Formats) where
  abbrev pub bool_text : Bool → Bytes
  bool_text true = codes "true"
  bool_text false = codes "false"

  -- `appendFloat`, after the separator.
  unfoldable pub float_literal : FloatKind → f.Float → ℕ → Bytes
  float_literal is_nan x bits = codes "\"NaN\""
  float_literal is_inf x bits = codes "\"+Inf\""
  float_literal is_neg_inf x bits = codes "\"-Inf\""
  float_literal is_finite x bits = f.float_text x bits

  -- `appendComplex`, after the separator: `i >= 0` fails at a NaN too.
  unfoldable pub complex_literal : f.Complex → ℕ → Bytes
  complex_literal z bits =
      b'"'
      ∷ (f.float_text (f.real z) bits
          ++ ((if f.is_negative (f.imag z) then [] else codes "+")
              ++ (f.float_text (f.imag z) bits ++ codes "i\"")))

  -- `encodeReflected`.
  unfoldable pub encode_reflected : Option f.Reflected → Result Bytes Bytes
  encode_reflected none = ok (codes "null")
  encode_reflected (some r) = elim (f.reflect r) [
    | ok text ↦ ok (trim_newline text)
    | err e ↦ err e
  ]

abbrev pub calls_of : {A : Type 0} {f : Formats} → Option (PartEncoder A f) → A → List (Prim f)
calls_of none a = []
calls_of (some e) a = e a

module _ (u : Utf8) (f : Formats) (spaced : Bool) where
  unfoldable pub append_prim : Prim f → Bytes → Bytes
  append_prim (bool b) buf = append_raw spaced (bool_text f b) buf
  append_prim (int n) buf = append_raw spaced (f.int_text n) buf
  append_prim (uint n) buf = append_raw spaced (f.uint_text n) buf
  append_prim (float x bits) buf = append_raw spaced (float_literal f (f.kind x) x bits) buf
  append_prim (complex z bits) buf = append_raw spaced (complex_literal f z bits) buf
  append_prim (string s) buf = append_quoted u spaced s buf
  append_prim (byte_string s) buf = append_quoted u spaced s buf
  append_prim (time_layout t layout) buf =
      append_raw spaced (b'"' ∷ (f.time_text t layout ++ codes "\"")) buf

  unfoldable pub append_prims : List (Prim f) → Bytes → Bytes
  append_prims [] buf = buf
  append_prims (v ∷ vs) buf = append_prims vs (append_prim v buf)

  -- The calls of a user's encoder, and the fallback where they add nothing.
  unfoldable pub append_or : List (Prim f) → Prim f → Bytes → Bytes
  append_or vs fallback buf =
      let buf' = append_prims vs buf in
      if length buf == length buf' then append_prim fallback buf' else buf'

  unfoldable pub append_reflected_text : Result Bytes Bytes → Bytes → Bytes
  append_reflected_text (ok text) buf = append_raw spaced text buf
  append_reflected_text (err e) buf = buf

  -- Nothing is added, and no key, where the value cannot be encoded.
  unfoldable pub add_reflected_text : Bytes → Result Bytes Bytes → Bytes → Bytes
  add_reflected_text key (ok text) buf = add_key u spaced key buf ++ text
  add_reflected_text key (err e) buf = buf

  module _ (cfg : EncoderConfig f) where
    unfoldable pub append_duration_value : ℤ → Bytes → Bytes
    append_duration_value d buf = append_or (calls_of cfg.encode_duration d) (int d) buf

    unfoldable pub append_time_value : ℤ → Bytes → Bytes
    append_time_value t buf = append_or (calls_of cfg.encode_time t) (int t) buf

    -- What a marshaler does to the encoder.
    unfoldable mutual
      pub add_calls : ObjectCalls f → JsonEncoder → JsonEncoder
      add_calls done enc = enc
      add_calls (add k v rest) enc =
          add_calls rest (record enc { buf = append_prim v (add_key u spaced k enc.buf) })
      add_calls (add_binary k v rest) enc =
          add_calls rest
            (record enc { buf = append_prim (string (f.base64 v)) (add_key u spaced k enc.buf) })
      add_calls (add_duration k d rest) enc =
          add_calls rest (record enc { buf = append_duration_value d (add_key u spaced k enc.buf) })
      add_calls (add_time k t rest) enc =
          add_calls rest (record enc { buf = append_time_value t (add_key u spaced k enc.buf) })
      add_calls (add_reflected k v rest) enc =
          add_calls rest (record enc { buf = add_reflected_text k (encode_reflected f v) enc.buf })
      add_calls (add_array k calls rest) enc = add_calls rest (
          close_array (
            append_calls calls
              (open_array spaced (record enc { buf = add_key u spaced k enc.buf }))))
      add_calls (add_object k calls rest) enc = add_calls rest (
          close_object enc.open_namespaces (
            add_calls calls (open_object spaced (record enc { buf = add_key u spaced k enc.buf }))))
      add_calls (open_namespace k rest) enc = add_calls rest (record {
        buf = add_key u spaced k enc.buf ++ codes "{";
        open_namespaces = enc.open_namespaces + 1;
      })

      pub append_calls : ArrayCalls f → JsonEncoder → JsonEncoder
      append_calls end enc = enc
      append_calls (append v rest) enc =
          append_calls rest (record enc { buf = append_prim v enc.buf })
      append_calls (append_duration d rest) enc =
          append_calls rest (record enc { buf = append_duration_value d enc.buf })
      append_calls (append_time t rest) enc =
          append_calls rest (record enc { buf = append_time_value t enc.buf })
      append_calls (append_reflected v rest) enc =
          append_calls rest
            (record enc { buf = append_reflected_text (encode_reflected f v) enc.buf })
      append_calls (append_array calls rest) enc =
          append_calls rest (close_array (append_calls calls (open_array spaced enc)))
      append_calls (append_object calls rest) enc =
          append_calls rest
            (close_object enc.open_namespaces (add_calls calls (open_object spaced enc)))
