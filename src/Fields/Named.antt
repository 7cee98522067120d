-- ===== src/Fields/Named.antt =====
-- exp/zapfield/zapfield.go: fields of texts of named types.
use buffer_full_flush_once.Common.{List}
use buffer_full_flush_once.Common.Bytes.{Bytes}
use buffer_full_flush_once.Encoder.{Formats}
use buffer_full_flush_once.Fields.{Field}
use buffer_full_flush_once.Fields.Adding.{Values}
use buffer_full_flush_once.Fields.Making.{string_field}
use buffer_full_flush_once.Fields.Arrays.{strings_field}

module _ (f : Formats) (v : Values f) where
  -- `Str` and `Strs`.
  unfoldable pub str_field : Bytes → Bytes → Field f
  str_field k s = string_field f v k s

  unfoldable pub strs_field : Bytes → List Bytes → Field f
  strs_field k texts = strings_field f v k texts
