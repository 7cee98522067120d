-- ===== src/Slog.antt =====
-- exp/zapslog/handler.go: levels and attributes of log/slog as levels and fields.
pub mod Handling
pub mod Grouping
mod Tests
use buffer_full_flush_once.Common.{
  ℕ, Bool, true, false, ◌&&◌, Option, none, some, List, [], ◌∷◌, if◌then◌else◌, ◌>>=◌,
}
use buffer_full_flush_once.Common.Int.{ℤ, pos, negsuc, leb_ℤ}
use buffer_full_flush_once.Common.Bytes.{Bytes, is_empty}
use buffer_full_flush_once.Level.{Level, debug_level, info_level, warn_level, error_level}
use buffer_full_flush_once.Encoder.{Formats}
use buffer_full_flush_once.Fields.{Field, ObjectMarshaler}
use buffer_full_flush_once.Fields.Adding.{Values}
use buffer_full_flush_once.Fields.Making.{
  skip_field, bool_field, duration_field, float64_field, int64_field, string_field, time_field,
  uint64_field, object_field, inline_field, dict_object,
}
use buffer_full_flush_once.Fields.Any.{AnyValue, field_of_any}

-- The levels of log/slog.
abbrev pub slog_info : ℤ
slog_info = pos 0

abbrev pub slog_warn : ℤ
slog_warn = pos 4

abbrev pub slog_error : ℤ
slog_error = pos 8

unfoldable pub convert_slog_level : ℤ → Level
convert_slog_level l =
    if leb_ℤ slog_error l
    then error_level
    else if leb_ℤ slog_warn l
    then warn_level
    else if leb_ℤ slog_info l
    then info_level
    else debug_level

-- `slog.Attr`, with a `slog.Value` by its kind. `nil_value` is the zero value; a value that is
-- resolved lazily is given by what Resolve returns.
mutual
  pub data Attr (f : Formats) : Type 0 where
    attr : Bytes → SlogValue f → Attr f

  pub data SlogValue (f : Formats) : Type 0 where
    bool_value : Bool → SlogValue f
    duration_value : ℤ → SlogValue f
    float_value : f.Float → SlogValue f
    int_value : ℤ → SlogValue f
    string_value : Bytes → SlogValue f
    time_value : ℤ → SlogValue f
    uint_value : ℕ → SlogValue f
    group_value : Attrs f → SlogValue f
    log_valuer : SlogValue f → SlogValue f
    nil_value : SlogValue f
    any_value : AnyValue f → SlogValue f

  pub data Attrs (f : Formats) : Type 0 where
    no_attrs : Attrs f
    one_attr : Attr f → Attrs f → Attrs f

module _ (f : Formats) (v : Values f) (nil_any : Bytes → Field f) where
  abbrev pub group_field : Bytes → ObjectMarshaler f → Field f
  group_field key m = if is_empty key then inline_field f v m else object_field f v key (some m)

  -- `convertAttrToField`, with a group as the marshaler `groupObject`; `none` where adding the fields
  -- of a group panics. `nil_any` is `Any` of a nil value.
  unfoldable mutual
    pub convert_attr : Attr f → Option (Field f)
    convert_attr (attr key value) = convert_value key value

    pub convert_value : Bytes → SlogValue f → Option (Field f)
    convert_value key (bool_value b) = some (bool_field f v key b)
    convert_value key (duration_value d) = some (duration_field f v key d)
    convert_value key (float_value x) = some (float64_field f v key x)
    convert_value key (int_value n) = some (int64_field f v key n)
    convert_value key (string_value s) = some (string_field f v key s)
    convert_value key (time_value t) = some (time_field f v key t)
    convert_value key (uint_value n) = some (uint64_field f v key n)
    convert_value key (group_value attrs) =
        convert_attrs attrs
        >>= (λ fields. dict_object f v fields >>= (λ m. some (group_field key m)))
    convert_value key (log_valuer value) = convert_value key value
    convert_value key nil_value = some (if is_empty key then skip_field f v else nil_any key)
    convert_value key (any_value a) = field_of_any f v key a

    -- The loop of `groupObject.MarshalLogObject`.
    pub convert_attrs : Attrs f → Option (List (Field f))
    convert_attrs no_attrs = some []
    convert_attrs (one_attr a attrs) =
        let rest = convert_attrs attrs in
        convert_attr a >>= (λ field. rest >>= (λ fields. some (field ∷ fields)))
