-- ===== src/MapEncoder.antt =====
-- zapcore/memory_encoder.go: the encoder of maps.
pub mod Lookup
mod Tests
use buffer_full_flush_once.Common.{
  Bool, true, false, Option, none, some, List, [], ◌∷◌, if◌then◌else◌,
}
use buffer_full_flush_once.Common.Int.{ℤ}
use buffer_full_flush_once.Common.Bytes.{Bytes, bytes_eq}
use buffer_full_flush_once.Encoder.{Formats, Prim, string, byte_string, time_layout}
use buffer_full_flush_once.Encoder.Calls.{
  ObjectCalls, ArrayCalls, done, add, add_binary, add_duration, add_time, add_reflected, add_array,
  add_object, open_namespace, end, append, append_duration, append_time, append_reflected,
  append_array, append_object,
}

-- The dynamic values that the maps and slices hold.
mutual
  pub data MapValue (f : Formats) : Type 0 where
    one : Prim f → MapValue f
    binary : Bytes → MapValue f
    duration : ℤ → MapValue f
    instant : ℤ → MapValue f
    reflected : Option f.Reflected → MapValue f
    slice : MapValues f → MapValue f
    nested : MapEntries f → MapValue f

  pub data MapValues (f : Formats) : Type 0 where
    no_values : MapValues f
    one_value : MapValue f → MapValues f → MapValues f

  pub data MapEntries (f : Formats) : Type 0 where
    no_entries : MapEntries f
    entry : Bytes → MapValue f → MapEntries f → MapEntries f

-- `m[k] = v`.
unfoldable pub set_entry : {f : Formats} → Bytes → MapValue f → MapEntries f → MapEntries f
set_entry k v no_entries = entry k v no_entries
set_entry k v (entry k' v' es) =
    let rest = set_entry k v es in if bytes_eq k k' then entry k' v es else entry k' v' rest

-- `MapObjectEncoder`: `cur` is the map that is written to, and `outer` the maps around it, from the
-- inside out, each with the key that `cur` has in it. Nothing but `cur` is ever written.
pub record MapEncoder (f : Formats) : Type 0 where
  pub outer : List (Bytes × MapEntries f)
  pub cur : MapEntries f

abbrev pub new_map_encoder : {f : Formats} → MapEncoder f
new_map_encoder = record { outer = []; cur = no_entries }

-- The maps around a map, with it in its place.
unfoldable pub enclosed : {f : Formats} → List (Bytes × MapEntries f) → MapEntries f → MapEntries f
enclosed [] es = es
enclosed (frame ∷ frames) es = enclosed frames (set_entry frame.0 (nested es) frame.1)

-- The field `Fields`.
unfoldable pub map_fields : {f : Formats} → MapEncoder f → MapEntries f
unfolding enclosed
map_fields enc = enclosed enc.outer enc.cur

-- Byte strings are kept_value as strings.
abbrev pub kept_value : {f : Formats} → Prim f → MapValue f
kept_value (byte_string s) = one (string s)
kept_value v = one v

module _ {f : Formats} where
  unfoldable mutual
    unfolding map_fields set_entry

    pub map_calls : ObjectCalls f → MapEncoder f → MapEncoder f
    map_calls done enc = enc
    map_calls (add k v rest) enc =
        map_calls rest (record enc { cur = set_entry k (kept_value v) enc.cur })
    map_calls (add_binary k v rest) enc =
        map_calls rest (record enc { cur = set_entry k (binary v) enc.cur })
    map_calls (add_duration k d rest) enc =
        map_calls rest (record enc { cur = set_entry k (duration d) enc.cur })
    map_calls (add_time k t rest) enc =
        map_calls rest (record enc { cur = set_entry k (instant t) enc.cur })
    map_calls (add_reflected k v rest) enc =
        map_calls rest (record enc { cur = set_entry k (reflected v) enc.cur })
    map_calls (add_array k calls rest) enc =
        map_calls rest (record enc { cur = set_entry k (slice (slice_calls calls)) enc.cur })
    map_calls (add_object k calls rest) enc = map_calls rest (record enc {
      cur = set_entry k (nested (map_fields (map_calls calls new_map_encoder))) enc.cur;
    })
    map_calls (open_namespace k rest) enc =
        map_calls rest (record { outer = (k, enc.cur) ∷ enc.outer; cur = no_entries })

    -- The elements that a marshaler appends to a new `sliceArrayEncoder`.
    pub slice_calls : ArrayCalls f → MapValues f
    slice_calls end = no_values
    slice_calls (append v rest) = one_value (kept_value v) (slice_calls rest)
    slice_calls (append_duration d rest) = one_value (duration d) (slice_calls rest)
    slice_calls (append_time t rest) = one_value (instant t) (slice_calls rest)
    slice_calls (append_reflected v rest) = one_value (reflected v) (slice_calls rest)
    slice_calls (append_array calls rest) = one_value (slice (slice_calls calls)) (slice_calls rest)
    slice_calls (append_object calls rest) =
        one_value (nested (map_fields (map_calls calls new_map_encoder))) (slice_calls rest)
