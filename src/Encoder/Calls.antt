-- ===== src/Encoder/Calls.antt =====
-- Marshalers: what MarshalLogObject and MarshalLogArray do to the encoder that they are given.
use buffer_full_flush_once.Common.{Option}
use buffer_full_flush_once.Common.Int.{ℤ}
use buffer_full_flush_once.Common.Bytes.{Bytes}
use buffer_full_flush_once.Encoder.{Formats, Prim}

-- A marshaler as the calls that it makes, in order; a nested marshaler as the calls of its own. A nil
-- value that is to be encoded by reflection is `none`.
mutual
  pub data ObjectCalls (f : Formats) : Type 0 where
    done : ObjectCalls f
    add : Bytes → Prim f → ObjectCalls f → ObjectCalls f
    add_binary : Bytes → Bytes → ObjectCalls f → ObjectCalls f
    add_duration : Bytes → ℤ → ObjectCalls f → ObjectCalls f
    add_time : Bytes → ℤ → ObjectCalls f → ObjectCalls f
    add_reflected : Bytes → Option f.Reflected → ObjectCalls f → ObjectCalls f
    add_array : Bytes → ArrayCalls f → ObjectCalls f → ObjectCalls f
    add_object : Bytes → ObjectCalls f → ObjectCalls f → ObjectCalls f
    open_namespace : Bytes → ObjectCalls f → ObjectCalls f

  pub data ArrayCalls (f : Formats) : Type 0 where
    end : ArrayCalls f
    append : Prim f → ArrayCalls f → ArrayCalls f
    append_duration : ℤ → ArrayCalls f → ArrayCalls f
    append_time : ℤ → ArrayCalls f → ArrayCalls f
    append_reflected : Option f.Reflected → ArrayCalls f → ArrayCalls f
    append_array : ArrayCalls f → ArrayCalls f → ArrayCalls f
    append_object : ObjectCalls f → ArrayCalls f → ArrayCalls f

-- One marshaler's calls and then another's.
unfoldable pub and_then : {f : Formats} → ObjectCalls f → ObjectCalls f → ObjectCalls f
and_then done next = next
and_then (add k v rest) next = add k v (and_then rest next)
and_then (add_binary k v rest) next = add_binary k v (and_then rest next)
and_then (add_duration k v rest) next = add_duration k v (and_then rest next)
and_then (add_time k v rest) next = add_time k v (and_then rest next)
and_then (add_reflected k v rest) next = add_reflected k v (and_then rest next)
and_then (add_array k v rest) next = add_array k v (and_then rest next)
and_then (add_object k v rest) next = add_object k v (and_then rest next)
and_then (open_namespace k rest) next = open_namespace k (and_then rest next)
