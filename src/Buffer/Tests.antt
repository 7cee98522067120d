-- ===== src/Buffer/Tests.antt =====
-- A buffer of a pool that holds another.
use mathlib.Core.List.{flatten}
use buffer_full_flush_once.Common.{true, [], ◌∷◌, ◌≡◌}
use buffer_full_flush_once.Common.Int.{pos}
use buffer_full_flush_once.Common.Bytes.{codes}
use buffer_full_flush_once.Json.Samples.{digits}
use buffer_full_flush_once.Buffer.{append_int, append_bool, get_buffer, free_buffer}
use buffer_full_flush_once.Buffer.Appending.{append_each, get_buffer-append_each}

get_buffer-append_each_example :
    (append_each digits
      (append_bool true ∷ append_int (pos 7) ∷ [])
      (get_buffer 0 (free_buffer (record { bs = codes "old" }) [])).0).bs
    ≡ codes "true7"
unfolding flatten
get_buffer-append_each_example =
    get_buffer-append_each digits (free_buffer (record { bs = codes "old" }) []) 0
      (append_bool true ∷ append_int (pos 7) ∷ [])
