-- ===== src/Sinks/Tests.antt =====
-- A registry of numbers.
use mathlib.Core.List.{map}
use buffer_full_flush_once.Common.{ℕ, ◌≡◌, refl, none, some, [], ◌∷◌}
use buffer_full_flush_once.Common.Bytes.{codes}
use buffer_full_flush_once.Level.Text.{ToLower, ascii_lower}
use buffer_full_flush_once.Sinks.{
  SinkRegistry, find_factory, first_bad, may_not_contain, normalize_scheme, register_normalized,
  register_sink,
}

abbrev ascii : ToLower
ascii = record { to_lower = map ascii_lower; on_ascii = λ s h. refl }

abbrev files : SinkRegistry ℕ
files = (codes "file", 1) ∷ []

register_s3 : register_sink ascii (codes "S3") 2 files ≡ (none, (codes "s3", 2) ∷ files)
unfolding register_sink register_normalized normalize_scheme find_factory first_bad
register_s3 = refl

register_bad : register_sink ascii (codes "s_3") 2 files ≡ (some (may_not_contain 95), files)
unfolding register_sink register_normalized normalize_scheme find_factory first_bad
register_bad = refl
