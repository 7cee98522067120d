-- ===== src/AtomicLevel/Tests.antt =====
-- A concrete atomic level: the first of two in the state.
use mathlib.Core.List.{map}
use buffer_full_flush_once.Common.{ℕ, ◌≡◌, refl, none, some, inr, List, [], ◌∷◌, IsRef, arith}
use buffer_full_flush_once.Common.Bytes.{Bytes, codes}
use buffer_full_flush_once.Fixtures.{plain}
use buffer_full_flush_once.WriteSyncer.{WriteSyncer, wrapper}
use buffer_full_flush_once.Level.{Level, info_level, warn_level}
use buffer_full_flush_once.Level.Text.{ToLower, LevelError, ascii_lower, string}
use buffer_full_flush_once.Core.{Platform}
use buffer_full_flush_once.AtomicLevel.{AtomicLevel}
use buffer_full_flush_once.AtomicLevel.Handler.{
  Request, level_text, no_level, level_payload, Reply, serve_http, serve, content_type,
  write_header, encode_payload, print_text,
}
use buffer_full_flush_once.AtomicLevel.Serving.{Honest, Written, serve-Honest, serve_http-put_get}

abbrev cell : AtomicLevel Level
cell = record { load = λ s. s; store = λ l s. l }

cell-IsRef : IsRef cell
cell-IsRef = record { load-store = λ l s. refl }

abbrev ascii : ToLower
ascii = record { to_lower = map ascii_lower; on_ascii = λ s h. refl }

-- The state is the level.
abbrev one_level : Platform
one_level = record plain { State = Level }

abbrev discard : WriteSyncer Level (List ℕ)
discard = wrapper (λ p s. (0, none, s))

abbrev put_warn : Request
put_warn = record {
  method = codes "PUT";
  media_type = none;
  form_value = [];
  body = level_text (codes "warn");
}

abbrev get_level : Request
get_level = record { method = codes "GET"; media_type = none; form_value = []; body = no_level }

abbrev no_error_text : LevelError → Bytes
no_error_text e = codes "error"

warn_text : level_text (codes "warn") ≡ level_text (string (λ prefix l. prefix) warn_level)
unfolding string
warn_text = refl

-- A response writer to which nothing can be encoded.
broken_writer :
    (serve ascii no_error_text cell (λ p. some (codes "broken")) get_level info_level).0
    ≡ content_type (codes "application/json")
      ∷ encode_payload (level_payload info_level)
      ∷ content_type (codes "text/plain; charset=utf-8")
      ∷ write_header 500
      ∷ print_text (codes "internal error: broken")
      ∷ []
unfolding serve
broken_writer = refl

serve-Honest_example :
    let (calls, l) = serve ascii no_error_text cell (λ p. none) put_warn info_level in
    (reply : Reply) × Honest ascii no_error_text cell info_level (reply, l)
    × Written ascii no_error_text cell (λ p. none) reply calls
serve-Honest_example = serve-Honest ascii no_error_text cell (λ p. none) put_warn info_level

serve_http-put_get_example :
    (serve_http ascii no_error_text cell get_level
      (serve_http ascii no_error_text cell put_warn info_level).1).0
    ≡ record { status = 200; payload = level_payload warn_level }
serve_http-put_get_example =
    serve_http-put_get ascii no_error_text cell (λ prefix l. prefix) warn_level put_warn get_level
      info_level cell-IsRef (record { lower = ground arith; upper = ground arith })
      (refl, inr (refl, warn_text)) refl
