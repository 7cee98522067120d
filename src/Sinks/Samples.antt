-- ===== src/Sinks/Samples.antt =====
-- Files of which only how many are open is known, and the first registry over them.
use mathlib.Core.List.{map}
use buffer_full_flush_once.Common.{
  ℕ, ◌+◌, ◌-◌, refl, false, none, List, [], ◌∷◌, All, arith, ok, err, Bool-cases, inl, inr,
  if◌then◌else◌,
}
use buffer_full_flush_once.Common.Bytes.{Bytes, is_empty}
use buffer_full_flush_once.Common.Int.{pos}
use buffer_full_flush_once.Level.{Level}
use buffer_full_flush_once.Level.Text.{ToLower, ascii_lower}
use buffer_full_flush_once.Fixtures.{lists}
use buffer_full_flush_once.WriteSyncer.{Writer, wrapper}
use buffer_full_flush_once.Sampler.{Counters, new_counters}
use buffer_full_flush_once.Sinks.{
  SinkRegistry, find_factory, first_bad, normalize_scheme, register_normalized, register_sink,
}
use buffer_full_flush_once.Sinks.Opening.{Url, Sink, Opened, Files, Factory, new_sink_registry}
use buffer_full_flush_once.Sinks.Leaks.{Balanced, holds, fails, url-Balanced}

-- A level, the counters of a sampler, and the count of the files that are open.
pub record World : Type 0 where
  pub level : Level
  pub counters : Counters
  pub files_open : ℕ

abbrev pub live : World → ℕ
live s = s.files_open

abbrev pub ignore : Writer World (List ℕ)
ignore p s = (0, none, s)

abbrev pub a_file : Sink World (List ℕ)
a_file = record {
  writer = wrapper ignore;
  close = λ s. (none, record s { files_open = s.files_open - 1 });
}

-- Only the empty path cannot be opened.
abbrev pub open_any : Bytes → World → Opened World (List ℕ)
open_any path s =
    if is_empty path
    then (err (7 ∷ []), s)
    else (ok a_file, record s { files_open = s.files_open + 1 })

abbrev pub path_url : Bytes → Url
path_url path = record {
  scheme = [];
  has_user = false;
  fragment = [];
  raw_query = [];
  port = [];
  hostname = [];
  path = path;
}

abbrev pub disk : Files lists World
disk = record {
  is_abs = λ path. false;
  parse_url = λ path. ok (path_url path);
  open_file = open_any;
  stdout = wrapper ignore;
  stderr = wrapper ignore;
  discard = ignore;
  errorf = λ e. 8 ∷ [];
  open_sink_error = λ path e. e;
}

pub open_any-Balanced : (path : Bytes) (s : World) → Balanced live s (open_any path s)
open_any-Balanced path s = elim (Bool-cases (is_empty path)) [
  | inl e ↦ rw e (fails _ refl refl)
  | inr e ↦ rw e (holds a_file 1 refl (omega arith) (λ t. omega arith))
]

abbrev pub ascii_letters : ToLower
ascii_letters = record { to_lower = map ascii_lower; on_ascii = λ s h. refl }

abbrev pub file_sinks : SinkRegistry (Factory World (List ℕ))
file_sinks = new_sink_registry lists disk ascii_letters

pub file_sinks-Balanced :
    All (λ entry. (u : Url) (s : World) → Balanced live s (entry.1 u s)) file_sinks
unfolding new_sink_registry register_sink register_normalized normalize_scheme find_factory
    first_bad
file_sinks-Balanced = (url-Balanced lists disk live open_any-Balanced, tt)

abbrev pub closed_world : World
closed_world = record { level = pos 0; counters = new_counters; files_open = 0 }
