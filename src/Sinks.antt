-- ===== src/Sinks.antt =====
-- sink.go: the registry of sinks, and the schemes that it takes.
pub mod Leaks
pub mod Opening
pub mod Registering
pub mod Samples
mod Tests
use buffer_full_flush_once.Common.{
  ℕ, ◌==◌, Bool, true, false, ◌&&◌, ◌||◌, Option, none, some, List, [], ◌∷◌, if◌then◌else◌, leb,
  Result, ok, err,
}
use buffer_full_flush_once.Common.Bytes.{Bytes, codes, bytes_eq, is_empty}
use buffer_full_flush_once.Level.Text.{ToLower}

-- The errors of `normalizeScheme` and of `RegisterSink`; `no_byte` is the panic at an empty text.
pub data SinkError : Type 0 where
  no_byte : SinkError
  no_letter_first : SinkError
  may_not_contain : ℕ → SinkError
  empty_scheme : SinkError
  already_registered : Bytes → SinkError

-- `sinkRegistry`: the map of the factories, by scheme.
abbrev pub SinkRegistry : Type 0 → Type 0
SinkRegistry F = List (Bytes × F)

unfoldable pub find_factory : {F : Type 0} → Bytes → SinkRegistry F → Option F
find_factory scheme [] = none
find_factory scheme (entry ∷ rest) =
    let later = find_factory scheme rest in if bytes_eq scheme entry.0 then some entry.1 else later

abbrev pub is_letter : ℕ → Bool
is_letter c = leb b'a' c && leb c b'z'

abbrev pub may_contain : ℕ → Bool
may_contain c =
    is_letter c || ((leb b'0' c && leb c b'9') || ((c == b'.') || ((c == b'+') || (c == b'-'))))

-- The loop of `normalizeScheme`: the first byte that a scheme may not contain.
unfoldable pub first_bad : Bytes → Option ℕ
first_bad [] = none
first_bad (c ∷ s) = let later = first_bad s in if may_contain c then later else some c

abbrev pub checked_rest : Bytes → Option ℕ → Result SinkError Bytes
checked_rest s none = ok s
checked_rest s (some c) = err (may_not_contain c)

abbrev pub checked_scheme : Bytes → Result SinkError Bytes
checked_scheme [] = err no_byte
checked_scheme (c ∷ s) =
    if is_letter c then checked_rest (c ∷ s) (first_bad s) else err no_letter_first

module _ (lower : ToLower) where
  -- `normalizeScheme`, with strings.ToLower.
  unfoldable pub normalize_scheme : Bytes → Result SinkError Bytes
  normalize_scheme s = checked_scheme (lower.to_lower s)

  module _ {F : Type 0} where
    -- `RegisterSink` after the scheme is normalized: the error, and the registry.
    unfoldable pub register_normalized :
        Result SinkError Bytes → F → SinkRegistry F → Option SinkError × SinkRegistry F
    register_normalized (err e) factory registry = (some e, registry)
    register_normalized (ok scheme) factory registry = elim (find_factory scheme registry) [
      | none ↦ (none, (scheme, factory) ∷ registry)
      | some taken ↦ (some (already_registered scheme), registry)
    ]

    unfoldable pub register_sink : Bytes → F → SinkRegistry F → Option SinkError × SinkRegistry F
    register_sink scheme factory registry =
        if is_empty scheme
        then (some empty_scheme, registry)
        else register_normalized (normalize_scheme scheme) factory registry
