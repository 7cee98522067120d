-- ===== src/Fixtures.antt =====
-- Concrete errors, destinations and encoders, at which the tests and the examples of theorems run.
use mathlib.Core.List.{flatten}
use buffer_full_flush_once.Common.{ℕ, ok, ◌≡◌, refl, ◌≢◌, Option, none, some, List, [], ◌∷◌, ◌++◌}
use buffer_full_flush_once.Common.Bytes.{Bytes, codes}
use buffer_full_flush_once.Multierr.{Multierr}
use buffer_full_flush_once.WriteSyncer.{WriteSyncer, external}
use buffer_full_flush_once.Core.{Platform}

-- Errors that are lists of messages, appended: a model of `multierr.Append`.
abbrev pub join : Option (List ℕ) → Option (List ℕ) → Option (List ℕ)
join none e = e
join (some a) none = some a
join (some a) (some b) = some (a ++ b)

pub join-none_left : (e : Option (List ℕ)) → join none e ≡ e
join-none_left e = refl

pub join-none_right : (e : Option (List ℕ)) → join e none ≡ e
join-none_right none = refl
join-none_right (some a) = refl

pub join-some : (a b : List ℕ) → join (some a) (some b) ≢ none
join-some a b = λ h. cc

abbrev pub lists : Multierr
lists = record {
  Error = List ℕ;
  append = join;
  append-none_left = join-none_left;
  append-none_right = join-none_right;
  append-some = join-some;
}

-- The state is the log of what the destinations received, newest first.
abbrev pub sink : ℕ → WriteSyncer (List Bytes) (List ℕ)
sink keep = external (λ p s. (keep, none, p ∷ s)) (λ s. (none, s))

abbrev pub broken : WriteSyncer (List Bytes) (List ℕ)
broken = external (λ p s. (0, some (1 ∷ []), s)) (λ s. (some (2 ∷ []), s))

-- Fields and encoders that are bytes.
abbrev pub plain : Platform
plain = record {
  m = lists;
  State = List Bytes;
  Field = Bytes;
  Encoder = Bytes;
  add_fields = λ enc fields. enc ++ flatten fields;
  encode_entry = λ enc ent fields. ok (enc ++ ent.message ++ flatten fields);
  increase_error = λ l. 9 ∷ [];
  write_error_text = λ time e. codes "write error";
  reuse_text = λ time ent. codes "reuse";
}
