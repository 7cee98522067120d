-- ===== src/Fields/Failing.antt =====
-- What becomes of marshalers and errors that fail.
use buffer_full_flush_once.Common.{
  ◌≡◌, refl, ◌⊎◌, inl, inr, none, some, List, [], ◌∷◌, ◌++◌, map, All,
}
use buffer_full_flush_once.Common.Bytes.{Bytes, codes}
use buffer_full_flush_once.Encoder.{Formats, string}
use buffer_full_flush_once.Encoder.Calls.{
  ObjectCalls, ArrayCalls, add, end, append_object, and_then,
}
use buffer_full_flush_once.Fields.{
  Said, says, nil_panic, panic, ErrorValue, plain_error, formatted_error, error_group, broken_group,
  ObjectMarshaler,
}
use buffer_full_flush_once.Fields.Errors.{add_said, encode_error}
use buffer_full_flush_once.Fields.Adding.{Values, add_typed, add_to, error_report}
use buffer_full_flush_once.Fields.Making.{named_error_field}
use buffer_full_flush_once.Fields.Arrays.{marshal_objects, object_values, never_fails}

module _ (f : Formats) where
  -- Objects in an array, one after the other.
  abbrev pub objects_then : List (ObjectMarshaler f) → ArrayCalls f → ArrayCalls f
  objects_then [] rest = rest
  objects_then (m ∷ ms) rest = append_object m.object_calls (objects_then ms rest)

  abbrev pub Succeeds : ObjectMarshaler f → Type 0
  Succeeds m = m.object_error ≡ none

module _ (f : Formats) (v : Values f) where
  marshal_objects-append :
      (ms : List (ObjectMarshaler f)) (rest : List (ObjectMarshaler f))
      → All (Succeeds f) ms
      → marshal_objects f v (ms ++ rest) ≡ record {
        array_calls = objects_then f ms (marshal_objects f v rest).array_calls;
        array_error = (marshal_objects f v rest).array_error;
      }
  unfolding marshal_objects
  marshal_objects-append [] rest h = refl
  marshal_objects-append (m ∷ ms) rest (h, hs) = rw (h, marshal_objects-append ms rest hs) refl

  -- Objects are all written where none fails, without an error.
  pub marshal_objects-Succeeds :
      (ms : List (ObjectMarshaler f))
      → All (Succeeds f) ms
      → marshal_objects f v ms ≡ never_fails f v (objects_then f ms end)
  unfolding marshal_objects
  marshal_objects-Succeeds [] h = refl
  marshal_objects-Succeeds (m ∷ ms) (h, hs) = rw (h, marshal_objects-Succeeds ms hs) refl

  -- Where an object fails, the ones before it and what it wrote itself are written, nothing after it
  -- is, and its error is returned.
  pub marshal_objects-failing :
      (ms : List (ObjectMarshaler f)) (bad : ObjectMarshaler f) (rest : List (ObjectMarshaler f))
      (e : Bytes)
      → All (Succeeds f) ms
      → bad.object_error ≡ some e
      → marshal_objects f v (ms ++ (bad ∷ rest)) ≡ record {
        array_calls = objects_then f ms (append_object bad.object_calls end);
        array_error = some e;
      }
  unfolding marshal_objects
  marshal_objects-failing ms bad rest e hs h =
      rw (marshal_objects-append ms (bad ∷ rest) hs, h) refl

  -- `ObjectValues` is `Objects` of the pointers to the values.
  object_values-marshal_objects :
      {T : Type 0} (p : T → ObjectMarshaler f) (os : List T)
      → object_values f v p os ≡ marshal_objects f v (map p os)
  unfolding object_values marshal_objects
  object_values-marshal_objects p [] = refl
  object_values-marshal_objects p (o ∷ os) = rw (object_values-marshal_objects p os) refl

  -- The calls begin with a text under the key.
  abbrev pub Says : Bytes → ObjectCalls f → Type 0
  Says k calls = (text : Bytes) × (rest : ObjectCalls f) × (calls ≡ add k (string text) rest)

  add_said-Says :
      (k : Bytes) (said : Said) (next : Bytes → ObjectMarshaler f)
      → let m = add_said f k said next in
        let calls = and_then m.object_calls (error_report f v k m.object_error) in
        Says k calls ⊎ Says (k ++ codes "Error") calls
  unfolding add_said and_then
  add_said-Says k (says basic) next = inl (basic, _, refl)
  add_said-Says k nil_panic next = inl (codes "<nil>", _, refl)
  add_said-Says k (panic p) next = inr (_, _, refl)

  -- A field of an error, where its Error and Errors methods may return or panic and those of the
  -- errors in it too, does not panic, and leaves a text under its key, or
  -- under the key for its failure.
  pub add_to-named_error :
      (k : Bytes) (e : ErrorValue)
      → (calls : ObjectCalls f) × (add_to f v (named_error_field f v k (some e)) ≡ some calls)
        × (Says k calls ⊎ Says (k ++ codes "Error") calls)
  unfolding add_to add_typed named_error_field encode_error
  add_to-named_error k (plain_error said) = (_, refl, add_said-Says k said _)
  add_to-named_error k (formatted_error said text) = (_, refl, add_said-Says k said _)
  add_to-named_error k (error_group said _) = (_, refl, add_said-Says k said _)
  add_to-named_error k (broken_group said _) = (_, refl, add_said-Says k said _)
