-- ===== src/MapEncoder/Lookup.antt =====
-- What is found in a map after a marshaler's calls.
use buffer_full_flush_once.Common.{
  ◌≡◌, refl, sym, ap, ◌∙◌, Option, none, some, List, [], ◌∷◌, if◌then◌else◌, Bool-cases, inl, inr,
}
use buffer_full_flush_once.Common.Bytes.{Bytes, bytes_eq, bytes_eq_iff}
use buffer_full_flush_once.Encoder.{Formats}
use buffer_full_flush_once.Encoder.Calls.{
  ObjectCalls, done, add, add_binary, add_duration, add_time, add_reflected, add_array, add_object,
  open_namespace,
}
use buffer_full_flush_once.MapEncoder.{
  MapValue, binary, duration, instant, reflected, slice, nested, MapEntries, no_entries, entry,
  set_entry, new_map_encoder, enclosed, map_fields, kept_value, map_calls, slice_calls,
}

module _ {f : Formats} where
  abbrev pub lookup : Bytes → MapEntries f → Option (MapValue f)
  lookup k no_entries = none
  lookup k (entry k' v es) = if bytes_eq k k' then some v else lookup k es

  abbrev pub or_before : Option (MapValue f) → Option (MapValue f) → Option (MapValue f)
  or_before none before = before
  or_before (some v) before = some v

  abbrev pub only_at : Bytes → Bytes → MapValue f → Option (MapValue f)
  only_at k k' v = if bytes_eq k k' then some v else none

  -- The value of the last call with a key. What comes after a namespace belongs to the namespace.
  abbrev pub last_value : Bytes → ObjectCalls f → Option (MapValue f)
  last_value k done = none
  last_value k (add k' v rest) = or_before (last_value k rest) (only_at k k' (kept_value v))
  last_value k (add_binary k' v rest) = or_before (last_value k rest) (only_at k k' (binary v))
  last_value k (add_duration k' d rest) = or_before (last_value k rest) (only_at k k' (duration d))
  last_value k (add_time k' t rest) = or_before (last_value k rest) (only_at k k' (instant t))
  last_value k (add_reflected k' v rest) =
      or_before (last_value k rest) (only_at k k' (reflected v))
  last_value k (add_array k' calls rest) =
      or_before (last_value k rest) (only_at k k' (slice (slice_calls calls)))
  last_value k (add_object k' calls rest) =
      or_before (last_value k rest)
        (only_at k k' (nested (map_fields (map_calls calls new_map_encoder))))
  last_value k (open_namespace k' rest) =
      only_at k k' (nested (map_fields (map_calls rest new_map_encoder)))

  lookup-set_entry :
      (k k' : Bytes) (v : MapValue f) (es : MapEntries f)
      → lookup k (set_entry k' v es) ≡ or_before (only_at k k' v) (lookup k es)
  unfolding set_entry
  lookup-set_entry k k' v no_entries = elim (Bool-cases (bytes_eq k k')) [
    | inl same ↦ rw same refl
    | inr other ↦ rw other refl
  ]
  lookup-set_entry k k' v (entry k'' v'' es) =
      let ih = lookup-set_entry k k' v es in
      elim (Bool-cases (bytes_eq k' k'')) [
        | inl replaced ↦
            let keys = (bytes_eq_iff k' k'').0 replaced in
            elim (Bool-cases (bytes_eq k k'')) [
              | inl same ↦ rw (replaced, keys, same) refl
              | inr other ↦ rw (replaced, keys, other) refl
            ]
        | inr kept_entry ↦ elim (Bool-cases (bytes_eq k k'')) [
          | inl same ↦ elim (Bool-cases (bytes_eq k k')) [
            | inl twice ↦
                let one_key = (bytes_eq_iff k k').0 twice in let clash = rw one_key at same in cc
            | inr other ↦ rw (kept_entry, same, other) refl
          ]
          | inr other ↦ rw (kept_entry, other) ih
        ]
      ]

  map_calls-enclosed :
      (calls : ObjectCalls f) (frames : List (Bytes × MapEntries f)) (es : MapEntries f)
      → map_fields (map_calls calls (record { outer = frames; cur = es }))
        ≡ enclosed frames (map_fields (map_calls calls (record { outer = []; cur = es })))
  unfolding map_fields map_calls enclosed
  map_calls-enclosed done frames es = refl
  map_calls-enclosed (add k v rest) frames es = map_calls-enclosed rest frames _
  map_calls-enclosed (add_binary k v rest) frames es = map_calls-enclosed rest frames _
  map_calls-enclosed (add_duration k v rest) frames es = map_calls-enclosed rest frames _
  map_calls-enclosed (add_time k v rest) frames es = map_calls-enclosed rest frames _
  map_calls-enclosed (add_reflected k v rest) frames es = map_calls-enclosed rest frames _
  map_calls-enclosed (add_array k v rest) frames es = map_calls-enclosed rest frames _
  map_calls-enclosed (add_object k v rest) frames es = map_calls-enclosed rest frames _
  map_calls-enclosed (open_namespace k rest) frames es =
      map_calls-enclosed rest ((k, es) ∷ frames) no_entries
      ∙ ap (enclosed frames) (sym (map_calls-enclosed rest ((k, es) ∷ []) no_entries))

  or_before_assoc :
      (a b c : Option (MapValue f)) → or_before a (or_before b c) ≡ or_before (or_before a b) c
  or_before_assoc none b c = refl
  or_before_assoc (some v) b c = refl

  abbrev fields_after : ObjectCalls f → MapEntries f → MapEntries f
  fields_after calls es = map_fields (map_calls calls (record { outer = []; cur = es }))

  -- A call that sets an entry, before other calls.
  set_entry-before :
      (k k' : Bytes) (v : MapValue f) (rest : ObjectCalls f) (es : MapEntries f)
      → lookup k (fields_after rest (set_entry k' v es))
        ≡ or_before (last_value k rest) (lookup k (set_entry k' v es))
      → lookup k (fields_after rest (set_entry k' v es))
        ≡ or_before (or_before (last_value k rest) (only_at k k' v)) (lookup k es)
  set_entry-before k k' v rest es h =
      h
      ∙ (ap (or_before (last_value k rest)) (lookup-set_entry k k' v es)
          ∙ or_before_assoc (last_value k rest) (only_at k k' v) (lookup k es))

  lookup-fields_after :
      (k : Bytes) (calls : ObjectCalls f) (es : MapEntries f)
      → lookup k (fields_after calls es) ≡ or_before (last_value k calls) (lookup k es)
  unfolding map_calls map_fields enclosed
  lookup-fields_after k done es = refl
  lookup-fields_after k (add k' v rest) es =
      set_entry-before k k' _ rest es (lookup-fields_after k rest _)
  lookup-fields_after k (add_binary k' v rest) es =
      set_entry-before k k' _ rest es (lookup-fields_after k rest _)
  lookup-fields_after k (add_duration k' v rest) es =
      set_entry-before k k' _ rest es (lookup-fields_after k rest _)
  lookup-fields_after k (add_time k' v rest) es =
      set_entry-before k k' _ rest es (lookup-fields_after k rest _)
  lookup-fields_after k (add_reflected k' v rest) es =
      set_entry-before k k' _ rest es (lookup-fields_after k rest _)
  lookup-fields_after k (add_array k' v rest) es =
      set_entry-before k k' _ rest es (lookup-fields_after k rest _)
  lookup-fields_after k (add_object k' v rest) es =
      set_entry-before k k' _ rest es (lookup-fields_after k rest _)
  lookup-fields_after k (open_namespace k' rest) es =
      ap (lookup k) (map_calls-enclosed rest ((k', es) ∷ []) no_entries)
      ∙ lookup-set_entry k k' (nested (map_fields (map_calls rest new_map_encoder))) es

  or_before-none : (o : Option (MapValue f)) → or_before o none ≡ o
  or_before-none none = refl
  or_before-none (some v) = refl

  -- After the calls a new encoder holds, under each key, the value of the last call with that key; a
  -- namespace holds what the calls after it give on their own, and nothing else comes after it.
  pub lookup-map_calls :
      (k : Bytes) (calls : ObjectCalls f)
      → lookup k (map_fields (map_calls calls new_map_encoder)) ≡ last_value k calls
  lookup-map_calls k calls =
      lookup-fields_after k calls no_entries ∙ or_before-none (last_value k calls)
