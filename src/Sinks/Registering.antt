-- ===== src/Sinks/Registering.antt =====
-- What registering does to the registry.
use buffer_full_flush_once.Common.{
  ◌≡◌, refl, ◌⊎◌, inl, inr, Option, none, some, if◌then◌else◌, Result, ok, err, Bool-cases,
  Option-cases,
}
use buffer_full_flush_once.Common.Bytes.{Bytes, bytes_eq, is_empty}
use buffer_full_flush_once.Level.Text.{ToLower}
use buffer_full_flush_once.Sinks.{
  SinkError, empty_scheme, already_registered, SinkRegistry, find_factory, normalize_scheme,
  register_normalized, register_sink,
}

module _ (lower : ToLower) {F : Type 0} where
  -- The scheme was free, and it alone has the factory now; or there is an error, and nothing changes.
  abbrev pub Registers :
      Result SinkError Bytes → F → SinkRegistry F → Option SinkError × SinkRegistry F → Type 0
  Registers normalized factory registry answer =
      ((scheme : Bytes) × (normalized ≡ ok scheme)
        × (find_factory scheme registry ≡ none)
        × (answer.0 ≡ none)
        × ((other : Bytes)
            → find_factory other answer.1
              ≡ (if bytes_eq other scheme then some factory else find_factory other registry)))
      ⊎ ((e : SinkError) × (answer.0 ≡ some e) × (answer.1 ≡ registry))

  register_normalized-Registers :
      (normalized : Result SinkError Bytes) (factory : F) (registry : SinkRegistry F)
      → Registers normalized factory registry
          (register_normalized lower normalized factory registry)
  unfolding register_normalized find_factory
  register_normalized-Registers (err e) factory registry = inr (e, refl, refl)
  register_normalized-Registers (ok scheme) factory registry =
      elim (Option-cases (find_factory scheme registry)) [
        | inl free ↦ rw (register_normalized, free) (inl (scheme, refl, free, refl, λ other. refl))
        | inr (taken, e) ↦ rw (register_normalized, e) (inr (already_registered scheme, refl, refl))
      ]

  -- RegisterSink gives a free scheme its factory, in the form to which it is normalized, and leaves
  -- all others alone; where it returns an error it changes nothing.
  pub register_sink-Registers :
      (scheme : Bytes) (factory : F) (registry : SinkRegistry F)
      → Registers
          (normalize_scheme lower scheme)
          factory
          registry
          (register_sink lower scheme factory registry)
  unfolding register_sink
  register_sink-Registers scheme factory registry = elim (Bool-cases (is_empty scheme)) [
    | inl empty ↦ rw empty (inr (empty_scheme, refl, refl))
    | inr given ↦
        rw given (register_normalized-Registers (normalize_scheme lower scheme) factory registry)
  ]
