-- ===== src/Level/TextLaws.antt =====
-- Reading a level's text gives the level back, and nothing else is read.
use buffer_full_flush_once.Common.{◌≡◌, ◌⊎◌, inl, inr, Option-cases, none, some, ok, arith, map}
use buffer_full_flush_once.Common.Int.{◌≤ℤ◌}
use buffer_full_flush_once.Common.Bytes.{Bytes}
use buffer_full_flush_once.Level.{Level, min_level, max_level}
use buffer_full_flush_once.Level.Text.{
  ToLower, ascii_lower, IsAscii, unmarshal_lower, string, capital_string, unmarshal_text,
  parse_level, unrecognized_level,
}

pub record IsSupported (l : Level) : Type 0 where
  pub lower : min_level ≤ℤ l
  pub upper : l ≤ℤ max_level

module _ (sprintf : Bytes → Level → Bytes) where
  unmarshal_lower-string : (l : Level) → IsSupported l → unmarshal_lower (string sprintf l) ≡ some l
  unfolding unmarshal_lower string
  unmarshal_lower-string l h = ground arith

  unmarshal_lower-capital :
      (l : Level)
      → IsSupported l
      → unmarshal_lower (map ascii_lower (capital_string sprintf l)) ≡ some l
  unfolding unmarshal_lower capital_string
  unmarshal_lower-capital l h = ground arith

  -- `ParseLevel` reads back what `String` prints, for each of the seven supported levels, whatever
  -- `bytes.ToLower` does.
  pub parse_level-string :
      (lower : ToLower) (l : Level) → IsSupported l → parse_level lower (string sprintf l) ≡ ok l
  unfolding parse_level
  parse_level-string lower l h = ground (arith, unmarshal_lower-string l h)

  capital-IsAscii : (l : Level) → IsSupported l → IsAscii (capital_string sprintf l)
  unfolding capital_string
  capital-IsAscii l h = ground arith

  capital_not_lower :
      (l : Level) → IsSupported l → unmarshal_lower (capital_string sprintf l) ≡ none
  unfolding unmarshal_lower capital_string
  capital_not_lower l h = ground arith

  -- `ParseLevel` also reads back the capitals of `CapitalString`, by the second attempt, where
  -- `bytes.ToLower` behaves as documented on ASCII.
  pub parse_level-capital_string :
      (lower : ToLower) (l : Level)
      → IsSupported l
      → parse_level lower (capital_string sprintf l) ≡ ok l
  unfolding parse_level
  parse_level-capital_string lower l h = ground (
    arith,
    capital_not_lower l h,
    unmarshal_lower-capital l h,
    lower.on_ascii (capital_string sprintf l) (capital-IsAscii l h),
  )

unmarshal_lower-IsSupported : (t : Bytes) (l : Level) → unmarshal_lower t ≡ some l → IsSupported l
unfolding unmarshal_lower
unmarshal_lower-IsSupported t l h = ground arith

module _ (lower : ToLower) where
  -- `UnmarshalText` on a level either succeeds and leaves a supported level that the text or its
  -- lower case names, or reports the text as unrecognized and leaves the level as it was, and then
  -- neither the text nor its lower case names a level.
  pub unmarshal_text_lem :
      (text : Bytes) (old : Level)
      → ((l : Level) × (unmarshal_text lower (some old) text ≡ (none, some l))
          × IsSupported l
          × ((unmarshal_lower text ≡ some l) ⊎ (unmarshal_lower (lower.to_lower text) ≡ some l)))
        ⊎ ((unmarshal_text lower (some old) text ≡ (some (unrecognized_level text), some old))
            × (unmarshal_lower text ≡ none)
            × (unmarshal_lower (lower.to_lower text) ≡ none))
  unfolding unmarshal_text
  unmarshal_text_lem text old = elim (Option-cases (unmarshal_lower text)) [
    | inr (l, e) ↦ inl (l, ground arith, unmarshal_lower-IsSupported text l e, inl e)
    | inl e ↦ elim (Option-cases (unmarshal_lower (lower.to_lower text))) [
      | inr (l, f) ↦ inl (l, ground arith, unmarshal_lower-IsSupported _ l f, inr f)
      | inl f ↦ inr (ground arith, e, f)
    ]
  ]
