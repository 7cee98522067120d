-- ===== src/AtomicLevel/Changing.antt =====
-- What a change of an atomic level does to the cores that are built on it.
use buffer_full_flush_once.Common.{◌≡◌, refl, ap, none, IsRef, List}
use buffer_full_flush_once.Common.Bytes.{Bytes}
use buffer_full_flush_once.Level.{Level, enabled, level_of}
use buffer_full_flush_once.Level.Text.{ToLower}
use buffer_full_flush_once.Level.TextLaws.{IsSupported, parse_level-string}
use buffer_full_flush_once.WriteSyncer.{WriteSyncer}
use buffer_full_flush_once.Core.{core_enabled, Platform, io, with_fields, core_level}
use buffer_full_flush_once.AtomicLevel.{
  AtomicLevel, level, set_level, level_enabled, atomic, atomic_string, set_parsed, unmarshal_atomic,
}

-- Where the cell keeps what is stored: a core that With derives from one over an atomic level
-- follows SetLevel: it is enabled from the new level on, and the new level is its LevelOf.
pub with_fields-set_level :
    (p : Platform) (a : AtomicLevel p.State) (enc : p.Encoder) (out : WriteSyncer p.State p.m.Error)
    (fields : List p.Field) (l lvl : Level) (s : p.State)
    → IsRef a
    → let core = with_fields {p = p} (io (atomic a) enc out) fields in
      (core_enabled core lvl (set_level a l s) ≡ enabled l lvl)
      × (core_level core (set_level a l s) ≡ l)
unfolding with_fields core_level core_enabled atomic level_enabled level level_of set_level
with_fields-set_level p a enc out fields l lvl s h =
    (ap (λ k. enabled k lvl) (h.load-store l s), h.load-store l s)

-- Where the cell keeps what is stored: the text of an atomic level, read by another one (or the
-- same), sets it to the same level, without an error, where the level is supported.
pub unmarshal_atomic-atomic_string :
    {S : Type 0} (lower : ToLower) (sprintf : Bytes → Level → Bytes) (a b : AtomicLevel S) (s : S)
    → IsRef b
    → IsSupported (level a s)
    → let (e, s') = unmarshal_atomic lower b (atomic_string sprintf a s) s in
      (e ≡ none) × (level b s' ≡ level a s)
unfolding unmarshal_atomic atomic_string set_parsed set_level level
unmarshal_atomic-atomic_string lower sprintf a b s h supported =
    rw (parse_level-string sprintf lower (a.load s) supported) (refl, h.load-store (a.load s) s)
