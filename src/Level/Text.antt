-- ===== src/Level/Text.antt =====
-- zapcore/level.go: printing and reading levels. `bytes.ToLower` and `fmt.Sprintf` are parameters.
use buffer_full_flush_once.Common.{
  ◌≡◌, Option, none, some, ◌<◌, ◌||◌, map, ◌+◌, ◌&&◌, ℕ, leb, if◌then◌else◌, Result, ok, err, [],
  ◌∷◌,
}
use buffer_full_flush_once.Common.Int.{eqb_ℤ}
use buffer_full_flush_once.Common.Bytes.{Bytes, codes, bytes_eq}
use buffer_full_flush_once.Level.{
  Level, debug_level, info_level, warn_level, error_level, dpanic_level, panic_level, fatal_level,
}

-- The errors of `UnmarshalText`.
pub data LevelError : Type 0 where
  unmarshal_nil_level : LevelError
  unrecognized_level : Bytes → LevelError

-- `unmarshalText`: the new level, or `none` where it returns false and leaves the level alone.
unfoldable pub unmarshal_lower : Bytes → Option Level
unmarshal_lower text =
    if bytes_eq text (codes "debug")
    then some debug_level
    else if bytes_eq text (codes "info") || bytes_eq text []
    then some info_level
    else if bytes_eq text (codes "warn") || bytes_eq text (codes "warning")
    then some warn_level
    else if bytes_eq text (codes "error")
    then some error_level
    else if bytes_eq text (codes "dpanic")
    then some dpanic_level
    else if bytes_eq text (codes "panic")
    then some panic_level
    else if bytes_eq text (codes "fatal")
    then some fatal_level
    else none

-- What `bytes.ToLower` does to one ASCII byte.
abbrev pub ascii_lower : ℕ → ℕ
ascii_lower c = if leb b'A' c && leb c b'Z' then c + 32 else c

abbrev pub IsAscii : Bytes → Type 0
IsAscii [] = Unit
IsAscii (c ∷ s) = (c < 128) × IsAscii s

-- `bytes.ToLower`, with its documented behaviour on ASCII text.
pub record ToLower : Type 0 where
  pub to_lower : Bytes → Bytes
  pub on_ascii : (s : Bytes) → IsAscii s → to_lower s ≡ map ascii_lower s

-- `fmt.Sprintf("Level(%d)", l)` and `fmt.Sprintf("LEVEL(%d)", l)` are `sprintf` at the prefix.
module _ (sprintf : Bytes → Level → Bytes) where
  unfoldable pub string : Level → Bytes
  string l =
      if eqb_ℤ l debug_level
      then codes "debug"
      else if eqb_ℤ l info_level
      then codes "info"
      else if eqb_ℤ l warn_level
      then codes "warn"
      else if eqb_ℤ l error_level
      then codes "error"
      else if eqb_ℤ l dpanic_level
      then codes "dpanic"
      else if eqb_ℤ l panic_level
      then codes "panic"
      else if eqb_ℤ l fatal_level
      then codes "fatal"
      else sprintf (codes "Level") l

  unfoldable pub capital_string : Level → Bytes
  capital_string l =
      if eqb_ℤ l debug_level
      then codes "DEBUG"
      else if eqb_ℤ l info_level
      then codes "INFO"
      else if eqb_ℤ l warn_level
      then codes "WARN"
      else if eqb_ℤ l error_level
      then codes "ERROR"
      else if eqb_ℤ l dpanic_level
      then codes "DPANIC"
      else if eqb_ℤ l panic_level
      then codes "PANIC"
      else if eqb_ℤ l fatal_level
      then codes "FATAL"
      else sprintf (codes "LEVEL") l

-- `UnmarshalText` on a pointer to a level: the error, and the level behind the pointer.
module _ (lower : ToLower) where
  unfoldable pub unmarshal_text : Option Level → Bytes → Option LevelError × Option Level
  unmarshal_text none text = (some unmarshal_nil_level, none)
  unmarshal_text (some l) text = elim (unmarshal_lower text) [
    | some l' ↦ (none, some l')
    | none ↦ elim (unmarshal_lower (lower.to_lower text)) [
      | some l' ↦ (none, some l')
      | none ↦ (some (unrecognized_level text), some l)
    ]
  ]

  parsed : Option LevelError × Option Level → Result LevelError Level
  parsed (none, some l) = ok l
  parsed (none, none) = ok info_level
  parsed (some e, l) = err e

  -- `ParseLevel`: the zero value of a level is `InfoLevel`.
  unfoldable pub parse_level : Bytes → Result LevelError Level
  unfolding unmarshal_text parsed
  parse_level text = parsed (unmarshal_text (some info_level) text)
