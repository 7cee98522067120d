-- ===== src/Json/Unescape.antt =====
-- Reading a JSON string, and the text that a string comes back as after `safeAppendStringLike`.
pub mod Reads
use buffer_full_flush_once.Common.{
  ℕ, zero, suc, ◌+◌, ◌-◌, ◌*◌, ◌/◌, ◌%◌, ◌==◌, Bool, true, false, not, ◌&&◌, Option, none, some,
  List, [], ◌∷◌, ◌++◌, if◌then◌else◌, ltb, leb, length, take, drop,
}
use buffer_full_flush_once.Common.Bytes.{Bytes, codes}
use buffer_full_flush_once.Json.Escape.{Utf8, is_invalid}

-- Where a reader of the inside of a JSON string stands: `in_hex n v` has `n + 1` digits to read and `v`
-- from those before.
pub data Reader : Type 0 where
  in_text : Reader
  after_backslash : Reader
  in_hex : ℕ → ℕ → Reader

-- The bytes that stand for themselves in a string.
abbrev pub may_stand : ℕ → Bool
may_stand c = not (ltb c 0x20) && (not (c == b'"') && not (c == b'\\'))

abbrev pub prefixed : Bytes → Option Bytes → Option Bytes
prefixed b none = none
prefixed b (some s) = some (b ++ s)

abbrev pub hex_value : ℕ → Option ℕ
hex_value c =
    if leb b'0' c && leb c b'9'
    then some (c - b'0')
    else if leb b'a' c && leb c b'f'
    then some (c - b'a' + 10)
    else if leb b'A' c && leb c b'F'
    then some (c - b'A' + 10)
    else none

-- The UTF-8 bytes of a code point below 0x10000.
abbrev pub utf8_bytes : ℕ → Bytes
utf8_bytes r =
    if ltb r 0x80
    then r ∷ []
    else if ltb r 0x800
    then (0xc0 + r / 64) ∷ (0x80 + r % 64) ∷ []
    else (0xe0 + r / 4096) ∷ (0x80 + (r / 64) % 64) ∷ (0x80 + r % 64) ∷ []

-- The byte that a letter after a backslash stands for.
abbrev pub unescaped : ℕ → Option Bytes
unescaped c =
    if (c == b'"')
    then some (c ∷ [])
    else if c == b'\\'
    then some (c ∷ [])
    else if c == b'/'
    then some (c ∷ [])
    else if c == b'b'
    then some (8 ∷ [])
    else if c == b'f'
    then some (12 ∷ [])
    else if c == b'n'
    then some (10 ∷ [])
    else if c == b'r'
    then some (13 ∷ [])
    else if c == b't'
    then some (9 ∷ [])
    else none

abbrev pub prefixed_by : Option Bytes → Option Bytes → Option Bytes
prefixed_by none o = none
prefixed_by (some b) o = prefixed b o

-- The inside of a JSON string, read by RFC 8259; a surrogate is read on its own.
unfoldable pub read : Reader → Bytes → Option Bytes
read in_text [] = some []
read after_backslash [] = none
read (in_hex n v) [] = none
read in_text (c ∷ s) =
    let escape = read after_backslash s in
    let rest = read in_text s in
    if c == b'\\' then escape else if may_stand c then prefixed (c ∷ []) rest else none
read after_backslash (c ∷ s) =
    let digits = read (in_hex 3 0) s in
    let rest = read in_text s in if c == b'u' then digits else prefixed_by (unescaped c) rest
read (in_hex zero v) (c ∷ s) =
    let rest = read in_text s in
    elim (hex_value c) [ none ↦ none | some d ↦ prefixed (utf8_bytes (v * 16 + d)) rest ]
read (in_hex (suc n) v) (c ∷ s) = elim (hex_value c) [
  | none ↦ none
  | some d ↦ read (in_hex n (v * 16 + d)) s
]

module _ (u : Utf8) where
  -- A text with the replacement character for each byte that is not UTF-8.
  unfoldable pub sanitize_from : ℕ → Bytes → Bytes
  sanitize_from zero s = []
  sanitize_from (suc k) [] = []
  sanitize_from (suc k) (c ∷ s) =
      let rune = u.decode_rune (c ∷ s) in
      let after_rune = sanitize_from k (drop rune.1 (c ∷ s)) in
      let after_byte = sanitize_from k s in
      if leb 128 c
      then (if not (is_invalid rune)
          then take rune.1 (c ∷ s) ++ after_rune
          else 0xef ∷ 0xbf ∷ 0xbd ∷ after_byte)
      else c ∷ after_byte

  unfoldable pub sanitize : Bytes → Bytes
  sanitize s = sanitize_from (length s) s
