-- ===== src/Json/Escape.antt =====
-- zapcore/json_encoder.go: the escaping of strings, `safeAppendStringLike`.
use buffer_full_flush_once.Common.{
  ℕ, zero, suc, ◌/◌, ◌%◌, ◌≤◌, ◌≡◌, ◌==◌, Bool, false, not, ◌&&◌, ◌||◌, Option, none, some, [], ◌∷◌,
  ◌++◌, if◌then◌else◌, leb, length, take, drop, get_elem?, All,
}
use buffer_full_flush_once.Common.Bytes.{Bytes, codes}

abbrev pub rune_error : ℕ
rune_error = 0xfffd

-- Whether `DecodeRune` found no rune.
abbrev pub is_invalid : ℕ × ℕ → Bool
is_invalid (r, size) = (r == rune_error) && (size == 1)

-- `utf8.DecodeRune` and `utf8.DecodeRuneInString`: the rune at the beginning of a text and its size in
-- bytes. The laws are about a text that begins with a byte of 128 or more.
pub record Utf8 : Type 0 where
  pub decode_rune : Bytes → ℕ × ℕ
  pub size-pos : (c : ℕ) (s : Bytes) → 128 ≤ c → 1 ≤ (decode_rune (c ∷ s)).1
  pub take-high :
      (c : ℕ) (s : Bytes)
      → 128 ≤ c
      → is_invalid (decode_rune (c ∷ s)) ≡ false
      → All (λ b. 128 ≤ b) (take (decode_rune (c ∷ s)).1 (c ∷ s))

abbrev pub hex : Bytes
hex = codes "0123456789abcdef"

-- `_hex[i]`, for an index in range.
abbrev pub digit_or : Option ℕ → ℕ
digit_or none = 0
digit_or (some d) = d

abbrev pub hex_digit : ℕ → ℕ
hex_digit i = digit_or (get_elem? hex i)

abbrev pub is_plain : ℕ → Bool
is_plain c = leb 0x20 c && (not (c == b'\\') && not (c == b'"'))

-- A byte below 128 that is not plain, escaped.
unfoldable pub escaped : ℕ → Bytes
escaped c =
    if (c == b'\\') || (c == b'"')
    then b'\\' ∷ c ∷ []
    else if c == 10
    then codes "\\n"
    else if c == 13
    then codes "\\r"
    else if c == 9
    then codes "\\t"
    else codes "\\u00" ++ (hex_digit (c / 16) ∷ hex_digit (c % 16) ∷ [])

module _ (u : Utf8) where
  -- The loop, with the rounds left, the text from the index i on, the text from the index last to
  -- i, and the buffer. A round takes a byte at least, so that as many rounds as bytes are enough.
  unfoldable pub append_from : ℕ → Bytes → Bytes → Bytes → Bytes
  append_from zero s pending buf = buf ++ pending
  append_from (suc k) [] pending buf = buf ++ pending
  append_from (suc k) (c ∷ s) pending buf =
      let rune = u.decode_rune (c ∷ s) in
      let skip_rune = append_from k (drop rune.1 (c ∷ s)) (pending ++ take rune.1 (c ∷ s)) buf in
      let replace = append_from k s [] ((buf ++ pending) ++ codes "\\ufffd") in
      let skip_byte = append_from k s (pending ++ (c ∷ [])) buf in
      let escape = append_from k s [] ((buf ++ pending) ++ escaped c) in
      if leb 128 c
      then (if not (is_invalid rune) then skip_rune else replace)
      else (if is_plain c then skip_byte else escape)

  -- `safeAppendStringLike` on an empty buffer: it only appends.
  unfoldable pub safe_append : Bytes → Bytes
  safe_append s = append_from (length s) s [] []
