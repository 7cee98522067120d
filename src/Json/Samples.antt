-- ===== src/Json/Samples.antt =====
-- Formats, a decoder of UTF-8 and configurations for the tests.
use buffer_full_flush_once.Common.{
  ℕ, ◌+◌, ◌-◌, ◌*◌, ◌%◌, ◌≤◌, ◌≡◌, true, false, ◌&&◌, none, some, [], ◌∷◌, if◌then◌else◌, leb, take,
  All, arith, Result, ok, err, ap, Bool-cases, inl, inr,
}
use buffer_full_flush_once.Common.Int.{pos_part}
use buffer_full_flush_once.Common.Bytes.{Bytes, codes}
use buffer_full_flush_once.Level.{Level}
use buffer_full_flush_once.Encoder.{Formats, is_finite}
use buffer_full_flush_once.Encoder.Config.{
  EncoderConfig, lowercase_level_encoder, epoch_nanos_time_encoder, string_duration_encoder,
  short_caller_encoder,
}
use buffer_full_flush_once.Json.{last_byte, trim_newline}
use buffer_full_flush_once.Json.Escape.{Utf8, rune_error, is_invalid}
use buffer_full_flush_once.Json.Tree.{closed}
use buffer_full_flush_once.Json.Structure.Calling.{Tokens, SingleParts}

-- The last decimal digit.
abbrev pub digit : ℕ → Bytes
digit n = (48 + n % 10) ∷ []

-- Floats are natural numbers, and every number is written as its last digit.
abbrev pub digits : Formats
digits = record {
  Float = ℕ;
  Complex = ℕ × ℕ;
  Reflected = ℕ;
  kind = λ x. is_finite;
  quotient = λ n d. pos_part n;
  real = λ z. z.0;
  imag = λ z. z.1;
  is_negative = λ x. false;
  int_text = λ n. digit (pos_part n);
  uint_text = digit;
  float_text = λ x bits. digit x;
  time_text = λ t layout. layout;
  duration_text = λ d. digit (pos_part d);
  base64 = λ b. b;
  reflect = λ n. ok (digit n);
}

digit-closed : (n : ℕ) → closed (digit n) ≡ true
unfolding closed last_byte
digit-closed n = ground arith

digit-trimmed : (n : ℕ) → closed (trim_newline (digit n)) ≡ true
unfolding closed last_byte trim_newline
digit-trimmed n = ground arith

abbrev text_or : Bytes → Result Bytes Bytes → Bytes
text_or d (ok b) = b
text_or d (err e) = d

pub digits-Tokens : Tokens digits
unfolding trim_newline
digits-Tokens = record {
  int_token = λ n. digit-closed (pos_part n);
  uint_token = digit-closed;
  float_token = λ x bits. digit-closed x;
  reflect_token = λ r b h. rw (← ap (text_or []) h) (digit-trimmed r);
}

-- Runes of one and of two bytes.
abbrev pub decode_two : Bytes → ℕ × ℕ
decode_two [] = (rune_error, 0)
decode_two (c ∷ []) = if leb 128 c then (rune_error, 1) else (c, 1)
decode_two (c ∷ d ∷ s) =
    if leb 0xc2 c && (leb c 0xdf && (leb 0x80 d && leb d 0xbf))
    then ((c - 0xc0) * 64 + (d - 0x80), 2)
    else if leb 128 c
    then (rune_error, 1)
    else (c, 1)

pub decode_two-size : (c : ℕ) (s : Bytes) → 128 ≤ c → 1 ≤ (decode_two (c ∷ s)).1
decode_two-size c [] h = ground arith
decode_two-size c (d ∷ s) h = ground arith

pub decode_two-high :
    (c : ℕ) (s : Bytes)
    → 128 ≤ c
    → is_invalid (decode_two (c ∷ s)) ≡ false
    → All (λ b. 128 ≤ b) (take (decode_two (c ∷ s)).1 (c ∷ s))
decode_two-high c [] h k =
    let invalid : leb 128 c ≡ true = ground arith in let k' = rw invalid at k in cc
decode_two-high c (d ∷ s) h k =
    elim (Bool-cases (leb 0xc2 c && (leb c 0xdf && (leb 0x80 d && leb d 0xbf)))) [
      | inl two ↦ rw two (h, (ground arith, tt))
      | inr other ↦
          let invalid : leb 128 c ≡ true = ground arith in let k' = rw (other, invalid) at k in cc
    ]

abbrev pub two_bytes : Utf8
two_bytes = record {
  decode_rune = decode_two;
  size-pos = decode_two-size;
  take-high = decode_two-high;
}

abbrev pub no_text : Bytes → Level → Bytes
no_text pattern l = pattern

abbrev pub production : EncoderConfig digits
production = record {
  message_key = codes "msg";
  level_key = codes "level";
  time_key = codes "ts";
  name_key = codes "logger";
  caller_key = codes "caller";
  function_key = [];
  stacktrace_key = codes "stacktrace";
  skip_line_ending = false;
  line_ending = codes "\n";
  encode_level = some (lowercase_level_encoder no_text digits);
  encode_time = some (epoch_nanos_time_encoder digits);
  encode_duration = some (string_duration_encoder digits);
  encode_caller = short_caller_encoder digits;
  encode_name = none;
}

pub production-SingleParts : SingleParts production
unfolding lowercase_level_encoder epoch_nanos_time_encoder string_duration_encoder
    short_caller_encoder
production-SingleParts = record {
  level_single = λ l. omega arith;
  time_single = λ t. omega arith;
  duration_single = λ d. omega arith;
  caller_single = λ c. omega arith;
  name_single = λ n. omega arith;
}
