-- ===== src/Json/Unescape/Reads.antt =====
-- Escaped strings, and the reader of JSON strings.
use buffer_full_flush_once.Common.{
  ℕ, zero, suc, ◌+◌, ◌*◌, ◌/◌, ◌%◌, ◌≤◌, ◌<◌, ◌≡◌, refl, sym, ap, ◌==◌, Bool, true, false, ◌&&◌,
  Option, none, some, [], ◌∷◌, ◌++◌, append-nil, append_assoc, arith, leb, ltb, length, length-drop,
  take, drop, All, ==_iff, leb→le, All-append, Bool-cases, inl, inr,
}
use buffer_full_flush_once.Common.Bytes.{Bytes, codes}
use buffer_full_flush_once.Json.Escape.{
  Utf8, is_plain, is_invalid, hex_digit, escaped, append_from, safe_append,
}
use buffer_full_flush_once.Json.Unescape.{
  in_text, prefixed, hex_value, read, sanitize_from, sanitize,
}

prefixed-prefixed :
    (a b : Bytes) (o : Option Bytes) → prefixed a (prefixed b o) ≡ prefixed (a ++ b) o
prefixed-prefixed a b none = refl
prefixed-prefixed a b (some s) = ap some (sym (append_assoc a b s))

prefixed-nil : (o : Option Bytes) → prefixed [] o ≡ o
prefixed-nil none = refl
prefixed-nil (some s) = refl

-- A text that is read as `out`, whatever comes after it.
abbrev Reads : Bytes → Bytes → Type 0
Reads b out = (t : Bytes) → read in_text (b ++ t) ≡ prefixed out (read in_text t)

Reads-append : (a b x y : Bytes) → Reads a x → Reads b y → Reads (a ++ b) (x ++ y)
Reads-append a b x y h k t =
    rw (append_assoc a b t, h (b ++ t), k t) (prefixed-prefixed x y (read in_text t))

Reads-equal : (b : Bytes) {x y : Bytes} → Reads b x → x ≡ y → Reads b y
Reads-equal b h e = rw e at h

Reads-plain : (s : Bytes) → All (λ c. is_plain c ≡ true) s → Reads s s
unfolding read
Reads-plain [] h t = sym (prefixed-nil (read in_text t))
Reads-plain (c ∷ s) (hc, hs) t =
    let other : (c == b'\\') ≡ false = ground arith in
    let quote : (c == b'"') ≡ false = ground arith in
    let high : ltb c 0x20 ≡ false = ground arith in
    rw (other, quote, high, Reads-plain s hs t) (prefixed-prefixed (c ∷ []) s (read in_text t))

abbrev all_below : ℕ → (ℕ → Bool) → Bool
all_below zero p = true
all_below (suc n) p = p n && all_below n p

all_below-lem : (n : ℕ) (p : ℕ → Bool) → all_below n p ≡ true → (i : ℕ) → i < n → p i ≡ true
all_below-lem zero p h i below = absurd (omega (arith, below))
all_below-lem (suc n) p h i below =
    let rest : all_below n p ≡ true = ground arith in
    let here : p n ≡ true = ground arith in
    elim (Bool-cases (i == n)) [
      | inl same ↦ rw ((==_iff i n).0 same) here
      | inr other ↦ all_below-lem n p rest i (ground arith)
    ]

abbrev is_read_as : Option ℕ → ℕ → Bool
is_read_as none i = false
is_read_as (some d) i = d == i

is_read_as-lem : (o : Option ℕ) (i : ℕ) → is_read_as o i ≡ true → o ≡ some i
is_read_as-lem none i h = cc
is_read_as-lem (some d) i h = ap some ((==_iff d i).0 h)

hex_value-hex_digit : (i : ℕ) → i < 16 → hex_value (hex_digit i) ≡ some i
hex_value-hex_digit i h =
    let checked = all_below-lem 16 (λ j. is_read_as (hex_value (hex_digit j)) j) refl i h in
    is_read_as-lem (hex_value (hex_digit i)) i checked

Reads-control :
    (c : ℕ)
    → c < 32
    → Reads (codes "\\u00" ++ (hex_digit (c / 16) ∷ hex_digit (c % 16) ∷ [])) (c ∷ [])
unfolding read
Reads-control c h t =
    let high = hex_value-hex_digit (c / 16) (omega arith) in
    let low = hex_value-hex_digit (c % 16) (omega arith) in
    let whole : (0 + c / 16) * 16 + c % 16 ≡ c = omega arith in
    let small : ltb c 0x80 ≡ true = ground arith in rw (high, low, whole, small) refl

Reads-escaped : (c : ℕ) → leb 128 c ≡ false → is_plain c ≡ false → Reads (escaped c) (c ∷ [])
unfolding read escaped
Reads-escaped c h k t = elim (Bool-cases (c == b'\\')) [
  | inl same ↦ rw ((==_iff c b'\\').0 same) refl
  | inr a ↦ elim (Bool-cases (c == b'"')) [
    | inl same ↦ rw ((==_iff c b'"').0 same) refl
    | inr b ↦ elim (Bool-cases (c == 10)) [
      | inl same ↦ rw ((==_iff c 10).0 same) refl
      | inr d ↦ elim (Bool-cases (c == 13)) [
        | inl same ↦ rw ((==_iff c 13).0 same) refl
        | inr e ↦ elim (Bool-cases (c == 9)) [
          | inl same ↦ rw ((==_iff c 9).0 same) refl
          | inr g ↦ let low : c < 32 = ground arith in rw (a, b, d, e, g) (Reads-control c low t)
        ]
      ]
    ]
  ]
]

Reads-replacement : Reads (codes "\\ufffd") (0xef ∷ 0xbf ∷ 0xbd ∷ [])
unfolding read
Reads-replacement t = refl

module _ (u : Utf8) where
  high-AllPlain : (s : Bytes) → All (λ c. 128 ≤ c) s → All (λ c. is_plain c ≡ true) s
  high-AllPlain [] h = tt
  high-AllPlain (c ∷ s) (hc, hs) = (ground arith, high-AllPlain s hs)

  abbrev IsPlainText : Bytes → Type 0
  IsPlainText s = All (λ c. is_plain c ≡ true) s

  -- The loop, from a buffer that is read as `out`.
  append_from-read :
      (k : ℕ) (s pending buf out : Bytes)
      → length s ≤ k
      → IsPlainText pending
      → Reads buf out
      → Reads (append_from u k s pending buf) (out ++ (pending ++ sanitize_from u k s))
  unfolding append_from sanitize_from
  append_from-read zero [] pending buf out h plain r =
      rw (append-nil pending) (Reads-append buf pending out pending r (Reads-plain pending plain))
  append_from-read zero (c ∷ s) pending buf out h plain r = absurd (omega (arith, h))
  append_from-read (suc k) [] pending buf out h plain r =
      rw (append-nil pending) (Reads-append buf pending out pending r (Reads-plain pending plain))
  append_from-read (suc k) (c ∷ s) pending buf out h plain r =
      let flushed = Reads-append buf pending out pending r (Reads-plain pending plain) in
      let size = (u.decode_rune (c ∷ s)).1 in
      elim (Bool-cases (leb 128 c)) [
        | inl high ↦ elim (Bool-cases (is_invalid (u.decode_rune (c ∷ s)))) [
          | inl invalid ↦
              rw (high, invalid)
                (Reads-equal _
                  (append_from-read k s [] _ _ (omega arith) tt (
                    Reads-append (buf ++ pending) (codes "\\ufffd") (out ++ pending)
                      (0xef ∷ 0xbf ∷ 0xbd ∷ []) flushed Reads-replacement))
                  (simp append_assoc))
          | inr valid ↦
              rw (high, valid)
                (Reads-equal _
                  (append_from-read k (drop size (c ∷ s)) (pending ++ take size (c ∷ s)) buf out
                    (omega (arith, length-drop size (c ∷ s), u.size-pos c s (leb→le 128 c high)))
                    (All-append _ pending (take size (c ∷ s)) plain (
                      high-AllPlain (take size (c ∷ s))
                        (u.take-high c s (leb→le 128 c high) valid)))
                    r)
                  (simp append_assoc))
        ]
        | inr low ↦ elim (Bool-cases (is_plain c)) [
          | inl same ↦
              rw (low, same)
                (Reads-equal _
                  (append_from-read k s (pending ++ (c ∷ [])) buf out (omega arith)
                    (All-append _ pending (c ∷ []) plain (same, tt)) r)
                  (simp append_assoc))
          | inr special ↦
              rw (low, special)
                (Reads-equal _
                  (append_from-read k s [] _ _ (omega arith) tt (
                    Reads-append (buf ++ pending) (escaped c) (out ++ pending) (c ∷ []) flushed
                      (Reads-escaped c low special)))
                  (simp append_assoc))
        ]
      ]

  -- What is written for a string is read as the string, with the bytes that are not UTF-8 replaced.
  pub read-safe_append : (s : Bytes) → read in_text (safe_append u s) ≡ some (sanitize u s)
  unfolding safe_append sanitize read
  read-safe_append s =
      let whole =
        append_from-read (length s) s [] [] [] (omega arith) tt
          (λ t. sym (prefixed-nil (read in_text t))) [] in
      rw (append-nil (append_from u (length s) s [] []), append-nil (sanitize_from u (length s) s))
        at whole
