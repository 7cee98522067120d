-- ===== src/Json/Structure/Pieces.antt =====
-- Ends of buffers and separators, and what an operation of the encoder appends.
use buffer_full_flush_once.Common.{
  ℕ, zero, suc, ◌+◌, ◌≡◌, refl, sym, ap, ◌∙◌, Bool, true, false, not, Option, none, some, [], ◌∷◌,
  ◌++◌, append-nil, append_assoc, arith, Bool-cases, inl, inr,
}
use buffer_full_flush_once.Common.Bytes.{Bytes, codes}
use buffer_full_flush_once.Json.{
  JsonEncoder, last_byte, is_opener, separated, separator, colon, add_element_separator, quoted,
  add_key, braces, open_array, open_object, close_array, close_object, close_open_namespaces,
  append_raw, append_quoted,
}
use buffer_full_flush_once.Json.Escape.{Utf8}
use buffer_full_flush_once.Json.Tree.{
  Value, array, object, Values, cons, Members, no_members, member, ends_value, closed, lead, print,
  print_items, print_members,
}

-- The end of a text is that of its last part.
pub closed-append : (a : Bytes) (c : ℕ) (b : Bytes) → closed (a ++ (c ∷ b)) ≡ closed (c ∷ b)
unfolding closed last_byte
closed-append [] c b = refl
closed-append (x ∷ []) c b = refl
closed-append (x ∷ y ∷ a) c b = closed-append (y ∷ a) c b

pub closed-append_closed : (a b : Bytes) → closed b ≡ true → closed (a ++ b) ≡ true
unfolding closed last_byte
closed-append_closed a [] h = cc
closed-append_closed a (c ∷ b) h = closed-append a c b ∙ h

closed-colon : (a b : Bytes) (spaced : Bool) → closed (a ++ (b ++ colon spaced)) ≡ false
unfolding closed last_byte
closed-colon a b true = rw (← append_assoc a b (codes ": ")) (closed-append (a ++ b) 58 (32 ∷ []))
closed-colon a b false = rw (← append_assoc a b (codes ":")) (closed-append (a ++ b) 58 [])

pub braces-commute : (n : ℕ) → braces n ++ codes "}" ≡ b'}' ∷ braces n
unfolding braces
braces-commute zero = refl
braces-commute (suc n) = ap (λ b. b'}' ∷ b) (braces-commute n)

separated-lead :
    (spaced : Bool) (o : Option ℕ) (buf : Bytes)
    → separated o (separator spaced) buf ≡ buf ++ lead spaced (not (ends_value o))
separated-lead spaced none buf = sym (append-nil buf)
separated-lead spaced (some c) buf = elim (Bool-cases (is_opener c)) [
  | inl opener ↦ rw opener (sym (append-nil buf))
  | inr other ↦ rw other refl
]

brace-last : (b : Bytes) (n : ℕ) → b ++ (b'}' ∷ braces n) ≡ (b ++ braces n) ++ codes "}"
brace-last b n =
    ap (λ t. b ++ t) (sym (braces-commute n)) ∙ sym (append_assoc b (braces n) (codes "}"))

module _ (spaced : Bool) where
  pub add_element_separator-lead :
      (buf : Bytes) → add_element_separator spaced buf ≡ buf ++ lead spaced (not (closed buf))
  unfolding add_element_separator closed
  add_element_separator-lead buf = separated-lead spaced (last_byte buf) buf

  pub append_raw-lead :
      (b buf : Bytes) → append_raw spaced b buf ≡ buf ++ (lead spaced (not (closed buf)) ++ b)
  unfolding append_raw
  append_raw-lead b buf = rw (add_element_separator-lead buf) (append_assoc buf _ b)

module _ (u : Utf8) (spaced : Bool) where
  pub append_quoted-lead :
      (s buf : Bytes)
      → append_quoted u spaced s buf ≡ buf ++ (lead spaced (not (closed buf)) ++ quoted u s)
  unfolding append_quoted
  append_quoted-lead s buf =
      rw (add_element_separator-lead spaced buf) (append_assoc buf _ (quoted u s))

  -- A key ends with a colon, after which no separator is needed.
  pub add_key-lead :
      (k buf : Bytes)
      → (add_key u spaced k buf
          ≡ buf ++ (lead spaced (not (closed buf)) ++ (quoted u k ++ colon spaced)))
        × (closed (add_key u spaced k buf) ≡ false)
  unfolding add_key
  add_key-lead k buf = (
    rw (add_element_separator-lead spaced buf) (append_assoc buf _ (quoted u k ++ colon spaced)),
    closed-colon (add_element_separator spaced buf) (quoted u k) spaced,
  )

  -- An operation that appends one value.
  abbrev pub AppendsValue : (JsonEncoder → JsonEncoder) → Value → Type 0
  AppendsValue op v =
      (enc : JsonEncoder)
      → ((op enc).buf ≡ enc.buf ++ (lead spaced (not (closed enc.buf)) ++ print u spaced v))
        × ((op enc).open_namespaces ≡ enc.open_namespaces)

  -- An operation that appends the elements of an array.
  abbrev pub AppendsItems : (JsonEncoder → JsonEncoder) → Values → Type 0
  AppendsItems op vs =
      (enc : JsonEncoder)
      → ((op enc).buf ≡ enc.buf ++ print_items u spaced (not (closed enc.buf)) vs)
        × ((op enc).open_namespaces ≡ enc.open_namespaces)

  -- An operation that appends members, once the `m` namespaces that it leaves open are closed.
  abbrev pub AppendsMembers : (JsonEncoder → JsonEncoder) → Members → ℕ → Type 0
  AppendsMembers op ms m =
      (enc : JsonEncoder)
      → ((op enc).buf ++ braces m ≡ enc.buf ++ print_members u spaced (not (closed enc.buf)) ms)
        × ((op enc).open_namespaces ≡ enc.open_namespaces + m)

  pub cons-AppendsItems :
      (op rest : JsonEncoder → JsonEncoder) (v : Value) (vs : Values)
      → closed (print u spaced v) ≡ true
      → AppendsValue op v
      → AppendsItems rest vs
      → AppendsItems (λ enc. rest (op enc)) (cons v vs)
  unfolding print
  cons-AppendsItems op rest v vs end hv hr enc =
      let (written, same) = hv enc in
      let (later, same') = hr (op enc) in
      let start : Bytes = enc.buf ++ lead spaced (not (closed enc.buf)) in
      let after : closed (op enc).buf ≡ true =
        rw (written, ← append_assoc enc.buf) (closed-append_closed start (print u spaced v) end) in
      (rw (later, after, written) (simp append_assoc), same' ∙ same)

  pub member-AppendsMembers :
      (op rest : JsonEncoder → JsonEncoder) (k : Bytes) (v : Value) (ms : Members) (m : ℕ)
      → closed (print u spaced v) ≡ true
      → AppendsValue op v
      → AppendsMembers rest ms m
      → AppendsMembers
          (λ enc. rest (op (record enc { buf = add_key u spaced k enc.buf })))
          (member k v ms)
          m
  unfolding print
  member-AppendsMembers op rest k v ms m end hv hr enc =
      let (key, colon_end) = add_key-lead k enc.buf in
      let keyed : JsonEncoder = record enc { buf = add_key u spaced k enc.buf } in
      let (written, same) = hv keyed in
      let (later, same') = hr (op keyed) in
      let value : (op keyed).buf ≡ add_key u spaced k enc.buf ++ print u spaced v =
        rw colon_end at written in
      let after : closed (op keyed).buf ≡ true =
        rw value (closed-append_closed (add_key u spaced k enc.buf) (print u spaced v) end) in
      (rw (later, after, value, key) (simp append_assoc), same' ∙ ap (λ n. n + m) same)

  pub namespace-AppendsMembers :
      (rest : JsonEncoder → JsonEncoder) (k : Bytes) (ms : Members) (m : ℕ)
      → AppendsMembers rest ms m
      → AppendsMembers
          (λ enc. rest (record {
            buf = add_key u spaced k enc.buf ++ codes "{";
            open_namespaces = enc.open_namespaces + 1;
          }))
          (member k (object ms) no_members)
          (suc m)
  unfolding print braces closed last_byte
  namespace-AppendsMembers rest k ms m hr enc =
      let (key, colon_end) = add_key-lead k enc.buf in
      let inner : JsonEncoder = record {
        buf = add_key u spaced k enc.buf ++ codes "{";
        open_namespaces = enc.open_namespaces + 1;
      } in
      let (written, same) = hr inner in
      let opener : closed inner.buf ≡ false = closed-append (add_key u spaced k enc.buf) b'{' [] in
      (rw (brace-last (rest inner).buf m, written, opener, key) (simp append_assoc), omega arith)

  pub array-AppendsValue :
      (op : JsonEncoder → JsonEncoder) (vs : Values)
      → AppendsItems op vs
      → AppendsValue (λ enc. close_array (op (open_array spaced enc))) (array vs)
  unfolding print close_array open_array closed last_byte
  array-AppendsValue op vs h enc =
      let sep = add_element_separator spaced enc.buf in
      let (written, same) = h (record enc { buf = sep ++ codes "[" }) in
      let opener : closed (sep ++ codes "[") ≡ false = closed-append sep b'[' [] in
      (rw (written, opener, add_element_separator-lead spaced enc.buf) (simp append_assoc), same)

  pub object-AppendsValue :
      (op : JsonEncoder → JsonEncoder) (ms : Members) (m : ℕ)
      → AppendsMembers op ms m
      → AppendsValue
          (λ enc. close_object enc.open_namespaces (op (open_object spaced enc)))
          (object ms)
  unfolding print close_object open_object close_open_namespaces closed last_byte
  object-AppendsValue op ms m h enc =
      let sep = add_element_separator spaced enc.buf in
      let inner : JsonEncoder = record { buf = sep ++ codes "{"; open_namespaces = 0 } in
      let (written, same) = h inner in
      let opener : closed (sep ++ codes "{") ≡ false = closed-append sep b'{' [] in
      let count : (op inner).open_namespaces ≡ m = (omega arith) in
      let moved =
        append_assoc (op inner).buf (codes "}") (braces m) ∙ brace-last (op inner).buf m in
      (
        rw (count, moved, written, opener, add_element_separator-lead spaced enc.buf)
            (simp append_assoc),
        refl,
      )
