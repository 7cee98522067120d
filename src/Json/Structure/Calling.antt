-- ===== src/Json/Structure/Calling.antt =====
-- The calls of marshalers, and the trees of Json/Tree.antt.
use buffer_full_flush_once.Common.{
  ℕ, ◌+◌, ◌≡◌, ◌≤◌, refl, sym, Bool, true, false, not, Option, none, some, List, [], ◌∷◌, ◌++◌,
  append-nil, arith, length, Result, ok, err, ◌==◌, if◌then◌else◌, Bool-cases, inl, inr,
  length-append, ==_iff, Result-cases,
}
use buffer_full_flush_once.Common.Int.{ℤ}
use buffer_full_flush_once.Common.Bytes.{Bytes, codes}
use buffer_full_flush_once.Level.{Level}
use buffer_full_flush_once.Entry.{EntryCaller}
use buffer_full_flush_once.Encoder.{
  Formats, FloatKind, is_nan, is_inf, is_neg_inf, is_finite, Prim, bool, int, uint, float, complex,
  string, byte_string, time_layout,
}
use buffer_full_flush_once.Encoder.Calls.{
  ObjectCalls, ArrayCalls, done, add, add_binary, add_duration, add_time, add_reflected, add_array,
  add_object, open_namespace, end, append, append_duration, append_time, append_reflected,
  append_array, append_object,
}
use buffer_full_flush_once.Encoder.Config.{EncoderConfig}
use buffer_full_flush_once.Json.{
  JsonEncoder, braces, last_byte, quoted, float_literal, complex_literal, encode_reflected,
  trim_newline, calls_of, append_prim, append_prims, append_or, append_raw, add_key,
  append_duration_value, append_time_value, append_reflected_text, add_reflected_text, add_calls,
  append_calls, bool_text, close_array, close_object, open_array, open_object,
}
use buffer_full_flush_once.Json.Escape.{Utf8, safe_append}
use buffer_full_flush_once.Json.Tree.{
  print_members, print_items, text, raw, array, object, closed, lead, print, prim_value, value_or,
  duration_value, time_value, reflected_member, reflected_item, members_of, values_of, opened,
  Values, Members,
}
use buffer_full_flush_once.Json.Structure.Pieces.{
  closed-append, closed-append_closed, append_raw-lead, append_quoted-lead, AppendsValue,
  AppendsItems, AppendsMembers, cons-AppendsItems, member-AppendsMembers, namespace-AppendsMembers,
  array-AppendsValue, object-AppendsValue, add_key-lead,
}

-- The texts of numbers, and of what is encoded by reflection, are not empty and do not end with a
-- separator, a colon, a space or an opening bracket.
pub record Tokens (f : Formats) : Type 0 where
  pub int_token : (n : ℤ) → closed (f.int_text n) ≡ true
  pub uint_token : (n : ℕ) → closed (f.uint_text n) ≡ true
  pub float_token : (x : f.Float) (bits : ℕ) → closed (f.float_text x bits) ≡ true
  pub reflect_token :
      (r : f.Reflected) (b : Bytes) → f.reflect r ≡ ok b → closed (trim_newline b) ≡ true

-- A user's encoder makes one call at most.
abbrev pub IsSingle : {f : Formats} → List (Prim f) → Type 0
IsSingle vs = length vs ≤ 1

-- The encoders for the parts of an entry, and for durations and times, make one call at most.
pub record SingleParts {f : Formats} (cfg : EncoderConfig f) : Type 0 where
  pub level_single : (l : Level) → IsSingle (calls_of cfg.encode_level l)
  pub time_single : (t : ℤ) → IsSingle (calls_of cfg.encode_time t)
  pub duration_single : (d : ℤ) → IsSingle (calls_of cfg.encode_duration d)
  pub caller_single : (c : EntryCaller) → IsSingle (cfg.encode_caller c)
  pub name_single : (n : Bytes) → IsSingle (calls_of cfg.encode_name n)

nonempty-closed : (b : Bytes) → closed b ≡ true → 1 ≤ length b
unfolding closed last_byte
nonempty-closed [] h = cc
nonempty-closed (c ∷ b) h = omega arith

quotes : (s : Bytes) → closed (b'"' ∷ (s ++ codes "\"")) ≡ true
unfolding closed last_byte
quotes s = closed-append (b'"' ∷ s) b'"' []

pub quoted-closed : (u : Utf8) (s : Bytes) → closed (quoted u s) ≡ true
unfolding quoted
quoted-closed u s = quotes (safe_append u s)

module _ (u : Utf8) (f : Formats) (spaced : Bool) (tokens : Tokens f) where
  float-closed : (k : FloatKind) (x : f.Float) (bits : ℕ) → closed (float_literal f k x bits) ≡ true
  unfolding float_literal closed last_byte
  float-closed is_nan x bits = refl
  float-closed is_inf x bits = refl
  float-closed is_neg_inf x bits = refl
  float-closed is_finite x bits = tokens.float_token x bits

  bool-closed : (b : Bool) → closed (bool_text f b) ≡ true
  unfolding closed last_byte
  bool-closed true = refl
  bool-closed false = refl

  complex-closed : (z : f.Complex) (bits : ℕ) → closed (complex_literal f z bits) ≡ true
  unfolding complex_literal closed last_byte
  complex-closed z bits = closed-append_closed (b'"' ∷ f.float_text (f.real z) bits) _ (
      closed-append_closed (if f.is_negative (f.imag z) then [] else codes "+") _
        (closed-append_closed (f.float_text (f.imag z) bits) (codes "i\"") refl))

  pub prim-closed : (v : Prim f) → closed (print u spaced (prim_value f v)) ≡ true
  unfolding print
  prim-closed (bool b) = bool-closed b
  prim-closed (int n) = tokens.int_token n
  prim-closed (uint n) = tokens.uint_token n
  prim-closed (float x bits) = float-closed (f.kind x) x bits
  prim-closed (complex z bits) = complex-closed z bits
  prim-closed (string s) = quoted-closed u s
  prim-closed (byte_string s) = quoted-closed u s
  prim-closed (time_layout t layout) = quotes (f.time_text t layout)

  prim-buffer :
      (v : Prim f) (buf : Bytes)
      → append_prim u f spaced v buf
        ≡ buf ++ (lead spaced (not (closed buf)) ++ print u spaced (prim_value f v))
  unfolding append_prim print
  prim-buffer (bool b) buf = append_raw-lead spaced (bool_text f b) buf
  prim-buffer (int n) buf = append_raw-lead spaced (f.int_text n) buf
  prim-buffer (uint n) buf = append_raw-lead spaced (f.uint_text n) buf
  prim-buffer (float x bits) buf = append_raw-lead spaced (float_literal f (f.kind x) x bits) buf
  prim-buffer (complex z bits) buf = append_raw-lead spaced (complex_literal f z bits) buf
  prim-buffer (string s) buf = append_quoted-lead u spaced s buf
  prim-buffer (byte_string s) buf = append_quoted-lead u spaced s buf
  prim-buffer (time_layout t layout) buf =
      append_raw-lead spaced (b'"' ∷ (f.time_text t layout ++ codes "\"")) buf

  pub value_or-closed :
      (vs : List (Prim f)) (fallback : Prim f)
      → closed (print u spaced (value_or f vs fallback)) ≡ true
  value_or-closed [] fallback = prim-closed fallback
  value_or-closed (v ∷ vs) fallback = prim-closed v

  pub append_or-buffer :
      (vs : List (Prim f)) (fallback : Prim f) (buf : Bytes)
      → IsSingle vs
      → append_or u f spaced vs fallback buf
        ≡ buf ++ (lead spaced (not (closed buf)) ++ print u spaced (value_or f vs fallback))
  unfolding append_or append_prims
  append_or-buffer [] fallback buf h =
      rw ((==_iff (length buf) (length buf)).1 refl) (prim-buffer fallback buf)
  append_or-buffer (v ∷ []) fallback buf h =
      let written = prim-buffer v buf in
      let printed = print u spaced (prim_value f v) in
      let before = lead spaced (not (closed buf)) in
      let longer : length buf + 1 ≤ length (append_prim u f spaced v buf) = rw written (
        omega (
          arith,
          length-append buf (before ++ printed),
          length-append before printed,
          nonempty-closed printed (prim-closed v),
        )) in
      elim (Bool-cases (length buf == length (append_prim u f spaced v buf))) [
        | inl same ↦ let e = (==_iff _ _).0 same in absurd (omega (arith, e, longer))
        | inr other ↦ rw other written
      ]
  append_or-buffer (v ∷ w ∷ vs) fallback buf h = absurd (omega (arith, h))

  module _ (cfg : EncoderConfig f) where
    reflected-buffer :
        (r : Result Bytes Bytes) (vs : Values) (rest : JsonEncoder → JsonEncoder)
        → ((b : Bytes) → r ≡ ok b → closed b ≡ true)
        → AppendsItems u spaced rest vs
        → AppendsItems u spaced
            (λ enc. rest (record enc { buf = append_reflected_text u f spaced r enc.buf }))
            (reflected_item f cfg r vs)
    unfolding append_reflected_text print
    reflected-buffer (ok b) vs rest ended h =
        cons-AppendsItems u spaced
          (λ enc. record enc { buf = append_reflected_text u f spaced (ok b) enc.buf }) rest (raw b)
          vs (ended b refl) (λ enc. (append_raw-lead spaced b enc.buf, refl)) h
    reflected-buffer (err e) vs rest ended h = h

    reflected-member :
        (k : Bytes) (r : Result Bytes Bytes) (ms : Members) (m : ℕ)
        (rest : JsonEncoder → JsonEncoder)
        → ((b : Bytes) → r ≡ ok b → closed b ≡ true)
        → AppendsMembers u spaced rest ms m
        → AppendsMembers u spaced
            (λ enc. rest (record enc { buf = add_reflected_text u f spaced k r enc.buf }))
            (reflected_member f cfg k r ms)
            m
    unfolding add_reflected_text print
    reflected-member k (ok b) ms m rest ended h enc =
        let (key, colon_end) = add_key-lead u spaced k enc.buf in
        let same : add_key u spaced k enc.buf ++ b
            ≡ append_raw spaced b (add_key u spaced k enc.buf) =
          rw (append_raw-lead spaced b (add_key u spaced k enc.buf), colon_end) refl in
        rw same (
          member-AppendsMembers u spaced (λ e. record e { buf = append_raw spaced b e.buf }) rest k
            (raw b) ms m (ended b refl) (λ e. (append_raw-lead spaced b e.buf, refl)) h enc)
    reflected-member k (err e) ms m rest ended h enc = h enc

    pub encode_reflected-closed :
        (v : Option f.Reflected) (b : Bytes) → encode_reflected f v ≡ ok b → closed b ≡ true
    unfolding encode_reflected closed last_byte
    encode_reflected-closed none b h = ground arith
    encode_reflected-closed (some r) b h = elim (Result-cases (f.reflect r)) [
      | inl (t, same) ↦ let trimmed = tokens.reflect_token r t same in ground arith
      | inr (e, same) ↦ ground arith
    ]

    duration-AppendsValue :
        (d : ℤ)
        → SingleParts cfg
        → AppendsValue u spaced
            (λ enc. record enc { buf = append_duration_value u f spaced cfg d enc.buf })
            (duration_value f cfg d)
    unfolding append_duration_value
    duration-AppendsValue d single enc = (
      append_or-buffer (calls_of cfg.encode_duration d) (int d) enc.buf (single.duration_single d),
      refl,
    )

    pub time-AppendsValue :
        (t : ℤ)
        → SingleParts cfg
        → AppendsValue u spaced
            (λ enc. record enc { buf = append_time_value u f spaced cfg t enc.buf })
            (time_value f cfg t)
    unfolding append_time_value
    time-AppendsValue t single enc =
        (append_or-buffer (calls_of cfg.encode_time t) (int t) enc.buf (single.time_single t), refl)

    prim-AppendsValue :
        (v : Prim f)
        → AppendsValue u spaced
            (λ enc. record enc { buf = append_prim u f spaced v enc.buf })
            (prim_value f v)
    prim-AppendsValue v enc = (prim-buffer v enc.buf, refl)

    abbrev add_all : ObjectCalls f → JsonEncoder → JsonEncoder
    add_all = add_calls u f spaced cfg

    abbrev append_all : ArrayCalls f → JsonEncoder → JsonEncoder
    append_all = append_calls u f spaced cfg

    pub object-closed : (ms : Members) → closed (print u spaced (object ms)) ≡ true
    unfolding print closed last_byte
    object-closed ms = closed-append (b'{' ∷ print_members u spaced true ms) b'}' []

    pub array-closed : (vs : Values) → closed (print u spaced (array vs)) ≡ true
    unfolding print closed last_byte
    array-closed vs = closed-append (b'[' ∷ print_items u spaced true vs) b']' []

    abbrev mutual
      unfolding add_calls print braces

      add_induction :
          SingleParts cfg
          → (calls : ObjectCalls f)
          → AppendsMembers u spaced (add_all calls) (members_of f cfg calls) (opened calls)
      add_induction single done enc = (refl, omega arith)
      add_induction single (add k v rest) enc =
          member-AppendsMembers u spaced (λ e. record e { buf = append_prim u f spaced v e.buf })
            (add_all rest) k (prim_value f v) (members_of f cfg rest) (opened rest) (prim-closed v)
            (prim-AppendsValue v) (add_induction single rest) enc
      add_induction single (add_binary k v rest) enc =
          member-AppendsMembers u spaced
            (λ e. record e { buf = append_prim u f spaced (string (f.base64 v)) e.buf })
            (add_all rest) k (text (f.base64 v)) (members_of f cfg rest) (opened rest)
            (prim-closed (string (f.base64 v))) (prim-AppendsValue (string (f.base64 v)))
            (add_induction single rest) enc
      add_induction single (add_duration k d rest) enc =
          member-AppendsMembers u spaced
            (λ e. record e { buf = append_duration_value u f spaced cfg d e.buf }) (add_all rest) k
            (duration_value f cfg d) (members_of f cfg rest) (opened rest)
            (value_or-closed (calls_of cfg.encode_duration d) (int d))
            (duration-AppendsValue d single) (add_induction single rest) enc
      add_induction single (add_time k t rest) enc =
          member-AppendsMembers u spaced
            (λ e. record e { buf = append_time_value u f spaced cfg t e.buf }) (add_all rest) k
            (time_value f cfg t) (members_of f cfg rest) (opened rest)
            (value_or-closed (calls_of cfg.encode_time t) (int t)) (time-AppendsValue t single)
            (add_induction single rest) enc
      add_induction single (add_reflected k v rest) enc =
          reflected-member k (encode_reflected f v) (members_of f cfg rest) (opened rest)
            (add_all rest) (encode_reflected-closed v) (add_induction single rest) enc
      add_induction single (add_array k calls rest) enc =
          member-AppendsMembers u spaced (λ e. close_array (append_all calls (open_array spaced e)))
            (add_all rest) k (array (values_of f cfg calls)) (members_of f cfg rest) (opened rest)
            (array-closed (values_of f cfg calls))
            (array-AppendsValue u spaced (append_all calls) (values_of f cfg calls)
              (append_induction single calls))
            (add_induction single rest) enc
      add_induction single (add_object k calls rest) enc =
          member-AppendsMembers u spaced
            (λ e. close_object e.open_namespaces (add_all calls (open_object spaced e)))
            (add_all rest) k (object (members_of f cfg calls)) (members_of f cfg rest) (opened rest)
            (object-closed (members_of f cfg calls))
            (object-AppendsValue u spaced (add_all calls) (members_of f cfg calls) (opened calls)
              (add_induction single calls))
            (add_induction single rest) enc
      add_induction single (open_namespace k rest) enc =
          namespace-AppendsMembers u spaced (add_all rest) k (members_of f cfg rest) (opened rest)
            (add_induction single rest) enc

      append_induction :
          SingleParts cfg
          → (calls : ArrayCalls f)
          → AppendsItems u spaced (append_all calls) (values_of f cfg calls)
      append_induction single end enc = (sym (append-nil enc.buf), refl)
      append_induction single (append v rest) enc =
          cons-AppendsItems u spaced (λ e. record e { buf = append_prim u f spaced v e.buf })
            (append_all rest) (prim_value f v) (values_of f cfg rest) (prim-closed v)
            (prim-AppendsValue v) (append_induction single rest) enc
      append_induction single (append_duration d rest) enc =
          cons-AppendsItems u spaced
            (λ e. record e { buf = append_duration_value u f spaced cfg d e.buf }) (append_all rest)
            (duration_value f cfg d) (values_of f cfg rest)
            (value_or-closed (calls_of cfg.encode_duration d) (int d))
            (duration-AppendsValue d single) (append_induction single rest) enc
      append_induction single (append_time t rest) enc =
          cons-AppendsItems u spaced
            (λ e. record e { buf = append_time_value u f spaced cfg t e.buf }) (append_all rest)
            (time_value f cfg t) (values_of f cfg rest)
            (value_or-closed (calls_of cfg.encode_time t) (int t)) (time-AppendsValue t single)
            (append_induction single rest) enc
      append_induction single (append_reflected v rest) enc =
          reflected-buffer (encode_reflected f v) (values_of f cfg rest) (append_all rest)
            (encode_reflected-closed v) (append_induction single rest) enc
      append_induction single (append_array calls rest) enc =
          cons-AppendsItems u spaced (λ e. close_array (append_all calls (open_array spaced e)))
            (append_all rest) (array (values_of f cfg calls)) (values_of f cfg rest)
            (array-closed (values_of f cfg calls))
            (array-AppendsValue u spaced (append_all calls) (values_of f cfg calls)
              (append_induction single calls))
            (append_induction single rest) enc
      append_induction single (append_object calls rest) enc =
          cons-AppendsItems u spaced
            (λ e. close_object e.open_namespaces (add_all calls (open_object spaced e)))
            (append_all rest) (object (members_of f cfg calls)) (values_of f cfg rest)
            (object-closed (members_of f cfg calls))
            (object-AppendsValue u spaced (add_all calls) (members_of f cfg calls) (opened calls)
              (add_induction single calls))
            (append_induction single rest) enc

    -- The calls of an object append its members, each with its key, and open its namespaces.
    pub add_calls-AppendsMembers :
        (calls : ObjectCalls f)
        → SingleParts cfg
        → AppendsMembers u spaced (add_all calls) (members_of f cfg calls) (opened calls)
    add_calls-AppendsMembers calls single = add_induction single calls

    -- The calls of an array append its elements.
    pub append_calls-AppendsItems :
        (calls : ArrayCalls f)
        → SingleParts cfg
        → AppendsItems u spaced (append_all calls) (values_of f cfg calls)
    append_calls-AppendsItems calls single = append_induction single calls
