-- ===== src/Json/Tree.antt =====
-- JSON texts as trees, how a tree is written, and the tree that the calls of a marshaler stand for.
use buffer_full_flush_once.Common.{
  ℕ, suc, Bool, true, false, Option, none, some, List, [], ◌∷◌, ◌++◌, if◌then◌else◌, Result, ok,
  err,
}
use buffer_full_flush_once.Common.Int.{ℤ}
use buffer_full_flush_once.Common.Bytes.{Bytes, codes}
use buffer_full_flush_once.Encoder.{
  Formats, Prim, bool, int, uint, float, complex, string, byte_string, time_layout,
}
use buffer_full_flush_once.Encoder.Calls.{
  ObjectCalls, ArrayCalls, done, add, add_binary, add_duration, add_time, add_reflected, add_array,
  add_object, open_namespace, end, append, append_duration, append_time, append_reflected,
  append_array, append_object,
}
use buffer_full_flush_once.Encoder.Config.{EncoderConfig}
use buffer_full_flush_once.Json.{
  last_byte, is_opener, quoted, colon, separator, bool_text, float_literal, complex_literal,
  encode_reflected, calls_of,
}
use buffer_full_flush_once.Json.Escape.{Utf8}

-- `raw` is a token that is written as it stands: a number, a literal, a value that was encoded by
-- reflection, or a time between quotes, in which nothing is escaped. It need not be JSON.
mutual
  pub data Value : Type 0 where
    text : Bytes → Value
    raw : Bytes → Value
    array : Values → Value
    object : Members → Value

  pub data Values : Type 0 where
    empty : Values
    cons : Value → Values → Values

  pub data Members : Type 0 where
    no_members : Members
    member : Bytes → Value → Members → Members

-- Two lists of members, one after the other.
abbrev pub join_members : Members → Members → Members
join_members no_members ns = ns
join_members (member k v ms) ns = member k v (join_members ms ns)

-- Whether a text ends where a separator is needed before the next element.
abbrev pub ends_value : Option ℕ → Bool
ends_value none = false
ends_value (some c) = if is_opener c then false else true

unfoldable pub closed : Bytes → Bool
closed b = ends_value (last_byte b)

-- What stands before an element: nothing before the first one.
abbrev pub lead : Bool → Bool → Bytes
lead spaced true = []
lead spaced false = separator spaced

module _ (u : Utf8) (spaced : Bool) where
  -- How a tree is written; `first` is that nothing stands before in the same array or object.
  unfoldable mutual
    pub print : Value → Bytes
    print (text s) = quoted u s
    print (raw b) = b
    print (array vs) = b'[' ∷ (print_items true vs ++ codes "]")
    print (object ms) = b'{' ∷ (print_members true ms ++ codes "}")

    pub print_items : Bool → Values → Bytes
    print_items first empty = []
    print_items first (cons v vs) = lead spaced first ++ (print v ++ print_items false vs)

    pub print_members : Bool → Members → Bytes
    print_members first no_members = []
    print_members first (member k v ms) =
        lead spaced first ++ ((quoted u k ++ colon spaced) ++ (print v ++ print_members false ms))

module _ (f : Formats) where
  abbrev pub prim_value : Prim f → Value
  prim_value (bool b) = raw (bool_text f b)
  prim_value (int n) = raw (f.int_text n)
  prim_value (uint n) = raw (f.uint_text n)
  prim_value (float x bits) = raw (float_literal f (f.kind x) x bits)
  prim_value (complex z bits) = raw (complex_literal f z bits)
  prim_value (string s) = text s
  prim_value (byte_string s) = text s
  prim_value (time_layout t layout) = raw (b'"' ∷ (f.time_text t layout ++ codes "\""))

  -- The value of a user's encoder: what it appends, or the fallback where it appends nothing.
  abbrev pub value_or : List (Prim f) → Prim f → Value
  value_or [] fallback = prim_value fallback
  value_or (v ∷ vs) fallback = prim_value v

  module _ (cfg : EncoderConfig f) where
    abbrev pub duration_value : ℤ → Value
    duration_value d = value_or (calls_of cfg.encode_duration d) (int d)

    abbrev pub time_value : ℤ → Value
    time_value t = value_or (calls_of cfg.encode_time t) (int t)

    abbrev pub reflected_member : Bytes → Result Bytes Bytes → Members → Members
    reflected_member k (ok b) ms = member k (raw b) ms
    reflected_member k (err e) ms = ms

    abbrev pub reflected_item : Result Bytes Bytes → Values → Values
    reflected_item (ok b) vs = cons (raw b) vs
    reflected_item (err e) vs = vs

    -- The members that the calls stand for. A namespace holds all that comes after it.
    abbrev mutual
      pub members_of : ObjectCalls f → Members
      members_of done = no_members
      members_of (add k v rest) = member k (prim_value v) (members_of rest)
      members_of (add_binary k v rest) = member k (text (f.base64 v)) (members_of rest)
      members_of (add_duration k d rest) = member k (duration_value d) (members_of rest)
      members_of (add_time k t rest) = member k (time_value t) (members_of rest)
      members_of (add_reflected k v rest) =
          reflected_member k (encode_reflected f v) (members_of rest)
      members_of (add_array k calls rest) = member k (array (values_of calls)) (members_of rest)
      members_of (add_object k calls rest) = member k (object (members_of calls)) (members_of rest)
      members_of (open_namespace k rest) = member k (object (members_of rest)) no_members

      pub values_of : ArrayCalls f → Values
      values_of end = empty
      values_of (append v rest) = cons (prim_value v) (values_of rest)
      values_of (append_duration d rest) = cons (duration_value d) (values_of rest)
      values_of (append_time t rest) = cons (time_value t) (values_of rest)
      values_of (append_reflected v rest) = reflected_item (encode_reflected f v) (values_of rest)
      values_of (append_array calls rest) = cons (array (values_of calls)) (values_of rest)
      values_of (append_object calls rest) = cons (object (members_of calls)) (values_of rest)

-- How many namespaces the calls leave open.
abbrev pub opened : {f : Formats} → ObjectCalls f → ℕ
opened done = 0
opened (add k v rest) = opened rest
opened (add_binary k v rest) = opened rest
opened (add_duration k d rest) = opened rest
opened (add_time k t rest) = opened rest
opened (add_reflected k v rest) = opened rest
opened (add_array k calls rest) = opened rest
opened (add_object k calls rest) = opened rest
opened (open_namespace k rest) = suc (opened rest)
