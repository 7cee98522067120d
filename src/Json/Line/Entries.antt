-- ===== src/Json/Line/Entries.antt =====
-- `EncodeEntry`, and the tree of the members of a line.
use buffer_full_flush_once.Common.{
  ℕ, ◌≡◌, refl, sym, ap, ◌∙◌, Bool, true, false, not, Option, none, some, List, ◌++◌, append-nil,
  append_assoc, arith, if◌then◌else◌, Result, ok, err,
}
use buffer_full_flush_once.Common.Bytes.{Bytes, codes}
use buffer_full_flush_once.Level.{Level}
use buffer_full_flush_once.Level.Text
use buffer_full_flush_once.Entry.{Entry}
use buffer_full_flush_once.Entry.Paths.{full_path}
use buffer_full_flush_once.Encoder.{Formats, Prim, string, int}
use buffer_full_flush_once.Encoder.Calls.{
  ObjectCalls, done, add, add_binary, add_duration, add_time, add_reflected, add_array, add_object,
  open_namespace, and_then,
}
use buffer_full_flush_once.Encoder.Config.{EncoderConfig, PartEncoder, full_name_encoder}
use buffer_full_flush_once.Json.{
  JsonEncoder, last_byte, add_key, append_quoted, append_or, append_time_value, add_calls, calls_of,
  quoted, colon, close_open_namespaces, encode_reflected,
}
use buffer_full_flush_once.Json.Escape.{Utf8}
use buffer_full_flush_once.Json.Tree.{
  Value, text, object, Members, no_members, member, join_members, closed, lead, print,
  print_members, value_or, time_value, reflected_member, members_of, values_of, opened,
}
use buffer_full_flush_once.Json.Structure.Pieces.{
  AppendsMembers, member-AppendsMembers, append_quoted-lead, add_key-lead, closed-append_closed,
}
use buffer_full_flush_once.Json.Structure.Calling.{
  Tokens, SingleParts, IsSingle, add_calls-AppendsMembers, prim-closed, quoted-closed,
  value_or-closed, object-closed, array-closed, append_or-buffer, encode_reflected-closed,
}
use buffer_full_flush_once.Json.Line.{
  wants_level, wants_time, wants_name, wants_caller, wants_function, wants_message, wants_stack,
  fresh, name_encoder_or, write_part, write_level, write_time, write_name, write_caller,
  write_function, write_message, write_stack, write_metadata, write_context, encode_entry,
}
use buffer_full_flush_once.Json.Line.Context.{add_calls-and_then, context-add_calls}

-- A member that is left out if it is not wanted.
abbrev pub part_member : Bool → Bytes → Value → Members → Members
part_member wanted key v ms = if wanted then member key v ms else ms

module _ (sprintf : Bytes → Level → Bytes) (f : Formats) (cfg : EncoderConfig f) (ent : Entry) where
  -- The entry's metadata, before other members.
  abbrev pub metadata_members : Members → Members
  metadata_members ms =
      part_member (wants_level cfg ent) cfg.level_key
        (value_or f (calls_of cfg.encode_level ent.level) (string (Text.string sprintf ent.level)))
        (part_member (wants_time cfg ent) cfg.time_key (time_value f cfg ent.time) (
          part_member (wants_name cfg ent) cfg.name_key
            (value_or f (name_encoder_or cfg.encode_name ent.logger_name) (string ent.logger_name))
            (part_member (wants_caller cfg ent) cfg.caller_key
              (value_or f (cfg.encode_caller ent.caller) (string (full_path f.int_text ent.caller)))
              (part_member (wants_function cfg ent) cfg.function_key (text ent.caller.function)
                (part_member (wants_message cfg ent) cfg.message_key (text ent.message) ms)))))

  abbrev pub stack_members : Members
  stack_members = part_member (wants_stack cfg ent) cfg.stacktrace_key (text ent.stack) no_members

  -- What the line of an entry holds: `fields` are the calls of the context and of the fields.
  abbrev pub line_members : ObjectCalls f → Members
  line_members fields = join_members (metadata_members (members_of f cfg fields)) stack_members

regrouped : (a b c d t : Bytes) → a ++ (b ++ (c ++ (d ++ t))) ≡ ((a ++ (b ++ c)) ++ d) ++ t
regrouped a b c d t = simp append_assoc

module _ (u : Utf8) (spaced : Bool) where
  abbrev AllClosed : Members → Type 0
  AllClosed no_members = Unit
  AllClosed (member k v ms) = (closed (print u spaced v) ≡ true) × AllClosed ms

  -- A part of the entry: what its operation writes, and how its member stands before others.
  record IsPart (op : Bytes → Bytes) (wrap : Members → Members) : Type 0 where
    ends : (ms : Members) → AllClosed ms → AllClosed (wrap ms)
    writes :
        (rest : JsonEncoder → JsonEncoder) (ms : Members) (m : ℕ)
        → AppendsMembers u spaced rest ms m
        → AppendsMembers u spaced (λ enc. rest (record enc { buf = op enc.buf })) (wrap ms) m

  IsPart-compose :
      {op op' : Bytes → Bytes} {wrap wrap' : Members → Members}
      → IsPart op wrap
      → IsPart op' wrap'
      → IsPart (λ buf. op' (op buf)) (λ ms. wrap (wrap' ms))
  IsPart-compose {op' = op'} {wrap' = wrap'} first second = record {
    ends = λ ms h. first.ends (wrap' ms) (second.ends ms h);
    writes = λ rest ms m h.
        first.writes (λ enc. rest (record enc { buf = op' enc.buf })) (wrap' ms) m
          (second.writes rest ms m h);
  }

  written-IsPart :
      (b : Bool) (k : Bytes) (append : Bytes → Bytes) (v : Value)
      → closed (print u spaced v) ≡ true
      → ((buf : Bytes) → append buf ≡ buf ++ (lead spaced (not (closed buf)) ++ print u spaced v))
      → IsPart (λ buf. if b then append (add_key u spaced k buf) else buf) (part_member b k v)
  written-IsPart false k append v end h = record { ends = λ ms hs. hs; writes = λ rest ms m hr. hr }
  written-IsPart true k append v end h = record {
    ends = λ ms hs. (end, hs);
    writes = λ rest ms m hr.
        member-AppendsMembers u spaced (λ e. record e { buf = append e.buf }) rest k v ms m end
          (λ e. (h e.buf, refl)) hr;
  }

  -- Members that are appended to a text that is complete.
  print_members-join_members :
      (first : Bool) (ms : Members) (buf : Bytes) (b : Bool) (k s : Bytes)
      → AllClosed ms
      → closed buf ≡ not first
      → (let whole = buf ++ print_members u spaced first ms in
          if b then append_quoted u spaced s (add_key u spaced k whole) else whole)
        ≡ buf
          ++ print_members u spaced first (join_members ms (part_member b k (text s) no_members))
  unfolding print_members quoted
  print_members-join_members first no_members buf true k s hs h =
      let (key, colon_end) = add_key-lead u spaced k buf in
      let unnegated : not (closed buf) ≡ first = rw h (ground arith) in
      rw
        (
          append-nil buf,
          append_quoted-lead u spaced s (add_key u spaced k buf),
          colon_end,
          key,
          unnegated,
        )
        (simp append_assoc)
  print_members-join_members first no_members buf false k s hs h = refl
  print_members-join_members first (member key v ms) buf b k s (hv, hs) h =
      let start : Bytes = buf ++ (lead spaced first ++ (quoted u key ++ colon spaced)) in
      let end : closed (start ++ print u spaced v) ≡ true =
        closed-append_closed start (print u spaced v) hv in
      let regroup =
        regrouped buf (lead spaced first) (quoted u key ++ colon spaced) (print u spaced v) in
      rw
        (
          regroup (print_members u spaced false ms),
          regroup (
              print_members u spaced false (join_members ms (part_member b k (text s) no_members))),
        )
        (print_members-join_members false ms (start ++ print u spaced v) b k s hs end)

module _ (sprintf : Bytes → Level → Bytes) (u : Utf8) (f : Formats) (spaced : Bool)
    (cfg : EncoderConfig f) (tokens : Tokens f) (single : SingleParts cfg) where
  reflected_member-AllClosed :
      (k : Bytes) (r : Result Bytes Bytes) (ms : Members)
      → ((b : Bytes) → r ≡ ok b → closed b ≡ true)
      → AllClosed u spaced ms
      → AllClosed u spaced (reflected_member f cfg k r ms)
  unfolding print
  reflected_member-AllClosed k (ok b) ms ended h = (ended b refl, h)
  reflected_member-AllClosed k (err e) ms ended h = h

  members_of-AllClosed : (calls : ObjectCalls f) → AllClosed u spaced (members_of f cfg calls)
  members_of-AllClosed done = tt
  members_of-AllClosed (add k v rest) = (prim-closed u f spaced tokens v, members_of-AllClosed rest)
  members_of-AllClosed (add_binary k v rest) =
      (prim-closed u f spaced tokens (string (f.base64 v)), members_of-AllClosed rest)
  members_of-AllClosed (add_duration k d rest) = (
    value_or-closed u f spaced tokens (calls_of cfg.encode_duration d) (int d),
    members_of-AllClosed rest,
  )
  members_of-AllClosed (add_time k t rest) = (
    value_or-closed u f spaced tokens (calls_of cfg.encode_time t) (int t),
    members_of-AllClosed rest,
  )
  members_of-AllClosed (add_reflected k v rest) =
      reflected_member-AllClosed k (encode_reflected f v) (members_of f cfg rest)
        (encode_reflected-closed u f spaced tokens cfg v) (members_of-AllClosed rest)
  members_of-AllClosed (add_array k calls rest) =
      (array-closed u f spaced tokens cfg (values_of f cfg calls), members_of-AllClosed rest)
  members_of-AllClosed (add_object k calls rest) =
      (object-closed u f spaced tokens cfg (members_of f cfg calls), members_of-AllClosed rest)
  members_of-AllClosed (open_namespace k rest) =
      (object-closed u f spaced tokens cfg (members_of f cfg rest), tt)

  name_encoder_or-IsSingle :
      (e : Option (PartEncoder Bytes f)) (n : Bytes)
      → IsSingle (calls_of e n)
      → IsSingle (name_encoder_or e n)
  unfolding full_name_encoder
  name_encoder_or-IsSingle none n h = omega arith
  name_encoder_or-IsSingle (some e) n h = h

  IsPart-or :
      (b : Bool) (k : Bytes) (vs : List (Prim f)) (fallback : Prim f)
      → IsSingle vs
      → IsPart u spaced
          (λ buf. if b then append_or u f spaced vs fallback (add_key u spaced k buf) else buf)
          (part_member b k (value_or f vs fallback))
  IsPart-or b k vs fallback h =
      written-IsPart u spaced b k (append_or u f spaced vs fallback) (value_or f vs fallback)
        (value_or-closed u f spaced tokens vs fallback)
        (λ buf. append_or-buffer u f spaced tokens vs fallback buf h)

  IsPart-text :
      (b : Bool) (k s : Bytes)
      → IsPart u spaced
          (λ buf. if b then append_quoted u spaced s (add_key u spaced k buf) else buf)
          (part_member b k (text s))
  unfolding print
  IsPart-text b k s =
      written-IsPart u spaced b k (append_quoted u spaced s) (text s) (quoted-closed u s)
        (append_quoted-lead u spaced s)

  metadata-IsPart :
      (ent : Entry)
      → IsPart u spaced
          (write_metadata sprintf u f spaced cfg ent)
          (metadata_members sprintf f cfg ent)
  unfolding write_metadata write_level write_time write_name write_caller write_function
      write_message write_part append_time_value
  metadata-IsPart ent =
      IsPart-compose u spaced
        (IsPart-or (wants_level cfg ent) cfg.level_key (calls_of cfg.encode_level ent.level)
          (string (Text.string sprintf ent.level)) (single.level_single ent.level))
        (IsPart-compose u spaced
          (IsPart-or (wants_time cfg ent) cfg.time_key (calls_of cfg.encode_time ent.time)
            (int ent.time) (single.time_single ent.time))
          (IsPart-compose u spaced
            (IsPart-or (wants_name cfg ent) cfg.name_key
              (name_encoder_or cfg.encode_name ent.logger_name) (string ent.logger_name)
              (name_encoder_or-IsSingle cfg.encode_name ent.logger_name
                (single.name_single ent.logger_name)))
            (IsPart-compose u spaced
              (IsPart-or (wants_caller cfg ent) cfg.caller_key (cfg.encode_caller ent.caller)
                (string (full_path f.int_text ent.caller)) (single.caller_single ent.caller))
              (IsPart-compose u spaced
                (IsPart-text (wants_function cfg ent) cfg.function_key ent.caller.function)
                (IsPart-text (wants_message cfg ent) cfg.message_key ent.message)))))

  -- A context that was encoded before is written as if its calls came first among the fields'.
  pub encode_entry-and_then :
      (context fields : ObjectCalls f) (ent : Entry)
      → encode_entry sprintf u f spaced cfg (add_calls u f spaced cfg context fresh) ent fields
        ≡ encode_entry sprintf u f spaced cfg fresh ent (and_then context fields)
  unfolding encode_entry write_context
  encode_entry-and_then context fields ent =
      let metadata = write_metadata sprintf u f spaced cfg ent (codes "{") in
      let start : JsonEncoder = record { buf = metadata; open_namespaces = 0 } in
      let in_line = context-add_calls u f spaced cfg tokens single context metadata in
      let joined = add_calls-and_then u f spaced cfg context fields start in
      ap
        (λ final.
          write_stack sprintf u f spaced cfg ent (close_open_namespaces final).buf
          ++ (codes "}" ++ cfg.line_ending))
        (ap (add_calls u f spaced cfg fields) in_line ∙ sym joined)

  encode_entry-fresh :
      (calls : ObjectCalls f) (ent : Entry)
      → encode_entry sprintf u f spaced cfg fresh ent calls
        ≡ print u spaced (object (line_members sprintf f cfg ent calls)) ++ cfg.line_ending
  unfolding encode_entry write_context print closed last_byte write_stack write_part
      close_open_namespaces
  encode_entry-fresh calls ent =
      let part = metadata-IsPart ent in
      let members = metadata_members sprintf f cfg ent (members_of f cfg calls) in
      let start : JsonEncoder = record { buf = codes "{"; open_namespaces = 0 } in
      let final = add_calls u f spaced cfg calls (record {
        buf = write_metadata sprintf u f spaced cfg ent (codes "{");
        open_namespaces = 0;
      }) in
      let (written, count) =
        part.writes (add_calls u f spaced cfg calls) (members_of f cfg calls) (opened calls)
          (add_calls-AppendsMembers u f spaced tokens cfg calls single) start in
      let none_before : final.open_namespaces ≡ opened calls = omega (arith, count) in
      let filled : (close_open_namespaces final).buf
          ≡ codes "{" ++ print_members u spaced true members =
        rw none_before written in
      let whole =
        print_members-join_members u spaced true members (codes "{") (wants_stack cfg ent)
          cfg.stacktrace_key ent.stack
          (part.ends (members_of f cfg calls) (members_of-AllClosed calls)) refl in
      ap (λ b. write_stack sprintf u f spaced cfg ent b ++ (codes "}" ++ cfg.line_ending)) filled
      ∙ (ap (λ b. b ++ (codes "}" ++ cfg.line_ending)) whole ∙ simp append_assoc)

  -- The line of an entry, for an encoder whose context comes from the calls in `context`, is what
  -- `print` writes for the tree of an object of the metadata, the context, the fields and the stack
  -- trace, and then the line ending. The strings in it are escaped; a number, a value that was encoded
  -- by reflection and a time that was formatted with a layout stand in it as they were made, whether
  -- that is JSON or not.
  pub encode_entry-print :
      (context fields : ObjectCalls f) (ent : Entry)
      → encode_entry sprintf u f spaced cfg (add_calls u f spaced cfg context fresh) ent fields
        ≡ print u spaced (object (line_members sprintf f cfg ent (and_then context fields)))
          ++ cfg.line_ending
  encode_entry-print context fields ent =
      encode_entry-and_then context fields ent ∙ encode_entry-fresh (and_then context fields) ent
