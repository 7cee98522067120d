-- ===== src/Console/Context.antt =====
-- The context on a console line, and the trees of Json/Tree.antt.
use buffer_full_flush_once.Common.{◌≡◌, refl, sym, ap, ◌∙◌, true, ◌∷◌, ◌++◌, arith, if◌then◌else◌}
use buffer_full_flush_once.Common.Bytes.{Bytes, codes, is_empty}
use buffer_full_flush_once.Entry.{Entry}
use buffer_full_flush_once.Encoder.{Formats, Prim}
use buffer_full_flush_once.Encoder.Calls.{ObjectCalls, and_then}
use buffer_full_flush_once.Encoder.Config.{EncoderConfig}
use buffer_full_flush_once.Json.{last_byte, add_calls, quoted, close_open_namespaces}
use buffer_full_flush_once.Json.Escape.{Utf8}
use buffer_full_flush_once.Json.Tree.{
  object, Members, no_members, member, closed, print, print_members, members_of, opened,
}
use buffer_full_flush_once.Json.Structure.Calling.{Tokens, SingleParts, add_calls-AppendsMembers}
use buffer_full_flush_once.Json.Line.{fresh}
use buffer_full_flush_once.Json.Line.Context.{add_calls-and_then}
use buffer_full_flush_once.Console.{
  add_separator, elements, write_elements, add_message, add_context, add_stack_text, encode_console,
}

module _ (u : Utf8) (f : Formats) (fprint : Prim f → Bytes) (cfg : EncoderConfig f)
    (sep : Bytes) where
  -- The object of the context, after a separator, where there is any context.
  abbrev pub context_object : Members → Bytes → Bytes
  context_object no_members line = line
  context_object (member k v ms) line =
      add_separator sep line ++ print u true (object (member k v ms))

  -- A text is empty exactly where there are no members.
  context_object-print :
      (ms : Members) (line : Bytes)
      → (let context = print_members u true true ms in
          if is_empty context
          then line
          else add_separator sep line ++ (b'{' ∷ (context ++ codes "}")))
        ≡ context_object ms line
  unfolding print quoted
  context_object-print no_members line = refl
  context_object-print (member k v ms) line = refl

  module _ (tokens : Tokens f) (single : SingleParts cfg) where
    -- A console line is its metadata and message, the object that the JSON encoder makes of the context
    -- and the fields, if they have any members, and then the stack trace and the line ending.
    pub encode_console-print :
        (context fields : ObjectCalls f) (ent : Entry)
        → encode_console u f fprint cfg sep (add_calls u f true cfg context fresh) ent fields
          ≡ add_stack_text u f fprint cfg sep ent (
              context_object (members_of f cfg (and_then context fields)) (
                add_message u f fprint cfg sep ent
                  (write_elements f fprint sep (elements u f fprint cfg sep ent))))
            ++ cfg.line_ending
    unfolding encode_console add_context close_open_namespaces closed last_byte
    encode_console-print context fields ent =
        let calls = and_then context fields in
        let joined = add_calls-and_then u f true cfg context fields fresh in
        let (written, count) = add_calls-AppendsMembers u f true tokens cfg calls single fresh in
        let start =
          add_message u f fprint cfg sep ent
            (write_elements f fprint sep (elements u f fprint cfg sep ent)) in
        let filled : (close_open_namespaces (add_calls u f true cfg calls fresh)).buf
            ≡ print_members u true true (members_of f cfg calls) =
          let open_count : (add_calls u f true cfg calls fresh).open_namespaces ≡ opened calls =
            omega (arith, count) in
          rw open_count written in
        ap
          (λ enc.
            add_stack_text u f fprint cfg sep ent (
              let text = (close_open_namespaces enc).buf in
              if is_empty text
              then start
              else add_separator sep start ++ (b'{' ∷ (text ++ codes "}")))
            ++ cfg.line_ending)
          (sym joined)
        ∙ ap
            (λ text.
              add_stack_text u f fprint cfg sep ent (
                if is_empty text
                then start
                else add_separator sep start ++ (b'{' ∷ (text ++ codes "}")))
              ++ cfg.line_ending)
            filled
        ∙ ap (λ line. add_stack_text u f fprint cfg sep ent line ++ cfg.line_ending)
            (context_object-print (members_of f cfg calls) start)
