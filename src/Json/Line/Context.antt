-- ===== src/Json/Line/Context.antt =====
-- The context of an encoder, and its calls in the line itself.
use buffer_full_flush_once.Common.{
  ℕ, zero, suc, ◌≡◌, refl, sym, ap, ap₂, ◌∙◌, Bool, true, not, List, [], ◌∷◌, ◌++◌, append-nil,
  append_assoc, arith, length, length-append,
}
use buffer_full_flush_once.Common.Bytes.{Bytes}
use buffer_full_flush_once.Encoder.{Formats}
use buffer_full_flush_once.Encoder.Calls.{
  ObjectCalls, done, add, add_binary, add_duration, add_time, add_reflected, add_array, add_object,
  open_namespace, and_then,
}
use buffer_full_flush_once.Encoder.Config.{EncoderConfig}
use buffer_full_flush_once.Json.{
  JsonEncoder, last_byte, braces, add_element_separator, add_calls, quoted,
}
use buffer_full_flush_once.Json.Escape.{Utf8}
use buffer_full_flush_once.Json.Tree.{
  Members, no_members, member, closed, print_members, members_of, opened,
}
use buffer_full_flush_once.Json.Structure.Pieces.{add_element_separator-lead}
use buffer_full_flush_once.Json.Structure.Calling.{Tokens, SingleParts, add_calls-AppendsMembers}
use buffer_full_flush_once.Json.Line.{write_context, fresh}

abbrev head_or : {A : Type 0} → A → List A → A
head_or d [] = d
head_or d (x ∷ xs) = x

abbrev tail : {A : Type 0} → List A → List A
tail [] = []
tail (x ∷ xs) = xs

append_cancel : {A : Type 0} (a b c : List A) → a ++ c ≡ b ++ c → a ≡ b
append_cancel [] [] c h = refl
append_cancel [] (y ∷ b) c h = absurd (omega (arith, ap length h, length-append b c))
append_cancel (x ∷ a) [] c h = absurd (omega (arith, ap length h, length-append a c))
append_cancel (x ∷ a) (y ∷ b) c h =
    let heads = ap (head_or x) h in
    let tails = append_cancel a b c (ap tail h) in rw (heads, tails) refl

module _ (u : Utf8) (f : Formats) (spaced : Bool) (cfg : EncoderConfig f) where
  -- Calls that are made one after the other.
  pub add_calls-and_then :
      (a b : ObjectCalls f) (enc : JsonEncoder)
      → add_calls u f spaced cfg (and_then a b) enc
        ≡ add_calls u f spaced cfg b (add_calls u f spaced cfg a enc)
  unfolding add_calls and_then
  add_calls-and_then done b enc = refl
  add_calls-and_then (add k v rest) b enc = add_calls-and_then rest b _
  add_calls-and_then (add_binary k v rest) b enc = add_calls-and_then rest b _
  add_calls-and_then (add_duration k v rest) b enc = add_calls-and_then rest b _
  add_calls-and_then (add_time k v rest) b enc = add_calls-and_then rest b _
  add_calls-and_then (add_reflected k v rest) b enc = add_calls-and_then rest b _
  add_calls-and_then (add_array k v rest) b enc = add_calls-and_then rest b _
  add_calls-and_then (add_object k v rest) b enc = add_calls-and_then rest b _
  add_calls-and_then (open_namespace k rest) b enc = add_calls-and_then rest b _

  write_context-lead :
      (c buf line : Bytes) (m : ℕ) (ms : Members)
      → c ++ braces m ≡ print_members u spaced true ms
      → line ++ braces m ≡ buf ++ print_members u spaced (not (closed buf)) ms
      → write_context spaced c buf ≡ line
  unfolding write_context print_members quoted braces
  write_context-lead [] buf line zero no_members h k =
      sym (append-nil buf) ∙ (sym k ∙ append-nil line)
  write_context-lead [] buf line (suc m) no_members h k = cc
  write_context-lead [] buf line zero (member key v ms) h k = cc
  write_context-lead [] buf line (suc m) (member key v ms) h k =
      absurd (omega (arith, ap (head_or 0) h))
  write_context-lead (x ∷ c) buf line m no_members h k = cc
  write_context-lead (x ∷ c) buf line m (member key v ms) h k =
      append_cancel (add_element_separator spaced buf ++ (x ∷ c)) line (braces m)
        (rw (add_element_separator-lead spaced buf, k) (simp (append_assoc, h)))

  module _ (tokens : Tokens f) (single : SingleParts cfg) where
    -- The context from an encoder that was empty is written as its calls would be.
    pub context-add_calls :
        (calls : ObjectCalls f) (buf : Bytes)
        → record {
          buf = write_context spaced (add_calls u f spaced cfg calls fresh).buf buf;
          open_namespaces = (add_calls u f spaced cfg calls fresh).open_namespaces;
        }
          ≡ add_calls u f spaced cfg calls (record { buf = buf; open_namespaces = 0 })
    unfolding closed last_byte
    context-add_calls calls buf =
        let (empty_buf, m) = add_calls-AppendsMembers u f spaced tokens cfg calls single fresh in
        let (line_buf, m') =
          add_calls-AppendsMembers u f spaced tokens cfg calls single
            (record { buf = buf; open_namespaces = 0 }) in
        let same =
          write_context-lead (add_calls u f spaced cfg calls fresh).buf buf _ (opened calls)
            (members_of f cfg calls) empty_buf line_buf in
        ap₂ (λ b n. record { buf = b; open_namespaces = n }) same (m ∙ sym m')
