-- ===== src/Slog/Grouping.antt =====
-- exp/zapslog/handler.go: which namespaces the fields of a handler are in.
use mathlib.Core.List.{flatten}
use buffer_full_flush_once.Common.{
  Bool, true, false, List, [], ◌∷◌, ◌++◌, map, ◌≡◌, refl, sym, ap, ◌∙◌, inl, inr, Bool-cases,
  if◌then◌else◌, append_assoc, append-nil,
}
use buffer_full_flush_once.Common.Bytes.{Bytes, is_empty}
use buffer_full_flush_once.Core.{Platform}
use buffer_full_flush_once.Pipeline.{with_each}
use buffer_full_flush_once.Logger.{Runtime}
use buffer_full_flush_once.Slog.Handling.{
  Converting, Handler, with_group, with_attrs, convert_each, namespaces,
}

-- A call of `WithGroup` or of `WithAttrs`.
pub data HandlerCall (A : Type 0) : Type 0 where
  group_call : Bytes → HandlerCall A
  attrs_call : List A → HandlerCall A

-- A group that is opened, or an attribute.
pub data Event (A : Type 0) : Type 0 where
  opened_group : Bytes → Event A
  attribute : A → Event A

with_group-groups :
    {p : Platform} (g : Bytes) (h : Handler p)
    → (with_group g h).groups ≡ (if is_empty g then h.groups else h.groups ++ (g ∷ []))
unfolding with_group
with_group-groups [] h = refl
with_group-groups (b ∷ g) h = refl

with_group-core : {p : Platform} (g : Bytes) (h : Handler p) → (with_group g h).core ≡ h.core
unfolding with_group
with_group-core [] h = refl
with_group-core (b ∷ g) h = refl

module _ (p : Platform) (c : Converting p) (rt : Runtime) where
  abbrev pub call_handler : HandlerCall c.Attribute → Handler p → p.State → Handler p × p.State
  call_handler (group_call g) h s = (with_group g h, s)
  call_handler (attrs_call attrs) h s = with_attrs p c rt attrs h s

  -- The handler after calls.
  abbrev pub after_calls : List (HandlerCall c.Attribute) → Handler p → p.State → Handler p
  after_calls [] h s = h
  after_calls (call ∷ calls) h s = let (h', s') = call_handler call h s in after_calls calls h' s'

  abbrev pub attributes : List c.Attribute → List (Event c.Attribute)
  attributes attrs = map attribute attrs

  -- The events of calls and then of a record.
  abbrev pub events : List (HandlerCall c.Attribute) → List c.Attribute → List (Event c.Attribute)
  events [] attrs = attributes attrs
  events (group_call g ∷ calls) attrs = opened_group g ∷ events calls attrs
  events (attrs_call more ∷ calls) attrs = attributes more ++ events calls attrs

  -- What the fields should be: the groups that are opened become namespaces before the first field
  -- in them that is not Skip.
  abbrev pub grouped : List Bytes → List (Event c.Attribute) → List p.Field
  grouped pending [] = []
  grouped pending (opened_group g ∷ es) =
      grouped (if is_empty g then pending else pending ++ (g ∷ [])) es
  grouped pending (attribute a ∷ es) =
      let f = c.convert a in
      let later = grouped [] es in
      let held = grouped pending es in
      if c.is_skip f then f ∷ held else namespaces p c rt pending ++ (f ∷ later)

  -- The lists of fields that the handler's core gets by With.
  abbrev pub contexts : List (HandlerCall c.Attribute) → Handler p → p.State → List (List p.Field)
  contexts [] h s = []
  contexts (group_call g ∷ calls) h s = contexts calls (with_group g h) s
  contexts (attrs_call attrs ∷ calls) h s =
      let (h', s') = with_attrs p c rt attrs h s in
      (convert_each p c rt h.groups false attrs).0 ∷ contexts calls h' s'

  abbrev remaining : Bool → List Bytes → List Bytes
  remaining added groups = if added then [] else groups

  -- The loop on a list of attributes, against the events of the list with others after it.
  grouped-convert_each :
      (groups : List Bytes) (added : Bool) (attrs : List c.Attribute)
      (es : List (Event c.Attribute))
      → let (fields, added') = convert_each p c rt groups added attrs in
        grouped (remaining added groups) (attributes attrs ++ es)
        ≡ fields ++ grouped (remaining added' groups) es
  unfolding convert_each
  grouped-convert_each groups added [] es = refl
  grouped-convert_each groups true (a ∷ attrs) es =
      let rest = ap (λ fs. c.convert a ∷ fs) (grouped-convert_each groups true attrs es) in
      elim (Bool-cases (c.is_skip (c.convert a))) [ inl e ↦ rw e rest | inr e ↦ rw e rest ]
  grouped-convert_each [] false (a ∷ attrs) es =
      let rest = ap (λ fs. c.convert a ∷ fs) (grouped-convert_each [] false attrs es) in
      elim (Bool-cases (c.is_skip (c.convert a))) [ inl e ↦ rw e rest | inr e ↦ rw e rest ]
  grouped-convert_each (g ∷ gs) false (a ∷ attrs) es = elim (Bool-cases (c.is_skip (c.convert a))) [
    | inl e ↦ rw e (ap (λ fs. c.convert a ∷ fs) (grouped-convert_each (g ∷ gs) false attrs es))
    | inr e ↦ rw e (
        ap (λ fs. namespaces p c rt (g ∷ gs) ++ (c.convert a ∷ fs))
          (grouped-convert_each (g ∷ gs) true attrs es)
        ∙ sym (append_assoc (namespaces p c rt (g ∷ gs)) _ _))
  ]

  grouped-contexts :
      (calls : List (HandlerCall c.Attribute)) (attrs : List c.Attribute) (h : Handler p)
      (s : p.State)
      → flatten (contexts calls h s)
          ++ (convert_each p c rt (after_calls calls h s).groups false attrs).0
        ≡ grouped h.groups (events calls attrs)
  unfolding with_attrs with_group flatten
  grouped-contexts [] attrs h s =
      sym (append-nil _)
      ∙ sym (grouped-convert_each h.groups false attrs [])
      ∙ ap (grouped h.groups) (append-nil (attributes attrs))
  grouped-contexts (group_call g ∷ calls) attrs h s =
      grouped-contexts calls attrs (with_group g h) s
      ∙ ap (λ gs. grouped gs (events calls attrs)) (with_group-groups g h)
  grouped-contexts (attrs_call more ∷ calls) attrs h s =
      let (h', s') = with_attrs p c rt more h s in
      append_assoc (convert_each p c rt h.groups false more).0 _ _
      ∙ ap (λ fs. (convert_each p c rt h.groups false more).0 ++ fs)
          (grouped-contexts calls attrs h' s')
      ∙ sym (grouped-convert_each h.groups false more (events calls attrs))

  after_calls-core :
      (calls : List (HandlerCall c.Attribute)) (h : Handler p) (s : p.State)
      → (after_calls calls h s).core ≡ with_each h.core (contexts calls h s)
  unfolding with_attrs with_group
  after_calls-core [] h s = refl
  after_calls-core (group_call g ∷ calls) h s =
      after_calls-core calls (with_group g h) s
      ∙ ap (λ core. with_each core (contexts calls (with_group g h) s)) (with_group-core g h)
  after_calls-core (attrs_call more ∷ calls) h s = after_calls-core calls _ _

  -- However groups and attributes are split into calls of WithGroup and WithAttrs: the fields that
  -- the handler's core was given by With, list by list, and then the fields that it gets with a
  -- record, are in all the attributes in order, with each group as a namespace before the first
  -- field in it that is not Skip, and no namespace for a group in which every field is Skip. A field
  -- that is not Skip opens the namespace also where it adds nothing, as an inlined group without
  -- attributes does.
  pub after_calls-grouped :
      (calls : List (HandlerCall c.Attribute)) (attrs : List c.Attribute) (h : Handler p)
      (s : p.State)
      → ((after_calls calls h s).core ≡ with_each h.core (contexts calls h s))
        × (flatten (contexts calls h s)
              ++ (convert_each p c rt (after_calls calls h s).groups false attrs).0
            ≡ grouped h.groups (events calls attrs))
  after_calls-grouped calls attrs h s =
      (after_calls-core calls h s, grouped-contexts calls attrs h s)
