-- ===== src/Observer/Recording.antt =====
-- The log of an observer holds all entries in order, and its filters are filters.
use buffer_full_flush_once.Common.{
  ◌≡◌, refl, ap, sym, ◌∙◌, Bool, ◌&&◌, Bool-cases, inl, inr, List, [], ◌∷◌, ◌++◌, map, append-nil,
  append_assoc, IsRef,
}
use buffer_full_flush_once.Entry.{Entry}
use buffer_full_flush_once.Observer.{
  LoggedEntry, ContextObserver, filtered, all, add, observer_write,
}

module _ {S F : Type 0} where
  -- Entries written with their fields, one after the other.
  abbrev pub observe_each : ContextObserver S F → List (Entry × List F) → S → S
  observe_each co [] s = s
  observe_each co ((ent, fields) ∷ rest) s = observe_each co rest (observer_write co ent fields s)

  -- The entries that the log is to hold for them.
  abbrev pub logged : ContextObserver S F → List (Entry × List F) → List (LoggedEntry F)
  logged co entries = map (λ q. record { entry = q.0; context = co.context ++ q.1 }) entries

  -- Where the log's cell keeps what is stored: after some entries were written to an observer, its
  -- log is the one before and then these entries, in order, each with the fields of With before its
  -- own.
  pub all-observe_each :
      (co : ContextObserver S F) (entries : List (Entry × List F)) (s : S)
      → IsRef co.logs
      → all co.logs (observe_each co entries s) ≡ all co.logs s ++ logged co entries
  unfolding all observer_write add
  all-observe_each co [] s h = sym (append-nil _)
  all-observe_each co ((ent, fields) ∷ rest) s h =
      let one : LoggedEntry F = record { entry = ent; context = co.context ++ fields } in
      let ih = all-observe_each co rest (observer_write co ent fields s) h in
      let stored = h.load-store (co.logs.load s ++ (one ∷ [])) s in
      ih
      ∙ (ap (λ l. l ++ logged co rest) stored
          ∙ append_assoc (co.logs.load s) (one ∷ []) (logged co rest))

-- Filtering twice keeps what both filters keep, in order.
pub filtered-filtered :
    {F : Type 0} (f g : LoggedEntry F → Bool) (es : List (LoggedEntry F))
    → filtered f (filtered g es) ≡ filtered (λ e. f e && g e) es
unfolding filtered
filtered-filtered f g [] = refl
filtered-filtered f g (e ∷ es) =
    let ih = filtered-filtered f g es in
    elim (Bool-cases (f e)) [
      | inl kept ↦ elim (Bool-cases (g e)) [
        | inl also ↦ rw (kept, also, kept) (ap (λ l. e ∷ l) ih)
        | inr dropped ↦ rw (kept, dropped) ih
      ]
      | inr left_out ↦ elim (Bool-cases (g e)) [
        | inl also ↦ rw (left_out, also, left_out) ih
        | inr dropped ↦ rw (left_out, dropped) ih
      ]
    ]
