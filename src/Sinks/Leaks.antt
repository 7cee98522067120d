-- ===== src/Sinks/Leaks.antt =====
-- writer.go: what stays open after `Open`.
use buffer_full_flush_once.Common.{
  ℕ, ◌+◌, ◌-◌, ◌≡◌, refl, Bool, true, false, not, inl, inr, Option, none, some, List, [], ◌∷◌, ◌++◌,
  All, arith, Result, ok, err, Bool-cases, if◌then◌else◌,
}
use buffer_full_flush_once.Common.Bytes.{Bytes, codes, bytes_eq, is_empty}
use buffer_full_flush_once.Multierr.{Multierr}
use buffer_full_flush_once.WriteSyncer.{WriteSyncer}
use buffer_full_flush_once.Sinks.{SinkRegistry, find_factory}
use buffer_full_flush_once.Sinks.Opening.{
  Url, Sink, Files, Opened, Factory, new_file_sink_from_path, new_file_sink_from_url, made_by,
  new_parsed_sink, new_sink, close_all, opened, open_each, open_sinks, open_paths, close_if,
  with_scheme, combined,
}

-- The answer leaves open what its sink closes again, and nothing where it is an error. `live` counts
-- what is open.
pub data Balanced {S E : Type 0} (live : S → ℕ) (s : S) (answer : Opened S E) : Type 0 where
  holds :
      (k : Sink S E) (w : ℕ)
      → answer.0 ≡ ok k
      → live answer.1 ≡ live s + w
      → ((t : S) → live (k.close t).1 ≡ live t - w)
      → Balanced live s answer
  fails : (e : E) → answer.0 ≡ err e → live answer.1 ≡ live s → Balanced live s answer

module _ (m : Multierr) {S : Type 0} (files : Files m S) (live : S → ℕ)
    (file_balanced : (path : Bytes) (s : S) → Balanced live s (files.open_file path s)) where
  path-Balanced : (path : Bytes) (s : S) → Balanced live s (new_file_sink_from_path m files path s)
  unfolding new_file_sink_from_path
  path-Balanced path s = elim (Bool-cases (bytes_eq path (codes "stdout"))) [
    | inl e ↦ rw e (holds _ 0 refl (omega arith) (λ t. omega arith))
    | inr e ↦ (elim (Bool-cases (bytes_eq path (codes "stderr"))) [
      | inl e' ↦ rw (e, e') (holds _ 0 refl (omega arith) (λ t. omega arith))
      | inr e' ↦ rw (e, e') (file_balanced path s)
    ])
  ]

  if-Balanced :
      (b : Bool) {s : S} {x y : Opened S m.Error}
      → Balanced live s x
      → Balanced live s y
      → Balanced live s (if b then x else y)
  if-Balanced true hx hy = hx
  if-Balanced false hx hy = hy

  -- The factory for files is balanced, given that opening a file is.
  pub url-Balanced : (u : Url) (s : S) → Balanced live s (new_file_sink_from_url m files u s)
  unfolding new_file_sink_from_url
  url-Balanced u s = if-Balanced u.has_user (fails _ refl refl) (
      if-Balanced (not (is_empty u.fragment)) (fails _ refl refl) (
        if-Balanced (not (is_empty u.raw_query)) (fails _ refl refl) (
          if-Balanced (not (is_empty u.port)) (fails _ refl refl)
            (if-Balanced _ (fails _ refl refl) (path-Balanced u.path s)))))

  made_by-Balanced :
      (u : Url) (s : S) (entries : SinkRegistry (Factory S m.Error))
      → All (λ entry. (u : Url) (s : S) → Balanced live s (entry.1 u s)) entries
      → Balanced live s (made_by m files (find_factory u.scheme entries) u s)
  unfolding made_by find_factory
  made_by-Balanced u s [] h = fails _ refl refl
  made_by-Balanced u s (entry ∷ rest) h = elim (Bool-cases (bytes_eq u.scheme entry.0)) [
    | inl e ↦ rw e (h.0 u s)
    | inr e ↦ rw e (made_by-Balanced u s rest h.1)
  ]

  module _ (registry : SinkRegistry (Factory S m.Error))
      (factories : All (λ entry. (u : Url) (s : S) → Balanced live s (entry.1 u s)) registry) where
    parsed-Balanced :
        (raw : Bytes) (r : Result m.Error Url) (s : S)
        → Balanced live s (new_parsed_sink m files registry raw r s)
    unfolding new_parsed_sink
    parsed-Balanced raw (err e) s = fails _ refl refl
    parsed-Balanced raw (ok u) s = made_by-Balanced (with_scheme u) s registry factories

    new_sink-Balanced : (raw : Bytes) (s : S) → Balanced live s (new_sink m files registry raw s)
    unfolding new_sink
    new_sink-Balanced raw s =
        if-Balanced (files.is_abs raw) (path-Balanced raw s)
          (parsed-Balanced raw (files.parse_url raw) s)

    -- Since the state `before`, `w` was opened, and closing the sinks `ks` closes it.
    record Held (before s : S) (ks : List (Sink S m.Error)) : Type 0 where
      w : ℕ
      held : live s ≡ live before + w
      given_back : (t : S) → live (close_all m files ks t) ≡ live t - w

    close_all-append :
        (ks : List (Sink S m.Error)) (k : Sink S m.Error) (t : S)
        → close_all m files (ks ++ (k ∷ [])) t ≡ (k.close (close_all m files ks t)).1
    unfolding close_all
    close_all-append [] k t = refl
    close_all-append (j ∷ ks) k t = close_all-append ks k (j.close t).1

    Held-opened :
        (before s : S) (path : Bytes) (ks : List (Sink S m.Error)) (e : Option m.Error)
        (answer : Opened S m.Error)
        → Held before s ks
        → Balanced live s answer
        → Held before answer.1 (opened m files path answer.0 ks e).0
    unfolding opened
    Held-opened before s path ks e answer h (holds k w is_ok more back) = rw is_ok (record {
      w = h.w + w;
      held = omega (arith, more, h.held);
      given_back = λ t.
          rw (close_all-append ks k t)
            (omega (arith, back (close_all m files ks t), h.given_back t));
    })
    Held-opened before s path ks e answer h (fails e' is_err same) =
        rw is_err
          (record { w = h.w; held = omega (arith, same, h.held); given_back = h.given_back })

    Held-open_each :
        (before s : S) (paths : List Bytes) (ks : List (Sink S m.Error)) (e : Option m.Error)
        → Held before s ks
        → let (ks', e', s') = open_each m files registry paths ks e s in Held before s' ks'
    unfolding open_each
    Held-open_each before s [] ks e h = h
    Held-open_each before s (path ∷ paths) ks e h =
        let (answer, s') = new_sink m files registry path s in
        let (ks', e') = opened m files path answer ks e in
        Held-open_each before s' paths ks' e' (
          Held-opened before s path ks e (new_sink m files registry path s) h
            (new_sink-Balanced path s))

    Held-none : (s : S) → Held s s []
    unfolding close_all
    Held-none s = record { w = 0; held = omega arith; given_back = λ t. omega arith }

    -- What `open` answers leaves open what closing its sinks closes again.
    pub data Balances (s : S) (answer : Result m.Error (WriteSyncer S m.Error × (S → S)) × S)
        : Type 0 where
      opens :
          (ws : WriteSyncer S m.Error) (close : S → S) (w : ℕ)
          → answer.0 ≡ ok (ws, close)
          → live answer.1 ≡ live s + w
          → ((t : S) → live (close t) ≡ live t - w)
          → Balances s answer
      refuses : (e : m.Error) → answer.0 ≡ err e → live answer.1 ≡ live s → Balances s answer

    Balances-close_if :
        (before s : S) (ks : List (Sink S m.Error)) (e : Option m.Error)
        → Held before s ks
        → let (answer, s') = close_if m files ks e s in
          Balances before (combined m files answer, s')
    unfolding close_if
    Balances-close_if before s ks none h = opens _ _ h.w refl h.held h.given_back
    Balances-close_if before s ks (some e) h =
        refuses e refl (omega (arith, h.held, h.given_back s))

    -- Where the factories and the opening of files count what they open, and their sinks close just
    -- that: where Open returns an error nothing stays open of what it opened, and where it returns a
    -- writer, the function beside it closes all that it opened.
    pub open_paths-Balances :
        (paths : List Bytes) (s : S) → Balances s (open_paths m files registry paths s)
    unfolding open_paths open_sinks
    open_paths-Balances paths s =
        let (ks, e, s') = open_each m files registry paths [] none s in
        Balances-close_if s s' ks e (Held-open_each s s paths [] none (Held-none s))
