-- ===== src/Buffered/Order.antt =====
-- Whole runs of a `BufferedWriteSyncer` over a destination that takes every write.
use mathlib.Core.Path.{subst}
use mathlib.Core.Option.{some-injective}
use mathlib.Core.List.{flatten}
use buffer_full_flush_once.Common.{
  ◌≡◌, refl, sym, ap, ◌∙◌, ◌⊎◌, inl, inr, none, some, List, [], ◌∷◌, ◌++◌, Option-cases, ◌>>=◌,
  append-nil, append_assoc, >>=-eq-some,
}
use buffer_full_flush_once.Common.Bytes.{Bytes}
use buffer_full_flush_once.Multierr.{Multierr}
use buffer_full_flush_once.WriteSyncer.{WriteSyncer}
use buffer_full_flush_once.Buffered.Stdlib.{Bufio}
use buffer_full_flush_once.Buffered.Run.{Event, State, step, run}
use buffer_full_flush_once.Buffered.Delivery.{Delivered, Delivered-empty}
use buffer_full_flush_once.Buffered.Whole.{IsReliable}
use buffer_full_flush_once.Buffered.Safety.{Inv, unsent_bytes, Synced-call_sync}
use buffer_full_flush_once.Buffered.Interleavings.{
  written, written-cons, written-append, Kept-step, Kept-end,
}

module _ (m : Multierr) {S : Type 0} (ws : WriteSyncer S m.Error) (bufio : Bufio m ws)
    (received : S → List Bytes) (reliable : IsReliable m ws received) {Clock : Type 0}
    (default_clock : Clock) where
  -- Before the first call, with nothing sent yet.
  pub record IsFresh (st : State bufio.Buf Clock S) : Type 0 where
    pub not_initialized : st.syncer.running ≡ none
    pub none_accepted : st.accepted ≡ []
    pub none_received : received st.dest ≡ []

  abbrev pub buffer_of : State bufio.Buf Clock S → Bytes
  buffer_of st = unsent_bytes m ws bufio received reliable default_clock st.syncer.running

  IsFresh-Inv :
      (st : State bufio.Buf Clock S)
      → IsFresh st
      → Inv m ws bufio received reliable default_clock st
  IsFresh-Inv st h = record {
    sound = rw h.not_initialized tt;
    delivered = record {
      groups = [];
      pending = [];
      whole = h.none_received;
      unsent =
          ap (unsent_bytes m ws bufio received reliable default_clock) h.not_initialized
          ∙ (unfold flatten in refl);
      in_order = h.none_accepted ∙ (unfold flatten in refl);
    };
  }

  Reached : State bufio.Buf Clock S → List Bytes → State bufio.Buf Clock S → Type 0
  Reached st ps st' =
      Inv m ws bufio received reliable default_clock st' × (st'.accepted ≡ st.accepted ++ ps)

  run-Reached :
      (evs : List Event) (st st' : State bufio.Buf Clock S)
      → Inv m ws bufio received reliable default_clock st
      → run m ws bufio default_clock evs st ≡ some st'
      → Reached st (written evs) st'
  unfolding run Reached
  run-Reached [] st st' h e =
      subst (Reached st []) (some-injective _ _ e) (h, sym (append-nil st.accepted))
  run-Reached (ev ∷ evs) st st' h e =
      let (st₁, first, rest) =
        >>=-eq-some (step m ws bufio default_clock ev st) (run m ws bufio default_clock evs) e in
      let (h₁, a₁) = Kept-step m ws bufio received reliable default_clock ev st st₁ h first in
      let (h', a') = run-Reached evs st₁ st' h₁ rest in
      (
        h',
        rw (a', a₁, written-cons ev evs)
            (append_assoc st.accepted (written (ev ∷ [])) (written evs)),
      )

  -- From a fresh syncer, after any calls, ticks and stops in any order, the chunks that the
  -- destination has received are runs of whole records, and with the records that make up the
  -- buffer they are the records of all calls of `Write`, each once and in order.
  pub run_delivers :
      (evs : List Event) (st st' : State bufio.Buf Clock S)
      → IsFresh st
      → run m ws bufio default_clock evs st ≡ some st'
      → Delivered (written evs) (received st'.dest) (buffer_of st')
  unfolding Reached
  run_delivers evs st st' h e =
      let (h', a) = run-Reached evs st st' (IsFresh-Inv st h) e in
      subst (λ l. Delivered l (received st'.dest) (buffer_of st'))
        (a ∙ ap (λ l. l ++ written evs) h.none_accepted) h'.delivered

  run-append :
      (evs evs' : List Event) (st : State bufio.Buf Clock S)
      → run m ws bufio default_clock (evs ++ evs') st
        ≡ (run m ws bufio default_clock evs st >>= run m ws bufio default_clock evs')
  unfolding run
  run-append [] evs' st = refl
  run-append (ev ∷ evs) evs' st = elim (Option-cases (step m ws bufio default_clock ev st)) [
    | inl e ↦ rw e
    | inr (st₁, e) ↦ rw e (run-append evs evs' st₁)
  ]

  empty_after :
      (last : Event) (st st' : State bufio.Buf Clock S)
      → Inv m ws bufio received reliable default_clock st
      → (last ≡ Event.sync) ⊎ (last ≡ Event.stop_end)
      → run m ws bufio default_clock (last ∷ []) st ≡ some st'
      → (buffer_of st' ≡ []) × (written (last ∷ []) ≡ [])
  unfolding run step
  empty_after last st st' h (inl e) x =
      let (_, c, _) = Synced-call_sync m ws bufio received reliable default_clock st h in
      (subst (λ t. buffer_of t ≡ []) (some-injective _ _ (rw e at x)) c, rw e)
  empty_after last st st' h (inr e) x =
      let (st₁, first, rest) = >>=-eq-some _ (λ t. some t) (rw e at x) in
      (
        subst (λ t. buffer_of t ≡ []) (some-injective _ _ rest)
            (Kept-end m ws bufio received reliable default_clock st st₁ st.waiting h first).1,
        rw e,
      )

  -- From a fresh syncer over a destination that takes every write, where the last event is a `Sync` or
  -- the end of a `Stop`, the bytes that the destination has received are those of all records that
  -- were written, with nothing left in the buffer.
  pub run_flushes :
      (evs : List Event) (last : Event) (st st' : State bufio.Buf Clock S)
      → IsFresh st
      → (last ≡ Event.sync) ⊎ (last ≡ Event.stop_end)
      → run m ws bufio default_clock (evs ++ last ∷ []) st ≡ some st'
      → (flatten (received st'.dest) ≡ flatten (written evs)) × (buffer_of st' ≡ [])
  unfolding Reached
  run_flushes evs last st st' h ends e =
      let (st₁, before, end) =
        >>=-eq-some (run m ws bufio default_clock evs st) (run m ws bufio default_clock (last ∷ []))
          (rw run-append at e) in
      let (h₁, _) = run-Reached evs st st₁ (IsFresh-Inv st h) before in
      let (empty, none_written) = empty_after last st₁ st' h₁ ends end in
      let d : Delivered (written (evs ++ last ∷ [])) (received st'.dest) [] =
        rw empty at (run_delivers (evs ++ last ∷ []) st st' h e) in
      (
        Delivered-empty d
            ∙ ap flatten (
                written-append evs (last ∷ [])
                ∙ ap (λ l. written evs ++ l) none_written
                ∙ append-nil (written evs)),
        empty,
      )
