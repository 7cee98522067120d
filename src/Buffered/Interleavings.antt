-- ===== src/Buffered/Interleavings.antt =====
-- Every interleaving of the callers, the flush loop and `Stop`, over a destination that takes every
-- write: no record is split, lost, repeated or overtaken.
use mathlib.Core.Path.{subst}
use mathlib.Core.Option.{some-injective}
use buffer_full_flush_once.Common.{
  zero, suc, not, ◌&&◌, Bool-cases, ℕ, ◌≡◌, refl, sym, ap, ◌∙◌, inl, inr, Option, none, some, List,
  [], ◌∷◌, ◌++◌, Option-cases, append-nil, append_assoc,
}
use buffer_full_flush_once.Common.Bytes.{Bytes}
use buffer_full_flush_once.Multierr.{Multierr}
use buffer_full_flush_once.WriteSyncer.{WriteSyncer}
use buffer_full_flush_once.Buffered.Stdlib.{Bufio}
use buffer_full_flush_once.Buffered.{BufferedWriteSyncer, Running, stop_begin, stop_running}
use buffer_full_flush_once.Buffered.Run.{
  Event, State, step, call_write, call_sync, is_looping, is_done, stopping, exiting, ending,
}
use buffer_full_flush_once.Buffered.Whole.{IsReliable}
use buffer_full_flush_once.Buffered.Safety.{Inv, unsent_bytes, Accepted-write, Synced-call_sync}

-- The records of the calls of `Write`, in order.
abbrev pub written : List Event → List Bytes
written [] = []
written (Event.write p ∷ evs) = p ∷ written evs
written (Event.sync ∷ evs) = written evs
written (Event.tick ∷ evs) = written evs
written (Event.stop ∷ evs) = written evs
written (Event.loop_exit ∷ evs) = written evs
written (Event.stop_end ∷ evs) = written evs

pub written-cons :
    (ev : Event) (evs : List Event) → written (ev ∷ evs) ≡ written (ev ∷ []) ++ written evs
written-cons (Event.write p) evs = refl
written-cons Event.sync evs = refl
written-cons Event.tick evs = refl
written-cons Event.stop evs = refl
written-cons Event.loop_exit evs = refl
written-cons Event.stop_end evs = refl

pub written-append : (evs evs' : List Event) → written (evs ++ evs') ≡ written evs ++ written evs'
written-append [] evs' = refl
written-append (ev ∷ evs) evs' =
    rw (written-cons ev (evs ++ evs'), written-cons ev evs, written-append evs evs', append_assoc)

module _ (m : Multierr) {S : Type 0} (ws : WriteSyncer S m.Error) (bufio : Bufio m ws)
    (received : S → List Bytes) (reliable : IsReliable m ws received) {Clock : Type 0}
    (default_clock : Clock) where
  abbrev pub Kept : Event → State bufio.Buf Clock S → State bufio.Buf Clock S → Type 0
  Kept ev st st' =
      Inv m ws bufio received reliable default_clock st'
      × (st'.accepted ≡ st.accepted ++ written (ev ∷ []))

  Kept-running :
      (ev : Event) (st st' : State bufio.Buf Clock S) (r : Running bufio.Buf Clock)
      → Inv m ws bufio received reliable default_clock st
      → st.syncer.running ≡ some r
      → written (ev ∷ []) ≡ []
      → (r' : Running bufio.Buf Clock) → r'.writer ≡ r.writer
      → st'.syncer.running ≡ some r'
      → st'.dest ≡ st.dest
      → st'.accepted ≡ st.accepted
      → Kept ev st st'
  Kept-running ev st st' r h e w r' same e' d a = (
    record {
      sound = rw e' (rw same (rw e at h.sound));
      delivered = rw (a, d, e') (rw same (rw e at h.delivered));
    },
    rw (a, w) (sym (append-nil st.accepted)),
  )

  Kept-sync :
      (ev : Event) (st : State bufio.Buf Clock S)
      → Inv m ws bufio received reliable default_clock st
      → written (ev ∷ []) ≡ []
      → Kept ev st (call_sync m ws bufio default_clock st)
  Kept-sync ev st h w =
      let (h', _, a) = Synced-call_sync m ws bufio received reliable default_clock st h in
      (h', rw w (a ∙ sym (append-nil st.accepted)))

  Kept-write :
      (p : Bytes) (st : State bufio.Buf Clock S)
      → Inv m ws bufio received reliable default_clock st
      → Kept (Event.write p) st (call_write m ws bufio default_clock p st)
  Kept-write p st h =
      let (h', a, _) = Accepted-write m ws bufio received reliable default_clock p st h in (h', a)

  stop_begin-eq :
      (b : BufferedWriteSyncer bufio.Buf Clock) (o : Option (Running bufio.Buf Clock))
      → b.running ≡ o
      → stop_begin m ws bufio default_clock b ≡ stop_running m ws bufio default_clock b o
  unfolding stop_begin
  stop_begin-eq b o e = ap (stop_running m ws bufio default_clock b) e

  Kept-stop_running :
      (st : State bufio.Buf Clock S) (r : Running bufio.Buf Clock)
      → Inv m ws bufio received reliable default_clock st
      → st.syncer.running ≡ some r
      → Kept Event.stop st (
          stopping m ws bufio default_clock st
            (stop_running m ws bufio default_clock st.syncer (some r)))
  unfolding stopping stop_running
  Kept-stop_running st r h e = elim (Bool-cases r.stopped) [
    | inl again ↦ rw again (h, sym (append-nil st.accepted))
    | inr first ↦ rw first (Kept-running Event.stop st _ r h e refl _ refl refl refl refl)
  ]

  Kept-stop :
      (st : State bufio.Buf Clock S)
      → Inv m ws bufio received reliable default_clock st
      → Kept Event.stop st
          (stopping m ws bufio default_clock st (stop_begin m ws bufio default_clock st.syncer))
  Kept-stop st h = elim (Option-cases st.syncer.running) [
    | inl e ↦
        rw (stop_begin-eq st.syncer none e)
          (unfold stop_running stopping in (h, sym (append-nil st.accepted)))
    | inr (r, e) ↦ rw (stop_begin-eq st.syncer (some r) e) (Kept-stop_running st r h e)
  ]

  Kept-exit :
      (st st' : State bufio.Buf Clock S) (o : Option (Running bufio.Buf Clock))
      → Inv m ws bufio received reliable default_clock st
      → st.syncer.running ≡ o
      → exiting m ws bufio default_clock st o ≡ some st'
      → Kept Event.loop_exit st st'
  unfolding exiting
  Kept-exit st st' none h e x = cc
  Kept-exit st st' (some r) h e x = elim (Bool-cases (r.stop && not r.done)) [
    | inl on ↦
        subst (Kept Event.loop_exit st) (some-injective _ _ (rw on at x))
          (Kept-running Event.loop_exit st _ r h e refl _ refl refl refl refl)
    | inr off ↦ cc (rw off at x)
  ]

  pub Kept-end :
      (st st' : State bufio.Buf Clock S) (n : ℕ)
      → Inv m ws bufio received reliable default_clock st
      → ending m ws bufio default_clock st n ≡ some st'
      → Kept Event.stop_end st st'
        × (unsent_bytes m ws bufio received reliable default_clock st'.syncer.running ≡ [])
  unfolding ending
  Kept-end st st' zero h x = cc
  Kept-end st st' (suc n) h x =
      elim (Bool-cases (is_done m ws bufio default_clock st.syncer.running)) [
        | inl on ↦
            let (h', c, a) = Synced-call_sync m ws bufio received reliable default_clock st h in
            subst
              (λ t.
                Kept Event.stop_end st t
                × (unsent_bytes m ws bufio received reliable default_clock t.syncer.running ≡ []))
              (some-injective _ _ (rw on at x))
              (
                (
                  record { sound = h'.sound; delivered = h'.delivered },
                  a ∙ sym (append-nil st.accepted),
                ),
                c,
              )
        | inr off ↦ cc (rw off at x)
      ]

  pub Kept-step :
      (ev : Event) (st st' : State bufio.Buf Clock S)
      → Inv m ws bufio received reliable default_clock st
      → step m ws bufio default_clock ev st ≡ some st'
      → Kept ev st st'
  unfolding step
  Kept-step (Event.write p) st st' h e =
      subst (Kept (Event.write p) st) (some-injective _ _ e) (Kept-write p st h)
  Kept-step Event.sync st st' h e =
      subst (Kept Event.sync st) (some-injective _ _ e) (Kept-sync Event.sync st h refl)
  Kept-step Event.tick st st' h e =
      elim (Bool-cases (is_looping m ws bufio default_clock st.syncer.running)) [
        | inl on ↦
            subst (Kept Event.tick st) (some-injective _ _ (rw on at e))
              (Kept-sync Event.tick st h refl)
        | inr off ↦ cc (rw off at e)
      ]
  Kept-step Event.stop st st' h e =
      subst (Kept Event.stop st) (some-injective _ _ e) (Kept-stop st h)
  Kept-step Event.loop_exit st st' h e = Kept-exit st st' _ h refl e
  Kept-step Event.stop_end st st' h e = (Kept-end st st' st.waiting h e).0
