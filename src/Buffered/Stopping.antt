-- ===== src/Buffered/Stopping.antt =====
-- `Stop` of a `BufferedWriteSyncer`: one call cleans up, it can always finish, and the channel
-- `stop` is closed once. This holds whatever the destination does.
use mathlib.Core.Path.{subst}
use mathlib.Core.Option.{some-injective}
use buffer_full_flush_once.Common.{
  ℕ, zero, suc, ◌≤◌, ◌≡◌, ◌≢◌, refl, ◌∙◌, true, false, Option, none, some, List, [], ◌∷◌, ◌++◌,
  arith, Bool-cases, inl, inr, ◌⊎◌, >>=-eq-some,
}
use buffer_full_flush_once.Common.Bytes.{Bytes}
use buffer_full_flush_once.Multierr.{Multierr}
use buffer_full_flush_once.WriteSyncer.{WriteSyncer}
use buffer_full_flush_once.Buffered.Stdlib.{Bufio}
use buffer_full_flush_once.Buffered.{
  BufferedWriteSyncer, Running, initialize, initialized, must_flush, write_through, after_flush,
  write_running, write_buffered, sync_running, sync_buffered, stop_running, stop_begin,
}
use buffer_full_flush_once.Buffered.Run.{
  Event, State, step, run, returned, call_sync, stopping, exiting, ending,
}

-- The `Stop`s that wait are at most one, and none before `Stop` has run; the channel `stop` is
-- closed exactly if `Stop` has run, and `flushLoop` ends only after that.
pub record IsOrderly {Buf Clock : Type 0} (waiting : ℕ) (r : Running Buf Clock) : Type 0 where
  pub closed : r.stop ≡ r.stopped
  pub after : r.done ≡ true → r.stop ≡ true
  pub one : waiting ≤ 1
  pub begun : waiting ≢ 0 → r.stopped ≡ true

abbrev pub Orderly : {Buf Clock : Type 0} → ℕ → Option (Running Buf Clock) → Type 0
Orderly waiting none = waiting ≡ 0
Orderly waiting (some r) = IsOrderly waiting r

module _ (m : Multierr) {S : Type 0} (ws : WriteSyncer S m.Error) (bufio : Bufio m ws)
    {Clock : Type 0} (default_clock : Clock) where
  -- `Write` and `Sync` change nothing but the buffer.
  abbrev OnlyWriter :
      BufferedWriteSyncer bufio.Buf Clock
      → Running bufio.Buf Clock
      → BufferedWriteSyncer bufio.Buf Clock
      → Type 0
  OnlyWriter b r b' = (w : bufio.Buf) × (b' ≡ record b { running = some (record r { writer = w }) })

  write_running-OnlyWriter :
      (b : BufferedWriteSyncer bufio.Buf Clock) (r : Running bufio.Buf Clock) (p : Bytes) (s : S)
      → OnlyWriter b r (write_running m ws bufio default_clock b r p s).2
  unfolding write_running
  write_running-OnlyWriter b r p s =
      elim (Bool-cases (must_flush m ws bufio default_clock r.writer p)) [
        | inl full ↦ rw full (flushed (bufio.flush r.writer s).0)
        | inr skip ↦ rw skip (unfold write_through in ((bufio.write_buf r.writer p s).2, refl))
      ]
    where
      w : bufio.Buf
      w = (bufio.flush r.writer s).1

      s' : S
      s' = (bufio.flush r.writer s).2

      flushed :
          (e : Option m.Error)
          → OnlyWriter b r
              (after_flush m ws bufio default_clock b (record r { writer = w }) p e s').2
      flushed none = ((bufio.write_buf w p s').2, unfold after_flush write_through in refl)
      flushed (some e) = (w, unfold after_flush in refl)

  Orderly-writer :
      (n : ℕ) (b b' : BufferedWriteSyncer bufio.Buf Clock) (r : Running bufio.Buf Clock)
      → IsOrderly n r
      → OnlyWriter b r b'
      → Orderly n b'.running
  Orderly-writer n b b' r h (w, e) =
      rw e (record { closed = h.closed; after = h.after; one = h.one; begun = h.begun })

  Orderly-initialized :
      (n : ℕ) (b : BufferedWriteSyncer bufio.Buf Clock) (o : Option (Running bufio.Buf Clock))
      → Orderly n o
      → IsOrderly n (initialized m ws bufio default_clock b o)
  unfolding initialize
  Orderly-initialized n b none h = ground arith
  Orderly-initialized n b (some r) h = h

  Orderly-write :
      (n : ℕ) (p : Bytes) (b : BufferedWriteSyncer bufio.Buf Clock) (s : S)
      → Orderly n b.running
      → Orderly n (write_buffered m ws bufio default_clock p b s).2.running
  unfolding write_buffered
  Orderly-write n p b s h =
      let r : Running bufio.Buf Clock = initialized m ws bufio default_clock b b.running in
      Orderly-writer n b _ r (Orderly-initialized n b b.running h)
        (write_running-OnlyWriter b r p s)

  Orderly-sync :
      (n : ℕ) (b : BufferedWriteSyncer bufio.Buf Clock) (s : S)
      → Orderly n b.running
      → Orderly n (sync_buffered m ws bufio default_clock b s).1.running
  unfolding sync_buffered sync_running
  Orderly-sync n b s h = ground arith

  Orderly-stop :
      (st : State bufio.Buf Clock S)
      → Orderly st.waiting st.syncer.running
      → let st' =
          stopping m ws bufio default_clock st (stop_begin m ws bufio default_clock st.syncer) in
        Orderly st'.waiting st'.syncer.running
  unfolding stop_begin stopping stop_running
  Orderly-stop st h = ground arith

  Orderly-exit :
      (st st' : State bufio.Buf Clock S)
      → Orderly st.waiting st.syncer.running
      → exiting m ws bufio default_clock st st.syncer.running ≡ some st'
      → Orderly st'.waiting st'.syncer.running
  unfolding exiting
  Orderly-exit st st' h e = ground arith

  Orderly-end :
      (st st' : State bufio.Buf Clock S) (n : ℕ)
      → Orderly n st.syncer.running
      → ending m ws bufio default_clock st n ≡ some st'
      → Orderly st'.waiting st'.syncer.running
  unfolding ending sync_buffered sync_running
  Orderly-end st st' zero h e = cc
  Orderly-end st st' (suc n) h e = ground arith

  pub Orderly-step :
      (ev : Event) (st st' : State bufio.Buf Clock S)
      → Orderly st.waiting st.syncer.running
      → step m ws bufio default_clock ev st ≡ some st'
      → Orderly st'.waiting st'.syncer.running
  unfolding step returned
  Orderly-step (Event.write p) st st' h e =
      subst (λ t. Orderly t.waiting t.syncer.running) (some-injective _ _ e)
        (Orderly-write st.waiting p st.syncer st.dest h)
  Orderly-step Event.sync st st' h e =
      subst (λ t. Orderly t.waiting t.syncer.running) (some-injective _ _ e)
        (Orderly-sync st.waiting st.syncer st.dest h)
  Orderly-step Event.tick st st' h e = ground (arith, Orderly-sync st.waiting st.syncer st.dest h)
  Orderly-step Event.stop st st' h e =
      subst (λ t. Orderly t.waiting t.syncer.running) (some-injective _ _ e) (Orderly-stop st h)
  Orderly-step Event.loop_exit st st' h e = Orderly-exit st st' h e
  Orderly-step Event.stop_end st st' h e = Orderly-end st st' st.waiting h e

  Orderly-run :
      (evs : List Event) (st st' : State bufio.Buf Clock S)
      → Orderly st.waiting st.syncer.running
      → run m ws bufio default_clock evs st ≡ some st'
      → Orderly st'.waiting st'.syncer.running
  unfolding run
  Orderly-run [] st st' h e =
      subst (λ t. Orderly t.waiting t.syncer.running) (some-injective _ _ e) h
  Orderly-run (ev ∷ evs) st st' h e =
      let (st₁, first, rest) =
        >>=-eq-some (step m ws bufio default_clock ev st) (run m ws bufio default_clock evs) e in
      Orderly-run evs st₁ st' (Orderly-step ev st st₁ h first) rest

  end_step :
      (st : State bufio.Buf Clock S) (r : Running bufio.Buf Clock)
      → st.waiting ≡ 1
      → st.syncer.running ≡ some r
      → r.done ≡ true
      → run m ws bufio default_clock (Event.stop_end ∷ []) st
        ≡ some (record (call_sync m ws bufio default_clock st) { waiting = 0 })
  unfolding run step ending
  end_step st r one e done = ground arith

  exit_step :
      (st : State bufio.Buf Clock S) (r : Running bufio.Buf Clock)
      → st.syncer.running ≡ some r
      → r.stop ≡ true
      → r.done ≡ false
      → step m ws bufio default_clock Event.loop_exit st
        ≡ some
            (record st { syncer = record st.syncer { running = some (record r { done = true }) } })
  unfolding step exiting
  exit_step st r e stop going = ground arith

  exit_then_end :
      (st : State bufio.Buf Clock S) (r : Running bufio.Buf Clock)
      → st.waiting ≡ 1
      → st.syncer.running ≡ some r
      → r.stop ≡ true
      → r.done ≡ false
      → let r' : Running bufio.Buf Clock = record r { done = true } in
        let st' : State bufio.Buf Clock S = record st {
          syncer = record st.syncer { running = some r' };
        } in
        run m ws bufio default_clock (Event.loop_exit ∷ Event.stop_end ∷ []) st
        ≡ some (record (call_sync m ws bufio default_clock st') { waiting = 0 })
  unfolding run
  exit_then_end st r one e stop going =
      let r' : Running bufio.Buf Clock = record r { done = true } in
      let st' : State bufio.Buf Clock S = record st {
        syncer = record st.syncer { running = some r' };
      } in
      rw (exit_step st r e stop going) (end_step st' r' one refl refl)

  -- From a state in which no `Stop` has begun, whatever happens: at most one call of `Stop` waits,
  -- and if one waits then it can return, at once or after the end of the flush loop, which is free
  -- to end.
  pub stop_ends :
      (evs : List Event) (st st' : State bufio.Buf Clock S)
      → st.syncer.running ≡ none
      → st.waiting ≡ 0
      → run m ws bufio default_clock evs st ≡ some st'
      → (st'.waiting ≤ 1)
        × (st'.waiting ≢ 0
            → (rest : List Event) × (last : State bufio.Buf Clock S) × (run m ws bufio default_clock
                  (rest ++ Event.stop_end ∷ [])
                  st'
                ≡ some last)
              × (last.waiting ≡ 0)
              × ((rest ≡ []) ⊎ (rest ≡ Event.loop_exit ∷ [])))
  stop_ends evs st st' fresh none_waits e =
      of_orderly st' st'.syncer.running refl (Orderly-run evs st st' (rw fresh none_waits) e)
    where
      of_orderly :
          (t : State bufio.Buf Clock S) (o : Option (Running bufio.Buf Clock))
          → t.syncer.running ≡ o
          → Orderly t.waiting o
          → (t.waiting ≤ 1)
            × (t.waiting ≢ 0
                → (rest : List Event) × (last : State bufio.Buf Clock S) × (run m ws bufio
                      default_clock
                      (rest ++ Event.stop_end ∷ [])
                      t
                    ≡ some last)
                  × (last.waiting ≡ 0)
                  × ((rest ≡ []) ⊎ (rest ≡ Event.loop_exit ∷ [])))
      of_orderly t none e h = (omega arith, λ w. absurd (w h))
      of_orderly t (some r) e h = (
        h.one,
        λ w. elim (Bool-cases r.done) [
          | inl done ↦ ([], _, end_step t r (omega (arith, h.one)) e done, refl, inl refl)
          | inr going ↦ (
            Event.loop_exit ∷ [],
            _,
            exit_then_end t r (omega (arith, h.one)) e (h.closed ∙ h.begun w) going,
            refl,
            inr refl,
          )
        ],
      )
