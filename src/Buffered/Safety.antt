-- ===== src/Buffered/Safety.antt =====
-- Over a destination that takes every write, whatever the callers, the flush loop and `Stop` do and
-- in whatever order: no record is split, lost, repeated or overtaken.
use buffer_full_flush_once.Common.{
  ◌≡◌, refl, ap, inl, inr, Option, none, some, List, [], ◌∷◌, ◌++◌, arith, Option-cases,
}
use buffer_full_flush_once.Common.Bytes.{Bytes}
use buffer_full_flush_once.Multierr.{Multierr}
use buffer_full_flush_once.WriteSyncer.{WriteSyncer}
use buffer_full_flush_once.Buffered.Stdlib.{Bufio}
use buffer_full_flush_once.Buffered.{
  BufferedWriteSyncer, Running, initialize, write_running, write_buffered, sync_running,
  sync_buffered,
}
use buffer_full_flush_once.Buffered.Run.{State, returned, call_write, call_sync}
use buffer_full_flush_once.Buffered.Delivery.{Delivered, Delivered-flush, Delivered-Written}
use buffer_full_flush_once.Buffered.Whole.{IsReliable, write_running-Outcome, sync_running-Flushed}

module _ (m : Multierr) {S : Type 0} (ws : WriteSyncer S m.Error) (bufio : Bufio m ws)
    (received : S → List Bytes) (reliable : IsReliable m ws received) {Clock : Type 0}
    (default_clock : Clock) where
  -- The bytes in the buffer, and that no write behind it has failed.
  abbrev pub unsent_bytes : Option (Running bufio.Buf Clock) → Bytes
  unsent_bytes none = []
  unsent_bytes (some r) = bufio.contents r.writer

  abbrev IsSound : Option (Running bufio.Buf Clock) → Type 0
  IsSound none = Unit
  IsSound (some r) = bufio.failed r.writer ≡ none

  pub record Inv (st : State bufio.Buf Clock S) : Type 0 where
    pub sound : IsSound st.syncer.running
    pub delivered : Delivered st.accepted (received st.dest) (unsent_bytes st.syncer.running)

  write_buffered-some :
      (p : Bytes) (b : BufferedWriteSyncer bufio.Buf Clock) (r : Running bufio.Buf Clock) (s : S)
      → b.running ≡ some r
      → write_buffered m ws bufio default_clock p b s
        ≡ write_running m ws bufio default_clock b r p s
  unfolding write_buffered
  write_buffered-some p b r s e = ground arith

  write_buffered-none :
      (p : Bytes) (b : BufferedWriteSyncer bufio.Buf Clock) (s : S)
      → b.running ≡ none
      → write_buffered m ws bufio default_clock p b s
        ≡ write_running m ws bufio default_clock b (initialize m ws bufio default_clock b) p s
  unfolding write_buffered
  write_buffered-none p b s e = ground arith

  abbrev pub Accepted : Bytes → State bufio.Buf Clock S → State bufio.Buf Clock S → Type 0
  Accepted p st st' = Inv st' × (st'.accepted ≡ st.accepted ++ p ∷ []) × (st'.waiting ≡ st.waiting)

  Accepted-returned :
      (p : Bytes) (st : State bufio.Buf Clock S) (r : Running bufio.Buf Clock)
      → bufio.failed r.writer ≡ none
      → Delivered st.accepted (received st.dest) (bufio.contents r.writer)
      → Accepted p st (
          returned m ws bufio default_clock st p
            (write_running m ws bufio default_clock st.syncer r p st.dest))
  unfolding returned
  Accepted-returned p st r sound d =
      let (n, e, w, b', f, how) =
        write_running-Outcome m ws bufio received reliable default_clock st.syncer r p st.dest
          sound in
      rw (e, b') (record { sound = f; delivered = Delivered-Written p d how }, refl, refl)

  initialize_sound :
      (b : BufferedWriteSyncer bufio.Buf Clock)
      → (bufio.failed (initialize m ws bufio default_clock b).writer ≡ none)
        × (bufio.contents (initialize m ws bufio default_clock b).writer ≡ [])
  unfolding initialize
  initialize_sound b = (bufio.new_failed _, bufio.new_contents _)

  -- A call of `Write` returns a nil error, and keeps the invariant.
  pub Accepted-write :
      (p : Bytes) (st : State bufio.Buf Clock S)
      → Inv st
      → Accepted p st (call_write m ws bufio default_clock p st)
  Accepted-write p st h = elim (Option-cases st.syncer.running) [
    | inr (r, e) ↦
        rw (write_buffered-some p st.syncer r st.dest e)
          (Accepted-returned p st r (rw e at h.sound) (rw e at h.delivered))
    | inl e ↦
        let b = st.syncer in
        let (f, c) = initialize_sound b in
        rw (write_buffered-none p b st.dest e) (
          Accepted-returned p st (initialize m ws bufio default_clock b) f
            (rw c (rw e at h.delivered)))
  ]

  sync_buffered-eq :
      (b : BufferedWriteSyncer bufio.Buf Clock) (o : Option (Running bufio.Buf Clock)) (s : S)
      → b.running ≡ o
      → sync_buffered m ws bufio default_clock b s ≡ sync_running m ws bufio default_clock b o s
  unfolding sync_buffered
  sync_buffered-eq b o s e = ap (λ x. sync_running m ws bufio default_clock b x s) e

  -- After a call of `Sync` nothing is left in the buffer.
  abbrev pub Synced : State bufio.Buf Clock S → State bufio.Buf Clock S → Type 0
  Synced st st' = Inv st' × (unsent_bytes st'.syncer.running ≡ []) × (st'.accepted ≡ st.accepted)

  Synced-none :
      (st : State bufio.Buf Clock S)
      → Inv st
      → st.syncer.running ≡ none
      → Synced st (call_sync m ws bufio default_clock st)
  unfolding sync_running
  Synced-none st h e = rw (sync_buffered-eq st.syncer none st.dest e) (
    record { sound = h.sound; delivered = rw (reliable.keeps st.dest) h.delivered },
    ap unsent_bytes e,
    refl,
  )

  Synced-some :
      (st : State bufio.Buf Clock S) (r : Running bufio.Buf Clock)
      → Inv st
      → st.syncer.running ≡ some r
      → Synced st (call_sync m ws bufio default_clock st)
  Synced-some st r h e =
      let sound : bufio.failed r.writer ≡ none = rw e at h.sound in
      let d : Delivered st.accepted (received st.dest) (bufio.contents r.writer) =
        rw e at h.delivered in
      let (r', b', same, (f, c, how)) =
        sync_running-Flushed m ws bufio received reliable default_clock st.syncer r st.dest sound in
      rw (sync_buffered-eq st.syncer (some r) st.dest e, b')
        (
          record {
            sound = f;
            delivered = rw c (elim how [
              | inl (empty, same_chunks) ↦ rw same_chunks (rw empty at d)
              | inr more ↦ Delivered-flush d more
            ]);
          },
          c,
          refl,
        )

  pub Synced-call_sync :
      (st : State bufio.Buf Clock S) → Inv st → Synced st (call_sync m ws bufio default_clock st)
  Synced-call_sync st h = elim (Option-cases st.syncer.running) [
    | inr (r, e) ↦ Synced-some st r h e
    | inl e ↦ Synced-none st h e
  ]
