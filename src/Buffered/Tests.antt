-- ===== src/Buffered/Tests.antt =====
-- Runs of the syncer over a concrete buffer, and the theorems at concrete inputs.
use mathlib.Core.List.{flatten}
use buffer_full_flush_once.Common.{
  ℕ, ◌*◌, ◌≡◌, ◌≢◌, ◌≤◌, refl, Option, none, some, List, [], ◌∷◌, ◌++◌, length, true, false, inr,
  ◌⊎◌,
}
use buffer_full_flush_once.Common.Int.{pos}
use buffer_full_flush_once.Common.Bytes.{Bytes}
use buffer_full_flush_once.Fixtures.{lists, broken}
use buffer_full_flush_once.WriteSyncer.{WriteSyncer, external, write, sync}
use buffer_full_flush_once.Buffered.{
  BufferedWriteSyncer, Running, initialize, write_buffered, write_running, sync_buffered,
  stop_begin,
}
use buffer_full_flush_once.Buffered.Model.{Held, held}
use buffer_full_flush_once.Buffered.Run.{Event, State, step, run, returned}
use buffer_full_flush_once.Buffered.Whole.{IsReliable}
use buffer_full_flush_once.Buffered.Delivery.{Delivered}
use buffer_full_flush_once.Buffered.Order.{IsFresh, run_delivers, run_flushes}
use buffer_full_flush_once.Buffered.Interleavings.{written}
use buffer_full_flush_once.Buffered.Failure.{HasFailed, write_buffered-flush_fails}
use buffer_full_flush_once.Buffered.Stopping.{stop_ends}

-- The state is the list of chunks received, in order.
abbrev whole : WriteSyncer (List Bytes) (List ℕ)
whole = external (λ p s. (length p, none, s ++ p ∷ [])) (λ s. (none, s))

whole-IsReliable : IsReliable lists whole (λ s. s)
unfolding write sync
whole-IsReliable = record {
  count = λ p s. refl;
  nil_error = λ p s. refl;
  receives = λ p s. refl;
  keeps = λ s. refl;
}

abbrev fresh : State (Held (List ℕ)) ℕ (List Bytes)
fresh = record {
  syncer = record { size = pos 4; flush_interval = pos 0; clock = none; running = none };
  dest = [];
  accepted = [];
  waiting = 0;
}

fresh-IsFresh : IsFresh lists whole (held lists whole) (λ s. s) whole-IsReliable 0 fresh
fresh-IsFresh = record { not_initialized = refl; none_accepted = refl; none_received = refl }

abbrev script : List Event
script =
    Event.write (1 ∷ 2 ∷ 3 ∷ [])
    ∷ Event.write (4 ∷ 5 ∷ [])
    ∷ Event.tick
    ∷ Event.write (6 ∷ 7 ∷ 8 ∷ 9 ∷ 10 ∷ [])
    ∷ Event.write (11 ∷ [])
    ∷ Event.stop
    ∷ Event.stop
    ∷ Event.loop_exit
    ∷ []

abbrev end_of : Option (State (Held (List ℕ)) ℕ (List Bytes)) → List Bytes
end_of none = []
end_of (some st) = st.dest

chunks_of_script :
    end_of (run lists whole (held lists whole) 0 (script ++ Event.stop_end ∷ []) fresh)
    ≡ (1 ∷ 2 ∷ 3 ∷ []) ∷ (4 ∷ 5 ∷ []) ∷ (6 ∷ 7 ∷ 8 ∷ 9 ∷ 10 ∷ []) ∷ (11 ∷ []) ∷ []
unfolding run step returned write_buffered write_running initialize stop_begin sync_buffered write
    sync
chunks_of_script = refl

-- What the state is after the script.
abbrev after : State (Held (List ℕ)) ℕ (List Bytes)
after = record {
  syncer = record fresh.syncer {
    running = some (record {
      writer = record { size = 4; bytes = 11 ∷ []; failure = none };
      ticker = record { clock = 0; interval = pos (30 * 1_000_000_000); stopped = true };
      stopped = true;
      stop = true;
      done = true;
    });
  };
  dest = (1 ∷ 2 ∷ 3 ∷ []) ∷ (4 ∷ 5 ∷ []) ∷ (6 ∷ 7 ∷ 8 ∷ 9 ∷ 10 ∷ []) ∷ [];
  accepted = written script;
  waiting = 1;
}

run-script : run lists whole (held lists whole) 0 script fresh ≡ some after
unfolding run step returned write_buffered write_running initialize stop_begin sync_buffered write
    sync
run-script = refl

run_delivers_example : Delivered (written script) after.dest (11 ∷ [])
run_delivers_example =
    run_delivers lists whole (held lists whole) (λ s. s) whole-IsReliable 0 script fresh after
      fresh-IsFresh run-script

abbrev ended : State (Held (List ℕ)) ℕ (List Bytes)
ended = record {
  syncer = record fresh.syncer {
    running = some (record {
      writer = record { size = 4; bytes = []; failure = none };
      ticker = record { clock = 0; interval = pos (30 * 1_000_000_000); stopped = true };
      stopped = true;
      stop = true;
      done = true;
    });
  };
  dest = after.dest ++ (11 ∷ []) ∷ [];
  accepted = written script;
  waiting = 0;
}

run-ended : run lists whole (held lists whole) 0 (script ++ Event.stop_end ∷ []) fresh ≡ some ended
unfolding run step returned write_buffered write_running initialize stop_begin sync_buffered write
    sync
run-ended = refl

run_flushes_example : (flatten ended.dest ≡ flatten (written script)) × (◌≡◌ {A = Bytes} [] [])
run_flushes_example =
    run_flushes lists whole (held lists whole) (λ s. s) whole-IsReliable 0 script Event.stop_end
      fresh ended fresh-IsFresh (inr refl) run-ended

stop_ends_example :
    (1 ≤ 1)
    × (◌≢◌ {A = ℕ} 1 0
        → (rest : List Event) × (last : State (Held (List ℕ)) ℕ (List Bytes)) × (run lists whole
              (held lists whole)
              0
              (rest ++ Event.stop_end ∷ [])
              after
            ≡ some last)
          × (last.waiting ≡ 0)
          × ((rest ≡ []) ⊎ (rest ≡ Event.loop_exit ∷ [])))
stop_ends_example =
    stop_ends lists whole (held lists whole) 0 script fresh after refl refl run-script

-- A full buffer before a destination that fails.
abbrev filled : Running (Held (List ℕ)) ℕ
filled = record {
  writer = record { size = 4; bytes = 1 ∷ 2 ∷ []; failure = none };
  ticker = record { clock = 0; interval = pos 7; stopped = false };
  stopped = false;
  stop = false;
  done = false;
}

abbrev over : Running (Held (List ℕ)) ℕ → BufferedWriteSyncer (Held (List ℕ)) ℕ
over r = record { size = pos 4; flush_interval = pos 0; clock = none; running = some r }

write_buffered-flush_fails_example :
    let (n, e', b', s') =
      write_buffered lists broken (held lists broken) 0 (3 ∷ 4 ∷ 5 ∷ []) (over filled) [] in
    (n ≡ 0)
    × (e' ≡ some (1 ∷ []))
    × (s' ≡ (write lists broken (1 ∷ 2 ∷ []) []).2)
    × HasFailed lists broken (held lists broken) 0 (1 ∷ []) b'
unfolding write
write_buffered-flush_fails_example =
    write_buffered-flush_fails lists broken (held lists broken) 0 (3 ∷ 4 ∷ 5 ∷ []) (over filled)
      filled [] (1 ∷ []) refl refl refl refl
