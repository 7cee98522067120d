-- ===== src/Sampler/Race/System.antt =====
-- zapcore/sampler.go: the calls of `IncCheckReset` that share a counter, in any order of their
-- atomic accesses.
use buffer_full_flush_once.Common.{
  ℕ, ◌+◌, Bool, true, false, Option, none, some, List, [], ◌∷◌, map, get_elem?, set, if◌then◌else◌,
}
use buffer_full_flush_once.Common.Int.{ℤ, ◌+ℤ◌, ltb_ℤ, wrap}
use buffer_full_flush_once.Sampler.{Counter, add_one, compare_and_swap}

-- Where a call stands, with the local variables that are live there.
pub data Place : Type 0 where
  idle : Place  -- before `c.resetAt.Load()`
  resetting : (reset_after : ℤ) → Place  -- before `c.counter.Store(1)`
  swapping : (reset_after : ℤ) → Place  -- before `c.resetAt.CompareAndSwap`
  adding : Place  -- before a `c.counter.Add(1)`
  ended : (n : ℕ) → Place

abbrev pub after_swap : Bool × Counter → Counter × Place
after_swap (true, c) = (c, ended 1)
after_swap (false, c) = (c, adding)

-- One atomic access of a call at the time `tn`.
unfoldable pub advance : ℤ → ℤ → Counter → Place → Counter × Place
advance tn tick c idle = if ltb_ℤ tn c.reset_at then (c, adding) else (c, resetting c.reset_at)
advance tn tick c (resetting r) = (record c { counter = 1 }, swapping r)
advance tn tick c (swapping r) = after_swap (compare_and_swap c r (wrap 63 (tn +ℤ tick)))
advance tn tick c adding = let (n, c') = add_one c in (c', ended n)
advance tn tick c (ended n) = (c, ended n)

pub record Call : Type 0 where
  pub tn : ℤ
  pub place : Place

pub record Race : Type 0 where
  pub shared : Counter
  pub calls : List Call

turn_of : ℤ → Race → ℕ → Option Call → Race
unfolding advance
turn_of tick s i none = s
turn_of tick s i (some call) =
    let (c, p) = advance call.tn tick s.shared call.place in
    record { shared = c; calls = set s.calls i (record call { place = p }) }

-- The `i`-th call is scheduled for one access.
unfoldable pub turn : ℤ → Race → ℕ → Race
unfolding turn_of
turn tick s i = turn_of tick s i (get_elem? s.calls i)

unfoldable pub run : ℤ → Race → List ℕ → Race
run tick s [] = s
run tick s (i ∷ is) = run tick (turn tick s i) is

abbrev pub call_at : ℤ → Call
call_at t = record { tn = t; place = idle }

abbrev pub has_returned : Place → ℕ
has_returned (ended n) = 1
has_returned _ = 0

-- How many calls have returned.
abbrev pub finished : List Call → ℕ
finished [] = 0
finished (x ∷ xs) = has_returned x.place + finished xs

-- Calls that have not begun, each at its time.
abbrev pub race_of : Counter → List ℤ → Race
race_of c ts = record { shared = c; calls = map call_at ts }
