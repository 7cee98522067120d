-- ===== src/Sampler/Window.antt =====
-- The entries of one window: the calls between two resets of a counter.
use native.Mathlib.Nat.{mod-eq_of_lt}
use buffer_full_flush_once.Common.{
  ℕ, suc, ◌+◌, ◌^◌, ◌%◌, ◌≡◌, ◌<◌, refl, true, false, List, [], ◌∷◌, All, length, arith,
}
use buffer_full_flush_once.Common.Int.{ℤ, eqb_ℤ_iff, ◌+ℤ◌, ltb_ℤ, wrap}
use buffer_full_flush_once.Sampler.{Counter, inc_check_reset, counts_at, kept}
use buffer_full_flush_once.Sampler.Decision.{quota, counts_after, kept-counts_after}

-- While the window lasts every call counts one further.
counts_at_before :
    (ts : List ℤ) (tick : ℤ) (c : Counter)
    → All (λ t. ltb_ℤ t c.reset_at ≡ true) ts
    → c.counter + length ts < 2 ^ 64
    → counts_at ts tick c ≡ counts_after c.counter (length ts)
unfolding counts_at inc_check_reset
counts_at_before [] tick c before bound = refl
counts_at_before (t ∷ ts) tick c (now, later) bound =
    let no_wrap : (c.counter + 1) % 2 ^ 64 ≡ c.counter + 1 = mod-eq_of_lt (ground arith) in
    let ih = counts_at_before ts tick (record c { counter = c.counter + 1 }) later (ground arith) in
    rw (now, no_wrap, ih) refl

-- A call past the window starts a new one, with the count 1.
inc_check_reset_after :
    (t tick : ℤ) (c : Counter)
    → ltb_ℤ t c.reset_at ≡ false
    → inc_check_reset c t tick ≡ (1, record { reset_at = wrap 63 (t +ℤ tick); counter = 1 })
unfolding inc_check_reset
inc_check_reset_after t tick c h = rw (h, (eqb_ℤ_iff c.reset_at c.reset_at).1 refl) refl

-- A call at a time `t` that is not before the end of the old window, and then calls before the
-- end of the new one (fewer than 2 ^ 64 in all): of them the sampler keeps the first `first`
-- and every `thereafter`-th of the rest (none of the rest where `thereafter` is 0).
pub kept-counts_at :
    (first thereafter : ℕ) (t : ℤ) (ts : List ℤ) (tick : ℤ) (c : Counter)
    → ltb_ℤ t c.reset_at ≡ false
    → All (λ u. ltb_ℤ u (wrap 63 (t +ℤ tick)) ≡ true) ts
    → 1 + length ts < 2 ^ 64
    → kept first thereafter (counts_at (t ∷ ts) tick c) ≡ quota first thereafter (1 + length ts)
unfolding counts_at
kept-counts_at first thereafter t ts tick c old inside bound =
    let next : Counter = record { reset_at = wrap 63 (t +ℤ tick); counter = 1 } in
    let counted = counts_at_before ts tick next inside bound in
    let number : suc (length ts) ≡ 1 + length ts = (omega arith) in
    rw (inc_check_reset_after t tick c old, counted, ← number)
      (kept-counts_after first thereafter (suc (length ts)))
