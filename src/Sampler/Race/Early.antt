-- ===== src/Sampler/Race/Early.antt =====
-- zapcore/sampler.go: the counts of racing calls against the order in which they return.
use native.Mathlib.Nat.{mod-le}
use buffer_full_flush_once.Common.{
  ℕ, zero, suc, ◌+◌, ◌^◌, ◌≤◌, ◌≡◌, refl, sym, ◌∙◌, true, false, inl, inr, some, List, [], ◌∷◌, map,
  get_elem?, set, All, arith, Option-cases,
}
use buffer_full_flush_once.Common.Int.{ℤ, ltb_ℤ, eqb_ℤ, eqb_ℤ_iff}
use buffer_full_flush_once.Sampler.{Counter, drops}
use buffer_full_flush_once.Sampler.Race.System.{
  Place, idle, resetting, swapping, adding, ended, advance, Call, Race, turn, run, has_returned,
  finished, call_at, race_of,
}

All-set {κ} :
    (P : Call → Type κ) (xs : List Call) (i : ℕ) (x : Call) → All P xs → P x → All P (set xs i x)
All-set P [] i x h p = tt
All-set P (y ∷ xs) zero x h p = (p, h.1)
All-set P (y ∷ xs) (suc i) x h p = (h.0, All-set P xs i x h.1 p)

All-map {κ μ} :
    (P : Call → Type κ) (Q : Call → Type μ) (xs : List Call)
    → ((x : Call) → P x → Q x)
    → All P xs
    → All Q xs
All-map P Q [] f h = tt
All-map P Q (x ∷ xs) f h = (f x h.0, All-map P Q xs f h.1)

All-get {κ} :
    (P : Call → Type κ) (xs : List Call) (i : ℕ) {x : Call}
    → get_elem? xs i ≡ some x
    → All P xs
    → P x
All-get P [] i e h = cc
All-get P (y ∷ xs) zero {x = x} e h = let same : y ≡ x = cc in rw (← same) (h.0)
All-get P (y ∷ xs) (suc i) e h = All-get P xs i e h.1

finished-set :
    (xs : List Call) (i : ℕ) (x y : Call)
    → get_elem? xs i ≡ some x
    → finished (set xs i y) + has_returned x.place ≡ finished xs + has_returned y.place
finished-set [] i x y e = cc
finished-set (z ∷ xs) zero x y e = ground (arith, e)
finished-set (z ∷ xs) (suc i) x y e = omega (arith, finished-set xs i x y e)

-- A call that has not returned, in a race whose counter nobody has reset yet.
abbrev EarlyPlace : ℤ → Counter → Place → Type 0
EarlyPlace r c idle = Unit
EarlyPlace r c (resetting after) = after ≡ r
EarlyPlace r c (swapping after) = (after ≡ r) × (c.counter ≡ 1)
EarlyPlace r c adding = ⊥
EarlyPlace r c (ended n) = ⊥

-- A call whose time is not before the end `r` of the old window.
abbrev IsPast : ℤ → Call → Type 0
IsPast r x = ltb_ℤ x.tn r ≡ false

abbrev IsEarly : ℤ → Counter → Call → Type 0
IsEarly r c x = IsPast r x × EarlyPlace r c x.place

-- A count that is at most `k`, where the call has returned one.
abbrev Counted : ℕ → Place → Type 0
Counted k (ended n) = n ≤ k
Counted k _ = Unit

abbrev AllCounted : Race → Type 0
AllCounted s = All (λ x. Counted (finished s.calls) x.place) s.calls

data Inv (r : ℤ) (s : Race) : Type 0 where
  unreset : s.shared.reset_at ≡ r → All (IsEarly r s.shared) s.calls → Inv r s
  reset : 1 ≤ finished s.calls → s.shared.counter ≤ finished s.calls → AllCounted s → Inv r s

Counted-le : (j k : ℕ) (p : Place) → j ≤ k → Counted j p → Counted k p
Counted-le j k idle l h = tt
Counted-le j k (resetting r) l h = tt
Counted-le j k (swapping r) l h = tt
Counted-le j k adding l h = tt
Counted-le j k (ended n) l h = omega arith

-- What one access does to a counter that is at most `k`, the number of the calls that returned.
advance-bounds :
    (t tick : ℤ) (c : Counter) (p : Place) (k : ℕ)
    → 1 ≤ k
    → c.counter ≤ k
    → Counted k p
    → let (c', p') = advance t tick c p in
      (c'.counter + has_returned p ≤ k + has_returned p')
      × (has_returned p ≤ has_returned p')
      × ((m : ℕ) → m + has_returned p ≡ k + has_returned p' → Counted m p')
unfolding advance
advance-bounds t tick c idle k one h q = ground arith
advance-bounds t tick c (resetting r) k one h q = ground arith
advance-bounds t tick c (swapping r) k one h q = ground arith
advance-bounds t tick c adding k one h q =
    let small = mod-le (c.counter + 1) (2 ^ 64) in ground arith
advance-bounds t tick c (ended n) k one h q = ground arith

early-AllCounted :
    (r : ℤ) (c : Counter) (xs : List Call)
    → All (IsEarly r c) xs
    → (k : ℕ) → All (λ x. Counted k x.place) xs
early-AllCounted r c xs h k = All-map _ _ xs (λ x q. counted x.place q.1) h
  where
    counted : (p : Place) → EarlyPlace r c p → Counted k p
    counted p h = ground arith

module _ (r tick : ℤ) (s : Race) (i : ℕ) where
  -- An access in a race whose counter has been reset.
  advance-reset :
      (x : Call)
      → get_elem? s.calls i ≡ some x
      → 1 ≤ finished s.calls
      → s.shared.counter ≤ finished s.calls
      → AllCounted s
      → Inv r (turn tick s i)
  unfolding turn
  advance-reset x e one bound counted =
      let step =
        advance-bounds x.tn tick s.shared x.place (finished s.calls) one bound
          (All-get _ s.calls i e counted) in
      let p' = (advance x.tn tick s.shared x.place).1 in
      let y : Call = record { tn = x.tn; place = p' } in
      let sum = finished-set s.calls i x y e in
      let more : finished s.calls ≤ finished (set s.calls i y) = omega (arith, sum, step.1) in
      rw e (
        reset (omega arith) (omega (arith, sum, step.0)) (
          All-set _ s.calls i y (All-map _ _ s.calls (λ z h. Counted-le _ _ z.place more h) counted)
            (step.2 _ sum)))

  -- The others are as early as before, whether or not the counter was set to 1.
  IsEarly-store : (x : Call) → IsEarly r s.shared x → IsEarly r (record s.shared { counter = 1 }) x
  IsEarly-store x (past, early) = (past, EarlyPlace-store x.place early)
    where
      EarlyPlace-store :
          (p : Place) → EarlyPlace r s.shared p → EarlyPlace r (record s.shared { counter = 1 }) p
      EarlyPlace-store p h = ground arith

  abbrev next_race : ℤ → Place → Race
  next_race t p =
      let (c, p') = advance t tick s.shared p in
      record { shared = c; calls = set s.calls i (record { tn = t; place = p' }) }

  -- An access in a race whose counter nobody has reset yet.
  advance-early :
      (t : ℤ) (p : Place)
      → get_elem? s.calls i ≡ some (record { tn = t; place = p })
      → s.shared.reset_at ≡ r
      → ltb_ℤ t r ≡ false
      → EarlyPlace r s.shared p
      → All (IsEarly r s.shared) s.calls
      → Inv r (next_race t p)
  unfolding advance
  advance-early t idle e at past early all =
      let tested : ltb_ℤ t s.shared.reset_at ≡ false = rw at past in
      rw tested (unreset at (All-set _ s.calls i _ all (past, at)))
  advance-early t (resetting a) e at past early all =
      unreset at
        (All-set _ s.calls i _ (All-map _ _ s.calls IsEarly-store all) (past, (early, refl)))
  advance-early t (swapping a) e at past (same, one) all =
      let y : Call = record { tn = t; place = ended 1 } in
      let sum = finished-set s.calls i _ y e in
      let here : eqb_ℤ s.shared.reset_at a ≡ true =
        (eqb_ℤ_iff s.shared.reset_at a).1 (at ∙ sym same) in
      rw here (
        reset (omega (arith, sum)) (omega (arith, sum, one))
          (All-set _ s.calls i y (early-AllCounted r s.shared s.calls all _) (omega (arith, sum))))
  advance-early t adding e at past early all = absurd early
  advance-early t (ended n) e at past early all = absurd early

  turn-Inv : Inv r s → Inv r (turn tick s i)
  unfolding turn
  turn-Inv h = elim (Option-cases (get_elem? s.calls i)) [
    | inl e ↦ rw e h
    | inr (x, e) ↦ (elim h [
      | unreset at all ↦
          (let early = All-get _ s.calls i e all in
            rw e (advance-early x.tn x.place e at early.0 early.1 all))
      | reset one bound counted ↦ advance-reset x e one bound counted
    ])
  ]

run-Inv : (r tick : ℤ) (s : Race) (is : List ℕ) → Inv r s → Inv r (run tick s is)
unfolding run
run-Inv r tick s [] h = h
run-Inv r tick s (i ∷ is) h = run-Inv r tick (turn tick s i) is (turn-Inv r tick s i h)

IsEarly-race_of :
    (c : Counter) (ts : List ℤ)
    → All (λ t. ltb_ℤ t c.reset_at ≡ false) ts
    → All (IsEarly c.reset_at c) (map call_at ts)
IsEarly-race_of c [] h = tt
IsEarly-race_of c (t ∷ ts) h = ((h.0, tt), IsEarly-race_of c ts h.1)

counted :
    (c : Counter) (ts : List ℤ) (tick : ℤ) (is : List ℕ)
    → All (λ t. ltb_ℤ t c.reset_at ≡ false) ts
    → AllCounted (run tick (race_of c ts) is)
counted c ts tick is past =
    let start : Inv c.reset_at (race_of c ts) = unreset refl (IsEarly-race_of c ts past) in
    let last = run tick (race_of c ts) is in
    elim (run-Inv c.reset_at tick (race_of c ts) is start) [
      | unreset at all ↦ early-AllCounted c.reset_at last.shared last.calls all _
      | reset one bound each ↦ each
    ]

-- Calls of `IncCheckReset` on one counter, with any old count, at times of which none is before
-- the end of the counter's window, interleaved access by access in any order `is` (some of them
-- perhaps not finished): a count that a call returned is at most the number of the calls that
-- have returned.
pub run-le_finished :
    (c : Counter) (ts : List ℤ) (tick : ℤ) (is : List ℕ) (i : ℕ) {t : ℤ} {n : ℕ}
    → All (λ u. ltb_ℤ u c.reset_at ≡ false) ts
    → get_elem? (run tick (race_of c ts) is).calls i ≡ some (record { tn = t; place = ended n })
    → n ≤ finished (run tick (race_of c ts) is).calls
run-le_finished c ts tick is i past e = All-get _ _ i e (counted c ts tick is past)

-- In such an interleaving, as long as at most `first` calls have returned, `sampler.Check` drops
-- the entry of none of them.
pub run-drops_none :
    (c : Counter) (ts : List ℤ) (tick : ℤ) (is : List ℕ) (i first thereafter : ℕ) {t : ℤ} {n : ℕ}
    → All (λ u. ltb_ℤ u c.reset_at ≡ false) ts
    → finished (run tick (race_of c ts) is).calls ≤ first
    → get_elem? (run tick (race_of c ts) is).calls i ≡ some (record { tn = t; place = ended n })
    → drops first thereafter n ≡ false
unfolding drops
run-drops_none c ts tick is i first thereafter past few e =
    let small = run-le_finished c ts tick is i past e in ground arith
