-- ===== src/Sampler/Race/Alone.antt =====
-- zapcore/sampler.go: a call of `IncCheckReset` that no other goroutine interrupts, and how often a
-- call has to be scheduled.
use buffer_full_flush_once.Common.{
  ℕ, zero, suc, ◌+◌, ◌-◌, ◌≤◌, ◌≡◌, ◌≢◌, refl, sym, ◌∙◌, map, inl, inr, some, List, [], ◌∷◌,
  get_elem?, arith, Option-cases, Bool-cases, ◌==◌, ==_iff, if◌then◌else◌, get_elem?-set_ne,
  get_elem?-set_self, length,
}
use buffer_full_flush_once.Common.Int.{ℤ, ltb_ℤ, eqb_ℤ_iff}
use mathlib.Core.Bool.{true≢false}
use buffer_full_flush_once.Sampler.{Counter, inc_check_reset}
use buffer_full_flush_once.Sampler.Race.System.{
  Place, idle, resetting, swapping, adding, ended, advance, Call, Race, turn, run, call_at, race_of,
}

-- `n` accesses of one call in a row.
abbrev pub advances : ℕ → ℤ → ℤ → Counter → Place → Counter × Place
advances zero t tick c p = (c, p)
advances (suc n) t tick c p = let (c', p') = advance t tick c p in advances n t tick c' p'

-- Four accesses of a call in a row are `inc_check_reset`: the same counter, the same count.
pub advances-inc_check_reset :
    (t tick : ℤ) (c : Counter)
    → let (n, c') = inc_check_reset c t tick in advances 4 t tick c idle ≡ (c', ended n)
unfolding advance inc_check_reset
advances-inc_check_reset t tick c = elim (Bool-cases (ltb_ℤ t c.reset_at)) [
  | inl e ↦ rw e refl
  | inr e ↦ rw (e, (eqb_ℤ_iff c.reset_at c.reset_at).1 refl) refl
]

-- How many accesses a call has left at most.
abbrev pub left : Place → ℕ
left idle = 4
left (resetting r) = 3
left (swapping r) = 2
left adding = 1
left (ended n) = 0

advance-left : (t tick : ℤ) (c : Counter) (p : Place) → left (advance t tick c p).1 ≤ left p - 1
unfolding advance
advance-left t tick c p = ground arith

-- How often the call `i` is scheduled.
abbrev pub scheduled : ℕ → List ℕ → ℕ
scheduled i [] = 0
scheduled i (j ∷ js) = (if i == j then 1 else 0) + scheduled i js

get_elem?-lt : (xs : List Call) (i : ℕ) {x : Call} → get_elem? xs i ≡ some x → suc i ≤ length xs
get_elem?-lt [] i e = cc
get_elem?-lt (y ∷ xs) zero e = omega arith
get_elem?-lt (y ∷ xs) (suc i) e = omega (arith, get_elem?-lt xs i e)

-- The call `i`, at the time `t`, with at most `k` accesses left.
record At (s : Race) (i : ℕ) (t : ℤ) (k : ℕ) : Type 0 where
  place : Place
  found : get_elem? s.calls i ≡ some (record { tn = t; place = place })
  few : left place ≤ k

turn-get_elem?_ne :
    (tick : ℤ) (s : Race) (i j : ℕ)
    → i ≢ j
    → get_elem? (turn tick s j).calls i ≡ get_elem? s.calls i
unfolding turn
turn-get_elem?_ne tick s i j other = elim (Option-cases (get_elem? s.calls j)) [
  | inl e ↦ rw e refl
  | inr (x, e) ↦ rw e (get_elem?-set_ne s.calls _ (λ same. other (sym same)))
]

get_elem?-race_of :
    (ts : List ℤ) (i : ℕ) {t : ℤ}
    → get_elem? ts i ≡ some t
    → get_elem? (map call_at ts) i ≡ some (call_at t)
get_elem?-race_of [] i e = cc
get_elem?-race_of (u ∷ ts) zero e = cc
get_elem?-race_of (u ∷ ts) (suc i) e = get_elem?-race_of ts i e

left-zero : (p : Place) → left p ≡ 0 → (n : ℕ) × (p ≡ ended n)
left-zero idle e = absurd (omega arith)
left-zero (resetting r) e = absurd (omega arith)
left-zero (swapping r) e = absurd (omega arith)
left-zero adding e = absurd (omega arith)
left-zero (ended n) e = (n, refl)

turn-At :
    (tick : ℤ) (s : Race) (i j : ℕ) (t : ℤ) (k : ℕ)
    → At s i t k
    → At (turn tick s j) i t (k - (if i == j then 1 else 0))
unfolding turn
turn-At tick s i j t k a = elim (Bool-cases (i == j)) [
  | inl e ↦
      (let same = (==_iff i j).0 e in
        let next = advance t tick s.shared a.place in
        let fewer = advance-left t tick s.shared a.place in
        let lt = get_elem?-lt s.calls i a.found in
        rw (e, ← same, a.found)
          (record {
            place = next.1;
            found = get_elem?-set_self s.calls i _ lt;
            few = omega (arith, fewer, a.few);
          }))
  | inr e ↦ rw e (record {
    place = a.place;
    found =
        turn-get_elem?_ne tick s i j (λ same. true≢false (sym ((==_iff i j).1 same) ∙ e)) ∙ a.found;
    few = omega (arith, a.few);
  })
]

run-At :
    (tick : ℤ) (s : Race) (i : ℕ) (t : ℤ) (k : ℕ) (is : List ℕ)
    → At s i t k
    → At (run tick s is) i t (k - scheduled i is)
unfolding run
run-At tick s i t k [] a = record { place = a.place; found = a.found; few = omega (arith, a.few) }
run-At tick s i t k (j ∷ js) a =
    let rest = run-At tick (turn tick s j) i t _ js (turn-At tick s i j t k a) in
    record { place = rest.place; found = rest.found; few = omega (arith, rest.few) }

-- Whatever the interleaving `is`, a call that was scheduled for four accesses has returned: no
-- other goroutine can keep it from returning.
pub run-returned :
    (c : Counter) (ts : List ℤ) (tick : ℤ) (is : List ℕ) (i : ℕ) (t : ℤ)
    → get_elem? ts i ≡ some t
    → 4 ≤ scheduled i is
    → (n : ℕ) × (get_elem? (run tick (race_of c ts) is).calls i
        ≡ some (record { tn = t; place = ended n }))
run-returned c ts tick is i t here often =
    let last =
      run-At tick (race_of c ts) i t 4 is
        (record { place = idle; found = get_elem?-race_of ts i here; few = omega arith }) in
    let (n, e) = left-zero last.place (omega (arith, last.few)) in (n, rw⁻¹ e (last.found))
