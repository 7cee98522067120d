-- ===== src/Sampler/Decision.antt =====
-- How many of the counts 1, 2, ..., n a sampler keeps.
use native.Mathlib.Nat.{div-eq_of_lt-le, div-add-mod', mod-lt}
use buffer_full_flush_once.Common.{
  ℕ, zero, suc, ◌+◌, ◌-◌, ◌*◌, ◌/◌, ◌%◌, ◌≡◌, ◌≢◌, ◌<◌, ◌≤◌, Bool, true, false, ap, sym, ◌∙◌, inl,
  inr, ◌⊎◌, List, [], ◌∷◌, arith, ◌==◌, leb, if◌then◌else◌,
}
use buffer_full_flush_once.Sampler.{drops, kept}

-- The first `first`, and every `thereafter`-th of the rest.
abbrev pub quota : ℕ → ℕ → ℕ → ℕ
quota first thereafter n =
    if leb n first then n else (if thereafter == 0 then first else first + (n - first) / thereafter)

-- A division whose quotient and rest are known.
div_mod_lem : (x d q r : ℕ) → r < d → x ≡ q * d + r → (x / d ≡ q) × (x % d ≡ r)
div_mod_lem x d q r r<d e =
    let lower : q * d ≤ x = (omega arith) in
    let upper : x < (q + 1) * d = (omega arith) in
    let quotient : x / d ≡ q = div-eq_of_lt-le {k = q} d lower upper in
    let whole : q * d + x % d ≡ x = ap (λ k. k * d + x % d) (sym quotient) ∙ div-add-mod' x d in
    (quotient, (omega arith))

le_or_lt : (a b : ℕ) → (a ≤ b) ⊎ (b < a)
le_or_lt a b = omega arith

eq_or_lt : (a b : ℕ) → a ≤ b → (a ≡ b) ⊎ (a < b)
eq_or_lt a b l = omega arith

div_step : (x d : ℕ) → d ≢ 0 → (x + 1) / d ≡ x / d + (if ((x + 1) % d) == 0 then 1 else 0)
div_step x d h =
    let positive : 0 < d = (omega arith) in
    let rest : x % d < d = mod-lt x positive in
    let whole : x / d * d + x % d ≡ x = div-add-mod' x d in
    (elim (eq_or_lt (x % d + 1) d (omega arith)) [
      | inr l ↦
          (let p = div_mod_lem (x + 1) d (x / d) (x % d + 1) l (omega arith) in
            ground (arith, p.0, p.1))
      | inl g ↦
          (let p = div_mod_lem (x + 1) d (x / d + 1) 0 (omega arith) (omega arith) in
            ground (arith, p.0, p.1))
    ])

-- The quota past the first entries.
quota_past :
    (first thereafter n : ℕ)
    → first ≤ n
    → thereafter ≢ 0
    → quota first thereafter n ≡ first + (n - first) / thereafter
quota_past first thereafter n past h = elim (eq_or_lt first n past) [
  | inl same ↦
      (let none_yet = div_mod_lem (n - first) thereafter 0 0 (omega arith) (omega arith) in
        ground (arith, none_yet.0))
  | inr more ↦ ground arith
]

quota_step :
    (first thereafter n : ℕ)
    → quota first thereafter (n + 1)
      ≡ quota first thereafter n + (if drops first thereafter (n + 1) then 0 else 1)
unfolding drops
quota_step first thereafter n = elim (le_or_lt first n) [
  | inl past ↦ (elim (le_or_lt thereafter 0) [
    | inl dropped ↦ ground arith
    | inr some_kept ↦
        (let shift : n + 1 - first ≡ n - first + 1 = (omega arith) in
          let later = quota_past first thereafter (n + 1) (omega arith) (omega arith) in
          let now = quota_past first thereafter n past (omega arith) in
          let step = div_step (n - first) thereafter (omega arith) in
          rw (later, now, shift, step) (ground arith))
  ])
  | inr within ↦ ground arith
]

-- The `n` counts after `a`.
abbrev pub counts_after : ℕ → ℕ → List ℕ
counts_after a zero = []
counts_after a (suc n) = (a + 1) ∷ counts_after (a + 1) n

ite-suc_add : (b : Bool) (q k : ℕ) → q + (if b then k else k + 1) ≡ q + (if b then 0 else 1) + k
ite-suc_add true q k = omega arith
ite-suc_add false q k = omega arith

kept-counts_after_from :
    (first thereafter a n : ℕ)
    → quota first thereafter a + kept first thereafter (counts_after a n)
      ≡ quota first thereafter (a + n)
unfolding kept
kept-counts_after_from first thereafter a zero =
    let same : a + 0 ≡ a = (omega arith) in rw same (omega arith)
kept-counts_after_from first thereafter a (suc n) =
    let ih = kept-counts_after_from first thereafter (a + 1) n in
    let step = quota_step first thereafter a in
    let shift : a + suc n ≡ a + 1 + n = (omega arith) in
    rw (shift, ← ih, step) (ite-suc_add _ (quota first thereafter a) _)

-- Of the counts 1, 2, ..., n exactly the quota is kept.
pub kept-counts_after :
    (first thereafter n : ℕ) → kept first thereafter (counts_after 0 n) ≡ quota first thereafter n
kept-counts_after first thereafter n =
    let q = kept-counts_after_from first thereafter 0 n in ground arith
