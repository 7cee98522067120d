-- ===== src/Core/Sampled.antt =====
-- zapcore/sampler.go: what a sampler decides on a sequence of entries, bucket by bucket.
use buffer_full_flush_once.Common.{
  ℕ, ◌==◌, Bool, true, false, not, ◌&&◌, List, [], ◌∷◌, map, ◌≡◌, refl, ap, ap₂, ◌∙◌, inl, inr,
  Bool-cases, if◌then◌else◌, IsRef, arith,
}
use buffer_full_flush_once.Common.Int.{ℤ}
use buffer_full_flush_once.Sampler.{
  Counter, Counters, level_index, bucket, inc_check_reset, drops, counts_at,
}
use buffer_full_flush_once.Entry.{Entry}
use buffer_full_flush_once.Core.{Platform, Sampling, SamplingDecision}
use buffer_full_flush_once.Core.Checking.{sample, set_counter}

-- Whether an entry is counted by the counter of the level index `i` and the hash `j`.
abbrev pub in_bucket : ℕ → ℕ → Entry → Bool
in_bucket i j ent = (i == level_index ent.level) && (j == bucket ent.message)

-- The times of the entries of a bucket.
abbrev pub times_in : ℕ → ℕ → List Entry → List ℤ
times_in i j [] = []
times_in i j (ent ∷ ents) =
    let rest = times_in i j ents in if in_bucket i j ent then ent.time ∷ rest else rest

module _ (p : Platform) (g : Sampling p) where
  -- What the sampler decides on each of the entries, of supported levels, of a bucket, among others.
  abbrev pub decisions_in : ℕ → ℕ → List Entry → p.State → List Bool
  decisions_in i j [] s = []
  decisions_in i j (ent ∷ ents) s =
      let (kept, s') = sample p g ent s in
      let rest = decisions_in i j ents s' in if in_bucket i j ent then kept ∷ rest else rest

  abbrev pub decision_on : ℕ → Bool
  decision_on n = not (drops g.first g.thereafter n)

  module _ (kept_ref : IsRef g.counts)
      (hook_private : (ent : Entry) (d : SamplingDecision) (s : p.State)
        → g.counts.load (g.hook ent d s) ≡ g.counts.load s) where
    -- The result of counting an entry.
    abbrev count_of : Entry → Counters → ℕ × Counter
    count_of ent cs =
        inc_check_reset (cs (level_index ent.level) (bucket ent.message)) ent.time g.tick

    sample-decision :
        (ent : Entry) (s : p.State)
        → (sample p g ent s).0 ≡ decision_on (count_of ent (g.counts.load s)).0
    unfolding sample
    sample-decision ent s =
        elim (Bool-cases (drops g.first g.thereafter (count_of ent (g.counts.load s)).0)) [
          | inl e ↦ rw e refl
          | inr e ↦ rw e refl
        ]

    sample-counts :
        (ent : Entry) (s : p.State)
        → g.counts.load (sample p g ent s).1
          ≡ set_counter
              (g.counts.load s)
              (level_index ent.level)
              (bucket ent.message)
              (count_of ent (g.counts.load s)).1
    unfolding sample
    sample-counts ent s =
        elim (Bool-cases (drops g.first g.thereafter (count_of ent (g.counts.load s)).0)) [
          | inl e ↦ rw e (hook_private ent _ _ ∙ kept_ref.load-store _ s)
          | inr e ↦ rw e (hook_private ent _ _ ∙ kept_ref.load-store _ s)
        ]

    other_bucket :
        (i j : ℕ) (ent : Entry) (s : p.State)
        → in_bucket i j ent ≡ false
        → g.counts.load (sample p g ent s).1 i j ≡ g.counts.load s i j
    other_bucket i j ent s e = ap (λ cs. cs i j) (sample-counts ent s) ∙ rw e refl

    bucket_is :
        (i j : ℕ) (ent : Entry)
        → in_bucket i j ent ≡ true
        → (level_index ent.level ≡ i) × (bucket ent.message ≡ j)
    bucket_is i j ent e = ground arith

    -- The count of an entry of the bucket.
    abbrev here : ℕ → ℕ → Entry → p.State → ℕ × Counter
    here i j ent s = inc_check_reset (g.counts.load s i j) ent.time g.tick

    count_of-here :
        (i j : ℕ) (ent : Entry) (s : p.State)
        → in_bucket i j ent ≡ true
        → count_of ent (g.counts.load s) ≡ here i j ent s
    count_of-here i j ent s e =
        let (level, hash) = bucket_is i j ent e in
        ap₂ (λ a b. inc_check_reset (g.counts.load s a b) ent.time g.tick) level hash

    same_bucket :
        (i j : ℕ) (ent : Entry) (s : p.State)
        → in_bucket i j ent ≡ true
        → g.counts.load (sample p g ent s).1 i j ≡ (here i j ent s).1
    same_bucket i j ent s e =
        ap (λ cs. cs i j) (sample-counts ent s) ∙ rw e (ap (λ r. r.1) (count_of-here i j ent s e))

    -- However entries of other buckets come between them, the sampler decides on the entries of a
    -- bucket by the counts of a counter at their times alone, where the cell of the counters keeps
    -- what is stored and the hook does not change it.
    pub decisions_in-counts_at :
        (i j : ℕ) (ents : List Entry) (s : p.State)
        → decisions_in i j ents s
          ≡ map decision_on (counts_at (times_in i j ents) g.tick (g.counts.load s i j))
    unfolding counts_at
    decisions_in-counts_at i j [] s = refl
    decisions_in-counts_at i j (ent ∷ ents) s =
        let s' = (sample p g ent s).1 in
        let rest = decisions_in-counts_at i j ents s' in
        let count : Counter → List Bool =
          λ c. map decision_on (counts_at (times_in i j ents) g.tick c) in
        elim (Bool-cases (in_bucket i j ent)) [
          | inl e ↦ rw e (
              ap₂ (λ d ds. d ∷ ds)
                (sample-decision ent s ∙ ap (λ r. decision_on r.0) (count_of-here i j ent s e))
                (rest ∙ ap count (same_bucket i j ent s e)))
          | inr e ↦ rw e (rest ∙ ap count (other_bucket i j ent s e))
        ]
