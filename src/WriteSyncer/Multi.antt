-- ===== src/WriteSyncer/Multi.antt =====
-- What `multiWriteSyncer` promises: every destination is called, in order, whatever the ones
-- before it returned, and no error is lost; and what becomes of the counts.
use Prim.Native.Nat.{min}
use mathlib.Core.Path.{subst}
use mathlib.Core.List.{foldl, foldl-append}
use buffer_full_flush_once.Common.{
  ℕ, ◌≤◌, ◌<◌, ◌≡◌, ◌≢◌, refl, sym, ap, ◌∙◌, inl, inr, ◌↔◌, Option, none, List, [], ◌∷◌, ◌++◌, map,
  arith, All, Any,
}
use buffer_full_flush_once.Common.Bytes.{Bytes}
use buffer_full_flush_once.Multierr.{Multierr, append-none_iff}
use buffer_full_flush_once.WriteSyncer.{
  WriteSyncer, WriteSyncers, nil, cons, multi, count_written, write, write_all, sync, sync_all,
}

-- The least of some numbers, and one of them.
abbrev pub IsLeastOf : ℕ → List ℕ → Type 0
IsLeastOf r ns = All (λ n. r ≤ n) ns × Any (λ n. r ≡ n) ns

module _ (m : Multierr) {S : Type 0} where
  -- Each destination is written to once, in order, from the state that the one before it left.
  abbrev pub outcomes : WriteSyncers S m.Error → Bytes → S → List (ℕ × Option m.Error) × S
  outcomes nil p s = ([], s)
  outcomes (cons w ws) p s =
      let (n, e, s') = write m w p s in let (os, s'') = outcomes ws p s' in ((n, e) ∷ os, s'')

  abbrev pub sync_outcomes : WriteSyncers S m.Error → S → List (Option m.Error) × S
  sync_outcomes nil s = ([], s)
  sync_outcomes (cons w ws) s =
      let (e, s') = sync m w s in let (os, s'') = sync_outcomes ws s' in (e ∷ os, s'')

  write_all-cons :
      (w : WriteSyncer S m.Error) (ws : WriteSyncers S m.Error) (p : Bytes) (c : ℕ)
      (e : Option m.Error) (s : S)
      → write_all m (cons w ws) p c e s
        ≡ write_all m ws p
            (count_written c (write m w p s).0)
            (m.append e (write m w p s).1)
            (write m w p s).2
  unfolding write_all
  write_all-cons w ws p c e s = refl

  sync_all-cons :
      (w : WriteSyncer S m.Error) (ws : WriteSyncers S m.Error) (e : Option m.Error) (s : S)
      → sync_all m (cons w ws) e s ≡ sync_all m ws (m.append e (sync m w s).0) (sync m w s).1
  unfolding sync_all
  sync_all-cons w ws e s = refl

  write_all-outcomes :
      (ws : WriteSyncers S m.Error) (p : Bytes) (c : ℕ) (e : Option m.Error) (s : S)
      → ((write_all m ws p c e s).2 ≡ (outcomes ws p s).1)
        × (((write_all m ws p c e s).1 ≡ none)
            ↔ ((e ≡ none) × All (λ o. o.1 ≡ none) (outcomes ws p s).0))
        × ((write_all m ws p c e s).0 ≡ foldl count_written c (map (λ o. o.0) (outcomes ws p s).0))
  write_all-outcomes nil p c e s = unfold write_all in (refl, (λ h. (h, tt), λ h. h.0), refl)
  write_all-outcomes (cons w ws) p c e s =
      let (n, e', s') = write m w p s in
      let (state, errors, count) = write_all-outcomes ws p (count_written c n) (m.append e e') s' in
      let (split, join) = append-none_iff m e e' (All (λ o. o.1 ≡ none) (outcomes ws p s').0) in
      rw write_all-cons (state, (λ h. split (errors.0 h), λ h. errors.1 (join h)), count)

  sync_all-outcomes :
      (ws : WriteSyncers S m.Error) (e : Option m.Error) (s : S)
      → ((sync_all m ws e s).1 ≡ (sync_outcomes ws s).1)
        × (((sync_all m ws e s).0 ≡ none)
            ↔ ((e ≡ none) × All (λ o. o ≡ none) (sync_outcomes ws s).0))
  sync_all-outcomes nil e s = unfold sync_all in (refl, (λ h. (h, tt), λ h. h.0))
  sync_all-outcomes (cons w ws) e s =
      let (e', s') = sync m w s in
      let (state, errors) = sync_all-outcomes ws (m.append e e') s' in
      let (split, join) = append-none_iff m e e' (All (λ o. o ≡ none) (sync_outcomes ws s').0) in
      rw sync_all-cons (state, (λ h. split (errors.0 h), λ h. errors.1 (join h)))

  -- `multiWriteSyncer.Write` writes to every destination in order, also after a failure, and
  -- returns a nil error exactly when all of them did.
  pub write-multi :
      (ws : WriteSyncers S m.Error) (p : Bytes) (s : S)
      → ((write m (multi ws) p s).2 ≡ (outcomes ws p s).1)
        × (((write m (multi ws) p s).1 ≡ none) ↔ All (λ o. o.1 ≡ none) (outcomes ws p s).0)
  unfolding write
  write-multi ws p s =
      let (state, errors, _) = write_all-outcomes ws p 0 none s in
      (state, (λ h. (errors.0 h).1, λ h. errors.1 (refl, h)))

  -- `multiWriteSyncer.Sync` syncs every destination in order, also after a failure, and returns a
  -- nil error exactly when all of them did.
  pub sync-multi :
      (ws : WriteSyncers S m.Error) (s : S)
      → ((sync m (multi ws) s).1 ≡ (sync_outcomes ws s).1)
        × (((sync m (multi ws) s).0 ≡ none) ↔ All (λ o. o ≡ none) (sync_outcomes ws s).0)
  unfolding sync
  sync-multi ws s =
      let (state, errors) = sync_all-outcomes ws none s in
      (state, (λ h. (errors.0 h).1, λ h. errors.1 (refl, h)))

  abbrev pub counts : WriteSyncers S m.Error → Bytes → S → List ℕ
  counts ws p s = map (λ o. o.0) (outcomes ws p s).0

count_written-min : (c n : ℕ) → 0 < c → count_written c n ≡ min c n
unfolding count_written
count_written-min c n h = ground arith

-- From a positive count on, over positive counts, the loop keeps the least.
foldl-count_written :
    (c : ℕ) (ns : List ℕ)
    → 0 < c
    → All (λ n. 0 < n) ns
    → IsLeastOf (foldl count_written c ns) (c ∷ ns)
foldl-count_written c [] pos all = ((omega arith, tt), inl refl)
foldl-count_written c (n ∷ ns) pos (hn, all) =
    let ih =
      foldl-count_written (count_written c n) ns (omega (arith, count_written-min c n pos)) all in
    (
      (
        omega (arith, ih.0.0, count_written-min c n pos),
        (omega (arith, ih.0.0, count_written-min c n pos), ih.0.1),
      ),
      elim ih.1 [ inl e ↦ ground (arith, count_written-min c n pos) | inr rest ↦ inr (inr rest) ],
    )

-- Where a destination writes nothing and the next one writes something, the count starts anew.
count_written-zero : (c n : ℕ) → n ≢ 0 → count_written (count_written c 0) n ≡ n
unfolding count_written
count_written-zero c n h = ground arith

count_written-zero_left : (n : ℕ) → count_written 0 n ≡ n
unfolding count_written
count_written-zero_left n = ground arith

module _ (m : Multierr) {S : Type 0} where
  count-write-multi :
      (ws : WriteSyncers S m.Error) (p : Bytes) (s : S)
      → (write m (multi ws) p s).0 ≡ foldl count_written 0 (counts m ws p s)
  unfolding write
  count-write-multi ws p s = (write_all-outcomes m ws p 0 none s).2

  -- `multiWriteSyncer.Write` returns the least of the counts that the destinations return, where
  -- there is a destination and each count is positive.
  pub write-multi_least :
      (ws : WriteSyncers S m.Error) (p : Bytes) (s : S)
      → ws ≢ nil
      → All (λ n. 0 < n) (counts m ws p s)
      → IsLeastOf (write m (multi ws) p s).0 (counts m ws p s)
  write-multi_least nil p s h all = absurd (h refl)
  write-multi_least (cons w ws) p s h (first, all) =
      let (n, e, s') = write m w p s in
      subst (λ r. IsLeastOf r (counts m (cons w ws) p s))
        (sym (
          count-write-multi (cons w ws) p s
          ∙ ap (λ c. foldl count_written c (counts m ws p s')) (count_written-zero_left n)))
        (foldl-count_written n (counts m ws p s') first all)

  -- A destination that writes 0 bytes is forgotten: where after it every destination writes some
  -- bytes, and there is one at least, `multiWriteSyncer.Write` returns the least of the counts after
  -- it, whatever the ones before it return.
  pub write-multi_zero_forgotten :
      (ws : WriteSyncers S m.Error) (p : Bytes) (s : S) (ns later : List ℕ) (n : ℕ)
      → 0 < n
      → All (λ k. 0 < k) later
      → counts m ws p s ≡ ns ++ 0 ∷ n ∷ later
      → IsLeastOf (write m (multi ws) p s).0 (n ∷ later)
  write-multi_zero_forgotten ws p s ns later n pos all e =
      subst (λ r. IsLeastOf r (n ∷ later))
        (sym (
          rw (count-write-multi, e, foldl-append)
            (ap (λ c. foldl count_written c later) (count_written-zero _ n (λ z. omega arith)))))
        (foldl-count_written n later pos all)
