-- ===== src/Logger/Stacks.antt =====
-- internal/stacktrace/stack.go: capturing of stacks, and their texts.
use buffer_full_flush_once.Common.{
  ℕ, zero, suc, ◌+◌, ◌*◌, ◌==◌, ◌≤◌, ◌<◌, ◌≡◌, Bool, true, false, List, [], ◌∷◌, ◌++◌, arith,
  if◌then◌else◌, take, length, length-take, refl, ap, ◌∙◌, inl, inr, Bool-cases,
}
use buffer_full_flush_once.Common.Int.{ℤ, pos, ◌+ℤ◌}
use buffer_full_flush_once.Common.Bytes.{Bytes}
use buffer_full_flush_once.Logger.{Runtime, Frame, format_frame, format_stack}

-- `FormatStack` of a new formatter: the frames but for the last.
unfoldable pub format_whole : Runtime → List Frame → Bytes
format_whole rt [] = []
format_whole rt (frame ∷ []) = []
format_whole rt (frame ∷ next ∷ frames) =
    format_frame rt false frame ++ format_stack rt (next ∷ frames)

-- `Take`.
unfoldable pub take_trace : Runtime → ℤ → Bytes
take_trace rt skip = format_whole rt (rt.capture (skip +ℤ pos 1) true).frames

-- `runtime.Callers`, by the program counters that it writes into a slice with room for a number of
-- them: those of the stack without the skipped ones, as far as there is room.
pub record Callers : Type 0 where
  pub callers : ℤ → ℕ → List ℕ
  pub whole : ℤ → List ℕ
  pub callers-take : (skip : ℤ) (room : ℕ) → callers skip room ≡ take room (whole skip)

-- The length of the storage that is allocated at first.
abbrev pub first_storage : ℕ
first_storage = 64

module _ (c : Callers) where
  -- The loop of `Capture`, on fuel: the length of the storage, and the program counters.
  unfoldable pub grow : ℕ → ℤ → ℕ → List ℕ → ℕ × List ℕ
  grow zero skip room pcs = (room, pcs)
  grow (suc k) skip room pcs =
      let rest = grow k skip (room * 2) (c.callers skip (room * 2)) in
      if length pcs == room then rest else (room, pcs)

  -- `Capture`, with a stack from the pool whose storage has the length `storage`; `full` is the depth
  -- Full.
  unfoldable pub capture_pcs : ℕ → ℤ → Bool → ℕ → ℕ × List ℕ
  capture_pcs fuel skip true storage =
      grow fuel (skip +ℤ pos 2) storage (c.callers (skip +ℤ pos 2) storage)
  capture_pcs fuel skip false storage = (storage, c.callers (skip +ℤ pos 2) 1)

  take-eq_self : (n : ℕ) (xs : List ℕ) → length xs ≤ n → take n xs ≡ xs
  take-eq_self zero [] h = refl
  take-eq_self zero (x ∷ xs) h = absurd (omega arith)
  take-eq_self (suc n) [] h = refl
  take-eq_self (suc n) (x ∷ xs) h = ap (λ ys. x ∷ ys) (take-eq_self n xs (omega arith))

  take_short : (n : ℕ) (xs : List ℕ) → (length (take n xs) == n) ≡ false → length xs < n
  take_short n xs e = let size = length-take n xs in ground arith

  grow-whole :
      (fuel : ℕ) (skip : ℤ) (room : ℕ)
      → 1 ≤ room
      → length (c.whole skip) < room + fuel
      → let (room', pcs) = grow fuel skip room (c.callers skip room) in
        (pcs ≡ c.whole skip) × (length pcs < room')
  unfolding grow
  grow-whole zero skip room some_room enough =
      let all = c.callers-take skip room ∙ take-eq_self room (c.whole skip) (omega arith) in
      (all, rw all (omega arith))
  grow-whole (suc k) skip room some_room enough =
      elim (Bool-cases (length (c.callers skip room) == room)) [
        | inl e ↦ rw e (grow-whole k skip (room * 2) (omega arith) (omega arith))
        | inr e ↦
            (let taken = c.callers-take skip room in
              let short = take_short room (c.whole skip) (rw (← taken) e) in
              let all = taken ∙ take-eq_self room (c.whole skip) (omega arith) in
              rw e (all, rw all short))
      ]

  -- Where the pool's storage has room for a program counter at least, the loop of a full capture
  -- ends after at most as many rounds as the stack has frames, with all program counters of the
  -- stack; and the storage that then goes back to the pool has room for more than these.
  pub capture_pcs-whole :
      (fuel : ℕ) (skip : ℤ) (storage : ℕ)
      → 1 ≤ storage
      → length (c.whole (skip +ℤ pos 2)) ≤ fuel
      → let (storage', pcs) = capture_pcs fuel skip true storage in
        (pcs ≡ c.whole (skip +ℤ pos 2)) × (length pcs < storage')
  unfolding capture_pcs
  capture_pcs-whole fuel skip storage some_room enough =
      grow-whole fuel (skip +ℤ pos 2) storage some_room (omega arith)
