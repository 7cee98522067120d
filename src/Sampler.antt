-- ===== src/Sampler.antt =====
-- zapcore/sampler.go: the counters that a sampler keeps for each level and message, and the decision
-- that it takes on a count.
pub mod Decision
pub mod Race
pub mod Window
mod Tests
use Prim.Native.Nat.{bit_xor}
use buffer_full_flush_once.Common.{
  ℕ, zero, suc, ◌+◌, ◌-◌, ◌*◌, ◌%◌, ◌^◌, Bool, true, false, not, ◌&&◌, ◌||◌, List, [], ◌∷◌, ltb,
  ◌==◌, if◌then◌else◌,
}
use buffer_full_flush_once.Common.Int.{ℤ, pos, pos_part, ◌+ℤ◌, ltb_ℤ, eqb_ℤ, wrap}
use buffer_full_flush_once.Common.Bytes.{Bytes}

abbrev pub counters_per_level : ℕ
counters_per_level = 4096

-- `counter`: the atomic values of its two fields.
pub record Counter : Type 0 where
  pub reset_at : ℤ
  pub counter : ℕ

-- `counters`, by the index of the level and the hash of the message; and `newCounters`.
abbrev pub Counters : Type 0
Counters = ℕ → ℕ → Counter

abbrev pub new_counters : Counters
new_counters i j = record { reset_at = pos 0; counter = 0 }

-- The loop of `fnv32a`.
fnv_loop : Bytes → ℕ → ℕ
fnv_loop [] hash = hash
fnv_loop (c ∷ s) hash = fnv_loop s (bit_xor hash c * 16777619 % 2 ^ 32)

unfoldable pub fnv32a : Bytes → ℕ
unfolding fnv_loop
fnv32a s = fnv_loop s 2166136261

-- The indices of `counters.get`, for a supported level.
unfoldable pub level_index : ℤ → ℕ
level_index lvl = pos_part (lvl +ℤ pos 1)

unfoldable pub bucket : Bytes → ℕ
bucket key = fnv32a key % counters_per_level

-- `counter.Add(1)` on a uint64, with the new value.
abbrev pub add_one : Counter → ℕ × Counter
add_one c = let n = (c.counter + 1) % 2 ^ 64 in (n, record c { counter = n })

-- `resetAt.CompareAndSwap`.
abbrev pub compare_and_swap : Counter → ℤ → ℤ → Bool × Counter
compare_and_swap c old new =
    if eqb_ℤ c.reset_at old then (true, record c { reset_at = new }) else (false, c)

abbrev pub swapped : Bool × Counter → ℕ × Counter
swapped (true, c) = (1, c)
swapped (false, c) = add_one c

-- `IncCheckReset` at the time `tn`, with no other goroutine between its steps.
unfoldable pub inc_check_reset : Counter → ℤ → ℤ → ℕ × Counter
inc_check_reset c tn tick =
    if ltb_ℤ tn c.reset_at
    then add_one c
    else (let reset = record c { counter = 1 } in
        swapped (compare_and_swap reset c.reset_at (wrap 63 (tn +ℤ tick))))

-- Whether `sampler.Check` drops the entry with the count `n`: `n - s.first` is not negative there.
unfoldable pub drops : ℕ → ℕ → ℕ → Bool
drops first thereafter n =
    ltb first n && ((thereafter == 0) || not (((n - first) % thereafter) == 0))

-- The counts at calls at the times `ts`, in order.
unfoldable pub counts_at : List ℤ → ℤ → Counter → List ℕ
counts_at [] tick c = []
counts_at (t ∷ ts) tick c = let (n, c') = inc_check_reset c t tick in n ∷ counts_at ts tick c'

-- How many of the counts are not dropped.
unfoldable pub kept : ℕ → ℕ → List ℕ → ℕ
kept first thereafter [] = 0
kept first thereafter (n ∷ ns) =
    let rest = kept first thereafter ns in if drops first thereafter n then rest else rest + 1
