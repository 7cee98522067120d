-- ===== src/Entry/Paths.antt =====
-- zapcore/entry.go: the texts of a caller. `strconv.AppendInt` is a parameter.
use buffer_full_flush_once.Common.{
  ℕ, suc, ◌+◌, ◌==◌, ==_iff, length, arith, ◌≡◌, refl, ap, sym, ◌∙◌, Bool, true, false, Option,
  none, some, [], ◌∷◌, ◌++◌, append_assoc, if◌then◌else◌, take, drop,
}
use buffer_full_flush_once.Common.Int.{ℤ, pos}
use buffer_full_flush_once.Common.Bytes.{Bytes, codes}
use buffer_full_flush_once.Entry.{EntryCaller}

-- `NewEntryCaller`.
unfoldable pub new_entry_caller : ℕ → Bytes → ℤ → Bool → EntryCaller
new_entry_caller pc file line ok =
    if ok
    then record { defined = true; pc = pc; file = file; line = line; function = [] }
    else record { defined = false; pc = 0; file = []; line = pos 0; function = [] }

-- `strings.LastIndexByte`.
abbrev pub last_index : ℕ → Bytes → Option ℕ
last_index b [] = none
last_index b (c ∷ s) = elim (last_index b s) [
  | some i ↦ some (i + 1)
  | none ↦ if c == b then some 0 else none
]

abbrev pub slash : ℕ
slash = 47

module _ (int_text : ℤ → Bytes) where
  -- A file and a line, as both paths write them.
  unfoldable pub file_line : Bytes → ℤ → Bytes
  file_line file line = file ++ (codes ":" ++ int_text line)

  unfoldable pub full_path : EntryCaller → Bytes
  full_path ec = if ec.defined then file_line ec.file ec.line else codes "undefined"

  -- `EntryCaller.String`.
  unfoldable pub caller_string : EntryCaller → Bytes
  caller_string ec = full_path ec

  -- The end of `TrimmedPath`, with the index of the penultimate separator.
  unfoldable pub after_penultimate : EntryCaller → Option ℕ → Bytes
  after_penultimate ec none = full_path ec
  after_penultimate ec (some i) = file_line (drop (i + 1) ec.file) ec.line

  -- Its middle, with the index of the last separator.
  unfoldable pub after_last : EntryCaller → Option ℕ → Bytes
  after_last ec none = full_path ec
  after_last ec (some i) = after_penultimate ec (last_index slash (take i ec.file))

  unfoldable pub trimmed_path : EntryCaller → Bytes
  trimmed_path ec =
      if ec.defined then after_last ec (last_index slash ec.file) else codes "undefined"

take-length : (xs ys : Bytes) → take (length xs) (xs ++ ys) ≡ xs
take-length [] ys = refl
take-length (x ∷ xs) ys = ap (λ l. x ∷ l) (take-length xs ys)

drop-suc-length : (xs ys : Bytes) (b : ℕ) → drop (suc (length xs)) (xs ++ (b ∷ ys)) ≡ ys
drop-suc-length [] ys b = refl
drop-suc-length (x ∷ xs) ys b = drop-suc-length xs ys b

drop-length : (xs ys : Bytes) (b : ℕ) → drop (length xs + 1) (xs ++ (b ∷ ys)) ≡ ys
drop-length xs ys b =
    let next : length xs + 1 ≡ suc (length xs) = (omega arith) in rw next (drop-suc-length xs ys b)

last_index-length :
    (b : ℕ) (xs ys : Bytes)
    → last_index b ys ≡ none
    → last_index b (xs ++ (b ∷ ys)) ≡ some (length xs)
last_index-length b [] ys h = rw (h, (==_iff b b).1 refl) refl
last_index-length b (x ∷ xs) ys h = rw (last_index-length b xs ys h) (ap some (omega arith))

-- Of a file in a directory that is in another one, the trimmed path has the leaf directory, the file
-- and the line: neither the leaf's name nor the file's has a separator.
pub trimmed_path-leaf :
    (int_text : ℤ → Bytes) (ec : EntryCaller) (dir leaf base : Bytes)
    → ec.defined ≡ true
    → ec.file ≡ dir ++ (slash ∷ (leaf ++ (slash ∷ base)))
    → last_index slash leaf ≡ none
    → last_index slash base ≡ none
    → trimmed_path int_text ec ≡ file_line int_text (leaf ++ (slash ∷ base)) ec.line
unfolding trimmed_path after_last after_penultimate
trimmed_path-leaf int_text ec dir leaf base defined file leaf_h base_h =
    let parent : Bytes = dir ++ (slash ∷ leaf) in
    let shape : ec.file ≡ parent ++ (slash ∷ base) =
      file ∙ sym (append_assoc dir (slash ∷ leaf) (slash ∷ base)) in
    let last : last_index slash ec.file ≡ some (length parent) =
      rw shape (last_index-length slash parent base base_h) in
    let before : take (length parent) ec.file ≡ parent =
      rw shape (take-length parent (slash ∷ base)) in
    let penultimate = last_index-length slash dir leaf leaf_h in
    let rest : drop (length dir + 1) ec.file ≡ leaf ++ (slash ∷ base) =
      rw file (drop-length dir (leaf ++ (slash ∷ base)) slash) in
    rw (defined, last, before, penultimate, rest) refl
