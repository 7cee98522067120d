-- ===== src/LineWriter/Lines.antt =====
-- The writer logs the complete lines of all the text that it was given, in whatever pieces.
use mathlib.Core.Path.{subst}
use buffer_full_flush_once.Common.{
  ℕ, zero, suc, ◌≤◌, ◌<◌, ◌≡◌, refl, ap, sym, ◌∙◌, inl, inr, ◌==◌, ==_iff, ◌⊎◌, Bool, true, false,
  Bool-cases, Option-cases, Option, none, some, List, [], ◌∷◌, ◌++◌, if◌then◌else◌, length,
  append-nil, append_assoc, arith,
}
use buffer_full_flush_once.Common.Bytes.{Bytes, is_empty}
use buffer_full_flush_once.Entry.{Outcome, returns}
use buffer_full_flush_once.Core.{Platform, core_enabled}
use buffer_full_flush_once.Logger.{Runtime}
use buffer_full_flush_once.LineWriter.{
  LineWriter, log_line, write_text, newline, cons_before, cut, did_return, write_line, write_loop,
  flush_line,
}

-- The complete lines of a text after some bytes of a line, and what is left after them.
abbrev pub lines : Bytes → Bytes → List Bytes × Bytes
lines [] buff = ([], buff)
lines (c ∷ text) buff =
    let next = lines text [] in
    let same = lines text (buff ++ (c ∷ [])) in
    if c == newline then (buff ∷ next.0, next.1) else same

-- The lines with their ends.
abbrev pub unlines : List Bytes → Bytes
unlines [] = []
unlines (line ∷ rest) = line ++ (newline ∷ unlines rest)

-- The lines logged, one after the other, up to one at which the logger does not return. What is in
-- the buffer then: `left` after the last line; where the first line does not return, that line, if
-- the buffer `held` a part of it.
abbrev pub log_complete :
    {S : Type 0} → (Bytes → S → Outcome × S) → Bytes → Bytes → List Bytes → S → Outcome × Bytes × S
log_complete log held left [] s = (returns, left, s)
log_complete log held left (line ∷ rest) s =
    let (o, s') = log line s in
    let later = log_complete log [] left rest s' in
    if did_return o then later else (o, (if is_empty held then [] else line), s')

-- The lines with their ends and what is left are the text: nothing is lost or changed.
pub unlines-lines :
    (text buff : Bytes) → unlines (lines text buff).0 ++ (lines text buff).1 ≡ buff ++ text
unlines-lines [] buff = sym (append-nil buff)
unlines-lines (c ∷ text) buff = elim (Bool-cases (c == newline)) [
  | inl end ↦
      rw (end, append_assoc, ← (==_iff c newline).0 end)
        (ap (λ t. buff ++ (c ∷ t)) (unlines-lines text []))
  | inr inside ↦ rw inside (unlines-lines text (buff ++ (c ∷ [])) ∙ append_assoc buff (c ∷ []) text)
]

cut_none :
    (b : Bool) (c : ℕ) (line : Bytes) (o : Option (Bytes × Bytes))
    → (if b then some ([], line) else cons_before c o) ≡ none
    → (b ≡ false) × (o ≡ none)
cut_none true c line o h = cc
cut_none false c line none h = (refl, refl)
cut_none false c line (some q) h = cc

cut_some :
    (b : Bool) (c : ℕ) (line : Bytes) (o : Option (Bytes × Bytes)) (before remaining : Bytes)
    → (if b then some ([], line) else cons_before c o) ≡ some (before, remaining)
    → ((b ≡ true) × (before ≡ []) × (remaining ≡ line))
      ⊎ ((b ≡ false) × (q : Bytes) × (o ≡ some (q, remaining)) × (before ≡ c ∷ q))
cut_some true c line o before remaining h = inl (refl, cc, cc)
cut_some false c line none before remaining h = cc
cut_some false c line (some (q, r)) before remaining h = inr (refl, q, cc, cc)

-- What a cut line is.
cut-none : (line buff : Bytes) → cut line ≡ none → lines line buff ≡ ([], buff ++ line)
unfolding cut
cut-none [] buff h = ap (λ b. ([], b)) (sym (append-nil buff))
cut-none (c ∷ line) buff h =
    let (inside, rest) = cut_none (c == newline) c line (cut line) h in
    rw inside
      (cut-none line (buff ++ (c ∷ [])) rest ∙ ap (λ b. ([], b)) (append_assoc buff (c ∷ []) line))

cut-some :
    (line before remaining buff : Bytes)
    → cut line ≡ some (before, remaining)
    → (lines line buff ≡ ((buff ++ before) ∷ (lines remaining []).0, (lines remaining []).1))
      × (length remaining < length line)
unfolding cut
cut-some [] before remaining buff h = cc
cut-some (c ∷ line) before remaining buff h =
    elim (cut_some (c == newline) c line (cut line) before remaining h) [
      | inl (end, empty, same) ↦ rw (end, empty, same, append-nil buff) (refl, (omega arith))
      | inr (inside, q, rest, more) ↦
          let (found, less) = cut-some line q remaining (buff ++ (c ∷ [])) rest in
          rw (inside, more)
            (
              (found
                  ∙ ap (λ b. (b ∷ (lines remaining []).0, (lines remaining []).1))
                      (append_assoc buff (c ∷ []) q)),
              (omega arith),
            )
    ]

lines-append :
    (a b buff : Bytes)
    → let (first, rest) = lines a buff in
      let (later, left) = lines b rest in lines (a ++ b) buff ≡ (first ++ later, left)
lines-append [] b buff = refl
lines-append (c ∷ a) b buff = elim (Bool-cases (c == newline)) [
  | inl end ↦ rw end (ap (λ q. (buff ∷ q.0, q.1)) (lines-append a b []))
  | inr inside ↦ rw inside (lines-append a b (buff ++ (c ∷ [])))
]

module _ {S : Type 0} (log : Bytes → S → Outcome × S) where
  write_line-cut :
      (before remaining line buff : Bytes) (s : S)
      → let (o, s') = log (buff ++ before) s in
        write_line log (some (before, remaining)) line buff s ≡ (
          o,
          remaining,
          (if did_return o then [] else if is_empty buff then [] else (buff ++ before)),
          s',
        )
  unfolding write_line flush_line
  write_line-cut before remaining line [] s = elim (Bool-cases (did_return (log before s).0)) [
    | inl on ↦ rw on refl
    | inr off ↦ rw off refl
  ]
  write_line-cut before remaining line (b ∷ buff) s = refl

  -- As many rounds as there are bytes log every complete line, and leave the rest in the buffer.
  write_loop-lines :
      (k : ℕ) (bs buff : Bytes) (s : S)
      → length bs ≤ k
      → write_loop log k bs buff s ≡ log_complete log buff (lines bs buff).1 (lines bs buff).0 s
  unfolding write_loop write_line
  write_loop-lines zero [] buff s h = refl
  write_loop-lines zero (c ∷ bs) buff s h = absurd (omega arith)
  write_loop-lines (suc k) [] buff s h = refl
  write_loop-lines (suc k) (c ∷ bs) buff s h = elim (Option-cases (cut (c ∷ bs))) [
    | inl none_left ↦
        rw (none_left, cut-none (c ∷ bs) buff none_left)
          (write_loop-lines k [] (buff ++ (c ∷ bs)) s (omega arith))
    | inr ((before, remaining), e) ↦
        let (found, less) = cut-some (c ∷ bs) before remaining buff e in
        let logged = write_line-cut before remaining (c ∷ bs) buff s in
        let (o, s') = log (buff ++ before) s in
        let later = write_loop-lines k remaining [] s' (omega arith) in
        elim (Bool-cases (did_return o)) [
          | inl on ↦ rw (e, logged, found, on) later
          | inr off ↦ rw (e, logged, found, off) refl
        ]
  ]

  -- Where every line is logged, it makes no difference what the buffer held before.
  log_complete-held :
      (held held' left : Bytes) (ls : List Bytes) (s : S)
      → (log_complete log held left ls s).0 ≡ returns
      → log_complete log held' left ls s ≡ log_complete log held left ls s
  log_complete-held held held' left [] s h = refl
  log_complete-held held held' left (l ∷ ls) s h = elim (Bool-cases (did_return (log l s).0)) [
    | inl on ↦ rw on refl
    | inr off ↦ absurd (let stopped = rw off at h in cc)
  ]

  log_complete-append :
      (held mid left : Bytes) (xs ys : List Bytes) (s : S)
      → (log_complete log held left (xs ++ ys) s).0 ≡ returns
      → ((log_complete log held mid xs s).0 ≡ returns)
        × ((log_complete log held mid xs s).1 ≡ mid)
        × (log_complete log mid left ys (log_complete log held mid xs s).2
            ≡ log_complete log held left (xs ++ ys) s)
  log_complete-append held mid left [] ys s h = (refl, refl, log_complete-held held mid left ys s h)
  log_complete-append held mid left (x ∷ xs) ys s h = elim (Bool-cases (did_return (log x s).0)) [
    | inl on ↦ (let h' = rw on at h in rw on (log_complete-append [] mid left xs ys (log x s).1 h'))
    | inr off ↦ absurd (let stopped = rw off at h in cc)
  ]

-- Write, at an enabled level, logs every complete line of the text so far, in order, up to one at
-- which the logger does not return. Where it returns at all of them, Write returns the length of the
-- text and keeps what is left after them for the next call.
pub write_text-lines :
    (p : Platform) (rt : Runtime) (w : LineWriter p) (bs : Bytes) (s : p.State)
    → core_enabled w.log.core w.level s ≡ true
    → let (complete, left) = lines bs w.buff in
      let (o, buff, s') = log_complete (log_line p rt w) w.buff left complete s in
      write_text p rt w bs s ≡ (o, length bs, record w { buff = buff }, s')
unfolding write_text
write_text-lines p rt w bs s on =
    rw (on, write_loop-lines (log_line p rt w) (length bs) bs w.buff s (omega arith)) refl

abbrev text_written :
    {p : Platform}
    → LineWriter p
    → Bytes
    → Outcome × Bytes × p.State
    → Outcome × ℕ × LineWriter p × p.State
text_written w bs (o, buff, s) = (o, length bs, record w { buff = buff }, s)

-- It makes no difference how a text is cut into pieces for Write, where the level is enabled before
-- each, and the logger returns at every line of the whole: two calls return, log the same entries,
-- and leave the same writer, as one call with both pieces.
pub write_text-append :
    (p : Platform) (rt : Runtime) (w : LineWriter p) (a b : Bytes) (s : p.State)
    → core_enabled w.log.core w.level s ≡ true
    → core_enabled w.log.core w.level (write_text p rt w a s).3 ≡ true
    → (write_text p rt w (a ++ b) s).0 ≡ returns
    → let (o, _, w', s') = write_text p rt w a s in
      let second = write_text p rt w' b s' in
      let whole = write_text p rt w (a ++ b) s in
      (o ≡ returns) × (second.0 ≡ returns) × (second.2 ≡ whole.2) × (second.3 ≡ whole.3)
unfolding log_line
write_text-append p rt w a b s on still_on goes_on =
    let (complete, mid) = lines a w.buff in
    let (later, left) = lines b mid in
    let log = log_line p rt w in
    let first = write_text-lines p rt w a s on in
    let both =
      write_text-lines p rt w (a ++ b) s on
      ∙ ap (λ q. text_written w (a ++ b) (log_complete log w.buff q.1 q.0 s))
          (lines-append a b w.buff) in
    let all_logged : (log_complete log w.buff left (complete ++ later) s).0 ≡ returns =
      sym (ap (λ r. r.0) both) ∙ goes_on in
    let (returns_first, kept, rest) =
      log_complete-append log w.buff mid left complete later s all_logged in
    let s' = (log_complete log w.buff mid complete s).2 in
    let first' : write_text p rt w a s ≡ (returns, length a, record w { buff = mid }, s') =
      first ∙ rw (returns_first, kept) refl in
    let still_on' : core_enabled w.log.core w.level s' ≡ true =
      subst (λ r. core_enabled w.log.core w.level r.3 ≡ true) first' still_on in
    let second = write_text-lines p rt (record w { buff = mid }) b s' still_on' in
    rw (first', second, both, rest) (refl, all_logged, refl, refl)
