-- ===== src/Multierr.antt =====
-- go.uber.org/multierr, which combines the errors of several calls: a parameter of the model.
use buffer_full_flush_once.Common.{◌≡◌, ◌≢◌, ◌↔◌, Option, none, some, arith}

-- A nil error is `none`. `append` is `multierr.Append`: a nil side counts for nothing, and two
-- errors combine into one.
pub record Multierr : Type 1 where
  pub Error : Type 0
  pub append : Option Error → Option Error → Option Error
  pub append-none_left : (e : Option Error) → append none e ≡ e
  pub append-none_right : (e : Option Error) → append e none ≡ e
  pub append-some : (a b : Error) → append (some a) (some b) ≢ none

module _ (m : Multierr) where
  pub append-eq-none : (a b : Option m.Error) → m.append a b ≡ none → (a ≡ none) × (b ≡ none)
  append-eq-none none b h = ground (arith, m.append-none_left b)
  append-eq-none (some a) none h = ground (arith, m.append-none_right (some a))
  append-eq-none (some a) (some b) h = absurd (m.append-some a b h)

  pub append-nones : (a b : Option m.Error) → a ≡ none → b ≡ none → m.append a b ≡ none
  append-nones a b h k = ground (arith, m.append-none_left b)

  pub append-none_iff :
      (a b : Option m.Error) (P : Type 0)
      → ((m.append a b ≡ none) × P) ↔ ((a ≡ none) × ((b ≡ none) × P))
  append-none_iff a b P = (
    λ h. let (ha, hb) = append-eq-none a b h.0 in (ha, (hb, h.1)),
    λ h. (append-nones a b h.0 h.1.0, h.1.1),
  )
