-- ===== src/Cron/Within.antt =====
-- services/cron.go, parseCronField: a part that parses lies within the range of its field.
use talepanel.Base.{
  ℕ, ℤ, pos, negsuc, ltb_ℤ, ◌≤◌, ◌≡◌, ◌∙◌, refl, ap, subst, sym, false, ◌||◌, Option, none, some,
  inl, inr, arith, Bool-cases, Text, Option-cases,
}
use talepanel.Cron.Field.{in_range, stepped, spanned, bounds, positive_step, Span, parse_part}
use talepanel.Cron.Atoi.{atoi, cut}

-- The bounds of a part that parses lie in the field's range, in order, and its step is positive.
abbrev pub IsWithin : ℕ → ℕ → Span → Type 0
IsWithin min max s =
    (a : ℕ) × (b : ℕ) × (s.lo ≡ pos a)
    × (s.hi ≡ pos b)
    × (min ≤ a)
    × (a ≤ b)
    × (b ≤ max)
    × (1 ≤ s.step)

bounds_within :
    (min max : ℕ) (lo hi : ℤ)
    → (ltb_ℤ lo (pos min) || ltb_ℤ (pos max) hi || ltb_ℤ hi lo) ≡ false
    → (a : ℕ) × (b : ℕ) × (lo ≡ pos a) × (hi ≡ pos b) × (min ≤ a) × (a ≤ b) × (b ≤ max)
bounds_within min max (pos a) (pos b) fits =
    (a, b, refl, refl, ground arith, ground arith, ground arith)
bounds_within min max (pos a) (negsuc b) fits = ground arith
bounds_within min max (negsuc a) hi fits = ground arith

in_range-IsWithin :
    (min max step : ℕ) (o : Option (ℤ × ℤ)) (s : Span)
    → 1 ≤ step
    → in_range min max step o ≡ some s
    → IsWithin min max s
in_range-IsWithin min max step none s positive ranged = ground arith
in_range-IsWithin min max step (some (lo, hi)) s positive ranged =
    elim (Bool-cases (ltb_ℤ lo (pos min) || ltb_ℤ (pos max) hi || ltb_ℤ hi lo)) [
      | inl outside ↦ ground arith
      | inr fits ↦
          let (a, b, is_a, is_b, low, order, high) = bounds_within min max lo hi fits in
          let same_span : s ≡ record { lo = lo; hi = hi; step = step } = ground arith in
          (
            a,
            b,
            ap Span.lo same_span ∙ is_a,
            ap Span.hi same_span ∙ is_b,
            low,
            order,
            high,
            subst (λ n. 1 ≤ n) (sym (ap Span.step same_span)) positive,
          )
    ]

positive_step-positive : (o : Option ℤ) (n : ℕ) → positive_step o ≡ some n → 1 ≤ n
positive_step-positive none n is_n = ground arith
positive_step-positive (some (pos m)) n is_n = ground arith
positive_step-positive (some (negsuc m)) n is_n = ground arith

stepped-positive :
    (part range_part : Text) (o : Option (Text × Text)) (n : ℕ)
    → stepped part o ≡ some (range_part, n)
    → 1 ≤ n
stepped-positive part range_part none n is_n = ground arith
stepped-positive part range_part (some (before, after)) n is_n =
    elim (Option-cases (positive_step (atoi after))) [
      | inl bad_step ↦ ground arith
      | inr (m, is_m) ↦ ground (arith, positive_step-positive (atoi after) m is_m)
    ]

spanned-IsWithin :
    (min max : ℕ) (part : Text) (o : Option (Text × Text)) (s : Span)
    → spanned min max (stepped part o) ≡ some s
    → IsWithin min max s
spanned-IsWithin min max part o s parses = elim (Option-cases (stepped part o)) [
  | inl bad_step ↦ ground arith
  | inr ((range_part, n), is_n) ↦
      in_range-IsWithin min max n (bounds min max range_part) s
        (stepped-positive part range_part o n is_n) (ground arith)
]

pub parse_part-IsWithin :
    (min max : ℕ) (part : Text) (s : Span) → parse_part min max part ≡ some s → IsWithin min max s
unfolding parse_part
parse_part-IsWithin min max part s parses = spanned-IsWithin min max part (cut b'/' part) s parses
