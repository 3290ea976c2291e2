-- ===== src/Cron/Exact.antt =====
-- services/cron.go, parseCronField: the values that a field allows are those its parts denote.
use talepanel.Base.{
  ℕ, ℤ, pos, pos_part, ◌+◌, ◌*◌, ◌<◌, ◌≤◌, ◌≡◌, ◌∙◌, refl, ap, ap₂, subst, sym, Bool, true, false,
  ◌||◌, ◌&&◌, none, some, List, [], ◌∷◌, ltb, ◌⊎◌, inl, inr, arith, Bool-cases, Text, split,
  Option-cases, ◌↔◌, all,
}
use talepanel.Cron.Field.{
  values, allows, Span, span_values, parse_part, parse_parts, parse_cron_field, field_fuel,
}
use talepanel.Cron.Values.{values-inv, values-allow, allows-append}
use talepanel.Cron.Within.{parse_part-IsWithin}

-- A part denotes lo, lo + step, lo + 2 * step and so on, up to hi.
abbrev pub Denotes : ℕ → ℕ → ℤ → Text → Type 0
Denotes min max v part =
    (s : Span) × (a : ℕ) × (b : ℕ) × (k : ℕ) × (parse_part min max part ≡ some s)
    × (s.lo ≡ pos a)
    × (s.hi ≡ pos b)
    × (v ≡ pos (a + k * s.step))
    × (a + k * s.step ≤ b)

abbrev pub SomePart : (Text → Type 0) → List Text → Type 0
SomePart P [] = false ≡ true
SomePart P (part ∷ parts) = P part ⊎ SomePart P parts

-- The step of a part that parses, so small that the loop's `v += step` stays within an int64.
abbrev pub small_step : ℕ → ℕ → Text → Bool
small_step min max part = elim (parse_part min max part) [
  | none ↦ true
  | some s ↦ ltb s.step 9223372036854775680
]

span_values-eq :
    (s : Span) (a b : ℕ)
    → s.lo ≡ pos a
    → s.hi ≡ pos b
    → span_values s ≡ values field_fuel (pos a) (pos b) s.step
span_values-eq s a b is_a is_b = ap₂ (λ x y. values field_fuel x y s.step) is_a is_b

span_values-denoted :
    (min max : ℕ) (part : Text) (s : Span) (v : ℤ)
    → max < 128
    → parse_part min max part ≡ some s
    → small_step min max part ≡ true
    → allows (span_values s) v ≡ true
    → Denotes min max v part
span_values-denoted min max part s v narrow parses small allowed =
    let (a, b, is_a, is_b, low, order, high, positive) =
      parse_part-IsWithin min max part s parses in
    let small_sum : ltb s.step 9223372036854775680 ≡ true = ground arith in
    let (k, is_v, early) =
      values-inv field_fuel a b s.step v (ground arith)
        (subst (λ vs. allows vs v ≡ true) (span_values-eq s a b is_a is_b) allowed) in
    (s, a, b, k, parses, is_a, is_b, is_v, early)

rounds_enough : (a k step b : ℕ) → 1 ≤ step → a + k * step ≤ b → b < 128 → k < 128
rounds_enough a k step b positive early narrow = grind arith

span_values-allow :
    (min max : ℕ) (part : Text) (s : Span) (v : ℤ)
    → max < 128
    → parse_part min max part ≡ some s
    → small_step min max part ≡ true
    → Denotes min max v part
    → allows (span_values s) v ≡ true
span_values-allow min max part s v narrow parses small
      (s2, a, b, k, parses2, is_a, is_b, is_v, early) =
    let (c, d, is_c, is_d, low, order, high, positive) =
      parse_part-IsWithin min max part s2 parses2 in
    let small_sum : ltb s2.step 9223372036854775680 ≡ true = ground arith in
    let same_bound : b ≡ d = ap pos_part (sym is_b ∙ is_d) in
    let allowed2 : allows (span_values s2) (pos (a + k * s2.step)) ≡ true =
      subst (λ vs. allows vs (pos (a + k * s2.step)) ≡ true) (sym (span_values-eq s2 a b is_a is_b))
        (values-allow field_fuel a b s2.step k (a + k * s2.step) (ground arith)
          (rounds_enough a k s2.step b positive early (omega (arith, same_bound))) refl early) in
    cc (allowed2, is_v, parses, parses2)

parse_parts-split :
    (min max : ℕ) (part : Text) (parts : List Text) (set : List ℤ) (v : ℤ) (s : Span) (vs : List ℤ)
    → parse_parts min max (part ∷ parts) ≡ some set
    → parse_part min max part ≡ some s
    → parse_parts min max parts ≡ some vs
    → allows set v ≡ (allows (span_values s) v || allows vs v)
unfolding parse_parts
parse_parts-split min max part parts set v s vs parses is_s is_vs =
    ground (arith, allows-append (span_values s) vs v)

and_left : (a b : Bool) → (a && b) ≡ true → a ≡ true
and_left a b h = ground arith

and_right : (a b : Bool) → (a && b) ≡ true → b ≡ true
and_right a b h = ground arith

or_right : (a b c : Bool) → a ≡ (b || c) → c ≡ true → a ≡ true
or_right a b c is_or h = ground arith

or_left : (a b c : Bool) → a ≡ (b || c) → b ≡ true → a ≡ true
or_left a b c is_or h = ground arith

parse_parts-Denotes :
    (min max : ℕ) (parts : List Text) (set : List ℤ) (v : ℤ)
    → max < 128
    → parse_parts min max parts ≡ some set
    → all (small_step min max) parts ≡ true
    → allows set v ≡ true
    → SomePart (Denotes min max v) parts
unfolding parse_parts
parse_parts-Denotes min max [] set v narrow parses small allowed = ground arith
parse_parts-Denotes min max (part ∷ parts) set v narrow parses small allowed =
    elim (Option-cases (parse_part min max part)) [
      | inl bad_part ↦ ground arith
      | inr (s, is_s) ↦ elim (Option-cases (parse_parts min max parts)) [
        | inl bad_rest ↦ ground arith
        | inr (vs, is_vs) ↦ elim (Bool-cases (allows (span_values s) v)) [
          | inl here ↦ inl (span_values-denoted min max part s v narrow is_s (ground arith) here)
          | inr not_here ↦ inr (
              parse_parts-Denotes min max parts vs v narrow is_vs (ground arith)
                (ground (arith, allows-append (span_values s) vs v)))
        ]
      ]
    ]

parse_parts-allows :
    (min max : ℕ) (parts : List Text) (set : List ℤ) (v : ℤ)
    → max < 128
    → parse_parts min max parts ≡ some set
    → all (small_step min max) parts ≡ true
    → SomePart (Denotes min max v) parts
    → allows set v ≡ true
unfolding parse_parts
parse_parts-allows min max [] set v narrow parses small denoted = ground arith
parse_parts-allows min max (part ∷ parts) set v narrow parses small denoted =
    elim (Option-cases (parse_part min max part)) [
      | inl bad_part ↦ ground arith
      | inr (s, is_s) ↦ elim (Option-cases (parse_parts min max parts)) [
        | inl bad_rest ↦ ground arith
        | inr (vs, is_vs) ↦ elim denoted [
          | inl here ↦
              or_left (allows set v) (allows (span_values s) v) (allows vs v)
                (parse_parts-split min max part parts set v s vs parses is_s is_vs)
                (span_values-allow min max part s v narrow is_s (and_left _ _ small) here)
          | inr in_rest ↦
              or_right (allows set v) (allows (span_values s) v) (allows vs v)
                (parse_parts-split min max part parts set v s vs parses is_s is_vs)
                (parse_parts-allows min max parts vs v narrow is_vs (and_right _ _ small) in_rest)
        ]
      ]
    ]

-- If a field parses and each of its steps is less than 2^63 - 128, then the values that it allows
-- are exactly those that one of its comma-separated parts denotes: lo + k * step up to hi.
pub parse_cron_field-exact :
    (field : Text) (min max : ℕ) (set : List ℤ) (v : ℤ)
    → max < 128
    → parse_cron_field field min max ≡ some set
    → all (small_step min max) (split field b',') ≡ true
    → (allows set v ≡ true) ↔ SomePart (Denotes min max v) (split field b',')
unfolding parse_cron_field
parse_cron_field-exact field min max set v narrow parses small = (
  parse_parts-Denotes min max (split field b',') set v narrow parses small,
  parse_parts-allows min max (split field b',') set v narrow parses small,
)

SomePart-within :
    (min max : ℕ) (v : ℤ) (parts : List Text)
    → SomePart (Denotes min max v) parts
    → (n : ℕ) × (v ≡ pos n) × (min ≤ n) × (n ≤ max)
SomePart-within min max v [] denoted = ground arith
SomePart-within min max v (part ∷ parts) (inr in_rest) = SomePart-within min max v parts in_rest
SomePart-within min max v (part ∷ parts) (inl (s, a, b, k, parses, is_a, is_b, is_v, early)) =
    let (c, d, is_c, is_d, low, order, high, positive) =
      parse_part-IsWithin min max part s parses in
    let lower : a ≡ c = ap pos_part (sym is_a ∙ is_c) in
    let upper : b ≡ d = ap pos_part (sym is_b ∙ is_d) in
    (a + k * s.step, is_v, omega (arith, lower, upper), omega (arith, lower, upper))

-- If a field parses and each of its steps is less than 2^63 - 128, then it allows no value outside
-- the range that the caller gives for it.
pub parse_cron_field-within :
    (field : Text) (min max : ℕ) (set : List ℤ) (v : ℤ)
    → max < 128
    → parse_cron_field field min max ≡ some set
    → all (small_step min max) (split field b',') ≡ true
    → allows set v ≡ true
    → (n : ℕ) × (v ≡ pos n) × (min ≤ n) × (n ≤ max)
parse_cron_field-within field min max set v narrow parses small allowed =
    SomePart-within min max v (split field b',')
      ((parse_cron_field-exact field min max set v narrow parses small).0 allowed)
