-- ===== src/Cron/Values.antt =====
-- services/cron.go, parseCronField: the loop over the values of one part, for steps that an int64 holds.
use talepanel.Base.{
  ℕ, zero, suc, ℤ, pos, negsuc, eqb_ℤ, ◌+◌, ◌*◌, ◌<◌, ◌≤◌, ◌≡◌, ◌∙◌, refl, ap, true, ◌||◌, ◌++◌,
  List, [], ◌∷◌, ltb, inl, inr, arith, Bool-cases,
}
use talepanel.Cron.Field.{add_int64, values, allows}

pub allows-append : (xs ys : List ℤ) (v : ℤ) → allows (xs ++ ys) v ≡ (allows xs v || allows ys v)
allows-append [] ys v = refl
allows-append (x ∷ xs) ys v = ground (arith, allows-append xs ys v)

add_int64-small :
    (n step : ℕ) → n + step < 9223372036854775808 → add_int64 (pos n) step ≡ pos (n + step)
unfolding add_int64
add_int64-small n step small = ground arith

values-past : (fuel n h step : ℕ) → h < n → values fuel (pos n) (pos h) step ≡ []
unfolding values
values-past zero n h step past = refl
values-past (suc fuel) n h step past = ground arith

values-round :
    (fuel n h step : ℕ)
    → n ≤ h
    → h + step < 9223372036854775808
    → values (suc fuel) (pos n) (pos h) step ≡ pos n ∷ values fuel (pos (n + step)) (pos h) step
unfolding values
values-round fuel n h step before small = ground (arith, add_int64-small n step (omega arith))

eqb_ℤ→eq : (v : ℤ) (n : ℕ) → eqb_ℤ v (pos n) ≡ true → v ≡ pos n
eqb_ℤ→eq (pos m) n h = ap pos (ground arith)
eqb_ℤ→eq (negsuc m) n h = ground arith

-- The loop allows only v = n + k * step up to h.
pub values-inv :
    (fuel n h step : ℕ) (v : ℤ)
    → h + step < 9223372036854775808
    → allows (values fuel (pos n) (pos h) step) v ≡ true
    → (k : ℕ) × (v ≡ pos (n + k * step)) × (n + k * step ≤ h)
unfolding values
values-inv zero n h step v small allowed = ground arith
values-inv (suc fuel) n h step v small allowed = elim (Bool-cases (ltb h n)) [
  | inl past ↦ ground (arith, values-past (suc fuel) n h step (ground arith))
  | inr within ↦ elim (Bool-cases (eqb_ℤ v (pos n))) [
    | inl here ↦ (0, eqb_ℤ→eq v n here ∙ ap pos (omega arith), ground arith)
    | inr not_here ↦
        let (k, is_v, early) =
          values-inv fuel (n + step) h step v small
            (ground (arith, values-round fuel n h step (ground arith) small)) in
        (suc k, is_v ∙ ap pos (omega arith), omega arith)
  ]
]

-- The loop allows each v = n + k * step up to h, if it has rounds enough.
pub values-allow :
    (fuel n h step k v : ℕ)
    → h + step < 9223372036854775808
    → k < fuel
    → v ≡ n + k * step
    → v ≤ h
    → allows (values fuel (pos n) (pos h) step) (pos v) ≡ true
values-allow zero n h step k v small enough is_v early = ground arith
values-allow (suc fuel) n h step zero v small enough is_v early =
    ground (arith, values-round fuel n h step (omega (arith, is_v)) small)
values-allow (suc fuel) n h step (suc k) v small enough is_v early = ground (
  arith,
  values-round fuel n h step (omega (arith, is_v)) small,
  values-allow fuel (n + step) h step k v small (omega arith) (omega (arith, is_v)) early,
)
