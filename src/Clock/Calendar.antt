-- ===== src/Clock/Calendar.antt =====
-- The Gregorian calendar by its leap rule: the specification of `civil_from_days`.
use tex_attestation_server.Prelude.{
  ℕ, zero, suc, ◌+◌, ◌-◌, ◌*◌, ◌/◌, ◌%◌, ◌≤◌, ◌≡◌, refl, Bool, not, ◌&&◌, ◌||◌, arith, ◌==◌,
  if◌then◌else◌,
}

unfoldable pub is_leap : ℕ → Bool
is_leap y = (y % 4 == 0) && (not (y % 100 == 0) || (y % 400 == 0))

abbrev pub leap_day : ℕ → ℕ
leap_day y = if is_leap y then 1 else 0

unfoldable pub days_in_month : ℕ → ℕ → ℕ
days_in_month y m =
    if m == 2
    then 28 + leap_day y
    else if (m == 4) || (m == 6) || (m == 9) || (m == 11)
    then 30
    else 31

-- The days from 1 January of year 0 to 1 January of year `y`.
unfoldable pub days_before_year : ℕ → ℕ
days_before_year zero = 0
days_before_year (suc y) = days_before_year y + (365 + leap_day y)

-- The days of the year in front of month `m`.
unfoldable pub days_before_month : ℕ → ℕ → ℕ
days_before_month y zero = 0
days_before_month y (suc zero) = 0
days_before_month y (suc (suc m)) = days_before_month y (suc m) + days_in_month y (suc m)

unfoldable pub day_number : ℕ → ℕ → ℕ → ℕ
day_number y m d = days_before_year y + days_before_month y m + (d - 1)

pub record IsDate (y m d : ℕ) : Type 0 where
  pub month_in : (1 ≤ m) × (m ≤ 12)
  pub day_in : (1 ≤ d) × (d ≤ days_in_month y m)

-- The leap days from March of year 0 to March of year `y`.
abbrev pub leaps : ℕ → ℕ
leaps y = y / 4 - y / 100 + y / 400

pub leaps-suc : (y : ℕ) → leaps (suc y) ≡ leaps y + leap_day (suc y)
unfolding is_leap
leaps-suc y = ground arith

-- 1 March of year `y`, by the closed formula.
pub march : (y : ℕ) → days_before_year y + 59 + leap_day y ≡ 60 + 365 * y + leaps y
unfolding days_before_year
march zero = unfold is_leap in refl
march (suc y) = omega (arith, march y, leaps-suc y)
