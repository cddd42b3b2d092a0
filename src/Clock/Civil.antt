-- ===== src/Clock/Civil.antt =====
-- `civil_from_days` against the calendar.
use tex_attestation_server.Prelude.{
  ℕ, zero, suc, ◌+◌, ◌-◌, ◌*◌, ◌/◌, ◌%◌, ◌≤◌, ◌<◌, ◌≡◌, refl, ◌∙◌, true, arith, ltb, leb,
  if◌then◌else◌,
}
use tex_attestation_server.Prelude.Int.{pos, ◌+ℤ◌, ◌-ℤ◌, scale, div_trunc, is_nonneg}
use tex_attestation_server.Clock.{civil_from_days}
use tex_attestation_server.Clock.Calendar.{
  is_leap, leap_day, days_in_month, days_before_year, days_before_month, day_number, IsDate, leaps,
  leaps-suc, march,
}

abbrev year_of_era : ℕ → ℕ
year_of_era doe = (doe - doe / 1460 + doe / 36524 - doe / 146096) / 365

-- The day of the year that begins in March.
abbrev day_of_year : ℕ → ℕ
day_of_year doe = let yoe = year_of_era doe in doe - (365 * yoe + yoe / 4 - yoe / 100)

year_bounds :
    (doe : ℕ)
    → doe < 146097
    → (year_of_era doe < 400)
      × (365 * year_of_era doe + year_of_era doe / 4 - year_of_era doe / 100 ≤ doe)
year_bounds doe h = omega arith

day_bound : (doe : ℕ) → doe < 146097 → day_of_year doe ≤ 364 + leap_day (suc (year_of_era doe))
day_bound doe h = omega (arith, leaps-suc (year_of_era doe))

-- The leap rule repeats every 400 years.
leap_day-add : (y e : ℕ) → leap_day (suc (y + e * 400)) ≡ leap_day (suc y)
leap_day-add y e = omega (arith, leaps-suc y, leaps-suc (y + e * 400))

-- The month and the day of a day number that counts from 1 March.
abbrev month_index : ℕ → ℕ
month_index doy = (5 * doy + 2) / 153

abbrev month_of : ℕ → ℕ
month_of mp = if ltb mp 10 then mp + 3 else mp - 9

abbrev day_of : ℕ → ℕ
day_of doy = doy - (153 * month_index doy + 2) / 5 + 1

-- The month with index `k`, on day `doy` of the March-based year `y`: it is valid, and its day
-- number is that of 1 March and the days since.
at_index :
    (k y doy : ℕ)
    → k ≡ month_index doy
    → doy ≤ 364 + leap_day (suc y)
    → let m = month_of k in
      let d = doy - (153 * k + 2) / 5 + 1 in
      let year = if leb m 2 then suc y else y in
      IsDate year m d × (day_number year m d ≡ days_before_year y + 59 + leap_day y + doy)
unfolding day_number days_before_year days_before_month days_in_month
at_index zero y doy e h = ground arith
at_index (suc zero) y doy e h = ground arith
at_index (suc (suc zero)) y doy e h = ground arith
at_index (suc (suc (suc zero))) y doy e h = ground arith
at_index (suc (suc (suc (suc zero)))) y doy e h = ground arith
at_index (suc (suc (suc (suc (suc zero))))) y doy e h = ground arith
at_index (suc (suc (suc (suc (suc (suc zero)))))) y doy e h = ground arith
at_index (suc (suc (suc (suc (suc (suc (suc zero))))))) y doy e h = ground arith
at_index (suc (suc (suc (suc (suc (suc (suc (suc zero)))))))) y doy e h = ground arith
at_index (suc (suc (suc (suc (suc (suc (suc (suc (suc zero))))))))) y doy e h = ground arith
at_index (suc (suc (suc (suc (suc (suc (suc (suc (suc (suc zero)))))))))) y doy e h = ground arith
at_index (suc (suc (suc (suc (suc (suc (suc (suc (suc (suc (suc zero))))))))))) y doy e h =
    ground arith
at_index (suc (suc (suc (suc (suc (suc (suc (suc (suc (suc (suc (suc k)))))))))))) y doy e h =
    absurd (ground arith)

parts_lem : (z : ℕ) → pos z -ℤ scale (div_trunc (pos z) 146097) 146097 ≡ pos (z % 146097)
unfolding ◌-ℤ◌ scale div_trunc
parts_lem z = ground arith

add_pos : (a b : ℕ) → pos a +ℤ pos b ≡ pos (a + b)
unfolding ◌+ℤ◌
add_pos a b = ground arith

scale_pos : (a k : ℕ) → scale (pos a) k ≡ pos (a * k)
unfolding scale
scale_pos a k = ground arith

div_trunc_pos : (a k : ℕ) → div_trunc (pos a) k ≡ pos (a / k)
unfolding div_trunc
div_trunc_pos a k = ground arith

nonneg : (a : ℕ) → is_nonneg (pos a) ≡ true
nonneg a = ground arith

civil_from_days-parts :
    (n : ℕ)
    → let z = n + 719468 in
      let doe = z % 146097 in
      let year = year_of_era doe + z / 146097 * 400 in
      let m = month_of (month_index (day_of_year doe)) in
      civil_from_days (pos n)
      ≡ (if leb m 2 then pos year +ℤ pos 1 else pos year, m, day_of (day_of_year doe))
unfolding civil_from_days
civil_from_days-parts n =
    let z : ℕ = n + 719468 in
    rw (
      add_pos n 719468,
      nonneg z,
      parts_lem z,
      div_trunc_pos z 146097,
      scale_pos (z / 146097) 400,
      add_pos (year_of_era (z % 146097)) (z / 146097 * 400),
    )

epoch : day_number 1970 1 1 ≡ 719528
unfolding day_number days_before_year days_before_month is_leap
epoch = refl

-- The year is that of March, or the next one in January and February.
year_shift :
    (y m : ℕ) → (if leb m 2 then pos y +ℤ pos 1 else pos y) ≡ pos (if leb m 2 then suc y else y)
unfolding ◌+ℤ◌
year_shift y m = ground arith

days_of_era :
    (z : ℕ)
    → let doe = z % 146097 in
      let y = year_of_era doe + z / 146097 * 400 in 365 * y + leaps y + day_of_year doe ≡ z
days_of_era z = omega arith

-- For every day from the epoch on, the result is a valid date of the Gregorian calendar, and it is
-- the date of that day: its day number is `n` more than that of 1970-01-01.
pub civil_from_days-day_number :
    (n : ℕ)
    → let (year, month, day) = civil_from_days (pos n) in
      (y : ℕ) × (year ≡ pos y)
      × IsDate y month day
      × (day_number y month day ≡ n + day_number 1970 1 1)
civil_from_days-day_number n =
    let z : ℕ = n + 719468 in
    let doe : ℕ = z % 146097 in
    let y : ℕ = year_of_era doe + z / 146097 * 400 in
    let m : ℕ = month_of (month_index (day_of_year doe)) in
    let (valid, number) =
      at_index (month_index (day_of_year doe)) y (day_of_year doe) refl
        (rw (leap_day-add (year_of_era doe) (z / 146097)) (day_bound doe (omega arith))) in
    rw (civil_from_days-parts n) (
      (if leb m 2 then suc y else y),
      year_shift y m,
      valid,
      number ∙ rw epoch (omega (arith, march y, days_of_era z)),
    )
