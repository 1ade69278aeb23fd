-- ===== src/Cli/Civil/Date.antt =====
-- `civil_from_unix` gives the date that the calendar has for the day.
use zboot.Base.{
  ℕ, zero, suc, ◌≡◌, ◌≢◌, refl, ◌∙◌, ◌+◌, ◌-◌, ◌*◌, ◌/◌, ◌^◌, ◌≤◌, ◌<◌, ltb, leb, true, Bool-cases,
  inl, inr, if◌then◌else◌, arith,
}
use zboot.Cli.Civil.{
  CivilTime, civil_from_unix, day_of_era, year_of_era, day_of_year, month_place, day_of, month_of,
  year_of,
}
use zboot.Cli.Civil.Calendar.{
  is_leap, month_length, days_in_months, day_number, IsDate, days_before_year_lem,
}

-- The days of the years of an era that come before one of its years.
abbrev era_days : ℕ → ℕ
era_days yoe = 365 * yoe + yoe / 4 - yoe / 100

record IsSplit (z yoe doy : ℕ) : Type 0 where
  yoe_high : yoe ≤ 399
  doy_high : doy ≤ 365
  -- The last day of a year that ends in February is the 366th only before a leap year's March.
  leap_day : doy ≡ 365 → is_leap (yoe + z / 146097 * 400 + 1) ≡ true
  sum : z ≡ z / 146097 * 146097 + era_days yoe + doy

year_of_era-IsSplit :
    (z : ℕ)
    → IsSplit z
        (year_of_era (day_of_era z))
        (day_of_year (day_of_era z) (year_of_era (day_of_era z)))
unfolding day_of_era year_of_era day_of_year is_leap
year_of_era-IsSplit z = record {
  yoe_high = omega arith;
  doy_high = omega arith;
  leap_day = λ h. ground (arith, h);
  sum = omega arith;
}

-- The months from March on alternate so that five of them have 153 days.
pub days_in_months_lem :
    (y m : ℕ)
    → m ≤ 11
    → days_in_months y m
      ≡ (if leb m 1 then 31 * m else (if is_leap y then 60 else 59) + (153 * (m - 2) + 2) / 5)
unfolding days_in_months month_length
days_in_months_lem y zero h = refl
days_in_months_lem y (suc m) h = ground (arith, days_in_months_lem y m)

-- The place of a day in its year, which begins in March, gives a month and a day of it.
month_place_bound : (doy : ℕ) → doy ≤ 365 → month_place doy ≤ 11
unfolding month_place
month_place_bound doy h = omega arith

month_low : (mp : ℕ) → mp ≤ 11 → (1 ≤ month_of mp) × (month_of mp ≤ 12)
unfolding month_of
month_low mp h = ground arith

-- March and later: the days of January and February come before.
late_month :
    (y doy : ℕ)
    → doy ≤ 365
    → month_place doy < 10
    → days_in_months y (month_of (month_place doy) - 1) + (day_of doy (month_place doy) - 1)
      ≡ (if is_leap y then 60 else 59) + doy
unfolding month_of month_place day_of
late_month y doy h late =
    let mp = (5 * doy + 2) / 153 in ground (arith, days_in_months_lem y (mp + 2) (omega arith))

early_month :
    (y doy : ℕ)
    → doy ≤ 365
    → 10 ≤ month_place doy
    → days_in_months y (month_of (month_place doy) - 1) + (day_of doy (month_place doy) - 1) + 306
      ≡ doy
unfolding month_of month_place day_of
early_month y doy h late =
    let mp = (5 * doy + 2) / 153 in ground (arith, days_in_months_lem y (mp - 10) (omega arith))

day_high :
    (y doy : ℕ)
    → doy ≤ 365
    → (doy ≡ 365 → is_leap y ≡ true)
    → day_of doy (month_place doy) ≤ month_length y (month_of (month_place doy))
unfolding month_of month_place day_of month_length
day_high y doy h leap = ground (arith, leap)

day_low : (doy : ℕ) → 1 ≤ day_of doy (month_place doy)
unfolding month_place day_of
day_low doy = ground arith

-- The date is one of the calendar, and the day of that number after the first of January 1970, which
-- is the day 719528 of the calendar.
pub record IsCivil (days : ℕ) (t : CivilTime) : Type 0 where
  pub date : IsDate t.year t.month t.day
  pub number : day_number t.year t.month t.day ≡ days + 719528

year_of-cases :
    (era yoe mp : ℕ)
    → mp ≤ 11
    → yoe + era * 400 < 2 ^ 63
    → year_of era yoe (month_of mp) ≡ (if ltb mp 10 then yoe + era * 400 else yoe + era * 400 + 1)
unfolding year_of month_of
year_of-cases era yoe mp h small = ground arith

day_number_of :
    (z yoe doy : ℕ)
    → IsSplit z yoe doy
    → 60 ≤ z
    → yoe + z / 146097 * 400 < 2 ^ 63
    → day_number
        (year_of (z / 146097) yoe (month_of (month_place doy)))
        (month_of (month_place doy))
        (day_of doy (month_place doy))
      ≡ z + 60
unfolding day_number is_leap
day_number_of z yoe doy v low small =
    let y = yoe + z / 146097 * 400 in
    ground (
      arith,
      v.sum,
      v.yoe_high,
      year_of-cases (z / 146097) yoe (month_place doy) (month_place_bound doy v.doy_high) small,
      days_before_year_lem y,
      days_before_year_lem (y + 1),
      late_month y doy v.doy_high,
      early_month (y + 1) doy v.doy_high,
    )

late_doy : (doy : ℕ) → ltb (month_place doy) 10 ≡ true → doy ≢ 365
unfolding month_place
late_doy doy h e = ground (arith, h, e)

day_high-year :
    (z yoe doy : ℕ)
    → IsSplit z yoe doy
    → yoe + z / 146097 * 400 < 2 ^ 63
    → day_of doy (month_place doy)
      ≤ month_length
          (year_of (z / 146097) yoe (month_of (month_place doy)))
          (month_of (month_place doy))
day_high-year z yoe doy v small =
    let y = yoe + z / 146097 * 400 in
    let place =
      year_of-cases (z / 146097) yoe (month_place doy) (month_place_bound doy v.doy_high) small in
    elim (Bool-cases (ltb (month_place doy) 10)) [
      | inl e ↦ rw (place, e) (day_high y doy v.doy_high (λ h. absurd (late_doy doy e h)))
      | inr e ↦ rw (place, e) (day_high (y + 1) doy v.doy_high v.leap_day)
    ]

-- For every 64-bit number of seconds the date is one of the calendar, and its number in the calendar is
-- the number of whole days since the first of January 1970.
pub civil_from_unix_lem : (secs : ℕ) → secs < 2 ^ 64 → IsCivil (secs / 86400) (civil_from_unix secs)
unfolding civil_from_unix
civil_from_unix_lem secs h =
    let z = secs / 86400 + 719468 in
    let doe = day_of_era z in
    let yoe = year_of_era doe in
    let doy = day_of_year doe yoe in
    let v = year_of_era-IsSplit z in
    let bound = v.yoe_high in
    let small : yoe + z / 146097 * 400 < 2 ^ 63 = omega (arith, bound) in
    let (low, high) = month_low (month_place doy) (month_place_bound doy v.doy_high) in
    record {
      date = record {
        month_low = low;
        month_high = high;
        day_low = day_low doy;
        day_high = day_high-year z yoe doy v small;
      };
      number = day_number_of z yoe doy v (omega arith) small ∙ omega arith;
    }

-- The time of the day is within its bounds and its parts make up the seconds of the day.
pub record IsClock (secs : ℕ) (t : CivilTime) : Type 0 where
  pub hour_high : t.hour < 24
  pub minute_high : t.minute < 60
  pub second_high : t.second < 60
  pub sum : secs ≡ secs / 86400 * 86400 + t.hour * 3600 + t.minute * 60 + t.second

pub civil_from_unix-IsClock : (secs : ℕ) → IsClock secs (civil_from_unix secs)
unfolding civil_from_unix
civil_from_unix-IsClock secs = record {
  hour_high = ground arith;
  minute_high = ground arith;
  second_high = ground arith;
  sum = ground arith;
}
