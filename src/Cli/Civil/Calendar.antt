-- ===== src/Cli/Civil/Calendar.antt =====
-- The Gregorian calendar, by its rules alone: lengths of months and years, and the number of a day by
-- summing them up from the first of January of the year 0.
use zboot.Base.{
  ℕ, zero, suc, ◌≡◌, refl, ◌+◌, ◌-◌, ◌*◌, ◌/◌, ◌%◌, ◌≤◌, Bool, not, ◌&&◌, ◌||◌, ◌==◌, nat_eq,
  if◌then◌else◌, arith,
}

unfoldable pub is_leap : ℕ → Bool
is_leap y = (y % 4 == 0 && not (y % 100 == 0)) || y % 400 == 0

unfoldable pub year_length : ℕ → ℕ
unfolding is_leap
year_length y = if is_leap y then 366 else 365

unfoldable pub month_length : ℕ → ℕ → ℕ
unfolding is_leap
month_length y m =
    if m == 2
    then if is_leap y then 29 else 28
    else if m == 4 || m == 6 || m == 9 || m == 11
    then 30
    else 31

-- The days in the years before `y`.
unfoldable pub days_before_year : ℕ → ℕ
unfolding year_length
days_before_year zero = 0
days_before_year (suc y) = days_before_year y + year_length y

-- The days in the first `m` months of the year `y`.
unfoldable pub days_in_months : ℕ → ℕ → ℕ
unfolding month_length
days_in_months y zero = 0
days_in_months y (suc m) = days_in_months y m + month_length y (suc m)

-- The number of a day, counted from the first of January of the year 0.
unfoldable pub day_number : ℕ → ℕ → ℕ → ℕ
unfolding days_before_year days_in_months
day_number y m d = days_before_year y + days_in_months y (m - 1) + (d - 1)

-- A date of the calendar.
pub record IsDate (y m d : ℕ) : Type 0 where
  pub month_low : 1 ≤ m
  pub month_high : m ≤ 12
  pub day_low : 1 ≤ d
  pub day_high : d ≤ month_length y m

pub days_before_year_lem :
    (y : ℕ) → days_before_year y ≡ 365 * y + (y + 3) / 4 + (y + 399) / 400 - (y + 99) / 100
unfolding days_before_year year_length is_leap
days_before_year_lem zero = refl
days_before_year_lem (suc y) = ground (arith, days_before_year_lem y)
