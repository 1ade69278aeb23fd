-- ===== src/Cli/Civil.antt =====
-- The UTC date of a name by default: `civil_from_unix`, which cli/src/cmd/snapshot.rs and
-- cli/src/cmd/rollback.rs both hold, and the two functions that print it. The tuple is a record. An
-- `as`-free conversion to a narrower integer is `try_from(..).unwrap_or(d)`, which `narrow` writes out.
pub mod Calendar
pub mod Date
pub mod Digits
pub mod Order
use zboot.Base.{
  ℕ, zero, suc, ◌+◌, ◌-◌, ◌*◌, ◌/◌, ◌%◌, ◌^◌, List, [], ◌∷◌, ◌++◌, Str, ltb, leb, length,
  if◌then◌else◌,
}
use zboot.Text.{codes}

pub record CivilTime : Type 0 where
  pub year : ℕ
  pub month : ℕ
  pub day : ℕ
  pub hour : ℕ
  pub minute : ℕ
  pub second : ℕ

-- `T::try_from(n).unwrap_or(d)` where `w` bits of `T` hold a value that is not negative.
abbrev pub narrow : ℕ → ℕ → ℕ → ℕ
narrow w d n = if ltb n (2 ^ w) then n else d

-- The day of the era, the year of the era, the day of the year and the month, all from March on.
unfoldable pub day_of_era : ℕ → ℕ
day_of_era z = z - z / 146097 * 146097

unfoldable pub year_of_era : ℕ → ℕ
year_of_era doe = (doe - doe / 1460 + doe / 36524 - doe / 146096) / 365

unfoldable pub day_of_year : ℕ → ℕ → ℕ
day_of_year doe yoe = doe - (365 * yoe + yoe / 4 - yoe / 100)

unfoldable pub month_place : ℕ → ℕ
month_place doy = (5 * doy + 2) / 153

unfoldable pub day_of : ℕ → ℕ → ℕ
day_of doy mp = narrow 32 1 (doy - (153 * mp + 2) / 5 + 1)

unfoldable pub month_of : ℕ → ℕ
month_of mp = narrow 32 1 (if ltb mp 10 then mp + 3 else mp - 9)

unfoldable pub year_of : ℕ → ℕ → ℕ → ℕ
year_of era yoe month =
    let y_civil = narrow 63 0 (yoe + era * 400) in if leb month 2 then y_civil + 1 else y_civil

unfoldable pub civil_from_unix : ℕ → CivilTime
unfolding day_of_era year_of_era day_of_year month_place day_of month_of year_of
civil_from_unix unix_secs =
    let days = unix_secs / 86400 in
    let secs_of_day = narrow 32 0 (unix_secs % 86400) in
    let z = days + 719468 in
    let era = z / 146097 in
    let doe = day_of_era z in
    let yoe = year_of_era doe in
    let doy = day_of_year doe yoe in
    let mp = month_place doy in
    record {
      year = year_of era yoe (month_of mp);
      month = month_of mp;
      day = day_of doy mp;
      hour = secs_of_day / 3600;
      minute = secs_of_day % 3600 / 60;
      second = secs_of_day % 60;
    }

-- Decimal digits, at least `w` of them. Rust prints a number with a width of zeros in this way.
decimal_digits : ℕ → ℕ → Str → Str
decimal_digits zero n s = s
decimal_digits (suc fuel) n s =
    let d = (b'0' + n % 10) ∷ s in
    let rest = decimal_digits fuel (n / 10) d in if ltb n 10 then d else rest

-- A number of 64 bits has at most 20 digits.
unfoldable pub decimal : ℕ → Str
unfolding decimal_digits
decimal n = decimal_digits 20 n []

zeros : ℕ → Str
zeros zero = []
zeros (suc n) = b'0' ∷ zeros n

unfoldable pub padded : ℕ → ℕ → Str
unfolding decimal zeros
padded w n = let s = decimal n in zeros (w - length s) ++ s

unfoldable pub stamp : CivilTime → Str
unfolding padded
stamp t =
    padded 4 t.year
    ++ (padded 2 t.month
        ++ (padded 2 t.day
            ++ (b'T'
                ∷ (padded 2 t.hour ++ (padded 2 t.minute ++ (padded 2 t.second ++ codes "Z"))))))

unfoldable pub default_snap_name : ℕ → Str
unfolding civil_from_unix stamp
default_snap_name unix_secs = codes "snapshot-" ++ stamp (civil_from_unix unix_secs)

unfoldable pub default_rollback_name : ℕ → Str
unfolding civil_from_unix stamp
default_rollback_name unix_secs = codes "rollback-" ++ stamp (civil_from_unix unix_secs)
