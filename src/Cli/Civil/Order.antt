-- ===== src/Cli/Civil/Order.antt =====
-- The names by default sort by their time: the order of dates, of numbers with a fixed width, and of the
-- whole stamps.
use zboot.Base.{
  ℕ, ◌≡◌, refl, ◌∙◌, ◌+◌, ◌-◌, ◌/◌, ◌%◌, ◌^◌, ◌≤◌, ◌<◌, ltb, leb, Bool, true, false, List, [], ◌∷◌,
  ◌++◌, Str, if◌then◌else◌, arith,
}
use zboot.Text.{codes}
use zboot.Core.Types.Atomic.{str_leb}
use zboot.Cli.Civil.{
  CivilTime, civil_from_unix, padded, decimal, decimal_digits, zeros, stamp, default_snap_name,
}
use zboot.Cli.Civil.Calendar.{
  is_leap, month_length, year_length, days_in_months, days_before_year, day_number, IsDate,
  days_before_year_lem,
}
use zboot.Cli.Civil.Date.{
  IsCivil, civil_from_unix_lem, IsClock, civil_from_unix-IsClock, days_in_months_lem,
}

days_before_year_mono : (x y : ℕ) → x < y → days_before_year x + year_length x ≤ days_before_year y
unfolding year_length is_leap
days_before_year_mono x y h = ground (arith, days_before_year_lem x, days_before_year_lem y)

days_in_months_mono :
    (y m n : ℕ)
    → 1 ≤ m
    → m < n
    → n ≤ 12
    → days_in_months y (m - 1) + month_length y m ≤ days_in_months y (n - 1)
unfolding month_length
days_in_months_mono y m n low h high =
    ground (arith, days_in_months_lem y (m - 1), days_in_months_lem y (n - 1))

-- A date is within its year.
day_number-high : (y m d : ℕ) → IsDate y m d → day_number y m d < days_before_year y + year_length y
unfolding day_number year_length month_length
day_number-high y m d v =
    ground (arith, v.month_low, v.month_high, v.day_low, v.day_high, days_in_months_lem y (m - 1))

abbrev date_before : (x y m n d e : ℕ) → Bool
date_before x y m n d e =
    if ltb x y
    then true
    else if ltb y x
    then false
    else if ltb m n
    then true
    else if ltb n m
    then false
    else ltb d e

-- An earlier date has a smaller number.
day_number-lt :
    (x y m n d e : ℕ)
    → IsDate x m d
    → IsDate y n e
    → day_number x m d < days_before_year x + year_length x
    → date_before x y m n d e ≡ true
    → day_number x m d < day_number y n e
unfolding day_number
day_number-lt x y m n d e v w within h = ground (
  arith,
  v.month_low,
  w.month_high,
  v.day_low,
  w.day_low,
  v.day_high,
  within,
  days_before_year_mono x y,
  days_in_months_mono x m n v.month_low,
)

-- Two digits and four.
padded-two : (n : ℕ) → n < 100 → padded 2 n ≡ (b'0' + n / 10) ∷ (b'0' + n % 10) ∷ []
unfolding padded decimal decimal_digits zeros
padded-two n h = ground arith

four_digits :
    (n : ℕ)
    → n < 10000
    → padded 4 n
      ≡ (b'0' + n / 100 / 10)
        ∷ (b'0' + n / 100 % 10)
        ∷ (b'0' + n % 100 / 10)
        ∷ (b'0' + n % 100 % 10)
        ∷ []
unfolding padded decimal decimal_digits zeros
four_digits n h = ground arith

padded-four :
    (n : ℕ) (s : Str)
    → n < 10000
    → padded 4 n ++ s ≡ padded 2 (n / 100) ++ (padded 2 (n % 100) ++ s)
padded-four n s h =
    rw (four_digits n h, padded-two (n / 100) (omega arith), padded-two (n % 100) (omega arith))
      refl

-- The order of texts that begin with numbers of one width.
str_leb-two :
    (a b : ℕ) (s t : Str)
    → a < 100
    → b < 100
    → str_leb (padded 2 a ++ s) (padded 2 b ++ t)
      ≡ (if ltb a b then true else if ltb b a then false else str_leb s t)
unfolding str_leb
str_leb-two a b s t ha hb = rw (padded-two a ha, padded-two b hb) (ground arith)

str_leb-four :
    (a b : ℕ) (s t : Str)
    → a < 10000
    → b < 10000
    → str_leb (padded 4 a ++ s) (padded 4 b ++ t)
      ≡ (if ltb a b then true else if ltb b a then false else str_leb s t)
unfolding str_leb
str_leb-four a b s t ha hb =
    let high =
      str_leb-two (a / 100) (b / 100) (padded 2 (a % 100) ++ s) (padded 2 (b % 100) ++ t) in
    let low = str_leb-two (a % 100) (b % 100) s t in
    rw (padded-four a s ha, padded-four b t hb, high (omega arith) (omega arith))
      (rw (low (omega arith) (omega arith)) (ground arith))

str_leb-append : (p s t : Str) → str_leb (p ++ s) (p ++ t) ≡ str_leb s t
unfolding str_leb
str_leb-append [] s t = refl
str_leb-append (c ∷ p) s t = ground (arith, str_leb-append p s t)

-- A time whose parts have their widths.
record IsWide (t : CivilTime) : Type 0 where
  year_high : t.year < 10000
  month_high : t.month < 100
  day_high : t.day < 100
  hour_high : t.hour < 100
  minute_high : t.minute < 100
  second_high : t.second < 100

-- The first pair of parts that differ decides.
abbrev lex : List (ℕ × ℕ) → Bool
lex [] = true
lex ((a, b) ∷ r) = if ltb a b then true else if ltb b a then false else lex r

str_leb-stamp :
    (t u : CivilTime)
    → IsWide t
    → IsWide u
    → str_leb (stamp t) (stamp u)
      ≡ lex (
          (t.year, u.year)
          ∷ (t.month, u.month)
          ∷ (t.day, u.day)
          ∷ (t.hour, u.hour)
          ∷ (t.minute, u.minute)
          ∷ (t.second, u.second)
          ∷ [])
unfolding stamp str_leb
str_leb-stamp t u v w =
    rw
      (
        str_leb-four t.year u.year _ _ v.year_high w.year_high,
        str_leb-two t.month u.month _ _ v.month_high w.month_high,
        str_leb-two t.day u.day _ _ v.day_high w.day_high,
        str_leb-append (b'T' ∷ []) _ _,
        str_leb-two t.hour u.hour _ _ v.hour_high w.hour_high,
        str_leb-two t.minute u.minute _ _ v.minute_high w.minute_high,
        str_leb-two t.second u.second _ _ v.second_high w.second_high,
      )
      refl

days_before_year-high : (y : ℕ) → 10000 ≤ y → 3652425 ≤ days_before_year y
days_before_year-high y h = omega (arith, days_before_year_lem y)

-- Until the end of the year 9999 every part has its width.
civil_from_unix-IsWide : (secs : ℕ) → secs < 253402300800 → IsWide (civil_from_unix secs)
unfolding day_number month_length
civil_from_unix-IsWide secs h =
    let t = civil_from_unix secs in
    let v = civil_from_unix_lem secs (omega arith) in
    let clock = civil_from_unix-IsClock secs in
    let total = v.number in
    record {
      year_high = ground (arith, total, days_before_year-high t.year);
      month_high = let e = v.date.month_high in omega (arith, e);
      day_high = let e = v.date.day_high in ground (arith, e);
      hour_high = let e = clock.hour_high in omega (arith, e);
      minute_high = let e = clock.minute_high in omega (arith, e);
      second_high = let e = clock.second_high in omega (arith, e);
    }

number-lt :
    {p q : ℕ} (t u : CivilTime)
    → IsCivil p t
    → IsCivil q u
    → date_before t.year u.year t.month u.month t.day u.day ≡ true
    → p < q
number-lt t u v w h =
    let (first, second) : (day_number t.year t.month t.day ≡ _)
        × (day_number u.year u.month u.day ≡ _) =
      (v.number, w.number) in
    let less =
      day_number-lt t.year u.year t.month u.month t.day u.day v.date w.date
        (day_number-high t.year t.month t.day v.date) h in
    omega (arith, less, first, second)

-- A civil time comes before another exactly if its seconds do.
lex-civil :
    (a b : ℕ)
    → a < 2 ^ 64
    → b < 2 ^ 64
    → (let t = civil_from_unix a in
        let u = civil_from_unix b in
        lex (
          (t.year, u.year)
          ∷ (t.month, u.month)
          ∷ (t.day, u.day)
          ∷ (t.hour, u.hour)
          ∷ (t.minute, u.minute)
          ∷ (t.second, u.second)
          ∷ []))
      ≡ leb a b
lex-civil a b ha hb =
    decide (civil_from_unix a) (civil_from_unix b) (civil_from_unix_lem a ha)
      (civil_from_unix_lem b hb) (civil_from_unix-IsClock a) (civil_from_unix-IsClock b)
  where
    decide :
        (t u : CivilTime)
        → IsCivil (a / 86400) t
        → IsCivil (b / 86400) u
        → IsClock a t
        → IsClock b u
        → lex (
            (t.year, u.year)
            ∷ (t.month, u.month)
            ∷ (t.day, u.day)
            ∷ (t.hour, u.hour)
            ∷ (t.minute, u.minute)
            ∷ (t.second, u.second)
            ∷ [])
          ≡ leb a b
    decide t u v w c d = ground (arith, number-lt t u v w, number-lt u t w v, v.number, w.number)

-- Up to the end of the year 9999 the names by default sort as the times at which they were made.
pub str_leb-default_snap_name :
    (a b : ℕ)
    → a < 253402300800
    → b < 253402300800
    → str_leb (default_snap_name a) (default_snap_name b) ≡ leb a b
unfolding default_snap_name
str_leb-default_snap_name a b ha hb =
    str_leb-append (codes "snapshot-") (stamp (civil_from_unix a)) (stamp (civil_from_unix b))
    ∙ str_leb-stamp _ _ (civil_from_unix-IsWide a ha) (civil_from_unix-IsWide b hb)
    ∙ lex-civil a b (omega arith) (omega arith)
