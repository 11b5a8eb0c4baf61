-- ===== src/Etcd/Names/Dates.antt =====
-- The calendar of `civil_from_epoch`.
use hummingbird_k8s.Base.{ℕ, ◌+◌, ◌-◌, ◌*◌, ◌/◌, ◌%◌, ◌≤◌, ◌<◌, ltb, leb, ◌≡◌, arith, if◌then◌else◌}
use hummingbird_k8s.Etcd.Names.{Civil, civil_from_epoch, year_of_era, day_of_year, month_of}

year_of_era-le : (doe : ℕ) → doe < 146097 → year_of_era doe ≤ 399
unfolding year_of_era
year_of_era-le doe h = omega arith

day_of_year-le : (doe : ℕ) → doe < 146097 → day_of_year doe ≤ 365
unfolding day_of_year year_of_era
day_of_year-le doe h = omega arith

-- The day of the era, put together again.
day_of_year-add :
    (doe : ℕ)
    → doe < 146097
    → let yoe = year_of_era doe in yoe * 365 + yoe / 4 - yoe / 100 + day_of_year doe ≡ doe
unfolding day_of_year year_of_era
day_of_year-add doe h = omega arith

-- The month and the day within a year that begins in March.
month_of-range :
    (doy : ℕ)
    → doy ≤ 365
    → (1 ≤ month_of ((5 * doy + 2) / 153)) × (month_of ((5 * doy + 2) / 153) ≤ 12)
unfolding month_of
month_of-range doy h = (ground arith, ground arith)

day-range :
    (doy : ℕ)
    → doy ≤ 365
    → let mp = (5 * doy + 2) / 153 in
      let d = doy - (153 * mp + 2) / 5 + 1 in
      (1 ≤ d) × (d ≤ 31) × ((153 * mp + 2) / 5 + d ≡ doy + 1)
day-range doy h = (omega arith, omega arith, omega arith)

-- The months from March on, counted from zero.
unfoldable pub from_march : ℕ → ℕ
from_march m = if ltb 2 m then m - 3 else m + 9

from_march-month_of :
    (doy : ℕ) → doy ≤ 365 → from_march (month_of ((5 * doy + 2) / 153)) ≡ (5 * doy + 2) / 153
unfolding from_march month_of
from_march-month_of doy h = ground arith

-- The days before the year that begins in March of `y`, from March of the year 0 on.
unfoldable pub days_before : ℕ → ℕ
days_before y = y * 365 + y / 4 - y / 100 + y / 400

-- The days from the first of March of the year 0 to a date.
unfoldable pub days_of : Civil → ℕ
unfolding from_march
days_of c =
    days_before (if leb c.month 2 then c.year - 1 else c.year)
    + (153 * from_march c.month + 2) / 5
    + (c.day - 1)

unfoldable pub seconds_of : Civil → ℕ
seconds_of c = c.hour * 3600 + c.minute * 60 + c.second

days_before-era :
    (era yoe : ℕ)
    → yoe ≤ 399
    → days_before (yoe + era * 400) ≡ era * 146097 + (yoe * 365 + yoe / 4 - yoe / 100)
unfolding days_before
days_before-era era yoe h = omega arith

pub record IsCivil (c : Civil) : Type 0 where
  pub month_low : 1 ≤ c.month
  pub month_high : c.month ≤ 12
  pub day_low : 1 ≤ c.day
  pub day_high : c.day ≤ 31
  pub hour_high : c.hour < 24
  pub minute_high : c.minute < 60
  pub second_high : c.second < 60

-- The fields of a point in time are in their ranges.
pub civil_from_epoch-IsCivil : (epoch_secs : ℕ) → IsCivil (civil_from_epoch epoch_secs)
unfolding civil_from_epoch
civil_from_epoch-IsCivil epoch_secs = record {
  month_low = months.0;
  month_high = months.1;
  day_low = days.0;
  day_high = days.1;
  hour_high = omega arith;
  minute_high = omega arith;
  second_high = omega arith;
}
  where
    doe : ℕ
    doe = (epoch_secs / 86400 + 719468) % 146097

    in_era : doe < 146097
    in_era = omega arith

    months :
        (1 ≤ month_of ((5 * day_of_year doe + 2) / 153))
        × (month_of ((5 * day_of_year doe + 2) / 153) ≤ 12)
    months = month_of-range (day_of_year doe) (day_of_year-le doe in_era)

    days :
        let mp = (5 * day_of_year doe + 2) / 153 in
        let d = day_of_year doe - (153 * mp + 2) / 5 + 1 in
        (1 ≤ d) × (d ≤ 31) × ((153 * mp + 2) / 5 + d ≡ day_of_year doe + 1)
    days = day-range (day_of_year doe) (day_of_year-le doe in_era)

march_year :
    (y m : ℕ)
    → (if leb m 2 then y + (if leb m 2 then 1 else 0) - 1 else y + (if leb m 2 then 1 else 0)) ≡ y
march_year y m = ground arith

days_of-era :
    (era doe : ℕ)
    → doe < 146097
    → let mp = (5 * day_of_year doe + 2) / 153 in
      let y = year_of_era doe + era * 400 in
      days_before y + (153 * mp + 2) / 5 + (day_of_year doe - (153 * mp + 2) / 5 + 1 - 1)
      ≡ era * 146097 + doe
days_of-era era doe h = omega (
  arith,
  days_before-era era (year_of_era doe) (year_of_era-le doe h),
  day_of_year-add doe h,
  (day-range (day_of_year doe) (day_of_year-le doe h)).2,
)

-- The date and the time of day determine the point in time: the days from the first of March of the
-- year 0 to the date are those to the epoch and from the epoch, and the time of day holds the
-- seconds that remain.
pub days_of-civil_from_epoch :
    (epoch_secs : ℕ)
    → (days_of (civil_from_epoch epoch_secs) ≡ epoch_secs / 86400 + 719468)
      × (seconds_of (civil_from_epoch epoch_secs) ≡ epoch_secs % 86400)
unfolding civil_from_epoch days_of seconds_of
days_of-civil_from_epoch epoch_secs = (date, omega arith)
  where
    z : ℕ
    z = epoch_secs / 86400 + 719468

    doe : ℕ
    doe = z % 146097

    in_era : doe < 146097
    in_era = omega arith

    date : days_of (civil_from_epoch epoch_secs) ≡ z
    date =
        rw
          (
            march_year (year_of_era doe + z / 146097 * 400)
                (month_of ((5 * day_of_year doe + 2) / 153)),
            from_march-month_of (day_of_year doe) (day_of_year-le doe in_era),
          )
          (omega (arith, days_of-era (z / 146097) doe in_era))
