-- ===== src/Analytics/Calendar.antt =====
-- The periods of worker/services/analytics-service.ts: days, weekdays and months of UTC. A calendar
-- date is found by walking month by month from January 1970, day number 0.
pub mod Partition
use mono_finance.Common.{
  ℕ, suc, zero, ◌+◌, ◌*◌, ◌/◌, ◌%◌, Bool, true, false, ◌&&◌, ◌||◌, not, ltb, ◌==◌, if◌then◌else◌,
}

abbrev pub day_seconds : ℕ
day_seconds = 86_400

-- `dayStart`
unfoldable pub day_start : ℕ → ℕ
day_start timestamp = timestamp / day_seconds * day_seconds

-- `getUTCDay` counts from Sunday, 0; the epoch was a Thursday.
abbrev pub utc_day : ℕ → ℕ
utc_day timestamp = (4 + timestamp / day_seconds) % 7

unfoldable pub weekday_number : ℕ → ℕ
weekday_number timestamp = let day = utc_day timestamp in if day == 0 then 7 else day

abbrev pub is_leap : ℕ → Bool
is_leap year = year % 4 == 0 && (not (year % 100 == 0) || year % 400 == 0)

-- Months count from 0, as `getUTCMonth` does.
unfoldable pub days_in_month : ℕ → ℕ → ℕ
days_in_month year month =
    if month == 1
    then (if is_leap year then 29 else 28)
    else if month == 3 || month == 5 || month == 8 || month == 10
    then 30
    else 31

-- A month and the number of its first day.
pub record Month : Type 0 where
  pub year : ℕ
  pub month : ℕ
  pub first_day : ℕ

abbrev pub month_length : Month → ℕ
month_length m = days_in_month m.year m.month

abbrev pub month_after : Month → Month
month_after m =
    if m.month == 11
    then record { year = suc m.year; month = 0; first_day = m.first_day + month_length m }
    else record m { month = suc m.month; first_day = m.first_day + month_length m }

-- The month of a day, from a month that is not later.
unfoldable pub month_from : ℕ → Month → ℕ → Month
month_from zero m day = m
month_from (suc fuel) m day = elim (ltb day (m.first_day + month_length m)) [
  | true ↦ m
  | false ↦ month_from fuel (month_after m) day
]

abbrev pub epoch_month : Month
epoch_month = record { year = 1970; month = 0; first_day = 0 }

-- The month of a timestamp: a step passes 28 days or more, so the day's number is fuel enough.
unfoldable pub month_of : ℕ → Month
unfolding month_from
month_of timestamp = let day = timestamp / day_seconds in month_from (suc day) epoch_month day

-- `monthStart`
unfoldable pub month_start : ℕ → ℕ
month_start timestamp = (month_of timestamp).first_day * day_seconds

-- `nextMonthStart`
unfoldable pub next_month_start : ℕ → ℕ
next_month_start timestamp =
    let m = month_of timestamp in (m.first_day + month_length m) * day_seconds
