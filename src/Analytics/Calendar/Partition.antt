-- ===== src/Analytics/Calendar/Partition.antt =====
-- The months that `monthStart` and `nextMonthStart` give (worker/services/analytics-service.ts)
-- cut the time into periods.
use mono_finance.Common.{
  ℕ, suc, zero, ◌+◌, ◌*◌, ◌/◌, ◌≤◌, ◌<◌, ◌≡◌, refl, ltb, Bool-cases, inl, inr, arith, ◌==◌, ltb→lt,
  lt→ltb, le→not_ltb,
}
use mono_finance.Analytics.Calendar.{
  Month, month_length, month_after, month_from, month_of, epoch_month, days_in_month, month_start,
  next_month_start, day_seconds,
}

days_in_month-bounds :
    (year month : ℕ) → (28 ≤ days_in_month year month) × (days_in_month year month ≤ 31)
unfolding days_in_month
days_in_month-bounds year month = ground arith

month_after-first_day : (m : Month) → (month_after m).first_day ≡ m.first_day + month_length m
month_after-first_day m = elim (Bool-cases (m.month == 11)) [
  | inl e ↦ rw e refl
  | inr e ↦ rw e refl
]

abbrev Holds : ℕ → Month → Type 0
Holds day m = (m.first_day ≤ day) × (day < m.first_day + month_length m)

month_from-Holds :
    (fuel : ℕ) (m : Month) (day : ℕ)
    → m.first_day ≤ day
    → day < m.first_day + 28 * fuel
    → Holds day (month_from fuel m day)
unfolding month_from
month_from-Holds zero m day low high = omega (arith, low, high)
month_from-Holds (suc fuel) m day low high =
    let passed = month_after-first_day m in
    let long = days_in_month-bounds m.year m.month in
    elim (Bool-cases (ltb day (m.first_day + month_length m))) [
      | inl e ↦ rw (e, month_from) (low, ltb→lt _ _ e)
      | inr e ↦
          rw (e, month_from)
            (month_from-Holds fuel (month_after m) day (ground arith) (ground arith))
    ]

month_from-later :
    (fuel : ℕ) (m : Month) (day : ℕ) → m.first_day ≤ (month_from fuel m day).first_day
unfolding month_from
month_from-later zero m day = omega arith
month_from-later (suc fuel) m day =
    let passed = month_after-first_day m in
    let later = month_from-later fuel (month_after m) day in
    elim (Bool-cases (ltb day (m.first_day + month_length m))) [
      | inl e ↦ rw (e, month_from) (omega arith)
      | inr e ↦ rw (e, month_from) (omega (arith, passed, later))
    ]

-- With fuel enough for both, the walks to two days of one month end in the same month.
month_from-same :
    (fuel fuel' : ℕ) (m : Month) (day day' : ℕ)
    → m.first_day ≤ day
    → m.first_day ≤ day'
    → day < m.first_day + 28 * fuel
    → day' < m.first_day + 28 * fuel'
    → Holds day' (month_from fuel m day)
    → month_from fuel' m day' ≡ month_from fuel m day
unfolding month_from
month_from-same zero fuel' m day day' low low' high high' h = ground arith
month_from-same (suc fuel) zero m day day' low low' high high' h = ground arith
month_from-same (suc fuel) (suc fuel') m day day' low low' high high' h =
    let passed = month_after-first_day m in
    let long = days_in_month-bounds m.year m.month in
    let later = month_from-later fuel (month_after m) day in
    let end = m.first_day + month_length m in
    elim (Bool-cases (ltb day end)) [
      | inl e ↦
          let inside = rw (e, month_from) at h in rw (e, lt→ltb day' end inside.1, month_from) refl
      | inr e ↦
          let inside = rw (e, month_from) at h in
          let outside : end ≤ day' = omega (arith, inside.0, later, passed) in
          rw (e, le→not_ltb end day' outside, month_from)
            (month_from-same fuel fuel' (month_after m) day day' (ground arith) (ground arith)
              (ground arith) (ground arith) inside)
    ]

month_of-Holds : (timestamp : ℕ) → Holds (timestamp / day_seconds) (month_of timestamp)
unfolding month_of
month_of-Holds timestamp =
    month_from-Holds (suc (timestamp / day_seconds)) epoch_month (timestamp / day_seconds)
      (omega arith) (omega arith)

month_of-same : (t u : ℕ) → Holds (u / day_seconds) (month_of t) → month_of u ≡ month_of t
unfolding month_of
month_of-same t u h =
    month_from-same (suc (t / day_seconds)) (suc (u / day_seconds)) epoch_month (t / day_seconds)
      (u / day_seconds) (omega arith) (omega arith) (omega arith) (omega arith) h

-- The month of a timestamp contains it and has 28 to 31 days; every timestamp from its start to the
-- next one's has the same month: no timestamp lies in two months of a time series, or in none.
pub month_start-partition :
    (t : ℕ)
    → (month_start t ≤ t)
      × (t < next_month_start t)
      × (month_start t + 28 * day_seconds ≤ next_month_start t)
      × (next_month_start t ≤ month_start t + 31 * day_seconds)
      × ((u : ℕ)
          → month_start t ≤ u
          → u < next_month_start t
          → (month_start u ≡ month_start t) × (next_month_start u ≡ next_month_start t))
unfolding month_start next_month_start
month_start-partition t =
    let m = month_of t in
    let here = month_of-Holds t in
    let long = days_in_month-bounds m.year m.month in
    (
      omega (arith, here.0),
      omega (arith, here.1),
      omega (arith, long.0),
      omega (arith, long.1),
      λ u low high.
          let same = month_of-same t u (omega (arith, low), omega (arith, high)) in
          (rw same refl, rw same refl),
    )
