-- ===== src/Routing/Calendar.antt =====
-- The part of JavaScript's `Date` that `dateKey` in packages/core/src/routing.ts uses:
-- a day of the month that underflows is carried to the month before. Years are from 100 on.
use postbag.Common.{ℕ, zero, suc, ◌-◌, ◌%◌, ◌≤◌, Bool, ◌&&◌, ◌||◌, not, ◌==◌, leb, if◌then◌else◌}

pub record Date : Type 0 where
  pub year : ℕ
  pub month : ℕ
  pub day : ℕ

unfoldable pub is_leap : ℕ → Bool
is_leap y = ((y % 4 == 0) && not (y % 100 == 0)) || (y % 400 == 0)

unfoldable pub month_length : ℕ → ℕ → ℕ
unfolding is_leap
month_length y m =
    if m == 2
    then (if is_leap y then 29 else 28)
    else (if (m == 4) || (m == 6) || (m == 9) || (m == 11) then 30 else 31)

unfoldable pub previous_day : Date → Date
unfolding month_length
previous_day d =
    if leb 2 d.day
    then record d { day = d.day - 1 }
    else (if leb 2 d.month
        then (record {
          year = d.year;
          month = d.month - 1;
          day = month_length d.year (d.month - 1);
        })
        else (record { year = d.year - 1; month = 12; day = 31 }))

-- `Date.UTC(year, month - 1, day - daysBefore)`
unfoldable pub minus_days : Date → ℕ → Date
unfolding previous_day
minus_days d zero = d
minus_days d (suc n) = minus_days (previous_day d) n

pub record IsValid (d : Date) : Type 0 where
  pub years : 1 ≤ d.year
  pub months : (1 ≤ d.month) × (d.month ≤ 12)
  pub days : (1 ≤ d.day) × (d.day ≤ month_length d.year d.month)
