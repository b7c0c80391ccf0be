-- ===== src/Routing/DayNumber.antt =====
-- The days of the Gregorian calendar, counted: stepping back over the calendar of
-- Routing/Calendar lowers the number of the day by one.
use postbag.Common.{
  ℕ, zero, suc, ◌+◌, ◌-◌, ◌*◌, ◌/◌, ◌≤◌, ◌≡◌, arith, ◌==◌, inl, inr, leb, if◌then◌else◌, Bool-cases,
  leb→le,
}
use postbag.Routing.Calendar.{Date, IsValid, is_leap, month_length, previous_day, minus_days}

-- Days of the year before month `m`.
days_before_month : ℕ → ℕ → ℕ
unfolding month_length
days_before_month y zero = 0
days_before_month y (suc m) = if m == 0 then 0 else days_before_month y m + month_length y m

-- The number of a day, counted over the Gregorian calendar from the first of January of year 1.
unfoldable pub day_number : Date → ℕ
unfolding days_before_month
day_number d =
    let y = d.year - 1 in
    365 * y + y / 4 - y / 100 + y / 400 + days_before_month d.year d.month + d.day

days_before_month-suc :
    (y m : ℕ) → 1 ≤ m → days_before_month y (suc m) ≡ days_before_month y m + month_length y m
unfolding days_before_month
days_before_month-suc y m h = ground arith

year_total : (y : ℕ) → days_before_month y 12 + 31 ≡ (if is_leap y then 366 else 365)
unfolding days_before_month is_leap
year_total y = ground arith

leap_step :
    (z : ℕ)
    → 365 * suc z + suc z / 4 - suc z / 100 + suc z / 400
      ≡ 365 * z + z / 4 - z / 100 + z / 400 + (if is_leap (suc z) then 366 else 365)
unfolding is_leap
leap_step z = ground arith

days_before_month-pred :
    (y m : ℕ) → 2 ≤ m → days_before_month y m ≡ days_before_month y (m - 1) + month_length y (m - 1)
days_before_month-pred y zero h = absurd (omega arith)
days_before_month-pred y (suc m) h =
    let e : suc m - 1 ≡ m = omega arith in rw e (days_before_month-suc y m (omega arith))

-- The first of January follows the last of December.
new_year :
    (y : ℕ)
    → 2 ≤ y
    → day_number (record { year = y - 1; month = 12; day = 31 }) + 1
      ≡ day_number (record { year = y; month = 1; day = 1 })
unfolding day_number is_leap
new_year zero h = absurd (omega arith)
new_year (suc zero) h = absurd (omega arith)
new_year (suc (suc z)) h =
    let e : suc (suc z) - 1 ≡ suc z = omega arith in
    let f : suc z - 1 ≡ z = omega arith in rw (e, f) (ground (arith, leap_step z))

previous_month :
    (y m d : ℕ)
    → 2 ≤ m
    → 1 ≤ d
    → d ≤ 1
    → day_number (record { year = y; month = m - 1; day = month_length y (m - 1) }) + 1
      ≡ day_number (record { year = y; month = m; day = d })
unfolding day_number
previous_month y m d h k l = omega (arith, days_before_month-pred y m h)

previous_year :
    (y m d : ℕ)
    → 2 ≤ y
    → 1 ≤ m
    → m ≤ 1
    → 1 ≤ d
    → d ≤ 1
    → day_number (record { year = y - 1; month = 12; day = 31 }) + 1
      ≡ day_number (record { year = y; month = m; day = d })
previous_year y m d h a b k l =
    let e : m ≡ 1 = omega arith in let f : d ≡ 1 = omega arith in rw (e, f) (new_year y h)

-- The day before has the number before, over the ends of months and years.
pub day_number-previous_day :
    (d : Date) → IsValid d → 2 ≤ d.year → day_number (previous_day d) + 1 ≡ day_number d
unfolding previous_day
day_number-previous_day d v h = elim (Bool-cases (leb 2 d.day)) [
  | inl e ↦ rw e (same_month (leb→le 2 d.day e))
  | inr e ↦ rw e (elim (Bool-cases (leb 2 d.month)) [
    | inl f ↦
        rw f (previous_month d.year d.month d.day (leb→le 2 d.month f) v.days.0 (ground arith))
    | inr f ↦
        rw f
          (previous_year d.year d.month d.day h v.months.0 (ground arith) v.days.0 (ground arith))
  ])
]
  where
    same_month : 2 ≤ d.day → day_number (record d { day = d.day - 1 }) + 1 ≡ day_number d
    same_month g = unfold day_number in omega arith

month_length_pos : (y m : ℕ) → 1 ≤ month_length y m
unfolding month_length
month_length_pos y m = ground arith

pub previous_day-IsValid : (d : Date) → IsValid d → 2 ≤ d.year → IsValid (previous_day d)
unfolding previous_day
previous_day-IsValid d v h = ground (arith, month_length_pos d.year (d.month - 1))

previous_day-year : (d : Date) → d.year ≤ (previous_day d).year + 1
unfolding previous_day
previous_day-year d = ground arith

-- Going back `n` days lowers the day number by `n`.
pub day_number-minus_days :
    (n : ℕ) (d : Date) → IsValid d → n + 2 ≤ d.year → day_number (minus_days d n) + n ≡ day_number d
unfolding minus_days
day_number-minus_days zero d v h = omega arith
day_number-minus_days (suc n) d v h = omega (
  arith,
  day_number-previous_day d v (omega arith),
  day_number-minus_days n (previous_day d) (previous_day-IsValid d v (omega arith))
      (omega (arith, previous_day-year d)),
)
