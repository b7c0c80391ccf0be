-- ===== src/Routing/Periods.antt =====
-- The digest period of a moment begins at the last boundary of the cron that is not after it.
use postbag.Common.{
  ℕ, ◌+◌, ◌-◌, ◌*◌, ◌%◌, ◌≤◌, ◌<◌, ◌≡◌, arith, ltb, if◌then◌else◌, Text, List, [], ◌∷◌,
}
use postbag.Errors.{ok}
use postbag.Routing.Types.{LocalDateTime}
use postbag.Routing.Digest.{
  Boundary, Platform, before_boundary, days_before, parse_cron, cron_fields,
}

-- Minutes since midnight.
abbrev pub minutes_of : ℕ → ℕ → ℕ
minutes_of h m = h * 60 + m

pub record InDay (now : LocalDateTime) : Type 0 where
  pub hours : now.hour < 24
  pub minutes : now.minute < 60
  pub weekdays : now.weekday < 7

pub record IsBoundary (b : Boundary) : Type 0 where
  pub hours : b.hour ≤ 23
  pub minutes : b.minute ≤ 59

pub before_boundary_iff :
    (now : LocalDateTime) (b : Boundary)
    → InDay now
    → IsBoundary b
    → before_boundary now b ≡ ltb (minutes_of now.hour now.minute) (minutes_of b.hour b.minute)
unfolding before_boundary
before_boundary_iff now b n v = ground arith

-- Weekly: the period's first day falls on the weekday of the cron, and the time since its
-- boundary is at least nothing and less than a week.
pub days_before_lem :
    (now : LocalDateTime) (b : Boundary) (target : ℕ)
    → InDay now
    → IsBoundary b
    → target ≤ 6
    → ((now.weekday + 7 - days_before now b target) % 7 ≡ target)
      × (minutes_of b.hour b.minute
          ≤ days_before now b target * 1440 + minutes_of now.hour now.minute)
      × (days_before now b target * 1440 + minutes_of now.hour now.minute
          < 7 * 1440 + minutes_of b.hour b.minute)
unfolding days_before before_boundary
days_before_lem now b target n v t = ground arith

-- Daily: likewise within one day.
pub daily_boundary :
    (now : LocalDateTime) (b : Boundary)
    → InDay now
    → IsBoundary b
    → let back : ℕ = if before_boundary now b then 1 else 0 in
      (minutes_of b.hour b.minute ≤ back * 1440 + minutes_of now.hour now.minute)
      × (back * 1440 + minutes_of now.hour now.minute < 1440 + minutes_of b.hour b.minute)
unfolding before_boundary
daily_boundary now b n v = ground arith

cron_fields-IsBoundary :
    (p : Platform) (fields : List Text) (b : Boundary) → cron_fields p fields ≡ ok b → IsBoundary b
unfolding cron_fields
cron_fields-IsBoundary p (m ∷ h ∷ dom ∷ mon ∷ dow ∷ []) b e = ground arith
cron_fields-IsBoundary p _ b e = cc

-- The guards of the cron leave an hour and a minute of the day.
pub parse_cron-IsBoundary :
    (p : Platform) (cron : Text) (b : Boundary) → parse_cron p cron ≡ ok b → IsBoundary b
unfolding parse_cron
parse_cron-IsBoundary p cron b h = cron_fields-IsBoundary p _ b h
