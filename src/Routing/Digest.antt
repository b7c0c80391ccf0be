-- ===== src/Routing/Digest.antt =====
-- packages/core/src/routing.ts, `numberedPart` to `digestPeriodKey`. What JavaScript's platform
-- computes is a parameter: `Number` of a text, where it is a natural number, and the parts of a
-- date in a time zone, which `Intl` may refuse. `UnsupportedDigestCron` is `validation_failed`.
use postbag.Common.{
  ℕ, zero, suc, ◌+◌, ◌-◌, ◌/◌, ◌%◌, Bool, true, false, ◌&&◌, ◌||◌, not, Option, none, some, List,
  [], ◌∷◌, ◌++◌, ◌==◌, ltb, if◌then◌else◌, Text, codes, teq, trim, is_space, length,
}
use postbag.Errors.{Result, ok, err, validation_failed, ◌>>=◌, ◌>>◌, throw_if, found_or}
use postbag.Routing.Types.{LocalDateTime, DateTimeParts}
use postbag.Routing.Calendar.{minus_days}

pub record Platform : Type 0 where
  pub number : Text → Option ℕ
  pub format_to_parts : ℕ → Text → Result DateTimeParts

-- The index of a name among `WEEKDAYS`.
abbrev weekdays : List Text
weekdays =
    codes "Sun"
    ∷ codes "Mon"
    ∷ codes "Tue"
    ∷ codes "Wed"
    ∷ codes "Thu"
    ∷ codes "Fri"
    ∷ codes "Sat"
    ∷ []

index_among : List Text → Text → Option ℕ
index_among [] name = none
index_among (w ∷ ws) name =
    if teq w name
    then some 0
    else elim (index_among ws name) [ none ↦ none | some i ↦ some (suc i) ]

weekday_index : Option Text → Option ℕ
unfolding index_among
weekday_index none = none
weekday_index (some name) = index_among weekdays name

numbered_part : Option ℕ → Result ℕ
numbered_part = found_or validation_failed

unfoldable pub local_date_time : Platform → ℕ → Text → Result LocalDateTime
unfolding weekday_index numbered_part
local_date_time p at timezone = do
  parts ← p.format_to_parts at timezone
  weekday ← found_or validation_failed (weekday_index parts.weekday)
  year ← numbered_part parts.year
  month ← numbered_part parts.month
  day ← numbered_part parts.day
  hour ← numbered_part parts.hour
  minute ← numbered_part parts.minute
  ok (record {
    year = year;
    month = month;
    day = day;
    hour = hour;
    minute = minute;
    weekday = weekday;
  })

-- The decimal digits of a number, least first, with fuel for each digit.
digits_rev : ℕ → ℕ → Text
digits_rev zero n = []
digits_rev (suc f) n =
    let rest = digits_rev f (n / 10) in (48 + n % 10) ∷ (if n / 10 == 0 then [] else rest)

reverse_onto : Text → Text → Text
reverse_onto [] t = t
reverse_onto (x ∷ xs) t = reverse_onto xs (x ∷ t)

-- `n.toString()`
unfoldable pub to_text : ℕ → Text
unfolding digits_rev reverse_onto
to_text n = reverse_onto (digits_rev (suc n) n) []

zeros : ℕ → Text → Text
zeros zero t = t
zeros (suc n) t = b'0' ∷ zeros n t

-- `t.padStart(width, "0")`
unfoldable pub pad_start : ℕ → Text → Text
unfolding zeros
pad_start width t = zeros (width - length t) t

unfoldable pub date_key : LocalDateTime → ℕ → Text
unfolding to_text pad_start minus_days
date_key now days_before =
    let d = minus_days (record { year = now.year; month = now.month; day = now.day }) days_before in
    pad_start 4 (to_text d.year)
    ++ (b'-' ∷ (pad_start 2 (to_text d.month) ++ (b'-' ∷ pad_start 2 (to_text d.day))))

-- `t.split(/\s+/u)`: between two words stands a run of white space.
words_from : Text → Bool → Text → List Text
words_from word after_space [] = word ∷ []
words_from word after_space (c ∷ t) =
    let next = words_from [] true t in
    let skip = words_from word true t in
    let more = words_from (word ++ (c ∷ [])) false t in
    if is_space c then (if after_space then skip else word ∷ next) else more

unfoldable pub split_space : Text → List Text
unfolding words_from
split_space t = words_from [] false t

pub record Boundary : Type 0 where
  pub hour : ℕ
  pub minute : ℕ
  pub day_of_week : Text

-- The five fields of the cron, where only a daily or weekly one is supported.
unfoldable pub cron_fields : Platform → List Text → Result Boundary
cron_fields p (minute ∷ hour ∷ day_of_month ∷ month ∷ day_of_week ∷ []) = do
  m ← found_or validation_failed (p.number minute)
  h ← found_or validation_failed (p.number hour)
  throw_if
      (ltb 59 m || ltb 23 h || not (teq day_of_month (codes "*")) || not (teq month (codes "*")))
      validation_failed
  ok (record { hour = h; minute = m; day_of_week = day_of_week })
cron_fields p _ = err validation_failed

unfoldable pub parse_cron : Platform → Text → Result Boundary
unfolding cron_fields split_space
parse_cron p cron = cron_fields p (split_space (trim cron))

unfoldable pub before_boundary : LocalDateTime → Boundary → Bool
before_boundary now b = ltb now.hour b.hour || ((now.hour == b.hour) && ltb now.minute b.minute)

-- Days from the last weekly boundary to now.
unfoldable pub days_before : LocalDateTime → Boundary → ℕ → ℕ
unfolding before_boundary
days_before now b target =
    let d = (now.weekday + 7 - target) % 7 in if (d == 0) && before_boundary now b then 7 else d

period_key : Platform → LocalDateTime → Boundary → Result Text
unfolding date_key before_boundary days_before
period_key p now b =
    if teq b.day_of_week (codes "*")
    then ok (codes "daily:" ++ date_key now (if before_boundary now b then 1 else 0))
    else (do
      target ← found_or validation_failed (p.number b.day_of_week)
      throw_if (ltb 6 target) validation_failed
      ok (codes "weekly:" ++ date_key now (days_before now b target)))

unfoldable pub digest_period_key : Platform → Text → Text → ℕ → Result Text
unfolding period_key parse_cron local_date_time
digest_period_key p cron timezone at = do
  b ← parse_cron p cron
  now ← local_date_time p at timezone
  period_key p now b
