-- ===== src/Routing/Tests.antt =====
-- Tests of the planner and of the digest periods, and the theorems at concrete inputs.
use postbag.Common.{
  ℕ, ◌+◌, ◌-◌, ◌*◌, ◌≡◌, refl, true, Option, none, some, [], ◌∷◌, arith, Text, codes, inl, ◌↔◌, All,
  leb, if◌then◌else◌, ◌&&◌,
}
use postbag.Errors.{ok, err, validation_failed}
use postbag.Routing.Types.{
  received, spam, RoutingSubmission, active, RoutingForm, digest, RoutingRoute, pending, skipped,
  DeliveryPlan, PlanDeliveriesInput, LocalDateTime, DateTimeParts, low_quality,
}
use postbag.Routing.Calendar.{IsValid, month_length, minus_days}
use postbag.Routing.DayNumber.{day_number}
use postbag.Routing.Digest.{Platform, Boundary, digest_period_key}
use postbag.Routing.Plan
use postbag.Routing.Plan.{Candidate, plan_route, candidates, skip_reason}
use postbag.Routing.Outcomes.{Deliverable, NoDigest, Reasons, plan_route-pending}

-- Decimal digits, as `Number` reads them.
abbrev decimal : ℕ → Text → Option ℕ
decimal n [] = some n
decimal n (c ∷ t) =
    let rest = decimal (n * 10 + (c - 48)) t in if leb 48 c && leb c 57 then rest else none

abbrev number : Text → Option ℕ
number [] = none
number (c ∷ t) = decimal 0 (c ∷ t)

-- A Wednesday, half past nine.
abbrev wednesday : DateTimeParts
wednesday = record {
  year = some 2024;
  month = some 3;
  day = some 6;
  hour = some 9;
  minute = some 30;
  weekday = some (codes "Wed");
}

abbrev platform : Platform
platform = record { number = number; format_to_parts = λ at zone. ok wednesday }

test_leap_day :
    minus_days (record { year = 2024; month = 3; day = 1 }) 2
    ≡ record { year = 2024; month = 2; day = 28 }
unfolding minus_days
test_leap_day = refl

test_new_year :
    minus_days (record { year = 2000; month = 1; day = 3 }) 7
    ≡ record { year = 1999; month = 12; day = 27 }
unfolding minus_days
test_new_year = refl

test_epoch : day_number (record { year = 1970; month = 1; day = 1 }) ≡ 719163
unfolding day_number
test_epoch = refl

test_daily :
    digest_period_key platform (codes "0 8 * * *") (codes "UTC") 0 ≡ ok (codes "daily:2024-03-06")
unfolding digest_period_key
test_daily = refl

test_daily_before :
    digest_period_key platform (codes "45 9 * * *") (codes "UTC") 0 ≡ ok (codes "daily:2024-03-05")
unfolding digest_period_key
test_daily_before = refl

test_weekly :
    digest_period_key platform (codes " 0 8  * * 5 ") (codes "UTC") 0
    ≡ ok (codes "weekly:2024-03-01")
unfolding digest_period_key
test_weekly = refl

test_monthly :
    digest_period_key platform (codes "0 8 1 * *") (codes "UTC") 0 ≡ err validation_failed
unfolding digest_period_key
test_monthly = refl

abbrev route : ℕ → RoutingRoute
route k = record {
  id = k;
  destination_id = 90;
  enabled = true;
  window = none;
  quality = none;
  mode = none;
}

abbrev daily_route : RoutingRoute
daily_route = record {
  id = 4;
  destination_id = 91;
  enabled = true;
  window = none;
  quality = none;
  mode = some (digest (codes "0 8 * * *") (codes "UTC"));
}

abbrev submission : RoutingSubmission
submission = record { id = 1; status = received; received_at = 1000 }

abbrev form : RoutingForm
form = record { status = active; schema_version = some 2 }

abbrev input : PlanDeliveriesInput
input = record {
  submission = submission;
  form = form;
  direct_routes = route 1 ∷ route 2 ∷ [];
  stream_memberships =
      record { stream_id = 7; schema_version = some 5; routes = route 2 ∷ route 3 ∷ [] } ∷ [];
}

abbrev planned : ℕ → Option ℕ → Option ℕ → DeliveryPlan
planned k stream version = record {
  route_id = k;
  destination_id = 90;
  stream_id = stream;
  status = pending;
  skip_reason = none;
  schema_version = version;
  digest_period_key = none;
}

abbrev junk : RoutingSubmission
junk = record { id = 2; status = spam; received_at = 1000 }

abbrev direct : RoutingRoute → Candidate
direct r = record { route = r; stream_id = none; schema_version = some 2 }

abbrev refused : DeliveryPlan
refused = record {
  route_id = 1;
  destination_id = 90;
  stream_id = none;
  status = skipped;
  skip_reason = some low_quality;
  schema_version = some 2;
  digest_period_key = none;
}

test_spam : plan_route platform junk form (direct (route 1)) ≡ ok refused
unfolding plan_route skip_reason Plan.outside_window
test_spam = refl

plan_route-pending_example :
    ((refused.status ≡ pending) ↔ Deliverable junk form (route 1))
    × Reasons junk form (route 1) refused.skip_reason
plan_route-pending_example =
    plan_route-pending platform junk form (direct (route 1)) refused test_spam

abbrev digested : DeliveryPlan
digested = record {
  route_id = 4;
  destination_id = 91;
  stream_id = none;
  status = pending;
  skip_reason = none;
  schema_version = some 2;
  digest_period_key = some (codes "daily:2024-03-06");
}

test_digest : plan_route platform submission form (direct daily_route) ≡ ok digested
unfolding plan_route skip_reason Plan.outside_window digest_period_key
test_digest = refl

no_digest : All NoDigest (candidates input)
unfolding candidates
no_digest = (inl refl, (inl refl, (inl refl, (inl refl, tt))))

abbrev now : LocalDateTime
now = record { year = 2024; month = 3; day = 6; hour = 9; minute = 30; weekday = 3 }

abbrev friday : Boundary
friday = record { hour = 8; minute = 0; day_of_week = codes "5" }

leap_day : IsValid (record { year = 2024; month = 3; day = 1 })
unfolding month_length
leap_day = omega arith
