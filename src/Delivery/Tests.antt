-- ===== src/Delivery/Tests.antt =====
-- Tests of the delivery queue, and the theorems at concrete inputs.
use postbag.Common.{ℕ, ◌+◌, ◌≡◌, refl, Bool, true, false, none, some, List, [], ◌∷◌, count_of, ◌==◌}
use postbag.Routing.Types.{Key}
use postbag.Delivery.Types.{
  pending, sending, failed, DeliveryStatus, Delivery, webhook, healthy, failing, unknown,
  Destination, delivery_dead, Db,
}
use postbag.Delivery.Backoff
use postbag.Delivery.Backoff.{Fraction, defaults, delay_ms, next_attempt_at, max_attempts_for}
use postbag.Delivery.Claim.{
  is_due, comes_first, sort_by, candidates, mark_sending, has_id, claim_deliveries,
}
use postbag.Delivery.Exclusion.{claim_deliveries_exclusive}
use postbag.Delivery.Process.{
  record_event, disable_destination, dead_row, settle, Attempt, process_delivery, is_failing,
}
use postbag.Delivery.Attempts.{World, claim_world, Reach, Step, retry}
use postbag.Delivery.DestinationHealth.{run, alerts, recoveries, run_health}

abbrev row : ℕ → DeliveryStatus → ℕ → ℕ → Delivery
row k status attempts at = record {
  id = k;
  organization_id = 1;
  submission_id = 5;
  route_id = 6;
  destination_id = 7;
  status = status;
  attempts = attempts;
  next_attempt_at = some at;
  created_at = k;
  worker_id = none;
  claimed_at = none;
  sent_at = none;
  last_response = none;
  has_error = false;
}

abbrev hook : Destination
hook = record {
  id = 7;
  organization_id = 1;
  kind = webhook;
  health = healthy;
  consecutive_failures = 4;
}

abbrev db : Db
db = record {
  deliveries =
      row 1 pending 0 300 ∷ row 2 sending 1 100 ∷ row 3 failed 2 200 ∷ row 4 pending 0 900 ∷ [];
  destinations = hook ∷ [];
  routes = record { id = 6; organization_id = 1; destination_id = 7; enabled = true } ∷ [];
  events = [];
}

abbrev unlocked : Key → Bool
unlocked k = false

test_claim : candidates 500 unlocked 1 db.deliveries ≡ row 3 failed 2 200 ∷ []
unfolding candidates is_due sort_by comes_first
test_claim = refl

test_gone :
    process_delivery
      (λ k. true)
      (record {
        now = 500;
        random = record { num = 1; den = 2 };
        context = some true;
        result = record { ok = false; status_code = some 410 };
      })
      (row 2 sending 1 100)
      db
    ≡ record {
      deliveries =
          row 1 pending 0 300
          ∷ dead_row (some (record { ok = false; status_code = some 410 })) (row 2 sending 1 100)
          ∷ row 3 failed 2 200
          ∷ row 4 pending 0 900
          ∷ [];
      destinations = record hook { health = failing } ∷ [];
      routes = record { id = 6; organization_id = 1; destination_id = 7; enabled = false } ∷ [];
      events = record { organization_id = 1; kind = delivery_dead; subject = 2 } ∷ [];
    }
unfolding process_delivery settle disable_destination record_event
test_gone = refl

test_wait : next_attempt_at 3 1000 defaults (record { num = 1; den = 2 }) ≡ 241000
unfolding next_attempt_at Backoff.jittered delay_ms
test_wait = refl

second_takes :
    has_id (claim_deliveries 600 45 unlocked 1 (claim_deliveries 500 44 unlocked 1 db).0).1 1 ≡ true
unfolding claim_deliveries is_due sort_by comes_first mark_sending
second_takes = refl

claim_deliveries_exclusive_example : has_id (claim_deliveries 500 44 unlocked 1 db).1 1 ≡ false
claim_deliveries_exclusive_example =
    claim_deliveries_exclusive 500 600 44 45 unlocked unlocked 1 1 db 1 second_takes

abbrev timeout : Attempt
timeout = record {
  now = 500;
  random = record { num = 1; den = 2 };
  context = some true;
  result = record { ok = false; status_code = none };
}

abbrev start : World
start = record { db = db; in_flight = row 2 sending 1 100 ∷ [] }

abbrev later : World
later = claim_world 500 44 unlocked 1 start

abbrev later_run : Reach (λ k. true) start later
later_run = Reach.next Reach.here (Step.claim 500 44 unlocked 1 start)

abbrev fresh : Destination
fresh = record hook { health = unknown; consecutive_failures = 0 }

abbrev outcomes : List Bool
outcomes = false ∷ true ∷ false ∷ false ∷ false ∷ false ∷ false ∷ []

run_health_example :
    let (after, events) = run fresh outcomes in
    (after.consecutive_failures ≡ 1)
    × (is_failing after.health ≡ false)
    × (alerts events ≡ recoveries events + 0)
run_health_example = run_health fresh outcomes (record { no_failures = refl; not_failing = refl })

-- A row in flight that is retried by hand is claimed a second time: it is in flight twice.
abbrev retried : World
retried = record start { db = retry 500 1 2 db }

in_flight_twice :
    count_of (λ (d : Delivery). d.id == 2) (claim_world 600 44 unlocked 4 retried).in_flight ≡ 2
unfolding claim_deliveries is_due sort_by comes_first retry mark_sending
in_flight_twice = refl
