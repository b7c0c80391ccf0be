-- ===== src/Plan/Tests.antt =====
-- Tests of the plan logic, and the theorems at concrete inputs.
use postbag.Common.{◌≡◌, refl, true, false, none, some, List, [], ◌∷◌, arith, inl, inr, Has, ℕ}
use postbag.Errors.{ok, err, plan_is_billing, grant_exhausted, internal_error}
use postbag.Plan.Types.{free, pro, team, no_source, billing, complimentary, Settings, Grant, Db}
use postbag.Plan.Grants.{Redeemable, check_grant, check_settings, check, write, redeem}
use postbag.Plan.Billing.{
  activated, revoked, Products, Webhook, next_plan, plan_for_product, apply_webhook,
  process_webhook,
}
use postbag.Plan.BillingQueue.{
  BillingEventStatus, processed, BillingEvent, Store, process_one, try_candidate,
}
use postbag.Plan.Retries.{attempted, try_candidate_lem}
use postbag.Plan.BillingOrder.{absorb, absorb_comm}
use postbag.Plan.Redemptions.{IsSound, redeemed, Step, Reach, redemptions_counted}
use postbag.Plan.Races.{concurrent_redemptions}

abbrev settings : Settings
settings = record {
  organization_id = 1;
  plan = free;
  plan_source = no_source;
  plan_note = none;
  plan_expires_at = none;
  billing_customer_id = none;
  billing_subscription_id = none;
  billing_subscription_status = none;
  billing_current_period_end = none;
  billing_cancel_at_period_end = false;
  billing_provider_event_at = none;
}

abbrev grant : Grant
grant = record {
  id = 7;
  code_hash = 70;
  plan = pro;
  note = none;
  plan_duration_days = some 30;
  expires_at = some 5000;
  max_redemptions = 1;
  redeemed_count = 0;
  revoked_at = none;
}

abbrev db : Db
db = record {
  settings = settings ∷ record settings { organization_id = 2 } ∷ [];
  grants = grant ∷ [];
  redemptions = [];
  events = [];
}

abbrev first : Redeemable
first = record { grant = grant; settings = settings }

abbrev second : Redeemable
second = record { grant = grant; settings = record settings { organization_id = 2 } }

test_check : check true 1 70 4000 db ≡ ok first
unfolding check check_grant check_settings
test_check = refl

test_second : check true 2 70 4500 db ≡ ok second
unfolding check check_grant check_settings
test_second = refl

test_redeem : redeem true 1 70 4000 db ≡ ok (write 1 4000 first db)
unfolding redeem check check_grant check_settings
test_redeem = refl

test_exhausted : redeem true 2 70 4000 (write 1 4000 first db) ≡ err grant_exhausted
unfolding redeem check check_grant check_settings write
test_exhausted = refl

test_is_billing :
    redeem true 1 70 4000 (record db { settings = record settings { plan_source = billing } ∷ [] })
    ≡ err plan_is_billing
unfolding redeem check check_grant check_settings
test_is_billing = refl

db-IsSound : IsSound db
db-IsSound = record {
  ids = (refl, tt);
  quota = λ g m. elim m [ inl e ↦ (ground arith) | inr n ↦ absurd n ];
}

redemptions_counted_example : IsSound (write 1 4000 first db)
redemptions_counted_example =
    redemptions_counted
      (Reach.next Reach.here (Step.redeems true 1 70 4000 db (write 1 4000 first db) test_redeem))
      db-IsSound

concurrent_redemptions_example :
    (redeemed 7 (write 2 4500 second (write 1 4000 first db)).redemptions ≡ 2)
    × ((g : Grant)
        → Has g (write 2 4500 second (write 1 4000 first db)).grants
        → g.id ≡ 7
        → g.redeemed_count ≡ 1)
concurrent_redemptions_example =
    concurrent_redemptions 1 2 70 4000 4500 db first second db-IsSound test_check test_second

abbrev courtesy_rows : List Settings
courtesy_rows =
    record settings { plan = pro; plan_source = complimentary; plan_expires_at = some 100 }
    ∷ record settings { organization_id = 2 }
    ∷ []

abbrev products : Products
products = record {
  pro_monthly = some 11;
  pro_yearly = none;
  team_monthly = some 12;
  team_yearly = some 13;
}

abbrev activation : Webhook
activation = record {
  kind = activated;
  kind_name = 21;
  timestamp = 50;
  subscription_id = 31;
  status = 32;
  product_id = 12;
  customer_id = 33;
  current_period_end = 900;
  cancel_at_period_end = false;
}

abbrev revocation : Webhook
revocation = record activation { kind = revoked; kind_name = 22; timestamp = 60 }

test_activation : (absorb products settings activation).plan ≡ team
unfolding apply_webhook next_plan plan_for_product
test_activation = refl

test_unknown_product :
    apply_webhook products (record activation { product_id = 99 }) settings ≡ err internal_error
unfolding apply_webhook plan_for_product
test_unknown_product = refl

absorb_comm_example :
    absorb products (absorb products settings activation) revocation
    ≡ absorb products (absorb products settings revocation) activation
absorb_comm_example = absorb_comm products settings activation revocation (ground arith)

abbrev event : BillingEvent
event = record {
  id = 5;
  organization_id = 1;
  payload = some activation;
  status = BillingEventStatus.pending;
  attempts = 2;
  next_attempt_at = 0;
  created_at = 0;
}

abbrev done : BillingEvent
done = record event { id = 6; status = processed }

abbrev store : Store
store = record { queue = event ∷ done ∷ []; db = db }

abbrev failure_time : ℕ → ℕ
failure_time k = 2000

-- A product that is not known fails, and waits for eight minutes.
test_retry :
    (try_candidate products failure_time 1000 5 (record store {
      queue = record event { payload = some (record activation { product_id = 99 }) } ∷ [];
    })).queue
    ≡ record event {
      payload = some (record activation { product_id = 99 });
      attempts = 3;
      next_attempt_at = 482000;
    }
      ∷ []
unfolding try_candidate process_one process_webhook apply_webhook plan_for_product
test_retry = refl

try_candidate_lem_example :
    try_candidate products failure_time 1000 5 store
    ≡ attempted products failure_time 1000 5 store event
try_candidate_lem_example =
    try_candidate_lem products failure_time 1000 5 store event (refl, (refl, tt)) refl
