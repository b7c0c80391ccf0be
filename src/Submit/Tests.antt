-- ===== src/Submit/Tests.antt =====
-- The submission handler at a concrete request, and the theorems at examples.
use postbag.Submit.Unmoved.{Kept-same}
use postbag.Common.{
  ◌≡◌, refl, true, false, ◌||◌, none, some, List, [], ◌∷◌, ◌++◌, codes, leb, if◌then◌else◌, ◌↔◌,
  Has,
}
use postbag.Errors.{Result, ok, err, internal_error, attachment_storage_unavailable, ◌>>=◌}
use postbag.Json.Values.{Fields, str, field, end}
use postbag.Plan.Types.{free}
use postbag.Plan.Limits.{default_limits, assert_locked_attachment_storage_capacity}
use postbag.RateLimit.Buckets.{Limiter, consume}
use postbag.Routing.Types.{received, quarantined, RoutingRoute, DeliveryPlan, pending}
use postbag.Routing.Digest.{Platform}
use postbag.Routing.Plan.{
  plan_deliveries, plan_loop, candidates, plan_route, skip_reason, outside_window,
}
use postbag.Submit.Types.{Db, Form, Settings, Attachment, DeliveryRow, observe, origin_rejected}
use postbag.Submit.Verdict.{Evidence, schema_answer, decide, rate_of, no_origin}
use postbag.Submit.Requests.{
  Request, Receipt, existing_submission_receipt, plan_input, within_quota, submission_row,
}
use postbag.Submit.Store.{Accepted, store_submission}
use postbag.Submit.Post.{World, acknowledged, post}
use postbag.Submit.Decision.{verdict_in, first_reason, refuses_origin, decide_lem}
use postbag.Submit.Delivered.{RowsFor, IsInstant, store_submission-RowsFor}
use postbag.Submit.Once.{WritesOnce, ledger, post-WritesOnce}

abbrev contact : Form
contact = record {
  id = 1;
  organization_id = 2;
  paused = false;
  current_schema_version = none;
  schema_mode = observe;
  schema = none;
}

abbrev to_mail : RoutingRoute
to_mail = record {
  id = 10;
  destination_id = 20;
  enabled = true;
  window = none;
  quality = none;
  mode = none;
}

abbrev photo : Attachment
photo = record { id = 30; storage_key = 31; size_bytes = 1000 }

abbrev sent : Fields
sent = field (codes "name") (str (codes "Ann")) end

abbrev request : Request
request = record {
  id = 5;
  form = contact;
  fields = sent;
  test = false;
  idempotency_key = some (codes "k1");
  verdict = record { status = received; reason = none };
  drift = [];
  received_at = 1000;
  month = 0;
  now = 1000;
  limit = 1000;
  direct_routes = to_mail ∷ [];
  stream_memberships = [];
  mapping_of = λ k. none;
  validate_by = λ k v. ok true;
  attachments = photo ∷ [];
}

abbrev plain_request : Request
plain_request = record request { attachments = [] }

abbrev empty : Db
empty = record {
  submissions = [];
  attachments = [];
  object_deletions = [];
  drift_events = [];
  deliveries = [];
}

abbrev calm : World
calm = record {
  before_admission = λ db. db;
  rounds = (λ db. db) ∷ [];
  before_store = λ db. db;
  failed_put = none;
  deleted = λ a. true;
  connection = acknowledged;
}

abbrev platform : Platform
platform = record { number = λ t. none; format_to_parts = λ at zone. err internal_error }

abbrev a_plan : DeliveryPlan
a_plan = record {
  route_id = 10;
  destination_id = 20;
  stream_id = none;
  status = pending;
  skip_reason = none;
  schema_version = none;
  digest_period_key = none;
}

abbrev a_delivery : DeliveryRow
a_delivery = record {
  organization_id = 2;
  submission_id = 5;
  route_id = 10;
  destination_id = 20;
  status = pending;
  skip_reason = none;
  payload = sent;
  schema_version = none;
  next_attempt_at = some 1000;
  digest_period_key = none;
}

abbrev posted : Db × Result Receipt
posted = post (default_limits free) platform request (some 77) calm empty

posts :
    posted.1
    ≡ ok
        (record { submission_id = 5; status = received; idempotent = false; attachments = 30 ∷ [] })
unfolding post plan_deliveries existing_submission_receipt assert_locked_attachment_storage_capacity
    plan_loop candidates plan_route skip_reason outside_window
posts = refl

delivers : posted.0.deliveries ≡ a_delivery ∷ []
unfolding post plan_deliveries existing_submission_receipt assert_locked_attachment_storage_capacity
    plan_loop candidates plan_route skip_reason outside_window
delivers = refl

replays :
    (post (default_limits free) platform (record request { id = 6 }) (some 77) calm posted.0).1
    ≡ ok (record { submission_id = 5; status = received; idempotent = true; attachments = 30 ∷ [] })
unfolding post plan_deliveries existing_submission_receipt assert_locked_attachment_storage_capacity
    plan_loop candidates plan_route skip_reason outside_window
replays = refl

fails_clean :
    (post
      (default_limits free)
      platform
      request
      (some 77)
      (record calm { failed_put = some 0 })
      empty)
    ≡ (empty, err attachment_storage_unavailable)
unfolding post existing_submission_receipt assert_locked_attachment_storage_capacity
fails_clean = refl

post-WritesOnce_example :
    let (after, answer) = post (default_limits free) platform request (some 77) calm empty in
    WritesOnce contact (some (codes "k1")) (ledger empty) (ledger after) answer
post-WritesOnce_example =
    post-WritesOnce (default_limits free) platform request (some 77) calm empty tt (
      (λ db. Kept-same contact db db refl),
      ((λ db. Kept-same contact db db refl), tt),
      (λ db. Kept-same contact db db refl),
    )

abbrev stored_plain : Db
stored_plain = record empty {
  submissions = submission_row plain_request plain_request.verdict ∷ [];
  deliveries = a_delivery ∷ [];
}

abbrev accepted_plain : Accepted
accepted_plain = record { submission_id = 5; has_pending_delivery = true; status = received }

stores : store_submission platform plain_request empty ≡ ok (stored_plain, accepted_plain)
unfolding store_submission plan_deliveries plan_loop candidates plan_route skip_reason
    outside_window
stores = refl

store_submission-RowsFor_example :
    (plans : List DeliveryPlan) × (rows : List DeliveryRow) × (plan_deliveries platform
        (plan_input plain_request (within_quota plain_request empty))
      ≡ ok plans)
    × RowsFor plain_request plans rows
    × (stored_plain.deliveries ≡ [] ++ rows)
    × ((true ≡ true) ↔ ((plan : DeliveryPlan) × Has plan plans × IsInstant plan))
store_submission-RowsFor_example =
    store_submission-RowsFor platform plain_request empty stored_plain accepted_plain stores

abbrev strict : Settings
strict = record {
  allowed_origins = codes "https://a.example" ∷ [];
  per_minute = none;
  burst = none;
  turnstile_enabled = false;
  turnstile_secret = false;
}

abbrev evidence : Evidence
evidence = record {
  origin = some (codes "https://b.example");
  cors = no_origin;
  score = 20;
  bucket = 9;
  at = 1000;
  verified = false;
  validates = λ schema. ok true;
}

abbrev limiter : Limiter
limiter = record { buckets = []; last_sweep = 0 }

decide_lem_example :
    (verdict_in (decide contact strict sent evidence limiter).outcome ≡ (
      schema_answer contact evidence.validates >>= λ valid.
      ok (first_reason strict evidence (consume (rate_of strict) 9 1000 limiter).1 valid)))
    × ((decide contact strict sent evidence limiter).limiter ≡ (
        if leb 50 20 || refuses_origin strict evidence
        then limiter
        else (consume (rate_of strict) 9 1000 limiter).0))
decide_lem_example = decide_lem contact strict sent evidence limiter

rejects_origin :
    verdict_in (decide contact strict sent evidence limiter).outcome
    ≡ ok (record { status = quarantined; reason = some origin_rejected })
unfolding decide
rejects_origin = refl
