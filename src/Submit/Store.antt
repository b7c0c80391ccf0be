-- ===== src/Submit/Store.antt =====
-- The transaction that stores a submission: apps/server/src/routes/submit.ts. A statement that breaks
-- a unique index throws, and the transaction leaves the tables as they were.
use postbag.Common.{
  ℕ, Bool, true, false, ◌&&◌, not, Option, none, some, List, [], ◌∷◌, ◌++◌, Text, any, map, keep,
  count_of, length, ◌==◌, if◌then◌else◌, is_none,
}
use postbag.Errors.{
  Result, ok, ◌>>=◌, ◌>>◌, throw_if, internal_error, attachment_storage_unavailable,
}
use postbag.Json.Values.{Value, Fields, end}
use postbag.Mapping.Apply.{Mapping, apply_mapping}
use postbag.Routing.Types.{Key, SubmissionStatus, DeliveryPlan, pending, skipped, PlanStatus}
use postbag.Routing.Digest.{Platform}
use postbag.Routing.Plan.{plan_deliveries}
use postbag.Schema.Drift.{DriftFinding}
use postbag.Submit.Types.{Submission, Attachment, ObjectDeletion, DeliveryRow, Db}
use postbag.Submit.Requests.{Request, within_quota, plan_input, submission_row, is_taken}

unfoldable pub insert_submission : Submission → Db → Result Db
insert_submission s db =
    throw_if (is_taken s.form_id s.idempotency_key db.submissions) internal_error
    >> ok (record db { submissions = db.submissions ++ (s ∷ []) })

abbrev pub is_file : List Attachment → ObjectDeletion → Bool
is_file files d = any (λ (a : Attachment). a.storage_key == d.storage_key) files

abbrev pub is_reserved : List Attachment → ObjectDeletion → Bool
is_reserved files d = is_file files d && d.upload_reservation

abbrev pub with_files : Request → Db → Db
with_files r db = record db {
  attachments =
      db.attachments
      ++ map
          (λ (a : Attachment). record {
            organization_id = r.form.organization_id;
            submission_id = r.id;
            file = a;
          })
          r.attachments;
  object_deletions = keep (λ d. not (is_file r.attachments d)) db.object_deletions;
}

-- The reservations are renewed, counted, and deleted with the insertion of the files' rows.
unfoldable pub finalize_attachments : Request → Db → Result Db
finalize_attachments r db =
    throw_if
      (not (count_of (is_reserved r.attachments) db.object_deletions == length r.attachments))
      attachment_storage_unavailable
    >> ok (with_files r db)

abbrev pub has_files : List Attachment → Bool
has_files [] = false
has_files (a ∷ files) = true

unfoldable pub finalize_if : Request → Db → Result Db
unfolding finalize_attachments
finalize_if r db = if has_files r.attachments then finalize_attachments r db else ok db

unfoldable pub record_drift : Request → Db → Db
record_drift r db = record db {
  drift_events =
      db.drift_events
      ++ map
          (λ (f : DriftFinding). record {
            organization_id = r.form.organization_id;
            form_id = r.form.id;
            submission_id = r.id;
            finding = f;
          })
          r.drift;
}

-- `DIGEST_PARKED_UNTIL`, the first of January 9999, in milliseconds
abbrev pub digest_parked_until : ℕ
digest_parked_until = 253370764800000

abbrev pub due_at : ℕ → Option Text → ℕ
due_at now none = now
due_at now (some period) = digest_parked_until

unfoldable pub mapped : (validate : Value → Result Bool) → Fields → Option Mapping → Result Fields
unfolding apply_mapping
mapped validate fields none = ok fields
mapped validate fields (some mapping) = do m ← apply_mapping validate fields mapping; ok m.payload

-- The submission's fields, or what the stream's mapping makes of them.
unfoldable pub payload_for : Request → Option Key → Result Fields
unfolding mapped
payload_for r none = ok r.fields
payload_for r (some stream) = mapped (r.validate_by stream) r.fields (r.mapping_of stream)

abbrev pub is_dedupe : Key → Key → DeliveryRow → Bool
is_dedupe submission route d = (d.submission_id == submission) && (d.route_id == route)

-- An insertion of a row, whose `dedupe_key` is unique.
abbrev pub insert_row : DeliveryRow → Db → Result Db
insert_row d db =
    throw_if (any (is_dedupe d.submission_id d.route_id) db.deliveries) internal_error
    >> ok (record db { deliveries = db.deliveries ++ (d ∷ []) })

abbrev pub skipped_row : Request → DeliveryPlan → DeliveryRow
skipped_row r plan = record {
  organization_id = r.form.organization_id;
  submission_id = r.id;
  route_id = plan.route_id;
  destination_id = plan.destination_id;
  status = skipped;
  skip_reason = plan.skip_reason;
  payload = end;
  schema_version = plan.schema_version;
  next_attempt_at = some r.now;
  digest_period_key = none;
}

abbrev pub pending_row : Request → DeliveryPlan → Fields → DeliveryRow
pending_row r plan payload = record {
  organization_id = r.form.organization_id;
  submission_id = r.id;
  route_id = plan.route_id;
  destination_id = plan.destination_id;
  status = pending;
  skip_reason = none;
  payload = payload;
  schema_version = plan.schema_version;
  next_attempt_at = some (due_at r.now plan.digest_period_key);
  digest_period_key = plan.digest_period_key;
}

unfoldable pub row_of : Request → DeliveryPlan → PlanStatus → Result DeliveryRow
unfolding payload_for
row_of r plan skipped = ok (skipped_row r plan)
row_of r plan pending = payload_for r plan.stream_id >>= λ payload. ok (pending_row r plan payload)

-- The row of a plan: a skipped one carries no payload, and the column's default, now.
unfoldable pub delivery_row : Request → DeliveryPlan → Result DeliveryRow
unfolding row_of
delivery_row r plan = row_of r plan plan.status

unfoldable pub insert_deliveries : Request → List DeliveryPlan → Db → Result Db
unfolding delivery_row
insert_deliveries r [] db = ok db
insert_deliveries r (plan ∷ plans) db = do
  row ← delivery_row r plan
  next ← insert_row row db
  insert_deliveries r plans next

-- `hasPendingDelivery`: whether the worker is told at once.
abbrev pub is_instant : DeliveryPlan → Bool
is_instant plan = elim plan.status [ skipped ↦ false | pending ↦ is_none plan.digest_period_key ]

pub record Accepted : Type 0 where
  pub submission_id : Key
  pub has_pending_delivery : Bool
  pub status : SubmissionStatus

unfoldable pub store_submission : Platform → Request → Db → Result (Db × Accepted)
unfolding within_quota insert_submission finalize_if record_drift insert_deliveries
store_submission p r db = do
  plans ← plan_deliveries p (plan_input r (within_quota r db))
  inserted ← insert_submission (submission_row r (within_quota r db)) db
  finalized ← finalize_if r inserted
  delivered ← insert_deliveries r plans (record_drift r finalized)
  ok (
    delivered,
    record {
      submission_id = r.id;
      has_pending_delivery = any is_instant plans;
      status = (within_quota r db).status;
    },
  )
