-- ===== src/Submit/Requests.antt =====
-- What a request brings to the transaction, the receipt of an earlier submission, the quota and the
-- row: apps/server/src/routes/submit.ts with `countMonthlySubmissions` of
-- apps/server/src/lib/planUsage.ts.
use postbag.Errors.{Result}
use postbag.Common.{
  ℕ, Bool, true, false, ◌&&◌, not, Option, none, some, List, Text, teq, any, map, keep, find,
  count_of, leb, ◌==◌, if◌then◌else◌,
}
use postbag.Json.Values.{Value, Fields}
use postbag.Mapping.Apply.{Mapping}
use postbag.Routing.Types.{
  Key, SubmissionStatus, RoutingRoute, StreamMembership, PlanDeliveriesInput, active, paused,
}
use postbag.Schema.Drift.{DriftFinding}
use postbag.Submit.Types.{Submission, Attachment, AttachmentRow, Db, Form, over_quota}
use postbag.Submit.Verdict.{Verdict, is_received, quarantine}

abbrev pub has_text : Option Text → Text → Bool
has_text none k = false
has_text (some j) k = teq j k

-- The rows that `submissions_form_idempotency_unique` holds apart.
abbrev pub with_key : Key → Text → Submission → Bool
with_key form key s = (s.form_id == form) && has_text s.idempotency_key key

pub record Receipt : Type 0 where
  pub submission_id : Key
  pub status : SubmissionStatus
  pub idempotent : Bool
  pub attachments : List Key

abbrev pub is_of : Key → Key → AttachmentRow → Bool
is_of organization submission a =
    (a.organization_id == organization) && (a.submission_id == submission)

abbrev pub receipt_of : Form → Db → Option Submission → Option Receipt
receipt_of form db none = none
receipt_of form db (some s) = some (record {
  submission_id = s.id;
  status = s.status;
  idempotent = true;
  attachments =
      map (λ (a : AttachmentRow). a.file.id)
        (keep (is_of form.organization_id s.id) db.attachments);
})

unfoldable pub existing_submission_receipt : Db → Form → Text → Option Receipt
existing_submission_receipt db form key = receipt_of form db (
    find (λ (s : Submission). (s.organization_id == form.organization_id) && with_key form.id key s)
      db.submissions)

-- `month` is the moment at which the month began.
unfoldable pub count_monthly_submissions : Key → ℕ → Db → ℕ
count_monthly_submissions organization month db =
    count_of
      (λ (s : Submission).
        (s.organization_id == organization) && not s.test && leb month s.received_at)
      db.submissions

-- What the request brings to the transaction. `id` is the new identifier, `limit` the plan's
-- `submissions_per_month`; a stream has a mapping where it has a schema, under which
-- `validate_by` is `validateAgainstSchema`.
pub record Request : Type 0 where
  pub id : Key
  pub form : Form
  pub fields : Fields
  pub test : Bool
  pub idempotency_key : Option Text
  pub verdict : Verdict
  pub drift : List DriftFinding
  pub received_at : ℕ
  pub month : ℕ
  pub now : ℕ
  pub limit : ℕ
  pub direct_routes : List RoutingRoute
  pub stream_memberships : List StreamMembership
  pub mapping_of : Key → Option Mapping
  pub validate_by : Key → Value → Result Bool
  pub attachments : List Attachment

-- The quota, under the lock of the organization's submissions.
unfoldable pub within_quota : Request → Db → Verdict
unfolding count_monthly_submissions
within_quota r db =
    if is_received r.verdict.status
      && not r.test
      && leb r.limit (count_monthly_submissions r.form.organization_id r.month db)
    then quarantine over_quota
    else r.verdict

-- The planner does not read the identifier, for which the code has a placeholder.
abbrev pub plan_input : Request → Verdict → PlanDeliveriesInput
plan_input r v = record {
  submission = record { id = r.id; status = v.status; received_at = r.received_at };
  form = record {
    status = if r.form.paused then paused else active;
    schema_version = r.form.current_schema_version;
  };
  direct_routes = r.direct_routes;
  stream_memberships = r.stream_memberships;
}

abbrev pub schema_version_of : Form → Option Fields → Option ℕ
schema_version_of form none = none
schema_version_of form (some schema) = form.current_schema_version

abbrev pub submission_row : Request → Verdict → Submission
submission_row r v = record {
  id = r.id;
  organization_id = r.form.organization_id;
  form_id = r.form.id;
  fields = r.fields;
  form_schema_version = schema_version_of r.form r.form.schema;
  status = v.status;
  quarantine_reason = v.reason;
  idempotency_key = r.idempotency_key;
  test = r.test;
  received_at = r.received_at;
}

abbrev pub is_taken : Key → Option Text → List Submission → Bool
is_taken form none rows = false
is_taken form (some key) rows = any (with_key form key) rows
