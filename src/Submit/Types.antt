-- ===== src/Submit/Types.antt =====
-- The rows that the submission handler reads and writes: packages/db/src/schema/submissions.ts,
-- attachments.ts, forms.ts and deliveries.ts, with the columns that it uses.
use postbag.Common.{ℕ, Bool, Option, List, Text}
use postbag.Json.Values.{Fields}
use postbag.Routing.Types.{Key, SubmissionStatus, SkipReason, PlanStatus}
use postbag.Schema.Drift.{DriftFinding}

pub data QuarantineReason : Type 0 where
  origin_rejected rate_limited turnstile_failed schema_violation over_quota : QuarantineReason

pub record Submission : Type 0 where
  pub id : Key
  pub organization_id : Key
  pub form_id : Key
  pub fields : Fields
  pub form_schema_version : Option ℕ
  pub status : SubmissionStatus
  pub quarantine_reason : Option QuarantineReason
  pub idempotency_key : Option Text
  pub test : Bool
  pub received_at : ℕ

-- A file of the body, and its row once the submission is stored.
pub record Attachment : Type 0 where
  pub id : Key
  pub storage_key : Key
  pub size_bytes : ℕ

pub record AttachmentRow : Type 0 where
  pub organization_id : Key
  pub submission_id : Key
  pub file : Attachment

pub record ObjectDeletion : Type 0 where
  pub storage_key : Key
  pub organization_id : Key
  pub size_bytes : ℕ
  pub upload_reservation : Bool
  pub upload_idempotency_hash : Option Key
  pub next_attempt_at : ℕ

pub record DriftEvent : Type 0 where
  pub organization_id : Key
  pub form_id : Key
  pub submission_id : Key
  pub finding : DriftFinding

-- `dedupe_key` is the pair of the submission and the route. A skipped row has the payload `{}`.
pub record DeliveryRow : Type 0 where
  pub organization_id : Key
  pub submission_id : Key
  pub route_id : Key
  pub destination_id : Key
  pub status : PlanStatus
  pub skip_reason : Option SkipReason
  pub payload : Fields
  pub schema_version : Option ℕ
  pub next_attempt_at : Option ℕ
  pub digest_period_key : Option Text

pub record Db : Type 0 where
  pub submissions : List Submission
  pub attachments : List AttachmentRow
  pub object_deletions : List ObjectDeletion
  pub drift_events : List DriftEvent
  pub deliveries : List DeliveryRow

pub data SchemaMode : Type 0 where
  observe enforce managed : SchemaMode

-- A form whose current schema version has a row carries that schema.
pub record Form : Type 0 where
  pub id : Key
  pub organization_id : Key
  pub paused : Bool
  pub current_schema_version : Option ℕ
  pub schema_mode : SchemaMode
  pub schema : Option Fields

pub record Settings : Type 0 where
  pub allowed_origins : List Text
  pub per_minute : Option ℕ
  pub burst : Option ℕ
  pub turnstile_enabled : Bool
  pub turnstile_secret : Bool
