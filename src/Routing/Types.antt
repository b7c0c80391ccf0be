-- ===== src/Routing/Types.antt =====
-- The types at the head of packages/core/src/routing.ts. Times are in milliseconds; an identifier,
-- which the code compares only for equality, is a number. A field that may be undefined or null
-- is an `Option`, since the code treats the two alike.
use postbag.Common.{ℕ, Bool, Option, List, Text}

abbrev pub Key : Type 0
Key = ℕ

pub data SubmissionStatus : Type 0 where
  received quarantined spam : SubmissionStatus

pub record RoutingSubmission : Type 0 where
  pub id : Key
  pub status : SubmissionStatus
  pub received_at : ℕ

pub data FormStatus : Type 0 where
  active paused : FormStatus

pub record RoutingForm : Type 0 where
  pub status : FormStatus
  pub schema_version : Option ℕ

pub data RouteMode : Type 0 where
  instant : RouteMode
  digest : (cron : Text) (timezone : Text) → RouteMode

pub record Window : Type 0 where
  pub from : Option ℕ
  pub until : Option ℕ

pub record Quality : Type 0 where
  pub exclude_spam : Option Bool
  pub exclude_quarantined : Option Bool

pub record RoutingRoute : Type 0 where
  pub id : Key
  pub destination_id : Key
  pub enabled : Bool
  pub window : Option Window
  pub quality : Option Quality
  pub mode : Option RouteMode

pub record StreamMembership : Type 0 where
  pub stream_id : Key
  pub schema_version : Option ℕ
  pub routes : List RoutingRoute

pub data PlanStatus : Type 0 where
  pending skipped : PlanStatus

pub data SkipReason : Type 0 where
  out_of_window low_quality form_paused : SkipReason

pub record DeliveryPlan : Type 0 where
  pub route_id : Key
  pub destination_id : Key
  pub stream_id : Option Key
  pub status : PlanStatus
  pub skip_reason : Option SkipReason
  pub schema_version : Option ℕ
  pub digest_period_key : Option Text

pub record PlanDeliveriesInput : Type 0 where
  pub submission : RoutingSubmission
  pub form : RoutingForm
  pub direct_routes : List RoutingRoute
  pub stream_memberships : List StreamMembership

pub record LocalDateTime : Type 0 where
  pub year : ℕ
  pub month : ℕ
  pub day : ℕ
  pub hour : ℕ
  pub minute : ℕ
  pub weekday : ℕ

-- What `Intl.DateTimeFormat.formatToParts` gives, by the type of the part.
pub record DateTimeParts : Type 0 where
  pub year : Option ℕ
  pub month : Option ℕ
  pub day : Option ℕ
  pub hour : Option ℕ
  pub minute : Option ℕ
  pub weekday : Option Text
