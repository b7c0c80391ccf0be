-- ===== src/Plan/Types.antt =====
-- The rows of organization settings, grants, redemptions and billing events, with the columns
-- that the plan logic uses.
use postbag.Common.{ℕ, Bool, Option, List}
use postbag.Routing.Types.{Key}

pub data Plan : Type 0 where
  free pro team selfhost : Plan

pub data PlanSource : Type 0 where
  no_source billing complimentary own_host : PlanSource

pub Plan-discrete : Discrete Plan
Plan-discrete = hlevel

pub PlanSource-discrete : Discrete PlanSource
PlanSource-discrete = hlevel

pub record Settings : Type 0 where
  pub organization_id : Key
  pub plan : Plan
  pub plan_source : PlanSource
  pub plan_note : Option Key
  pub plan_expires_at : Option ℕ
  pub billing_customer_id : Option Key
  pub billing_subscription_id : Option Key
  pub billing_subscription_status : Option Key
  pub billing_current_period_end : Option ℕ
  pub billing_cancel_at_period_end : Bool
  pub billing_provider_event_at : Option ℕ

pub record Grant : Type 0 where
  pub id : Key
  pub code_hash : Key
  pub plan : Plan
  pub note : Option Key
  pub plan_duration_days : Option ℕ
  pub expires_at : Option ℕ
  pub max_redemptions : ℕ
  pub redeemed_count : ℕ
  pub revoked_at : Option ℕ

pub record Redemption : Type 0 where
  pub grant_id : Key
  pub organization_id : Key
  pub redeemed_at : ℕ

-- Why a plan changed; a change by billing names the type of the webhook.
pub data Reason : Type 0 where
  complimentary_redeemed complimentary_expired : Reason
  by_webhook : Key → Reason

-- `organization.plan.changed`
pub record PlanChanged : Type 0 where
  pub organization_id : Key
  pub plan_before : Plan
  pub source_before : PlanSource
  pub plan_after : Plan
  pub source_after : PlanSource
  pub reason : Reason

pub record Db : Type 0 where
  pub settings : List Settings
  pub grants : List Grant
  pub redemptions : List Redemption
  pub events : List PlanChanged
