-- ===== src/Plan/Limits.antt =====
-- apps/server/src/lib/plan.ts, and the capacity checks of apps/server/src/lib/planUsage.ts.
use postbag.Common.{ℕ, ◌+◌, ◌*◌, ◌-◌, ◌^◌, Option, ltb, get_or_else}
use postbag.Errors.{
  Result, ok, err, throw_if, plan_limit_reached, attachment_storage_limit_reached,
  plan_is_complimentary, billing_disabled,
}
use postbag.Plan.Types.{Plan, free, pro, team, selfhost, PlanSource, complimentary, own_host}

-- `PLAN_ORDER`
abbrev pub plan_order : Plan → ℕ
plan_order free = 0
plan_order pro = 1
plan_order team = 2
plan_order selfhost = 3

pub record PlanLimits : Type 0 where
  pub forms : ℕ
  pub submissions_per_month : ℕ
  pub destinations : ℕ
  pub retention_days : ℕ
  pub attachment_max_bytes : ℕ
  pub attachments_per_submission : ℕ
  pub attachment_storage_bytes : ℕ

abbrev pub mib : ℕ
mib = 1024 * 1024

abbrev pub default_limits : Plan → PlanLimits
default_limits free = record {
  forms = 5;
  submissions_per_month = 1000;
  destinations = 5;
  retention_days = 90;
  attachment_max_bytes = 2 * mib;
  attachments_per_submission = 3;
  attachment_storage_bytes = 100 * mib;
}
default_limits pro = record {
  forms = 50;
  submissions_per_month = 50000;
  destinations = 50;
  retention_days = 365;
  attachment_max_bytes = 10 * mib;
  attachments_per_submission = 10;
  attachment_storage_bytes = 10 * (1024 * mib);
}
default_limits team = record {
  forms = 500;
  submissions_per_month = 500000;
  destinations = 500;
  retention_days = 730;
  attachment_max_bytes = 15 * mib;
  attachments_per_submission = 20;
  attachment_storage_bytes = 100 * (1024 * mib);
}
default_limits selfhost = record {
  forms = 1000000;
  submissions_per_month = 1000000000;
  destinations = 1000000;
  retention_days = 36500;
  attachment_max_bytes = 15 * mib;
  attachments_per_submission = 20;
  attachment_storage_bytes = 2 ^ 53 - 1;
}

-- `Record<string, number>` at the keys that are read.
pub record StoredLimits : Type 0 where
  pub forms : Option ℕ
  pub submissions_per_month : Option ℕ
  pub destinations : Option ℕ
  pub retention_days : Option ℕ
  pub attachment_max_bytes : Option ℕ
  pub attachments_per_submission : Option ℕ
  pub attachment_storage_bytes : Option ℕ

-- `plan` is `none` where the text is no plan.
unfoldable pub limits_for : Option Plan → StoredLimits → PlanLimits
limits_for plan stored =
    let defaults = default_limits (get_or_else plan free) in
    record {
      forms = get_or_else stored.forms defaults.forms;
      submissions_per_month =
          get_or_else stored.submissions_per_month defaults.submissions_per_month;
      destinations = get_or_else stored.destinations defaults.destinations;
      retention_days = get_or_else stored.retention_days defaults.retention_days;
      attachment_max_bytes = get_or_else stored.attachment_max_bytes defaults.attachment_max_bytes;
      attachments_per_submission =
          get_or_else stored.attachments_per_submission defaults.attachments_per_submission;
      attachment_storage_bytes =
          get_or_else stored.attachment_storage_bytes defaults.attachment_storage_bytes;
    }

unfoldable pub can_start_checkout : PlanSource → Result (Unit {0})
can_start_checkout complimentary = err plan_is_complimentary
can_start_checkout own_host = err billing_disabled
can_start_checkout _ = ok tt

pub data LimitedResource : Type 0 where
  forms destinations : LimitedResource

abbrev pub limit_of : LimitedResource → PlanLimits → ℕ
limit_of forms l = l.forms
limit_of destinations l = l.destinations

-- `used` is the count of the organization's rows, under the advisory lock of the resource.
unfoldable pub assert_locked_plan_capacity :
    PlanLimits → LimitedResource → ℕ → ℕ → Result (Unit {0})
assert_locked_plan_capacity limits resource used requested =
    throw_if (ltb (limit_of resource limits) (used + requested)) plan_limit_reached

unfoldable pub assert_locked_attachment_storage_capacity : PlanLimits → ℕ → ℕ → Result (Unit {0})
assert_locked_attachment_storage_capacity limits used requested_bytes =
    throw_if (ltb limits.attachment_storage_bytes (used + requested_bytes))
      attachment_storage_limit_reached
