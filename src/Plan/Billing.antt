-- ===== src/Plan/Billing.antt =====
-- apps/server/src/worker/billing.ts, `planForProduct` and `processOne`: what one webhook of the
-- payment provider does to an organization. An error thrown in the transaction undoes it.
use postbag.Common.{
  ℕ, ◌≡◌, Bool, true, false, ◌&&◌, ◌||◌, not, Option, none, some, List, [], ◌∷◌, ◌++◌, ◌==◌, ltb,
  if◌then◌else◌, find, modify, get_or_else, is_none,
}
use postbag.Errors.{Result, ok, ◌>>=◌, ◌>>◌, throw_if, found_or, internal_error}
use postbag.Routing.Types.{Key}
use postbag.Plan.Types.{
  Plan, free, pro, team, PlanSource, no_source, billing, Plan-discrete, PlanSource-discrete,
  Settings, by_webhook, PlanChanged, Db,
}
use postbag.Plan.Grants.{of_organization}
use postbag.Plan.Expiry.{is_complimentary}

pub data WebhookType : Type 0 where
  created updated activated canceled uncanceled revoked past_due paused resumed : WebhookType

-- The products of the environment, each of which may be unset.
pub record Products : Type 0 where
  pub pro_monthly : Option Key
  pub pro_yearly : Option Key
  pub team_monthly : Option Key
  pub team_yearly : Option Key

pub record Webhook : Type 0 where
  pub kind : WebhookType
  pub kind_name : Key
  pub timestamp : ℕ
  pub subscription_id : Key
  pub status : Key
  pub product_id : Key
  pub customer_id : Key
  pub current_period_end : ℕ
  pub cancel_at_period_end : Bool

abbrev pub is_product : Option Key → Key → Bool
is_product none k = false
is_product (some j) k = k == j

unfoldable pub plan_for_product : Products → Key → Option Plan
plan_for_product env id =
    if is_product env.pro_monthly id || is_product env.pro_yearly id
    then some pro
    else if is_product env.team_monthly id || is_product env.team_yearly id
    then some team
    else none

abbrev pub is_revoked : WebhookType → Bool
is_revoked revoked = true
is_revoked _ = false

-- The recorded event is later than this one.
abbrev pub is_stale : Option ℕ → ℕ → Bool
is_stale none t = false
is_stale (some recorded) t = ltb t recorded

unfoldable pub next_plan : Products → Webhook → Settings → Plan
next_plan env w s =
    if is_complimentary s.plan_source
    then s.plan
    else if is_revoked w.kind
    then free
    else get_or_else (plan_for_product env w.product_id) free

unfoldable pub next_source : Webhook → Settings → PlanSource
next_source w s =
    if is_complimentary s.plan_source
    then s.plan_source
    else if is_revoked w.kind
    then no_source
    else billing

abbrev pub with_webhook : Products → Webhook → Settings → Settings
with_webhook env w s = record s {
  plan = next_plan env w s;
  plan_source = next_source w s;
  billing_customer_id = some w.customer_id;
  billing_subscription_id = some w.subscription_id;
  billing_subscription_status = some w.status;
  billing_current_period_end = some w.current_period_end;
  billing_cancel_at_period_end = w.cancel_at_period_end;
  billing_provider_event_at = some w.timestamp;
}

-- The row after the webhook, or the error by which the transaction is undone.
unfoldable pub apply_webhook : Products → Webhook → Settings → Result Settings
apply_webhook env w s =
    if is_stale s.billing_provider_event_at w.timestamp
    then ok s
    else (throw_if (not (is_revoked w.kind) && is_none (plan_for_product env w.product_id))
          internal_error
        >> ok (with_webhook env w s))

same_plan : Settings → Settings → Bool
same_plan s t = same (Plan-discrete s.plan t.plan) (PlanSource-discrete s.plan_source t.plan_source)
  where
    same : Dec (s.plan ≡ t.plan) → Dec (s.plan_source ≡ t.plan_source) → Bool
    same (yes p) (yes q) = true
    same _ _ = false

-- The event of a change of plan or source.
unfoldable pub change_of : Webhook → Settings → Settings → List PlanChanged
unfolding same_plan
change_of w s t =
    if same_plan s t
    then []
    else record {
      organization_id = s.organization_id;
      plan_before = s.plan;
      source_before = s.plan_source;
      plan_after = t.plan;
      source_after = t.plan_source;
      reason = by_webhook w.kind_name;
    }
      ∷ []

-- The transaction for one webhook of an organization, after the event's row has been read.
unfoldable pub process_webhook : Products → Key → Webhook → Db → Result Db
process_webhook env org w db = do
  s ← found_or internal_error (find (of_organization org) db.settings)
  t ← apply_webhook env w s
  ok (record db {
    settings = modify (of_organization org) (λ _. t) db.settings;
    events = db.events ++ change_of w s t;
  })
