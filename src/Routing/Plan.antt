-- ===== src/Routing/Plan.antt =====
-- packages/core/src/routing.ts, `skipReason` to `planDeliveries`.
use postbag.Common.{
  ℕ, Bool, true, false, ◌&&◌, ◌||◌, not, Option, none, some, List, [], ◌∷◌, ◌++◌, map, ◌==◌, ltb,
  leb, if◌then◌else◌, get_or_else, any,
}
use postbag.Errors.{Result, ok, ◌>>=◌}
use postbag.Routing.Types.{
  Key, SubmissionStatus, quarantined, spam, RoutingSubmission, FormStatus, active, paused,
  RoutingForm, RouteMode, instant, digest, Window, Quality, RoutingRoute, StreamMembership, pending,
  skipped, SkipReason, out_of_window, low_quality, form_paused, DeliveryPlan, PlanDeliveriesInput,
}
use postbag.Routing.Digest.{Platform, digest_period_key}

abbrev pub is_paused : FormStatus → Bool
is_paused paused = true
is_paused active = false

abbrev pub is_spam : SubmissionStatus → Bool
is_spam spam = true
is_spam _ = false

abbrev pub is_quarantined : SubmissionStatus → Bool
is_quarantined quarantined = true
is_quarantined _ = false

-- `at < from`, where there is a `from`
abbrev pub is_before : ℕ → Option ℕ → Bool
is_before at none = false
is_before at (some from) = ltb at from

-- `at >= until`, where there is an `until`
abbrev pub is_after : ℕ → Option ℕ → Bool
is_after at none = false
is_after at (some until) = leb until at

unfoldable pub outside_window : ℕ → Option Window → Bool
outside_window at none = false
outside_window at (some w) = is_before at w.from || is_after at w.until

abbrev pub excludes_spam : Option Quality → Bool
excludes_spam none = true
excludes_spam (some q) = get_or_else q.exclude_spam true

abbrev pub excludes_quarantined : Option Quality → Bool
excludes_quarantined none = true
excludes_quarantined (some q) = get_or_else q.exclude_quarantined true

unfoldable pub skip_reason : RoutingSubmission → RoutingForm → RoutingRoute → Option SkipReason
skip_reason submission form route =
    if is_paused form.status
    then some form_paused
    else if outside_window submission.received_at route.window
    then some out_of_window
    else if (is_spam submission.status && excludes_spam route.quality)
        || (is_quarantined submission.status && excludes_quarantined route.quality)
    then some low_quality
    else none

-- One element of `candidates`: a route with the stream and the schema version that it came with.
pub record Candidate : Type 0 where
  pub route : RoutingRoute
  pub stream_id : Option Key
  pub schema_version : Option ℕ

abbrev pub base_plan : Candidate → DeliveryPlan
base_plan c = record {
  route_id = c.route.id;
  destination_id = c.route.destination_id;
  stream_id = c.stream_id;
  status = pending;
  skip_reason = none;
  schema_version = c.schema_version;
  digest_period_key = none;
}

abbrev pub with_mode : Platform → ℕ → DeliveryPlan → Option RouteMode → Result DeliveryPlan
with_mode p at plan none = ok plan
with_mode p at plan (some instant) = ok plan
with_mode p at plan (some (digest cron timezone)) = digest_period_key p cron timezone at >>= λ key.
    ok (record plan { digest_period_key = some key })

abbrev pub with_reason : Platform → ℕ → Candidate → Option SkipReason → Result DeliveryPlan
with_reason p at c (some reason) =
    ok (record (base_plan c) { status = skipped; skip_reason = some reason })
with_reason p at c none = with_mode p at (base_plan c) c.route.mode

unfoldable pub plan_route :
    Platform → RoutingSubmission → RoutingForm → Candidate → Result DeliveryPlan
plan_route p submission form c =
    with_reason p submission.received_at c (skip_reason submission form c.route)

of_membership : StreamMembership → List RoutingRoute → List Candidate
of_membership m [] = []
of_membership m (r ∷ rs) =
    record { route = r; stream_id = some m.stream_id; schema_version = m.schema_version }
    ∷ of_membership m rs

of_memberships : List StreamMembership → List Candidate
of_memberships [] = []
of_memberships (m ∷ ms) = of_membership m m.routes ++ of_memberships ms

unfoldable pub candidates : PlanDeliveriesInput → List Candidate
unfolding of_membership of_memberships
candidates input =
    map (λ r. record { route = r; stream_id = none; schema_version = input.form.schema_version })
      input.direct_routes
    ++ of_memberships input.stream_memberships

-- The loop of `planDeliveries`; `planned` is `plannedRouteIds`.
unfoldable pub plan_loop :
    Platform
    → RoutingSubmission
    → RoutingForm
    → List Key
    → List Candidate
    → Result (List DeliveryPlan)
plan_loop p submission form planned [] = ok []
plan_loop p submission form planned (c ∷ cs) =
    let skip = plan_loop p submission form planned cs in
    let rest = plan_loop p submission form (c.route.id ∷ planned) cs in
    if not c.route.enabled || any (λ k. k == c.route.id) planned
    then skip
    else (plan_route p submission form c >>= λ plan. rest >>= λ plans. ok (plan ∷ plans))

unfoldable pub plan_deliveries : Platform → PlanDeliveriesInput → Result (List DeliveryPlan)
plan_deliveries p input = plan_loop p input.submission input.form [] (candidates input)
