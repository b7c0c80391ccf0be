-- ===== src/Submit/Delivered.antt =====
-- What the transaction leaves for the worker: a row for each plan.
use postbag.Common.{
  ℕ, Option, none, some, is_none, Text, ◌↔◌, Has, Has-any, any-Has, subst, refl, ◌≡◌, ap, sym, ◌∙◌,
  Bool, true, false, List, [], ◌∷◌, ◌++◌, any, if◌then◌else◌,
}
use mathlib.Core.List.{append_assoc, append-nil}
use postbag.Errors.{
  ok, >>=-ok, throw_if-ok, ok-injective, internal_error, attachment_storage_unavailable,
}
use postbag.Json.Values.{Fields, end}
use postbag.Mapping.Apply.{Mapping, MappingResult, apply_mapping}
use postbag.Routing.Types.{Key, PlanStatus, pending, skipped, DeliveryPlan}
use postbag.Routing.Digest.{Platform}
use postbag.Routing.Plan.{plan_deliveries}
use postbag.Submit.Types.{DeliveryRow, Db}
use postbag.Submit.Requests.{Request, within_quota, plan_input, submission_row}
use postbag.Submit.Store.{
  Accepted, store_submission, insert_submission, has_files, finalize_if, finalize_attachments,
  record_drift, insert_row, delivery_row, insert_deliveries, is_instant, row_of, payload_for,
  mapped, due_at,
}

-- Due at once, or with a period at the first of January 9999.
abbrev pub IsDue : ℕ → Option Text → Option ℕ → Type 0
IsDue now none at = at ≡ some now
IsDue now (some period) at = at ≡ some 253370764800000

-- What the mapping of a stream makes of the submission's fields, where there is one.
abbrev pub IsMapped : Request → Key → Option Mapping → Fields → Type 0
IsMapped r stream none payload = payload ≡ r.fields
IsMapped r stream (some mapping) payload =
    (result : MappingResult) × (apply_mapping (r.validate_by stream) r.fields mapping ≡ ok result)
    × (payload ≡ result.payload)

abbrev pub IsPayload : Request → Option Key → Fields → Type 0
IsPayload r none payload = payload ≡ r.fields
IsPayload r (some stream) payload = IsMapped r stream (r.mapping_of stream) payload

-- What a plan's status, reason and digest make of its row: a skipped one keeps the plan's reason, no
-- payload and no period, and a pending one has no reason, the plan's period and a payload, and is due at
-- once or, with a period, not before the year 9999.
abbrev pub RowBy : Request → DeliveryPlan → PlanStatus → DeliveryRow → Type 0
RowBy r plan skipped d =
    (d.status ≡ skipped)
    × (d.skip_reason ≡ plan.skip_reason)
    × (d.payload ≡ end)
    × (d.digest_period_key ≡ none)
    × (d.next_attempt_at ≡ some r.now)
RowBy r plan pending d =
    (d.status ≡ pending)
    × (d.skip_reason ≡ none)
    × IsPayload r plan.stream_id d.payload
    × (d.digest_period_key ≡ plan.digest_period_key)
    × IsDue r.now plan.digest_period_key d.next_attempt_at

-- The row of a plan: the submission's and the plan's identifiers, and what the plan's status says.
pub record RowFor (r : Request) (plan : DeliveryPlan) (d : DeliveryRow) : Type 0 where
  pub organization : d.organization_id ≡ r.form.organization_id
  pub submission : d.submission_id ≡ r.id
  pub route : d.route_id ≡ plan.route_id
  pub destination : d.destination_id ≡ plan.destination_id
  pub version : d.schema_version ≡ plan.schema_version
  pub by_status : RowBy r plan plan.status d

-- The rows of plans, in their order.
abbrev pub RowsFor : Request → List DeliveryPlan → List DeliveryRow → Type 0
RowsFor r [] [] = Unit
RowsFor r [] (d ∷ rows) = ⊥
RowsFor r (plan ∷ plans) [] = ⊥
RowsFor r (plan ∷ plans) (d ∷ rows) = RowFor r plan d × RowsFor r plans rows

due_at-IsDue : (now : ℕ) (period : Option Text) → IsDue now period (some (due_at now period))
due_at-IsDue now none = refl
due_at-IsDue now (some p) = refl

mapped-IsMapped :
    (r : Request) (stream : Key) (m : Option Mapping) (payload : Fields)
    → mapped (r.validate_by stream) r.fields m ≡ ok payload
    → IsMapped r stream m payload
unfolding mapped
mapped-IsMapped r stream none payload h = sym (ok-injective h)
mapped-IsMapped r stream (some mapping) payload h =
    let (result, e, k) = >>=-ok (apply_mapping (r.validate_by stream) r.fields mapping) _ h in
    (result, e, sym (ok-injective k))

payload_for-IsPayload :
    (r : Request) (stream : Option Key) (payload : Fields)
    → payload_for r stream ≡ ok payload
    → IsPayload r stream payload
unfolding payload_for
payload_for-IsPayload r none payload h = sym (ok-injective h)
payload_for-IsPayload r (some k) payload h = mapped-IsMapped r k (r.mapping_of k) payload h

row_of-RowBy :
    (r : Request) (plan : DeliveryPlan) (status : PlanStatus) (d : DeliveryRow)
    → row_of r plan status ≡ ok d
    → ((d.organization_id ≡ r.form.organization_id)
        × (d.submission_id ≡ r.id)
        × (d.route_id ≡ plan.route_id)
        × (d.destination_id ≡ plan.destination_id)
        × (d.schema_version ≡ plan.schema_version))
      × RowBy r plan status d
unfolding row_of
row_of-RowBy r plan skipped d h =
    subst
      (λ (z : DeliveryRow).
        ((z.organization_id ≡ r.form.organization_id)
          × (z.submission_id ≡ r.id)
          × (z.route_id ≡ plan.route_id)
          × (z.destination_id ≡ plan.destination_id)
          × (z.schema_version ≡ plan.schema_version))
        × RowBy r plan skipped z)
      (ok-injective h) ((refl, refl, refl, refl, refl), (refl, refl, refl, refl, refl))
row_of-RowBy r plan pending d h =
    let (payload, e, k) = >>=-ok (payload_for r plan.stream_id) _ h in
    subst
      (λ (z : DeliveryRow).
        ((z.organization_id ≡ r.form.organization_id)
          × (z.submission_id ≡ r.id)
          × (z.route_id ≡ plan.route_id)
          × (z.destination_id ≡ plan.destination_id)
          × (z.schema_version ≡ plan.schema_version))
        × RowBy r plan pending z)
      (ok-injective k)
      (
        (refl, refl, refl, refl, refl),
        (
          refl,
          refl,
          payload_for-IsPayload r plan.stream_id payload e,
          refl,
          due_at-IsDue r.now plan.digest_period_key,
        ),
      )

delivery_row-RowFor :
    (r : Request) (plan : DeliveryPlan) (d : DeliveryRow)
    → delivery_row r plan ≡ ok d
    → RowFor r plan d
unfolding delivery_row
delivery_row-RowFor r plan d h =
    let ((o, s, t, e, v), b) = row_of-RowBy r plan plan.status d h in
    record {
      organization = o;
      submission = s;
      route = t;
      destination = e;
      version = v;
      by_status = b;
    }

-- A plan that is pending and in no digest.
abbrev pub IsInstant : DeliveryPlan → Type 0
IsInstant plan = (plan.status ≡ pending) × (plan.digest_period_key ≡ none)

is_instant-IsInstant : (plan : DeliveryPlan) → (is_instant plan ≡ true) ↔ IsInstant plan
is_instant-IsInstant plan = by_parts plan.status plan.digest_period_key
  where
    by_parts :
        (status : PlanStatus) (period : Option Text)
        → ((elim status as (λ x. Bool) [ skipped ↦ false | pending ↦ is_none period ]) ≡ true)
          ↔ ((status ≡ pending) × (period ≡ none))
    by_parts skipped period = (λ h. cc, λ h. let e = h.0 in cc)
    by_parts pending none = (λ h. (refl, refl), λ h. refl)
    by_parts pending (some p) = (λ h. cc, λ h. let e = h.1 in cc)

any-is_instant :
    (plans : List DeliveryPlan)
    → (any is_instant plans ≡ true) ↔ ((plan : DeliveryPlan) × Has plan plans × IsInstant plan)
any-is_instant plans = (
  λ h. let (plan, m, e) = any-Has is_instant plans h in (plan, m, (is_instant-IsInstant plan).0 e),
  λ (plan, m, e). Has-any is_instant plans plan m ((is_instant-IsInstant plan).1 e),
)

insert_deliveries-RowsFor :
    (r : Request) (plans : List DeliveryPlan) (db after : Db)
    → insert_deliveries r plans db ≡ ok after
    → (rows : List DeliveryRow) × RowsFor r plans rows × (after.deliveries ≡ db.deliveries ++ rows)
unfolding insert_deliveries
insert_deliveries-RowsFor r [] db after h =
    ([], tt, ap (λ (d : Db). d.deliveries) (sym (ok-injective h)) ∙ sym (append-nil db.deliveries))
insert_deliveries-RowsFor r (plan ∷ plans) db after h =
    let (row, e, k) = >>=-ok (delivery_row r plan) _ h in
    let (next, f, l) = >>=-ok (insert_row row db) _ k in
    let (_, g) = throw_if-ok _ internal_error _ f in
    let (rows, m, a) = insert_deliveries-RowsFor r plans next after l in
    (
      row ∷ rows,
      (delivery_row-RowFor r plan row e, m),
      a
          ∙ ap (λ (d : Db). d.deliveries ++ rows) (sym (ok-injective g))
          ∙ append_assoc db.deliveries (row ∷ []) rows,
    )

pub finalize_if-deliveries :
    (r : Request) (db after : Db) → finalize_if r db ≡ ok after → after.deliveries ≡ db.deliveries
unfolding finalize_if finalize_attachments
finalize_if-deliveries r db after h = finalized (has_files r.attachments) h
  where
    finalized :
        (b : Bool)
        → (if b then finalize_attachments r db else ok db) ≡ ok after
        → after.deliveries ≡ db.deliveries
    finalized false e = ap (λ (d : Db). d.deliveries) (sym (ok-injective e))
    finalized true e =
        let (_, g) = throw_if-ok _ attachment_storage_unavailable _ e in
        ap (λ (d : Db). d.deliveries) (sym (ok-injective g))

-- A submission that is stored brings one row for each delivery that `planDeliveries` plans for it, in
-- the plan's order and behind the rows that were there: a skipped one with its reason, a pending one
-- with the submission's fields or what the stream's mapping makes of them, due at once or, in a
-- digest, not before the year 9999. The worker is told exactly where a planned delivery is pending and in no digest.
pub store_submission-RowsFor :
    (p : Platform) (r : Request) (db after : Db) (a : Accepted)
    → store_submission p r db ≡ ok (after, a)
    → (plans : List DeliveryPlan) × (rows : List DeliveryRow) × (plan_deliveries p
          (plan_input r (within_quota r db))
        ≡ ok plans)
      × RowsFor r plans rows
      × (after.deliveries ≡ db.deliveries ++ rows)
      × ((a.has_pending_delivery ≡ true)
          ↔ ((plan : DeliveryPlan) × Has plan plans × IsInstant plan))
unfolding store_submission insert_submission record_drift
store_submission-RowsFor p r db after a h =
    let (plans, e, h1) = >>=-ok (plan_deliveries p (plan_input r (within_quota r db))) _ h in
    let (inserted, i, h2) =
      >>=-ok (insert_submission (submission_row r (within_quota r db)) db) _ h1 in
    let (finalized, f, h3) = >>=-ok (finalize_if r inserted) _ h2 in
    let (delivered, g, h4) = >>=-ok (insert_deliveries r plans (record_drift r finalized)) _ h3 in
    let (_, j) = throw_if-ok _ internal_error _ i in
    let last = ok-injective h4 in
    let (rows, m, d) = insert_deliveries-RowsFor r plans (record_drift r finalized) delivered g in
    (
      plans,
      rows,
      e,
      m,
      ap (λ (x : Db × Accepted). x.0.deliveries) (sym last)
          ∙ d
          ∙ ap (λ z. z ++ rows)
              (finalize_if-deliveries r inserted finalized f
                ∙ ap (λ (z : Db). z.deliveries) (sym (ok-injective j))),
      subst (λ b. (b ≡ true) ↔ ((plan : DeliveryPlan) × Has plan plans × IsInstant plan))
          (ap (λ (x : Db × Accepted). x.1.has_pending_delivery) last) (any-is_instant plans),
    )
