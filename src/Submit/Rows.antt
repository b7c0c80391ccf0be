-- ===== src/Submit/Rows.antt =====
-- What the transaction that stores a submission does to the table of submissions.
use postbag.Common.{◌≡◌, refl, ap, sym, ◌∙◌, Bool, true, false, List, [], ◌∷◌, ◌++◌, if◌then◌else◌}
use postbag.Errors.{
  ok, >>=-ok, throw_if-ok, ok-injective, internal_error, attachment_storage_unavailable,
}
use postbag.Routing.Types.{DeliveryPlan}
use postbag.Routing.Digest.{Platform}
use postbag.Routing.Plan.{plan_deliveries}
use postbag.Submit.Types.{Submission, Db}
use postbag.Submit.Requests.{Request, is_taken, submission_row, within_quota, plan_input}
use postbag.Submit.Store.{
  Accepted, store_submission, has_files, insert_submission, finalize_if, finalize_attachments,
  insert_deliveries, insert_row, delivery_row, record_drift,
}

insert_deliveries-submissions :
    (r : Request) (plans : List DeliveryPlan) (db after : Db)
    → insert_deliveries r plans db ≡ ok after
    → after.submissions ≡ db.submissions
unfolding insert_deliveries
insert_deliveries-submissions r [] db after h =
    ap (λ (d : Db). d.submissions) (sym (ok-injective h))
insert_deliveries-submissions r (plan ∷ plans) db after h =
    let (row, _, k) = >>=-ok (delivery_row r plan) _ h in
    let (next, e, l) = >>=-ok (insert_row row db) _ k in
    let (_, g) = throw_if-ok _ internal_error _ e in
    insert_deliveries-submissions r plans next after l
    ∙ ap (λ (d : Db). d.submissions) (sym (ok-injective g))

finalize_attachments-submissions :
    (r : Request) (db after : Db)
    → finalize_attachments r db ≡ ok after
    → after.submissions ≡ db.submissions
unfolding finalize_attachments
finalize_attachments-submissions r db after e =
    let (_, g) = throw_if-ok _ attachment_storage_unavailable _ e in
    ap (λ (d : Db). d.submissions) (sym (ok-injective g))

finalize_if-submissions :
    (r : Request) (db after : Db) → finalize_if r db ≡ ok after → after.submissions ≡ db.submissions
unfolding finalize_if
finalize_if-submissions r db after h = finalized (has_files r.attachments) h
  where
    finalized :
        (b : Bool)
        → (if b then finalize_attachments r db else ok db) ≡ ok after
        → after.submissions ≡ db.submissions
    finalized false e = ap (λ (d : Db). d.submissions) (sym (ok-injective e))
    finalized true e = finalize_attachments-submissions r db after e

inserted_row :
    (s : Submission) (db after : Db)
    → insert_submission s db ≡ ok after
    → (is_taken s.form_id s.idempotency_key db.submissions ≡ false)
      × (after.submissions ≡ db.submissions ++ (s ∷ []))
unfolding insert_submission
inserted_row s db after e =
    let (free, g) = throw_if-ok _ internal_error _ e in
    (free, ap (λ (d : Db). d.submissions) (sym (ok-injective g)))

recorded : (r : Request) (db : Db) → (record_drift r db).submissions ≡ db.submissions
unfolding record_drift
recorded r db = refl

pub store_submission-submissions :
    (p : Platform) (r : Request) (db after : Db) (a : Accepted)
    → store_submission p r db ≡ ok (after, a)
    → (after.submissions ≡ db.submissions ++ (submission_row r (within_quota r db) ∷ []))
      × (is_taken r.form.id r.idempotency_key db.submissions ≡ false)
      × (a.submission_id ≡ r.id)
      × (a.status ≡ (within_quota r db).status)
unfolding store_submission
store_submission-submissions p r db after a h =
    let (plans, _, h1) = >>=-ok (plan_deliveries p (plan_input r (within_quota r db))) _ h in
    let (inserted, e, h2) =
      >>=-ok (insert_submission (submission_row r (within_quota r db)) db) _ h1 in
    let (finalized, f, h3) = >>=-ok (finalize_if r inserted) _ h2 in
    let (delivered, g, h4) = >>=-ok (insert_deliveries r plans (record_drift r finalized)) _ h3 in
    let (free, row) = inserted_row (submission_row r (within_quota r db)) db inserted e in
    let last = ok-injective h4 in
    (
      ap (λ (x : Db × Accepted). x.0.submissions) (sym last)
          ∙ insert_deliveries-submissions r plans (record_drift r finalized) delivered g
          ∙ recorded r finalized
          ∙ finalize_if-submissions r inserted finalized f
          ∙ row,
      free,
      ap (λ (x : Db × Accepted). x.1.submission_id) (sym last),
      ap (λ (x : Db × Accepted). x.1.status) (sym last),
    )
