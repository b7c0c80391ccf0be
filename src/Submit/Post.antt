-- ===== src/Submit/Post.antt =====
-- The handler of `POST /s/:formId` for a form, from the look-up of an earlier submission to the
-- answer: apps/server/src/routes/submit.ts. What other requests do between its transactions, what
-- the object storage answers and what becomes of the connection are arguments.
use postbag.Common.{ℕ, suc, ltb, Bool, false, Option, none, some, List, map, length, if◌then◌else◌}
use postbag.Errors.{Result, err, ok, internal_error, attachment_storage_unavailable, ErrorCode}
use postbag.Plan.Limits.{PlanLimits}
use postbag.Routing.Types.{Key}
use postbag.Routing.Digest.{Platform}
use postbag.Submit.Types.{Attachment, Db}
use postbag.Submit.Requests.{Request, Receipt}
use postbag.Submit.Store.{Accepted, store_submission, has_files}
use postbag.Submit.Uploads.{
  Admission, replay, waiting, reserved, admit_loop, cleanup_rejected_attachments, receipt_for,
}

-- How the transaction ends for the client: acknowledged, or with a lost connection, the COMMIT
-- having been applied or not when the handler looks.
pub data Connection : Type 0 where
  acknowledged lost_applied lost_unapplied : Connection

-- `failed_put` is the number of the file that the storage does not take, if there is one.
pub record World : Type 0 where
  pub before_admission : Db → Db
  pub rounds : List (Db → Db)
  pub before_store : Db → Db
  pub failed_put : Option ℕ
  pub deleted : Attachment → Bool
  pub connection : Connection

abbrev pub fresh_receipt : Request → Accepted → Receipt
fresh_receipt r a = record {
  submission_id = a.submission_id;
  status = a.status;
  idempotent = false;
  attachments = map (λ (f : Attachment). f.id) r.attachments;
}

-- The end of the failure handling: the receipt of a twin that was stored, or the error.
abbrev pub receipt_or : ErrorCode → Option Receipt → Result Receipt
receipt_or e none = err e
receipt_or e (some receipt) = ok receipt

abbrev pub after_failure : ErrorCode → Request → Db → Db × Result Receipt
after_failure e r db = (db, receipt_or e (receipt_for r db))

unfoldable pub cleaned : Request → (Attachment → Bool) → ℕ → Db → Db
unfolding cleanup_rejected_attachments
cleaned r deleted attempted db =
    if has_files r.attachments then cleanup_rejected_attachments r deleted attempted db else db

abbrev pub connected : Request → Db → Db → Accepted → Connection → Db × Result Receipt
connected r before db a acknowledged = (db, ok (fresh_receipt r a))
connected r before db a lost_applied = (db, ok (fresh_receipt r a))
connected r before db a lost_unapplied = after_failure internal_error r before

-- The transaction's result as the client sees it. `before` is what a COMMIT that was not applied
-- leaves.
unfoldable pub settle : Request → World → Db → Result (Db × Accepted) → Db × Result Receipt
unfolding cleaned
settle r w before (err e) = after_failure e r (cleaned r w.deleted (length r.attachments) before)
settle r w before (ok (db, a)) = connected r before db a w.connection

-- The file at which the uploads fail, if one of the request's files is not taken.
abbrev pub put_failure : Request → World → Option ℕ
put_failure r w = elim w.failed_put [
  | none ↦ none
  | some n ↦ if ltb n (length r.attachments) then some n else none
]

unfoldable pub store_or_clean : Platform → Request → World → Db → Option ℕ → Db × Result Receipt
unfolding settle store_submission
store_or_clean p r w db none = settle r w db (store_submission p r db)
store_or_clean p r w db (some n) =
    after_failure attachment_storage_unavailable r (cleaned r w.deleted (suc n) db)

-- The files are put one after the other; those that were tried are cleaned up.
unfoldable pub upload_and_store : Platform → Request → World → Db → Db × Result Receipt
unfolding store_or_clean
upload_and_store p r w db = store_or_clean p r w (w.before_store db) (put_failure r w)

abbrev pub admitted : (Db → Db × Result Receipt) → Db × Result Admission → Db × Result Receipt
admitted store (db, err e) = (db, err e)
admitted store (db, ok (replay receipt)) = (db, ok receipt)
admitted store (db, ok waiting) = (db, err attachment_storage_unavailable)
admitted store (db, ok reserved) = store db

-- `hash` is the hash of the form and the key, where the request has a key.
unfoldable pub admit_and_store :
    PlanLimits → Platform → Request → Option Key → World → Db → Db × Result Receipt
unfolding upload_and_store admit_loop
admit_and_store limits p r hash w db =
    if has_files r.attachments
    then admitted (λ d. upload_and_store p r w d) (admit_loop limits r hash w.rounds db)
    else upload_and_store p r w db

abbrev pub answered_or : Db → Option Receipt → Db × Result Receipt → Db × Result Receipt
answered_or db (some receipt) rest = (db, ok receipt)
answered_or db none rest = rest

-- The look-up before the status is decided, and the rest. The look-up that a key in a header allows
-- before the body is read is the same, earlier.
unfoldable pub post :
    PlanLimits → Platform → Request → Option Key → World → Db → Db × Result Receipt
unfolding admit_and_store
post limits p r hash w db =
    answered_or db (receipt_for r db) (admit_and_store limits p r hash w (w.before_admission db))
