-- ===== src/Submit/Uploads.antt =====
-- The room for a submission's files, and what is left of them where it is not stored:
-- apps/server/src/routes/submit.ts with `retainedAttachmentStorageBytes` of
-- apps/server/src/lib/planUsage.ts. What other requests do while one waits is an argument.
use postbag.Common.{
  ℕ, ◌+◌, Bool, true, false, ◌&&◌, ◌||◌, not, Option, none, some, List, [], ◌∷◌, ◌++◌, any, map,
  keep, modify, take, drop, ◌==◌, if◌then◌else◌,
}
use postbag.Errors.{Result, err, ok, internal_error, attachment_storage_unavailable}
use postbag.Plan.Limits.{PlanLimits, assert_locked_attachment_storage_capacity}
use postbag.Routing.Types.{Key}
use postbag.Submit.Types.{Attachment, AttachmentRow, ObjectDeletion, Db}
use postbag.Submit.Requests.{Request, Receipt, existing_submission_receipt}
use postbag.Submit.Store.{is_file}

-- `sum(size_bytes)` of the organization's rows
abbrev pub attachment_bytes : Key → List AttachmentRow → ℕ
attachment_bytes organization [] = 0
attachment_bytes organization (a ∷ rows) =
    (if a.organization_id == organization then a.file.size_bytes else 0)
    + attachment_bytes organization rows

abbrev pub deletion_bytes : Key → List ObjectDeletion → ℕ
deletion_bytes organization [] = 0
deletion_bytes organization (d ∷ rows) =
    (if d.organization_id == organization then d.size_bytes else 0)
    + deletion_bytes organization rows

abbrev pub retained_attachment_storage_bytes : Key → Db → ℕ
retained_attachment_storage_bytes organization db =
    attachment_bytes organization db.attachments + deletion_bytes organization db.object_deletions

abbrev pub requested_bytes : List Attachment → ℕ
requested_bytes [] = 0
requested_bytes (a ∷ files) = a.size_bytes + requested_bytes files

pub data Admission : Type 0 where
  replay : Receipt → Admission
  waiting : Admission
  reserved : Admission

-- `UPLOAD_RESERVATION_DELAY_MS`
abbrev pub upload_reservation_delay_ms : ℕ
upload_reservation_delay_ms = 3600000

abbrev pub reservation : Request → Option Key → ℕ → Attachment → ObjectDeletion
reservation r hash size_bytes a = record {
  storage_key = a.storage_key;
  organization_id = r.form.organization_id;
  size_bytes = size_bytes;
  upload_reservation = true;
  upload_idempotency_hash = hash;
  next_attempt_at = r.now + upload_reservation_delay_ms;
}

abbrev pub receipt_for : Request → Db → Option Receipt
receipt_for r db = elim r.idempotency_key [
  | none ↦ none
  | some key ↦ existing_submission_receipt db r.form key
]

abbrev has_hash : Option Key → Key → Bool
has_hash none h = false
has_hash (some g) h = g == h

-- The primary key, and the index of the organization's upload hashes.
abbrev pub conflicts : Request → Key → Attachment → ObjectDeletion → Bool
conflicts r hash leader d =
    (d.storage_key == leader.storage_key)
    || ((d.organization_id == r.form.organization_id) && has_hash d.upload_idempotency_hash hash)

abbrev pub insert_reservation : ObjectDeletion → Db → Db
insert_reservation d db = record db { object_deletions = db.object_deletions ++ (d ∷ []) }

abbrev pub insert_reservations : Request → List Attachment → Db → Db
insert_reservations r files db = record db {
  object_deletions =
      db.object_deletions ++ map (λ (a : Attachment). reservation r none a.size_bytes a) files;
}

abbrev pub set_size : Attachment → Db → Db
set_size leader db = record db {
  object_deletions =
      modify (λ d. d.storage_key == leader.storage_key)
        (λ d. record d { size_bytes = leader.size_bytes }) db.object_deletions;
}

abbrev pub drop_reservation : Key → Db → Db
drop_reservation key db = record db {
  object_deletions = keep (λ d. not (d.storage_key == key)) db.object_deletions;
}

abbrev pub reserve_if : Result (Unit {0}) → Db → Db → Db × Result Admission
reserve_if (err e) before after = (before, err e)
reserve_if (ok _) before after = (after, ok reserved)

-- The reservations, where there is room for all the bytes; `before` is what an error rolls back to.
unfoldable pub reserve_rest :
    PlanLimits → Request → List Attachment → Db → (Db → Db) → Db → Db × Result Admission
reserve_rest limits r files before sized db =
    reserve_if
      (assert_locked_attachment_storage_capacity limits
        (retained_attachment_storage_bytes r.form.organization_id db)
        (requested_bytes r.attachments))
      before (insert_reservations r files (sized db))

-- The second look-up, behind the insertion of the first file's row.
unfoldable pub behind_claim :
    PlanLimits
    → Request
    → Attachment
    → List Attachment
    → Db
    → Db
    → Option Receipt
    → Db × Result Admission
unfolding reserve_rest
behind_claim limits r leader others db claimed (some receipt) =
    (drop_reservation leader.storage_key claimed, ok (replay receipt))
behind_claim limits r leader others db claimed none =
    reserve_rest limits r others db (set_size leader) claimed

-- With an idempotency key the first file's row is claimed first, and it shuts out the request's twins.
unfoldable pub claim_leader :
    PlanLimits → Request → Key → Attachment → List Attachment → Db → Db × Result Admission
unfolding behind_claim
claim_leader limits r hash leader others db =
    let claimed = insert_reservation (reservation r (some hash) 0 leader) db in
    if any (conflicts r hash leader) db.object_deletions
    then (db, ok waiting)
    else behind_claim limits r leader others db claimed (receipt_for r claimed)

unfoldable pub reserve_by_hash :
    PlanLimits → Request → Option Key → List Attachment → Db → Db × Result Admission
unfolding claim_leader
reserve_by_hash limits r none files db = reserve_rest limits r files db (λ d. d) db
reserve_by_hash limits r (some hash) [] db = (db, err internal_error)
reserve_by_hash limits r (some hash) (leader ∷ others) db =
    claim_leader limits r hash leader others db

abbrev pub replayed_or : Db → Option Receipt → Db × Result Admission → Db × Result Admission
replayed_or db (some receipt) rest = (db, ok (replay receipt))
replayed_or db none rest = rest

-- One transaction of the admission. The insertion of the first row may wait for another request,
-- which `meanwhile` stands for.
unfoldable pub admit : PlanLimits → Request → Option Key → (Db → Db) → Db → Db × Result Admission
unfolding reserve_by_hash
admit limits r hash meanwhile db =
    replayed_or db (receipt_for r db) (reserve_by_hash limits r hash r.attachments (meanwhile db))

-- What the loop does with an admission: it goes round again where it has to wait.
abbrev pub next_round : (Db → Db × Result Admission) → Db × Result Admission → Db × Result Admission
next_round again (after, err e) = (after, err e)
next_round again (after, ok (replay receipt)) = (after, ok (replay receipt))
next_round again (after, ok reserved) = (after, ok reserved)
next_round again (after, ok waiting) = again after

-- The rounds of the loop, one at least, each with what other requests do in it; behind the last one
-- the deadline has passed.
unfoldable pub admit_loop :
    PlanLimits → Request → Option Key → List (Db → Db) → Db → Db × Result Admission
unfolding admit
admit_loop limits r hash [] db = (db, err attachment_storage_unavailable)
admit_loop limits r hash (meanwhile ∷ rounds) db =
    next_round (λ after. admit_loop limits r hash rounds after) (admit limits r hash meanwhile db)

-- `onConflictDoUpdate`: the row of a file that the storage did not delete is left to the sweep.
abbrev pub leave_to_sweep : Request → Attachment → Db → Db
leave_to_sweep r a db =
    let left : ObjectDeletion = record {
      storage_key = a.storage_key;
      organization_id = r.form.organization_id;
      size_bytes = a.size_bytes;
      upload_reservation = false;
      upload_idempotency_hash = none;
      next_attempt_at = r.now;
    } in
    if any (λ d. d.storage_key == a.storage_key) db.object_deletions
    then record db {
      object_deletions =
          modify (λ d. d.storage_key == a.storage_key) (λ d. left) db.object_deletions;
    }
    else insert_reservation left db

-- `deleted` says for which files the storage answers the deletion.
unfoldable pub cleanup_uploaded_attachments :
    Request → (Attachment → Bool) → List Attachment → Db → Db
cleanup_uploaded_attachments r deleted [] db = db
cleanup_uploaded_attachments r deleted (a ∷ files) db =
    cleanup_uploaded_attachments r deleted files
      (if deleted a then drop_reservation a.storage_key db else leave_to_sweep r a db)

unfoldable pub cleanup_rejected_attachments : Request → (Attachment → Bool) → ℕ → Db → Db
unfolding cleanup_uploaded_attachments
cleanup_rejected_attachments r deleted attempted db =
    cleanup_uploaded_attachments r deleted (take attempted r.attachments) (record db {
      object_deletions =
          keep (λ d. not (is_file (drop attempted r.attachments) d)) db.object_deletions;
    })
