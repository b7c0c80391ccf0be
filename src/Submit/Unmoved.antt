-- ===== src/Submit/Unmoved.antt =====
-- The admission of files and the clean-up leave the submissions as they are.
use postbag.Common.{
  ℕ, ◌≡◌, refl, subst, sym, ◌∙◌, inl, inr, Bool, true, false, not, Option, none, some, List, [],
  ◌∷◌, ◌++◌, Text, any, Bool-cases, if◌then◌else◌, ◌==◌, arith, All, All-append, find, take, drop,
  keep,
}
use postbag.Errors.{Result, err, ok}
use postbag.Plan.Limits.{PlanLimits, assert_locked_attachment_storage_capacity}
use postbag.Routing.Types.{Key}
use postbag.Submit.Types.{Submission, Attachment, Db, Form}
use postbag.Submit.Requests.{Request, Receipt, with_key, submission_row}
use postbag.Submit.Store.{has_files, is_file}
use postbag.Submit.Verdict.{Verdict}
use postbag.Submit.Uploads.{
  Admission, replay, waiting, reserved, admit, admit_loop, next_round, reserve_by_hash,
  claim_leader, reserve_rest, reserve_if, cleanup_rejected_attachments,
  cleanup_uploaded_attachments, receipt_for, reservation, insert_reservation, insert_reservations,
  set_size, drop_reservation, conflicts, retained_attachment_storage_bytes, requested_bytes,
  behind_claim, leave_to_sweep, replayed_or,
}
use postbag.Submit.Post.{cleaned}

find-append :
    {A : Type 0} (p : A → Bool) (xs ys : List A) (a : A)
    → find p xs ≡ some a
    → find p (xs ++ ys) ≡ some a
find-append p [] ys a h = cc
find-append p (x ∷ xs) ys a h = ground (arith, find-append p xs ys a)

-- The foreign key of the table: a form's submissions belong to the form's organization.
abbrev pub OwnedBy : Form → List Submission → Type 0
OwnedBy f rows =
    All (λ (s : Submission). (s.form_id == f.id) ≡ true → s.organization_id ≡ f.organization_id)
      rows

-- The row that is stored for a key of a form stays the one, and the foreign key holds.
abbrev pub Kept : Form → Db → Db → Type 0
Kept f db after =
    (OwnedBy f db.submissions → OwnedBy f after.submissions)
    × ((key : Text) (s : Submission)
        → find (with_key f.id key) db.submissions ≡ some s
        → find (with_key f.id key) after.submissions ≡ some s)

abbrev pub Keeps : Form → (Db → Db) → Type 0
Keeps f others = (db : Db) → Kept f db (others db)

-- The forms that two requests name are one row, if they have one identifier.
abbrev pub Agrees : Form → Form → Type 0
Agrees f g = (g.id == f.id) ≡ true → g.organization_id ≡ f.organization_id

pub Kept-same : (f : Form) (db after : Db) → after.submissions ≡ db.submissions → Kept f db after
Kept-same f db after e = (
  λ o. subst (OwnedBy f) (sym e) o,
  λ key s h. subst (λ rows. find (with_key f.id key) rows ≡ some s) (sym e) h,
)

pub Kept-trans : (f : Form) (db mid after : Db) → Kept f db mid → Kept f mid after → Kept f db after
Kept-trans f db mid after h k = (λ o. k.0 (h.0 o), λ key s e. k.1 key s (h.1 key s e))

pub Kept-append :
    (f : Form) (r : Request) (v : Verdict) (db after : Db)
    → Agrees f r.form
    → after.submissions ≡ db.submissions ++ (submission_row r v ∷ [])
    → Kept f db after
Kept-append f r v db after g e = (
  λ o. subst (OwnedBy f) (sym e) (All-append _ db.submissions (submission_row r v ∷ []) o (g, tt)),
  λ key s h.
      subst (λ rows. find (with_key f.id key) rows ≡ some s) (sym e)
        (find-append (with_key f.id key) db.submissions (submission_row r v ∷ []) s h),
)

-- The admission and the clean-up leave the table alone.
reserve_rest-submissions :
    (limits : PlanLimits) (r : Request) (files : List Attachment) (before db : Db) (sized : Db → Db)
    → before.submissions ≡ db.submissions
    → (sized db).submissions ≡ db.submissions
    → (reserve_rest limits r files before sized db).0.submissions ≡ db.submissions
unfolding reserve_rest
reserve_rest-submissions limits r files before db sized e s = room (
    assert_locked_attachment_storage_capacity limits
      (retained_attachment_storage_bytes r.form.organization_id db) (requested_bytes r.attachments))
  where
    room :
        (c : Result (Unit {0}))
        → (reserve_if c before (insert_reservations r files (sized db))).0.submissions
          ≡ db.submissions
    room (err x) = e
    room (ok x) = s

behind_claim-submissions :
    (limits : PlanLimits) (r : Request) (leader : Attachment) (others : List Attachment)
    (db claimed : Db) (o : Option Receipt)
    → claimed.submissions ≡ db.submissions
    → (behind_claim limits r leader others db claimed o).0.submissions ≡ db.submissions
unfolding behind_claim
behind_claim-submissions limits r leader others db claimed (some receipt) e = e
behind_claim-submissions limits r leader others db claimed none e =
    reserve_rest-submissions limits r others db claimed (set_size leader) (sym e) refl ∙ e

claim_leader-submissions :
    (limits : PlanLimits) (r : Request) (hash : Key) (leader : Attachment)
    (others : List Attachment) (db : Db)
    → (claim_leader limits r hash leader others db).0.submissions ≡ db.submissions
unfolding claim_leader
claim_leader-submissions limits r hash leader others db =
    elim (Bool-cases (any (conflicts r hash leader) db.object_deletions)) [
      | inl e ↦ rw e refl
      | inr e ↦ rw e (
          behind_claim-submissions limits r leader others db
            (insert_reservation (reservation r (some hash) 0 leader) db)
            (receipt_for r (insert_reservation (reservation r (some hash) 0 leader) db)) refl)
    ]

reserve_by_hash-submissions :
    (limits : PlanLimits) (r : Request) (hash : Option Key) (files : List Attachment) (db : Db)
    → (reserve_by_hash limits r hash files db).0.submissions ≡ db.submissions
unfolding reserve_by_hash
reserve_by_hash-submissions limits r none files db =
    reserve_rest-submissions limits r files db db (λ d. d) refl refl
reserve_by_hash-submissions limits r (some hash) [] db = refl
reserve_by_hash-submissions limits r (some hash) (leader ∷ others) db =
    claim_leader-submissions limits r hash leader others db

pub admit-Kept :
    (f : Form) (limits : PlanLimits) (r : Request) (hash : Option Key) (meanwhile : Db → Db)
    (db : Db)
    → Keeps f meanwhile
    → Kept f db (admit limits r hash meanwhile db).0
unfolding admit
admit-Kept f limits r hash meanwhile db k = either (receipt_for r db)
  where
    rest : Db × Result Admission
    rest = reserve_by_hash limits r hash r.attachments (meanwhile db)

    either : (o : Option Receipt) → Kept f db (replayed_or db o rest).0
    either none = Kept-trans f db (meanwhile db) rest.0 (k db) (
        Kept-same f (meanwhile db) rest.0
          (reserve_by_hash-submissions limits r hash r.attachments (meanwhile db)))
    either (some receipt) = Kept-same f db db refl

next_round-Kept :
    (f : Form) (db : Db) (again : Db → Db × Result Admission) (x : Db × Result Admission)
    → ((d : Db) → Kept f d (again d).0)
    → Kept f db x.0
    → Kept f db (next_round again x).0
next_round-Kept f db again (after, err e) g k = k
next_round-Kept f db again (after, ok (replay receipt)) g k = k
next_round-Kept f db again (after, ok reserved) g k = k
next_round-Kept f db again (after, ok waiting) g k =
    Kept-trans f db after (again after).0 k (g after)

pub admit_loop-Kept :
    (f : Form) (limits : PlanLimits) (r : Request) (hash : Option Key) (rounds : List (Db → Db))
    (db : Db)
    → All (Keeps f) rounds
    → Kept f db (admit_loop limits r hash rounds db).0
unfolding admit_loop
admit_loop-Kept f limits r hash [] db h = Kept-same f db db refl
admit_loop-Kept f limits r hash (meanwhile ∷ rounds) db h =
    next_round-Kept f db (λ d. admit_loop limits r hash rounds d) (admit limits r hash meanwhile db)
      (λ d. admit_loop-Kept f limits r hash rounds d h.1)
      (admit-Kept f limits r hash meanwhile db h.0)

leave_to_sweep-submissions :
    (r : Request) (a : Attachment) (db : Db) → (leave_to_sweep r a db).submissions ≡ db.submissions
leave_to_sweep-submissions r a db =
    elim (Bool-cases (any (λ d. d.storage_key == a.storage_key) db.object_deletions)) [
      | inl e ↦ rw e refl
      | inr e ↦ rw e refl
    ]

cleanup_uploaded_attachments-submissions :
    (r : Request) (deleted : Attachment → Bool) (files : List Attachment) (db : Db)
    → (cleanup_uploaded_attachments r deleted files db).submissions ≡ db.submissions
unfolding cleanup_uploaded_attachments
cleanup_uploaded_attachments-submissions r deleted [] db = refl
cleanup_uploaded_attachments-submissions r deleted (a ∷ files) db =
    cleanup_uploaded_attachments-submissions r deleted files _ ∙ one (deleted a)
  where
    one :
        (b : Bool)
        → (if b then drop_reservation a.storage_key db else leave_to_sweep r a db).submissions
          ≡ db.submissions
    one true = refl
    one false = leave_to_sweep-submissions r a db

cleanup_rejected_attachments-submissions :
    (r : Request) (deleted : Attachment → Bool) (n : ℕ) (db : Db)
    → (cleanup_rejected_attachments r deleted n db).submissions ≡ db.submissions
unfolding cleanup_rejected_attachments
cleanup_rejected_attachments-submissions r deleted n db =
    cleanup_uploaded_attachments-submissions r deleted (take n r.attachments) (record db {
      object_deletions = keep (λ d. not (is_file (drop n r.attachments) d)) db.object_deletions;
    })

pub cleaned-submissions :
    (r : Request) (deleted : Attachment → Bool) (n : ℕ) (db : Db)
    → (cleaned r deleted n db).submissions ≡ db.submissions
unfolding cleaned
cleaned-submissions r deleted n db = either (has_files r.attachments)
  where
    either :
        (b : Bool)
        → (if b then cleanup_rejected_attachments r deleted n db else db).submissions
          ≡ db.submissions
    either true = cleanup_rejected_attachments-submissions r deleted n db
    either false = refl
